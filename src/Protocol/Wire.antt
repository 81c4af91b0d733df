-- ===== src/Protocol/Wire.antt =====
-- packages/protocol/src/system: how a message becomes a text, and a text a message.
pub mod Encode
pub mod Decode
pub mod Arrival
pub mod Fields
pub mod RoundTrip
pub mod Queries
