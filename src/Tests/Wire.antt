-- ===== src/Tests/Wire.antt =====
-- The wire format at concrete messages.
use logstore_archive.Base.{String, ◌≡◌, refl, [], ◌∷◌, arith}
use logstore_archive.Base.Result.{ok}
use logstore_archive.Protocol.Js.{Js, Opt}
use logstore_archive.Protocol.Message.{
  QueryType, from_options, QueryRequest, MessageMetadata, SystemMessage, message, Body, Payload,
  SystemMessageType,
}
use logstore_archive.Protocol.Registry.{
  Registry, Table, Serializer, serializer_v1, get, set, loaded, register_serializer,
}
use logstore_archive.Protocol.Wire.Encode.{serialize}
use logstore_archive.Protocol.Wire.Decode.{deserialize}
use logstore_archive.Protocol.Wire.Arrival.{wire, depth, IsSendable}
use logstore_archive.Protocol.Wire.RoundTrip.{deserialize-serialize}
use logstore_archive.Tests.TextJson.{text_json}

abbrev v1_table : Table Serializer
v1_table =
    (4, serializer_v1 SystemMessageType.proof_of_report)
    ∷ (3, serializer_v1 SystemMessageType.query_propagate)
    ∷ (1, serializer_v1 SystemMessageType.query_request)
    ∷ (2, serializer_v1 SystemMessageType.query_response)
    ∷ (7, serializer_v1 SystemMessageType.recovery_complete)
    ∷ (5, serializer_v1 SystemMessageType.recovery_request)
    ∷ (6, serializer_v1 SystemMessageType.recovery_response)
    ∷ []

abbrev v1 : Registry
v1 = (1, v1_table) ∷ []

loaded-v1 : loaded ≡ ok v1
unfolding loaded
loaded-v1 = refl

-- A query from a timestamp on, with neither sequence number nor publisher, and a limit.
abbrev query : QueryRequest
query = record {
  request_id = "r";
  consumer_id = "c";
  stream_id = "s";
  partition = 0;
  query_type = QueryType.from;
  query_options =
      from_options (record { timestamp = 9; sequence_number = Opt.undefined }) Opt.undefined
        (Opt.given 5);
}

abbrev metadata : MessageMetadata
metadata = record {
  stream_id = "sys";
  stream_partition = 0;
  timestamp = 1;
  sequence_number = 2;
  signature = "x";
  publisher_id = "p";
  msg_chain_id = "m";
}

-- The query inside a RecoveryResponse.
abbrev nested : SystemMessage
nested = message 1 3 (
    Body.recovery_response "q"
      (Payload.cons (message 1 0 (Body.query_request query)) metadata Payload.nil))

deserialize-serialize_example :
    (text : String) × (serialize text_json v1 nested ≡ ok text)
    × (deserialize text_json v1 2 (Js.str text) ≡ ok (wire nested))
deserialize-serialize_example =
    deserialize-serialize text_json v1 loaded-v1 2 nested
      (unfold IsSendable in (refl, ((refl, tt), tt))) (unfold depth in omega arith)

abbrev only_first : Registry
only_first = (1, (4, serializer_v1 SystemMessageType.proof_of_report) ∷ []) ∷ []

abbrev v1_and_two : Registry
v1_and_two =
    (1, (4, serializer_v1 SystemMessageType.proof_of_report) ∷ [])
    ∷ (2, (1, serializer_v1 SystemMessageType.query_request) ∷ [])
    ∷ []

registered_two :
    register_serializer only_first 2 1 (serializer_v1 SystemMessageType.query_request)
    ≡ ok v1_and_two
unfolding register_serializer get set
registered_two = refl
