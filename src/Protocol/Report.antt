-- ===== src/Protocol/Report.antt =====
-- packages/protocol/src/report and interfaces/report.v1.ts: the report of a period, its serialized
-- form, what it sends to the contract and what is hashed of it.
pub mod Laws
pub mod SystemReport
use logstore_archive.Base.{
  ℕ, String, ◌≡◌, Bool, Option, none, some, List, [], ◌∷◌, ◌++◌, map, ◌==◌, if◌then◌else◌,
}
use logstore_archive.Base.JsMap
use logstore_archive.Base.JsMap.{JsMap}
use logstore_archive.Base.Result.{Result, ok, err, ◌>>=◌}
use logstore_archive.Protocol.Message.{QueryOptions, ProofOfReport}

-- A text `0x…`, by what follows the `0x`.
pub data HexString : Type 0 where
  zero_x : String → HexString

-- `BigNumber` of ethers: a number is read back from its `toHexString()`. `to_big_int` is
-- `toBigInt()`.
pub record BigNumbers : Type 1 where
  pub BigNumber : Type 0
  pub BigInt : Type 0
  pub to_hex_string : BigNumber → HexString
  pub from : HexString → BigNumber
  pub to_big_int : BigNumber → BigInt
  pub from_to_hex_string : (n : BigNumber) → from (to_hex_string n) ≡ n

-- `Buffer` of Node.js, between a text and the hexadecimal digits of its UTF-8. It reads back the
-- texts that are well-formed.
pub record Buffers : Type 1 where
  pub IsWellFormed : String → Type 0
  pub utf8_to_hex : String → String
  pub hex_to_utf8 : String → String
  pub hex_to_utf8-utf8_to_hex : (s : String) → IsWellFormed s → hex_to_utf8 (utf8_to_hex s) ≡ s

pub record Stream (I C : Type 0) : Type 0 where
  pub id : I
  pub capture : C
  pub bytes : ℕ

pub record Consumer (C : Type 0) : Type 0 where
  pub id : String
  pub capture : C
  pub bytes : ℕ

pub record StorageEvent (I : Type 0) : Type 0 where
  pub id : I
  pub hash : String
  pub size : ℕ

pub record QueryEvent : Type 0 where
  pub id : String
  pub hash : String
  pub size : ℕ
  pub query : QueryOptions
  pub consumer : String

pub record Events (I : Type 0) : Type 0 where
  pub queries : List QueryEvent
  pub storage : List (StorageEvent I)

-- `IReportV1` and `IReportV1Serialized`, with the types of an id and of an amount; `v` is always V1
pub record ReportV1 (I C : Type 0) : Type 0 where
  pub id : String
  pub height : ℕ
  pub treasury : C
  pub streams : List (Stream I C)
  pub consumers : List (Consumer C)
  pub nodes : JsMap C
  pub delegates : JsMap (JsMap C)
  pub events : Option (Events I)

-- `Object.entries(o).forEach` that fills a new object.
unfoldable pub copy : {A C : Type 0} → (A → C) → JsMap C → JsMap A → JsMap C
copy f m [] = m
copy f m ((k, v) ∷ rest) = copy f (JsMap.set m k (f v)) rest

abbrev pub map_events : {I K : Type 0} → (I → K) → Option (Events I) → Option (Events K)
map_events f none = none
map_events f (some e) = some (record {
  queries = e.queries;
  storage = map (λ p. record { id = f p.id; hash = p.hash; size = p.size }) e.storage;
})

-- `Object.keys` and `Object.values`
unfoldable pub keys : {A : Type 0} → JsMap A → List String
keys [] = []
keys ((k, v) ∷ m) = k ∷ keys m

unfoldable pub values : {A : Type 0} → JsMap A → List A
values [] = []
values ((k, v) ∷ m) = v ∷ values m

-- `ReportContractParams`
pub record ContractParams (B : Type 0) : Type 0 where
  pub id : String
  pub height : ℕ
  pub streams : List String
  pub write_capture_amounts : List B
  pub write_bytes : List ℕ
  pub read_consumer_addresses : List String
  pub read_capture_amounts : List B
  pub read_bytes : List ℕ
  pub nodes : List String
  pub node_changes : List B
  pub delegates : List String
  pub delegate_nodes : List (List String)
  pub delegate_node_changes : List (List B)
  pub treasury_supply_change : B

-- A value with its Solidity type; a hexadecimal text is a `string`.
pub data Solidity : Type 0 where
  bytes : String → Solidity
  string : String → Solidity
  hex : HexString → Solidity
  address : String → Solidity
  uint256 : ℕ → Solidity

-- `pack` and `keccak256` of @ethersproject/solidity
pub record Hashing : Type 0 where
  pub solidity_pack : List Solidity → String
  pub solidity_keccak256 : List Solidity → String

module _ (B : BigNumbers) (F : Buffers) where
  abbrev pub Plain : Type 0
  Plain = ReportV1 String B.BigNumber

  abbrev pub Serialized : Type 0
  Serialized = ReportV1 HexString HexString

  abbrev pub str_to_hex : String → HexString
  str_to_hex s = zero_x (F.utf8_to_hex s)

  abbrev pub hex_to_str : HexString → String
  hex_to_str (zero_x digits) = F.hex_to_utf8 digits

  abbrev pub serialize_stream : Stream String B.BigNumber → Stream HexString HexString
  serialize_stream s = record {
    id = str_to_hex s.id;
    capture = B.to_hex_string s.capture;
    bytes = s.bytes;
  }

  abbrev pub deserialize_stream : Stream HexString HexString → Stream String B.BigNumber
  deserialize_stream s = record {
    id = hex_to_str s.id;
    capture = B.from s.capture;
    bytes = s.bytes;
  }

  abbrev pub serialize_consumer : Consumer B.BigNumber → Consumer HexString
  serialize_consumer c = record { id = c.id; capture = B.to_hex_string c.capture; bytes = c.bytes }

  abbrev pub deserialize_consumer : Consumer HexString → Consumer B.BigNumber
  deserialize_consumer c = record { id = c.id; capture = B.from c.capture; bytes = c.bytes }

  unfoldable pub serialize : Plain → Serialized
  serialize p = record {
    id = p.id;
    height = p.height;
    treasury = B.to_hex_string p.treasury;
    streams = map serialize_stream p.streams;
    consumers = map serialize_consumer p.consumers;
    nodes = copy B.to_hex_string [] p.nodes;
    delegates = copy (copy B.to_hex_string []) [] p.delegates;
    events = map_events str_to_hex p.events;
  }

  unfoldable pub deserialize : Serialized → Plain
  deserialize p = record {
    id = p.id;
    height = p.height;
    treasury = B.from p.treasury;
    streams = map deserialize_stream p.streams;
    consumers = map deserialize_consumer p.consumers;
    nodes = copy B.from [] p.nodes;
    delegates = copy (copy B.from []) [] p.delegates;
    events = map_events hex_to_str p.events;
  }

  -- `IReportV1 | IReportV1Serialized`, told apart by the flag `s`
  pub data Report : Type 0 where
    plain : Plain → Report
    serialized : Serialized → Report

  abbrev pub as_serialized : Report → Serialized
  as_serialized (plain p) = serialize p
  as_serialized (serialized p) = p

  abbrev pub as_plain : Report → Plain
  as_plain (plain p) = p
  as_plain (serialized p) = deserialize p

  abbrev pub contract_params : Plain → ContractParams B.BigInt
  contract_params r = record {
    id = r.id;
    height = r.height;
    streams = map (λ s. s.id) r.streams;
    write_capture_amounts = map (λ s. B.to_big_int s.capture) r.streams;
    write_bytes = map (λ s. s.bytes) r.streams;
    read_consumer_addresses = map (λ c. c.id) r.consumers;
    read_capture_amounts = map (λ c. B.to_big_int c.capture) r.consumers;
    read_bytes = map (λ c. c.bytes) r.consumers;
    nodes = keys r.nodes;
    node_changes = map B.to_big_int (values r.nodes);
    delegates = keys r.delegates;
    delegate_nodes = map keys (values r.delegates);
    delegate_node_changes = map (λ d. map B.to_big_int (values d)) (values r.delegates);
    treasury_supply_change = B.to_big_int r.treasury;
  }

  unfoldable pub to_contract : Report → ContractParams B.BigInt
  to_contract r = contract_params (as_plain r)

  module _ (H : Hashing) where
    abbrev pack_streams : String → List (Stream HexString HexString) → String
    pack_streams pack [] = pack
    pack_streams pack (p ∷ ps) =
        pack_streams
          (H.solidity_pack
            (bytes pack ∷ string (hex_to_str p.id) ∷ hex p.capture ∷ uint256 p.bytes ∷ []))
          ps

    abbrev pack_consumers : String → List (Consumer HexString) → String
    pack_consumers pack [] = pack
    pack_consumers pack (p ∷ ps) =
        pack_consumers
          (H.solidity_pack (bytes pack ∷ address p.id ∷ hex p.capture ∷ uint256 p.bytes ∷ [])) ps

    abbrev pack_nodes : String → JsMap HexString → String
    pack_nodes pack [] = pack
    pack_nodes pack ((id, change) ∷ ps) =
        pack_nodes (H.solidity_pack (bytes pack ∷ address id ∷ hex change ∷ [])) ps

    abbrev pack_delegates : String → JsMap (JsMap HexString) → String
    pack_delegates pack [] = pack
    pack_delegates pack ((id, nodes) ∷ ps) =
        pack_delegates
          (H.solidity_pack (bytes pack ∷ address id ∷ bytes (pack_nodes "0x" nodes) ∷ [])) ps

    -- `if (timestamp)` is false of undefined and of 0.
    abbrev time_values : Option ℕ → List Solidity
    time_values none = []
    time_values (some t) = if t == 0 then [] else uint256 t ∷ []

    abbrev pack_report : Serialized → String
    pack_report r =
        pack_delegates
          (pack_nodes (pack_consumers (pack_streams "0x" r.streams) r.consumers) r.nodes)
          r.delegates

    abbrev hash_values : Serialized → Option ℕ → List Solidity
    hash_values r timestamp =
        (string r.id ∷ uint256 r.height ∷ bytes (pack_report r) ∷ hex r.treasury ∷ [])
        ++ time_values timestamp

    unfoldable pub to_hash : Report → Option ℕ → String
    to_hash r timestamp = H.solidity_keccak256 (hash_values (as_serialized r) timestamp)

    -- `SystemReport.toProof`, for a signer's address and its signature of a hash
    unfoldable pub to_proof : Report → String → (String → String) → ℕ → ProofOfReport
    to_proof r signer sign timestamp = record {
      address = signer;
      hash = to_hash r none;
      toth = to_hash r (some timestamp);
      timestamp = timestamp;
      signature = sign (to_hash r (some timestamp));
    }
