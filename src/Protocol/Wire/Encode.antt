-- ===== src/Protocol/Wire/Encode.antt =====
-- packages/protocol/src/system: `toArray` of the serializers of version 1, and `serialize`.
use logstore_archive.Base.{ℕ, ◌==◌, String, List, [], ◌∷◌, if◌then◌else◌}
use logstore_archive.Base.Result.{Result, ok, err, ◌>>=◌}
use logstore_archive.Protocol.Js.{Js, Items, items, array, Json, Opt}
use logstore_archive.Protocol.Message.{
  QueryResponse, QueryPropagate, ProofOfReport, RecoveryRequest, RecoveryComplete, QueryType,
  QueryOptions, last_options, from_options, range_options, QueryRequest, MessageMetadata,
  SystemMessage, message, Body, Payload, SystemMessageType, code, type_of,
}
use logstore_archive.Protocol.Registry.{
  ProtocolError, type_error, ill_typed, Serializer, serializer_v1, Registry, get_serializer,
}

-- `const VERSION = 1` of each serializer
abbrev pub version_v1 : ℕ
version_v1 = 1

abbrev pub opt_num : Opt ℕ → Js
opt_num Opt.undefined = Js.undefined
opt_num Opt.null = Js.null
opt_num (Opt.given n) = Js.num n

abbrev pub opt_str : Opt String → Js
opt_str Opt.undefined = Js.undefined
opt_str Opt.null = Js.null
opt_str (Opt.given s) = Js.str s

-- The values of `enum QueryType`.
abbrev pub query_type_js : QueryType → Js
query_type_js QueryType.last = Js.str "last"
query_type_js QueryType.from = Js.str "from"
query_type_js QueryType.range = Js.str "range"

-- The switch of QueryRequestSerializerV1.toArray, with its casts: a property that the value lacks
-- is undefined, and a property of undefined is a TypeError. No `limit` is written.
unfoldable pub options_array : QueryType → QueryOptions → Result ProtocolError (List Js)
options_array QueryType.last (last_options n) = ok (Js.num n ∷ [])
options_array QueryType.last _ = ok (Js.undefined ∷ [])
options_array QueryType.from (last_options n) = err type_error
options_array QueryType.from (from_options f p _) =
    ok (Js.num f.timestamp ∷ opt_num f.sequence_number ∷ opt_str p ∷ [])
options_array QueryType.from (range_options f _ _ p _) =
    ok (Js.num f.timestamp ∷ opt_num f.sequence_number ∷ opt_str p ∷ [])
options_array QueryType.range (range_options f t c p _) = ok (
    Js.num f.timestamp
    ∷ opt_num f.sequence_number
    ∷ Js.num t.timestamp
    ∷ opt_num t.sequence_number
    ∷ opt_str c
    ∷ opt_str p
    ∷ [])
options_array QueryType.range _ = err type_error

abbrev pair_js : String × String → Js
pair_js (k, v) = array (Js.str k ∷ Js.str v ∷ [])

-- `Array.from(map.entries())`, and the payload of a QueryPropagate
unfoldable pub pairs_items : List (String × String) → Items
pairs_items [] = Items.nil
pairs_items (p ∷ ps) = Items.cons (pair_js p) (pairs_items ps)

unfoldable pub metadata_js : MessageMetadata → Js
metadata_js m = array (
    Js.str m.stream_id
    ∷ Js.num m.stream_partition
    ∷ Js.num m.timestamp
    ∷ Js.num m.sequence_number
    ∷ Js.str m.signature
    ∷ Js.str m.publisher_id
    ∷ Js.str m.msg_chain_id
    ∷ [])

-- The head that all seven arrays share, and the fields behind it.
abbrev pub envelope : SystemMessageType → ℕ → List Js → Items
envelope type seq_num fields =
    items (Js.num version_v1 ∷ Js.num (code type) ∷ Js.num seq_num ∷ fields)

abbrev pub request_head : QueryRequest → List Js → List Js
request_head q options =
    Js.str q.request_id
    ∷ Js.str q.consumer_id
    ∷ Js.str q.stream_id
    ∷ Js.num q.partition
    ∷ query_type_js q.query_type
    ∷ options

-- A serializer is for one class; handed a message of another class it would write undefined.
abbrev for_class : Serializer → SystemMessageType → Result ProtocolError (Unit {0})
for_class (serializer_v1 t) u = if code t == code u then ok tt else err ill_typed

-- `toArray` of the classes that hold no other message, at their number
abbrev response_array : Json → ℕ → QueryResponse → Items
response_array J n q = envelope SystemMessageType.query_response n (
    Js.str q.request_id
    ∷ Js.str q.request_publisher_id
    ∷ Js.str (J.stringify (Js.arr (pairs_items q.hash_map)))
    ∷ [])

abbrev propagate_array : ℕ → QueryPropagate → Items
propagate_array n q =
    envelope SystemMessageType.query_propagate n
      (Js.str q.request_id ∷ Js.str q.request_publisher_id ∷ Js.arr (pairs_items q.payload) ∷ [])

abbrev proof_array : ℕ → ProofOfReport → Items
proof_array n q = envelope SystemMessageType.proof_of_report n (
    Js.str q.address ∷ Js.str q.hash ∷ Js.str q.toth ∷ Js.num q.timestamp ∷ Js.str q.signature ∷ [])

abbrev recovery_request_array : ℕ → RecoveryRequest → Items
recovery_request_array n q =
    envelope SystemMessageType.recovery_request n
      (Js.str q.request_id ∷ Js.num q.from ∷ Js.num q.to ∷ [])

abbrev recovery_complete_array : ℕ → RecoveryComplete → Items
recovery_complete_array n q =
    envelope SystemMessageType.recovery_complete n
      (Js.str q.request_id ∷ Js.bool q.is_fulfilled ∷ [])

module _ (J : Json) (registry : Registry) where
  -- `serialize`, `toArray` of each class, and the payload of RecoveryResponseSerializerV1.toArray
  unfoldable mutual
    pub serialize : SystemMessage → Result ProtocolError String
    serialize (message version seq_num body) = do
      s ← get_serializer registry version (code (type_of body))
      matches ← for_class s (type_of body)
      xs ← to_array seq_num body
      ok (J.stringify (Js.arr xs))

    pub to_array : ℕ → Body → Result ProtocolError Items
    to_array n (Body.query_request q) = do
      options ← options_array q.query_type q.query_options
      ok (envelope SystemMessageType.query_request n (request_head q options))
    to_array n (Body.query_response q) = ok (response_array J n q)
    to_array n (Body.query_propagate q) = ok (propagate_array n q)
    to_array n (Body.proof_of_report q) = ok (proof_array n q)
    to_array n (Body.recovery_request q) = ok (recovery_request_array n q)
    to_array n (Body.recovery_response request_id payload) = do
      xs ← payload_items payload
      ok (envelope SystemMessageType.recovery_response n (Js.str request_id ∷ Js.arr xs ∷ []))
    to_array n (Body.recovery_complete q) = ok (recovery_complete_array n q)

    pub payload_items : Payload → Result ProtocolError Items
    payload_items Payload.nil = ok Items.nil
    payload_items (Payload.cons m metadata rest) = do
      text ← serialize m
      xs ← payload_items rest
      ok (Items.cons (array (Js.str text ∷ metadata_js metadata ∷ [])) xs)
