-- ===== src/Protocol/Wire/Decode.antt =====
-- packages/protocol/src/system: `fromArray` of the serializers of version 1, and `deserialize`, which
-- takes fuel for the messages that are nested in a RecoveryResponse.
use logstore_archive.Base.{
  ℕ, zero, suc, String, Bool, Option, none, some, List, [], ◌∷◌, str_eq, if◌then◌else◌,
}
use logstore_archive.Base.JsMap
use logstore_archive.Base.JsMap.{JsMap}
use logstore_archive.Base.Result.{Result, ok, err, ◌>>=◌}
use logstore_archive.Protocol.Js.{Js, Items, item_at, Json, Opt}
use logstore_archive.Protocol.Message.{
  QueryType, QueryOptions, last_options, from_options, range_options, MessageMetadata,
  SystemMessage, message, Body, Payload, SystemMessageType,
}
use logstore_archive.Protocol.Registry.{
  ProtocolError, syntax_error, ill_typed, out_of_fuel, Serializer, serializer_v1, Registry,
  get_serializer,
}

-- Reading a value at the type that the class declares.
abbrev as_num : Js → Result ProtocolError ℕ
as_num (Js.num n) = ok n
as_num _ = err ill_typed

abbrev as_str : Js → Result ProtocolError String
as_str (Js.str s) = ok s
as_str _ = err ill_typed

abbrev as_bool : Js → Result ProtocolError Bool
as_bool (Js.bool b) = ok b
as_bool _ = err ill_typed

abbrev as_arr : Js → Result ProtocolError Items
as_arr (Js.arr xs) = ok xs
as_arr _ = err ill_typed

abbrev pub as_opt_num : Js → Result ProtocolError (Opt ℕ)
as_opt_num Js.undefined = ok Opt.undefined
as_opt_num Js.null = ok Opt.null
as_opt_num (Js.num n) = ok (Opt.given n)
as_opt_num _ = err ill_typed

abbrev pub as_opt_str : Js → Result ProtocolError (Opt String)
as_opt_str Js.undefined = ok Opt.undefined
as_opt_str Js.null = ok Opt.null
as_opt_str (Js.str s) = ok (Opt.given s)
as_opt_str _ = err ill_typed

unfoldable pub as_pair : Js → Result ProtocolError (String × String)
as_pair v = do xs ← as_arr v; k ← as_str (item_at xs 0); w ← as_str (item_at xs 1); ok (k, w)

unfoldable pub pairs_of : Items → Result ProtocolError (List (String × String))
unfolding as_pair
pairs_of Items.nil = ok []
pairs_of (Items.cons x xs) = do p ← as_pair x; ps ← pairs_of xs; ok (p ∷ ps)

-- `new Map(entries)`
unfoldable pub map_of : JsMap String → List (String × String) → JsMap String
map_of m [] = m
map_of m ((k, v) ∷ ps) = map_of (JsMap.set m k v) ps

unfoldable pub parsed : Option Js → Result ProtocolError Js
parsed none = err syntax_error
parsed (some v) = ok v

-- The switch of QueryRequestSerializerV1.fromArray; `i` is where `queryOptionsArr` begins.
unfoldable pub query_type_of : Js → Result ProtocolError QueryType
query_type_of v = do
  s ← as_str v
  if str_eq s "last"
      then ok QueryType.last
      else if str_eq s "from"
      then ok QueryType.from
      else if str_eq s "range"
      then ok QueryType.range
      else err ill_typed

unfoldable pub options_of : QueryType → Items → Result ProtocolError QueryOptions
options_of QueryType.last xs = do n ← as_num (item_at xs 8); ok (last_options n)
options_of QueryType.from xs = do
  t ← as_num (item_at xs 8)
  s ← as_opt_num (item_at xs 9)
  p ← as_opt_str (item_at xs 10)
  ok (from_options (record { timestamp = t; sequence_number = s }) p Opt.undefined)
options_of QueryType.range xs = do
  t ← as_num (item_at xs 8)
  s ← as_opt_num (item_at xs 9)
  t' ← as_num (item_at xs 10)
  s' ← as_opt_num (item_at xs 11)
  c ← as_opt_str (item_at xs 12)
  p ← as_opt_str (item_at xs 13)
  ok (
      range_options (record { timestamp = t; sequence_number = s })
        (record { timestamp = t'; sequence_number = s' }) c p Opt.undefined)

unfoldable pub metadata_of : Js → Result ProtocolError MessageMetadata
metadata_of v = do
  xs ← as_arr v
  stream_id ← as_str (item_at xs 0)
  stream_partition ← as_num (item_at xs 1)
  timestamp ← as_num (item_at xs 2)
  sequence_number ← as_num (item_at xs 3)
  signature ← as_str (item_at xs 4)
  publisher_id ← as_str (item_at xs 5)
  msg_chain_id ← as_str (item_at xs 6)
  ok (record {
    stream_id = stream_id;
    stream_partition = stream_partition;
    timestamp = timestamp;
    sequence_number = sequence_number;
    signature = signature;
    publisher_id = publisher_id;
    msg_chain_id = msg_chain_id;
  })

-- The loop of RecoveryResponseSerializerV1.fromArray, with `SystemMessage.deserialize` handed in.
unfoldable pub payload_of :
    (Js → Result ProtocolError SystemMessage) → Items → Result ProtocolError Payload
unfolding metadata_of
payload_of read Items.nil = ok Payload.nil
payload_of read (Items.cons x xs) = do
  pair ← as_arr x
  m ← read (item_at pair 0)
  metadata ← metadata_of (item_at pair 1)
  rest ← payload_of read xs
  ok (Payload.cons m metadata rest)

-- `fromArray` of each class, at the fields behind the version, the type and the number
abbrev request_of : Items → Result ProtocolError Body
request_of xs = do
  request_id ← as_str (item_at xs 3)
  consumer_id ← as_str (item_at xs 4)
  stream_id ← as_str (item_at xs 5)
  partition ← as_num (item_at xs 6)
  query_type ← query_type_of (item_at xs 7)
  options ← options_of query_type xs
  ok (
      Body.query_request (record {
        request_id = request_id;
        consumer_id = consumer_id;
        stream_id = stream_id;
        partition = partition;
        query_type = query_type;
        query_options = options;
      }))

abbrev response_of : Json → Items → Result ProtocolError Body
response_of J xs = do
  request_id ← as_str (item_at xs 3)
  request_publisher_id ← as_str (item_at xs 4)
  text ← as_str (item_at xs 5)
  entries ← parsed (J.parse text)
  pairs ← as_arr entries
  ps ← pairs_of pairs
  ok (
      Body.query_response (record {
        request_id = request_id;
        request_publisher_id = request_publisher_id;
        hash_map = map_of [] ps;
      }))

abbrev propagate_of : Items → Result ProtocolError Body
propagate_of xs = do
  request_id ← as_str (item_at xs 3)
  request_publisher_id ← as_str (item_at xs 4)
  pairs ← as_arr (item_at xs 5)
  payload ← pairs_of pairs
  ok (
      Body.query_propagate (record {
        request_id = request_id;
        request_publisher_id = request_publisher_id;
        payload = payload;
      }))

abbrev proof_of : Items → Result ProtocolError Body
proof_of xs = do
  address ← as_str (item_at xs 3)
  hash ← as_str (item_at xs 4)
  toth ← as_str (item_at xs 5)
  timestamp ← as_num (item_at xs 6)
  signature ← as_str (item_at xs 7)
  ok (
      Body.proof_of_report (record {
        address = address;
        hash = hash;
        toth = toth;
        timestamp = timestamp;
        signature = signature;
      }))

abbrev recovery_request_of : Items → Result ProtocolError Body
recovery_request_of xs = do
  request_id ← as_str (item_at xs 3)
  from ← as_num (item_at xs 4)
  to ← as_num (item_at xs 5)
  ok (Body.recovery_request (record { request_id = request_id; from = from; to = to }))

abbrev recovery_response_of :
    (Js → Result ProtocolError SystemMessage) → Items → Result ProtocolError Body
recovery_response_of read xs = do
  request_id ← as_str (item_at xs 3)
  pairs ← as_arr (item_at xs 4)
  payload ← payload_of read pairs
  ok (Body.recovery_response request_id payload)

abbrev recovery_complete_of : Items → Result ProtocolError Body
recovery_complete_of xs = do
  request_id ← as_str (item_at xs 3)
  is_fulfilled ← as_bool (item_at xs 4)
  ok (Body.recovery_complete (record { request_id = request_id; is_fulfilled = is_fulfilled }))

module _ (J : Json) where
  -- `fromArray` of the class that the type names
  unfoldable pub body_of :
      SystemMessageType
      → (Js → Result ProtocolError SystemMessage)
      → Items
      → Result ProtocolError Body
  unfolding query_type_of parsed
  body_of SystemMessageType.query_request read xs = request_of xs
  body_of SystemMessageType.query_response read xs = response_of J xs
  body_of SystemMessageType.query_propagate read xs = propagate_of xs
  body_of SystemMessageType.proof_of_report read xs = proof_of xs
  body_of SystemMessageType.recovery_request read xs = recovery_request_of xs
  body_of SystemMessageType.recovery_response read xs = recovery_response_of read xs
  body_of SystemMessageType.recovery_complete read xs = recovery_complete_of xs

  -- `typeof msg === 'string' ? JSON.parse(msg) : msg`
  unfoldable pub message_array : Js → Result ProtocolError Items
  unfolding parsed
  message_array (Js.str text) = do v ← parsed (J.parse text); as_arr v
  message_array v = as_arr v

abbrev class_of : Serializer → SystemMessageType
class_of (serializer_v1 t) = t

module _ (J : Json) (registry : Registry) where
  -- `SystemMessage.deserialize` of a text or of an array
  unfoldable pub deserialize : ℕ → Js → Result ProtocolError SystemMessage
  deserialize zero msg = err out_of_fuel
  deserialize (suc fuel) msg = do
    xs ← message_array J msg
    version ← as_num (item_at xs 0)
    type ← as_num (item_at xs 1)
    s ← get_serializer registry version type
    seq_num ← as_num (item_at xs 2)
    body ← body_of J (class_of s) (deserialize fuel) xs
    ok (message version seq_num body)
