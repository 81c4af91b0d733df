-- ===== src/Protocol/Wire/Arrival.antt =====
-- What a receiver gets of a message, and which messages can be sent.
use logstore_archive.Base.{ℕ, suc, max, String, ◌≡◌, false, [], ◌∷◌}
use logstore_archive.Base.JsMap
use logstore_archive.Base.JsMap.{JsMap}
use logstore_archive.Protocol.Js.{Opt}
use logstore_archive.Protocol.Message.{
  QueryType, QueryRef, QueryOptions, last_options, from_options, range_options, SystemMessage,
  message, Body, Payload,
}

-- What JSON makes of an optional property.
abbrev pub null_of {ℓ} : {A : Type ℓ} → Opt A → Opt A
null_of Opt.undefined = Opt.null
null_of o = o

abbrev pub wire_ref : QueryRef → QueryRef
wire_ref r = record r { sequence_number = null_of r.sequence_number }

-- The options as they arrive: what was left out is null, and a `limit` is gone.
abbrev pub wire_options : QueryOptions → QueryOptions
wire_options (last_options n) = last_options n
wire_options (from_options f p limit) = from_options (wire_ref f) (null_of p) Opt.undefined
wire_options (range_options f t c p limit) =
    range_options (wire_ref f) (wire_ref t) (null_of c) (null_of p) Opt.undefined

-- The message as it arrives, with the version of the serializer.
unfoldable mutual
  pub wire : SystemMessage → SystemMessage
  wire (message version seq_num body) = message 1 seq_num (wire_body body)

  pub wire_body : Body → Body
  wire_body (Body.query_request q) =
      Body.query_request (record q { query_options = wire_options q.query_options })
  wire_body (Body.recovery_response request_id payload) =
      Body.recovery_response request_id (wire_payload payload)
  wire_body b = b

  pub wire_payload : Payload → Payload
  wire_payload Payload.nil = Payload.nil
  wire_payload (Payload.cons m metadata rest) = Payload.cons (wire m) metadata (wire_payload rest)

-- How deep RecoveryResponses are nested.
unfoldable mutual
  pub depth : SystemMessage → ℕ
  depth (message version seq_num body) = depth_body body

  pub depth_body : Body → ℕ
  depth_body (Body.recovery_response request_id payload) = depth_payload payload
  depth_body b = 0

  pub depth_payload : Payload → ℕ
  depth_payload Payload.nil = 0
  depth_payload (Payload.cons m metadata rest) = max (suc (depth m)) (depth_payload rest)

-- The options are of the kind that the query type names.
abbrev pub Fits : QueryType → QueryOptions → Type 0
Fits QueryType.last (last_options _) = Unit
Fits QueryType.from (from_options _ _ _) = Unit
Fits QueryType.range (range_options _ _ _ _ _) = Unit
Fits _ _ = ⊥

-- A `Map` has each key once.
abbrev pub HasDistinctKeys : JsMap String → Type 0
HasDistinctKeys [] = Unit
HasDistinctKeys ((k, v) ∷ m) = (JsMap.has m k ≡ false) × HasDistinctKeys m

-- Version 1, and in each QueryRequest options that fit; nested messages too.
unfoldable mutual
  pub IsSendable : SystemMessage → Type 0
  IsSendable (message version seq_num body) = (version ≡ 1) × IsSendableBody body

  pub IsSendableBody : Body → Type 0
  IsSendableBody (Body.query_request q) = Fits q.query_type q.query_options
  IsSendableBody (Body.query_response q) = HasDistinctKeys q.hash_map
  IsSendableBody (Body.recovery_response request_id payload) = IsSendablePayload payload
  IsSendableBody b = Unit

  pub IsSendablePayload : Payload → Type 0
  IsSendablePayload Payload.nil = Unit
  IsSendablePayload (Payload.cons m metadata rest) = IsSendable m × IsSendablePayload rest
