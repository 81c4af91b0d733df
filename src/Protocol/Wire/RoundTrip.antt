-- ===== src/Protocol/Wire/RoundTrip.antt =====
-- `deserialize` after `serialize`.
use logstore_archive.Base.{ℕ, zero, suc, ◌<◌, ◌≤◌, String, ◌≡◌, refl, List, [], ◌∷◌, arith}
use logstore_archive.Base.Result.{Result, ok}
use logstore_archive.Protocol.Js.{Js, Items, array, jsonify, jsonify_items, Json}
use logstore_archive.Protocol.Message.{
  QueryRequest, QueryResponse, QueryPropagate, ProofOfReport, RecoveryRequest, RecoveryComplete,
  MessageMetadata, SystemMessage, message, Body, Payload, SystemMessageType, type_of,
}
use logstore_archive.Protocol.Registry.{ProtocolError, Registry, loaded}
use logstore_archive.Protocol.Registry.Laws.{get_serializer-loaded}
use logstore_archive.Protocol.Wire.Encode.{
  query_type_js, envelope, request_head, pairs_items, metadata_js, serialize, to_array,
  payload_items,
}
use logstore_archive.Protocol.Wire.Decode.{payload_of, body_of, message_array, deserialize}
use logstore_archive.Protocol.Wire.Arrival.{
  wire, depth, IsSendable, wire_body, wire_payload, depth_body, depth_payload, IsSendableBody,
  IsSendablePayload, Fits, HasDistinctKeys,
}
use logstore_archive.Protocol.Wire.Fields.{
  pairs_of-pairs_items, map_of-fresh, IsFresh-empty, query_type_of-query_type_js,
  options_of-options_array,
}

module _ (J : Json) (registry : Registry) (ready : loaded ≡ ok registry) where
  -- what is read back from the array of a body, at its class
  Reads : ℕ → ℕ → Body → Type 0
  Reads fuel n b =
      (xs : List Js) × (to_array J registry n b ≡ ok (envelope (type_of b) n xs))
      × (body_of J (type_of b) (deserialize J registry fuel)
            (jsonify_items (envelope (type_of b) n xs))
          ≡ ok (wire_body b))

  serialize-envelope :
      (v n : ℕ) (b : Body) (xs : List Js)
      → v ≡ 1
      → to_array J registry n b ≡ ok (envelope (type_of b) n xs)
      → serialize J registry (message v n b) ≡ ok (J.stringify (Js.arr (envelope (type_of b) n xs)))
  unfolding serialize
  serialize-envelope v n b xs one written =
      rw (one, get_serializer-loaded registry (type_of b) ready, written) (ground arith)

  deserialize-envelope :
      (fuel n : ℕ) (t : SystemMessageType) (xs : List Js) (b : Body)
      → body_of J t (deserialize J registry fuel) (jsonify_items (envelope t n xs)) ≡ ok b
      → deserialize J registry (suc fuel) (Js.str (J.stringify (Js.arr (envelope t n xs))))
        ≡ ok (message 1 n b)
  unfolding deserialize message_array jsonify
  deserialize-envelope fuel n t xs b read =
      rw (J.parse_stringify (envelope t n xs), get_serializer-loaded registry t ready, read)

  payload_items-cons :
      (m : SystemMessage) (metadata : MessageMetadata) (rest : Payload) (text : String) (xs : Items)
      → serialize J registry m ≡ ok text
      → payload_items J registry rest ≡ ok xs
      → payload_items J registry (Payload.cons m metadata rest)
        ≡ ok (Items.cons (array (Js.str text ∷ metadata_js metadata ∷ [])) xs)
  unfolding serialize
  payload_items-cons m metadata rest text xs p q = rw (p, q)

  payload_of-cons :
      (read : Js → Result ProtocolError SystemMessage) (text : String) (m : SystemMessage)
      (metadata : MessageMetadata) (xs : Items) (rest : Payload)
      → read (Js.str text) ≡ ok m
      → payload_of read (jsonify_items xs) ≡ ok rest
      → payload_of read
          (jsonify_items (Items.cons (array (Js.str text ∷ metadata_js metadata ∷ [])) xs))
        ≡ ok (Payload.cons m metadata rest)
  unfolding payload_of jsonify metadata_js
  payload_of-cons read text m metadata xs rest p q = rw (p, q)

  Reads-query_request :
      (fuel n : ℕ) (q : QueryRequest)
      → Fits q.query_type q.query_options
      → Reads fuel n (Body.query_request q)
  unfolding Reads serialize body_of wire
  Reads-query_request fuel n q h =
      let (xs, written, read) =
        options_of-options_array (Js.num 1) (Js.num 1) (Js.num n) (Js.str q.request_id)
          (Js.str q.consumer_id) (Js.str q.stream_id) (Js.num q.partition)
          (query_type_js q.query_type) q.query_type q.query_options h in
      (
        request_head q xs,
        rw written,
        unfold jsonify in rw (query_type_of-query_type_js q.query_type, read),
      )

  Reads-query_response :
      (fuel n : ℕ) (q : QueryResponse)
      → HasDistinctKeys q.hash_map
      → Reads fuel n (Body.query_response q)
  unfolding Reads serialize body_of wire jsonify
  Reads-query_response fuel n q h = (
    Js.str q.request_id
        ∷ Js.str q.request_publisher_id
        ∷ Js.str (J.stringify (Js.arr (pairs_items q.hash_map)))
        ∷ [],
    refl,
    rw (
      J.parse_stringify (pairs_items q.hash_map),
      pairs_of-pairs_items q.hash_map,
      map_of-fresh [] q.hash_map (IsFresh-empty q.hash_map) h,
    ),
  )

  Reads-query_propagate : (fuel n : ℕ) (q : QueryPropagate) → Reads fuel n (Body.query_propagate q)
  unfolding Reads serialize body_of wire jsonify
  Reads-query_propagate fuel n q = (
    Js.str q.request_id ∷ Js.str q.request_publisher_id ∷ Js.arr (pairs_items q.payload) ∷ [],
    refl,
    rw (pairs_of-pairs_items q.payload),
  )

  Reads-proof_of_report : (fuel n : ℕ) (q : ProofOfReport) → Reads fuel n (Body.proof_of_report q)
  unfolding Reads serialize body_of wire jsonify
  Reads-proof_of_report fuel n q = (
    Js.str q.address ∷ Js.str q.hash ∷ Js.str q.toth ∷ Js.num q.timestamp ∷ Js.str q.signature ∷ [],
    refl,
    refl,
  )

  Reads-recovery_request :
      (fuel n : ℕ) (q : RecoveryRequest) → Reads fuel n (Body.recovery_request q)
  unfolding Reads serialize body_of wire jsonify
  Reads-recovery_request fuel n q =
      (Js.str q.request_id ∷ Js.num q.from ∷ Js.num q.to ∷ [], refl, refl)

  Reads-recovery_complete :
      (fuel n : ℕ) (q : RecoveryComplete) → Reads fuel n (Body.recovery_complete q)
  unfolding Reads serialize body_of wire jsonify
  Reads-recovery_complete fuel n q = (Js.str q.request_id ∷ Js.bool q.is_fulfilled ∷ [], refl, refl)

  ReadsPayload : ℕ → Payload → Type 0
  ReadsPayload fuel p =
      (xs : Items) × (payload_items J registry p ≡ ok xs)
      × (payload_of (deserialize J registry fuel) (jsonify_items xs) ≡ ok (wire_payload p))

  Reads-recovery_response :
      (fuel n : ℕ) (request_id : String) (p : Payload)
      → ReadsPayload fuel p
      → Reads fuel n (Body.recovery_response request_id p)
  unfolding Reads ReadsPayload serialize body_of wire
  Reads-recovery_response fuel n request_id p (xs, written, read) =
      (Js.str request_id ∷ Js.arr xs ∷ [], rw written, unfold jsonify in rw read)

  reads_nil : (fuel : ℕ) → ReadsPayload fuel Payload.nil
  unfolding ReadsPayload serialize payload_of wire jsonify
  reads_nil fuel = (Items.nil, refl, refl)

  reads_cons :
      (fuel : ℕ) (m : SystemMessage) (metadata : MessageMetadata) (rest : Payload)
      → (text : String) × (serialize J registry m ≡ ok text)
        × (deserialize J registry (suc fuel) (Js.str text) ≡ ok (wire m))
      → ReadsPayload (suc fuel) rest
      → ReadsPayload (suc fuel) (Payload.cons m metadata rest)
  unfolding ReadsPayload
  reads_cons fuel m metadata rest (text, written, read) (xs, written', read') = (
    Items.cons (array (Js.str text ∷ metadata_js metadata ∷ [])) xs,
    payload_items-cons m metadata rest text xs written written',
    unfold wire in
        payload_of-cons (deserialize J registry (suc fuel)) text (wire m) metadata xs
          (wire_payload rest) read read',
  )

  mutual
    unfolding wire depth IsSendable Reads

    reads :
        (fuel : ℕ) (m : SystemMessage)
        → IsSendable m
        → depth m ≤ fuel
        → (text : String) × (serialize J registry m ≡ ok text)
          × (deserialize J registry (suc fuel) (Js.str text) ≡ ok (wire m))
    reads fuel (message version n b) (v, h) d =
        let (xs, written, read) = Reads-body fuel n b h d in
        (
          J.stringify (Js.arr (envelope (type_of b) n xs)),
          serialize-envelope version n b xs v written,
          deserialize-envelope fuel n (type_of b) xs (wire_body b) read,
        )

    Reads-body : (fuel n : ℕ) (b : Body) → IsSendableBody b → depth_body b ≤ fuel → Reads fuel n b
    Reads-body fuel n (Body.query_request q) h d = Reads-query_request fuel n q h
    Reads-body fuel n (Body.query_response q) h d = Reads-query_response fuel n q h
    Reads-body fuel n (Body.query_propagate q) h d = Reads-query_propagate fuel n q
    Reads-body fuel n (Body.recovery_response request_id p) h d =
        Reads-recovery_response fuel n request_id p (reads_payload fuel p h d)
    Reads-body fuel n (Body.proof_of_report q) h d = Reads-proof_of_report fuel n q
    Reads-body fuel n (Body.recovery_request q) h d = Reads-recovery_request fuel n q
    Reads-body fuel n (Body.recovery_complete q) h d = Reads-recovery_complete fuel n q

    reads_payload :
        (fuel : ℕ) (p : Payload)
        → IsSendablePayload p
        → depth_payload p ≤ fuel
        → ReadsPayload fuel p
    reads_payload fuel Payload.nil h d = reads_nil fuel
    reads_payload zero (Payload.cons m metadata rest) h d = absurd (omega arith)
    reads_payload (suc fuel) (Payload.cons m metadata rest) (hm, hr) d =
        reads_cons fuel m metadata rest (reads fuel m hm (omega arith))
          (reads_payload (suc fuel) rest hr (omega arith))

  -- With the seven serializers loaded, a message that can be sent (of version 1, nested ones too,
  -- with options that fit its query type and each hash once by its key) is written, and its text
  -- is read back as the message that `wire` describes: equal but for optional query properties,
  -- which turn from undefined to null, and for a query's `limit`, which is lost. Fuel above the
  -- nesting of RecoveryResponses is enough.
  pub deserialize-serialize :
      (fuel : ℕ) (m : SystemMessage)
      → IsSendable m
      → depth m < fuel
      → (text : String) × (serialize J registry m ≡ ok text)
        × (deserialize J registry fuel (Js.str text) ≡ ok (wire m))
  deserialize-serialize zero m h d = absurd (omega arith)
  deserialize-serialize (suc fuel) m h d = reads fuel m h (omega arith)
