-- ===== src/Client/NetworkValidation/Collection/LeftOut.antt =====
-- A query that leaves out an optional property, in retrieveFilteredSystemMessages.ts.
use logstore_archive.Base.{ℕ, String, ◌≡◌, refl, ap, ◌∙◌, none, some, List, ◌∷◌, eq_refl}
use logstore_archive.Base.Result.{ok, err, ◌>>=◌}
use logstore_archive.Protocol.Message.{QueryRequest, MessageMetadata}
use logstore_archive.Protocol.Wire.Arrival.{Fits, wire_options}
use logstore_archive.Client.NetworkValidation.Values.{SystemMessageValue}
use logstore_archive.Client.NetworkValidation.QueryInput.{QueryInputPayload}
use logstore_archive.Client.NetworkValidation.QueryInput.Laws.{
  FitsQuery, LeavesOut, left_out-is_incompatible,
}
use logstore_archive.Client.NetworkValidation.Collection.{
  meets, filtered, Collection, Event, http_answered, stack_overflow, request_publisher_of, announce,
  unless_known, step, collect, fill_responses, fill_propagates, shrink_pools, see_request,
}
use logstore_archive.Client.NetworkValidation.Collection.Loop.{trap-overflows}

-- the request as it arrives over the wire
abbrev pub arrival : QueryRequest → MessageMetadata → SystemMessageValue QueryRequest
arrival request metadata = record {
  content = record request { query_options = wire_options request.query_options };
  metadata = metadata;
}

module _ (to_stream_part_id : String → ℕ → String) (query_input : QueryInputPayload) where
  named-filtered :
      (c : Collection) (r : SystemMessageValue QueryRequest) (impossible : List String)
      → c.query_node ≡ some r.metadata.publisher_id
      → c.latest_request ≡ some r
      → filtered
          (λ q. q.content.request_id)
          request_publisher_of
          c.query_node
          (some r.content.request_id)
          impossible
          c.latest_request
        ≡ some r
  unfolding filtered meets
  named-filtered c r impossible n l =
      rw (n, l, eq_refl r.content.request_id, eq_refl r.metadata.publisher_id) refl

  -- A query leaves out an optional sequence number, publisher or chain, and the latest request that
  -- has come is the one that was made for it, from the query node. Then the HTTP response that
  -- names this request ends the collection: the calls nest deeper than any stack allows.
  pub left_out-overflows :
      (request : QueryRequest) (metadata : MessageMetadata) (c : Collection) (depth : ℕ)
      (es : List Event)
      → FitsQuery query_input.query_type query_input.query
      → Fits request.query_type request.query_options
      → LeavesOut query_input.query
      → c.query_node ≡ some metadata.publisher_id
      → c.http_id ≡ none
      → c.latest_request ≡ some (arrival request metadata)
      → collect to_stream_part_id query_input depth c (http_answered request.request_id ∷ es)
        ≡ err stack_overflow
  unfolding collect step
  left_out-overflows request metadata c depth es fits options left_out n unnamed latest =
      let known : Collection = record c { http_id = some request.request_id } in
      let wrong =
        left_out-is_incompatible to_stream_part_id query_input request fits options left_out in
      let overflows = trap-overflows to_stream_part_id query_input depth known (
        request.request_id,
        refl,
        (
          arrival request metadata,
          named-filtered c (arrival request metadata) c.impossible n latest,
          rw wrong refl,
        ),
      ) in
      (ap
          (λ o.
            unless_known to_stream_part_id query_input o c (
              announce to_stream_part_id query_input depth known >>= λ after. ok (
                see_request
                  (shrink_pools request.request_id (fill_propagates (fill_responses after)))))
            >>= λ next. collect to_stream_part_id query_input depth next es)
          unnamed
        ∙ rw overflows refl)
