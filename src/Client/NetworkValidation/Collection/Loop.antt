-- ===== src/Client/NetworkValidation/Collection/Loop.antt =====
-- How deep the calls of `impossibleRequestIds$.next` nest, which is without end for some requests.
use logstore_archive.Base.{
  ℕ, zero, suc, String, ◌≡◌, ◌≢◌, ◌↔◌, refl, sym, ap, ◌∙◌, inl, inr, true, false, not, ◌&&◌, Option,
  none, some, List, ◌∷◌, str_eq, includes, Bool-cases, Option-cases, eq_refl,
}
use logstore_archive.Base.Result.{ok, err, ◌>>=◌, Result-cases}
use logstore_archive.Protocol.Message.{QueryRequest}
use logstore_archive.Client.NetworkValidation.Values.{SystemMessageValue}
use logstore_archive.Client.NetworkValidation.QueryInput.{
  QueryInputPayload, has_incompatible_query_input,
}
use logstore_archive.Client.NetworkValidation.Collection.{
  meets, filtered, Collection, stack_overflow, request_publisher_of, filtered_request, incompatible,
  to_announce, add_impossible, announce, announce_found,
}

module _ {M : Type 0} (request_id publisher_id : M → String) where
  -- Once there is an id, the impossible requests play no part.
  filtered-ignores :
      (asked : Option String) (id : String) (impossible others : List String) (latest : Option M)
      → filtered request_id publisher_id asked (some id) impossible latest
        ≡ filtered request_id publisher_id asked (some id) others latest
  unfolding filtered meets
  filtered-ignores none id impossible others latest = refl
  filtered-ignores (some address) id impossible others none = refl
  filtered-ignores (some address) id impossible others (some m) = refl

  -- Before, a message whose request was found impossible is not given again.
  filtered-added :
      (asked : Option String) (impossible : List String) (latest : Option M) (m : M)
      → filtered request_id publisher_id asked none impossible latest ≡ some m
      → filtered request_id publisher_id asked none (request_id m ∷ impossible) latest ≡ none
  unfolding filtered meets
  filtered-added none impossible latest m h = refl
  filtered-added (some address) impossible none m h = refl
  filtered-added (some address) impossible (some l) m h =
      elim (Bool-cases
        (not (includes (request_id l) impossible) && str_eq address (publisher_id l))) [
          | inl e ↦ let same : l ≡ m = cc (e, h) in rw (same, eq_refl (request_id m)) refl
          | inr e ↦ absurd (cc (e, h))
        ]

module _ (to_stream_part_id : String → ℕ → String) (query_input : QueryInputPayload) where
  -- the latest request is the one that the HTTP response names, and is found incompatible
  abbrev pub IsTrap : Collection → Type 0
  IsTrap c =
      (id : String) × (c.http_id ≡ some id)
      × ((r : SystemMessageValue QueryRequest) × (filtered_request c ≡ some r)
          × (incompatible to_stream_part_id query_input r ≡ ok true))

  pub trap-overflows :
      (depth : ℕ) (c : Collection)
      → IsTrap c
      → announce to_stream_part_id query_input depth c ≡ err stack_overflow
  unfolding announce
  trap-overflows zero c t = refl
  trap-overflows (suc depth) c (id, named, (r, latest, wrong)) =
      let added = add_impossible to_stream_part_id query_input c r.content.request_id in
      let again : filtered_request added ≡ some r =
        ap
          (λ i.
            filtered (λ q. q.content.request_id) request_publisher_of c.query_node i
              (r.content.request_id ∷ c.impossible) c.latest_request)
          named
        ∙ (filtered-ignores (λ q. q.content.request_id) request_publisher_of c.query_node id
              (r.content.request_id ∷ c.impossible) c.impossible c.latest_request
            ∙ (sym (
                  ap
                    (λ i.
                      filtered (λ q. q.content.request_id) request_publisher_of c.query_node i
                        c.impossible c.latest_request)
                    named)
                ∙ latest)) in
      let deeper = trap-overflows depth added (id, named, (r, again, wrong)) in
      ap
        (λ o. to_announce to_stream_part_id query_input o >>= λ found.
          announce_found to_stream_part_id query_input c
            (announce to_stream_part_id query_input depth) found)
        latest
      ∙ rw (wrong, deeper) refl

  no_request-returns :
      (depth : ℕ) (c : Collection)
      → filtered_request c ≡ none
      → announce to_stream_part_id query_input (suc depth) c ≡ ok c
  unfolding announce
  no_request-returns depth c e =
      ap
        (λ o. to_announce to_stream_part_id query_input o >>= λ found.
          announce_found to_stream_part_id query_input c
            (announce to_stream_part_id query_input depth) found)
        e

  one_request :
      (depth : ℕ) (c : Collection) (r : SystemMessageValue QueryRequest)
      → filtered_request c ≡ some r
      → announce to_stream_part_id query_input (suc depth) c ≡ (
          to_announce to_stream_part_id query_input (some r) >>= λ found.
          announce_found to_stream_part_id query_input c
            (announce to_stream_part_id query_input depth)
            found)
  unfolding announce
  one_request depth c r e =
      ap
        (λ o. to_announce to_stream_part_id query_input o >>= λ found.
          announce_found to_stream_part_id query_input c
            (announce to_stream_part_id query_input depth) found)
        e

  raised-ne-overflow :
      (r : SystemMessageValue QueryRequest)
      → incompatible to_stream_part_id query_input r ≢ err stack_overflow
  raised-ne-overflow r h =
      elim (Result-cases (has_incompatible_query_input to_stream_part_id query_input r.content)) [
        | inl (b, e) ↦ cc (e, h)
        | inr (x, e) ↦ cc (e, h)
      ]

  overflow-IsTrap :
      (depth : ℕ) (c : Collection)
      → announce to_stream_part_id query_input (suc (suc depth)) c ≡ err stack_overflow
      → IsTrap c
  overflow-IsTrap depth c h = elim (Option-cases (filtered_request c)) [
    | inl e ↦ absurd (cc (no_request-returns (suc depth) c e, h))
    | inr (r, e) ↦
        let one = one_request (suc depth) c r e in
        elim (Result-cases (incompatible to_stream_part_id query_input r)) [
          | inr (x, z) ↦ absurd (raised-ne-overflow r (cc (z, one, h)))
          | inl (false, z) ↦ absurd (cc (z, one, h))
          | inl (true, z) ↦ elim (Option-cases c.http_id) [
            | inr (id, named) ↦ (id, named, (r, e, z))
            | inl unnamed ↦
                let added = add_impossible to_stream_part_id query_input c r.content.request_id in
                let unnamed_filter : filtered (λ q. q.content.request_id) request_publisher_of
                      c.query_node none c.impossible c.latest_request
                    ≡ some r =
                  ap
                    (λ i.
                      filtered (λ q. q.content.request_id) request_publisher_of c.query_node i
                        c.impossible c.latest_request)
                    (sym unnamed)
                  ∙ e in
                let gone : filtered_request added ≡ none =
                  ap
                    (λ i.
                      filtered (λ q. q.content.request_id) request_publisher_of c.query_node i
                        (r.content.request_id ∷ c.impossible) c.latest_request)
                    unnamed
                  ∙ filtered-added (λ q. q.content.request_id) request_publisher_of c.query_node
                      c.impossible c.latest_request r unnamed_filter in
                absurd (cc (z, one, h, no_request-returns depth added gone))
          ]
        ]
  ]

  -- For a stack of two calls or more: the calls of `impossibleRequestIds$.next` nest without end
  -- exactly if the HTTP response has named a request and the latest request of the query node is that
  -- one and is found incompatible with the query.
  pub announce-overflows_iff :
      (depth : ℕ) (c : Collection)
      → (announce to_stream_part_id query_input (suc (suc depth)) c ≡ err stack_overflow) ↔ IsTrap c
  announce-overflows_iff depth c = (overflow-IsTrap depth c, trap-overflows (suc (suc depth)) c)
