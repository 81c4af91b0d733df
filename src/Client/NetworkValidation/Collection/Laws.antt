-- ===== src/Client/NetworkValidation/Collection/Laws.antt =====
-- What is collected, in whatever order the messages, the node and the HTTP response come.
use mathlib.Core.Path.{subst}
use logstore_archive.Base.{
  ℕ, String, ◌≡◌, refl, sym, ◌∙◌, ◌⊎◌, inl, inr, Option, none, some, List, [], ◌∷◌, All,
}
use logstore_archive.Base.Result.{Result, ok, >>=-eq-ok, ok_inj}
use logstore_archive.Protocol.Message.{QueryRequest}
use logstore_archive.Client.NetworkValidation.Values.{SystemMessageValue}
use logstore_archive.Client.NetworkValidation.QueryInput.{QueryInputPayload}
use logstore_archive.Client.NetworkValidation.Collection.{
  Collection, CollectionError, unless_known, new_collection, Event, request_arrives,
  response_arrives, propagate_arrives, node_resolved, http_answered, request_publisher_of,
  fill_responses, fill_propagates, shrink_pools, see_request, observe, announce, step, collect,
}
use logstore_archive.Client.NetworkValidation.Collection.Holds.{
  FromNode, Ours, OfOption, IsRequest, Holds, kept-Holds, shrink-Ours, weaken-Ours, empty-Ours,
  response_request, response_node, propagate_request, propagate_node, request_request,
  fill_responses-Holds, fill_propagates-Holds, see_request-Holds, observe-Holds, announce-Holds,
}

-- the invariant, with the values that the node and the id have
abbrev Sound : Collection → Type 0
Sound c = (asked : Option String) × (http_id : Option String) × Holds asked http_id http_id c

-- Every pooled response and propagate is to a request of the query node and, once the HTTP response
-- has named one, to that request; and what request$ has given is that request.
abbrev pub IsCollected : Collection → Type 0
IsCollected c =
    All (Ours response_request response_node c.query_node c.http_id) c.responses
    × All (Ours propagate_request propagate_node c.query_node c.http_id) c.propagates
    × OfOption (IsRequest c.query_node c.http_id) c.request

FromNode-unresolved :
    (address : String) (o : Option (SystemMessageValue QueryRequest))
    → OfOption (FromNode request_request request_publisher_of none) o
    → OfOption (FromNode request_request request_publisher_of (some address)) o
FromNode-unresolved address none k = tt
FromNode-unresolved address (some r) k = absurd (cc k)

IsRequest-unresolved :
    (address : String) (http_id : Option String) (o : Option (SystemMessageValue QueryRequest))
    → OfOption (IsRequest none http_id) o
    → OfOption (IsRequest (some address) http_id) o
IsRequest-unresolved address http_id none k = tt
IsRequest-unresolved address http_id (some r) k = let from = k.0 in absurd (cc from)

IsRequest-unanswered :
    (asked : Option String) (id : String) (o : Option (SystemMessageValue QueryRequest))
    → OfOption (IsRequest asked none) o
    → OfOption (IsRequest asked (some id)) o
IsRequest-unanswered asked id none k = tt
IsRequest-unanswered asked id (some r) k = let names = k.1 in absurd (cc names)

-- A node that becomes known: before it there was no message of it.
resolved-Holds :
    (asked http_id : Option String) (c : Collection) (address : String)
    → c.query_node ≡ none
    → Holds asked http_id http_id c
    → Holds (some address) http_id http_id (record c { query_node = some address })
resolved-Holds asked http_id c address e h =
    let unknown : none ≡ asked = sym e ∙ h.node_lem in
    record {
      node_lem = refl;
      http_lem = h.http_lem;
      responses_lem =
          empty-Ours response_request response_node (some address) http_id c.responses
            (rw unknown h.responses_lem);
      propagates_lem =
          empty-Ours propagate_request propagate_node (some address) http_id c.propagates
            (rw unknown h.propagates_lem);
      candidate_lem = FromNode-unresolved address c.candidate (rw unknown h.candidate_lem);
      request_lem = IsRequest-unresolved address http_id c.request (rw unknown h.request_lem);
    }

-- An id that becomes known: the pools are not filtered by it yet, and no request was given.
answered-Holds :
    (asked http_id : Option String) (c : Collection) (id : String)
    → c.http_id ≡ none
    → Holds asked http_id http_id c
    → Holds asked (some id) none (record c { http_id = some id })
answered-Holds asked http_id c id e h =
    let unknown : none ≡ http_id = sym e ∙ h.http_lem in
    record {
      node_lem = h.node_lem;
      http_lem = refl;
      responses_lem =
          weaken-Ours response_request response_node asked http_id c.responses h.responses_lem;
      propagates_lem =
          weaken-Ours propagate_request propagate_node asked http_id c.propagates h.propagates_lem;
      candidate_lem = h.candidate_lem;
      request_lem = IsRequest-unanswered asked id c.request (rw unknown h.request_lem);
    }

shrink_pools-Holds :
    (asked : Option String) (id : String) (c : Collection)
    → Holds asked (some id) none c
    → Holds asked (some id) (some id) (shrink_pools id c)
unfolding shrink_pools
shrink_pools-Holds asked id c h = record {
  node_lem = h.node_lem;
  http_lem = h.http_lem;
  responses_lem = shrink-Ours response_request response_node asked id c.responses h.responses_lem;
  propagates_lem =
      shrink-Ours propagate_request propagate_node asked id c.propagates h.propagates_lem;
  candidate_lem = h.candidate_lem;
  request_lem = h.request_lem;
}

module _ (to_stream_part_id : String → ℕ → String) (query_input : QueryInputPayload)
    (depth : ℕ) where
  unless_known-eq-ok :
      (o : Option String) (c : Collection) (next : Result CollectionError Collection)
      {done : Collection}
      → unless_known to_stream_part_id query_input o c next ≡ ok done
      → (c ≡ done) ⊎ ((o ≡ none) × (next ≡ ok done))
  unless_known-eq-ok none c next e = inr (refl, e)
  unless_known-eq-ok (some old) c next e = inl (ok_inj e)

  step-Sound :
      (c next : Collection) (e : Event)
      → step to_stream_part_id query_input depth c e ≡ ok next
      → Sound c
      → Sound next
  unfolding step
  step-Sound c next (request_arrives r) e (asked, http_id, h) =
      let arrived : Collection = record c { latest_request = some r } in
      let (after, announced, ends) =
        >>=-eq-ok (announce to_stream_part_id query_input depth arrived) _ e in
      let held =
        announce-Holds to_stream_part_id query_input asked http_id http_id (inr refl) depth arrived
          after announced
          (kept-Holds asked http_id http_id c arrived refl refl refl refl refl refl h) in
      (
        asked,
        http_id,
        subst (Holds asked http_id http_id) (ok_inj ends)
            (see_request-Holds asked http_id http_id after held),
      )
  step-Sound c next (response_arrives r) e (asked, http_id, h) =
      let arrived : Collection = record c { latest_response = some r } in
      (
        asked,
        http_id,
        subst (Holds asked http_id http_id) (ok_inj e) (
            fill_responses-Holds asked http_id http_id arrived (inr refl)
              (kept-Holds asked http_id http_id c arrived refl refl refl refl refl refl h)),
      )
  step-Sound c next (propagate_arrives p) e (asked, http_id, h) =
      let arrived : Collection = record c { latest_propagate = some p } in
      (
        asked,
        http_id,
        subst (Holds asked http_id http_id) (ok_inj e) (
            fill_propagates-Holds asked http_id http_id arrived (inr refl)
              (kept-Holds asked http_id http_id c arrived refl refl refl refl refl refl h)),
      )
  step-Sound c next (node_resolved n) e (asked, http_id, h) =
      elim (unless_known-eq-ok c.query_node c _ e) [
        | inl same ↦ (asked, http_id, subst (Holds asked http_id http_id) (same) h)
        | inr (z, n_e) ↦
            let known : Collection = record c { query_node = some n } in
            let (after, announced, ends) =
              >>=-eq-ok (announce to_stream_part_id query_input depth known)
                (λ after. ok (observe after)) n_e in
            (
              some n,
              http_id,
              subst (Holds (some n) http_id http_id) (ok_inj ends) (
                  observe-Holds (some n) http_id http_id after (inr refl) (
                    announce-Holds to_stream_part_id query_input (some n) http_id http_id (inr refl)
                      depth known after announced (resolved-Holds asked http_id c n z h))),
            )
      ]
  step-Sound c next (http_answered id) e (asked, http_id, h) =
      elim (unless_known-eq-ok c.http_id c _ e) [
        | inl same ↦ (asked, http_id, subst (Holds asked http_id http_id) (same) h)
        | inr (z, n_e) ↦
            let known : Collection = record c { http_id = some id } in
            let (after, announced, ends) =
              >>=-eq-ok (announce to_stream_part_id query_input depth known)
                (λ after.
                  ok (see_request (shrink_pools id (fill_propagates (fill_responses after)))))
                n_e in
            let held =
              announce-Holds to_stream_part_id query_input asked (some id) none (inl refl) depth
                known after announced (answered-Holds asked http_id c id z h) in
            (
              asked,
              some id,
              subst (Holds asked (some id) (some id)) (ok_inj ends) (
                  see_request-Holds asked (some id) (some id) _ (
                    shrink_pools-Holds asked id _ (
                      fill_propagates-Holds asked (some id) none _ (inl refl)
                        (fill_responses-Holds asked (some id) none after (inl refl) held)))),
            )
      ]

  collect-Sound :
      (c done : Collection) (es : List Event)
      → collect to_stream_part_id query_input depth c es ≡ ok done
      → Sound c
      → Sound done
  unfolding collect
  collect-Sound c done [] h s = subst Sound (ok_inj h) s
  collect-Sound c done (e ∷ es) h s =
      let (next, steps, rest) = >>=-eq-ok (step to_stream_part_id query_input depth c e) _ h in
      collect-Sound next done es rest (step-Sound c next e steps s)

  -- Whatever arrives, in whatever order: if the collection does not end in an error, then every
  -- response and every propagate in the pools is to a request of the query node and, once the HTTP
  -- response has named one, to that request; and a request that request$ has given is that request,
  -- published by the query node.
  pub collect-IsCollected :
      (done : Collection) (es : List Event)
      → collect to_stream_part_id query_input depth new_collection es ≡ ok done
      → IsCollected done
  collect-IsCollected done es h =
      let (asked, http_id, held) = collect-Sound new_collection done es h (
        none,
        none,
        record {
          node_lem = refl;
          http_lem = refl;
          responses_lem = tt;
          propagates_lem = tt;
          candidate_lem = tt;
          request_lem = tt;
        },
      ) in
      rw (held.node_lem, held.http_lem) (held.responses_lem, held.propagates_lem, held.request_lem)
