-- ===== src/Client/NetworkValidation/Collection/Holds.antt =====
-- The invariant of the collection, under the observers of its streams.
use mathlib.Core.Path.{subst}
use logstore_archive.Base.{
  ℕ, zero, suc, String, ◌≡◌, refl, sym, ap, ◌∙◌, ◌⊎◌, inl, inr, true, Option, none, some, List, [],
  ◌∷◌, str_eq, All, All-append, Bool-cases, Option-cases, arith, eq_iff,
}
use logstore_archive.Base.Result.{Result, ok, >>=-eq-ok, ok_inj}
use logstore_archive.Protocol.Message.{QueryPropagate, QueryRequest, QueryResponse}
use logstore_archive.Client.NetworkValidation.Values.{SystemMessageValue}
use logstore_archive.Client.NetworkValidation.QueryInput.{QueryInputPayload}
use logstore_archive.Client.NetworkValidation.Collection.{
  meets, filtered, fill, shrink, Collection, CollectionError, request_publisher_of,
  filtered_request, fill_responses, fill_propagates, matching, first_of, see_request, observe,
  to_announce, add_impossible, announce, announce_found,
}

module _ {M : Type 0} (request_id publisher_id : M → String) where
  abbrev pub HasId : Option String → M → Type 0
  HasId none m = Unit
  HasId (some id) m = request_id m ≡ id

  abbrev pub FromNode : Option String → M → Type 0
  FromNode asked m = asked ≡ some (publisher_id m)

  -- The message is to a request of the query node and, once there is an id, to that request.
  abbrev pub Ours : Option String → Option String → M → Type 0
  Ours asked id m = FromNode asked m × HasId id m

  meets-Ours :
      (asked : String) (http_id : Option String) (impossible : List String) (m : M)
      → meets asked http_id impossible (request_id m) (publisher_id m) ≡ true
      → Ours (some asked) http_id m
  unfolding meets
  meets-Ours asked none impossible m h =
      (ap some ((eq_iff asked (publisher_id m)).0 (ground (arith, h))), tt)
  meets-Ours asked (some id) impossible m h = (
    ap some ((eq_iff asked (publisher_id m)).0 (ground (arith, h))),
    (eq_iff (request_id m) id).0 (ground (arith, h)),
  )

  filtered-Ours :
      (asked http_id : Option String) (impossible : List String) (latest : Option M) {m : M}
      → filtered request_id publisher_id asked http_id impossible latest ≡ some m
      → Ours asked http_id m
  unfolding filtered
  filtered-Ours none http_id impossible latest h = cc
  filtered-Ours (some asked) http_id impossible none h = cc
  filtered-Ours (some asked) http_id impossible (some l) {m} h =
      elim (Bool-cases (meets asked http_id impossible (request_id l) (publisher_id l))) [
        | inl e ↦
            let same : l ≡ m = cc (e, h) in rw (← same) (meets-Ours asked http_id impossible l e)
        | inr e ↦ absurd (cc (e, h))
      ]

  fill-Ours :
      (asked http_id k : Option String) (impossible : List String) (latest : Option M)
      (pool : List M)
      → (k ≡ none) ⊎ (k ≡ http_id)
      → All (Ours asked k) pool
      → All
          (Ours asked k)
          (fill (filtered request_id publisher_id asked http_id impossible latest) pool)
  fill-Ours asked http_id k impossible latest pool c h =
      elim (Option-cases (filtered request_id publisher_id asked http_id impossible latest)) [
        | inl e ↦ rw e h
        | inr (m, e) ↦
            let ours = filtered-Ours asked http_id impossible latest e in
            rw e (
              All-append (Ours asked k) pool (m ∷ []) h
                (elim c [ inl z ↦ rw z ((ours.0, tt), tt) | inr z ↦ rw z (ours, tt) ]))
      ]

  pub shrink-Ours :
      (asked : Option String) (id : String) (pool : List M)
      → All (Ours asked none) pool
      → All (Ours asked (some id)) (shrink request_id id pool)
  shrink-Ours asked id [] h = tt
  shrink-Ours asked id (m ∷ pool) ((from, u), h) = elim (Bool-cases (str_eq (request_id m) id)) [
    | inl e ↦ rw e ((from, (eq_iff (request_id m) id).0 e), shrink-Ours asked id pool h)
    | inr e ↦ rw e (shrink-Ours asked id pool h)
  ]

  pub weaken-Ours :
      (asked k : Option String) (pool : List M)
      → All (Ours asked k) pool
      → All (Ours asked none) pool
  weaken-Ours asked k [] h = tt
  weaken-Ours asked k (m ∷ pool) (ours, h) = ((ours.0, tt), weaken-Ours asked k pool h)

  -- Before the node is known there is nothing in a pool.
  pub empty-Ours :
      (asked k : Option String) (pool : List M) → All (Ours none k) pool → All (Ours asked k) pool
  empty-Ours asked k [] h = tt
  empty-Ours asked k (m ∷ pool) ((from, i), h) = absurd (cc from)

abbrev pub response_request : SystemMessageValue QueryResponse → String
response_request r = r.content.request_id

abbrev pub response_node : SystemMessageValue QueryResponse → String
response_node r = r.content.request_publisher_id

abbrev pub propagate_request : SystemMessageValue QueryPropagate → String
propagate_request p = p.content.request_id

abbrev pub propagate_node : SystemMessageValue QueryPropagate → String
propagate_node p = p.content.request_publisher_id

abbrev pub request_request : SystemMessageValue QueryRequest → String
request_request r = r.content.request_id

abbrev pub OfOption : {A : Type 0} → (A → Type 0) → Option A → Type 0
OfOption P none = Unit
OfOption P (some a) = P a

-- What request$ has given has the id of the HTTP response.
abbrev pub IsRequest : Option String → Option String → SystemMessageValue QueryRequest → Type 0
IsRequest asked http_id r =
    FromNode request_request request_publisher_of asked r × (http_id ≡ some (request_request r))

-- With k the id that the pools are already filtered by.
pub record Holds (asked http_id k : Option String) (c : Collection) : Type 0 where
  pub node_lem : c.query_node ≡ asked
  pub http_lem : c.http_id ≡ http_id
  pub responses_lem : All (Ours response_request response_node asked k) c.responses
  pub propagates_lem : All (Ours propagate_request propagate_node asked k) c.propagates
  pub candidate_lem : OfOption (FromNode request_request request_publisher_of asked) c.candidate
  pub request_lem : OfOption (IsRequest asked http_id) c.request

pub kept-Holds :
    (asked http_id k : Option String) (c d : Collection)
    → d.query_node ≡ c.query_node
    → d.http_id ≡ c.http_id
    → d.responses ≡ c.responses
    → d.propagates ≡ c.propagates
    → d.candidate ≡ c.candidate
    → d.request ≡ c.request
    → Holds asked http_id k c
    → Holds asked http_id k d
kept-Holds asked http_id k c d n i r p a q h = record {
  node_lem = n ∙ h.node_lem;
  http_lem = i ∙ h.http_lem;
  responses_lem = rw r h.responses_lem;
  propagates_lem = rw p h.propagates_lem;
  candidate_lem = rw a h.candidate_lem;
  request_lem = rw q h.request_lem;
}

matching-IsRequest :
    (asked http_id : Option String) (o : Option (SystemMessageValue QueryRequest))
    → OfOption (FromNode request_request request_publisher_of asked) o
    → OfOption (IsRequest asked http_id) (matching http_id o)
matching-IsRequest asked none none h = tt
matching-IsRequest asked none (some r) h = tt
matching-IsRequest asked (some id) none h = tt
matching-IsRequest asked (some id) (some r) h = elim (Bool-cases (str_eq r.content.request_id id)) [
  | inl e ↦ rw e (h, ap some (sym ((eq_iff r.content.request_id id).0 e)))
  | inr e ↦ rw e tt
]

first_of-OfOption :
    (P : SystemMessageValue QueryRequest → Type 0)
    (o next : Option (SystemMessageValue QueryRequest))
    → OfOption P o
    → OfOption P next
    → OfOption P (first_of o next)
first_of-OfOption P none next h k = k
first_of-OfOption P (some r) next h k = h

module _ (asked http_id k : Option String) where
  pub fill_responses-Holds :
      (c : Collection)
      → (k ≡ none) ⊎ (k ≡ http_id)
      → Holds asked http_id k c
      → Holds asked http_id k (fill_responses c)
  unfolding fill_responses
  fill_responses-Holds c w h = record {
    node_lem = h.node_lem;
    http_lem = h.http_lem;
    responses_lem =
        rw (h.node_lem, h.http_lem)
          (fill-Ours response_request response_node asked http_id k c.impossible c.latest_response
            c.responses w h.responses_lem);
    propagates_lem = h.propagates_lem;
    candidate_lem = h.candidate_lem;
    request_lem = h.request_lem;
  }

  pub fill_propagates-Holds :
      (c : Collection)
      → (k ≡ none) ⊎ (k ≡ http_id)
      → Holds asked http_id k c
      → Holds asked http_id k (fill_propagates c)
  unfolding fill_propagates
  fill_propagates-Holds c w h = record {
    node_lem = h.node_lem;
    http_lem = h.http_lem;
    responses_lem = h.responses_lem;
    propagates_lem =
        rw (h.node_lem, h.http_lem)
          (fill-Ours propagate_request propagate_node asked http_id k c.impossible
            c.latest_propagate c.propagates w h.propagates_lem);
    candidate_lem = h.candidate_lem;
    request_lem = h.request_lem;
  }

  filtered_request-FromNode :
      (impossible : List String) (latest : Option (SystemMessageValue QueryRequest))
      → OfOption
          (FromNode request_request request_publisher_of asked)
          (filtered request_request request_publisher_of asked http_id impossible latest)
  filtered_request-FromNode impossible latest =
      elim (Option-cases
        (filtered request_request request_publisher_of asked http_id impossible latest)) [
          | inl e ↦ rw e tt
          | inr (r, e) ↦ rw e (
              (filtered-Ours request_request request_publisher_of asked http_id impossible latest
                e).0)
        ]

  pub see_request-Holds :
      (c : Collection) → Holds asked http_id k c → Holds asked http_id k (see_request c)
  unfolding see_request
  see_request-Holds c h =
      let candidate : OfOption (FromNode request_request request_publisher_of asked)
          (first_of (filtered_request c) c.candidate) =
        first_of-OfOption _ (filtered_request c) c.candidate
          (rw (h.node_lem, h.http_lem) (filtered_request-FromNode c.impossible c.latest_request))
          h.candidate_lem in
      record {
        node_lem = h.node_lem;
        http_lem = h.http_lem;
        responses_lem = h.responses_lem;
        propagates_lem = h.propagates_lem;
        candidate_lem = candidate;
        request_lem = first_of-OfOption _ c.request _ h.request_lem (
            subst
              (λ x.
                OfOption (IsRequest asked x)
                  (matching c.http_id (first_of (filtered_request c) c.candidate)))
              (h.http_lem)
              (matching-IsRequest asked c.http_id (first_of (filtered_request c) c.candidate)
                candidate));
      }

  pub observe-Holds :
      (c : Collection)
      → (k ≡ none) ⊎ (k ≡ http_id)
      → Holds asked http_id k c
      → Holds asked http_id k (observe c)
  unfolding observe
  observe-Holds c w h = see_request-Holds _ (fill_propagates-Holds _ w (fill_responses-Holds c w h))

module _ (to_stream_part_id : String → ℕ → String) (query_input : QueryInputPayload) where
  module _ (asked http_id k : Option String) (w : (k ≡ none) ⊎ (k ≡ http_id)) where
    announce_found-Holds :
        (nested : Collection → Result CollectionError Collection) (found : Option String)
        (c after : Collection)
        → ((d done : Collection)
            → nested d ≡ ok done
            → Holds asked http_id k d
            → Holds asked http_id k done)
        → announce_found to_stream_part_id query_input c nested found ≡ ok after
        → Holds asked http_id k c
        → Holds asked http_id k after
    announce_found-Holds nested none c after n e h = subst (Holds asked http_id k) (ok_inj e) h
    announce_found-Holds nested (some id) c after n e h =
        let added = add_impossible to_stream_part_id query_input c id in
        let (inner, nests, ends) = >>=-eq-ok (nested added) _ e in
        subst (Holds asked http_id k) (ok_inj ends) (
          observe-Holds asked http_id k inner w (
            n added inner nests
              (kept-Holds asked http_id k c added refl refl refl refl refl refl h)))

    pub announce-Holds :
        (depth : ℕ) (c after : Collection)
        → announce to_stream_part_id query_input depth c ≡ ok after
        → Holds asked http_id k c
        → Holds asked http_id k after
    unfolding announce
    announce-Holds zero c after e h = cc
    announce-Holds (suc depth) c after e h =
        let (found, finds, rest) =
          >>=-eq-ok (to_announce to_stream_part_id query_input (filtered_request c)) _ e in
        announce_found-Holds (announce to_stream_part_id query_input depth) found c after
          (announce-Holds depth) rest h
