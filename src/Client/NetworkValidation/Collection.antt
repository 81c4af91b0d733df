-- ===== src/Client/NetworkValidation/Collection.antt =====
-- packages/client/src/utils/networkValidation/retrieveFilteredSystemMessages.ts: the pools, the
-- impossible requests and the request of the query, over all that arrives, in any order. The
-- subjects of rxjs call their observers at once and in the order of subscription: first what finds
-- impossible requests, then the pools, then `request$`.
pub mod Holds
pub mod Laws
pub mod Loop
pub mod LeftOut
pub mod Done
use logstore_archive.Base.{
  ℕ, zero, suc, String, Bool, true, false, not, ◌&&◌, Option, none, some, List, [], ◌∷◌, ◌++◌,
  str_eq, if◌then◌else◌, keep, includes,
}
use logstore_archive.Base.Result.{Result, ok, err, ◌>>=◌}
use logstore_archive.Protocol.Message.{QueryPropagate, QueryRequest, QueryResponse}
use logstore_archive.Client.NetworkValidation.Values.{SystemMessageValue}
use logstore_archive.Client.NetworkValidation.QueryInput.{
  PropertyError, QueryInputPayload, has_incompatible_query_input,
}

-- The two `filter`s of `filterSystemMessageBasedOnCriteria`, of a message's request and of the node
-- that was asked.
unfoldable pub meets : String → Option String → List String → String → String → Bool
meets query_node none impossible request_id publisher_id =
    not (includes request_id impossible) && str_eq query_node publisher_id
meets query_node (some id) impossible request_id publisher_id =
    str_eq request_id id && str_eq query_node publisher_id

-- What `combineLatest` gives of the latest message, which is nothing before all of its streams have
-- a value, and after the filters.
module _ {M : Type 0} (request_id publisher_id : M → String) where
  unfoldable pub filtered : Option String → Option String → List String → Option M → Option M
  filtered none http_id impossible latest = none
  filtered (some node) http_id impossible none = none
  filtered (some node) http_id impossible (some m) =
      if meets node http_id impossible (request_id m) (publisher_id m) then some m else none

-- `pool$.next(pool$.getValue().concat(newVal))`
abbrev pub fill : {M : Type 0} → Option M → List M → List M
fill none pool = pool
fill (some m) pool = pool ++ m ∷ []

-- `pool$.getValue().filter(...)`
abbrev pub shrink : {M : Type 0} → (M → String) → String → List M → List M
shrink request_id id pool = keep (λ m. str_eq (request_id m) id) pool

pub record Collection : Type 0 where
  pub query_node : Option String
  pub http_id : Option String
  pub impossible : List String
  pub latest_request : Option (SystemMessageValue QueryRequest)
  pub latest_response : Option (SystemMessageValue QueryResponse)
  pub latest_propagate : Option (SystemMessageValue QueryPropagate)
  pub responses : List (SystemMessageValue QueryResponse)
  pub propagates : List (SystemMessageValue QueryPropagate)
  -- the `request` that `combineLatest` holds for `request$`, and what `request$` has given
  pub candidate : Option (SystemMessageValue QueryRequest)
  pub request : Option (SystemMessageValue QueryRequest)

abbrev pub new_collection : Collection
new_collection = record {
  query_node = none;
  http_id = none;
  impossible = [];
  latest_request = none;
  latest_response = none;
  latest_propagate = none;
  responses = [];
  propagates = [];
  candidate = none;
  request = none;
}

pub data Event : Type 0 where
  request_arrives : SystemMessageValue QueryRequest → Event
  response_arrives : SystemMessageValue QueryResponse → Event
  propagate_arrives : SystemMessageValue QueryPropagate → Event
  -- `nodeAddressFromUrl` and the metadata of the HTTP response, each of which comes once
  node_resolved : String → Event
  http_answered : String → Event

-- Errors end the collection: `hasIncompatibleQueryInput` reads a property of undefined, or the calls
-- nest deeper than the stack allows.
pub data CollectionError : Type 0 where
  property_error stack_overflow : CollectionError

abbrev pub request_publisher_of : SystemMessageValue QueryRequest → String
request_publisher_of r = r.metadata.publisher_id

abbrev pub filtered_request : Collection → Option (SystemMessageValue QueryRequest)
filtered_request c =
    filtered (λ r. r.content.request_id) request_publisher_of c.query_node c.http_id c.impossible
      c.latest_request

abbrev pub filtered_response : Collection → Option (SystemMessageValue QueryResponse)
filtered_response c =
    filtered (λ r. r.content.request_id) (λ r. r.content.request_publisher_id) c.query_node
      c.http_id c.impossible c.latest_response

abbrev pub filtered_propagate : Collection → Option (SystemMessageValue QueryPropagate)
filtered_propagate c =
    filtered (λ p. p.content.request_id) (λ p. p.content.request_publisher_id) c.query_node
      c.http_id c.impossible c.latest_propagate

-- `fillPoolWithStream`
unfoldable pub fill_responses : Collection → Collection
fill_responses c = record c { responses = fill (filtered_response c) c.responses }

unfoldable pub fill_propagates : Collection → Collection
fill_propagates c = record c { propagates = fill (filtered_propagate c) c.propagates }

-- `shrinkPoolOnHttpRequestIdDefinition$`, of both pools
unfoldable pub shrink_pools : String → Collection → Collection
shrink_pools id c = record c {
  responses = shrink (λ r. r.content.request_id) id c.responses;
  propagates = shrink (λ p. p.content.request_id) id c.propagates;
}

-- `request$`: the first candidate that has the id of the HTTP response.
abbrev pub matching :
    Option String
    → Option (SystemMessageValue QueryRequest)
    → Option (SystemMessageValue QueryRequest)
matching (some id) (some r) = if str_eq r.content.request_id id then some r else none
matching _ _ = none

abbrev pub first_of :
    Option (SystemMessageValue QueryRequest)
    → Option (SystemMessageValue QueryRequest)
    → Option (SystemMessageValue QueryRequest)
first_of (some r) next = some r
first_of none next = next

unfoldable pub see_request : Collection → Collection
see_request c =
    let candidate = first_of (filtered_request c) c.candidate in
    record c { candidate = candidate; request = first_of c.request (matching c.http_id candidate) }

-- The observers of the other streams, in the order in which they are called.
unfoldable pub observe : Collection → Collection
observe c = see_request (fill_propagates (fill_responses c))

abbrev raised : Result PropertyError Bool → Result CollectionError Bool
raised (ok b) = ok b
raised (err e) = err property_error

module _ (to_stream_part_id : String → ℕ → String) (query_input : QueryInputPayload) where
  abbrev pub incompatible : SystemMessageValue QueryRequest → Result CollectionError Bool
  incompatible r = raised (has_incompatible_query_input to_stream_part_id query_input r.content)

  -- `filter(hasIncompatibleQueryInput(queryInput))`, of what the stream of requests gives
  abbrev pub to_announce :
      Option (SystemMessageValue QueryRequest) → Result CollectionError (Option String)
  to_announce none = ok none
  to_announce (some r) =
      incompatible r >>= λ b. if b then ok (some r.content.request_id) else ok none

  abbrev pub add_impossible : Collection → String → Collection
  add_impossible c id = record c { impossible = id ∷ c.impossible }

  -- `impossibleRequestIds$.next(...)` calls all its observers before it returns, the first of which
  -- is this stream again: `nested`.
  abbrev pub announce_found :
      Collection
      → (Collection → Result CollectionError Collection)
      → Option String
      → Result CollectionError Collection
  announce_found c nested none = ok c
  announce_found c nested (some id) = nested (add_impossible c id) >>= λ after. ok (observe after)

  -- The fuel is the depth of the stack.
  unfoldable pub announce : ℕ → Collection → Result CollectionError Collection
  announce zero c = err stack_overflow
  announce (suc depth) c =
      to_announce (filtered_request c) >>= λ found. announce_found c (announce depth) found

  -- A stream with `first()` gives one value.
  abbrev pub unless_known :
      Option String
      → Collection
      → Result CollectionError Collection
      → Result CollectionError Collection
  unless_known (some known) c next = ok c
  unless_known none c next = next

  unfoldable pub step : ℕ → Collection → Event → Result CollectionError Collection
  step depth c (request_arrives r) =
      announce depth (record c { latest_request = some r }) >>= λ after. ok (see_request after)
  step depth c (response_arrives r) = ok (fill_responses (record c { latest_response = some r }))
  step depth c (propagate_arrives p) = ok (fill_propagates (record c { latest_propagate = some p }))
  step depth c (node_resolved node) =
      unless_known c.query_node c
        (announce depth (record c { query_node = some node }) >>= λ after. ok (observe after))
  step depth c (http_answered id) = unless_known c.http_id c (
      announce depth (record c { http_id = some id }) >>= λ after.
      ok (see_request (shrink_pools id (fill_propagates (fill_responses after)))))

  unfoldable pub collect : ℕ → Collection → List Event → Result CollectionError Collection
  collect depth c [] = ok c
  collect depth c (e ∷ es) = step depth c e >>= λ next. collect depth next es
