-- ===== src/Client/GraphQl.antt =====
-- packages/client/src/utils/GraphQLClient.ts: a query of The Graph, and the pages of its results.
pub mod Pages
use logstore_archive.Base.{
  ℕ, zero, suc, ◌==◌, String, ◌≡◌, Option, none, some, List, [], ◌∷◌, ◌++◌, length, if◌then◌else◌,
}
use logstore_archive.Base.Result.{Result, ok, err}

-- What `JSON.parse` makes of the text of a response: nothing, or a value with what it has of `data`
-- and the messages of its `errors`. A value with no properties, as null, is not among them.
pub data Reply (D : Type 0) : Type 0 where
  not_json : Reply D
  with_data : D → Reply D
  with_errors : List String → Reply D

pub data QueryError (X : Type 0) : Type 0 where
  -- with the text of the response, with the messages, and with nothing
  bad_text : String → QueryError X
  query_failed : List String → QueryError X
  query_failed_silently : QueryError X
  thrown : X → QueryError X

module _ {D X : Type 0} (parse : String → Reply D) (fetch : String → Result X String) where
  abbrev data_of : String → Reply D → Result (QueryError X) D
  data_of s not_json = err (bad_text s)
  data_of s (with_data d) = ok d
  data_of s (with_errors []) = err query_failed_silently
  data_of s (with_errors (m ∷ ms)) = err (query_failed (m ∷ ms))

  abbrev fetched : Result X String → Result (QueryError X) D
  fetched (err x) = err (thrown x)
  fetched (ok s) = data_of s (parse s)

  unfoldable pub send_query : String → Result (QueryError X) D
  send_query query = fetched (fetch query)

-- How the generator ends: `unfinished` is a run that the fuel does not suffice for.
pub data End (X : Type 0) : Type 0 where
  complete type_error unfinished : End X
  failed : X → End X

abbrev pub last_item : {T : Type 0} → List T → Option T
last_item [] = none
last_item (x ∷ []) = some x
last_item (x ∷ y ∷ ys) = last_item (y ∷ ys)

-- `fetch_page` is `parseItems(await this.sendQuery(createQuery(lastId, pageSize)))`.
module _ {T X : Type 0} (id_of : T → String) (fetch_page : String → ℕ → Result X (List T))
    (page_size : ℕ) where
  abbrev continue_after : (String → List T × End X) → Option T → List T × End X
  continue_after next none = ([], type_error)
  continue_after next (some x) = next (id_of x)

  abbrev yielded : List T → List T × End X → List T × End X
  yielded items more = (items ++ more.0, more.1)

  abbrev pub turn : (String → List T × End X) → Result X (List T) → List T × End X
  turn next (err x) = ([], failed x)
  turn next (ok items) =
      let rest = yielded items (continue_after next (last_item items)) in
      if length items == page_size then rest else (items, complete)

  -- the loop of `fetchPaginatedResults`: the items that are yielded, and the end
  unfoldable pub fetch_from : ℕ → String → List T × End X
  fetch_from zero last_id = ([], unfinished)
  fetch_from (suc fuel) last_id = turn (fetch_from fuel) (fetch_page last_id page_size)

  abbrev pub fetch_paginated_results : ℕ → List T × End X
  fetch_paginated_results fuel = fetch_from fuel ""
