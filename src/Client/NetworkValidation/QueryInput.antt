-- ===== src/Client/NetworkValidation/QueryInput.antt =====
-- packages/client/src/utils/networkValidation/retrieveFilteredSystemMessages.ts: which requests are
-- not the one that this client has asked a node for (`hasIncompatibleQueryInput`), and the HTTP
-- queries of packages/client/src/Queries.ts.
pub mod Laws
use logstore_archive.Base.{
  ℕ, String, Bool, true, false, not, ◌||◌, List, [], ◌∷◌, ◌==◌, str_eq, if◌then◌else◌,
}
use logstore_archive.Base.Result.{Result, ok, err, ◌>>=◌}
use logstore_archive.Protocol.Js.{Opt}
use logstore_archive.Protocol.Message.{
  QueryType, QueryRef, QueryOptions, last_options, from_options, range_options, QueryRequest,
}

-- `HttpQueryLast | HttpQueryFrom | HttpQueryRange`
pub data HttpQuery : Type 0 where
  last_query : (count : ℕ) → HttpQuery
  from_query :
      (from_timestamp : ℕ) (from_sequence_number : Opt ℕ) (publisher_id : Opt String) → HttpQuery
  range_query :
      (from_timestamp to_timestamp : ℕ) (from_sequence_number to_sequence_number : Opt ℕ)
      (publisher_id msg_chain_id : Opt String)
      → HttpQuery

pub record QueryInputPayload : Type 0 where
  pub query_type : QueryType
  pub query : HttpQuery
  pub stream_part_id : String

-- `a.b` where `a` is undefined
pub data PropertyError : Type 0 where
  property_of_undefined : PropertyError

abbrev pub type_eq : QueryType → QueryType → Bool
type_eq QueryType.last QueryType.last = true
type_eq QueryType.from QueryType.from = true
type_eq QueryType.range QueryType.range = true
type_eq _ _ = false

-- `===` on optional properties: undefined and null differ.
unfoldable pub opt_num_eq : Opt ℕ → Opt ℕ → Bool
opt_num_eq Opt.undefined Opt.undefined = true
opt_num_eq Opt.null Opt.null = true
opt_num_eq (Opt.given m) (Opt.given n) = m == n
opt_num_eq _ _ = false

unfoldable pub opt_str_eq : Opt String → Opt String → Bool
opt_str_eq Opt.undefined Opt.undefined = true
opt_str_eq Opt.null Opt.null = true
opt_str_eq (Opt.given s) (Opt.given t) = str_eq s t
opt_str_eq _ _ = false

-- The properties of the options, or of the query, under the casts of the code.
abbrev last_of : QueryOptions → Opt ℕ
last_of (last_options n) = Opt.given n
last_of _ = Opt.undefined

abbrev from_of : QueryOptions → Result PropertyError QueryRef
from_of (from_options f _ _) = ok f
from_of (range_options f _ _ _ _) = ok f
from_of (last_options _) = err property_of_undefined

abbrev to_of : QueryOptions → Result PropertyError QueryRef
to_of (range_options _ t _ _ _) = ok t
to_of _ = err property_of_undefined

abbrev publisher_of : QueryOptions → Opt String
publisher_of (from_options _ p _) = p
publisher_of (range_options _ _ _ p _) = p
publisher_of (last_options _) = Opt.undefined

abbrev chain_of : QueryOptions → Opt String
chain_of (range_options _ _ c _ _) = c
chain_of _ = Opt.undefined

abbrev count_of : HttpQuery → Opt ℕ
count_of (last_query n) = Opt.given n
count_of _ = Opt.undefined

abbrev pub from_timestamp_of : HttpQuery → Opt ℕ
from_timestamp_of (from_query t _ _) = Opt.given t
from_timestamp_of (range_query t _ _ _ _ _) = Opt.given t
from_timestamp_of (last_query _) = Opt.undefined

abbrev to_timestamp_of : HttpQuery → Opt ℕ
to_timestamp_of (range_query _ t _ _ _ _) = Opt.given t
to_timestamp_of _ = Opt.undefined

abbrev from_sequence_of : HttpQuery → Opt ℕ
from_sequence_of (from_query _ s _) = s
from_sequence_of (range_query _ _ s _ _ _) = s
from_sequence_of (last_query _) = Opt.undefined

abbrev to_sequence_of : HttpQuery → Opt ℕ
to_sequence_of (range_query _ _ _ s _ _) = s
to_sequence_of _ = Opt.undefined

abbrev query_publisher_of : HttpQuery → Opt String
query_publisher_of (from_query _ _ p) = p
query_publisher_of (range_query _ _ _ _ p _) = p
query_publisher_of (last_query _) = Opt.undefined

abbrev query_chain_of : HttpQuery → Opt String
query_chain_of (range_query _ _ _ _ _ c) = c
query_chain_of _ = Opt.undefined

-- The three cases of the `switch`, whose `||` reads no further after a difference.
abbrev pub differs : QueryType → HttpQuery → QueryOptions → Result PropertyError Bool
differs QueryType.last q o = ok (not (opt_num_eq (count_of q) (last_of o)))
differs QueryType.from q o = from_of o >>= λ from. ok (
    not (opt_num_eq (from_timestamp_of q) (Opt.given from.timestamp))
    || not (opt_num_eq (from_sequence_of q) from.sequence_number)
    || not (opt_str_eq (query_publisher_of q) (publisher_of o)))
differs QueryType.range q o = from_of o >>= λ from.
    if not (opt_num_eq (from_timestamp_of q) (Opt.given from.timestamp))
    then ok true
    else (to_of o >>= λ to. ok (
        not (opt_num_eq (to_timestamp_of q) (Opt.given to.timestamp))
        || not (opt_num_eq (from_sequence_of q) from.sequence_number)
        || not (opt_num_eq (to_sequence_of q) to.sequence_number)
        || not (opt_str_eq (query_publisher_of q) (publisher_of o))
        || not (opt_str_eq (query_chain_of q) (chain_of o))))

-- `to_stream_part_id` is `toStreamPartID(toStreamID(streamId), partition)` of @streamr/protocol.
module _ (to_stream_part_id : String → ℕ → String) where
  unfoldable pub has_incompatible_query_input :
      QueryInputPayload → QueryRequest → Result PropertyError Bool
  has_incompatible_query_input input request =
      if not (type_eq input.query_type request.query_type)
      then ok true
      else if not
          (str_eq input.stream_part_id (to_stream_part_id request.stream_id request.partition))
      then ok true
      else differs input.query_type input.query request.query_options
