-- ===== src/Protocol/Wire/Queries.antt =====
-- What the wire format keeps and loses of a query.
use logstore_archive.Base.{ℕ, ◌≡◌, ◌≢◌, arith}
use logstore_archive.Base.Result.{ok, err}
use logstore_archive.Protocol.Js.{Json, Opt}
use logstore_archive.Protocol.Message.{
  QueryType, QueryOptions, from_options, range_options, QueryRequest, message, Body, code, type_of,
}
use logstore_archive.Protocol.Registry.{unsupported_version, Registry, loaded}
use logstore_archive.Protocol.Registry.Laws.{get_serializer-other}
use logstore_archive.Protocol.Wire.Encode.{options_array, serialize}

-- the options that differ in their limit alone
abbrev pub with_limit : Opt ℕ → QueryOptions → QueryOptions
with_limit limit (QueryOptions.last_options n) = QueryOptions.last_options n
with_limit limit (from_options f p _) = from_options f p limit
with_limit limit (range_options f t c p _) = range_options f t c p limit

options_array-with_limit :
    (t : QueryType) (o : QueryOptions) (limit : Opt ℕ)
    → options_array t (with_limit limit o) ≡ options_array t o
unfolding options_array
options_array-with_limit QueryType.last o limit = ground arith
options_array-with_limit QueryType.from o limit = ground arith
options_array-with_limit QueryType.range o limit = ground arith

module _ (J : Json) (registry : Registry) where
  -- Two QueryRequests that differ in the `limit` of their options alone are written as the same
  -- text: no receiver can tell which limit was asked for.
  pub serialize-with_limit :
      (version seq_num : ℕ) (q : QueryRequest) (limit : Opt ℕ)
      → serialize J registry (
          message version seq_num
            (Body.query_request (record q { query_options = with_limit limit q.query_options })))
        ≡ serialize J registry (message version seq_num (Body.query_request q))
  unfolding serialize
  serialize-with_limit version seq_num q limit =
      rw (options_array-with_limit q.query_type q.query_options limit)

  -- With the seven serializers loaded, a message of any version but 1 is refused.
  pub serialize-version :
      (version seq_num : ℕ) (b : Body)
      → loaded ≡ ok registry
      → version ≢ 1
      → serialize J registry (message version seq_num b) ≡ err unsupported_version
  unfolding serialize
  serialize-version version seq_num b ready other =
      rw (get_serializer-other version (code (type_of b)) registry ready other)
