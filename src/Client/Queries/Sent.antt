-- ===== src/Client/Queries/Sent.antt =====
-- packages/client/src/Queries.ts: which HTTP query is sent for which input.
use logstore_archive.Base.{ℕ, ◌<◌, String, ◌≡◌, Option}
use logstore_archive.Base.Result.{ok}
use logstore_archive.Protocol.Message.{QueryType}
use logstore_archive.Client.NetworkValidation.QueryInput.{
  HttpQuery, last_query, from_query, range_query,
}
use logstore_archive.Client.Queries.{Property, absent, given, QueryInput, publisher_of}

-- `last` is not there, or it is undefined or null.
abbrev pub IsLeftOut : Property ℕ → Type 0
IsLeftOut (given n) = ⊥
IsLeftOut _ = Unit

module _ (to_ethereum_address : String → Option String) where
  -- What an input that is sent as a query of a type asks for.
  abbrev pub Asks : QueryInput → QueryType × HttpQuery → Type 0
  Asks q (QueryType.last, last_query n) = (q.last ≡ given n) × (0 < n)
  Asks q (QueryType.from, from_query t s p) =
      IsLeftOut q.last
      × (q.from ≡ given (record { timestamp = t; sequence_number = s }))
      × (q.to ≡ absent)
      × (publisher_of to_ethereum_address q.publisher_id ≡ ok p)
  Asks q (QueryType.range, range_query t u s v p c) =
      IsLeftOut q.last
      × (q.from ≡ given (record { timestamp = t; sequence_number = s }))
      × (q.to ≡ given (record { timestamp = u; sequence_number = v }))
      × (publisher_of to_ethereum_address q.publisher_id ≡ ok p)
      × (q.msg_chain_id ≡ c)
  Asks q (_, _) = ⊥
