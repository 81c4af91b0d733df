-- ===== src/Client/Queries.antt =====
-- packages/client/src/Queries.ts and HttpUtil.ts: which HTTP query a query is, and how the lines of the
-- response are read.
pub mod Sent
use logstore_archive.Base.{
  ℕ, String, ◌≡◌, refl, Bool, true, false, ◌&&◌, not, Option, none, some, List, [], ◌∷◌, ◌==◌,
  str_eq, if◌then◌else◌,
}
use logstore_archive.Base.Result.{Result, ok, err, ◌>>=◌}
use logstore_archive.Protocol.Js.{Opt}
use logstore_archive.Protocol.Message.{QueryType, QueryRef}
use logstore_archive.Client.NetworkValidation.QueryInput.{
  HttpQuery, last_query, from_query, range_query,
}

-- A property of an object: not there, there but null or undefined, or given.
pub data Property {ℓ} (A : Type ℓ) : Type ℓ where
  absent nullish : Property A
  given : A → Property A

-- What a caller may pass as a query: `last` is a whole number, below 0 answered as 0 is, and a time is
-- a whole number of milliseconds, at most 8640000000000000, of which `new Date(x).getTime()` is x.
pub record QueryInput : Type 0 where
  pub last : Property ℕ
  pub from : Property QueryRef
  pub to : Property QueryRef
  pub publisher_id : Opt String
  pub msg_chain_id : Opt String

pub data QueryFailure : Type 0 where
  invalid_argument bad_address invalid_message bad_json : QueryFailure

-- `to_ethereum_address` throws, none, at a text that is no address and at null.
module _ (to_ethereum_address : String → Option String) where
  abbrev or_bad_address : Option String → Result QueryFailure (Opt String)
  or_bad_address none = err bad_address
  or_bad_address (some address) = ok (Opt.given address)

  abbrev pub publisher_of : Opt String → Result QueryFailure (Opt String)
  publisher_of Opt.undefined = ok Opt.undefined
  publisher_of Opt.null = err bad_address
  publisher_of (Opt.given id) = or_bad_address (to_ethereum_address id)

  -- Past `isQueryLast`: `isQueryRange` wants both references and `isQueryFrom` no property `to`.
  abbrev pub query_between :
      QueryInput
      → Property QueryRef
      → Property QueryRef
      → Result QueryFailure (Option (QueryType × HttpQuery))
  query_between q (given from) (given to) = publisher_of q.publisher_id >>= λ publisher. ok (
      some (
        QueryType.range,
        range_query from.timestamp to.timestamp from.sequence_number to.sequence_number publisher
            q.msg_chain_id,
      ))
  query_between q (given from) absent = publisher_of q.publisher_id >>= λ publisher.
      ok (some (QueryType.from, from_query from.timestamp from.sequence_number publisher))
  query_between q (given from) nullish = err invalid_argument
  query_between q absent to = err invalid_argument
  query_between q nullish to = err invalid_argument

  abbrev query_last : QueryInput → Property ℕ → Result QueryFailure (Option (QueryType × HttpQuery))
  query_last q (given n) = if n == 0 then ok none else ok (some (QueryType.last, last_query n))
  query_last q absent = query_between q q.from q.to
  query_last q nullish = query_between q q.from q.to

  -- `query`: the HTTP query that is sent, and none where the answer is empty at once
  unfoldable pub query : QueryInput → Result QueryFailure (Option (QueryType × HttpQuery))
  query q = query_last q q.last

-- A line of the response, as JSON: an array, an object of type "metadata", or else.
pub data Line (Message Metadata : Type 0) : Type 0 where
  message : Message → Line Message Metadata
  metadata : Metadata → Line Message Metadata
  other : Line Message Metadata

-- what is read of a response: the messages and the metadata, and what ends it early
pub record Response (Message Metadata : Type 0) : Type 0 where
  pub messages : List Message
  pub metadata_parts : List Metadata
  pub failure : Option QueryFailure

-- `trim` and `JSON.parse`, with none of a text that is not JSON
module _ {Message Metadata : Type 0} (trim : String → String)
    (parse : String → Option (Line Message Metadata)) where
  abbrev failed_with : QueryFailure → Response Message Metadata
  failed_with e = record { messages = []; metadata_parts = []; failure = some e }

  abbrev add_line :
      Option (Line Message Metadata) → Response Message Metadata → Response Message Metadata
  add_line none rest = failed_with bad_json
  add_line (some (message m)) rest = record rest { messages = m ∷ rest.messages }
  add_line (some (metadata d)) rest = record rest { metadata_parts = d ∷ rest.metadata_parts }
  add_line (some other) rest = failed_with invalid_message

  -- the lines, in order; an error ends both parts
  unfoldable pub read_lines : List String → Response Message Metadata
  read_lines [] = record { messages = []; metadata_parts = []; failure = none }
  read_lines (line ∷ lines) =
      let rest = read_lines lines in
      if str_eq (trim line) "" then rest else add_line (parse (trim line)) rest

-- The entries of a query string: `createQueryString` leaves out what is undefined or null.
unfoldable pub without_empty : List (String × Opt String) → List (String × String)
without_empty [] = []
without_empty ((k, Opt.given v) ∷ query) = (k, v) ∷ without_empty query
without_empty ((k, Opt.undefined) ∷ query) = without_empty query
without_empty ((k, Opt.null) ∷ query) = without_empty query
