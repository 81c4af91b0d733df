-- ===== src/Client/NetworkValidation/Validation.antt =====
-- packages/client/src/utils/networkValidation/validateNetworkResponses.ts and utils.ts: when the
-- answer of one node is held for valid, and when the validation times out.
pub mod Laws
use logstore_archive.Base.{
  String, Bool, true, false, not, ◌&&◌, ◌||◌, Option, none, some, List, [], ◌∷◌, str_eq,
  if◌then◌else◌,
}
use logstore_archive.Base.Result.{Result, ok, err}
use logstore_archive.Protocol.Message.{QueryPropagate, QueryRequest, QueryResponse}
use logstore_archive.Client.NetworkValidation.Values.{SystemMessageValue}
use logstore_archive.Client.NetworkValidation.StorageMatrix.{
  convert_to_storage_matrix, nodes_agree_on_storage_matrix, verify_message_presence,
}
use logstore_archive.Client.NetworkValidation.Completion.{is_done}
use logstore_archive.Client.NetworkValidation.Collection.{Collection}

-- `lowercaseRequestidFromLogstoreMetadata`, of the ids in the metadata so far; `is_empty` ids are
-- left out by `!!val`.
unfoldable pub lowercase_request_id : (String → String) → List (Option String) → Option String
lowercase_request_id to_lower_case [] = none
lowercase_request_id to_lower_case (none ∷ rest) = lowercase_request_id to_lower_case rest
lowercase_request_id to_lower_case (some id ∷ rest) =
    let later = lowercase_request_id to_lower_case rest in
    if str_eq id "" then later else some (to_lower_case id)

-- What the streams have given at one time. `expected_nodes` comes from the contract and then from the
-- metadata of the response; `messages` are the ids of all messages of the HTTP response, once it has
-- ended; `timer` tells whether the time is over, and `broken` whether one of the streams has ended with
-- an error: of a request, of a stack that overflows, or for want of a value that `first` waits for.
pub record View : Type 0 where
  pub collection : Collection
  pub expected_nodes : Option (List String)
  pub messages : Option (List String)
  pub timer : Bool
  pub broken : Bool

-- `doneCollectingSystemMessages$` and `nodesAgreeOnMatrix$` have `first`: they stay as they are.
pub record Progress : Type 0 where
  pub done : Bool
  pub agreed : Bool

abbrev pub start : Progress
start = record { done = false; agreed = false }

pub data Verdict : Type 0 where
  valid timed_out failed waiting : Verdict

module _ (to_ethereum_address : String → String) where
  -- `checkCollectionCompletion`, which has nothing to say before there is a request
  abbrev done_for :
      Option (List String) → Option (SystemMessageValue QueryRequest) → Collection → Bool
  done_for (some nodes) (some request) c =
      is_done to_ethereum_address nodes request c.responses c.propagates
  done_for _ _ c = false

  abbrev pub is_done_at : View → Bool
  is_done_at v = done_for v.expected_nodes v.collection.request v.collection

  abbrev pub agrees_at : View → Bool
  agrees_at v = nodes_agree_on_storage_matrix (convert_to_storage_matrix v.collection.responses)

  abbrev present : Option (List String) → List (SystemMessageValue QueryResponse) → Bool
  present none responses = false
  present (some ids) responses = verify_message_presence ids (convert_to_storage_matrix responses)

  abbrev pub is_present_at : View → Bool
  is_present_at v = present v.messages v.collection.responses

  unfoldable pub advance : Progress → View → Progress
  advance p v = record {
    done = p.done || is_done_at v;
    agreed = p.agreed || ((p.done || is_done_at v) && agrees_at v);
  }

  -- `conditionsWereValidated$`
  abbrev pub holds : Progress → View → Bool
  holds p v = p.done && (p.agreed && is_present_at v)

  abbrev is_some : Option (SystemMessageValue QueryRequest) → Bool
  is_some none = false
  is_some (some r) = true

  -- `timeoutError$`: `combineLatest` waits for the request too.
  abbrev pub times_out : View → Bool
  times_out v = v.timer && is_some v.collection.request

  -- `race`, over what the streams give one after the other
  unfoldable pub validate : Progress → List View → Verdict
  validate p [] = waiting
  validate p (v ∷ vs) =
      let rest = validate (advance p v) vs in
      if v.broken
      then failed
      else if holds (advance p v) v
      then valid
      else if times_out v
      then timed_out
      else rest
