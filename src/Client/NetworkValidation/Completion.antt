-- ===== src/Client/NetworkValidation/Completion.antt =====
-- packages/client/src/utils/networkValidation/checkCollectionCompletion.ts: when the collection is
-- complete.
pub mod Laws
use logstore_archive.Base.{
  ℕ, String, Bool, true, false, not, ◌&&◌, Option, none, some, List, [], ◌∷◌, ◌++◌, str_eq,
  if◌then◌else◌, keep, find, every, includes, map,
}
use logstore_archive.Base.JsMap
use logstore_archive.Base.JsMap.{JsMap}
use logstore_archive.Protocol.Message.{QueryPropagate, QueryRequest, QueryResponse}
use logstore_archive.Client.NetworkValidation.Values.{SystemMessageValue}
use logstore_archive.Client.NetworkValidation.Propagates.{
  PropagatedMessagesByNodeMap, get_expected_propagated_messages, get_missing_propagated_messages,
}

module _ (to_ethereum_address : String → String) where
  unfoldable pub primary_node_response :
      SystemMessageValue QueryRequest
      → List (SystemMessageValue QueryResponse)
      → Option (SystemMessageValue QueryResponse)
  primary_node_response request responses =
      find (λ r. str_eq r.content.request_publisher_id request.metadata.publisher_id) responses

  unfoldable pub secondary_node_responses :
      SystemMessageValue QueryRequest
      → List (SystemMessageValue QueryResponse)
      → List (SystemMessageValue QueryResponse)
  secondary_node_responses request responses =
      keep (λ r. not (str_eq r.content.request_publisher_id request.metadata.publisher_id))
        responses

  abbrev pub publishers : List (SystemMessageValue QueryResponse) → List String
  publishers [] = []
  publishers (r ∷ rs) = r.metadata.publisher_id ∷ publishers rs

  unfoldable pub got_response_from_all_nodes :
      List String → List (SystemMessageValue QueryResponse) → Bool
  got_response_from_all_nodes expected_nodes responses =
      every (λ node. includes (to_ethereum_address node) (publishers responses)) expected_nodes

  abbrev pub is_empty : PropagatedMessagesByNodeMap → Bool
  is_empty [] = true
  is_empty (_ ∷ _) = false

  -- `allDone$`, at one state of its sources
  unfoldable pub is_done :
      List String
      → SystemMessageValue QueryRequest
      → List (SystemMessageValue QueryResponse)
      → List (SystemMessageValue QueryPropagate)
      → Bool
  is_done expected_nodes request responses propagates =
      elim (primary_node_response request responses) [
        | none ↦ false
        | some primary ↦
            got_response_from_all_nodes expected_nodes responses
            && is_empty (
                get_missing_propagated_messages to_ethereum_address
                  (get_expected_propagated_messages to_ethereum_address
                    (secondary_node_responses request responses) primary)
                  propagates)
      ]
