-- ===== src/Client/NetworkValidation/StorageMatrix.antt =====
-- packages/client/src/utils/networkValidation/manageStorageMatrix.ts.
pub mod Laws
pub mod Presence
pub mod Agreement
use logstore_archive.Base.{
  ℕ, String, Bool, true, false, not, ◌&&◌, Option, none, some, List, [], ◌∷◌, ◌++◌, ltb, ◌==◌,
  str_eq, if◌then◌else◌, any, every, length,
}
use logstore_archive.Base.JsMap
use logstore_archive.Base.JsMap.{JsMap}
use logstore_archive.Protocol.Message.{QueryResponse}
use logstore_archive.Client.NetworkValidation.Values.{SystemMessageValue}

pub record NodeHash : Type 0 where
  pub node_address : String
  pub message_hash : String

-- Each object that is added to a `Set` is new, so the set is the list of them.
abbrev pub StorageMatrix : Type 0
StorageMatrix = JsMap (List NodeHash)

abbrev pub or_empty : Option (List NodeHash) → List NodeHash
or_empty none = []
or_empty (some nodes) = nodes

-- The inner loop of `convertToStorageMatrix`, over the entries of one response.
unfoldable pub add_response : StorageMatrix → String → JsMap String → StorageMatrix
add_response m node [] = m
add_response m node ((id, hash) ∷ entries) =
    add_response
      (JsMap.set m id
        (or_empty (JsMap.get m id) ++ record { node_address = node; message_hash = hash } ∷ []))
      node entries

unfoldable pub add_responses :
    StorageMatrix → List (SystemMessageValue QueryResponse) → StorageMatrix
add_responses m [] = m
add_responses m (r ∷ rs) =
    add_responses (add_response m r.metadata.publisher_id r.content.hash_map) rs

abbrev pub convert_to_storage_matrix : List (SystemMessageValue QueryResponse) → StorageMatrix
convert_to_storage_matrix responses = add_responses [] responses

-- `nodesArray.some((node) => node.messageHash !== nodesArray[0].messageHash)`
unfoldable pub contains_different_hash : List NodeHash → Bool
contains_different_hash [] = false
contains_different_hash (first ∷ rest) =
    any (λ n. not (str_eq n.message_hash first.message_hash)) (first ∷ rest)

unfoldable pub nodes_agree_on_storage_matrix : StorageMatrix → Bool
nodes_agree_on_storage_matrix [] = true
nodes_agree_on_storage_matrix ((id, nodes) ∷ m) =
    let rest = nodes_agree_on_storage_matrix m in
    if length nodes == 1 then rest else if contains_different_hash nodes then false else rest

-- The loop that fills `storageMatrixCountPerMessageID`.
unfoldable pub count_nodes : JsMap ℕ → StorageMatrix → JsMap ℕ
count_nodes counts [] = counts
count_nodes counts ((id, nodes) ∷ m) = count_nodes (JsMap.set counts id (length nodes)) m

abbrev or_zero : Option ℕ → ℕ
or_zero none = 0
or_zero (some n) = n

-- `verifyMessagePresenceInStorageMatrix`, of the serialized ids of the messages
unfoldable pub verify_message_presence : List String → StorageMatrix → Bool
unfolding count_nodes
verify_message_presence ids m = every (λ id. ltb 0 (or_zero (JsMap.get (count_nodes [] m) id))) ids
