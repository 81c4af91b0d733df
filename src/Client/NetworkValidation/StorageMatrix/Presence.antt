-- ===== src/Client/NetworkValidation/StorageMatrix/Presence.antt =====
-- `verifyMessagePresenceInStorageMatrix` against the responses.
use logstore_archive.Base.{
  ℕ, String, ◌≡◌, refl, ap, ap₂, ◌∙◌, Bool, false, ◌&&◌, List, [], ◌∷◌, arith, ltb, str_eq, any,
  every, length, eq_iff, Bool-cases, inl, inr, length-append,
}
use logstore_archive.Base.JsMap
use logstore_archive.Base.JsMap.{JsMap}
use logstore_archive.Protocol.Message.{QueryResponse}
use logstore_archive.Client.NetworkValidation.Values.{SystemMessageValue}
use logstore_archive.Client.NetworkValidation.StorageMatrix.{
  StorageMatrix, convert_to_storage_matrix, count_nodes, or_zero, verify_message_presence,
}
use logstore_archive.Client.NetworkValidation.StorageMatrix.Laws.{
  says, all_say, nodes_of, nodes_of-convert_to_storage_matrix, HasDistinctIds,
  add_responses-HasDistinctIds,
}

-- the count that is kept for a message
get-count_nodes :
    (m : StorageMatrix) (counts : JsMap ℕ) (id : String)
    → JsMap.has m id ≡ false
    → JsMap.get (count_nodes counts m) id ≡ JsMap.get counts id
unfolding count_nodes JsMap.has
get-count_nodes [] counts id h = refl
get-count_nodes ((j, nodes) ∷ m) counts id h = ground (
  arith,
  get-count_nodes m (JsMap.set counts j (length nodes)) id,
  JsMap.get-set counts j id (length nodes),
)

count_nodes_lem :
    (m : StorageMatrix) (counts : JsMap ℕ) (id : String)
    → HasDistinctIds m
    → or_zero (JsMap.get counts id) ≡ 0
    → or_zero (JsMap.get (count_nodes counts m) id) ≡ length (nodes_of m id)
unfolding count_nodes JsMap.get
count_nodes_lem [] counts id d z = z
count_nodes_lem ((j, nodes) ∷ m) counts id (e, d) z = elim (Bool-cases (str_eq j id)) [
  | inl here ↦ ground (
    arith,
    eq_iff j id,
    ap (λ k. JsMap.has m k) ((eq_iff j id).0 here),
    get-count_nodes m (JsMap.set counts j (length nodes)) id,
    JsMap.get-set counts j id (length nodes),
  )
  | inr there ↦ ground (
    arith,
    count_nodes_lem m (JsMap.set counts j (length nodes)) id d,
    JsMap.get-set counts j id (length nodes),
  )
]

length-says :
    (id node : String) (entries : JsMap String)
    → ltb 0 (length (says id node entries)) ≡ JsMap.has entries id
unfolding JsMap.has
length-says id node [] = refl
length-says id node ((j, hash) ∷ entries) = ground (arith, length-says id node entries)

-- a message that some response names
abbrev pub is_named : List (SystemMessageValue QueryResponse) → String → Bool
is_named rs id = any (λ r. JsMap.has r.content.hash_map id) rs

length-all_say :
    (id : String) (rs : List (SystemMessageValue QueryResponse))
    → ltb 0 (length (all_say id rs)) ≡ is_named rs id
length-all_say id [] = refl
length-all_say id (r ∷ rs) = ground (
  arith,
  length-append (says id r.metadata.publisher_id r.content.hash_map) (all_say id rs),
  length-says id r.metadata.publisher_id r.content.hash_map,
  length-all_say id rs,
)

-- The messages of the answer pass exactly if each of them is named by some response.
pub verify-convert_to_storage_matrix :
    (ids : List String) (rs : List (SystemMessageValue QueryResponse))
    → verify_message_presence ids (convert_to_storage_matrix rs) ≡ every (is_named rs) ids
unfolding verify_message_presence
verify-convert_to_storage_matrix [] rs = refl
verify-convert_to_storage_matrix (id ∷ ids) rs =
    ap₂ ◌&&◌
      (ap (ltb 0) (
          count_nodes_lem (convert_to_storage_matrix rs) [] id
            (add_responses-HasDistinctIds [] rs tt) (unfold JsMap.get in refl)
          ∙ ap length (nodes_of-convert_to_storage_matrix rs id))
        ∙ length-all_say id rs)
      (verify-convert_to_storage_matrix ids rs)
