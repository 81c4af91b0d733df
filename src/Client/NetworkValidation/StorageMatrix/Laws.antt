-- ===== src/Client/NetworkValidation/StorageMatrix/Laws.antt =====
-- The storage matrix against the responses that it is built from.
use mathlib.Core.List.{append_assoc, append-nil}
use logstore_archive.Base.{
  String, ◌≡◌, refl, sym, ap, ◌∙◌, false, ◌||◌, List, [], ◌∷◌, ◌++◌, arith, str_eq, if◌then◌else◌,
  eq_iff, Bool-cases, inl, inr,
}
use logstore_archive.Base.JsMap
use logstore_archive.Base.JsMap.{JsMap}
use logstore_archive.Protocol.Message.{QueryResponse}
use logstore_archive.Client.NetworkValidation.Values.{SystemMessageValue}
use logstore_archive.Client.NetworkValidation.StorageMatrix.{
  NodeHash, StorageMatrix, or_empty, add_response, add_responses, convert_to_storage_matrix,
}

-- what the entries of one response say of a message
abbrev pub says : String → String → JsMap String → List NodeHash
says id node [] = []
says id node ((j, hash) ∷ entries) =
    let rest = says id node entries in
    if str_eq j id then record { node_address = node; message_hash = hash } ∷ rest else rest

-- what all the responses say of it, in their order
abbrev pub all_say : String → List (SystemMessageValue QueryResponse) → List NodeHash
all_say id [] = []
all_say id (r ∷ rs) = says id r.metadata.publisher_id r.content.hash_map ++ all_say id rs

-- the nodes of a message
abbrev pub nodes_of : StorageMatrix → String → List NodeHash
nodes_of m id = or_empty (JsMap.get m id)

nodes_of-add_response :
    (m : StorageMatrix) (id node : String) (entries : JsMap String)
    → nodes_of (add_response m node entries) id ≡ nodes_of m id ++ says id node entries
unfolding add_response
nodes_of-add_response m id node [] = sym (append-nil (nodes_of m id))
nodes_of-add_response m id node ((j, hash) ∷ entries) =
    let x : NodeHash = record { node_address = node; message_hash = hash } in
    let m' : StorageMatrix = JsMap.set m j (nodes_of m j ++ x ∷ []) in
    let ih = nodes_of-add_response m' id node entries in
    let written = ap or_empty (JsMap.get-set m j id (nodes_of m j ++ x ∷ [])) in
    elim (Bool-cases (str_eq j id)) [
      | inl here ↦
          let same : j ≡ id = (eq_iff j id).0 here in
          rw here (
            ih
            ∙ ap (λ ns. ns ++ says id node entries) (written ∙ (rw here (rw same refl)))
            ∙ append_assoc (nodes_of m id) (x ∷ []) (says id node entries))
      | inr there ↦ rw there (ih ∙ ap (λ ns. ns ++ says id node entries) (written ∙ (rw there)))
    ]

nodes_of-add_responses :
    (m : StorageMatrix) (id : String) (rs : List (SystemMessageValue QueryResponse))
    → nodes_of (add_responses m rs) id ≡ nodes_of m id ++ all_say id rs
unfolding add_responses
nodes_of-add_responses m id [] = sym (append-nil (nodes_of m id))
nodes_of-add_responses m id (r ∷ rs) =
    nodes_of-add_responses (add_response m r.metadata.publisher_id r.content.hash_map) id rs
    ∙ ap (λ ns. ns ++ all_say id rs)
        (nodes_of-add_response m id r.metadata.publisher_id r.content.hash_map)
    ∙ append_assoc (nodes_of m id) (says id r.metadata.publisher_id r.content.hash_map)
        (all_say id rs)

-- The matrix holds, for each message, what each response says of it, in the order of the
-- responses, and nothing else.
pub nodes_of-convert_to_storage_matrix :
    (rs : List (SystemMessageValue QueryResponse)) (id : String)
    → nodes_of (convert_to_storage_matrix rs) id ≡ all_say id rs
unfolding JsMap.get
nodes_of-convert_to_storage_matrix rs id = nodes_of-add_responses [] id rs

-- a map has each key once
abbrev pub HasDistinctIds : StorageMatrix → Type 0
HasDistinctIds [] = Unit
HasDistinctIds ((id, nodes) ∷ m) = (JsMap.has m id ≡ false) × HasDistinctIds m

pub has-set :
    {V : Type 0} (m : JsMap V) (k j : String) (v : V)
    → JsMap.has (JsMap.set m k v) j ≡ (str_eq k j || JsMap.has m j)
unfolding JsMap.has JsMap.set
has-set [] k j v = refl
has-set ((i, w) ∷ m) k j v = ground (arith, has-set m k j v, eq_iff i k, eq_iff k j, eq_iff i j)

set-HasDistinctIds :
    (m : StorageMatrix) (k : String) (nodes : List NodeHash)
    → HasDistinctIds m
    → HasDistinctIds (JsMap.set m k nodes)
unfolding JsMap.set
set-HasDistinctIds [] k nodes d = (unfold JsMap.has in refl, tt)
set-HasDistinctIds ((i, w) ∷ m) k nodes (e, d) =
    ground (arith, has-set m k i nodes, eq_iff i k, eq_iff k i, set-HasDistinctIds m k nodes d)

add_response-HasDistinctIds :
    (m : StorageMatrix) (node : String) (entries : JsMap String)
    → HasDistinctIds m
    → HasDistinctIds (add_response m node entries)
unfolding add_response
add_response-HasDistinctIds m node [] d = d
add_response-HasDistinctIds m node ((j, hash) ∷ entries) d =
    let m' : StorageMatrix =
      JsMap.set m j (nodes_of m j ++ record { node_address = node; message_hash = hash } ∷ []) in
    add_response-HasDistinctIds m' node entries (
      set-HasDistinctIds m j
        (nodes_of m j ++ record { node_address = node; message_hash = hash } ∷ []) d)

pub add_responses-HasDistinctIds :
    (m : StorageMatrix) (rs : List (SystemMessageValue QueryResponse))
    → HasDistinctIds m
    → HasDistinctIds (add_responses m rs)
unfolding add_responses
add_responses-HasDistinctIds m [] d = d
add_responses-HasDistinctIds m (r ∷ rs) d =
    add_responses-HasDistinctIds (add_response m r.metadata.publisher_id r.content.hash_map) rs
      (add_response-HasDistinctIds m r.metadata.publisher_id r.content.hash_map d)
