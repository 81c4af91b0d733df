-- ===== src/Client/NetworkValidation/StorageMatrix/Agreement.antt =====
-- `nodesAgreeOnStorageMatrix` against the responses.
use mathlib.Core.Bool.{false≢true}
use logstore_archive.Base.{
  String, ◌≡◌, ◌≢◌, sym, ap, ◌∙◌, Bool, true, false, not, ◌||◌, ◌==◌, List, [], ◌∷◌, arith, str_eq,
  any, length, eq_iff, eq_refl, Bool-cases, inl, inr,
}
use logstore_archive.Base.JsMap
use logstore_archive.Base.JsMap.{JsMap}
use logstore_archive.Protocol.Message.{QueryResponse}
use logstore_archive.Client.NetworkValidation.Values.{SystemMessageValue}
use logstore_archive.Client.NetworkValidation.StorageMatrix.{
  NodeHash, StorageMatrix, or_empty, convert_to_storage_matrix, contains_different_hash,
  nodes_agree_on_storage_matrix,
}
use logstore_archive.Client.NetworkValidation.StorageMatrix.Laws.{
  all_say, nodes_of, nodes_of-convert_to_storage_matrix, HasDistinctIds,
  add_responses-HasDistinctIds,
}

-- some node reports the hash
abbrev pub reports : String → List NodeHash → Bool
reports h nodes = any (λ n. str_eq n.message_hash h) nodes

all_same :
    (first h : String) (nodes : List NodeHash)
    → any (λ n. not (str_eq n.message_hash first)) nodes ≡ false
    → reports h nodes ≡ true
    → h ≡ first
all_same first h [] a r = cc
all_same first h (n ∷ nodes) a r =
    ground (arith, all_same first h nodes, eq_iff n.message_hash first, eq_iff n.message_hash h)

nodes_agree :
    (h h' : String) (nodes : List NodeHash)
    → ((length nodes == 1) || not (contains_different_hash nodes)) ≡ true
    → reports h nodes ≡ true
    → reports h' nodes ≡ true
    → h ≡ h'
unfolding contains_different_hash
nodes_agree h h' [] a r r' = cc
nodes_agree h h' (n ∷ []) a r r' = ground (arith, eq_iff n.message_hash h, eq_iff n.message_hash h')
nodes_agree h h' (n ∷ n' ∷ nodes) a r r' =
    all_same n.message_hash h (n ∷ n' ∷ nodes) (ground arith) r
    ∙ sym (all_same n.message_hash h' (n ∷ n' ∷ nodes) (ground arith) r')

matrix_agrees :
    (m : StorageMatrix) (id h h' : String)
    → nodes_agree_on_storage_matrix m ≡ true
    → reports h (nodes_of m id) ≡ true
    → reports h' (nodes_of m id) ≡ true
    → h ≡ h'
unfolding nodes_agree_on_storage_matrix JsMap.get
matrix_agrees [] id h h' a r r' = cc
matrix_agrees ((j, nodes) ∷ m) id h h' a r r' =
    ground (arith, nodes_agree h h' nodes, matrix_agrees m id h h')

-- If the nodes agree, no two responses report different hashes for one message.
pub nodes_agree_sound :
    (rs : List (SystemMessageValue QueryResponse)) (id h h' : String)
    → nodes_agree_on_storage_matrix (convert_to_storage_matrix rs) ≡ true
    → reports h (all_say id rs) ≡ true
    → reports h' (all_say id rs) ≡ true
    → h ≡ h'
nodes_agree_sound rs id h h' a r r' =
    let e = ap (reports h) (nodes_of-convert_to_storage_matrix rs id) in
    let e' = ap (reports h') (nodes_of-convert_to_storage_matrix rs id) in
    matrix_agrees (convert_to_storage_matrix rs) id h h' a (e ∙ r) (e' ∙ r')

-- a hash that differs from the first
different_hash :
    (first : String) (nodes : List NodeHash)
    → any (λ n. not (str_eq n.message_hash first)) nodes ≡ true
    → (h : String) × (reports h nodes ≡ true) × (h ≢ first)
different_hash first [] a = cc
different_hash first (n ∷ nodes) a = elim (Bool-cases (str_eq n.message_hash first)) [
  | inl same ↦ let (h, r, d) = different_hash first nodes (ground arith) in (h, ground arith, d)
  | inr other ↦ (
    n.message_hash,
    ground (arith, eq_refl n.message_hash),
    λ e. ground (arith, eq_iff n.message_hash first),
  )
]

pub record Disagree (m : StorageMatrix) : Type 0 where
  pub id : String
  pub hash : String
  pub other : String
  pub reported : reports hash (nodes_of m id) ≡ true
  pub other_reported : reports other (nodes_of m id) ≡ true
  pub differ : hash ≢ other

nodes_disagree :
    (nodes : List NodeHash)
    → contains_different_hash nodes ≡ true
    → (h h' : String) × (reports h nodes ≡ true) × (reports h' nodes ≡ true) × (h ≢ h')
unfolding contains_different_hash
nodes_disagree [] a = cc
nodes_disagree (n ∷ nodes) a =
    let (h, r, d) = different_hash n.message_hash (n ∷ nodes) a in
    (h, n.message_hash, r, ground (arith, eq_refl n.message_hash), d)

Disagree-later :
    (j : String) (nodes : List NodeHash) (m : StorageMatrix)
    → JsMap.has m j ≡ false
    → Disagree m
    → Disagree ((j, nodes) ∷ m)
Disagree-later j nodes m h d = elim (Bool-cases (str_eq j d.id)) [
  | inl same ↦
      let gone : nodes_of m j ≡ [] = ap or_empty (JsMap.get_of_not_has m j h) in
      let moved : reports d.hash (nodes_of m j) ≡ true =
        rw (sym ((eq_iff j d.id).0 same)) at d.reported in
      absurd (false≢true (ap (reports d.hash) (sym gone) ∙ moved))
  | inr other ↦ record {
    id = d.id;
    hash = d.hash;
    other = d.other;
    reported = unfold JsMap.get in rw other d.reported;
    other_reported = unfold JsMap.get in rw other d.other_reported;
    differ = d.differ;
  }
]

Disagree-here :
    (j : String) (nodes : List NodeHash) (m : StorageMatrix)
    → contains_different_hash nodes ≡ true
    → Disagree ((j, nodes) ∷ m)
unfolding JsMap.get
Disagree-here j nodes m a =
    let (h, h', r, r', d) = nodes_disagree nodes a in
    record {
      id = j;
      hash = h;
      other = h';
      reported = rw (eq_refl j) r;
      other_reported = rw (eq_refl j) r';
      differ = d;
    }

matrix_disagrees :
    (m : StorageMatrix) → HasDistinctIds m → nodes_agree_on_storage_matrix m ≡ false → Disagree m
unfolding nodes_agree_on_storage_matrix
matrix_disagrees [] d a = cc
matrix_disagrees ((j, nodes) ∷ m) (e, d) a = elim (Bool-cases (contains_different_hash nodes)) [
  | inl differ ↦ Disagree-here j nodes m differ
  | inr same ↦ Disagree-later j nodes m e (matrix_disagrees m d (ground arith))
]

-- If the nodes do not agree, two responses report different hashes for one message.
pub nodes_agree_complete :
    (rs : List (SystemMessageValue QueryResponse))
    → nodes_agree_on_storage_matrix (convert_to_storage_matrix rs) ≡ false
    → (id h h' : String) × (reports h (all_say id rs) ≡ true)
      × (reports h' (all_say id rs) ≡ true)
      × (h ≢ h')
nodes_agree_complete rs a =
    let d =
      matrix_disagrees (convert_to_storage_matrix rs) (add_responses-HasDistinctIds [] rs tt) a in
    let e = nodes_of-convert_to_storage_matrix rs d.id in
    (
      d.id,
      d.hash,
      d.other,
      ap (reports d.hash) (sym e) ∙ d.reported,
      ap (reports d.other) (sym e) ∙ d.other_reported,
      d.differ,
    )
