-- ===== src/Tests/ListDb.antt =====
-- A database as an association list, which meets the laws that the code relies on.
use logstore_archive.Base.{
  inl, inr, ℕ, ◌≤◌, ◌<◌, ◌≡◌, refl, Option, none, some, List, [], ◌∷◌, arith, ltb, ◌==◌,
  if◌then◌else◌, Option-cases,
}
use logstore_archive.Validator.TimeIndexer.{OrderedDb}

module _ {V : Type 0} where
  unfoldable pub list_get : List (ℕ × V) → ℕ → Option V
  list_get [] k = none
  list_get ((j, v) ∷ m) k = if j == k then some v else list_get m k

  unfoldable pub list_put : List (ℕ × V) → ℕ → V → List (ℕ × V)
  list_put [] k v = (k, v) ∷ []
  list_put ((j, w) ∷ m) k v = if j == k then (j, v) ∷ m else (j, w) ∷ list_put m k v

  abbrev nearer : ℕ → V → Option (ℕ × V) → Option (ℕ × V)
  nearer k v none = some (k, v)
  nearer k v (some (j, w)) = if ltb j k then some (j, w) else some (k, v)

  unfoldable pub list_first_from : List (ℕ × V) → ℕ → Option (ℕ × V)
  list_first_from [] start = none
  list_first_from ((k, v) ∷ m) start =
      let rest = list_first_from m start in if ltb k start then rest else nearer k v rest

  pub list_get_put :
      (m : List (ℕ × V)) (k j : ℕ) (v : V)
      → list_get (list_put m k v) j ≡ (if k == j then some v else list_get m j)
  unfolding list_get list_put
  list_get_put [] k j v = refl
  list_get_put ((i, w) ∷ m) k j v = ground (arith, list_get_put m k j v)

  pub list_first_from-none :
      (m : List (ℕ × V)) (start : ℕ)
      → list_first_from m start ≡ none
      → (i : ℕ) → start ≤ i
      → list_get m i ≡ none
  unfolding list_get list_first_from
  list_first_from-none [] start h i le = refl
  list_first_from-none ((k, v) ∷ m) start h i le = elim (Option-cases (list_first_from m start)) [
    | inl gone ↦ ground (arith, list_first_from-none m start gone i le)
    | inr ((j, w), here) ↦ ground arith
  ]

  pub list_first_from-some :
      (m : List (ℕ × V)) (start j : ℕ) (v : V)
      → list_first_from m start ≡ some (j, v)
      → (start ≤ j) × (list_get m j ≡ some v) × ((i : ℕ) → start ≤ i → i < j → list_get m i ≡ none)
  unfolding list_get list_first_from
  list_first_from-some [] start j v h = cc
  list_first_from-some ((k, w) ∷ m) start j v h = elim (Option-cases (list_first_from m start)) [
    | inl gone ↦ (
      ground arith,
      ground arith,
      λ i le lt. ground (arith, list_first_from-none m start gone i le),
    )
    | inr (item, here) ↦
        let (after, stored, least) = list_first_from-some m start item.0 item.1 here in
        (ground arith, ground arith, λ i le lt. ground (arith, least i le))
  ]

abbrev pub list_db : (V : Type 0) → OrderedDb V
list_db V = record {
  Db = List (ℕ × V);
  get = list_get;
  put = list_put;
  first_from = list_first_from;
  get_put = list_get_put;
  first_from_some = list_first_from-some;
  first_from_none = list_first_from-none;
}
