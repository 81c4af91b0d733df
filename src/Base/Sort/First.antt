-- ===== src/Base/Sort/First.antt =====
-- What comes first after `sort`.
use mathlib.Core.Path.{◌≡◌}
use mathlib.Core.Logic.{inl, inr}
use mathlib.Core.Bool.{true}
use mathlib.Core.List.{List, [], ◌∷◌}
use native.Mathlib.Omega.{arith}
use logstore_archive.Base.Tests.{Bool-cases}
use logstore_archive.Base.Lists.{All}
use logstore_archive.Base.Sort.{Collation, insert, sort}

module _ {A : Type 0} {K : Type 0} (L : Collation K) (key : A → K) where
  abbrev IsLeast : A → List A → Type 0
  IsLeast i = All λ x. L.not_after (key i) (key x) ≡ true

  insert-All : (P : A → Type 0) (x : A) (l : List A) → P x → All P l → All P (insert L key x l)
  unfolding insert
  insert-All P x [] p h = (p, h)
  insert-All P x (y ∷ l) p (q, h) = elim (Bool-cases (L.not_after (key x) (key y))) [
    | inl before ↦ rw before (p, (q, h))
    | inr after ↦ rw after (q, insert-All P x l p h)
  ]

  pub sort-All : (P : A → Type 0) (l : List A) → All P l → All P (sort L key l)
  unfolding sort
  sort-All P [] h = h
  sort-All P (x ∷ l) (p, h) = insert-All P x (sort L key l) p (sort-All P l h)

  of_insert-All : (P : A → Type 0) (x : A) (l : List A) → All P (insert L key x l) → P x × All P l
  unfolding insert
  of_insert-All P x [] h = h
  of_insert-All P x (y ∷ l) h = elim (Bool-cases (L.not_after (key x) (key y))) [
    | inl before ↦ rw before at h
    | inr after ↦
        let k = rw after at h in let (p, more) = of_insert-All P x l (k.1) in (p, (k.0, more))
  ]

  of_sort-All : (P : A → Type 0) (l : List A) → All P (sort L key l) → All P l
  unfolding sort
  of_sort-All P [] h = h
  of_sort-All P (x ∷ l) h =
      let (p, more) = of_insert-All P x (sort L key l) h in (p, of_sort-All P l more)

  abbrev IsAscending : List A → Type 0
  IsAscending [] = Unit
  IsAscending (x ∷ l) = IsLeast x l × IsAscending l

  IsLeast-trans :
      (x y : A) (l : List A) → L.not_after (key x) (key y) ≡ true → IsLeast y l → IsLeast x l
  IsLeast-trans x y [] h k = tt
  IsLeast-trans x y (z ∷ l) h (here, more) =
      (L.transitive (key x) (key y) (key z) h here, IsLeast-trans x y l h more)

  insert-IsAscending : (x : A) (l : List A) → IsAscending l → IsAscending (insert L key x l)
  unfolding insert
  insert-IsAscending x [] h = (tt, tt)
  insert-IsAscending x (y ∷ l) (least, more) = elim (Bool-cases (L.not_after (key x) (key y))) [
    | inl before ↦ rw before ((before, IsLeast-trans x y l before least), (least, more))
    | inr after ↦
        let y_first : L.not_after (key y) (key x) ≡ true =
          ground (arith, L.total (key x) (key y)) in
        rw after (
          insert-All (λ z. L.not_after (key y) (key z) ≡ true) x l y_first least,
          insert-IsAscending x l more,
        )
  ]

  sort-IsAscending : (l : List A) → IsAscending (sort L key l)
  unfolding sort
  sort-IsAscending [] = tt
  sort-IsAscending (x ∷ l) = insert-IsAscending x (sort L key l) (sort-IsAscending l)

  pub first-IsLeast : (l : List A) (i : A) (rest : List A) → sort L key l ≡ i ∷ rest → IsLeast i l
  first-IsLeast l i rest e =
      let ascending : IsAscending (i ∷ rest) = rw e at (sort-IsAscending l) in
      let self : L.not_after (key i) (key i) ≡ true = ground (arith, L.total (key i) (key i)) in
      of_sort-All (λ z. L.not_after (key i) (key z) ≡ true) l (rw e (self, ascending.0))
