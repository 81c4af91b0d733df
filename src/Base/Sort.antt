-- ===== src/Base/Sort.antt =====
-- `Array.prototype.sort`, which is stable, by a comparison of keys, such as `localeCompare` of texts.
pub mod First
use mathlib.Core.List.{Mem, Perm, Permᴰ, mem-cons_self, mem-cons_of_mem, is_set}
use mathlib.Core.List.Perm
use mathlib.Core.Logic.{∥∥₁_elim, ◌⊎◌, inl, inr}
use mathlib.Core.Path.{◌≡◌, refl, ap₂, ◌∙◌}
use mathlib.Core.Bool.{Bool, true}
use mathlib.Core.List.{List, [], ◌∷◌}
use native.Mathlib.Omega.{arith}
use logstore_archive.Base.Tests.{if◌then◌else◌, Bool-cases}

-- An order of keys: `not_after a b` is, of texts, `a.localeCompare(b) <= 0`. Two keys may stand in
-- the same place.
pub record Collation (K : Type 0) : Type 0 where
  pub not_after : K → K → Bool
  pub total : (a b : K) → (not_after a b ≡ true) ⊎ (not_after b a ≡ true)
  pub transitive : (a b c : K) → not_after a b ≡ true → not_after b c ≡ true → not_after a c ≡ true

module _ {ℓ} {A : Type ℓ} {K : Type 0} (L : Collation K) (key : A → K) where
  unfoldable pub insert : A → List A → List A
  insert x [] = x ∷ []
  insert x (y ∷ ys) =
      let rest = insert x ys in if L.not_after (key x) (key y) then x ∷ y ∷ ys else y ∷ rest

  unfoldable pub sort : List A → List A
  sort [] = []
  sort (x ∷ xs) = insert x (sort xs)

  -- two entries of one place in the order are one
  abbrev IsOneForm : A → A → Type ℓ
  IsOneForm x y = L.not_after (key x) (key y) ≡ true → L.not_after (key y) (key x) ≡ true → x ≡ y

  insert-insert :
      (x y : A) (l : List A) → IsOneForm x y → insert x (insert y l) ≡ insert y (insert x l)
  unfolding insert
  insert-insert x y [] h = ground (arith, L.total (key x) (key y))
  insert-insert x y (z ∷ l) h = ground (
    arith,
    L.total (key x) (key y),
    L.transitive (key x) (key y) (key z),
    L.transitive (key y) (key x) (key z),
    insert-insert x y l h,
  )

  abbrev pub AreOneForm : List A → Type ℓ
  AreOneForm l = (x y : A) → Mem x l → Mem y l → IsOneForm x y

  sort-Permᴰ : {l r : List A} → Permᴰ l r → AreOneForm l → sort l ≡ sort r
  unfolding sort
  sort-Permᴰ Permᴰ.nil h = refl
  sort-Permᴰ (Permᴰ.cons {a = a} {b = b} e p) h =
      ap₂ insert e (sort-Permᴰ p λ x y m n. h x y (mem-cons_of_mem a m) (mem-cons_of_mem a n))
  sort-Permᴰ (Permᴰ.swap {a = a} {b = b} {l = l} e d) h =
      insert-insert a b (sort l) (h a b mem-cons_self (mem-cons_of_mem a mem-cons_self))
      ∙ ap₂ (λ x y. insert x (insert y (sort l))) d e
  sort-Permᴰ (Permᴰ.trans p q) h =
      sort-Permᴰ p h
      ∙ sort-Permᴰ q λ x y m n. h x y ((Perm.mem_iff ∣ p ∣₁).1 m) ((Perm.mem_iff ∣ p ∣₁).1 n)

  -- a list and its permutations are sorted alike
  pub sort_permuted : {l r : List A} → IsSet A → Perm l r → AreOneForm l → sort l ≡ sort r
  sort_permuted {l} {r} set p h = ∥∥₁_elim p (is_set set (sort l) (sort r)) (λ d. sort-Permᴰ d h)

  insert_perm : (x : A) (l : List A) → Perm (insert x l) (x ∷ l)
  unfolding insert
  insert_perm x [] = Perm.rfl
  insert_perm x (y ∷ ys) = elim (Bool-cases (L.not_after (key x) (key y))) [
    | inl before ↦ rw before Perm.rfl
    | inr after ↦ rw after (Perm.trans (Perm.cons y (insert_perm x ys)) (Perm.swap x y ys))
  ]

  pub sort_perm : (l : List A) → Perm (sort l) l
  unfolding sort
  sort_perm [] = Perm.rfl
  sort_perm (x ∷ xs) = Perm.trans (insert_perm x (sort xs)) (Perm.cons x (sort_perm xs))
