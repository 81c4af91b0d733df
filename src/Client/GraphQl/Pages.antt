-- ===== src/Client/GraphQl/Pages.antt =====
-- packages/client/src/utils/GraphQLClient.ts: all pages together are what the server has.
use mathlib.Core.Path.{subst}
use logstore_archive.Base.{
  ℕ, zero, suc, ◌==◌, ◌<◌, String, ◌≡◌, ◌≢◌, refl, sym, ap, ◌∙◌, some, List, [], ◌∷◌, ◌++◌, length,
  length-append, true, false, Bool-cases, inl, inr, arith,
}
use logstore_archive.Base.Result.{Result, ok}
use logstore_archive.Client.GraphQl.{
  End, complete, last_item, fetch_from, turn, fetch_paginated_results,
}

-- The first n of a list, which is what a server gives that is asked for n.
unfoldable pub take : {T : Type 0} → ℕ → List T → List T
take zero xs = []
take (suc n) [] = []
take (suc n) (x ∷ xs) = x ∷ take n xs

==-true : (a b : ℕ) → (a == b) ≡ true → a ≡ b
==-true a b h = ground (arith, h)

==-false : (a b : ℕ) → (a == b) ≡ false → a ≢ b
==-false a b h = ground (arith, h)

module _ {T : Type 0} where
  last_item-append : (xs : List T) (x : T) → last_item (xs ++ x ∷ []) ≡ some x
  last_item-append [] x = refl
  last_item-append (y ∷ []) x = refl
  last_item-append (y ∷ z ∷ zs) x = last_item-append (z ∷ zs) x

  append_assoc : (xs ys zs : List T) → (xs ++ ys) ++ zs ≡ xs ++ (ys ++ zs)
  append_assoc [] ys zs = refl
  append_assoc (x ∷ xs) ys zs = ap (λ l. x ∷ l) (append_assoc xs ys zs)

  take-short : (n : ℕ) (l : List T) → length (take n l) ≢ n → take n l ≡ l
  unfolding take
  take-short zero l h = absurd (h refl)
  take-short (suc n) [] h = refl
  take-short (suc n) (x ∷ l) h = ap (λ k. x ∷ k) (take-short n l (λ e. h (omega (arith, e))))

  -- A full page ends with an item, and what the list has after it is left.
  take-full :
      (n : ℕ) (l : List T)
      → length (take (suc n) l) ≡ suc n
      → (init : List T) × (x : T) × (tail : List T) × (l ≡ init ++ x ∷ tail)
        × (take (suc n) l ≡ init ++ x ∷ [])
  unfolding take
  take-full n [] h = absurd (omega (arith, h))
  take-full zero (x ∷ l) h = ([], x, l, refl, refl)
  take-full (suc n) (y ∷ l) h =
      let (init, x, tail, e, t) = take-full n l (omega (arith, h)) in
      (y ∷ init, x, tail, ap (λ k. y ∷ k) e, ap (λ k. y ∷ k) t)

module _ {T X : Type 0} (id_of : T → String) (fetch_page : String → ℕ → Result X (List T)) (n : ℕ)
    (all : List T) (after : String → List T)
    (served : (last_id : String) → fetch_page last_id (suc n) ≡ ok (take (suc n) (after last_id)))
    (in_order : (before : List T) (x : T) (rest : List T)
      → all ≡ before ++ x ∷ rest
      → after (id_of x) ≡ rest) where
  turn-full :
      (next : String → List T × End X) (items init : List T) (x : T)
      → (length items == suc n) ≡ true
      → items ≡ init ++ x ∷ []
      → turn id_of fetch_page (suc n) next (ok items)
        ≡ (items ++ (next (id_of x)).0, (next (id_of x)).1)
  turn-full next items init x h e =
      let ends : last_item items ≡ some x =
        subst (λ l. last_item l ≡ some x) (sym e) (last_item-append init x) in
      rw (h, ends) refl

  turn-short :
      (next : String → List T × End X) (items : List T)
      → (length items == suc n) ≡ false
      → turn id_of fetch_page (suc n) next (ok items) ≡ (items, complete)
  turn-short next items h = rw h refl

  fetch_from-rest :
      (fuel : ℕ) (last_id : String) (before rest : List T)
      → all ≡ before ++ rest
      → after last_id ≡ rest
      → length rest < fuel
      → fetch_from id_of fetch_page (suc n) fuel last_id ≡ (rest, complete)
  unfolding fetch_from
  fetch_from-rest zero last_id before rest whole left enough = absurd (omega (arith, enough))
  fetch_from-rest (suc fuel) last_id before rest whole left enough =
      let page : fetch_page last_id (suc n) ≡ ok (take (suc n) rest) =
        served last_id ∙ ap (λ l. ok (take (suc n) l)) left in
      let next : String → List T × End X = fetch_from id_of fetch_page (suc n) fuel in
      ap (turn id_of fetch_page (suc n) next) page
      ∙ (elim (Bool-cases (length (take (suc n) rest) == suc n)) [
        | inl full ↦
            let (init, x, tail, e, t) = take-full n rest (==-true _ _ full) in
            let whole_after : all ≡ (before ++ init) ++ x ∷ tail =
              whole ∙ ap (λ l. before ++ l) e ∙ sym (append_assoc before init (x ∷ tail)) in
            let later : next (id_of x) ≡ (tail, complete) =
              fetch_from-rest fuel (id_of x) ((before ++ init) ++ x ∷ []) tail
                (whole_after ∙ sym (append_assoc (before ++ init) (x ∷ []) tail))
                (in_order (before ++ init) x tail whole_after)
                (omega (arith, enough, ap length e, length-append init (x ∷ tail))) in
            let together : take (suc n) rest ++ tail ≡ rest =
              ap (λ l. l ++ tail) t ∙ append_assoc init (x ∷ []) tail ∙ sym e in
            turn-full next (take (suc n) rest) init x full t
            ∙ ap (λ r. (take (suc n) rest ++ r.0, r.1)) later
            ∙ ap (λ l. (l, complete)) together
        | inr short ↦
            turn-short next (take (suc n) rest) short
            ∙ ap (λ l. (l, complete)) (take-short (suc n) rest (==-false _ _ short))
      ])

  -- If the server has its items in the order of their ids and gives of those after an id as many as it
  -- is asked for, at least one, then all pages together are all items, each once and in their order, and
  -- one request more than there are items is enough.
  pub fetch_paginated_results-all :
      (fuel : ℕ)
      → after "" ≡ all
      → length all < fuel
      → fetch_paginated_results id_of fetch_page (suc n) fuel ≡ (all, complete)
  fetch_paginated_results-all fuel start enough = fetch_from-rest fuel "" [] all refl start enough
