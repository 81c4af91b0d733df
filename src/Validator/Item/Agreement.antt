-- ===== src/Validator/Item/Agreement.antt =====
-- When two validators produce the same item.
use mathlib.Core.List.{Perm, Perm-prop, Permᴰ, perm_middle}
use mathlib.Core.List.Perm
use mathlib.Core.Logic.{∥∥₁_elim}
use native.Mathlib.Nat.{ℕ_set}
use logstore_archive.Base.{
  ℕ, String_set, ◌*◌, ◌-◌, String, ◌≡◌, ◌+◌, suc, arith, refl, sym, ap, ap₂, ◌∙◌, ◌↔◌, All, length,
  length-append, List, [], ◌∷◌, ◌++◌,
}
use logstore_archive.Base.Sort.{Collation, insert, sort, sort_permuted, AreOneForm}
use logstore_archive.Validator.RollingConfig.{Switches, prev_step}
use logstore_archive.Validator.Item.{ItemMessage, Calls, id_of, push_all, pushed, collect, generate}

message_set : {Content : Type 0} → IsSet Content → IsSet (ItemMessage Content)
message_set set = hlevel (String_set, ℕ_set)

length-insert :
    {A K : Type 0} (L : Collation K) (key : A → K) (x : A) (l : List A)
    → length (insert L key x l) ≡ suc (length l)
unfolding insert
length-insert L key x [] = refl
length-insert L key x (y ∷ ys) = ground (arith, length-insert L key x ys)

length-sort :
    {A K : Type 0} (L : Collation K) (key : A → K) (l : List A) → length (sort L key l) ≡ length l
unfolding sort
length-sort L key [] = refl
length-sort L key (x ∷ xs) = length-insert L key x (sort L key xs) ∙ ap suc (length-sort L key xs)

empty_of_length : {A : Type 0} (l : List A) → length l ≡ 0 → l ≡ []
empty_of_length [] e = refl
empty_of_length (x ∷ xs) e = absurd (omega (arith, e))

module _ {Content : Type 0} (sw : Switches) (L : Collation String) (render : ℕ → String) where
  swap_perm : (a b c : List (ItemMessage Content)) → Perm (a ++ (b ++ c)) (b ++ (a ++ c))
  swap_perm [] b c = Perm.rfl
  swap_perm (x ∷ a) b c =
      Perm.trans (Perm.cons x (swap_perm a b c)) (Perm.symm (perm_middle b (a ++ c)))

  abbrev of_store : (String → ℕ → ℕ → Calls Content) → ℕ → String → List (ItemMessage Content)
  of_store calls key id =
      pushed sw L render (calls id ((key - prev_step sw key) * 1000) (key * 1000))

  collect-Permᴰ :
      (calls : String → ℕ → ℕ → Calls Content) (key : ℕ) {stores more : List String}
      → Permᴰ stores more
      → Perm (collect sw L render calls key stores) (collect sw L render calls key more)
  collect-Permᴰ calls key Permᴰ.nil = Perm.rfl
  collect-Permᴰ calls key (Permᴰ.cons e p) = rw e (Perm.append_left _ (collect-Permᴰ calls key p))
  collect-Permᴰ calls key (Permᴰ.swap {a = a} {b = b} {l = l} e d) =
      rw (sym e, sym d)
        (swap_perm (of_store calls key a) (of_store calls key b) (collect sw L render calls key l))
  collect-Permᴰ calls key (Permᴰ.trans p q) =
      Perm.trans (collect-Permᴰ calls key p) (collect-Permᴰ calls key q)

  collect_perm :
      (calls : String → ℕ → ℕ → Calls Content) (key : ℕ) {stores more : List String}
      → Perm stores more
      → Perm (collect sw L render calls key stores) (collect sw L render calls key more)
  collect_perm calls key p = ∥∥₁_elim p Perm-prop (λ d. collect-Permᴰ calls key d)

  collect_read :
      (calls other : String → ℕ → ℕ → Calls Content) (key : ℕ) (stores : List String)
      → ((id : String) (from to : ℕ)
          → Perm (pushed sw L render (calls id from to)) (pushed sw L render (other id from to)))
      → Perm (collect sw L render calls key stores) (collect sw L render other key stores)
  collect_read calls other key [] h = Perm.rfl
  collect_read calls other key (id ∷ stores) h =
      Perm.append (h id _ _) (collect_read calls other key stores h)

  -- Two validators that know the same stores, in any order, and are given the same messages of each,
  -- in any order, produce the same item of a key, if no two different messages of it have the
  -- same place in the order of ids.
  pub generate_agrees :
      (calls other : String → ℕ → ℕ → Calls Content) (key : ℕ) {stores more : List String}
      → IsSet Content
      → Perm stores more
      → ((id : String) (from to : ℕ)
          → Perm (pushed sw L render (calls id from to)) (pushed sw L render (other id from to)))
      → AreOneForm L (id_of sw L render) (collect sw L render calls key stores)
      → generate sw L render calls key stores ≡ generate sw L render other key more
  unfolding generate
  generate_agrees calls other key {stores} {more} set p h one =
      sort_permuted L (id_of sw L render) (message_set set)
        (Perm.trans (collect_perm calls key p) (collect_read calls other key more h)) one

  -- The calls, had none failed before the last one.
  abbrev pub unfailing : (String → ℕ → ℕ → Calls Content) → String → ℕ → ℕ → Calls Content
  unfailing calls id from to = record { failed = []; complete = (calls id from to).complete }

  -- what the failed calls for a store have pushed
  abbrev pub left_over : (String → ℕ → ℕ → Calls Content) → ℕ → String → List (ItemMessage Content)
  left_over calls key id =
      push_all sw L render (calls id ((key - prev_step sw key) * 1000) (key * 1000)).failed

  abbrev left_over_in : (String → ℕ → ℕ → Calls Content) → ℕ → List String → ℕ
  left_over_in calls key [] = 0
  left_over_in calls key (id ∷ stores) =
      length (left_over calls key id) + left_over_in calls key stores

  length-collect :
      (calls : String → ℕ → ℕ → Calls Content) (key : ℕ) (stores : List String)
      → length (collect sw L render calls key stores)
        ≡ length (collect sw L render (unfailing calls) key stores) + left_over_in calls key stores
  length-collect calls key [] = refl
  length-collect calls key (id ∷ stores) =
      let c = calls id ((key - prev_step sw key) * 1000) (key * 1000) in
      omega (
        arith,
        length-collect calls key stores,
        length-append (pushed sw L render c) (collect sw L render calls key stores),
        length-append (push_all sw L render c.failed) c.complete,
        length-append c.complete (collect sw L render (unfailing calls) key stores),
      )

  none_left_over :
      (calls : String → ℕ → ℕ → Calls Content) (key : ℕ) (stores : List String)
      → left_over_in calls key stores ≡ 0
      → All (λ id. left_over calls key id ≡ []) stores
  none_left_over calls key [] e = tt
  none_left_over calls key (id ∷ stores) e = (
    empty_of_length (left_over calls key id) (omega (arith, e)),
    none_left_over calls key stores (omega (arith, e)),
  )

  collect-unfailing :
      (calls : String → ℕ → ℕ → Calls Content) (key : ℕ) (stores : List String)
      → All (λ id. left_over calls key id ≡ []) stores
      → collect sw L render calls key stores ≡ collect sw L render (unfailing calls) key stores
  collect-unfailing calls key [] h = refl
  collect-unfailing calls key (id ∷ stores) (e, h) =
      ap₂ (λ a b. (a ++ (calls id ((key - prev_step sw key) * 1000) (key * 1000)).complete) ++ b) e
        (collect-unfailing calls key stores h)

  -- The item of a key is the one that is made when no call fails before the last one for its store, if
  -- and only if no failed call for any of the stores has pushed a message: otherwise what it pushed
  -- stays in the item.
  pub generate-unfailing_iff :
      (calls : String → ℕ → ℕ → Calls Content) (key : ℕ) (stores : List String)
      → (generate sw L render calls key stores ≡ generate sw L render (unfailing calls) key stores)
        ↔ All (λ id. left_over calls key id ≡ []) stores
  unfolding generate
  generate-unfailing_iff calls key stores = (
    λ e. none_left_over calls key stores (
        omega (
          arith,
          ap length e,
          length-sort L (id_of sw L render) (collect sw L render calls key stores),
          length-sort L (id_of sw L render) (collect sw L render (unfailing calls) key stores),
          length-collect calls key stores,
        )),
    λ h. ap (sort L (id_of sw L render)) (collect-unfailing calls key stores h),
  )
