-- ===== src/Validator/Managers/Stores/Ledger.antt =====
-- `getStores` against the totals of each stream.
use logstore_archive.Base.{
  String, ℕ, ◌≤◌, ltb, str_eq, if◌then◌else◌, false, List, [], ◌∷◌, Option, none, some, ◌≡◌, refl,
  arith, eq_iff, sym, Bool-cases, inl, inr,
}
use logstore_archive.Validator.Managers.Stores.{
  Store, StoreEvent, new_manager, stake, charge, stake_all, charge_all, get_stores,
}

module _ {BigNumber : Type 0} (add sub : BigNumber → BigNumber → BigNumber) where
  abbrev Stores : Type 0
  Stores = List (Store BigNumber)

  abbrev Events : Type 0
  Events = List (StoreEvent BigNumber)

  abbrev pub amount_of : Stores → String → Option BigNumber
  amount_of [] id = none
  amount_of (s ∷ stores) id = if str_eq s.id id then some s.amount else amount_of stores id

  -- the amounts of the events of one stream
  abbrev pub amounts_for : String → Events → List BigNumber
  amounts_for id [] = []
  amounts_for id (e ∷ es) =
      let rest = amounts_for id es in if str_eq e.store id then e.amount ∷ rest else rest

  abbrev pub plus_all : BigNumber → List BigNumber → BigNumber
  plus_all a [] = a
  plus_all a (x ∷ xs) = plus_all (add a x) xs

  abbrev pub minus_all : BigNumber → List BigNumber → BigNumber
  minus_all a [] = a
  minus_all a (x ∷ xs) = minus_all (sub a x) xs

  -- on an amount that may not be there yet: nothing, or the first and the rest added
  abbrev pub added : Option BigNumber → List BigNumber → Option BigNumber
  added none [] = none
  added none (x ∷ xs) = some (plus_all x xs)
  added (some a) xs = some (plus_all a xs)

  abbrev pub taken : Option BigNumber → List BigNumber → Option BigNumber
  taken none xs = none
  taken (some a) xs = some (minus_all a xs)

  amount_of-stake :
      (stores : Stores) (e : StoreEvent BigNumber) (id : String)
      → amount_of (stake add sub stores e) id ≡ (
          if str_eq e.store id
          then added (amount_of stores id) (e.amount ∷ [])
          else amount_of stores id)
  unfolding stake
  amount_of-stake [] e id = ground arith
  amount_of-stake (s ∷ stores) e id =
      ground
        (arith, eq_iff s.id e.store, eq_iff s.id id, eq_iff e.store id, amount_of-stake stores e id)

  amount_of-charge :
      (stores : Stores) (e : StoreEvent BigNumber) (id : String)
      → amount_of (charge add sub stores e) id ≡ (
          if str_eq e.store id
          then taken (amount_of stores id) (e.amount ∷ [])
          else amount_of stores id)
  unfolding charge
  amount_of-charge [] e id = ground arith
  amount_of-charge (s ∷ stores) e id =
      ground (
        arith,
        eq_iff s.id e.store,
        eq_iff s.id id,
        eq_iff e.store id,
        amount_of-charge stores e id,
      )

  added_nothing : (o : Option BigNumber) → added o [] ≡ o
  added_nothing none = refl
  added_nothing (some a) = refl

  added_more :
      (o : Option BigNumber) (x : BigNumber) (xs : List BigNumber)
      → added (added o (x ∷ [])) xs ≡ added o (x ∷ xs)
  added_more none x xs = refl
  added_more (some a) x xs = refl

  taken_nothing : (o : Option BigNumber) → taken o [] ≡ o
  taken_nothing none = refl
  taken_nothing (some a) = refl

  taken_more :
      (o : Option BigNumber) (x : BigNumber) (xs : List BigNumber)
      → taken (taken o (x ∷ [])) xs ≡ taken o (x ∷ xs)
  taken_more none x xs = refl
  taken_more (some a) x xs = refl

  amount_of-stake_all :
      (es : Events) (stores : Stores) (id : String)
      → amount_of (stake_all add sub stores es) id ≡ added (amount_of stores id) (amounts_for id es)
  unfolding stake_all
  amount_of-stake_all [] stores id = sym (added_nothing (amount_of stores id))
  amount_of-stake_all (e ∷ es) stores id = elim (Bool-cases (str_eq e.store id)) [
    | inl its ↦
        rw (amount_of-stake_all es (stake add sub stores e) id, amount_of-stake stores e id, its)
          (added_more (amount_of stores id) e.amount (amounts_for id es))
    | inr other ↦
        rw (amount_of-stake_all es (stake add sub stores e) id, amount_of-stake stores e id, other)
          refl
  ]

  amount_of-charge_all :
      (es : Events) (stores : Stores) (id : String)
      → amount_of (charge_all add sub stores es) id
        ≡ taken (amount_of stores id) (amounts_for id es)
  unfolding charge_all
  amount_of-charge_all [] stores id = sym (taken_nothing (amount_of stores id))
  amount_of-charge_all (e ∷ es) stores id = elim (Bool-cases (str_eq e.store id)) [
    | inl its ↦
        rw (amount_of-charge_all es (charge add sub stores e) id, amount_of-charge stores e id, its)
          (taken_more (amount_of stores id) e.amount (amounts_for id es))
    | inr other ↦
        rw
          (
            amount_of-charge_all es (charge add sub stores e) id,
            amount_of-charge stores e id,
            other,
          )
          refl
  ]

  -- From a new manager, `getStores` up to a block not before the first gives of each stream: no
  -- entry if no event staked it; else its stakes added up in their order, less its fees one by one.
  pub get_stores-amount_of :
      (updated stored : ℕ → ℕ → Events) (from to : ℕ) (id : String)
      → from ≤ to
      → amount_of ((get_stores add sub updated stored new_manager from to).0) id
        ≡ taken (added none (amounts_for id (updated from to))) (amounts_for id (stored from to))
  unfolding get_stores
  get_stores-amount_of updated stored from to id le =
      let start : (if ltb 0 from then from else 0) ≡ from = ground arith in
      let open_range : ltb to from ≡ false = ground arith in
      rw
        (
          start,
          open_range,
          amount_of-charge_all (stored from to) (stake_all add sub [] (updated from to)) id,
          amount_of-stake_all (updated from to) [] id,
        )
        refl
