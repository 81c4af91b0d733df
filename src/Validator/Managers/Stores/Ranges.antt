-- ===== src/Validator/Managers/Stores/Ranges.antt =====
-- `getStores` in two calls for two ranges, against one call for both.
use logstore_archive.Base.{
  String, ℕ, ◌≤◌, ◌<◌, ◌+◌, ltb, str_eq, if◌then◌else◌, Bool, true, false, List, [], ◌∷◌, ◌++◌, ◌≡◌,
  refl, arith, eq_iff, any, All, ◌∙◌, Bool-cases, inl, inr, ap,
}
use logstore_archive.Validator.Managers.Stores.{
  Store, StoreEvent, StoreManager, stake, charge, stake_all, charge_all, get_stores,
}

module _ {BigNumber : Type 0} (add sub : BigNumber → BigNumber → BigNumber) where
  abbrev Stores : Type 0
  Stores = List (Store BigNumber)

  abbrev Events : Type 0
  Events = List (StoreEvent BigNumber)

  abbrev pub is_staked : Stores → String → Bool
  is_staked stores id = any (λ s. str_eq s.id id) stores

  -- a fee may be taken before or after another stake is added
  abbrev pub IsCommuting : Type 0
  IsCommuting = (a stake fee : BigNumber) → add (sub a fee) stake ≡ sub (add a stake) fee

  -- each fee of a range is one of a stream that an event of the range, or one before, staked
  abbrev pub IsBacked : Stores → Events → Type 0
  IsBacked stores = All λ e. is_staked stores e.store ≡ true

  is_staked-stake :
      (stores : Stores) (e : StoreEvent BigNumber) (id : String)
      → is_staked stores id ≡ true
      → is_staked (stake add sub stores e) id ≡ true
  unfolding stake
  is_staked-stake [] e id h = ground arith
  is_staked-stake (s ∷ stores) e id h =
      ground (arith, eq_iff s.id e.store, eq_iff s.id id, is_staked-stake stores e id)

  is_staked-charge :
      (stores : Stores) (e : StoreEvent BigNumber) (id : String)
      → is_staked (charge add sub stores e) id ≡ is_staked stores id
  unfolding charge
  is_staked-charge [] e id = refl
  is_staked-charge (s ∷ stores) e id =
      ground (arith, eq_iff s.id e.store, eq_iff s.id id, is_staked-charge stores e id)

  charge-stake :
      (stores : Stores) (e fee : StoreEvent BigNumber)
      → IsCommuting
      → is_staked stores fee.store ≡ true
      → charge add sub (stake add sub stores e) fee ≡ stake add sub (charge add sub stores fee) e
  unfolding charge stake
  charge-stake [] e fee comm h = absurd (ground arith)
  charge-stake (s ∷ stores) e fee comm h = elim (Bool-cases (str_eq s.id e.store)) [
    | inl p ↦ elim (Bool-cases (str_eq s.id fee.store)) [
      | inl q ↦ rw (p, q, comm s.amount e.amount fee.amount, p) refl
      | inr q ↦ rw (p, q, p) refl
    ]
    | inr p ↦ elim (Bool-cases (str_eq s.id fee.store)) [
      | inl q ↦ rw (p, q, p) refl
      | inr q ↦ rw (p, q, p) (ap (λ r. s ∷ r) (charge-stake stores e fee comm (rw q at h)))
    ]
  ]

  charge-stake_all :
      (es : Events) (stores : Stores) (fee : StoreEvent BigNumber)
      → IsCommuting
      → is_staked stores fee.store ≡ true
      → charge add sub (stake_all add sub stores es) fee
        ≡ stake_all add sub (charge add sub stores fee) es
  unfolding stake_all
  charge-stake_all [] stores fee comm h = refl
  charge-stake_all (e ∷ es) stores fee comm h =
      charge-stake_all es (stake add sub stores e) fee comm (is_staked-stake stores e fee.store h)
      ∙ ap (λ r. stake_all add sub r es) (charge-stake stores e fee comm h)

  charge-IsBacked :
      (fees : Events) (stores : Stores) (fee : StoreEvent BigNumber)
      → IsBacked stores fees
      → IsBacked (charge add sub stores fee) fees
  charge-IsBacked [] stores fee h = h
  charge-IsBacked (e ∷ fees) stores fee (here, more) =
      (is_staked-charge stores fee e.store ∙ here, charge-IsBacked fees stores fee more)

  charge_all-stake_all :
      (fees es : Events) (stores : Stores)
      → IsCommuting
      → IsBacked stores fees
      → charge_all add sub (stake_all add sub stores es) fees
        ≡ stake_all add sub (charge_all add sub stores fees) es
  unfolding charge_all
  charge_all-stake_all [] es stores comm h = refl
  charge_all-stake_all (fee ∷ fees) es stores comm (here, more) =
      rw (charge-stake_all es stores fee comm here) (
        charge_all-stake_all fees es (charge add sub stores fee) comm
          (charge-IsBacked fees stores fee more))

  stake_all-append :
      (es more : Events) (stores : Stores)
      → stake_all add sub stores (es ++ more) ≡ stake_all add sub (stake_all add sub stores es) more
  unfolding stake_all
  stake_all-append [] more stores = refl
  stake_all-append (e ∷ es) more stores = stake_all-append es more (stake add sub stores e)

  charge_all-append :
      (es more : Events) (stores : Stores)
      → charge_all add sub stores (es ++ more)
        ≡ charge_all add sub (charge_all add sub stores es) more
  unfolding charge_all
  charge_all-append [] more stores = refl
  charge_all-append (e ∷ es) more stores = charge_all-append es more (charge add sub stores e)

  -- the events of a range are those up to a block of it, and then those after that block
  abbrev pub IsQuery : (ℕ → ℕ → Events) → Type 0
  IsQuery query = (a b c : ℕ) → a ≤ b → b ≤ c → query a c ≡ query a b ++ query (b + 1) c

  module _ (updated stored : ℕ → ℕ → Events) where
    -- the stores after a range, from those before it
    abbrev pub account : Stores → ℕ → ℕ → Stores
    account stores a b = charge_all add sub (stake_all add sub stores (updated a b)) (stored a b)

    account_split :
        (stores : Stores) (a b c : ℕ)
        → IsCommuting
        → IsQuery updated
        → IsQuery stored
        → IsBacked (stake_all add sub stores (updated a b)) (stored a b)
        → a ≤ b
        → b ≤ c
        → account (account stores a b) (b + 1) c ≡ account stores a c
    account_split stores a b c comm u q backed p r =
        let first = stake_all add sub stores (updated a b) in
        let swap = charge_all-stake_all (stored a b) (updated (b + 1) c) first comm backed in
        rw
          (
            u a b c p r,
            q a b c p r,
            stake_all-append (updated a b) (updated (b + 1) c) stores,
            charge_all-append (stored a b) (stored (b + 1) c)
                (stake_all add sub first (updated (b + 1) c)),
            swap,
          )
          refl

    get_stores_open :
        (st : StoreManager BigNumber) (from to start : ℕ)
        → (if ltb st.from_block_number from then from else st.from_block_number) ≡ start
        → start ≤ to
        → get_stores add sub updated stored st from to ≡ (
          account st.stores start to,
          record { from_block_number = to + 1; stores = account st.stores start to },
        )
    unfolding get_stores
    get_stores_open st from to start p q =
        let open_range : ltb to start ≡ false = ground arith in rw (p, open_range) refl

    get_stores_read :
        (st : StoreManager BigNumber) (from to : ℕ)
        → from ≤ st.from_block_number
        → to < st.from_block_number
        → get_stores add sub updated stored st from to ≡ (st.stores, st)
    unfolding get_stores
    get_stores_read st from to p q =
        let start : (if ltb st.from_block_number from then from else st.from_block_number)
            ≡ st.from_block_number =
          ground arith in
        let closed : ltb to st.from_block_number ≡ true = ground arith in rw (start, closed) refl

    -- `getStores` up to a block and then up to a later one, or the same, gives the stores, and
    -- leaves the state, of one call up to the later: whatever block the second call starts from, if
    -- not after the one that follows the first call's. A fee may only be taken from a stream that was staked
    -- when the first call read it.
    pub get_stores-get_stores :
        (st : StoreManager BigNumber) (from middle again to : ℕ)
        → IsCommuting
        → IsQuery updated
        → IsQuery stored
        → st.from_block_number ≤ from
        → from ≤ middle
        → again ≤ middle + 1
        → middle ≤ to
        → IsBacked (stake_all add sub st.stores (updated from middle)) (stored from middle)
        → get_stores add sub updated stored
            ((get_stores add sub updated stored st from middle).1)
            again
            to
          ≡ get_stores add sub updated stored st from to
    get_stores-get_stores st from middle again to comm u q start p a r backed =
        let first = get_stores_open st from middle from (ground arith) p in
        let state : StoreManager BigNumber = record {
          from_block_number = middle + 1;
          stores = account st.stores from middle;
        } in
        let once = get_stores_open st from to from (ground arith) (omega arith) in
        elim (Bool-cases (ltb to (middle + 1))) [
          | inl same ↦
              let e : to ≡ middle = ground arith in
              rw (first, e, first) (get_stores_read state again middle a (omega arith))
          | inr later ↦
              let second =
                get_stores_open state again to (middle + 1) (ground arith) (ground arith) in
              let split = account_split st.stores from middle to comm u q backed p r in
              rw (first, second, once, split) refl
        ]
