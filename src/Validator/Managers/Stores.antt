-- ===== src/Validator/Managers/Stores.antt =====
-- packages/validator/src/managers/StoreManager.ts: what each stream has been staked, and the fees
-- taken from that, read from the contract's events block range by block range.
use logstore_archive.Base.{String, ℕ, ◌+◌, ltb, str_eq, if◌then◌else◌, List, [], ◌∷◌}
pub mod Ledger
pub mod Ranges

-- `BigNumber` is that of ethers.
pub record Store (BigNumber : Type 0) : Type 0 where
  pub id : String
  pub amount : BigNumber

-- `e.args` of a `StoreUpdated` event, and of a `DataStored` event (`fees` is `amount`)
pub record StoreEvent (BigNumber : Type 0) : Type 0 where
  pub store : String
  pub amount : BigNumber

pub record StoreManager (BigNumber : Type 0) : Type 0 where
  pub from_block_number : ℕ
  pub stores : List (Store BigNumber)

abbrev pub new_manager : {BigNumber : Type 0} → StoreManager BigNumber
new_manager = record { from_block_number = 0; stores = [] }

-- `add` and `sub` of `BigNumber`
module _ {BigNumber : Type 0} (add sub : BigNumber → BigNumber → BigNumber) where
  unfoldable pub stake : List (Store BigNumber) → StoreEvent BigNumber → List (Store BigNumber)
  stake [] e = record { id = e.store; amount = e.amount } ∷ []
  stake (s ∷ stores) e =
      let rest = stake stores e in
      if str_eq s.id e.store then record s { amount = add s.amount e.amount } ∷ stores else s ∷ rest

  unfoldable pub charge : List (Store BigNumber) → StoreEvent BigNumber → List (Store BigNumber)
  charge [] e = []
  charge (s ∷ stores) e =
      let rest = charge stores e in
      if str_eq s.id e.store then record s { amount = sub s.amount e.amount } ∷ stores else s ∷ rest

  unfoldable pub stake_all :
      List (Store BigNumber) → List (StoreEvent BigNumber) → List (Store BigNumber)
  stake_all stores [] = stores
  stake_all stores (e ∷ es) = stake_all (stake stores e) es

  unfoldable pub charge_all :
      List (Store BigNumber) → List (StoreEvent BigNumber) → List (Store BigNumber)
  charge_all stores [] = stores
  charge_all stores (e ∷ es) = charge_all (charge stores e) es

  -- `updated` and `stored` are `contract.queryFilter` for the two events, from a block to a block.
  module _ (updated stored : ℕ → ℕ → List (StoreEvent BigNumber)) where
    unfoldable pub get_stores :
        StoreManager BigNumber → ℕ → ℕ → List (Store BigNumber) × StoreManager BigNumber
    get_stores st from to =
        let start = if ltb st.from_block_number from then from else st.from_block_number in
        let stores = charge_all (stake_all st.stores (updated start to)) (stored start to) in
        if ltb to start
        then (st.stores, record st { from_block_number = start })
        else (stores, record { from_block_number = to + 1; stores = stores })
