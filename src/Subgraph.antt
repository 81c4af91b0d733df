-- ===== src/Subgraph.antt =====
-- packages/subgraph/src/log-store-manager.ts: the entities that the events of the store manager's
-- contract are kept as.
pub mod Kept
use logstore_archive.Base.{ℕ, String, str_eq, Bool, List, [], ◌∷◌, if◌then◌else◌}
use logstore_archive.Base.JsMap
use logstore_archive.Base.JsMap.{JsMap}

-- A value of an entity: an address or another text, a number, or a truth value.
pub data Value : Type 0 where
  text : String → Value
  number : ℕ → Value
  truth : Bool → Value

-- The events, with the parameters of each.
pub record AdminChanged : Type 0 where
  pub previous_admin : String
  pub new_admin : String

pub record BeaconUpgraded : Type 0 where
  pub beacon : String

pub record CaptureOverflow : Type 0 where
  pub store : String
  pub stake : ℕ
  pub capture : ℕ
  pub overflow : ℕ

pub record DataStored : Type 0 where
  pub store : String
  pub fees : ℕ
  pub bytes_stored : ℕ

pub record Initialized : Type 0 where
  pub version : ℕ

pub record OwnershipTransferred : Type 0 where
  pub previous_owner : String
  pub new_owner : String

pub record StoreUpdated : Type 0 where
  pub store : String
  pub is_new : Bool
  pub amount : ℕ

pub record SupplyOverflow : Type 0 where
  pub supply : ℕ
  pub capture : ℕ
  pub overflow : ℕ

pub record Upgraded : Type 0 where
  pub implementation : String

-- `event.params`
pub data Params : Type 0 where
  admin_changed : AdminChanged → Params
  beacon_upgraded : BeaconUpgraded → Params
  capture_overflow : CaptureOverflow → Params
  data_stored : DataStored → Params
  initialized : Initialized → Params
  ownership_transferred : OwnershipTransferred → Params
  store_updated : StoreUpdated → Params
  supply_overflow : SupplyOverflow → Params
  upgraded : Upgraded → Params

-- An event of the chain. A hash of a transaction has 32 bytes, and the type of the hashes is
-- left open.
pub record ChainEvent (Hash : Type 0) : Type 0 where
  pub params : Params
  pub transaction_hash : Hash
  pub log_index : ℕ
  pub block_number : ℕ
  pub block_timestamp : ℕ

-- An entity beside its id: the fields of its kind, by their names, and those that every kind has.
pub record Entity (Hash : Type 0) : Type 0 where
  pub fields : JsMap Value
  pub block_number : ℕ
  pub block_timestamp : ℕ
  pub transaction_hash : Hash

-- The store of The Graph: by the name of an entity, and by its id.
abbrev pub Store : Type 0 → Type 0
Store Hash = String → JsMap (Entity Hash)

module _ {Hash : Type 0} where
  -- `entity.save()`
  unfoldable pub save : Store Hash → String → String → Entity Hash → Store Hash
  save st kind id e other =
      let table = st other in if str_eq kind other then JsMap.set table id e else table

  -- `concat_i32` is `hash.concatI32(index.toI32())`, of a hash and an index below 2 ^ 31.
  module _ (concat_i32 : Hash → ℕ → String) where
    abbrev pub id_of : ChainEvent Hash → String
    id_of e = concat_i32 e.transaction_hash e.log_index

    -- `new` of an entity with the id of the event, its assignments, and `save`
    abbrev keep_entity : Store Hash → ChainEvent Hash → String → JsMap Value → Store Hash
    keep_entity st e kind fields = save st kind (id_of e) (record {
      fields = fields;
      block_number = e.block_number;
      block_timestamp = e.block_timestamp;
      transaction_hash = e.transaction_hash;
    })

    abbrev pub handle_admin_changed : Store Hash → ChainEvent Hash → AdminChanged → Store Hash
    handle_admin_changed st e p =
        keep_entity st e "AdminChanged"
          (("previousAdmin", text p.previous_admin) ∷ ("newAdmin", text p.new_admin) ∷ [])

    abbrev pub handle_beacon_upgraded : Store Hash → ChainEvent Hash → BeaconUpgraded → Store Hash
    handle_beacon_upgraded st e p =
        keep_entity st e "BeaconUpgraded" (("beacon", text p.beacon) ∷ [])

    abbrev pub handle_capture_overflow : Store Hash → ChainEvent Hash → CaptureOverflow → Store Hash
    handle_capture_overflow st e p = keep_entity st e "CaptureOverflow" (
        ("store", text p.store)
        ∷ ("stake", number p.stake)
        ∷ ("capture", number p.capture)
        ∷ ("overflow", number p.overflow)
        ∷ [])

    abbrev pub handle_data_stored : Store Hash → ChainEvent Hash → DataStored → Store Hash
    handle_data_stored st e p = keep_entity st e "DataStored" (
        ("store", text p.store)
        ∷ ("fees", number p.fees)
        ∷ ("bytesStored", number p.bytes_stored)
        ∷ [])

    abbrev pub handle_initialized : Store Hash → ChainEvent Hash → Initialized → Store Hash
    handle_initialized st e p = keep_entity st e "Initialized" (("version", number p.version) ∷ [])

    abbrev pub handle_ownership_transferred :
        Store Hash → ChainEvent Hash → OwnershipTransferred → Store Hash
    handle_ownership_transferred st e p =
        keep_entity st e "OwnershipTransferred"
          (("previousOwner", text p.previous_owner) ∷ ("newOwner", text p.new_owner) ∷ [])

    abbrev pub handle_store_updated : Store Hash → ChainEvent Hash → StoreUpdated → Store Hash
    handle_store_updated st e p =
        keep_entity st e "StoreUpdated"
          (("store", text p.store) ∷ ("isNew", truth p.is_new) ∷ ("amount", number p.amount) ∷ [])

    abbrev pub handle_supply_overflow : Store Hash → ChainEvent Hash → SupplyOverflow → Store Hash
    handle_supply_overflow st e p = keep_entity st e "SupplyOverflow" (
        ("supply", number p.supply)
        ∷ ("capture", number p.capture)
        ∷ ("overflow", number p.overflow)
        ∷ [])

    abbrev pub handle_upgraded : Store Hash → ChainEvent Hash → Upgraded → Store Hash
    handle_upgraded st e p =
        keep_entity st e "Upgraded" (("implementation", text p.implementation) ∷ [])

    -- the handler of an event
    abbrev handle_params : Store Hash → ChainEvent Hash → Params → Store Hash
    handle_params st e (admin_changed p) = handle_admin_changed st e p
    handle_params st e (beacon_upgraded p) = handle_beacon_upgraded st e p
    handle_params st e (capture_overflow p) = handle_capture_overflow st e p
    handle_params st e (data_stored p) = handle_data_stored st e p
    handle_params st e (initialized p) = handle_initialized st e p
    handle_params st e (ownership_transferred p) = handle_ownership_transferred st e p
    handle_params st e (store_updated p) = handle_store_updated st e p
    handle_params st e (supply_overflow p) = handle_supply_overflow st e p
    handle_params st e (upgraded p) = handle_upgraded st e p

    unfoldable pub handle : Store Hash → ChainEvent Hash → Store Hash
    handle st e = handle_params st e e.params

    unfoldable pub handle_all : Store Hash → List (ChainEvent Hash) → Store Hash
    handle_all st [] = st
    handle_all st (e ∷ es) = handle_all (handle st e) es
