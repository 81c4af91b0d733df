-- ===== src/Validator/Pipeline.antt =====
-- packages/validator/src/core/item.ts and abstract.ts: the item of a key as the runtime makes it, from
-- the first block of the network, the time index, the store manager and the client.
pub mod Agreement
use logstore_archive.Base.{ℕ, String, List, map}
use logstore_archive.Base.Result.{Result, ok, ◌>>=◌}
use logstore_archive.Base.Sort.{Collation}
use logstore_archive.Validator.RollingConfig.{Switches}
use logstore_archive.Validator.Item.{ItemMessage, Calls, load, generate}
use logstore_archive.Validator.Managers.Stores.{StoreEvent, StoreManager, get_stores}

module _ {Content BigNumber E : Type 0} (sw : Switches) (L : Collation String) (render : ℕ → String)
    (add sub : BigNumber → BigNumber → BigNumber)
    (updated stored : ℕ → ℕ → List (StoreEvent BigNumber)) (start_block_number : Result E ℕ)
    (find : ℕ → Result E ℕ) where
  -- `prepare` with one source, and `generate`, from what the store manager has kept
  unfoldable pub item_of :
      (String → ℕ → ℕ → Calls Content)
      → StoreManager BigNumber
      → ℕ
      → Result E (List (ItemMessage Content))
  item_of calls st key =
      load key start_block_number find
        (λ from to. ok ((get_stores add sub updated stored st from to).0))
      >>= λ stores. ok (generate sw L render calls key (map (λ s. s.id) stores))
