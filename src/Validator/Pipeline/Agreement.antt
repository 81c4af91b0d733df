-- ===== src/Validator/Pipeline/Agreement.antt =====
-- A validator that has kept stores of earlier keys, and one that starts with a key.
use mathlib.Core.List.{Perm}
use mathlib.Core.List.Perm
use logstore_archive.Base.{ℕ, ◌≤◌, ◌<◌, ◌==◌, false, String, ◌≡◌, refl, List, map, arith}
use logstore_archive.Base.Result.{Result, ok}
use logstore_archive.Base.Sort.{Collation, AreOneForm}
use logstore_archive.Validator.RollingConfig.{Switches}
use logstore_archive.Validator.Item.{Calls, id_of, pushed, collect, load}
use logstore_archive.Validator.Item.Agreement.{generate_agrees}
use logstore_archive.Validator.Managers.Stores.{StoreEvent, StoreManager, stake_all, get_stores}
use logstore_archive.Validator.Managers.Stores.Ranges.{
  IsCommuting, IsQuery, IsBacked, get_stores-get_stores,
}
use logstore_archive.Validator.Pipeline.{item_of}

module _ {Content BigNumber E : Type 0} (sw : Switches) (L : Collation String) (render : ℕ → String)
    (add sub : BigNumber → BigNumber → BigNumber)
    (updated stored : ℕ → ℕ → List (StoreEvent BigNumber)) (find : ℕ → Result E ℕ) where
  -- Two validators make the same item of a key that is not 0: one whose store manager has read the stores up to
  -- the block of an earlier key, and one that reads all of them now, if the client gives both the
  -- same messages of each stream, in any order. The events of a range are those of its two parts,
  -- a fee is only taken from a stream that was staked when it is read, and no two different
  -- messages have the same place in the order of ids.
  pub item_of-get_stores :
      (calls other : String → ℕ → ℕ → Calls Content) (st : StoreManager BigNumber)
      (from earlier to key : ℕ)
      → IsSet Content
      → 0 < key
      → find key ≡ ok to
      → IsCommuting add sub
      → IsQuery add sub updated
      → IsQuery add sub stored
      → st.from_block_number ≤ from
      → from ≤ earlier
      → earlier ≤ to
      → IsBacked add sub (stake_all add sub st.stores (updated from earlier)) (stored from earlier)
      → ((id : String) (a b : ℕ)
          → Perm (pushed sw L render (calls id a b)) (pushed sw L render (other id a b)))
      → AreOneForm L (id_of sw L render) (
          collect sw L render calls key
            (map (λ s. s.id) ((get_stores add sub updated stored st from to).0)))
      → item_of sw L render add sub updated stored
          (ok from)
          find
          calls
          ((get_stores add sub updated stored st from earlier).1)
          key
        ≡ item_of sw L render add sub updated stored (ok from) find other st key
  unfolding item_of load
  item_of-get_stores calls other st from earlier to key set pos found comm u q start p r backed same
        one =
      let positive : (key == 0) ≡ false = ground arith in
      let caught_up =
        get_stores-get_stores add sub updated stored st from earlier from to comm u q start p
          (omega arith) r backed in
      let items =
        generate_agrees sw L render calls other key set
          (Perm.refl (map (λ s. s.id) ((get_stores add sub updated stored st from to).0))) same
          one in
      rw (positive, found, caught_up, items) refl
