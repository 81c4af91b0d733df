-- ===== src/Subgraph/Kept.antt =====
-- packages/subgraph/src/log-store-manager.ts: every event can be read back from its entity.
use logstore_archive.Base.{
  ℕ, ◌<◌, String, str_eq, ◌≡◌, ◌≢◌, refl, sym, ap, ◌∙◌, Bool, false, Option, none, some, List, [],
  ◌∷◌, All, eq_refl, eq_iff, Bool-cases, inl, inr, if◌then◌else◌,
}
use logstore_archive.Base.JsMap
use logstore_archive.Base.JsMap.{JsMap}
use logstore_archive.Subgraph.{
  Value, text, number, truth, Params, admin_changed, beacon_upgraded, capture_overflow, data_stored,
  initialized, ownership_transferred, store_updated, supply_overflow, upgraded, ChainEvent, Entity,
  Store, id_of, save, handle_params, handle, handle_all,
}

-- the entity of an event
abbrev pub kind_of : Params → String
kind_of (admin_changed p) = "AdminChanged"
kind_of (beacon_upgraded p) = "BeaconUpgraded"
kind_of (capture_overflow p) = "CaptureOverflow"
kind_of (data_stored p) = "DataStored"
kind_of (initialized p) = "Initialized"
kind_of (ownership_transferred p) = "OwnershipTransferred"
kind_of (store_updated p) = "StoreUpdated"
kind_of (supply_overflow p) = "SupplyOverflow"
kind_of (upgraded p) = "Upgraded"

abbrev as_text : Option Value → (String → Option Params) → Option Params
as_text (some (text s)) f = f s
as_text _ f = none

abbrev as_number : Option Value → (ℕ → Option Params) → Option Params
as_number (some (number n)) f = f n
as_number _ f = none

abbrev as_truth : Option Value → (Bool → Option Params) → Option Params
as_truth (some (truth b)) f = f b
as_truth _ f = none

-- A reader of the store: the event that the fields of an entity tell of, by the names of the schema.
unfoldable pub read_entity : String → JsMap Value → Option Params
unfolding JsMap.get
read_entity kind m =
    let at = JsMap.get m in
    if str_eq kind "AdminChanged"
    then as_text (at "previousAdmin") (λ p.
      as_text (at "newAdmin")
        (λ n. some (admin_changed (record { previous_admin = p; new_admin = n }))))
    else if str_eq kind "BeaconUpgraded"
    then as_text (at "beacon") (λ b. some (beacon_upgraded (record { beacon = b })))
    else if str_eq kind "CaptureOverflow"
    then as_text (at "store") (λ s. as_number (at "stake") (λ t. as_number (at "capture") (λ c.
      as_number (at "overflow") (λ o.
        some (capture_overflow (record { store = s; stake = t; capture = c; overflow = o }))))))
    else if str_eq kind "DataStored"
    then as_text (at "store") (λ s. as_number (at "fees") (λ f.
      as_number (at "bytesStored")
        (λ b. some (data_stored (record { store = s; fees = f; bytes_stored = b })))))
    else if str_eq kind "Initialized"
    then as_number (at "version") (λ v. some (initialized (record { version = v })))
    else if str_eq kind "OwnershipTransferred"
    then as_text (at "previousOwner") (λ p.
      as_text (at "newOwner")
        (λ n. some (ownership_transferred (record { previous_owner = p; new_owner = n }))))
    else if str_eq kind "StoreUpdated"
    then as_text (at "store") (λ s. as_truth (at "isNew") (λ n.
      as_number (at "amount")
        (λ a. some (store_updated (record { store = s; is_new = n; amount = a })))))
    else if str_eq kind "SupplyOverflow"
    then as_number (at "supply") (λ s. as_number (at "capture") (λ c.
      as_number (at "overflow")
        (λ o. some (supply_overflow (record { supply = s; capture = c; overflow = o })))))
    else if str_eq kind "Upgraded"
    then as_text (at "implementation") (λ i. some (upgraded (record { implementation = i })))
    else none

module _ {Hash : Type 0} where
  -- two logs of the chain
  abbrev pub AreApart : ChainEvent Hash → ChainEvent Hash → Type 0
  AreApart a b = a.transaction_hash ≡ b.transaction_hash → a.log_index ≢ b.log_index

  -- no log twice
  abbrev pub AreDistinct : List (ChainEvent Hash) → Type 0
  AreDistinct [] = Unit
  AreDistinct (e ∷ es) = All (AreApart e) es × AreDistinct es

  -- The index of the log is a signed number of 32 bits.
  abbrev pub IsSmall : ChainEvent Hash → Type 0
  IsSmall e = e.log_index < 2147483648

  flip_apart :
      (e : ChainEvent Hash) (es : List (ChainEvent Hash))
      → All (AreApart e) es
      → All (λ o. AreApart o e) es
  flip_apart e [] h = tt
  flip_apart e (o ∷ es) (here, more) = (λ p q. here (sym p) (sym q), flip_apart e es more)

  module _ (concat_i32 : Hash → ℕ → String) where
    -- The hashes are of one length, so the bytes tell a hash and an index of 32 bits apart.
    abbrev pub IsConcat : Type 0
    IsConcat =
        (h g : Hash) (i j : ℕ)
        → i < 2147483648
        → j < 2147483648
        → concat_i32 h i ≡ concat_i32 g j
        → (h ≡ g) × (i ≡ j)

    -- The entity of the event is there, and tells of its parameters, block, time and transaction.
    abbrev pub Keeps : Store Hash → ChainEvent Hash → Type 0
    Keeps st e =
        (entity : Entity Hash) × (JsMap.get (st (kind_of e.params)) (id_of concat_i32 e)
          ≡ some entity)
        × (read_entity (kind_of e.params) entity.fields ≡ some e.params)
        × (entity.block_number ≡ e.block_number)
        × (entity.block_timestamp ≡ e.block_timestamp)
        × (entity.transaction_hash ≡ e.transaction_hash)

    -- Each handler saves one entity of its kind, which can be read.
    abbrev Saves : ChainEvent Hash → Params → (Store Hash → Store Hash) → Type 0
    Saves e p change =
        (fields : JsMap Value) × ((st : Store Hash)
          → change st
            ≡ save st (kind_of p) (id_of concat_i32 e) (record {
              fields = fields;
              block_number = e.block_number;
              block_timestamp = e.block_timestamp;
              transaction_hash = e.transaction_hash;
            }))
        × (read_entity (kind_of p) fields ≡ some p)

    handle_params-Saves :
        (e : ChainEvent Hash) (p : Params) → Saves e p (λ st. handle_params concat_i32 st e p)
    unfolding read_entity JsMap.get
    handle_params-Saves e (admin_changed p) = (_, (λ st. refl), refl)
    handle_params-Saves e (beacon_upgraded p) = (_, (λ st. refl), refl)
    handle_params-Saves e (capture_overflow p) = (_, (λ st. refl), refl)
    handle_params-Saves e (data_stored p) = (_, (λ st. refl), refl)
    handle_params-Saves e (initialized p) = (_, (λ st. refl), refl)
    handle_params-Saves e (ownership_transferred p) = (_, (λ st. refl), refl)
    handle_params-Saves e (store_updated p) = (_, (λ st. refl), refl)
    handle_params-Saves e (supply_overflow p) = (_, (λ st. refl), refl)
    handle_params-Saves e (upgraded p) = (_, (λ st. refl), refl)

    save-get :
        (st : Store Hash) (kind id : String) (entity : Entity Hash)
        → JsMap.get (save st kind id entity kind) id ≡ some entity
    unfolding save
    save-get st kind id entity = rw (eq_refl kind) (JsMap.get-set_self (st kind) id entity)

    save-get_other :
        (st : Store Hash) (kind other id id' : String) (entity : Entity Hash)
        → (kind ≡ other → str_eq id id' ≡ false)
        → JsMap.get (save st kind id entity other) id' ≡ JsMap.get (st other) id'
    unfolding save
    save-get_other st kind other id id' entity apart = elim (Bool-cases (str_eq kind other)) [
      | inl same ↦
          rw same
            (JsMap.get-set (st other) id id' entity ∙ rw (apart ((eq_iff kind other).0 same)) refl)
      | inr different ↦ rw different refl
    ]

    handle-Keeps_self : (st : Store Hash) (e : ChainEvent Hash) → Keeps (handle concat_i32 st e) e
    unfolding handle
    handle-Keeps_self st e =
        let (fields, saves, reads) = handle_params-Saves e e.params in
        (
          _,
          ap (λ s. JsMap.get (s (kind_of e.params)) (id_of concat_i32 e)) (saves st)
              ∙ save-get st (kind_of e.params) (id_of concat_i32 e) _,
          reads,
          refl,
          refl,
          refl,
        )

    apart_ids :
        (a b : ChainEvent Hash)
        → IsConcat
        → IsSmall a
        → IsSmall b
        → AreApart a b
        → str_eq (id_of concat_i32 a) (id_of concat_i32 b) ≡ false
    apart_ids a b c sa sb apart =
        elim (Bool-cases (str_eq (id_of concat_i32 a) (id_of concat_i32 b))) [
          | inl same ↦
              let (hash, index) =
                c _ _ _ _ sa sb ((eq_iff (id_of concat_i32 a) (id_of concat_i32 b)).0 same) in
              absurd (apart hash index)
          | inr different ↦ different
        ]

    handle-Keeps :
        (st : Store Hash) (e other : ChainEvent Hash)
        → IsConcat
        → IsSmall other
        → IsSmall e
        → AreApart other e
        → Keeps st e
        → Keeps (handle concat_i32 st other) e
    unfolding handle
    handle-Keeps st e other c small_other small apart
          (entity, there, reads_here, block, time, transaction) =
        let (fields, saves, reads) = handle_params-Saves other other.params in
        (
          entity,
          ap (λ s. JsMap.get (s (kind_of e.params)) (id_of concat_i32 e)) (saves st)
              ∙ save-get_other st (kind_of other.params) (kind_of e.params) (id_of concat_i32 other)
                  (id_of concat_i32 e) _ (λ same. apart_ids other e c small_other small apart)
              ∙ there,
          reads_here,
          block,
          time,
          transaction,
        )

    handle_all-Keeps :
        (es : List (ChainEvent Hash)) (st : Store Hash) (e : ChainEvent Hash)
        → IsConcat
        → All IsSmall es
        → IsSmall e
        → All (λ o. AreApart o e) es
        → Keeps st e
        → Keeps (handle_all concat_i32 st es) e
    unfolding handle_all
    handle_all-Keeps [] st e c s small h kept = kept
    handle_all-Keeps (o ∷ es) st e c (small_o, s) small (apart, more) kept =
        handle_all-Keeps es (handle concat_i32 st o) e c s small more
          (handle-Keeps st e o c small_o small apart kept)

    -- After the handlers of any events, no log among which comes twice, each of these events can be
    -- read back: at its id, an entity of its kind is kept, the fields of which, by the names of the
    -- schema, are its parameters, with its block, time and transaction. None is overwritten by a later
    -- one. The indices of the logs are below 2 ^ 31.
    pub handle_all_lem :
        (es : List (ChainEvent Hash)) (st : Store Hash)
        → IsConcat
        → All IsSmall es
        → AreDistinct es
        → All (Keeps (handle_all concat_i32 st es)) es
    unfolding handle_all
    handle_all_lem [] st c s d = tt
    handle_all_lem (e ∷ es) st c (small, s) (apart, d) = (
      handle_all-Keeps es (handle concat_i32 st e) e c s small (flip_apart e es apart)
          (handle-Keeps_self st e),
      handle_all_lem es (handle concat_i32 st e) c s d,
    )
