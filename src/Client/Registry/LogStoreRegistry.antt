-- ===== src/Client/Registry/LogStoreRegistry.antt =====
-- packages/client/src/registry/LogStoreRegistry.ts: the streams that are stored, and their stakes.
use mathlib.Core.Path.{subst}
use logstore_archive.Base.{
  Option-cases, inl, inr, some_inj, ℕ, String, ◌≡◌, ◌≤◌, refl, Option, none, some, List, [], ◌∷◌,
  ◌++◌, Bool, true, false, min, All, arith,
}
use logstore_archive.Base.JsMap.{JsMap}
use logstore_archive.Base.Result.{Result, ok, err, ◌>>=◌, >>=-eq-ok}
use logstore_archive.Shared.Managers.{SharedError, Signer, Manager, Contract, get_manager_contract}
use logstore_archive.Shared.TokenPrice.{whole, Prices}
use logstore_archive.Shared.PrepareStake.{Chain, prepare_stake_for_store_manager}
use logstore_archive.Shared.PrepareStake.Laws.{IsAllowed, prepare_stake-IsAllowed}
use logstore_archive.Client.Registry.Overrides.{without_gas_price}

module _ {W X V : Type 0} (C : Chain W X) (S : Prices W X) (now : ℕ) where
  -- `to_stream_id` is `streamIdBuilder.toStreamID`; `stores`, `balance_of` and `exists` are calls of
  -- the contract, and `send` is a call of `stake` of the contract at an address. That address is of
  -- the configuration of the client, `contracts.logStoreStoreManagerChainAddress`.
  module _ (store_manager_address : String) (to_stream_id : String → Result (SharedError X) String)
      (stores balance_of : W → String → Result (SharedError X) ℕ)
      (exists : W → String → Result (SharedError X) Bool)
      (send : W → String → String → ℕ → JsMap V → Result (SharedError X) W) where
    unfoldable pub stake_or_create_store :
        W → Signer → String → ℕ → (streamr_overrides overrides : JsMap V) → Result (SharedError X) W
    stake_or_create_store w signer stream_id_or_path amount streamr_overrides overrides =
        to_stream_id stream_id_or_path >>= λ stream_id.
        prepare_stake_for_store_manager C S now w signer (whole amount) false none true
        >>= λ prepared.
            send prepared.1 store_manager_address stream_id amount
              (without_gas_price streamr_overrides overrides)

    abbrev pub get_stream_balance : W → String → Result (SharedError X) ℕ
    get_stream_balance w stream_id_or_path =
        to_stream_id stream_id_or_path >>= λ stream_id. stores w stream_id

    abbrev pub get_store_balance_of : W → String → Result (SharedError X) ℕ
    get_store_balance_of w address = balance_of w address

    abbrev pub get_store_balance : W → Signer → Result (SharedError X) ℕ
    get_store_balance w signer = get_store_balance_of w signer.account

    abbrev pub is_log_store_stream : W → String → Result (SharedError X) Bool
    is_log_store_stream w stream_id_or_path =
        to_stream_id stream_id_or_path >>= λ stream_id. exists w stream_id

    -- Let the client be configured with the contract that the address book has for the chain of the
    -- signer. If a stake for a store succeeds, then exactly the amount was sent for the stream to the
    -- configured contract, and when it was sent, that contract was allowed to take the amount, of the
    -- token that it stakes.
    pub stake_or_create_store-IsAllowed :
        (w done : W) (signer : Signer) (stream_id_or_path : String) (amount : ℕ)
        (streamr_overrides overrides : JsMap V)
        → ((c : Contract)
            → get_manager_contract {X = X} signer Manager.store_manager ≡ ok c
            → c.address ≡ store_manager_address)
        → stake_or_create_store w signer stream_id_or_path amount streamr_overrides overrides
          ≡ ok done
        → (stream_id : String) × (to_stream_id stream_id_or_path ≡ ok stream_id)
          × ((before : W) × (send before store_manager_address stream_id amount
                  (without_gas_price streamr_overrides overrides)
                ≡ ok done)
              × ((contract : Contract) × (contract.address ≡ store_manager_address)
                  × ((token : String) × (C.stake_token_address w contract ≡ ok token)
                      × ((current : ℕ) × (C.allowance before token signer.account
                              store_manager_address
                            ≡ ok current)
                          × (amount ≤ current)))))
    unfolding stake_or_create_store
    stake_or_create_store-IsAllowed w done signer path amount streamr_overrides overrides book h =
        let (stream_id, names, staked) = >>=-eq-ok (to_stream_id path) _ h in
        let ((n, before), prepares, sends) =
          >>=-eq-ok
            (prepare_stake_for_store_manager C S now w signer (whole amount) false none true) _
            staked in
        let (allowed, exact) =
          prepare_stake-IsAllowed C S now w before Manager.store_manager signer (whole amount) false
            none n prepares in
        let same : n ≡ amount = cc (exact refl) in
        let exactly = subst (IsAllowed C w before Manager.store_manager signer) (same) allowed in
        let (contract, made, (token, stakes, (current, allows, enough))) = exactly in
        let here = book contract made in
        let allows_here =
          subst (λ a. C.allowance before token signer.account a ≡ ok current) here allows in
        (
          stream_id,
          names,
          (before, sends, (contract, here, (token, stakes, (current, allows_here, enough)))),
        )

-- `getStoredStreams`, of the pages of the subgraph: the number of the block and the stores. A stream
-- that cannot be fetched is left out.
module _ {Stream X : Type 0} (get_stream : String → Result X Stream) where
  abbrev add_stream : Result X Stream → List Stream → List Stream
  add_stream (ok s) rest = s ∷ rest
  add_stream (err e) rest = rest

  unfoldable pub fetch_streams : List String → List Stream
  fetch_streams [] = []
  fetch_streams (store ∷ rest) = add_stream (get_stream store) (fetch_streams rest)

  unfoldable pub stores_of : List (ℕ × List String) → List String
  stores_of [] = []
  stores_of ((block, stores) ∷ pages) = stores ++ stores_of pages

  -- `min` of lodash, which is undefined of nothing
  unfoldable pub min_block : List (ℕ × List String) → Option ℕ
  min_block [] = none
  min_block ((block, stores) ∷ pages) = elim (min_block pages) [
    | none ↦ some block
    | some least ↦ some (min block least)
  ]

  unfoldable pub get_stored_streams : List (ℕ × List String) → List Stream × Option ℕ
  get_stored_streams pages = (fetch_streams (stores_of pages), min_block pages)

  All-none :
      (P : ℕ × List String → Type 0) (pages : List (ℕ × List String))
      → min_block pages ≡ none
      → All P pages
  unfolding min_block
  All-none P [] e = tt
  All-none P ((block, stores) ∷ pages) e = elim (Option-cases (min_block pages)) [
    | inl z ↦ absurd (cc (rw z at e))
    | inr (l, z) ↦ absurd (cc (rw z at e))
  ]

  All-lower :
      (l least : ℕ) (pages : List (ℕ × List String))
      → least ≤ l
      → All (λ page. l ≤ page.0) pages
      → All (λ page. least ≤ page.0) pages
  All-lower l least [] h k = tt
  All-lower l least (page ∷ pages) h (here, k) = (omega arith, All-lower l least pages h k)

  -- No page is of an earlier block than the one that getStoredStreams gives.
  pub min_block-le :
      (pages : List (ℕ × List String)) (least : ℕ)
      → min_block pages ≡ some least
      → All (λ page. least ≤ page.0) pages
  unfolding min_block
  min_block-le [] least h = tt
  min_block-le ((block, stores) ∷ pages) least h = elim (Option-cases (min_block pages)) [
    | inl e ↦ (omega (arith, some_inj (rw e at h)), All-none _ pages e)
    | inr (l, e) ↦
        let equal : min block l ≡ least = some_inj (rw e at h) in
        (
          omega (arith, equal),
          All-lower l least pages (omega (arith, equal)) (min_block-le pages l e),
        )
  ]
