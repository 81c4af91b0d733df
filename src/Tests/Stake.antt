-- ===== src/Tests/Stake.antt =====
-- A chain with one token, and the stakes that are prepared on it.
use logstore_archive.Base.{ℕ, ◌+◌, ◌≤◌, String, ◌≡◌, ◌≢◌, refl, true, false, none, some, [], ◌∷◌}
use logstore_archive.Base.JsMap.{JsMap}
use logstore_archive.Client.Registry.LogStoreRegistry
use logstore_archive.Client.Registry.Overrides.{without_gas_price}
use logstore_archive.Base.Result.{Result, ok, err}
use logstore_archive.Shared.Managers.{
  SharedError, Contract, Manager, Signer, get_manager_contract, get_manager_address, addresses_of,
  not_enough_allowance,
}
use logstore_archive.Shared.TokenPrice.{Prices, whole, convert_from_usd, get_token_price}
use logstore_archive.Shared.PrepareStake.{
  Chain, prepare_stake, ensure_enough_allowance, request_allowance_if_needed,
}
use logstore_archive.Shared.PrepareStake.Laws.{IsAllowed, prepare_stake-IsAllowed}

takes_effect :
    (w sent done : ℕ) (token owner spender : String) (amount status : ℕ) (tx : ℕ)
    → ◌≡◌ {A = Result String (ℕ × ℕ)} (ok (amount, w)) (ok (tx, sent))
    → ◌≡◌ {A = Result String (ℕ × ℕ)} (ok (1, tx)) (ok (status, done))
    → status ≢ 0
    → ◌≡◌ {A = Result String ℕ} (ok done) (ok amount)
takes_effect w sent done token owner spender amount status tx sends waits fine = cc

-- The state of the chain is the one allowance.
abbrev one_allowance : Chain ℕ String
one_allowance = record {
  Tx = ℕ;
  stake_token_address = λ w c. ok "token";
  allowance = λ w token owner spender. ok w;
  approve = λ w token owner spender amount. ok (amount, w);
  wait = λ w tx. ok (1, tx);
  approved = takes_effect;
}

abbrev cents : Prices ℕ String
cents = record {
  Float = ℕ;
  cent = 1;
  of_amount = λ a. 100;
  multiply = λ a b. a;
  divide = λ a b. a;
  of_ether = λ n. n;
  parse_units = λ a decimals. ok a;
  symbol = λ w token. ok "LSAN";
  decimals = λ w token. ok 18;
  price = λ w token. ok 1;
  get_historical_price = λ symbol date. err "no price";
}

abbrev staker : Signer
staker = record { chain_id = some 137; account = "0xuser" }

prepare_stake-IsAllowed_example :
    IsAllowed one_allowance 3 10 Manager.store_manager staker 10
    × (false ≡ false → whole 10 ≡ whole 10)
prepare_stake-IsAllowed_example =
    prepare_stake-IsAllowed one_allowance cents 0 3 10 Manager.store_manager staker (whole 10) false
      none 10
      (unfold prepare_stake ensure_enough_allowance request_allowance_if_needed get_manager_contract
          get_manager_address addresses_of in
        refl)

-- The user does not confirm.
refused :
    prepare_stake one_allowance cents 0 3 Manager.store_manager staker
      (whole 10)
      false
      (some (λ current required. ok false))
      true
    ≡ err not_enough_allowance
unfolding prepare_stake ensure_enough_allowance request_allowance_if_needed get_manager_contract
    get_manager_address addresses_of
refused = refl

-- An amount in USD, with no price to be had.
in_usd :
    prepare_stake one_allowance cents 0 200 Manager.store_manager staker (whole 1) true none true
    ≡ ok (100, 200)
unfolding prepare_stake ensure_enough_allowance request_allowance_if_needed get_manager_contract
    get_manager_address addresses_of convert_from_usd get_token_price
in_usd = refl

abbrev prefixed : String → Result (SharedError String) String
prefixed s = ok "0xuser/s"

-- What is sent is noted as the allowance, a hundred more.
abbrev noted : ℕ → String → String → ℕ → JsMap ℕ → Result (SharedError String) ℕ
noted w address stream_id n overrides = ok (w + 100)

abbrev store_manager_of_polygon : String
store_manager_of_polygon = "0x4122433b76a7aE5CF56C539BC0D59bacd53EF5c5"

booked :
    (c : Contract)
    → get_manager_contract {X = String} staker Manager.store_manager ≡ ok c
    → c.address ≡ store_manager_of_polygon
unfolding get_manager_contract get_manager_address addresses_of
booked c e = cc (e)

stake_or_create_store-IsAllowed_example :
    (stream_id : String) × (prefixed "/s" ≡ ok stream_id)
    × ((before : ℕ) × (noted before store_manager_of_polygon stream_id 10
            (without_gas_price [] (("gasPrice", 7) ∷ []))
          ≡ ok 110)
        × ((contract : Contract) × (contract.address ≡ store_manager_of_polygon)
            × ((token : String) × (one_allowance.stake_token_address 3 contract ≡ ok token)
                × ((current : ℕ) × (one_allowance.allowance before token staker.account
                        store_manager_of_polygon
                      ≡ ok current)
                    × (10 ≤ current)))))
stake_or_create_store-IsAllowed_example =
    LogStoreRegistry.stake_or_create_store-IsAllowed one_allowance cents 0 store_manager_of_polygon
      prefixed (λ w s. ok 0) (λ w s. ok 0) (λ w s. ok true) noted 3 110 staker "/s" 10 []
      (("gasPrice", 7) ∷ []) booked
      (unfold LogStoreRegistry.stake_or_create_store prepare_stake ensure_enough_allowance
          request_allowance_if_needed get_manager_contract get_manager_address addresses_of in
        refl)
