-- ===== src/Shared/PrepareStake.antt =====
-- packages/shared/src/prepareStake.ts and allowance.ts: what a user stakes, and the allowance that the
-- manager's contract needs for it.
pub mod Laws
use logstore_archive.Base.{
  ℕ, zero, suc, ◌-◌, String, ◌≡◌, ◌≢◌, Bool, true, false, not, Option, none, some, ltb, ◌==◌,
  str_eq, if◌then◌else◌,
}
use logstore_archive.Base.Result.{Result, ok, err, ◌>>=◌}
use logstore_archive.Shared.Managers.{
  Manager, SharedError, amount_not_positive, not_enough_allowance, transaction_failed,
  not_confirmed, range_error, no_provider, type_error, thrown, Signer, Contract,
  get_manager_contract, addresses_of, Addresses,
}
use logstore_archive.Shared.TokenPrice.{
  Amount, negative, fraction, whole, Prices, lift, convert_from_usd,
}

-- The chain as the code sees it, with the calls of a manager and of an ERC-20 token, either of which
-- can throw. W is the state of the chain.
pub record Chain (W X : Type 0) : Type 1 where
  pub Tx : Type 0
  pub stake_token_address : W → Contract → Result X String
  pub allowance : W → (token owner spender : String) → Result X ℕ
  -- `approve` sends a transaction, `wait` gives the status of its receipt.
  pub approve : W → (token owner spender : String) → ℕ → Result X (Tx × W)
  pub wait : W → Tx → Result X (ℕ × W)
  -- A transaction that did not fail leaves the allowance that it names.
  pub approved :
      (w sent done : W) (token owner spender : String) (amount status : ℕ) (tx : Tx)
      → approve w token owner spender amount ≡ ok (tx, sent)
      → wait sent tx ≡ ok (status, done)
      → status ≢ 0
      → allowance done token owner spender ≡ ok amount

-- `amount <= 0`
abbrev pub is_positive : Amount → Bool
is_positive (negative s) = false
is_positive (fraction s) = true
is_positive (whole zero) = false
is_positive (whole (suc n)) = true

-- `BigInt(amount)`
abbrev pub big_int : {X : Type 0} → Amount → Result (SharedError X) ℕ
big_int (whole n) = ok n
big_int _ = err range_error

module _ {W X : Type 0} (C : Chain W X) where
  -- `allowanceConfirmFn`, where there is one
  abbrev pub Confirm : Type 0
  Confirm = Option (ℕ → ℕ → Result X Bool)

  abbrev confirmed : Confirm → ℕ → ℕ → Result (SharedError X) Bool
  confirmed none current required = ok true
  confirmed (some confirm) current required = lift (confirm current required)

  abbrev approve_for :
      W → Signer → String → String → ℕ → Bool → Result (SharedError X) (Option C.Tx × W)
  approve_for w signer token spender amount true =
      lift (C.approve w token signer.account spender amount) >>= λ sent. ok (some sent.0, sent.1)
  approve_for w signer token spender amount false = err not_confirmed

  abbrev approve_unless :
      W → Signer → String → String → ℕ → Confirm → ℕ → Result (SharedError X) (Option C.Tx × W)
  approve_unless w signer token spender amount confirm current =
      if ltb current amount
      then (confirmed confirm current (amount - current) >>= λ yes_given.
          approve_for w signer token spender amount yes_given)
      else ok (none, w)

  unfoldable pub request_allowance_if_needed :
      W → Manager → ℕ → Signer → Confirm → Result (SharedError X) (Option C.Tx × W)
  request_allowance_if_needed w manager amount signer confirm =
      get_manager_contract signer manager >>= λ contract.
      lift (C.stake_token_address w contract) >>= λ token.
      lift (C.allowance w token signer.account contract.address) >>= λ current.
      approve_unless w signer token contract.address amount confirm current

  -- `tx.wait().then(...)`, or true where there is no transaction
  abbrev succeeded : Option C.Tx × W → Result (SharedError X) W
  succeeded (none, w) = ok w
  succeeded (some tx, w) = lift (C.wait w tx) >>= λ receipt.
      if receipt.0 == 0 then err transaction_failed else ok receipt.1

  -- `.catch` turns any error into false. The chain is then left as the last call left it, which
  -- no caller looks at: prepareStake throws.
  abbrev caught : Result (SharedError X) W → Option W
  caught (ok w) = some w
  caught (err e) = none

  unfoldable pub ensure_enough_allowance : W → Manager → ℕ → Signer → Confirm → Option W
  ensure_enough_allowance w manager amount signer confirm =
      caught (request_allowance_if_needed w manager amount signer confirm >>= succeeded)

  abbrev or_not_enough : Option W → Result (SharedError X) W
  or_not_enough none = err not_enough_allowance
  or_not_enough (some w) = ok w

  -- `now` is `Date.now()`.
  module _ (S : Prices W X) (now : ℕ) where
    abbrev real_amount : W → String → Signer → Amount → Bool → Result (SharedError X) Amount
    real_amount w token signer amount true =
        convert_from_usd S w token amount signer now >>= λ n. ok (whole n)
    real_amount w token signer amount false = ok amount

    abbrev with_allowance :
        W → Manager → Signer → Confirm → Bool → ℕ → Result (SharedError X) (ℕ × W)
    with_allowance w manager signer confirm false n = ok (n, w)
    with_allowance w manager signer confirm true n =
        or_not_enough (ensure_enough_allowance w manager n signer confirm) >>= λ done. ok (n, done)

    -- what follows the test of the amount
    abbrev prepare :
        W → Manager → Signer → Amount → Bool → Confirm → Bool → Result (SharedError X) (ℕ × W)
    prepare w manager signer amount is_usd confirm ensure_allowance =
        get_manager_contract signer manager >>= λ contract.
        lift (C.stake_token_address w contract) >>= λ token. lift (S.symbol w token) >>= λ symbol.
        real_amount w token signer amount is_usd >>= λ real.
        big_int real >>= λ n. with_allowance w manager signer confirm ensure_allowance n

    unfoldable pub prepare_stake :
        W → Manager → Signer → Amount → Bool → Confirm → Bool → Result (SharedError X) (ℕ × W)
    prepare_stake w manager signer amount is_usd confirm ensure_allowance =
        if not (is_positive amount)
        then err amount_not_positive
        else prepare w manager signer amount is_usd confirm ensure_allowance

    abbrev pub prepare_stake_for_node_manager :
        W → Signer → Amount → Bool → Confirm → Bool → Result (SharedError X) (ℕ × W)
    prepare_stake_for_node_manager w = prepare_stake w Manager.node_manager

    abbrev pub prepare_stake_for_store_manager :
        W → Signer → Amount → Bool → Confirm → Bool → Result (SharedError X) (ℕ × W)
    prepare_stake_for_store_manager w = prepare_stake w Manager.store_manager

    abbrev pub prepare_stake_for_query_manager :
        W → Signer → Amount → Bool → Confirm → Bool → Result (SharedError X) (ℕ × W)
    prepare_stake_for_query_manager w = prepare_stake w Manager.query_manager
