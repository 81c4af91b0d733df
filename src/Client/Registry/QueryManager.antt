-- ===== src/Client/Registry/QueryManager.antt =====
-- packages/client/src/registry/QueryManager.ts: the stake of a consumer for its queries.
use logstore_archive.Base.{ℕ, String, ◌≡◌, none, Bool, true}
use logstore_archive.Base.JsMap
use logstore_archive.Base.JsMap.{JsMap}
use logstore_archive.Base.Result.{Result, ok, ◌>>=◌, >>=-eq-ok}
use logstore_archive.Shared.Managers.{SharedError, Signer, Manager}
use logstore_archive.Shared.TokenPrice.{Amount, Prices}
use logstore_archive.Shared.PrepareStake.{Chain, prepare_stake_for_query_manager}
use logstore_archive.Shared.PrepareStake.Laws.{IsAllowed, prepare_stake-IsAllowed}

module _ {W X V : Type 0} (C : Chain W X) (S : Prices W X) (now : ℕ) where
  -- `to_number` is `Number(amount)` of a BigNumberish, which rounds. `balance_of` and `send` are
  -- calls of the contract; `send` waits for the transaction. `stakeAmount` is a promise, which the
  -- contract of ethers waits for before it sends anything.
  module _ (to_number : String → Amount) (balance_of : W → String → Result (SharedError X) ℕ)
      (send : W → ℕ → JsMap V → Result (SharedError X) W) where
    abbrev pub get_query_balance_of : W → String → Result (SharedError X) ℕ
    get_query_balance_of w account = balance_of w account

    abbrev pub get_query_balance : W → Signer → Result (SharedError X) ℕ
    get_query_balance w signer = get_query_balance_of w signer.account

    unfoldable pub query_stake :
        W
        → Signer
        → String
        → (is_usd : Bool) → (streamr_overrides overrides : JsMap V) → Result (SharedError X) W
    query_stake w signer amount is_usd streamr_overrides overrides =
        prepare_stake_for_query_manager C S now w signer (to_number amount) is_usd none true
        >>= λ prepared. send prepared.1 prepared.0 (JsMap.spread streamr_overrides overrides)

    -- What is sent to the contract is allowed to be taken when it is sent.
    pub query_stake-IsAllowed :
        (w done : W) (signer : Signer) (amount : String) (is_usd : Bool)
        (streamr_overrides overrides : JsMap V)
        → query_stake w signer amount is_usd streamr_overrides overrides ≡ ok done
        → (n : ℕ) × (before : W) × (send before n (JsMap.spread streamr_overrides overrides)
            ≡ ok done)
          × IsAllowed C w before Manager.query_manager signer n
    unfolding query_stake
    query_stake-IsAllowed w done signer amount is_usd streamr_overrides overrides h =
        let ((n, before), prepares, sends) =
          >>=-eq-ok
            (prepare_stake_for_query_manager C S now w signer (to_number amount) is_usd none true) _
            h in
        let (allowed, exact) =
          prepare_stake-IsAllowed C S now w before Manager.query_manager signer (to_number amount)
            is_usd none n prepares in
        (n, before, sends, allowed)
