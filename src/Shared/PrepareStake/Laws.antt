-- ===== src/Shared/PrepareStake/Laws.antt =====
-- packages/shared/src/prepareStake.ts and allowance.ts: what is allowed when a stake was prepared.
use mathlib.Core.Path.{subst}
use logstore_archive.Base.{
  ℕ, String, ◌≡◌, ◌≤◌, ◌<◌, ap, refl, ◌∙◌, Bool, true, false, Option, none, some, ltb, ◌==◌, ◌-◌,
  arith, Bool-cases, inl, inr,
}
use logstore_archive.Base.Result.{Result, ok, err, ◌>>=◌, >>=-eq-ok}
use logstore_archive.Shared.Managers.{
  Manager, SharedError, Signer, Contract, get_manager_contract, not_confirmed,
}
use logstore_archive.Shared.PrepareStake.{
  Chain, Confirm, request_allowance_if_needed, ensure_enough_allowance, prepare_stake,
  approve_unless, approve_for, confirmed, with_allowance, is_positive, prepare, real_amount,
  big_int, or_not_enough, caught, succeeded,
}
use logstore_archive.Shared.TokenPrice.{Amount, whole, Prices, lift}

lift-eq-ok : {X V : Type 0} (r : Result X V) {v : V} → lift r ≡ ok v → r ≡ ok v
lift-eq-ok (ok u) e = cc
lift-eq-ok (err x) e = cc

module _ {W X : Type 0} (C : Chain W X) where
  -- The account may have the manager's contract spend at least an amount of its token.
  abbrev pub IsAllowed : W → W → Manager → Signer → ℕ → Type 0
  IsAllowed w done manager signer amount =
      (contract : Contract) × (get_manager_contract {X = X} signer manager ≡ ok contract)
      × ((token : String) × (C.stake_token_address w contract ≡ ok token)
          × ((current : ℕ) × (C.allowance done token signer.account contract.address ≡ ok current)
              × (amount ≤ current)))

  -- A transaction whose receipt has another status than 0 leaves the amount allowed.
  waited-allowance :
      (w sent done : W) (tx : C.Tx) (token owner spender : String) (amount : ℕ)
      → C.approve w token owner spender amount ≡ ok (tx, sent)
      → succeeded C (some tx, sent) ≡ ok done
      → C.allowance done token owner spender ≡ ok amount
  waited-allowance w sent done tx token owner spender amount sends h =
      let ((status, after), waits, ends) = >>=-eq-ok (lift (C.wait sent tx)) _ h in
      elim (Bool-cases (status == 0)) [
        | inl failed ↦ absurd (cc (failed, ends))
        | inr fine ↦
            let same : after ≡ done = cc (fine, ends) in
            subst (λ x. C.allowance x token owner spender ≡ ok amount) (same)
              (C.approved w sent after token owner spender amount status tx sends
                (lift-eq-ok _ waits) (λ z. cc (z, fine)))
      ]

  approved-allowance :
      (w done : W) (signer : Signer) (token spender : String) (amount : ℕ) (answer : Bool)
      → (approve_for C w signer token spender amount answer >>= succeeded C) ≡ ok done
      → C.allowance done token signer.account spender ≡ ok amount
  approved-allowance w done signer token spender amount false h = cc
  approved-allowance w done signer token spender amount true h =
      let ((asked, sent), given, waits) =
        >>=-eq-ok (approve_for C w signer token spender amount true) (succeeded C) h in
      let ((tx, sent_w), sends, same) =
        >>=-eq-ok (lift (C.approve w token signer.account spender amount)) _ given in
      waited-allowance w sent_w done tx token signer.account spender amount (lift-eq-ok _ sends)
        (cc (same, waits))

  caught-eq-some : (r : Result (SharedError X) W) {v : W} → caught C r ≡ some v → r ≡ ok v
  caught-eq-some (ok u) e = cc
  caught-eq-some (err x) e = cc

  approve_unless-allowance :
      (w done : W) (signer : Signer) (token spender : String) (amount current : ℕ)
      (confirm : Confirm C)
      → C.allowance w token signer.account spender ≡ ok current
      → (approve_unless C w signer token spender amount confirm current >>= succeeded C) ≡ ok done
      → (now : ℕ) × (C.allowance done token signer.account spender ≡ ok now) × (amount ≤ now)
  approve_unless-allowance w done signer token spender amount current confirm e h =
      elim (Bool-cases (ltb current amount)) [
        | inr enough ↦
            let same : w ≡ done = cc (enough, h) in
            (
              current,
              subst (λ x. C.allowance x token signer.account spender ≡ ok current) (same) e,
              ground arith,
            )
        | inl short ↦
            let asks : ((confirmed C confirm current (amount - current) >>= λ a.
            approve_for C w signer token spender amount a)
                  >>= succeeded C)
                ≡ ok done =
              cc (short, h) in
            let (asked, given, waits) =
              >>=-eq-ok
                (confirmed C confirm current (amount - current) >>= λ a.
                  approve_for C w signer token spender amount a)
                (succeeded C) asks in
            let (answer, says, sends) =
              >>=-eq-ok (confirmed C confirm current (amount - current)) _ given in
            (
              amount,
              approved-allowance w done signer token spender amount answer (cc sends),
              omega arith,
            )
      ]

  ensure-IsAllowed :
      (w done : W) (manager : Manager) (amount : ℕ) (signer : Signer) (confirm : Confirm C)
      → ensure_enough_allowance C w manager amount signer confirm ≡ some done
      → IsAllowed w done manager signer amount
  unfolding ensure_enough_allowance request_allowance_if_needed
  ensure-IsAllowed w done manager amount signer confirm h =
      let chain = caught-eq-some _ h in
      let (sent, asks, ends) =
        >>=-eq-ok (request_allowance_if_needed C w manager amount signer confirm) (succeeded C)
          chain in
      let (contract, found, r1) = >>=-eq-ok (get_manager_contract {X = X} signer manager) _ asks in
      let (token, names, r2) = >>=-eq-ok (lift (C.stake_token_address w contract)) _ r1 in
      let (current, shows, r3) =
        >>=-eq-ok (lift (C.allowance w token signer.account contract.address)) _ r2 in
      let (now, allows, enough) =
        approve_unless-allowance w done signer token contract.address amount current confirm
          (lift-eq-ok _ shows) (rw r3 ends) in
      (contract, found, (token, lift-eq-ok _ names, (now, allows, enough)))

  or_not_enough-eq-ok : (o : Option W) {v : W} → or_not_enough C o ≡ ok v → o ≡ some v
  or_not_enough-eq-ok none e = cc
  or_not_enough-eq-ok (some u) e = cc

  big_int-eq-ok : (a : Amount) {n : ℕ} → big_int {X = X} a ≡ ok n → a ≡ whole n
  big_int-eq-ok (Amount.negative s) e = cc
  big_int-eq-ok (Amount.fraction s) e = cc
  big_int-eq-ok (whole m) e = cc

  module _ (S : Prices W X) (clock : ℕ) where
    with_allowance-IsAllowed :
        (w done : W) (manager : Manager) (signer : Signer) (confirm : Confirm C) (m n : ℕ)
        → with_allowance C S clock w manager signer confirm true m ≡ ok (n, done)
        → (m ≡ n) × IsAllowed w done manager signer n
    with_allowance-IsAllowed w done manager signer confirm m n h =
        let (after, ensured, ends) =
          >>=-eq-ok (or_not_enough C (ensure_enough_allowance C w manager m signer confirm)) _ h in
        let same : m ≡ n = cc ends in
        let same_world : after ≡ done = cc ends in
        (
          same,
          ensure-IsAllowed w done manager n signer confirm
              (rw (← same, ← same_world) (or_not_enough-eq-ok _ ensured)),
        )

    prepare-IsAllowed :
        (w done : W) (manager : Manager) (signer : Signer) (amount : Amount) (is_usd : Bool)
        (confirm : Confirm C) (n : ℕ)
        → prepare C S clock w manager signer amount is_usd confirm true ≡ ok (n, done)
        → IsAllowed w done manager signer n × (is_usd ≡ false → amount ≡ whole n)
    prepare-IsAllowed w done manager signer amount is_usd confirm n h =
        let (contract, found, r1) = >>=-eq-ok (get_manager_contract {X = X} signer manager) _ h in
        let (token, names, r2) = >>=-eq-ok (lift (C.stake_token_address w contract)) _ r1 in
        let (symbol, shows, r3) = >>=-eq-ok (lift (S.symbol w token)) _ r2 in
        let (real, converts, r4) =
          >>=-eq-ok (real_amount C S clock w token signer amount is_usd) _ r3 in
        let (m, real_whole, r5) = >>=-eq-ok (big_int {X = X} real) _ r4 in
        let (same, allowed) = with_allowance-IsAllowed w done manager signer confirm m n r5 in
        (
          allowed,
          λ plain.
              not_usd token is_usd amount real plain converts
              ∙ big_int-eq-ok real real_whole
              ∙ ap whole same,
        )
      where
        not_usd :
            (token : String) (b : Bool) (a real : Amount)
            → b ≡ false
            → real_amount C S clock w token signer a b ≡ ok real
            → a ≡ real
        not_usd token true a real p e = cc
        not_usd token false a real p e = cc

    -- If prepareStake returns an amount after it was told to ensure the allowance, then the
    -- manager's contract is afterwards allowed to spend at least that amount of the account's token,
    -- and the amount is the one that was asked for where that was not in USD.
    pub prepare_stake-IsAllowed :
        (w done : W) (manager : Manager) (signer : Signer) (amount : Amount) (is_usd : Bool)
        (confirm : Confirm C) (n : ℕ)
        → prepare_stake C S clock w manager signer amount is_usd confirm true ≡ ok (n, done)
        → IsAllowed w done manager signer n × (is_usd ≡ false → amount ≡ whole n)
    unfolding prepare_stake
    prepare_stake-IsAllowed w done manager signer amount is_usd confirm n h =
        elim (Bool-cases (is_positive amount)) [
          | inr small ↦ absurd (cc (small, h))
          | inl large ↦
              prepare-IsAllowed w done manager signer amount is_usd confirm n (cc (large, h))
        ]

  -- The calls for the allowance having succeeded: where it is enough, no transaction is sent and
  -- the chain is as before; where it is short and the user does not confirm, nothing is sent and
  -- that is the error, which prepareStake and its callers see as false.
  pub request_allowance_lem :
      (w : W) (manager : Manager) (amount current : ℕ) (signer : Signer) (confirm : Confirm C)
      (contract : Contract) (token : String)
      → get_manager_contract {X = X} signer manager ≡ ok contract
      → C.stake_token_address w contract ≡ ok token
      → C.allowance w token signer.account contract.address ≡ ok current
      → (amount ≤ current
          → (request_allowance_if_needed C w manager amount signer confirm ≡ ok (none, w))
            × (ensure_enough_allowance C w manager amount signer confirm ≡ some w))
        × (current < amount
            → confirmed C confirm current (amount - current) ≡ ok false
            → (request_allowance_if_needed C w manager amount signer confirm ≡ err not_confirmed)
              × (ensure_enough_allowance C w manager amount signer confirm ≡ none))
  unfolding request_allowance_if_needed ensure_enough_allowance
  request_allowance_lem w manager amount current signer confirm contract token g t a = (
    λ enough. rw (g, t, a) (let e : ltb current amount ≡ false = ground arith in rw e (refl, refl)),
    λ short no_thanks.
        rw (g, t, a)
          (let e : ltb current amount ≡ true = ground arith in rw (e, no_thanks) (refl, refl)),
  )
