-- ===== src/Cli/Utils.antt =====
-- packages/cli/src/utils/utils.ts and speedupTx.ts: amounts that are shown to the user, checks of
-- funds, and transactions that replace others.
pub mod Laws
use logstore_archive.Base.{
  ℕ, ◌*◌, ◌-◌, String, Bool, true, false, Option, none, some, List, [], ◌∷◌, str_eq, if◌then◌else◌,
  ltb, any, find,
}
use logstore_archive.Base.JsMap
use logstore_archive.Base.JsMap.{JsMap}
use logstore_archive.Base.Result.{Result, ok, err, ◌>>=◌}

pub data ByteUnit : Type 0 where
  terabytes gigabytes megabytes kilobytes plain_bytes : ByteUnit

-- `bytesToMessage`, by the number and the unit; `divide` and `at_least_one` are of decimal.js
module _ {D : Type 0} (divide : D → ℕ → D) (at_least_one : D → Bool) where
  unfoldable pub bytes_to_message : D → D × ByteUnit
  bytes_to_message bytes =
      if at_least_one (divide bytes (1000 * 1000 * 1000 * 1000))
      then (divide bytes (1000 * 1000 * 1000 * 1000), terabytes)
      else if at_least_one (divide bytes (1000 * 1000 * 1000))
      then (divide bytes (1000 * 1000 * 1000), gigabytes)
      else if at_least_one (divide bytes (1000 * 1000))
      then (divide bytes (1000 * 1000), megabytes)
      else if at_least_one (divide bytes 1000)
      then (divide bytes 1000, kilobytes)
      else (bytes, plain_bytes)

pub data FundsError : Type 0 where
  -- what was tried, what there is, and the difference
  insufficient_funds : (tried balance difference : ℕ) → FundsError
  no_value_transfered : FundsError

unfoldable pub check_lsan_funds : (balance tried_using : ℕ) → Result FundsError (Unit {0})
check_lsan_funds balance tried_using =
    if ltb balance tried_using
    then err (insufficient_funds tried_using balance (tried_using - balance))
    else ok tt

-- A log as `iface.parseLog` decodes it, with the amount where there is a third argument.
pub record Decoded : Type 0 where
  pub name : String
  pub amount : Option ℕ

abbrev is_transfer : Option Decoded → Bool
is_transfer none = false
is_transfer (some log) = str_eq log.name "Transfer"

abbrev amount_or_error : Option (Option Decoded) → Result FundsError ℕ
amount_or_error (some (some log)) = elim log.amount [
  | none ↦ err no_value_transfered
  | some n ↦ ok n
]
amount_or_error _ = err no_value_transfered

-- The logs that `parseLog` refuses are undefined.
unfoldable pub get_transfer_amount : List (Option Decoded) → Result FundsError ℕ
get_transfer_amount logs = amount_or_error (find is_transfer logs)

abbrev or_zero : Option ℕ → ℕ
or_zero none = 0
or_zero (some n) = n

-- `getTransactionFee`; `to_usd` is the client's `convert` from wei to USD.
abbrev pub get_transaction_fee : {D : Type 0} → (ℕ → D) → ℕ → Option ℕ → ℕ × D
get_transaction_fee to_usd gas_used effective_gas_price =
    let fee = gas_used * or_zero effective_gas_price in (fee, to_usd fee)

-- A property of a transaction.
pub data Field : Type 0 where
  undefined : Field
  number : ℕ → Field
  text : String → Field

-- `_.pick`
unfoldable pub pick : JsMap Field → List String → JsMap Field
pick tx [] = []
pick tx (p ∷ ps) = elim (JsMap.get tx p) [ none ↦ pick tx ps | some v ↦ (p, v) ∷ pick tx ps ]

abbrev pub props : List String
props =
    "to" ∷ "from" ∷ "nonce" ∷ "gasLimit" ∷ "gasPrice" ∷ "data" ∷ "value" ∷ "chainId" ∷ "type"
    ∷ "accessList" ∷ "maxPriorityFeePerGas" ∷ "maxFeePerGas" ∷ "customData" ∷ "ccipReadEnabled" ∷ []

-- `tx.type ?? undefined`
abbrev or_undefined : Option Field → Field
or_undefined none = undefined
or_undefined (some v) = v

-- `replaceTransaction`, by what is handed to `sendTransaction`
unfoldable pub replacement : JsMap Field → JsMap Field → JsMap Field
replacement tx overrides =
    JsMap.set (JsMap.spread (pick tx props) overrides) "type" (or_undefined (JsMap.get tx "type"))

abbrev tip_of : Option Field → ℕ
tip_of (some (number n)) = n
tip_of _ = 0

-- `createTransactionWithIncreasedTip`; `raise` multiplies by the percentage and rounds.
unfoldable pub with_increased_tip : (ℕ → ℕ) → JsMap Field → JsMap Field
with_increased_tip raise tx = replacement tx (
    ("maxFeePerGas", undefined)
    ∷ ("gasPrice", undefined)
    ∷ ("maxPriorityFeePerGas", number (raise (tip_of (JsMap.get tx "maxPriorityFeePerGas"))))
    ∷ [])

-- `errorIncludesMessages`, where `includes` is that of texts
abbrev pub error_includes_messages : (String → String → Bool) → List String → String → Bool
error_includes_messages includes_text accepted_messages message =
    any (includes_text message) accepted_messages

-- Whether `retryCall` is made again, without asking the user.
abbrev pub is_retried : (String → String → Bool) → String → Bool
is_retried includes_text message =
    error_includes_messages includes_text
      ("replacement fee too low" ∷ "could not replace existing" ∷ []) message
