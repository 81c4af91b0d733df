-- ===== src/Client/Registry/TokenManager.antt =====
-- packages/client/src/registry/TokenManager.ts: the token of the Log Store, and amounts of it.
use logstore_archive.Base.{ℕ, String, ◌≡◌, ap, ◌∙◌}
use logstore_archive.Base.JsMap.{JsMap}
use logstore_archive.Base.Result.{Result, ok, ◌>>=◌}
use logstore_archive.Client.Registry.Overrides.{without_gas_price}

-- `AmountTypes`
pub data AmountType : Type 0 where
  wei usd bytes : AmountType

-- `Decimal` of decimal.js, with the laws of its numbers one and of a result that is whole already.
-- `to_dp` rounds down to a number of places.
pub record Decimals : Type 1 where
  pub Decimal : Type 0
  pub of_text : String → Decimal
  pub to_text : Decimal → String
  pub of_nat : ℕ → Decimal
  pub one : Decimal
  pub multiply : Decimal → Decimal → Decimal
  pub divide : Decimal → Decimal → Decimal
  pub inverse : Decimal → Decimal
  pub to_dp : Decimal → ℕ → Decimal
  pub multiply-one : (d : Decimal) → multiply d one ≡ d
  pub divide-one : (d : Decimal) → divide d one ≡ d

abbrev pub output_decimals : AmountType → ℕ
output_decimals wei = 0
output_decimals usd = 18
output_decimals bytes = 0

-- `mint`: `send` is the call of the contract with a value and overrides.
unfoldable pub mint :
    {X V W : Type 0}
    → (V → JsMap V → Result X W)
    → (streamr_overrides overrides : JsMap V) → V
    → Result X W
mint send streamr_overrides overrides amount =
    send amount (without_gas_price streamr_overrides overrides)

module _ (X : Type 0) (D : Decimals) where
  -- What the readonly contracts and the price service answer at the time of the call.
  pub record Answers : Type 0 where
    pub balance : Result X ℕ
    pub price : Result X ℕ
    pub matic_price : Result X D.Decimal

  abbrev pub get_balance : Answers → Result X ℕ
  get_balance a = a.balance

  abbrev pub get_price : Answers → Result X ℕ
  get_price a = a.price

  abbrev pub get_wei_per_usd : Answers → Result X D.Decimal
  get_wei_per_usd a = a.matic_price >>= λ usd_per_matic.
      ok (D.inverse (D.multiply usd_per_matic (D.of_text "1e-18")))

  abbrev pub get_wei_per_byte : Answers → Result X D.Decimal
  get_wei_per_byte a = a.price >>= λ wei_per_byte. ok (D.of_nat wei_per_byte)

  -- `getRatesToWei[type]()`
  abbrev pub rate_to_wei : Answers → AmountType → Result X D.Decimal
  rate_to_wei a wei = ok D.one
  rate_to_wei a usd = get_wei_per_usd a
  rate_to_wei a bytes = get_wei_per_byte a

  unfoldable pub convert : Answers → String → AmountType → AmountType → Result X String
  convert a amount from to = rate_to_wei a from >>= λ from_rate. rate_to_wei a to >>= λ to_rate.
      ok (
        D.to_text (
          D.to_dp (D.divide (D.multiply (D.of_text amount) from_rate) to_rate)
            (output_decimals to)))

  -- An amount in bytes costs in wei what the contract's price says, whatever a MATIC costs, and an
  -- amount in wei stays as it is but for its rounding.
  pub convert-to_wei :
      (a : Answers) (amount : String) (price : ℕ)
      → a.price ≡ ok price
      → (convert a amount bytes wei
          ≡ ok (D.to_text (D.to_dp (D.multiply (D.of_text amount) (D.of_nat price)) 0)))
        × (convert a amount wei wei ≡ ok (D.to_text (D.to_dp (D.of_text amount) 0)))
  unfolding convert
  convert-to_wei a amount price e = (
    rw e (ap (λ d. ok (D.to_text (D.to_dp d 0))) (D.divide-one _)),
    ap (λ d. ok (D.to_text (D.to_dp d 0))) (D.divide-one _ ∙ D.multiply-one _),
  )
