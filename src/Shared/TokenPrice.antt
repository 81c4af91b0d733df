-- ===== src/Shared/TokenPrice.antt =====
-- packages/shared/src/getTokenPrice.ts and convertFromUsd.ts: the price of a stake token in USD.
use logstore_archive.Base.{ℕ, String, ◌≡◌, refl, Bool, true, false, Option, none, some, str_eq}
use logstore_archive.Base.Result.{Result, ok, err, ◌>>=◌}
use logstore_archive.Shared.Managers.{
  SharedError, no_provider, type_error, thrown, Signer, Addresses, addresses_of,
}

-- `bigint | number`
pub data Amount : Type 0 where
  negative fraction : String → Amount
  whole : ℕ → Amount

-- The floating-point numbers of the language, ethers' conversions to and from them, the calls of a
-- token's contract and `redstone.getHistoricalPrice`.
pub record Prices (W X : Type 0) : Type 1 where
  pub Float : Type 0
  pub cent : Float
  pub of_amount : Amount → Float
  pub multiply : Float → Float → Float
  pub divide : Float → Float → Float
  -- `+formatEther(+n)`, and `parseUnits` of the text of a number
  pub of_ether : ℕ → Float
  pub parse_units : Float → (decimals : ℕ) → Result X ℕ
  pub symbol : W → (token : String) → Result X String
  pub decimals : W → (token : String) → Result X ℕ
  pub price : W → (token : String) → Result X ℕ
  pub get_historical_price : (symbol : String) → (date : ℕ) → Result X Float

abbrev pub lift : {X V : Type 0} → Result X V → Result (SharedError X) V
lift (ok v) = ok v
lift (err x) = err (thrown x)

module _ {W X : Type 0} (S : Prices W X) where
  abbrev pub get_matic_price : ℕ → Result (SharedError X) S.Float
  get_matic_price timestamp = lift (S.get_historical_price "MATIC" timestamp)

  -- The token of the Log Store has a price in wei for each byte; another is asked for at RedStone.
  abbrev price_at : W → String → ℕ → Bool → Result (SharedError X) S.Float
  price_at w token timestamp true = lift (S.price w token) >>= λ wei_per_byte.
      get_matic_price timestamp >>= λ matic. ok (S.multiply (S.of_ether wei_per_byte) matic)
  price_at w token timestamp false =
      lift (S.symbol w token) >>= λ symbol. lift (S.get_historical_price symbol timestamp)

  abbrev price_among : W → String → ℕ → Option Addresses → Result (SharedError X) S.Float
  price_among w token timestamp none = err type_error
  price_among w token timestamp (some a) =
      price_at w token timestamp (str_eq token a.token_manager_address)

  abbrev price_on : W → String → ℕ → Option ℕ → Result (SharedError X) S.Float
  price_on w token timestamp none = err no_provider
  price_on w token timestamp (some chain_id) = price_among w token timestamp (addresses_of chain_id)

  unfoldable pub get_token_price : W → String → ℕ → Signer → Result (SharedError X) S.Float
  get_token_price w token timestamp signer = price_on w token timestamp signer.chain_id

  -- `catch` keeps the price that was set before.
  abbrev or_cent : Result (SharedError X) S.Float → S.Float
  or_cent (ok price) = price
  or_cent (err e) = S.cent

  unfoldable pub convert_from_usd : W → String → Amount → Signer → ℕ → Result (SharedError X) ℕ
  convert_from_usd w token amount signer timestamp = lift (S.symbol w token) >>= λ symbol.
      lift (S.decimals w token) >>= λ decimals. lift (
        S.parse_units
          (S.divide (S.of_amount amount) (or_cent (get_token_price w token timestamp signer)))
          decimals)

  -- The price having failed in whatever way, the amount is converted at one cent for a token.
  pub convert_from_usd-no_price :
      (w : W) (token : String) (amount : Amount) (signer : Signer) (timestamp : ℕ) (symbol : String)
      (decimals : ℕ) (e : SharedError X)
      → S.symbol w token ≡ ok symbol
      → S.decimals w token ≡ ok decimals
      → get_token_price w token timestamp signer ≡ err e
      → convert_from_usd w token amount signer timestamp
        ≡ lift (S.parse_units (S.divide (S.of_amount amount) S.cent) decimals)
  unfolding convert_from_usd
  convert_from_usd-no_price w token amount signer timestamp symbol decimals e s d p =
      rw (s, d, p) refl
