-- ===== src/Shared/Retry.antt =====
-- packages/shared/src/withRetry.ts: sending a transaction until its price is accepted.
use logstore_archive.Base.{
  ℕ, zero, suc, ◌+◌, ◌*◌, ◌<◌, ◌≤◌, ◌≡◌, ◌≢◌, refl, Option, none, some, List, [], ◌∷◌, arith,
}

-- what a try ends with; `underpriced` is a message that the regular expression matches
pub data Outcome (Tx X : Type 0) : Type 0 where
  sent : Tx → Outcome Tx X
  underpriced : Outcome Tx X
  thrown : X → Outcome Tx X

-- a try's part in the loop's result
abbrev settle :
    {Price Tx X : Type 0}
    → Price
    → Outcome Tx X
    → List Price × Option (Outcome Tx X)
    → List Price × Option (Outcome Tx X)
settle price (sent tx) rest = (price ∷ [], some (sent tx))
settle price underpriced rest = (price ∷ rest.0, rest.1)
settle price (thrown x) rest = (price ∷ [], some (thrown x))

settle_stop :
    {Price Tx X : Type 0} (price : Price) (o : Outcome Tx X)
    (rest : List Price × Option (Outcome Tx X))
    → o ≢ underpriced
    → settle price o rest ≡ (price ∷ [], some o)
settle_stop price (sent tx) rest h = refl
settle_stop price underpriced rest h = absurd (h refl)
settle_stop price (thrown x) rest h = refl

module _ {Price Tx X : Type 0} (add : Price → ℕ → Price) where
  -- `gas_price` is `provider.getGasPrice()`, by how often it was asked, and `fn` a try at a price, by
  -- how many were made. The sum is dropped, as the source drops it.
  module _ (gas_price : ℕ → Price) (fn : ℕ → Price → Outcome Tx X) where
    -- the loop from a number of retries, with an estimate; the tries that it makes, by their
    -- prices, and how it ends, which is none where fuel runs out
    unfoldable pub retry : ℕ → ℕ → Price → List Price × Option (Outcome Tx X)
    retry zero count estimate = ([], none)
    retry (suc fuel) count estimate =
        let next = gas_price (suc count) in
        let bumped = add next (100000 * suc count) in
        let rest = retry fuel (suc count) next in settle estimate (fn count estimate) rest

    -- the provider's prices of a number of tries, and one
    abbrev pub prices : ℕ → ℕ → List Price
    prices count zero = gas_price count ∷ []
    prices count (suc more) = gas_price count ∷ prices (suc count) more

    retry_from :
        (more count last fuel : ℕ)
        → count + more ≡ last
        → ((i : ℕ) → count ≤ i → i < last → fn i (gas_price i) ≡ underpriced)
        → fn last (gas_price last) ≢ underpriced
        → more < fuel
        → retry fuel count (gas_price count) ≡ (prices count more, some (fn last (gas_price last)))
    unfolding retry
    retry_from more count last zero e low stop lt = absurd (omega arith)
    retry_from zero count last (suc fuel) e low stop lt =
        let same : count ≡ last = omega arith in
        rw same (settle_stop (gas_price last) (fn last (gas_price last)) _ stop)
    retry_from (suc more) count last (suc fuel) e low stop lt =
        let first = low count (omega arith) (omega arith) in
        let next =
          retry_from more (suc count) last fuel (omega arith)
            (λ i le less. low i (omega arith) less) stop (omega arith) in
        rw (first, next) refl

    -- If a number of tries are underpriced, each at the price that the provider names before it, and
    -- the next one is not, then the loop ends as that one does, after exactly these tries; and
    -- no try was made at another price than the provider's, whatever is added to it.
    pub retry_lem :
        (more fuel : ℕ)
        → ((i : ℕ) → i < more → fn i (gas_price i) ≡ underpriced)
        → fn more (gas_price more) ≢ underpriced
        → more < fuel
        → retry fuel 0 (gas_price 0) ≡ (prices 0 more, some (fn more (gas_price more)))
    retry_lem more fuel low stop lt =
        retry_from more 0 more fuel (omega arith) (λ i le less. low i less) stop lt
