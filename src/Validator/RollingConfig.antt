-- ===== src/Validator/RollingConfig.antt =====
-- packages/validator/src/shared/rollingConfig.ts, `nextKey` of runtime.ts and the range of
-- `generate` of core/item.ts.
use logstore_archive.Base.{ℕ, ◌+◌, ltb, if◌then◌else◌, ◌≡◌, arith, ◌-◌, ◌≤◌}

-- `Date.parse` of a text with no zone reads it in the zone of the process, so the two instants
-- (in seconds) are parameters.
pub record Switches : Type 0 where
  pub to_ten : ℕ
  pub to_twenty : ℕ

module _ (sw : Switches) where
  -- `new RollingConfig(key).keyStep`
  unfoldable pub key_step : ℕ → ℕ
  key_step key = if ltb sw.to_twenty key then 20 else if ltb sw.to_ten key then 10 else 1

  -- `rollingConfig(key).prev.keyStep`
  unfoldable pub prev_step : ℕ → ℕ
  prev_step key = key_step (key - key_step key)

  -- `nextKey` past the start key
  unfoldable pub next_key : ℕ → ℕ
  next_key key = key + key_step key

  -- The range of an item starts, where the prior step puts it, at the key before its own: from one
  -- key to the next no second is left out and none is taken twice, also at the two switches, if
  -- these are at least twenty seconds apart and the first is not before second 10.
  pub next_key_from :
      (key : ℕ)
      → sw.to_ten + 20 ≤ sw.to_twenty
      → 10 ≤ sw.to_ten
      → next_key key - prev_step (next_key key) ≡ key
  unfolding next_key prev_step key_step
  next_key_from key h k = ground arith
