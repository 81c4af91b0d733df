-- ===== src/Validator/Managers/FindBlock.antt =====
-- packages/validator/src/managers/Managers.ts: `findBlock`, the search for a block by its time.
pub mod Laws
pub mod Late
use logstore_archive.Base.{
  ℕ, zero, suc, ◌+◌, ◌-◌, ◌<◌, ◌≤◌, min, max, ◌==◌, ltb, if◌then◌else◌, Bool, not, ◌||◌, Option,
  none, some,
}
use logstore_archive.Base.Result.{Result, ok, err, ◌>>=◌}

pub data ℤ : Type 0 where
  pos : ℕ → ℤ
  negsuc : ℕ → ℤ

-- `no_block`: a property of null is read; `bad_number`: a block is asked for by NaN.
-- `out_of_fuel` is the model's own.
pub data FindFailure : Type 0 where
  no_block : FindFailure
  bad_number : FindFailure
  out_of_fuel : FindFailure

-- `maxId`, which may be -1, is one less than `limit`
abbrev pub id_below : ℕ → ℤ
id_below zero = negsuc 0
id_below (suc n) = pos n

-- `Math.max(Math.min(curId, maxId), minId)`
abbrev pub clamp : ℕ → ℕ → ℤ → ℕ
clamp min_id limit (negsuc g) = min_id
clamp min_id limit (pos g) = max (min g (limit - 1)) min_id

abbrev or_no_block : Option ℕ → Result FindFailure ℕ
or_no_block none = err no_block
or_no_block (some t) = ok t

abbrev or_bad_number : Option ℤ → Result FindFailure ℤ
or_bad_number none = err bad_number
or_bad_number (some g) = ok g

-- `block_time` is `provider.getBlock(id)?.timestamp`. `interpolate` is the floating-point formula
-- on `ts`, `minId`, `maxId + 1`, `minTs` and `maxTs`, and none where that is not a number.
module _ (block_time : ℤ → Option ℕ) (interpolate : ℕ → ℕ → ℕ → ℕ → ℕ → Option ℤ) where
  -- `curId` and `curTs`
  unfoldable pub search : ℕ → ℕ → ℕ → Result FindFailure (ℕ × ℕ)
  search ts min_id limit = or_no_block (block_time (pos min_id)) >>= λ min_ts.
      or_no_block (block_time (id_below limit)) >>= λ max_ts.
      or_bad_number (interpolate ts min_id limit min_ts max_ts) >>= λ guess.
      let cur = clamp min_id limit guess in
      or_no_block (block_time (pos cur)) >>= λ cur_ts. ok (cur, cur_ts)

  -- the loop, after a search
  unfoldable pub narrow : ℕ → ℕ → ℕ → ℕ → ℕ × ℕ → Result FindFailure ℕ
  narrow zero ts min_id limit at = err out_of_fuel
  narrow (suc fuel) ts min_id limit (cur, cur_ts) =
      let min_next = if ltb cur_ts ts then cur + 1 else min_id in
      let limit_next = if ltb cur_ts ts then limit else cur in
      let rest = search ts min_next limit_next >>= narrow fuel ts min_next limit_next in
      if (cur_ts == ts) || not (ltb (min_id + 1) limit)
      then ok cur
      else if limit_next == min_next + 1
      then ok min_next
      else rest

  -- `latest` is `provider.getBlockNumber()`
  unfoldable pub find_block : ℕ → ℕ → Result FindFailure ℕ
  find_block latest ts = search ts 0 (latest + 1) >>= narrow (latest + 2) ts 0 (latest + 1)
