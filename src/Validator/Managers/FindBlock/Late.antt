-- ===== src/Validator/Managers/FindBlock/Late.antt =====
-- What `findBlock` answers for a time after the last block.
use logstore_archive.Base.{
  ℕ, suc, true, false, not, ◌||◌, ◌+◌, ◌<◌, ◌≤◌, ◌≡◌, refl, arith, Option, some, ltb, ◌==◌,
}
use logstore_archive.Base.Result.{ok, err}
use logstore_archive.Validator.Managers.FindBlock.{
  id_below, ℤ, pos, search, narrow, find_block, no_block, clamp,
}
use logstore_archive.Validator.Managers.FindBlock.Laws.{Chain}

module _ (block_time : ℤ → Option ℕ) (interpolate : ℕ → ℕ → ℕ → ℕ → ℕ → Option ℤ) (latest : ℕ)
    (C : Chain block_time latest) where
  -- for a time past the range's last block the interpolation is that block or further
  abbrev pub IsExtrapolation : Type 0
  IsExtrapolation =
      (ts min_id limit a b : ℕ)
      → a < b
      → b < ts
      → (g : ℕ) × (interpolate ts min_id limit a b ≡ some (pos g)) × (limit ≤ g + 1)

  id_below_lem : (n : ℕ) → id_below (n + 1) ≡ pos n
  id_below_lem n = let e : n + 1 ≡ suc n = omega arith in rw e refl

  search-last :
      (ts : ℕ)
      → IsExtrapolation
      → 0 < latest
      → C.time latest < ts
      → search block_time interpolate ts 0 (latest + 1) ≡ ok (latest, C.time latest)
  unfolding search
  search-last ts ext two late =
      let first = C.mined 0 (omega arith) in
      let last = C.mined latest (omega arith) in
      let below = id_below_lem latest in
      let up = C.increasing 0 latest two (omega arith) in
      let (g, guess, far) = ext ts 0 (latest + 1) (C.time 0) (C.time latest) up late in
      let at_end : clamp 0 (latest + 1) (pos g) ≡ latest = ground arith in
      rw (below, first, last, guess, at_end, last) refl

  search-past : (ts : ℕ) → search block_time interpolate ts (latest + 1) (latest + 1) ≡ err no_block
  unfolding search
  search-past ts = let next = C.unmined (latest + 1) (omega arith) in rw next refl

  narrow-past :
      (fuel ts : ℕ)
      → 0 < latest
      → C.time latest < ts
      → narrow block_time interpolate (suc fuel) ts 0 (latest + 1) (latest, C.time latest)
        ≡ err no_block
  unfolding narrow
  narrow-past fuel ts two late =
      let go : (C.time latest == ts || not (ltb (0 + 1) (latest + 1))) ≡ false = ground arith in
      let before : ltb (C.time latest) ts ≡ true = ground arith in
      let more : (latest + 1 == latest + 1 + 1) ≡ false = ground arith in
      rw (go, before, more, search-past ts) refl

  -- On a chain of two blocks or more, whose times increase, `findBlock` of a time after the last
  -- block's fails, if the interpolation then gives the last block or one further: it asks for the
  -- block after the last one, and reads a property of null.
  pub find_block-no_block :
      (ts : ℕ)
      → IsExtrapolation
      → 0 < latest
      → C.time latest < ts
      → find_block block_time interpolate latest ts ≡ err no_block
  unfolding find_block
  find_block-no_block ts ext two late =
      let e : latest + 2 ≡ suc (latest + 1) = omega arith in
      rw (search-last ts ext two late, e) (narrow-past (latest + 1) ts two late)
