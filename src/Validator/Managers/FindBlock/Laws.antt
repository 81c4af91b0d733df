-- ===== src/Validator/Managers/FindBlock/Laws.antt =====
-- What `findBlock` answers on a chain whose blocks have increasing times.
use logstore_archive.Base.{
  ℕ, zero, suc, ◌+◌, ◌-◌, ◌<◌, ◌≤◌, ◌≡◌, ◌≢◌, refl, arith, Option, none, some, ltb, ◌==◌,
  Bool-cases, inl, inr, ◌⊎◌, if◌then◌else◌, ◌||◌, not,
}
use logstore_archive.Base.Result.{ok, ◌>>=◌}
use logstore_archive.Validator.Managers.FindBlock.{
  ℤ, pos, clamp, id_below, search, narrow, find_block,
}

-- Blocks up to `latest`, each with a time after the block before it; a later block is null.
pub record Chain (block_time : ℤ → Option ℕ) (latest : ℕ) : Type 0 where
  pub time : ℕ → ℕ
  pub mined : (n : ℕ) → n ≤ latest → block_time (pos n) ≡ some (time n)
  pub increasing : (n m : ℕ) → n < m → m ≤ latest → time n < time m
  pub unmined : (n : ℕ) → latest < n → block_time (pos n) ≡ none

-- each block before `block` is before `ts`, and each block after it is after `ts`
pub record IsClosest (time : ℕ → ℕ) (latest ts block : ℕ) : Type 0 where
  pub exists_block : block ≤ latest
  pub before : (n : ℕ) → n < block → time n < ts
  pub after : (n : ℕ) → block < n → n ≤ latest → ts < time n

module _ (block_time : ℤ → Option ℕ) (interpolate : ℕ → ℕ → ℕ → ℕ → ℕ → Option ℤ) (latest : ℕ)
    (C : Chain block_time latest) where
  -- the quotient is a number where its denominator is not 0
  abbrev pub IsNumber : Type 0
  IsNumber =
      (ts min_id limit a b : ℕ) → a ≢ b → (g : ℤ) × (interpolate ts min_id limit a b ≡ some g)

  record IsRange (ts min_id limit : ℕ) : Type 0 where
    ordered : min_id ≤ limit
    some_below : 0 < limit
    mined_limit : limit ≤ latest + 1
    mined_min : min_id ≤ latest
    low : (n : ℕ) → n < min_id → C.time n < ts
    high : (n : ℕ) → limit ≤ n → n ≤ latest → ts < C.time n

  record IsProbe (min_id limit cur : ℕ) : Type 0 where
    from_min : min_id ≤ cur
    inside : min_id < limit → cur < limit
    at_end : min_id ≡ limit → cur ≡ min_id

  clamp-IsProbe :
      (min_id limit : ℕ) (g : ℤ) → 0 < limit → IsProbe min_id limit (clamp min_id limit g)
  clamp-IsProbe min_id limit (ℤ.negsuc g) p = record {
    from_min = ground arith;
    inside = ground arith;
    at_end = ground arith;
  }
  clamp-IsProbe min_id limit (pos g) p = record {
    from_min = ground arith;
    inside = ground arith;
    at_end = ground arith;
  }

  distinct : (n m : ℕ) → n ≤ latest → m ≤ latest → n ≢ m → C.time n ≢ C.time m
  distinct n m p q d = ground (arith, C.increasing n m, C.increasing m n)

  last_mined :
      (limit : ℕ)
      → 0 < limit
      → limit ≤ latest + 1
      → block_time (id_below limit) ≡ some (C.time (limit - 1))
  last_mined zero p q = absurd (ground arith)
  last_mined (suc n) p q = let e : suc n - 1 ≡ n = omega arith in rw e (C.mined n (ground arith))

  search-IsProbe :
      (ts min_id limit : ℕ)
      → IsNumber
      → IsRange ts min_id limit
      → limit ≢ min_id + 1
      → (c : ℕ) × (search block_time interpolate ts min_id limit ≡ ok (c, C.time c))
        × IsProbe min_id limit c
  unfolding search
  search-IsProbe ts min_id limit number r d =
      let first = C.mined min_id r.mined_min in
      let last = last_mined limit r.some_below r.mined_limit in
      let (g, guess) = number ts min_id limit (C.time min_id) (C.time (limit - 1)) (
        distinct min_id (limit - 1) r.mined_min (omega (arith, r.some_below, r.mined_limit))
          (omega (arith, r.some_below, d))) in
      let probe = clamp-IsProbe min_id limit g r.some_below in
      let found =
        C.mined (clamp min_id limit g)
          (ground (arith, probe.inside, probe.at_end, r.ordered, r.mined_limit, r.mined_min)) in
      (clamp min_id limit g, rw (first, last, guess, found) refl, probe)

  probe_mined :
      (ts min_id limit cur : ℕ) → IsRange ts min_id limit → IsProbe min_id limit cur → cur ≤ latest
  probe_mined ts min_id limit cur r p =
      ground (arith, p.inside, p.at_end, r.ordered, r.mined_limit, r.mined_min)

  stop_at_probe :
      (ts min_id limit cur : ℕ)
      → IsRange ts min_id limit
      → IsProbe min_id limit cur
      → (C.time cur ≡ ts) ⊎ (min_id ≡ limit)
      → IsClosest C.time latest ts cur
  stop_at_probe ts min_id limit cur r p (inl same) =
      let here = probe_mined ts min_id limit cur r p in
      record {
        exists_block = here;
        before = λ n le. ground (arith, C.increasing n cur);
        after = λ n le m. ground (arith, C.increasing cur n);
      }
  stop_at_probe ts min_id limit cur r p (inr empty) =
      let at_min = p.at_end empty in
      record {
        exists_block = probe_mined ts min_id limit cur r p;
        before = λ n le. r.low n (omega arith);
        after = λ n le m. r.high n (omega arith) m;
      }

  -- the range above a block that is too early, and below one that is too late
  IsRange-above :
      (ts min_id limit cur : ℕ)
      → ts ≤ C.time latest
      → IsRange ts min_id limit
      → cur < limit
      → C.time cur < ts
      → IsRange ts (cur + 1) limit
  IsRange-above ts min_id limit cur late r inside early =
      let mined = r.mined_limit in
      record {
        ordered = omega arith;
        some_below = r.some_below;
        mined_limit = r.mined_limit;
        mined_min = ground (arith, C.increasing latest cur);
        low = λ n le. ground (arith, C.increasing n cur);
        high = r.high;
      }

  IsRange-below :
      (ts min_id limit cur : ℕ)
      → C.time 0 ≤ ts
      → IsRange ts min_id limit
      → min_id ≤ cur
      → cur < limit
      → ts < C.time cur
      → IsRange ts min_id cur
  IsRange-below ts min_id limit cur early r from inside late =
      let mined = r.mined_limit in
      record {
        ordered = from;
        some_below = ground (arith);
        mined_limit = omega arith;
        mined_min = r.mined_min;
        low = r.low;
        high = λ n le m. ground (arith, C.increasing cur n);
      }

  -- one block is left
  stop_at_one :
      (ts min_id limit : ℕ)
      → IsRange ts min_id limit
      → limit ≡ min_id + 1
      → IsClosest C.time latest ts min_id
  stop_at_one ts min_id limit r one = record {
    exists_block = r.mined_min;
    before = r.low;
    after = λ n le m. r.high n (omega arith) m;
  }

  -- a turn of the loop that goes on with a narrower range
  narrow_turn :
      (fuel ts min_id limit : ℕ)
      → IsNumber
      → IsRange ts min_id limit
      → ((c : ℕ)
          → IsProbe min_id limit c
          → limit ≢ min_id + 1
          → (b : ℕ) × (narrow block_time interpolate fuel ts min_id limit (c, C.time c) ≡ ok b)
            × IsClosest C.time latest ts b)
      → (b : ℕ) × ((if limit == min_id + 1
            then ok min_id
            else search block_time interpolate ts min_id limit
              >>= narrow block_time interpolate fuel ts min_id limit)
          ≡ ok b)
        × IsClosest C.time latest ts b
  narrow_turn fuel ts min_id limit number r next = elim (Bool-cases (limit == min_id + 1)) [
    | inl one ↦ rw one (min_id, refl, stop_at_one ts min_id limit r (ground arith))
    | inr more ↦
        let d : limit ≢ min_id + 1 = ground arith in
        let (c, found, p) = search-IsProbe ts min_id limit number r d in
        rw (more, found) (next c p d)
  ]

  narrow-IsClosest :
      (fuel ts min_id limit cur : ℕ)
      → IsNumber
      → ts ≤ C.time latest
      → C.time 0 ≤ ts
      → IsRange ts min_id limit
      → IsProbe min_id limit cur
      → limit ≢ min_id + 1
      → limit < min_id + fuel
      → (b : ℕ) × (narrow block_time interpolate fuel ts min_id limit (cur, C.time cur) ≡ ok b)
        × IsClosest C.time latest ts b
  unfolding narrow
  narrow-IsClosest zero ts min_id limit cur number late early r p d enough =
      let o = r.ordered in absurd (omega arith)
  narrow-IsClosest (suc fuel) ts min_id limit cur number late early r p d enough =
      elim (Bool-cases (C.time cur == ts || not (ltb (min_id + 1) limit))) [
        | inl stop ↦
            let o = r.ordered in
            rw stop (cur, refl, stop_at_probe ts min_id limit cur r p (ground arith))
        | inr go ↦
            let inside = p.inside (ground arith) in
            elim (Bool-cases (ltb (C.time cur) ts)) [
              | inl before ↦
                  let above = IsRange-above ts min_id limit cur late r inside (ground arith) in
                  let shrinks : limit < cur + 1 + fuel = let f = p.from_min in omega arith in
                  rw (go, before)
                    (narrow_turn fuel ts (cur + 1) limit number above λ c q d.
                      narrow-IsClosest fuel ts (cur + 1) limit c number late early above q d
                        shrinks)
              | inr after ↦
                  let below =
                    IsRange-below ts min_id limit cur early r p.from_min inside (ground arith) in
                  let shrinks : cur < min_id + fuel = omega arith in
                  rw (go, after)
                    (narrow_turn fuel ts min_id cur number below λ c q d.
                      narrow-IsClosest fuel ts min_id cur c number late early below q d shrinks)
            ]
      ]

  -- On a chain of two blocks or more, whose times increase, `findBlock` of a time between the
  -- first and the last block's ends and gives a block such that each block before it is before
  -- that time and each block after it is after: the block of that time, if there is one. The
  -- interpolation may be any number; that the loop makes at most as many turns as the chain has
  -- blocks, and one, is part of this.
  pub find_block-IsClosest :
      (ts : ℕ)
      → IsNumber
      → 0 < latest
      → C.time 0 ≤ ts
      → ts ≤ C.time latest
      → (b : ℕ) × (find_block block_time interpolate latest ts ≡ ok b)
        × IsClosest C.time latest ts b
  unfolding find_block
  find_block-IsClosest ts number two early late =
      let r : IsRange ts 0 (latest + 1) = record {
        ordered = omega arith;
        some_below = omega arith;
        mined_limit = omega arith;
        mined_min = omega arith;
        low = λ n le. absurd (omega arith);
        high = λ n le m. absurd (omega arith);
      } in
      let d : latest + 1 ≢ 0 + 1 = λ e. omega arith in
      let (c, found, p) = search-IsProbe ts 0 (latest + 1) number r d in
      rw found
        (narrow-IsClosest (latest + 2) ts 0 (latest + 1) c number late early r p d (omega arith))
