-- ===== src/Validator/Metrics.antt =====
-- packages/validator/src/shared/MessageMetrics.ts and MessageMetricsSummary.ts.
use logstore_archive.Base.{
  ℕ, ◌+◌, ◌-◌, ◌<◌, String, ◌≡◌, refl, Option, none, some, List, [], ◌∷◌, arith, ltb, ◌==◌,
  if◌then◌else◌,
}
use logstore_archive.Base.JsMap
use logstore_archive.Base.JsMap.{JsMap}

pub record Metrics : Type 0 where
  pub seq_nums : JsMap ℕ
  pub bytes : ℕ
  pub count : ℕ
  pub lost : ℕ

abbrev pub new_metrics : Metrics
new_metrics = record { seq_nums = []; bytes = 0; count = 0; lost = 0 }

-- What one message adds to `lost`: `if (prevSeqNum)` is false of `undefined` and of 0.
unfoldable pub lost_since : Option ℕ → ℕ → ℕ
lost_since none seq_num = 0
lost_since (some prev) seq_num =
    if prev == 0 then 0 else if ltb (prev + 1) seq_num then seq_num - prev - 1 else 0

unfoldable pub update : Metrics → String → ℕ → ℕ → Metrics
unfolding lost_since
update m publisher_id seq_num bytes = record m {
  bytes = m.bytes + bytes;
  count = m.count + 1;
  lost = m.lost + lost_since (JsMap.get m.seq_nums publisher_id) seq_num;
  seq_nums = JsMap.set m.seq_nums publisher_id seq_num;
}

-- The messages of one publisher, in the order of arrival.
unfoldable pub update_all : Metrics → String → List ℕ → ℕ → Metrics
update_all m publisher_id [] bytes = m
update_all m publisher_id (s ∷ seq_nums) bytes =
    update_all (update m publisher_id s bytes) publisher_id seq_nums bytes

abbrev pub Ascends : ℕ → List ℕ → Type 0
Ascends prev [] = Unit {0}
Ascends prev (s ∷ seq_nums) = (prev < s) × Ascends s seq_nums

abbrev pub last_of : ℕ → List ℕ → ℕ
last_of prev [] = prev
last_of prev (s ∷ seq_nums) = last_of s seq_nums

pub get-update :
    (m : Metrics) (p : String) (s b : ℕ) → JsMap.get (update m p s b).seq_nums p ≡ some s
unfolding update
get-update m p s b = JsMap.get-set_self m.seq_nums p s

lost_plus_count :
    (m : Metrics) (p : String) (prev s b : ℕ)
    → JsMap.get m.seq_nums p ≡ some prev
    → 0 < prev
    → prev < s
    → (update m p s b).lost + (update m p s b).count + prev ≡ m.lost + m.count + s
unfolding update
lost_plus_count m p prev s b e h k = ground arith

-- A publisher whose last number was `prev`, not 0, sends ascending numbers: what was counted and
-- what was lost add up to the distance from `prev` to the last number.
pub update_all_accounts :
    (m : Metrics) (publisher_id : String) (prev : ℕ) (seq_nums : List ℕ) (bytes : ℕ)
    → JsMap.get m.seq_nums publisher_id ≡ some prev
    → 0 < prev
    → Ascends prev seq_nums
    → (update_all m publisher_id seq_nums bytes).lost
        + (update_all m publisher_id seq_nums bytes).count
        + prev
      ≡ m.lost + m.count + last_of prev seq_nums
unfolding update_all
update_all_accounts m p prev [] b e h a = refl
update_all_accounts m p prev (s ∷ ss) b e h a = ground (
  arith,
  lost_plus_count m p prev s b e h a.0,
  update_all_accounts (update m p s b) p s ss b (get-update m p s b) (omega arith) a.1,
)
