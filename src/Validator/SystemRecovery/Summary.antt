-- ===== src/Validator/SystemRecovery/Summary.antt =====
-- The summary of the recovery, from which the next call's `from` and the end are read.
use logstore_archive.Base.{
  ℕ, ◌≤◌, String, ◌≡◌, refl, Bool, true, false, ◌&&◌, Option, none, some, [], ◌∷◌, arith, min,
  every, Bool-cases, inl, inr,
}
use logstore_archive.Base.JsMap
use logstore_archive.Base.JsMap.{JsMap}
use logstore_archive.Validator.SystemRecovery.{
  RecoveryProgress, max_safe_integer, summarize, summary, or_zero,
}

abbrev pub known : Option ℕ → Bool
known none = false
known (some t) = true

-- a broker that has sent its RecoveryComplete
abbrev pub is_done : String × RecoveryProgress → Bool
is_done (k, p) = known p.timestamp && p.is_complete

abbrev pub is_done_fulfilled : String × RecoveryProgress → Bool
is_done_fulfilled (k, p) = known p.timestamp && p.is_complete && p.is_fulfilled

abbrev pub not_empty : JsMap RecoveryProgress → Bool
not_empty [] = false
not_empty (_ ∷ _) = true

summarize-incomplete :
    (t : ℕ) (c f : Bool) (m : JsMap RecoveryProgress)
    → c ≡ false
    → (summarize t c f m).is_complete ≡ false
unfolding summarize
summarize-incomplete t c f [] e = e
summarize-incomplete t c f ((k, p) ∷ m) e = ground (
  arith,
  summarize-incomplete (min t (or_zero p.timestamp)) (c && p.is_complete) (f && p.is_fulfilled) m,
)

summarize-is_complete :
    (t : ℕ) (c f : Bool) (m : JsMap RecoveryProgress)
    → (c ≡ true)
    → (summarize t c f m).is_complete ≡ every is_done m
unfolding summarize
summarize-is_complete t c f [] e = e
summarize-is_complete t c f ((k, p) ∷ m) e = elim (Bool-cases p.is_complete) [
  | inl done ↦ ground (
    arith,
    summarize-is_complete (min t (or_zero p.timestamp)) (c && p.is_complete) (f && p.is_fulfilled)
        m,
  )
  | inr open_ ↦ ground (
    arith,
    summarize-incomplete (min t (or_zero p.timestamp)) (c && p.is_complete) (f && p.is_fulfilled) m,
  )
]

-- The recovery is complete exactly if a broker is known and every known broker has completed.
pub summary-is_complete :
    (m : JsMap RecoveryProgress) → (summary m).is_complete ≡ (not_empty m && every is_done m)
unfolding summary
summary-is_complete [] = refl
summary-is_complete (e ∷ m) = summarize-is_complete max_safe_integer true true (e ∷ m) refl

summarize-le :
    (t u : ℕ) (c f : Bool) (m : JsMap RecoveryProgress)
    → (summarize t c f m).timestamp ≡ some u
    → u ≤ t
unfolding summarize
summarize-le t u c f [] h = ground arith
summarize-le t u c f ((k, p) ∷ m) h = ground (
  arith,
  summarize-le (min t (or_zero p.timestamp)) u (c && p.is_complete) (f && p.is_fulfilled) m,
)

summarize-le-progress :
    (t u v : ℕ) (c f : Bool) (m : JsMap RecoveryProgress) (broker : String) (p : RecoveryProgress)
    → (summarize t c f m).timestamp ≡ some u
    → JsMap.get m broker ≡ some p
    → p.timestamp ≡ some v
    → u ≤ v
unfolding summarize JsMap.get
summarize-le-progress t u v c f [] broker p h g e = cc
summarize-le-progress t u v c f ((k, q) ∷ m) broker p h g e = ground (
  arith,
  summarize-le (min t (or_zero q.timestamp)) u (c && q.is_complete) (f && q.is_fulfilled) m,
  summarize-le-progress (min t (or_zero q.timestamp)) u v (c && q.is_complete) (f && q.is_fulfilled)
      m broker p,
)

-- The timestamp of the summary, from which the next round starts, lies past the progress of no
-- broker, where both are known.
pub summary-le-progress :
    (m : JsMap RecoveryProgress) (broker : String) (p : RecoveryProgress) (u v : ℕ)
    → (summary m).timestamp ≡ some u
    → JsMap.get m broker ≡ some p
    → p.timestamp ≡ some v
    → u ≤ v
unfolding summary
summary-le-progress [] broker p u v h g e = cc
summary-le-progress (x ∷ m) broker p u v h g e =
    summarize-le-progress max_safe_integer u v true true (x ∷ m) broker p h g e
