-- ===== src/Client/Indexing/Laws.antt =====
-- packages/client/src/utils/SynchronizedGraphQLClient.ts: no gate is left alone.
use mathlib.Core.Path.{subst}
use logstore_archive.Base.{
  sym, ap, ℕ, ◌+◌, ◌-◌, ◌≤◌, ◌<◌, ◌==◌, leb, leb→le, ◌≡◌, refl, ◌⊎◌, inl, inr, List, [], ◌∷◌, Bool,
  true, false, not, All, keep, Bool-cases, arith,
}
use logstore_archive.Client.Indexing.{
  BlockNumberGate, IndexingState, new_indexing_state, start_polling, get_or_create_gate, time_out,
  opened_by, left_by, answered, rest_unless_done, ask_unless_done, rested, Step, waits, times_out,
  answers, rests, Run, start, next,
}

-- Where a gate is waited for, a loop polls for it, and its block is not yet there.
unfoldable pub IsPolled : IndexingState → Type 0
IsPolled s =
    ((s.gates ≡ []) ⊎ (1 ≤ s.asking + s.resting))
    × All (λ g. s.block_number < g.block_number) s.gates

leb-false : (a b : ℕ) → leb a b ≡ false → b < a
leb-false a b h = ground (arith, h)

==-true : (a b : ℕ) → (a == b) ≡ true → a ≡ b
==-true a b h = ground (arith, h)

All-keep : {A : Type 0} (P : A → Type 0) (p : A → Bool) (xs : List A) → All P xs → All P (keep p xs)
All-keep P p [] h = tt
All-keep P p (x ∷ xs) (h, k) = elim (Bool-cases (p x)) [
  | inl e ↦ rw e (h, All-keep P p xs k)
  | inr e ↦ rw e (All-keep P p xs k)
]

opened-le :
    (n : ℕ) (gates : List BlockNumberGate) → All (λ g. g.block_number ≤ n) (opened_by n gates)
opened-le n [] = tt
opened-le n (g ∷ gates) = elim (Bool-cases (leb g.block_number n)) [
  | inl e ↦ rw e (leb→le g.block_number n e, opened-le n gates)
  | inr e ↦ rw e (opened-le n gates)
]

-- A gate is opened only when its block has been read.
answered-opened : (n : ℕ) (s : IndexingState) → All (λ g. g.block_number ≤ n) (answered n s).0
unfolding answered
answered-opened n s = elim (Bool-cases (n == s.block_number)) [
  | inl e ↦ rw e tt
  | inr e ↦ rw e (opened-le n s.gates)
]

left-later :
    (n : ℕ) (gates : List BlockNumberGate) → All (λ g. n < g.block_number) (left_by n gates)
left-later n [] = tt
left-later n (g ∷ gates) = elim (Bool-cases (leb g.block_number n)) [
  | inl e ↦ rw e (left-later n gates)
  | inr e ↦ rw e (leb-false g.block_number n e, left-later n gates)
]

polled_start :
    (gates : List BlockNumberGate) (asking resting : ℕ)
    → (gates ≡ []) ⊎ (1 ≤ asking + resting)
    → 1 ≤ start_polling gates asking + resting
polled_start [] asking resting h = omega arith
polled_start (g ∷ gs) asking resting (inl e) = absurd (cc e)
polled_start (g ∷ gs) asking resting (inr k) = k

polled_rest :
    (left : List BlockNumberGate) (asking resting : ℕ)
    → (left ≡ []) ⊎ (1 ≤ asking + rest_unless_done left resting)
polled_rest [] asking resting = inl refl
polled_rest (g ∷ gs) asking resting = inr (omega arith)

polled_ask :
    (gates : List BlockNumberGate) (asking resting : ℕ)
    → (gates ≡ []) ⊎ (1 ≤ ask_unless_done gates asking + resting)
polled_ask [] asking resting = inl refl
polled_ask (g ∷ gs) asking resting = inr (omega arith)

kept_none :
    (p : BlockNumberGate → Bool) (gates : List BlockNumberGate) → gates ≡ [] → keep p gates ≡ []
kept_none p gates e = ap (keep p) e

waits-IsPolled :
    (g : BlockNumberGate) (s : IndexingState) → IsPolled s → IsPolled (get_or_create_gate g s).1
unfolding get_or_create_gate IsPolled
waits-IsPolled g s (polled, later) = elim (Bool-cases (leb g.block_number s.block_number)) [
  | inl e ↦ rw e (polled, later)
  | inr e ↦ rw e (
    inr (polled_start s.gates s.asking s.resting polled),
    (leb-false g.block_number s.block_number e, later),
  )
]

times_out-IsPolled : (id : ℕ) (s : IndexingState) → IsPolled s → IsPolled (time_out id s)
unfolding time_out IsPolled
times_out-IsPolled id s (inl e, later) =
    (inl (kept_none (λ g. not (g.id == id)) s.gates e), All-keep _ _ s.gates later)
times_out-IsPolled id s (inr k, later) = (inr k, All-keep _ _ s.gates later)

answers-IsPolled : (n : ℕ) (s : IndexingState) → IsPolled s → IsPolled (answered n s).1
unfolding answered IsPolled
answers-IsPolled n s (polled, later) = elim (Bool-cases (n == s.block_number)) [
  | inl e ↦ rw e (
    polled_rest s.gates (s.asking - 1) s.resting,
    subst (λ b. All (λ g. b < g.block_number) s.gates) (sym (==-true n s.block_number e)) later,
  )
  | inr e ↦ rw e (polled_rest (left_by n s.gates) (s.asking - 1) s.resting, left-later n s.gates)
]

rests-IsPolled : (s : IndexingState) → IsPolled s → IsPolled (rested s)
unfolding rested IsPolled
rests-IsPolled s (polled, later) = (polled_ask s.gates s.asking (s.resting - 1), later)

step-IsPolled : (s t : IndexingState) → Step s t → IsPolled s → IsPolled t
step-IsPolled _ _ (waits g s) h = waits-IsPolled g s h
step-IsPolled _ _ (times_out id s) h = times_out-IsPolled id s h
step-IsPolled _ _ (answers n s k) h = answers-IsPolled n s h
step-IsPolled _ _ (rests s k) h = rests-IsPolled s h

from_start : (s t : IndexingState) → Run s t → IsPolled s → IsPolled t
from_start _ _ (start s) h = h
from_start _ _ (next s t u run step) h = step-IsPolled t u step (from_start s t run h)

-- As long as no request for the number of the block fails, whatever order gates, times and answers
-- come in: where a gate is waited for, a loop polls for it, and its block is later than the last one
-- that was seen.
pub run-IsPolled : (s : IndexingState) → Run new_indexing_state s → IsPolled s
run-IsPolled s run = from_start new_indexing_state s run (unfold IsPolled in (inl refl, tt))
