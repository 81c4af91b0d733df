-- ===== src/Validator/Managers/Sources.antt =====
-- packages/validator/src/managers/Managers.ts: `withSources`, which asks each source and wants
-- one answer.
use logstore_archive.Base.{
  String, str_eq, ◌≡◌, refl, ap, ◌↔◌, ◌&&◌, true, Option, none, some, List, [], ◌∷◌, every, All,
  if◌then◌else◌, arith, eq_iff, Bool-cases, inl, inr, ◌∙◌,
}
use logstore_archive.Base.Result.{Result, ok, err, ◌>>=◌, Result-cases, >>=-eq-ok, err-ne-ok}

pub data SourcesFailure (E : Type 0) : Type 0 where
  failed : E → SourcesFailure E
  different_results : SourcesFailure E

-- `fn` on one source's managers, and `text`, the JSON text of a cleaned copy of a result.
abbrev lift : {E V : Type 0} → Result E V → Result (SourcesFailure E) V
lift (err e) = err (failed e)
lift (ok v) = ok v

module _ {M E T : Type 0} (fn : M → Result E T) (text : T → String) where
  -- `Promise.all`; of several failures one is reported
  unfoldable pub ask_all : List M → Result (SourcesFailure E) (List T)
  ask_all [] = ok []
  ask_all (m ∷ ms) = lift (fn m) >>= λ a. ask_all ms >>= λ rest. ok (a ∷ rest)

  -- `results[0]`, which is undefined where there is no source
  unfoldable pub agreed : List T → Result (SourcesFailure E) (Option T)
  agreed [] = ok none
  agreed (a ∷ rest) =
      if every (λ b. str_eq (text a) (text b)) rest then ok (some a) else err different_results

  unfoldable pub with_sources : List M → Result (SourcesFailure E) (Option T)
  with_sources ms = ask_all ms >>= agreed

  -- a source that answers with the text of `v`
  abbrev pub Answers : T → M → Type 0
  Answers v m = (w : T) × (fn m ≡ ok w) × (text v ≡ text w)

  All-of_ask_all :
      (v : T) (ms : List M) (ws : List T)
      → ask_all ms ≡ ok ws
      → every (λ b. str_eq (text v) (text b)) ws ≡ true
      → All (Answers v) ms
  unfolding ask_all
  All-of_ask_all v [] ws h k = tt
  All-of_ask_all v (m ∷ ms) ws h k = elim (Result-cases (fn m)) [
    | inl (a, here) ↦
        let (rest, more, same) = >>=-eq-ok (ask_all ms) (λ rest. ok (a ∷ rest)) (rw here at h) in
        let e : ws ≡ a ∷ rest = cc in
        let texts : (str_eq (text v) (text a) && every (λ b. str_eq (text v) (text b)) rest)
            ≡ true =
          rw e at k in
        (
          (a, here, ground (arith, eq_iff (text v) (text a))),
          All-of_ask_all v ms rest more (ground arith),
        )
    | inr (x, bad) ↦ absurd (err-ne-ok (rw bad at h))
  ]

  ask_all_of_All :
      (v : T) (ms : List M)
      → All (Answers v) ms
      → (ws : List T) × (ask_all ms ≡ ok ws) × (every (λ b. str_eq (text v) (text b)) ws ≡ true)
  unfolding ask_all
  ask_all_of_All v [] h = ([], refl, refl)
  ask_all_of_All v (m ∷ ms) ((w, here, same), more) =
      let (ws, asked, equal) = ask_all_of_All v ms more in
      (w ∷ ws, rw (here, asked) refl, ground (arith, eq_iff (text v) (text w)))

  first_agrees :
      (a : T) (rest : List T) (v : T)
      → agreed (a ∷ rest) ≡ ok (some v)
      → (a ≡ v) × (every (λ b. str_eq (text a) (text b)) rest ≡ true)
  unfolding agreed
  first_agrees a rest v h = elim (Bool-cases (every (λ b. str_eq (text a) (text b)) rest)) [
    | inl same ↦ let k = rw same at h in (cc, same)
    | inr other ↦ let k = rw other at h in absurd (err-ne-ok k)
  ]

  -- Of one source or more: the result is that of the first source, if it has one and each other
  -- source has one of the same text, with the providers left out of it; and there is no result otherwise.
  pub with_sources_iff :
      (m : M) (ms : List M) (v : T)
      → (with_sources (m ∷ ms) ≡ ok (some v)) ↔ (fn m ≡ ok v × All (Answers v) ms)
  unfolding with_sources ask_all agreed
  with_sources_iff m ms v = (
    λ h. elim (Result-cases (fn m)) [
      | inl (a, here) ↦
          let (ws, asked, checked) =
            >>=-eq-ok (ask_all ms >>= λ rest. ok (a ∷ rest)) agreed (rw here at h) in
          let (rest, more, same) = >>=-eq-ok (ask_all ms) (λ rest. ok (a ∷ rest)) asked in
          let e : ws ≡ a ∷ rest = cc in
          let (v_first, equal) = first_agrees a rest v (rw e at checked) in
          (here ∙ ap ok v_first, All-of_ask_all v ms rest more (rw v_first at equal))
      | inr (x, bad) ↦ absurd (err-ne-ok (rw bad at h))
    ],
    λ (here, more).
        let (ws, asked, equal) = ask_all_of_All v ms more in rw (here, asked, equal) refl,
  )
