-- ===== src/Cli/ErrorTypes.antt =====
-- packages/cli/src/utils/errors/compose.ts: filters on errors, and the type of an error by them.
use logstore_archive.Base.{
  String, ◌≡◌, refl, ◌↔◌, ◌⊎◌, Bool-cases, Bool, true, false, Option, none, some, List, [], ◌∷◌,
  map, All, if◌then◌else◌, inl, inr,
}
use logstore_archive.Base.Result.{Result, ok, err, ◌>>=◌, Result-cases, err-ne-ok}

-- `no_elements` is the `EmptyError` of rxjs.
pub data FilterFailure (X : Type 0) : Type 0 where
  thrown : X → FilterFailure X
  no_elements : FilterFailure X

abbrev pub Filter : Type 0 → Type 0 → Type 0
Filter X Context = Context → Result (FilterFailure X) Bool

module _ {X : Type 0} where
  -- `defer(...).pipe(first(Boolean), map(() => type))` of rxjs: the type, if the filter answers yes,
  -- and an error where nothing passes `first`.
  abbrev pub type_if_first :
      String → Result (FilterFailure X) Bool → Result (FilterFailure X) (Option String)
  type_if_first type (err x) = err x
  type_if_first type (ok true) = ok (some type)
  type_if_first type (ok false) = err no_elements

module _ {Context : Type 0} where
  only_first :
      (type : String) (test : Context → Bool) (rest : List (String × (Context → Bool)))
      (e : Context)
      → test e ≡ false
      → ¬ (
          ((type, test) ∷ rest ≡ [])
          ⊎ ((t : String) × (first : Context → Bool) × (more : List (String × (Context → Bool)))
              × ((type, test) ∷ rest ≡ (t, first) ∷ more)
              × (first e ≡ true)))
  only_first type test rest e other (inl h) = cc
  only_first type test rest e other (inr (t, first, more, same, says)) =
      let here : test ≡ first = cc in let k : test e ≡ true = rw here says in cc

  -- what the comments say of `getErrorType`: the type of the first filter that matches
  abbrev pub matching : List (String × (Context → Bool)) → Context → Option String
  matching [] e = none
  matching ((type, test) ∷ rest) e = if test e then some type else matching rest e

module _ {X Context : Type 0} where
  -- `and` and `or`, which ask the functions one after another
  unfoldable pub and : List (Filter X Context) → Filter X Context
  and [] c = ok true
  and (f ∷ fs) c = let rest = and fs c in f c >>= λ yes. if yes then rest else ok false

  unfoldable pub or : List (Filter X Context) → Filter X Context
  or [] c = ok false
  or (f ∷ fs) c = let rest = or fs c in f c >>= λ yes. if yes then ok true else rest

  -- `firstValueFrom` of `concatMap`: an observable that gives no value and does not fail is
  -- followed by the next, and there is none such
  unfoldable pub get_error_type :
      List (String × Filter X Context) → Context → Result (FilterFailure X) (Option String)
  get_error_type [] e = ok none
  get_error_type ((type, filter) ∷ rest) e = type_if_first type (filter e)

  -- `and` says yes exactly where every function does.
  and_iff :
      (fs : List (Filter X Context)) (c : Context)
      → (and fs c ≡ ok true) ↔ All (λ f. f c ≡ ok true) fs
  unfolding and
  and_iff [] c = (λ h. tt, λ h. refl)
  and_iff (f ∷ fs) c = elim (Result-cases (f c)) [
    | inl (true, here) ↦ rw here (λ h. (refl, (and_iff fs c).0 h), λ h. (and_iff fs c).1 (h.1))
    | inl (false, here) ↦ rw here (λ h. absurd (cc), λ h. absurd (let k = h.0 in cc))
    | inr (x, bad) ↦ rw bad (λ h. absurd cc, λ h. absurd (let k = h.0 in cc))
  ]

  abbrev pub of_test : String × (Context → Bool) → String × Filter X Context
  of_test (type, test) = (type, λ e. ok (test e))

  -- With filters that do not throw, `getErrorType` gives the type of the first filter that matches,
  -- or undefined where none does, only if there is no filter at all or the very first one
  -- matches.
  pub get_error_type_iff :
      (tests : List (String × (Context → Bool))) (e : Context)
      → (get_error_type (map of_test tests) e ≡ ok (matching tests e)) ↔ (
          (tests ≡ [])
          ⊎ ((type : String) × (test : Context → Bool) × (rest : List (String × (Context → Bool)))
              × (tests ≡ (type, test) ∷ rest)
              × (test e ≡ true)))
  unfolding get_error_type
  get_error_type_iff [] e = (λ h. inl refl, λ h. refl)
  get_error_type_iff ((type, test) ∷ rest) e = elim (Bool-cases (test e)) [
    | inl matches ↦ rw matches (λ h. inr (type, test, rest, refl, matches), λ h. refl)
    | inr differs ↦
        rw differs (λ h. absurd (err-ne-ok h), λ h. absurd (only_first type test rest e differs h))
  ]
