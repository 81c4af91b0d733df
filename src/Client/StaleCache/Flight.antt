-- ===== src/Client/StaleCache/Flight.antt =====
-- How often the handler is called for a key.
use logstore_archive.Base.{
  ℕ, ◌+◌, ◌-◌, ◌≤◌, ◌<◌, String, str_eq, ◌≡◌, refl, ◌∙◌, Bool, true, false, ◌&&◌, none, some, List,
  [], ◌∷◌, ltb, if◌then◌else◌, All, arith, eq_iff, Bool-cases, inl, inr, Option-cases, some_inj,
  eq_refl,
}
use logstore_archive.Base.JsMap
use logstore_archive.Base.JsMap.{JsMap}
use logstore_archive.Client.StaleCache.{
  Cached, value, promise, Entry, cleanup, set, get, CacheEvent, asked, given, step,
}

module _ {V : Type 0} (max_age : ℕ) where
  abbrev pub time_of : CacheEvent V → ℕ
  time_of (asked key now call) = now
  time_of (given key v now) = now

  -- whether an event calls the handler for a key
  abbrev pub calls_for : String → JsMap (Entry V) → CacheEvent V → Bool
  calls_for key m (asked k now call) = str_eq k key && (get max_age m k now call).1
  calls_for key m (given k v now) = false

  -- the number of such events in a run
  unfoldable pub count_calls : String → JsMap (Entry V) → List (CacheEvent V) → ℕ
  count_calls key m [] = 0
  count_calls key m (e ∷ es) =
      let rest = count_calls key (step max_age m e) es in
      if calls_for key m e then rest + 1 else rest

  -- the key has an entry that is fresh until a time
  IsFresh : JsMap (Entry V) → String → ℕ → Type 0
  IsFresh m key until = (e : Entry V) × (JsMap.get m key ≡ some e) × (until ≤ e.timestamp + max_age)

  cleanup-IsFresh :
      (m : JsMap (Entry V)) (key : String) (now until : ℕ)
      → now < until
      → IsFresh m key until
      → IsFresh (cleanup max_age now m) key until
  unfolding cleanup IsFresh JsMap.get
  cleanup-IsFresh [] key now until lt (e, here, le) = absurd (ground arith)
  cleanup-IsFresh ((k, w) ∷ m) key now until lt (e, here, le) = elim (Bool-cases (str_eq k key)) [
    | inl same ↦
        let first : w ≡ e = some_inj (rw same at here) in
        let kept : ltb max_age (now - e.timestamp) ≡ false = ground arith in
        rw (first, kept, same) (e, refl, le)
    | inr other ↦
        let (f, found, fresh) = cleanup-IsFresh m key now until lt (e, rw other at here, le) in
        elim (Bool-cases (ltb max_age (now - w.timestamp))) [
          | inl stale ↦ rw stale (f, found, fresh)
          | inr young ↦ rw (young, other) (f, found, fresh)
        ]
  ]

  set-IsFresh_self :
      (m : JsMap (Entry V)) (key : String) (v : Cached V) (now until : ℕ)
      → now < until
      → until ≤ now + max_age
      → IsFresh (set max_age m key v now) key until
  unfolding set IsFresh
  set-IsFresh_self m key v now until lt le =
      cleanup-IsFresh (JsMap.set m key (record { cached = v; timestamp = now })) key now until lt
        (record { cached = v; timestamp = now }, JsMap.get-set_self m key _, le)

  set-IsFresh :
      (m : JsMap (Entry V)) (key k : String) (v : Cached V) (now until : ℕ)
      → now < until
      → until ≤ now + max_age
      → IsFresh m key until
      → IsFresh (set max_age m k v now) key until
  unfolding set IsFresh
  set-IsFresh m key k v now until lt le (e, here, fresh) =
      let new : Entry V = record { cached = v; timestamp = now } in
      cleanup-IsFresh (JsMap.set m k new) key now until lt (elim (Bool-cases (str_eq k key)) [
        | inl same ↦ (new, JsMap.get-set m k key new ∙ (rw same refl), le)
        | inr other ↦ (e, JsMap.get-set m k key new ∙ (rw other here), fresh)
      ])

  step-IsFresh :
      (m : JsMap (Entry V)) (key : String) (e : CacheEvent V) (from : ℕ)
      → from ≤ time_of e
      → time_of e < from + max_age
      → IsFresh m key (from + max_age)
      → IsFresh (step max_age m e) key (from + max_age)
  unfolding step get
  step-IsFresh m key (given k v now) from le lt h =
      set-IsFresh m key k (value v) now (from + max_age) lt (omega arith) h
  step-IsFresh m key (asked k now call) from le lt h = elim (Option-cases (JsMap.get m k)) [
    | inl miss ↦
        rw (step, get, miss)
          (set-IsFresh m key k (promise call) now (from + max_age) lt (omega arith) h)
    | inr (item, hit) ↦ elim (Bool-cases (ltb (now - item.timestamp) max_age)) [
      | inl fresh ↦ rw (step, get, hit, fresh) h
      | inr stale ↦ rw (step, get, hit, stale) h
    ]
  ]

  calls-IsFresh :
      (m : JsMap (Entry V)) (key : String) (e : CacheEvent V) (until : ℕ)
      → 0 < max_age
      → time_of e < until
      → IsFresh m key until
      → calls_for key m e ≡ false
  unfolding get IsFresh
  calls-IsFresh m key (given k v now) until pos lt h = refl
  calls-IsFresh m key (asked k now call) until pos lt (e, here, le) =
      elim (Bool-cases (str_eq k key)) [
        | inl same ↦
            let e_key : k ≡ key = (eq_iff k key).0 same in
            let fresh : ltb (now - e.timestamp) max_age ≡ true = ground arith in
            rw (e_key, here, fresh, eq_refl key) refl
        | inr other ↦ rw other refl
      ]

  count_calls-IsFresh :
      (es : List (CacheEvent V)) (m : JsMap (Entry V)) (key : String) (from : ℕ)
      → All (λ e. (from ≤ time_of e) × (time_of e < from + max_age)) es
      → IsFresh m key (from + max_age)
      → count_calls key m es ≡ 0
  unfolding count_calls
  count_calls-IsFresh [] m key from h fresh = refl
  count_calls-IsFresh (e ∷ es) m key from ((le, lt), more) fresh =
      rw (calls-IsFresh m key e (from + max_age) (omega arith) lt fresh) (
        count_calls-IsFresh es (step max_age m e) key from more
          (step-IsFresh m key e from le lt fresh))

  count_calls_later :
      (m : JsMap (Entry V)) (key : String) (now : ℕ) (es : List (CacheEvent V))
      → All (λ e. (now ≤ time_of e) × (time_of e < now + max_age)) es
      → (0 < max_age → IsFresh m key (now + max_age))
      → count_calls key m es ≡ 0
  unfolding count_calls
  count_calls_later m key now [] h fresh = refl
  count_calls_later m key now (e ∷ es) h fresh =
      let bounds = h.0 in
      count_calls-IsFresh (e ∷ es) m key now h (fresh (omega (arith, bounds.0, bounds.1)))

  -- A `get` of a key that has no entry calls the handler, and then, whatever is asked, given and
  -- set in the meantime for any key, no `get` of that key calls it again before the maximal age
  -- has passed.
  pub get-miss_lem :
      (m : JsMap (Entry V)) (key : String) (now call : ℕ) (es : List (CacheEvent V))
      → JsMap.get m key ≡ none
      → All (λ e. (now ≤ time_of e) × (time_of e < now + max_age)) es
      → ((get max_age m key now call).1 ≡ true)
        × (count_calls key ((get max_age m key now call).2) es ≡ 0)
  unfolding get
  get-miss_lem m key now call es miss h = rw miss (
    refl,
    count_calls_later (set max_age m key (promise call) now) key now es h λ pos.
        set-IsFresh_self m key (promise call) now (now + max_age) (omega arith) (omega arith),
  )
