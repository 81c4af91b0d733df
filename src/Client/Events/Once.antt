-- ===== src/Client/Events/Once.antt =====
-- packages/client/src/events.ts: what `off` does to a listener that `once` has added.
use logstore_archive.Base.{
  suc, String, ◌≡◌, refl, ap, ◌∙◌, Bool, true, not, ◌&&◌, Option, none, some, List, [], ◌∷◌, ◌++◌,
  str_eq, keep, Bool-cases, inl, inr, eq_refl, ◌==◌,
}
use logstore_archive.Client.Events
use logstore_archive.Client.Events.{
  Entry, EventEmitter3, Handler, plain, wrapped, same_handler, State,
}

keep-append :
    {A : Type 0} (test : A → Bool) (xs ys : List A)
    → keep test (xs ++ ys) ≡ keep test xs ++ keep test ys
keep-append test [] ys = refl
keep-append test (x ∷ xs) ys = elim (Bool-cases (test x)) [
  | inl e ↦ rw (e, keep-append test xs ys) refl
  | inr e ↦ rw (e, keep-append test xs ys) refl
]

module _ {L P W : Type 0} (same : L → L → Bool) (E : EventEmitter3 (Handler L) (same_handler same))
    (event_name : String) (start : W → P × W) (stop : P → W → W) where
  abbrev St : Type 0
  St = State same E event_name start stop

  started-delegate :
      (s : St) (o : Option P)
      → (Events.start_unless same E event_name start stop o s).delegate ≡ s.delegate
  started-delegate s none = refl
  started-delegate s (some p) = refl

  add-delegate :
      (s : St) (n : String)
      → (Events.add_event_listener same E event_name start stop s n).delegate ≡ s.delegate
  unfolding Events.add_event_listener
  add-delegate s n = elim (Bool-cases (s.installed && str_eq n event_name)) [
    | inl e ↦ rw e (started-delegate s s.producer)
    | inr e ↦ rw e refl
  ]

  stopped-delegate :
      (s : St) (o : Option P)
      → (Events.stop_if same E event_name start stop o s).delegate ≡ s.delegate
  stopped-delegate s none = refl
  stopped-delegate s (some p) = elim (Bool-cases (E.listener_count s.delegate event_name == 0)) [
    | inl e ↦ rw e refl
    | inr e ↦ rw e refl
  ]

  remove-delegate :
      (s : St) (n : String)
      → (Events.remove_event_listener same E event_name start stop s n).delegate ≡ s.delegate
  unfolding Events.remove_event_listener
  remove-delegate s n = elim (Bool-cases (s.installed && str_eq n event_name)) [
    | inl e ↦ rw e (stopped-delegate s s.producer)
    | inr e ↦ rw e refl
  ]

  once-delegate :
      (s : St) (n : String) (l : L)
      → (Events.once same E event_name start stop s n l).delegate
        ≡ E.once s.delegate n (wrapped s.made l)
  unfolding Events.once
  once-delegate s n l =
      add-delegate
        (record s { delegate = E.once s.delegate n (wrapped s.made l); made = suc s.made }) n

  off-delegate :
      (s : St) (n : String) (l : L)
      → (Events.off same E event_name start stop s n l).delegate ≡ E.off s.delegate n (plain l)
  unfolding Events.off
  off-delegate s n l = remove-delegate (record s { delegate = E.off s.delegate n (plain l) }) n

  -- Taking a listener off an event after it was added by once takes away what was added for it by
  -- on, but leaves what once has added, so that the listener is still called.
  pub off-once :
      (s : St) (n : String) (l : L)
      → E.listeners
          (Events.off same E event_name start stop
            (Events.once same E event_name start stop s n l)
            n
            l).delegate
          n
        ≡ keep (λ x. not (same_handler same x.fn (plain l))) (E.listeners s.delegate n)
          ++ record { fn = wrapped s.made l; once = true } ∷ []
  off-once s n l =
      let added = Events.once same E event_name start stop s n l in
      ap (λ d. E.listeners d n)
        (off-delegate added n l ∙ ap (λ d. E.off d n (plain l)) (once-delegate s n l))
      ∙ E.listeners-off (E.once s.delegate n (wrapped s.made l)) n n (plain l)
      ∙ rw (eq_refl n, E.listeners-once s.delegate n n (wrapped s.made l), eq_refl n)
          (keep-append _ (E.listeners s.delegate n) _)
