-- ===== src/Tests/Emitter.antt =====
-- An emitter as a list of listeners with their events, and the gateway run on it.
use logstore_archive.Base.{
  ℕ, suc, ◌-◌, String, ◌≡◌, refl, Bool, true, false, not, ◌&&◌, List, [], ◌∷◌, ◌++◌, ◌==◌, str_eq,
  if◌then◌else◌, keep, length, includes, ◌≢◌, Bool-cases, inl, inr, arith, eq_iff,
}
use logstore_archive.Client.Events
use logstore_archive.Client.Events.{
  Entry, EventEmitter3, Handler, plain, wrapped, same_handler, Call, calls_on, calls_once,
  calls_off, calls_remove_all, calls_emit,
}
use logstore_archive.Client.Events.Laws.{run_gateway-is_live, one_if, is_nonempty}
use logstore_archive.Client.Events.Once.{off-once}

abbrev Table : Type 0 → Type 0
Table H = List (String × Entry H)

module _ {H : Type 0} where
  unfoldable of_event : Table H → String → List (Entry H)
  of_event [] n = []
  of_event ((k, x) ∷ t) n = let rest = of_event t n in if str_eq k n then x ∷ rest else rest

  -- the table without the listeners of an event for which a test fails
  unfoldable retain : Table H → String → (Entry H → Bool) → Table H
  retain [] n test = []
  retain ((k, x) ∷ t) n test =
      let rest = retain t n test in if str_eq k n && not (test x) then rest else (k, x) ∷ rest

  unfoldable names : Table H → List String
  names [] = []
  names ((k, x) ∷ t) = k ∷ names t

  of_event-append :
      (t : Table H) (k n : String) (x : Entry H)
      → of_event (t ++ (k, x) ∷ []) n
        ≡ (if str_eq k n then of_event t n ++ x ∷ [] else of_event t n)
  unfolding of_event
  of_event-append [] k n x = ground arith
  of_event-append ((j, y) ∷ t) k n x = ground (arith, of_event-append t k n x)

  of_event-retain :
      (t : Table H) (k n : String) (test : Entry H → Bool)
      → of_event (retain t k test) n
        ≡ (if str_eq k n then keep test (of_event t n) else of_event t n)
  unfolding of_event retain
  of_event-retain [] k n test = ground arith
  of_event-retain ((j, y) ∷ t) k n test =
      ground (arith, of_event-retain t k n test, eq_iff j k, eq_iff j n, eq_iff k n)

  includes-names : (t : Table H) (n : String) → of_event t n ≢ [] → includes n (names t) ≡ true
  unfolding of_event names
  includes-names [] n h = absurd (h refl)
  includes-names ((k, x) ∷ t) n h = elim (Bool-cases (str_eq k n)) [
    | inl e ↦ ground (arith, e)
    | inr e ↦ ground (arith, e, includes-names t n (λ none_left. h (rw e none_left)))
  ]

abbrev emitter_of : {H : Type 0} (same : H → H → Bool) → EventEmitter3 H same
emitter_of {H} same = record {
  Emitter = Table H;
  fresh = [];
  on = λ e k h. e ++ (k, record { fn = h; once = false }) ∷ [];
  once = λ e k h. e ++ (k, record { fn = h; once = true }) ∷ [];
  off = λ e k h. retain e k (λ x. not (same x.fn h));
  remove_all_listeners = λ e. [];
  event_names = names;
  listener_count = λ e n. length (of_event e n);
  listeners = of_event;
  remove_once = λ e k h. retain e k (λ x. not (same x.fn h && x.once));
  listeners-fresh = λ n. unfold of_event in refl;
  listeners-on = λ e k n h. of_event-append e k n _;
  listeners-once = λ e k n h. of_event-append e k n _;
  listeners-off = λ e k n h. of_event-retain e k n _;
  listeners-remove_once = λ e k n h. of_event-retain e k n _;
  listeners-remove_all = λ e n. unfold of_event in refl;
  count-listeners = λ e n. refl;
  includes-event_names = includes-names;
}

-- The world counts the producers that run.
abbrev producing : ℕ → ℕ × ℕ
producing w = (w, suc w)

abbrev ending : ℕ → ℕ → ℕ
ending p w = w - 1

abbrev numbers : EventEmitter3 (Handler ℕ) (same_handler ◌==◌)
numbers = emitter_of (same_handler ◌==◌)

abbrev calls : List (Call ◌==◌ numbers "addToLogStore" producing ending)
calls =
    calls_on "addToLogStore" 1
    ∷ calls_once "addToLogStore" 2
    ∷ calls_once "publish" 3
    ∷ calls_off "addToLogStore" 1
    ∷ calls_emit "publish"
    ∷ []

run_gateway-is_live_example :
    (Events.run ◌==◌ numbers "addToLogStore" producing ending
      (λ l. l == 1)
      (Events.init_event_gateway ◌==◌ numbers "addToLogStore" producing ending
        (Events.new_emitter ◌==◌ numbers "addToLogStore" producing ending 0))
      calls).world
    ≡ one_if (
        is_nonempty (
          of_event
            (Events.run ◌==◌ numbers "addToLogStore" producing ending
              (λ l. l == 1)
              (Events.init_event_gateway ◌==◌ numbers "addToLogStore" producing ending
                (Events.new_emitter ◌==◌ numbers "addToLogStore" producing ending 0))
              calls).delegate
            "addToLogStore"))
run_gateway-is_live_example =
    run_gateway-is_live ◌==◌ numbers "addToLogStore" producing ending (λ w. w) (λ l. l == 1)
      ((λ w. refl), (λ p w. refl))
      (Events.new_emitter ◌==◌ numbers "addToLogStore" producing ending 0) calls
      (unfold of_event in tt) (tt, (refl, (refl, (tt, (tt, tt))))) refl refl

-- The gateway is started once, and stopped when the listener of once has been called.
gateway_stops :
    (Events.run ◌==◌ numbers "addToLogStore" producing ending
      (λ l. l == 1)
      (Events.init_event_gateway ◌==◌ numbers "addToLogStore" producing ending
        (Events.new_emitter ◌==◌ numbers "addToLogStore" producing ending 0))
      (calls_once "addToLogStore" 2 ∷ calls_emit "addToLogStore" ∷ [])).world
    ≡ 0
unfolding Events.run Events.init_event_gateway Events.step Events.once Events.emit Events.call_all
    Events.call Events.add_event_listener Events.remove_event_listener of_event retain
gateway_stops = refl

-- The listener 1 throws: the observer is not told of its removal, and the producer stays.
gateway_goes_on :
    (Events.run ◌==◌ numbers "addToLogStore" producing ending
      (λ l. l == 1)
      (Events.init_event_gateway ◌==◌ numbers "addToLogStore" producing ending
        (Events.new_emitter ◌==◌ numbers "addToLogStore" producing ending 0))
      (calls_once "addToLogStore" 1 ∷ calls_emit "addToLogStore" ∷ [])).world
    ≡ 1
unfolding Events.run Events.init_event_gateway Events.step Events.once Events.emit Events.call_all
    Events.call Events.add_event_listener Events.remove_event_listener of_event retain
gateway_goes_on = refl

off-once_example :
    of_event
      (Events.off ◌==◌ numbers "addToLogStore" producing ending
        (Events.once ◌==◌ numbers "addToLogStore" producing ending
          (Events.new_emitter ◌==◌ numbers "addToLogStore" producing ending 0)
          "publish"
          7)
        "publish"
        7).delegate
      "publish"
    ≡ record { fn = wrapped 0 7; once = true } ∷ []
off-once_example =
    unfold of_event in
    off-once ◌==◌ numbers "addToLogStore" producing ending
      (Events.new_emitter ◌==◌ numbers "addToLogStore" producing ending 0) "publish" 7
