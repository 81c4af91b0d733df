-- ===== src/Client/Events.antt =====
-- packages/client/src/events.ts: the event emitter of the client that tells an observer of each
-- change of its listeners, and the gateway that produces events while somebody listens.
pub mod Laws
pub mod Once
use logstore_archive.Base.{
  ℕ, suc, String, ◌≡◌, Bool, true, false, not, ◌&&◌, Option, none, some, List, [], ◌∷◌, ◌++◌, ltb,
  ◌==◌, str_eq, if◌then◌else◌, keep, length, includes, ◌≢◌,
}

-- A listener as the delegate holds it; `once` is what it was added by.
pub record Entry (H : Type 0) : Type 0 where
  pub fn : H
  pub once : Bool

-- `EventEmitter3`, for functions of a type with their `===`.
pub record EventEmitter3 (H : Type 0) (same : H → H → Bool) : Type 1 where
  pub Emitter : Type 0
  pub fresh : Emitter
  pub on : Emitter → String → H → Emitter
  pub once : Emitter → String → H → Emitter
  pub off : Emitter → String → H → Emitter
  pub remove_all_listeners : Emitter → Emitter
  pub event_names : Emitter → List String
  pub listener_count : Emitter → String → ℕ
  -- The listeners of an event in the order in which `emit` calls them, and `removeListener` of one
  -- that was added by `once`.
  pub listeners : Emitter → String → List (Entry H)
  pub remove_once : Emitter → String → H → Emitter
  pub listeners-fresh : (n : String) → listeners fresh n ≡ []
  pub listeners-on :
      (e : Emitter) (k n : String) (h : H)
      → listeners (on e k h) n ≡ (
          if str_eq k n
          then listeners e n ++ record { fn = h; once = false } ∷ []
          else listeners e n)
  pub listeners-once :
      (e : Emitter) (k n : String) (h : H)
      → listeners (once e k h) n ≡ (
          if str_eq k n
          then listeners e n ++ record { fn = h; once = true } ∷ []
          else listeners e n)
  pub listeners-off :
      (e : Emitter) (k n : String) (h : H)
      → listeners (off e k h) n
        ≡ (if str_eq k n then keep (λ x. not (same x.fn h)) (listeners e n) else listeners e n)
  pub listeners-remove_once :
      (e : Emitter) (k n : String) (h : H)
      → listeners (remove_once e k h) n ≡ (
          if str_eq k n
          then keep (λ x. not (same x.fn h && x.once)) (listeners e n)
          else listeners e n)
  pub listeners-remove_all : (e : Emitter) (n : String) → listeners (remove_all_listeners e) n ≡ []
  pub count-listeners : (e : Emitter) (n : String) → listener_count e n ≡ length (listeners e n)
  pub includes-event_names :
      (e : Emitter) (n : String) → listeners e n ≢ [] → includes n (event_names e) ≡ true

-- A function that the delegate holds: a listener, or the closure that `once` makes for it, which is
-- another object each time.
pub data Handler (L : Type 0) : Type 0 where
  plain : L → Handler L
  wrapped : (object : ℕ) → L → Handler L

-- `===`
abbrev pub same_handler : {L : Type 0} → (L → L → Bool) → Handler L → Handler L → Bool
same_handler same (plain l) (plain k) = same l k
same_handler same (wrapped i l) (wrapped j k) = i == j
same_handler same _ _ = false

module _ {L P W : Type 0} (same : L → L → Bool) (E : EventEmitter3 (Handler L) (same_handler same))
    -- `eventName`, `start` and `stop` of `initEventGateway`; W is the world that these two change
    (event_name : String) (start : W → P × W) (stop : P → W → W) where
  -- `called` is what `emit` has called, the last one first. `installed` is whether the observer has
  -- the two listeners of the gateway.
  pub record State : Type 0 where
    pub delegate : E.Emitter
    pub made : ℕ
    pub installed : Bool
    pub producer : Option P
    pub world : W
    pub called : List L

  abbrev pub new_emitter : W → State
  new_emitter w = record {
    delegate = E.fresh;
    made = 0;
    installed = false;
    producer = none;
    world = w;
    called = [];
  }

  abbrev run_start : State → State
  run_start s = let (p, w) = start s.world in record s { producer = some p; world = w }

  -- `observer.emit('addEventListener', eventName)`
  abbrev start_unless : Option P → State → State
  start_unless none s = run_start s
  start_unless (some p) s = s

  unfoldable pub add_event_listener : State → String → State
  add_event_listener s source_event =
      if s.installed && str_eq source_event event_name then start_unless s.producer s else s

  -- `observer.emit('removeEventListener', eventName)`
  abbrev stop_if : Option P → State → State
  stop_if none s = s
  stop_if (some p) s =
      if E.listener_count s.delegate event_name == 0
      then record s { producer = none; world = stop p s.world }
      else s

  unfoldable pub remove_event_listener : State → String → State
  remove_event_listener s source_event =
      if s.installed && str_eq source_event event_name then stop_if s.producer s else s

  unfoldable pub on : State → String → L → State
  on s n l = add_event_listener (record s { delegate = E.on s.delegate n (plain l) }) n

  unfoldable pub once : State → String → L → State
  once s n l =
      add_event_listener
        (record s { delegate = E.once s.delegate n (wrapped s.made l); made = suc s.made }) n

  unfoldable pub off : State → String → L → State
  off s n l = remove_event_listener (record s { delegate = E.off s.delegate n (plain l) }) n

  unfoldable pub tell_removed : State → List String → State
  tell_removed s [] = s
  tell_removed s (n ∷ ns) = tell_removed (remove_event_listener s n) ns

  unfoldable pub remove_all_listeners : State → State
  remove_all_listeners s =
      tell_removed (record s { delegate = E.remove_all_listeners s.delegate })
        (E.event_names s.delegate)

  unfoldable pub init_event_gateway : State → State
  init_event_gateway s =
      let seen = record s { installed = true } in
      if ltb 0 (E.listener_count s.delegate event_name) then run_start seen else seen

  pub data Call : Type 0 where
    calls_on calls_once calls_off : String → L → Call
    calls_remove_all : Call
    calls_emit : String → Call

  -- `throws` tells the listeners that throw when they are called. `emit` then ends with the error, of
  -- which nothing but the state that it leaves is kept here.
  module _ (throws : L → Bool) where
    abbrev pub throws_in : Handler L → Bool
    throws_in (plain l) = throws l
    throws_in (wrapped i l) = throws l

    -- What the delegate holds is called: a listener, or what `once` has made of it, which tells the
    -- observer of the removal after the listener has returned.
    abbrev pub run_handler : State → String → Handler L → State
    run_handler s n (plain l) = record s { called = l ∷ s.called }
    run_handler s n (wrapped i l) =
        let called = record s { called = l ∷ s.called } in
        if throws l then called else remove_event_listener called n

    -- One turn of the delegate's `emit`: a listener of `once` is removed before it is called.
    unfoldable pub call : State → String → Entry (Handler L) → State
    call s n x =
        run_handler (if x.once then record s { delegate = E.remove_once s.delegate n x.fn } else s)
          n x.fn

    -- A listener that throws is the last one that is called.
    unfoldable pub call_all : State → String → List (Entry (Handler L)) → State
    call_all s n [] = s
    call_all s n (x ∷ xs) =
        let rest = call_all (call s n x) n xs in if throws_in x.fn then call s n x else rest

    unfoldable pub emit : State → String → State
    emit s n = call_all s n (E.listeners s.delegate n)

    unfoldable pub step : State → Call → State
    step s (calls_on n l) = on s n l
    step s (calls_once n l) = once s n l
    step s (calls_off n l) = off s n l
    step s calls_remove_all = remove_all_listeners s
    step s (calls_emit n) = emit s n

    unfoldable pub run : State → List Call → State
    run s [] = s
    run s (c ∷ cs) = run (step s c) cs
