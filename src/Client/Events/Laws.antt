-- ===== src/Client/Events/Laws.antt =====
-- packages/client/src/events.ts: when the gateway runs.
use logstore_archive.Base.{
  ℕ, suc, ◌-◌, String, ◌≡◌, refl, sym, ap, ◌∙◌, Bool, true, false, not, ◌&&◌, Option, none, some,
  List, [], ◌∷◌, ◌++◌, ltb, ◌==◌, str_eq, if◌then◌else◌, keep, length, All, All-append, Bool-cases,
  arith, inl, inr, includes, eq_iff,
}
use logstore_archive.Client.Events
use logstore_archive.Client.Events.{
  Entry, EventEmitter3, Handler, plain, wrapped, same_handler, State, Call, calls_on, calls_once,
  calls_off, calls_remove_all, calls_emit,
}

-- What `once` has made of a listener that does not throw
abbrev pub is_calm : {L : Type 0} → (L → Bool) → Handler L → Bool
is_calm throws (plain l) = false
is_calm throws (wrapped i l) = not (throws l)

-- Only that is added to the delegate by `once`.
abbrev pub IsCalmOnce : {L : Type 0} → (L → Bool) → Entry (Handler L) → Type 0
IsCalmOnce throws x = x.once ≡ true → is_calm throws x.fn ≡ true

abbrev pub is_some : {P : Type 0} → Option P → Bool
is_some none = false
is_some (some p) = true

abbrev pub is_nonempty : {A : Type 0} → List A → Bool
is_nonempty [] = false
is_nonempty (x ∷ xs) = true

abbrev pub one_if : Bool → ℕ
one_if true = 1
one_if false = 0

keep-All :
    {A : Type 0} (Q : A → Type 0) (test : A → Bool) (xs : List A) → All Q xs → All Q (keep test xs)
keep-All Q test [] h = tt
keep-All Q test (x ∷ xs) (q, h) = elim (Bool-cases (test x)) [
  | inl e ↦ rw e (q, keep-All Q test xs h)
  | inr e ↦ rw e (keep-All Q test xs h)
]

nonempty-append : {A : Type 0} (xs : List A) (x : A) → is_nonempty (xs ++ x ∷ []) ≡ true
nonempty-append [] x = refl
nonempty-append (y ∷ ys) x = refl

positive-length : {A : Type 0} (xs : List A) → ltb 0 (length xs) ≡ is_nonempty xs
positive-length [] = refl
positive-length (x ∷ xs) = ground arith

zero-length : {A : Type 0} (xs : List A) → (length xs == 0) ≡ not (is_nonempty xs)
zero-length [] = refl
zero-length (x ∷ xs) = ground arith

and-eq_true : {a b : Bool} → a ≡ true → b ≡ true → (a && b) ≡ true
and-eq_true h k = ground arith

and-eq_false : (a : Bool) {b : Bool} → b ≡ false → (a && b) ≡ false
and-eq_false a h = ground arith

empty-keep :
    {A : Type 0} (test : A → Bool) (xs : List A)
    → is_nonempty xs ≡ false
    → is_nonempty (keep test xs) ≡ false
empty-keep test [] h = refl
empty-keep test (x ∷ xs) h = cc

module _ {L P W : Type 0} (same : L → L → Bool) (E : EventEmitter3 (Handler L) (same_handler same))
    (event_name : String) (start : W → P × W) (stop : P → W → W) (live : W → ℕ)
    (throws : L → Bool) where
  abbrev St : Type 0
  St = State same E event_name start stop

  abbrev pub heard : St → List (Entry (Handler L))
  heard s = E.listeners s.delegate event_name

  -- The two callbacks of the gateway add a producer to the world and take it away.
  abbrev pub IsPaired : Type 0
  IsPaired =
      ((w : W) → live ((start w).1) ≡ suc (live w))
      × ((p : P) (w : W) → live (stop p w) ≡ live w - 1)

  -- The producer runs exactly while the event has listeners, and is then the only one.
  pub record IsTuned (s : St) : Type 0 where
    pub installed : s.installed ≡ true
    pub wrapped_once : All (IsCalmOnce throws) (heard s)
    pub one : live s.world ≡ one_if (is_some s.producer)
    pub tuned : is_some s.producer ≡ is_nonempty (heard s)

  module _ (paired : IsPaired) where
    started-IsTuned :
        (s : St) (o : Option P)
        → s.producer ≡ o
        → s.installed ≡ true
        → All (IsCalmOnce throws) (heard s)
        → live s.world ≡ one_if (is_some o)
        → is_nonempty (heard s) ≡ true
        → IsTuned (Events.start_unless same E event_name start stop o s)
    started-IsTuned s none e i w l h = record {
      installed = i;
      wrapped_once = w;
      one = omega (arith, paired.0 s.world, l);
      tuned = sym h;
    }
    started-IsTuned s (some p) e i w l h = record {
      installed = i;
      wrapped_once = w;
      one = rw e l;
      tuned = rw (e, h) refl;
    }

    -- The observer is told of a listener that was added.
    added :
        (s : St) (n : String)
        → s.installed ≡ true
        → All (IsCalmOnce throws) (heard s)
        → live s.world ≡ one_if (is_some s.producer)
        → (str_eq n event_name ≡ true → is_nonempty (heard s) ≡ true)
        → (str_eq n event_name ≡ false → is_some s.producer ≡ is_nonempty (heard s))
        → IsTuned (Events.add_event_listener same E event_name start stop s n)
    unfolding Events.add_event_listener
    added s n i w l h k = elim (Bool-cases (str_eq n event_name)) [
      | inl e ↦ rw (and-eq_true i e) (started-IsTuned s s.producer refl i w l (h e))
      | inr e ↦
          rw (and-eq_false s.installed e)
            (record { installed = i; wrapped_once = w; one = l; tuned = k e })
    ]

    stopped-IsTuned :
        (s : St) (o : Option P)
        → s.producer ≡ o
        → s.installed ≡ true
        → All (IsCalmOnce throws) (heard s)
        → live s.world ≡ one_if (is_some o)
        → (is_some o ≡ false → is_nonempty (heard s) ≡ false)
        → IsTuned (Events.stop_if same E event_name start stop o s)
    stopped-IsTuned s none e i w l h = record {
      installed = i;
      wrapped_once = w;
      one = rw e l;
      tuned = rw (e, h refl) refl;
    }
    stopped-IsTuned s (some p) e i w l h =
        rw (E.count-listeners s.delegate event_name, zero-length (heard s))
          (elim (Bool-cases (is_nonempty (heard s))) [
            | inl here ↦ rw here (record {
              installed = i;
              wrapped_once = w;
              one = rw e l;
              tuned = rw (e, here) refl;
            })
            | inr gone ↦ rw gone (record {
              installed = i;
              wrapped_once = w;
              one = omega (arith, paired.1 p s.world, l);
              tuned = rw gone refl;
            })
          ])

    -- The observer is told of a listener that was removed.
    removed :
        (s : St) (n : String)
        → s.installed ≡ true
        → All (IsCalmOnce throws) (heard s)
        → live s.world ≡ one_if (is_some s.producer)
        → (str_eq n event_name ≡ true → is_some s.producer ≡ false → is_nonempty (heard s) ≡ false)
        → (str_eq n event_name ≡ false → is_some s.producer ≡ is_nonempty (heard s))
        → IsTuned (Events.remove_event_listener same E event_name start stop s n)
    unfolding Events.remove_event_listener
    removed s n i w l h k = elim (Bool-cases (str_eq n event_name)) [
      | inl e ↦ rw (and-eq_true i e) (stopped-IsTuned s s.producer refl i w l (h e))
      | inr e ↦
          rw (and-eq_false s.installed e)
            (record { installed = i; wrapped_once = w; one = l; tuned = k e })
    ]

    on-IsTuned :
        (s : St) (n : String) (l : L)
        → IsTuned s
        → IsTuned (Events.on same E event_name start stop s n l)
    unfolding Events.on
    on-IsTuned s n l t =
        added (record s { delegate = E.on s.delegate n (plain l) }) n t.installed
          (rw (E.listeners-on s.delegate n event_name (plain l))
            (elim (Bool-cases (str_eq n event_name)) [
              | inl e ↦
                  rw e (All-append (IsCalmOnce throws) (heard s) _ t.wrapped_once ((λ h. cc), tt))
              | inr e ↦ rw e t.wrapped_once
            ]))
          t.one
          (λ e.
            rw (E.listeners-on s.delegate n event_name (plain l), e) (nonempty-append (heard s) _))
          (λ e. rw (E.listeners-on s.delegate n event_name (plain l), e) t.tuned)

    once-IsTuned :
        (s : St) (n : String) (l : L)
        → throws l ≡ false
        → IsTuned s
        → IsTuned (Events.once same E event_name start stop s n l)
    unfolding Events.once
    once-IsTuned s n l calm t =
        let law = E.listeners-once s.delegate n event_name (wrapped s.made l) in
        added (record s { delegate = E.once s.delegate n (wrapped s.made l); made = suc s.made }) n
          t.installed
          (rw law (elim (Bool-cases (str_eq n event_name)) [
            | inl e ↦
                rw e (
                  All-append (IsCalmOnce throws) (heard s) _ t.wrapped_once
                    ((λ h. ap not calm), tt))
            | inr e ↦ rw e t.wrapped_once
          ]))
          t.one (λ e. rw (law, e) (nonempty-append (heard s) _)) (λ e. rw (law, e) t.tuned)

    off-IsTuned :
        (s : St) (n : String) (l : L)
        → IsTuned s
        → IsTuned (Events.off same E event_name start stop s n l)
    unfolding Events.off
    off-IsTuned s n l t =
        let law = E.listeners-off s.delegate n event_name (plain l) in
        removed (record s { delegate = E.off s.delegate n (plain l) }) n t.installed
          (rw law (elim (Bool-cases (str_eq n event_name)) [
            | inl e ↦ rw e (keep-All (IsCalmOnce throws) _ (heard s) t.wrapped_once)
            | inr e ↦ rw e t.wrapped_once
          ]))
          t.one (λ e stopped. rw (law, e) (empty-keep _ (heard s) (sym t.tuned ∙ stopped)))
          (λ e. rw (law, e) t.tuned)

    ignored :
        (s : St) (n : String)
        → str_eq n event_name ≡ false
        → Events.remove_event_listener same E event_name start stop s n ≡ s
    unfolding Events.remove_event_listener
    ignored s n e = rw (and-eq_false s.installed e) refl

    told-IsTuned :
        (s : St) (n : String)
        → IsTuned s
        → IsTuned (Events.remove_event_listener same E event_name start stop s n)
    told-IsTuned s n t =
        removed s n t.installed t.wrapped_once t.one (λ e stopped. sym t.tuned ∙ stopped)
          (λ e. t.tuned)

    tell-IsTuned :
        (s : St) (ns : List String)
        → IsTuned s
        → IsTuned (Events.tell_removed same E event_name start stop s ns)
    unfolding Events.tell_removed
    tell-IsTuned s [] t = t
    tell-IsTuned s (n ∷ ns) t =
        tell-IsTuned (Events.remove_event_listener same E event_name start stop s n) ns
          (told-IsTuned s n t)

    -- The names that are told of contain that of the gateway.
    tell_all-IsTuned :
        (s : St) (ns : List String)
        → s.installed ≡ true
        → live s.world ≡ one_if (is_some s.producer)
        → heard s ≡ []
        → includes event_name ns ≡ true
        → IsTuned (Events.tell_removed same E event_name start stop s ns)
    unfolding Events.tell_removed
    tell_all-IsTuned s [] i l empty there = cc
    tell_all-IsTuned s (n ∷ ns) i l empty there = elim (Bool-cases (str_eq n event_name)) [
      | inl e ↦ tell-IsTuned _ ns (
          removed s n i (rw empty tt) l (λ same_name stopped. rw empty refl)
            (λ differs. cc (e, differs)))
      | inr e ↦ rw (ignored s n e) (tell_all-IsTuned s ns i l empty (ground (arith, e, there)))
    ]

    remove_all-IsTuned :
        (s : St) → IsTuned s → IsTuned (Events.remove_all_listeners same E event_name start stop s)
    unfolding Events.remove_all_listeners
    remove_all-IsTuned s t = elim (Bool-cases (is_nonempty (heard s))) [
      | inl here ↦
          tell_all-IsTuned cleared (E.event_names s.delegate) t.installed t.one none_left
            (E.includes-event_names s.delegate event_name (λ gone. cc (here, gone)))
      | inr gone ↦ tell-IsTuned cleared (E.event_names s.delegate) (record {
        installed = t.installed;
        wrapped_once = rw none_left tt;
        one = t.one;
        tuned = rw none_left (t.tuned ∙ gone);
      })
    ]
      where
        cleared : St
        cleared = record s { delegate = E.remove_all_listeners s.delegate }

        none_left : heard cleared ≡ []
        none_left = E.listeners-remove_all s.delegate event_name

    -- Another event's listener of `once` is removed and called.
    dropped_other :
        (s : St) (n : String) (h : Handler L) (l : L)
        → IsTuned s
        → str_eq n event_name ≡ false
        → IsTuned (record s { delegate = E.remove_once s.delegate n h; called = l ∷ s.called })
    dropped_other s n h l t e =
        let same_list : E.listeners (E.remove_once s.delegate n h) event_name ≡ heard s =
          E.listeners-remove_once s.delegate n event_name h ∙ other_list s n h e in
        record {
          installed = t.installed;
          wrapped_once = rw same_list t.wrapped_once;
          one = t.one;
          tuned = rw same_list t.tuned;
        }
      where
        other_list :
            (s : St) (n : String) (h : Handler L)
            → str_eq n event_name ≡ false
            → (if str_eq n event_name
                then keep (λ x. not (same_handler same x.fn h && x.once)) (heard s)
                else heard s)
              ≡ heard s
        other_list s n h e = rw e refl

    -- What is left when a listener of `once` was removed.
    dropped :
        (s : St) (n : String) (h : Handler L)
        → IsTuned s
        → (str_eq n event_name ≡ true → is_calm throws h ≡ true)
        → IsTuned (
            Events.run_handler same E event_name start stop throws
              (record s { delegate = E.remove_once s.delegate n h })
              n
              h)
    dropped s n (plain l) t w = elim (Bool-cases (str_eq n event_name)) [
      | inl e ↦ absurd (cc (w e))
      | inr e ↦ dropped_other s n (plain l) l t e
    ]
    dropped s n (wrapped i l) t w = elim (Bool-cases (throws l)) [
      | inl bad ↦ rw bad (elim (Bool-cases (str_eq n event_name)) [
        | inl e ↦ absurd (cc (bad, w e))
        | inr e ↦ dropped_other s n (wrapped i l) l t e
      ])
      | inr fine ↦
          let law = E.listeners-remove_once s.delegate n event_name (wrapped i l) in
          rw fine (
            removed
              (record s {
                delegate = E.remove_once s.delegate n (wrapped i l);
                called = l ∷ s.called;
              })
              n t.installed
              (rw law (elim (Bool-cases (str_eq n event_name)) [
                | inl e ↦ rw e (keep-All (IsCalmOnce throws) _ (heard s) t.wrapped_once)
                | inr e ↦ rw e t.wrapped_once
              ]))
              t.one (λ e stopped. rw (law, e) (empty-keep _ (heard s) (sym t.tuned ∙ stopped)))
              (λ e. rw (law, e) t.tuned))
    ]

    -- What is left when a listener that stays was called.
    kept :
        (s : St) (n : String) (h : Handler L)
        → IsTuned s
        → IsTuned (Events.run_handler same E event_name start stop throws s n h)
    kept s n (plain l) t = record {
      installed = t.installed;
      wrapped_once = t.wrapped_once;
      one = t.one;
      tuned = t.tuned;
    }
    kept s n (wrapped i l) t =
        let called : St = record s { called = l ∷ s.called } in
        let here : IsTuned called = record {
          installed = t.installed;
          wrapped_once = t.wrapped_once;
          one = t.one;
          tuned = t.tuned;
        } in
        elim (Bool-cases (throws l)) [
          | inl bad ↦ rw bad here
          | inr fine ↦ rw fine (told-IsTuned called n here)
        ]

    call-IsTuned :
        (s : St) (n : String) (x : Entry (Handler L))
        → IsTuned s
        → (str_eq n event_name ≡ true → IsCalmOnce throws x)
        → IsTuned (Events.call same E event_name start stop throws s n x)
    unfolding Events.call
    call-IsTuned s n x t w = elim (Bool-cases x.once) [
      | inl e ↦ rw e (dropped s n x.fn t (λ q. w q e))
      | inr e ↦ rw e (kept s n x.fn t)
    ]

    call_all-IsTuned :
        (s : St) (n : String) (xs : List (Entry (Handler L)))
        → IsTuned s
        → (str_eq n event_name ≡ true → All (IsCalmOnce throws) xs)
        → IsTuned (Events.call_all same E event_name start stop throws s n xs)
    unfolding Events.call_all
    call_all-IsTuned s n [] t w = t
    call_all-IsTuned s n (x ∷ xs) t w =
        let next = Events.call same E event_name start stop throws s n x in
        let here = call-IsTuned s n x t (λ e. (w e).0) in
        elim (Bool-cases (Events.throws_in same E event_name start stop throws x.fn)) [
          | inl bad ↦ rw bad here
          | inr fine ↦ rw fine (call_all-IsTuned next n xs here (λ e. (w e).1))
        ]

    emit-IsTuned :
        (s : St) (n : String)
        → IsTuned s
        → IsTuned (Events.emit same E event_name start stop throws s n)
    unfolding Events.emit
    emit-IsTuned s n t =
        call_all-IsTuned s n (E.listeners s.delegate n) t
          (λ e. rw ((eq_iff n event_name).0 e) t.wrapped_once)

    -- The call does not add a listener by `once` that throws.
    abbrev pub IsCalm : Call same E event_name start stop → Type 0
    IsCalm (calls_once n l) = throws l ≡ false
    IsCalm _ = Unit

    step-IsTuned :
        (s : St) (c : Call same E event_name start stop)
        → IsCalm c
        → IsTuned s
        → IsTuned (Events.step same E event_name start stop throws s c)
    unfolding Events.step
    step-IsTuned s (calls_on n l) calm t = on-IsTuned s n l t
    step-IsTuned s (calls_once n l) calm t = once-IsTuned s n l calm t
    step-IsTuned s (calls_off n l) calm t = off-IsTuned s n l t
    step-IsTuned s calls_remove_all calm t = remove_all-IsTuned s t
    step-IsTuned s (calls_emit n) calm t = emit-IsTuned s n t

    run-IsTuned :
        (s : St) (cs : List (Call same E event_name start stop))
        → All IsCalm cs
        → IsTuned s
        → IsTuned (Events.run same E event_name start stop throws s cs)
    unfolding Events.run
    run-IsTuned s [] calm t = t
    run-IsTuned s (c ∷ cs) (calm, more) t =
        run-IsTuned (Events.step same E event_name start stop throws s c) cs more
          (step-IsTuned s c calm t)

    init-IsTuned :
        (s : St)
        → All (IsCalmOnce throws) (heard s)
        → s.producer ≡ none
        → live s.world ≡ 0
        → IsTuned (Events.init_event_gateway same E event_name start stop s)
    unfolding Events.init_event_gateway
    init-IsTuned s w idle quiet =
        rw (E.count-listeners s.delegate event_name, positive-length (heard s))
          (elim (Bool-cases (is_nonempty (heard s))) [
            | inl here ↦ rw here (record {
              installed = refl;
              wrapped_once = w;
              one = omega (arith, paired.0 s.world, quiet);
              tuned = sym here;
            })
            | inr gone ↦ rw gone (record {
              installed = refl;
              wrapped_once = w;
              one = rw idle quiet;
              tuned = rw (idle, gone) refl;
            })
          ])

    -- Let a gateway be installed on an emitter whose listeners were added by its own methods, with
    -- no producer yet, and let no listener that was added by `once` throw. After any calls of on, once,
    -- off, removeAllListeners and emit, the world has one producer of the gateway if its event has a
    -- listener, and none if it has no listener. Listeners that were added by `on` may throw.
    pub run_gateway-is_live :
        (s : St) (cs : List (Call same E event_name start stop))
        → All (IsCalmOnce throws) (heard s)
        → All IsCalm cs
        → s.producer ≡ none
        → live s.world ≡ 0
        → live
            (Events.run same E event_name start stop throws
              (Events.init_event_gateway same E event_name start stop s)
              cs).world
          ≡ one_if (
              is_nonempty (
                heard (
                  Events.run same E event_name start stop throws
                    (Events.init_event_gateway same E event_name start stop s)
                    cs)))
    run_gateway-is_live s cs w calm idle quiet =
        let t = run-IsTuned _ cs calm (init-IsTuned s w idle quiet) in t.one ∙ ap one_if t.tuned
