-- ===== src/Validator/SystemRecovery/Restarts.antt =====
-- packages/validator/src/threads/SystemRecovery.ts: how often a restart is planned.
use logstore_archive.Base.{
  ℕ, suc, ◌+◌, ◌<◌, String, ◌≡◌, refl, ap, ◌∙◌, Bool, true, false, List, [], ◌∷◌, ◌++◌, arith,
  str_eq, Bool-cases, inl, inr,
}
use logstore_archive.Protocol.Message.{SystemMessage, message, Body, MessageMetadata}
use logstore_archive.Base.JsMap
use logstore_archive.Validator.SystemRecovery.{
  Recovery, Received, Handler, Command, start_timer, update_timer, stop_timer, restart_later,
  stop_soon, call_soon, RecoverySummary, after_complete, on_recovery_message, settle,
  settle_response, settle_complete, fail, or_new, summary,
}
use logstore_archive.Validator.SystemRecovery.Errors.{answers, on_recovery_message-gap}

abbrev pub restarts_in : List Command → ℕ
restarts_in [] = 0
restarts_in (restart_later ∷ cs) = suc (restarts_in cs)
restarts_in (c ∷ cs) = restarts_in cs

abbrev one_if : Bool → ℕ
one_if true = 1
one_if false = 0

-- The messages that come between two calls of the endpoint.
unfoldable pub receive_messages :
    Handler → Recovery → List (SystemMessage × MessageMetadata) → Recovery
receive_messages handles st [] = st
receive_messages handles st ((m, metadata) ∷ rest) =
    receive_messages handles (on_recovery_message handles st m metadata) rest

restarts_in-append :
    (cs ds : List Command) → restarts_in (cs ++ ds) ≡ restarts_in cs + restarts_in ds
restarts_in-append [] ds = omega arith
restarts_in-append (start_timer ∷ cs) ds = restarts_in-append cs ds
restarts_in-append (update_timer ∷ cs) ds = restarts_in-append cs ds
restarts_in-append (stop_timer ∷ cs) ds = restarts_in-append cs ds
restarts_in-append (restart_later ∷ cs) ds = omega (arith, restarts_in-append cs ds)
restarts_in-append (stop_soon ∷ cs) ds = restarts_in-append cs ds
restarts_in-append (call_soon ∷ cs) ds = restarts_in-append cs ds

-- A restart is planned exactly when the recovery begins to restart, and it goes on to be so.
record IsOnce (st st' : Recovery) : Type 0 where
  stays : st.is_restarting ≡ true → st'.is_restarting ≡ true
  once :
      restarts_in st'.commands + one_if st.is_restarting
      ≡ restarts_in st.commands + one_if st'.is_restarting

IsOnce-refl : (st : Recovery) → IsOnce st st
IsOnce-refl st = record { stays = λ h. h; once = refl }

IsOnce-trans : (a b c : Recovery) → IsOnce a b → IsOnce b c → IsOnce a c
IsOnce-trans a b c h k = record {
  stays = λ e. k.stays (h.stays e);
  once = omega (arith, h.once, k.once);
}

fail-IsOnce : (st : Recovery) → IsOnce st (fail st)
fail-IsOnce st = record {
  stays = λ h. ground (arith, h);
  once = ground (arith, restarts_in-append st.commands (stop_timer ∷ restart_later ∷ []));
}

-- Commands that are no restarts change nothing.
added-IsOnce :
    (st st' : Recovery) (cs : List Command)
    → st'.is_restarting ≡ st.is_restarting
    → st'.commands ≡ st.commands ++ cs
    → restarts_in cs ≡ 0
    → IsOnce st st'
added-IsOnce st st' cs same commands quiet = record {
  stays = λ h. same ∙ h;
  once =
      omega
        (arith, ap restarts_in commands, restarts_in-append st.commands cs, quiet, ap one_if same);
}

-- What fails is settled first.
settled-IsOnce : (st : Recovery) (k : String) (r : Received) → IsOnce st (fail (settle st k r))
settled-IsOnce st k r = record {
  stays = (fail-IsOnce (settle st k r)).stays;
  once = (fail-IsOnce (settle st k r)).once;
}

after_complete-restarts :
    (s : RecoverySummary) → restarts_in (after_complete s ++ update_timer ∷ []) ≡ 0
after_complete-restarts s = elim (Bool-cases s.is_complete) [
  | inl c ↦ elim (Bool-cases s.is_fulfilled) [ inl f ↦ rw (c, f) refl | inr f ↦ rw (c, f) refl ]
  | inr c ↦ rw c refl
]

settle_response-IsOnce :
    (st : Recovery) (k : String) (r : Received) → IsOnce st (settle_response st k r)
unfolding settle_response
settle_response-IsOnce st k r = elim (Bool-cases r.succeeded) [
  | inl e ↦ simp e (added-IsOnce st _ (update_timer ∷ []) refl refl refl)
  | inr e ↦ simp e (settled-IsOnce st k r)
]

settle_complete-IsOnce :
    (st : Recovery) (k : String) (r : Received) → IsOnce st (settle_complete st k r)
unfolding settle_complete
settle_complete-IsOnce st k r =
    let s = summary (JsMap.set st.progresses k r.progress) in
    elim (Bool-cases r.succeeded) [
      | inl e ↦ simp e (
          added-IsOnce st _ (after_complete s ++ update_timer ∷ []) refl refl
            (after_complete-restarts s))
      | inr e ↦ simp e (settled-IsOnce st k r)
    ]

module _ (handles : Handler) where
  step-IsOnce :
      (st : Recovery) (m : SystemMessage) (metadata : MessageMetadata)
      → IsOnce st (on_recovery_message handles st m metadata)
  unfolding on_recovery_message
  step-IsOnce st (message v n (Body.recovery_response id payload)) metadata =
      elim (Bool-cases (str_eq id st.request_id)) [
        | inl e ↦ rw e (settle_response-IsOnce st metadata.publisher_id _)
        | inr e ↦ rw e (IsOnce-refl st)
      ]
  step-IsOnce st (message v n (Body.recovery_complete q)) metadata =
      elim (Bool-cases (str_eq q.request_id st.request_id)) [
        | inl e ↦ rw e (settle_complete-IsOnce st metadata.publisher_id _)
        | inr e ↦ rw e (IsOnce-refl st)
      ]
  step-IsOnce st (message v n _) metadata = IsOnce-refl st

  run-IsOnce :
      (st : Recovery) (ms : List (SystemMessage × MessageMetadata))
      → IsOnce st (receive_messages handles st ms)
  unfolding receive_messages
  run-IsOnce st [] = IsOnce-refl st
  run-IsOnce st ((m, metadata) ∷ rest) =
      let next = on_recovery_message handles st m metadata in
      IsOnce-trans st next _ (step-IsOnce st m metadata) (run-IsOnce next rest)

  receive-append :
      (st : Recovery) (ms ns : List (SystemMessage × MessageMetadata))
      → receive_messages handles st (ms ++ ns)
        ≡ receive_messages handles (receive_messages handles st ms) ns
  unfolding receive_messages
  receive-append st [] ns = refl
  receive-append st ((m, metadata) ∷ rest) ns =
      receive-append (on_recovery_message handles st m metadata) rest ns

  -- If among the messages that come while no restart is planned one answers the request with a number
  -- more than one past the last of its sender, then exactly one restart is planned by the end of them,
  -- whatever fails before it and after it.
  pub restarts_in-gap :
      (st : Recovery) (before after : List (SystemMessage × MessageMetadata)) (v n : ℕ) (b : Body)
      (metadata : MessageMetadata)
      → st.is_restarting ≡ false
      → answers (receive_messages handles st before).request_id b ≡ true
      → (or_new (
          JsMap.get
            (receive_messages handles st before).progresses
            metadata.publisher_id)).next_seq_num
        < n
      → restarts_in
          (receive_messages handles st (before ++ (message v n b, metadata) ∷ after)).commands
        ≡ suc (restarts_in st.commands)
  restarts_in-gap st before after v n b metadata idle asked gap =
      let mid = receive_messages handles st before in
      let next = on_recovery_message handles mid (message v n b) metadata in
      let end = receive_messages handles next after in
      let failed = on_recovery_message-gap handles mid v n b metadata asked gap in
      let first = run-IsOnce st before in
      let second = step-IsOnce mid (message v n b) metadata in
      let third = run-IsOnce next after in
      let all = IsOnce-trans st mid end first (IsOnce-trans mid next end second third) in
      let restarting : end.is_restarting ≡ true = third.stays failed.restarting in
      let same : receive_messages handles st (before ++ (message v n b, metadata) ∷ after) ≡ end =
        receive-append st before ((message v n b, metadata) ∷ after)
        ∙ unfold receive_messages in refl in
      ap (λ s. restarts_in s.commands) same
      ∙ omega (arith, all.once, ap one_if restarting, ap one_if idle)
