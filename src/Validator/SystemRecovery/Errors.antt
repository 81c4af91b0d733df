-- ===== src/Validator/SystemRecovery/Errors.antt =====
-- Which messages change the state of the recovery, and what an error leaves.
use mathlib.Core.List.{append-nil}
use logstore_archive.Base.{
  ℕ, ◌<◌, String, ◌≡◌, ◌≢◌, refl, Bool, true, false, [], ◌∷◌, ◌++◌, arith, ltb, str_eq,
  if◌then◌else◌, eq_iff,
}
use logstore_archive.Base.JsMap
use logstore_archive.Protocol.Message.{message, Body, MessageMetadata}
use logstore_archive.Validator.SystemRecovery.{
  RecoveryProgress, Recovery, Handler, process_recovery_response, process_recovery_complete,
  on_recovery_message, stop_timer, restart_later, settle_response, settle_complete, or_new, fail,
  settle,
}

-- an answer to the request `id`
abbrev pub answers : String → Body → Bool
answers id (Body.recovery_response request_id payload) = str_eq request_id id
answers id (Body.recovery_complete q) = str_eq q.request_id id
answers id _ = false

-- What a message that failed leaves: nothing was handed on, the sender's progress is as it was,
-- and a restart is planned, once.
pub record Failed (st st' : Recovery) (publisher_id : String) : Type 0 where
  pub delivered : st'.delivered ≡ st.delivered
  pub progress :
      or_new (JsMap.get st'.progresses publisher_id) ≡ or_new (JsMap.get st.progresses publisher_id)
  pub restarting : st'.is_restarting ≡ true
  pub commands :
      st'.commands
      ≡ (if st.is_restarting then st.commands else st.commands ++ (stop_timer ∷ restart_later ∷ []))

fail-settle-Failed :
    (st : Recovery) (k : String) (p : RecoveryProgress)
    → p ≡ or_new (JsMap.get st.progresses k)
    → Failed st (fail (settle st k (record { succeeded = false; progress = p; handed_on = [] }))) k
fail-settle-Failed st k p same = record {
  delivered = ground (arith, append-nil st.delivered);
  progress = ground (arith, JsMap.get-set_self st.progresses k p);
  restarting = ground arith;
  commands = ground arith;
}

module _ (handles : Handler) where
  -- A message leaves the progress of every broker but its sender as it was.
  pub get-on_recovery_message :
      (st : Recovery) (v n : ℕ) (b : Body) (metadata : MessageMetadata) (k : String)
      → metadata.publisher_id ≢ k
      → JsMap.get (on_recovery_message handles st (message v n b) metadata).progresses k
        ≡ JsMap.get st.progresses k
  unfolding on_recovery_message settle_response settle_complete
  get-on_recovery_message st v n (Body.recovery_response request_id payload) metadata k h = ground (
    arith,
    eq_iff metadata.publisher_id k,
    JsMap.get-set st.progresses metadata.publisher_id k
        (process_recovery_response handles (or_new (JsMap.get st.progresses metadata.publisher_id))
          n payload).progress,
  )
  get-on_recovery_message st v n (Body.recovery_complete q) metadata k h = ground (
    arith,
    eq_iff metadata.publisher_id k,
    JsMap.get-set st.progresses metadata.publisher_id k
        (process_recovery_complete (or_new (JsMap.get st.progresses metadata.publisher_id)) n
          q.is_fulfilled metadata).progress,
  )
  get-on_recovery_message st v n _ metadata k h = refl

  -- A response or a RecoveryComplete to the request that was made, with a number more than one
  -- past the sender's last, fails: nothing is handed on, the sender's progress is as it was, and a
  -- restart is planned unless one is planned already.
  pub on_recovery_message-gap :
      (st : Recovery) (v n : ℕ) (b : Body) (metadata : MessageMetadata)
      → answers st.request_id b ≡ true
      → (or_new (JsMap.get st.progresses metadata.publisher_id)).next_seq_num < n
      → Failed st (on_recovery_message handles st (message v n b) metadata) metadata.publisher_id
  unfolding on_recovery_message settle_response settle_complete process_recovery_response
      process_recovery_complete
  on_recovery_message-gap st v n (Body.recovery_response request_id payload) metadata h lt =
      let late : ltb (or_new (JsMap.get st.progresses metadata.publisher_id)).next_seq_num n
          ≡ true =
        ground arith in
      rw (h, late)
        (fail-settle-Failed st metadata.publisher_id
          (or_new (JsMap.get st.progresses metadata.publisher_id)) refl)
  on_recovery_message-gap st v n (Body.recovery_complete q) metadata h lt =
      let late : ltb (or_new (JsMap.get st.progresses metadata.publisher_id)).next_seq_num n
          ≡ true =
        ground arith in
      rw (h, late)
        (fail-settle-Failed st metadata.publisher_id
          (or_new (JsMap.get st.progresses metadata.publisher_id)) refl)
  on_recovery_message-gap st v n _ metadata h lt = cc
