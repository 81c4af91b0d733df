-- ===== src/Validator/SystemRecovery.antt =====
-- packages/validator/src/threads/SystemRecovery.ts: the recovery of missed system messages from the
-- brokers. One message or one call of the endpoint is one step; what runs while a handler waits is
-- not modelled.
pub mod Summary
pub mod Rounds
pub mod Errors
pub mod Restarts
use logstore_archive.Base.{
  ℕ, suc, ◌+◌, String, Bool, true, false, ◌&&◌, Option, none, some, List, [], ◌∷◌, ◌++◌, ltb,
  str_eq, if◌then◌else◌, min,
}
use logstore_archive.Base.JsMap
use logstore_archive.Base.JsMap.{JsMap}
use logstore_archive.Protocol.Message.{SystemMessage, message, Body, Payload, MessageMetadata}

-- `lastSeqNum` starts at -1: `next_seq_num` is `lastSeqNum + 1`.
pub record RecoveryProgress : Type 0 where
  pub timestamp : Option ℕ
  pub next_seq_num : ℕ
  pub is_complete : Bool
  pub is_fulfilled : Bool

pub record RecoverySummary : Type 0 where
  pub timestamp : Option ℕ
  pub is_complete : Bool
  pub is_fulfilled : Bool

abbrev pub no_progress : RecoveryProgress
no_progress = record {
  timestamp = none;
  next_seq_num = 0;
  is_complete = false;
  is_fulfilled = false;
}

-- `Number.MAX_SAFE_INTEGER`
abbrev pub max_safe_integer : ℕ
max_safe_integer = 9007199254740991

abbrev pub unknown_summary : RecoverySummary
unknown_summary = record { timestamp = none; is_complete = false; is_fulfilled = false }

-- The loop of the getter `progress`.
unfoldable pub summarize : ℕ → Bool → Bool → JsMap RecoveryProgress → RecoverySummary
summarize t c f [] = record { timestamp = some t; is_complete = c; is_fulfilled = f }
summarize t c f ((k, p) ∷ rest) = elim p.timestamp [
  | none ↦ unknown_summary
  | some u ↦ summarize (min t u) (c && p.is_complete) (f && p.is_fulfilled) rest
]

-- the getter `progress`
unfoldable pub summary : JsMap RecoveryProgress → RecoverySummary
summary [] = unknown_summary
summary (e ∷ rest) = summarize max_safe_integer true true (e ∷ rest)

-- What a step asks of the timers and of the event loop.
pub data Command : Type 0 where
  start_timer update_timer stop_timer : Command
  restart_later stop_soon call_soon : Command

abbrev pub Delivered : Type 0
Delivered = List (SystemMessage × MessageMetadata)

pub record Recovery : Type 0 where
  pub request_id : String
  pub to_timestamp : ℕ
  pub progresses : JsMap RecoveryProgress
  pub is_restarting : Bool
  -- the calls of `onSystemMessage`, of the endpoint with its `from` and `to`, and the commands
  pub delivered : Delivered
  pub calls : List (ℕ × ℕ)
  pub commands : List Command

-- What became of one message: whether it was processed without an error, the sender's progress and
-- the messages that were handed on.
pub record Received : Type 0 where
  pub succeeded : Bool
  pub progress : RecoveryProgress
  pub handed_on : Delivered

-- `onSystemMessage`: whether it returns, for it may throw.
abbrev pub Handler : Type 0
Handler = SystemMessage → MessageMetadata → Bool

module _ (handles : Handler) where
  -- The loop of `processRecoveryResponse`.
  unfoldable pub process_payload : RecoveryProgress → Delivered → Payload → Received
  process_payload p log Payload.nil = record { succeeded = true; progress = p; handed_on = log }
  process_payload p log (Payload.cons m metadata rest) =
      let log' = log ++ (m, metadata) ∷ [] in
      let next = process_payload (record p { timestamp = some metadata.timestamp }) log' rest in
      if handles m metadata
      then next
      else record { succeeded = false; progress = p; handed_on = log' }

  abbrev finish_response : ℕ → Received → Received
  finish_response seq_num r =
      if r.succeeded
      then record r { progress = record r.progress { next_seq_num = suc seq_num } }
      else r

  unfoldable pub process_recovery_response : RecoveryProgress → ℕ → Payload → Received
  process_recovery_response p seq_num payload =
      if ltb p.next_seq_num seq_num
      then record { succeeded = false; progress = p; handed_on = [] }
      else finish_response seq_num (process_payload p [] payload)

-- The first part of `processRecoveryComplete`, up to the check of the summary.
abbrev or_now : Option ℕ → ℕ → Option ℕ
or_now none t = some t
or_now (some u) t = some u

unfoldable pub process_recovery_complete : RecoveryProgress → ℕ → Bool → MessageMetadata → Received
process_recovery_complete p seq_num is_fulfilled metadata =
    if ltb p.next_seq_num seq_num
    then record { succeeded = false; progress = p; handed_on = [] }
    else record {
      succeeded = true;
      progress = record p {
        timestamp = or_now p.timestamp metadata.timestamp;
        is_complete = true;
        is_fulfilled = is_fulfilled;
      };
      handed_on = [];
    }

abbrev or_new : Option RecoveryProgress → RecoveryProgress
or_new none = no_progress
or_new (some p) = p

-- The second part of `processRecoveryComplete`.
abbrev after_complete : RecoverySummary → List Command
after_complete s =
    if s.is_complete
    then if s.is_fulfilled then stop_soon ∷ [] else stop_timer ∷ call_soon ∷ []
    else []

-- The `catch` of `onRecoveryMessage`.
abbrev fail : Recovery → Recovery
fail st = if st.is_restarting then st else record st {
  is_restarting = true;
  commands = st.commands ++ (stop_timer ∷ restart_later ∷ []);
}

-- The sender's progress and the log after a message.
abbrev settle : Recovery → String → Received → Recovery
settle st publisher_id r = record st {
  progresses = JsMap.set st.progresses publisher_id r.progress;
  delivered = st.delivered ++ r.handed_on;
}

unfoldable pub settle_response : Recovery → String → Received → Recovery
settle_response st publisher_id r =
    let st' = settle st publisher_id r in
    if r.succeeded then record st' { commands = st'.commands ++ (update_timer ∷ []) } else fail st'

unfoldable pub settle_complete : Recovery → String → Received → Recovery
settle_complete st publisher_id r =
    let st' = settle st publisher_id r in
    if r.succeeded
    then record st' {
      commands = st'.commands ++ (after_complete (summary st'.progresses) ++ (update_timer ∷ []));
    }
    else fail st'

module _ (handles : Handler) where
  -- `onRecoveryMessage` behind `deserialize`
  unfoldable pub on_recovery_message : Recovery → SystemMessage → MessageMetadata → Recovery
  on_recovery_message st (message v n (Body.recovery_response request_id payload)) metadata =
      if str_eq request_id st.request_id
      then settle_response st metadata.publisher_id (
          process_recovery_response handles (or_new (JsMap.get st.progresses metadata.publisher_id))
            n payload)
      else st
  on_recovery_message st (message v n (Body.recovery_complete q)) metadata =
      if str_eq q.request_id st.request_id
      then settle_complete st metadata.publisher_id (
          process_recovery_complete (or_new (JsMap.get st.progresses metadata.publisher_id)) n
            q.is_fulfilled metadata)
      else st
  on_recovery_message st (message v n _) metadata = st

abbrev pub or_zero : Option ℕ → ℕ
or_zero none = 0
or_zero (some t) = t

-- The loop of `callRecoveryEndpoint` over the brokers that answer.
unfoldable pub restart_progresses : JsMap RecoveryProgress → List String → JsMap RecoveryProgress
restart_progresses m [] = m
restart_progresses m (b ∷ bs) =
    restart_progresses
      (JsMap.set m b (record (or_new (JsMap.get m b)) {
        is_complete = false;
        is_fulfilled = false;
        next_seq_num = 0;
      }))
      bs

-- `callRecoveryEndpoint`, with the fresh id and the brokers that the endpoint names
unfoldable pub call_recovery_endpoint : Recovery → String → List String → Recovery
call_recovery_endpoint st request_id brokers = record st {
  request_id = request_id;
  calls = st.calls ++ (or_zero (summary st.progresses).timestamp, st.to_timestamp) ∷ [];
  progresses = restart_progresses st.progresses brokers;
  commands = st.commands ++ (start_timer ∷ []);
  is_restarting = false;
}
