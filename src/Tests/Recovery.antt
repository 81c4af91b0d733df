-- ===== src/Tests/Recovery.antt =====
-- The recovery and the rolling configuration on concrete messages.
use logstore_archive.Base.{
  suc, ◌++◌, ℕ, ◌≤◌, String, ◌≡◌, refl, true, false, some, List, [], ◌∷◌, arith, any, ◌==◌,
}
use logstore_archive.Base.JsMap
use logstore_archive.Base.JsMap.{JsMap}
use logstore_archive.Protocol.Message.{MessageMetadata, message, Body, Payload}
use logstore_archive.Validator.RollingConfig.{Switches}
use logstore_archive.Validator.SystemRecovery.{
  summarize, RecoveryProgress, no_progress, Recovery, Handler, on_recovery_message, summary,
  process_recovery_complete, process_recovery_response, process_payload,
}
use logstore_archive.Validator.SystemRecovery.Summary.{summary-le-progress}
use logstore_archive.Validator.SystemRecovery.Rounds.{receive_all, complete_round, all_messages}
use logstore_archive.Validator.SystemRecovery.Restarts.{
  restarts_in, receive_messages, restarts_in-gap,
}

abbrev switches : Switches
switches = record { to_ten = 100; to_twenty = 200 }

abbrev metadata_of : String → MessageMetadata
metadata_of publisher_id = record {
  stream_id = "stream";
  stream_partition = 0;
  timestamp = 10;
  sequence_number = 0;
  signature = "sig";
  publisher_id = publisher_id;
  msg_chain_id = "chain";
}

abbrev completed : RecoveryProgress
completed = record { timestamp = some 7; next_seq_num = 2; is_complete = true; is_fulfilled = true }

abbrev one_broker : JsMap RecoveryProgress
one_broker = ("a", completed) ∷ []

abbrev accepts : Handler
accepts m metadata = true

abbrev running : Recovery
running = record {
  request_id = "mine";
  to_timestamp = 100;
  progresses = one_broker;
  is_restarting = false;
  delivered = [];
  calls = [];
  commands = [];
}

abbrev complete_body : String → Body
complete_body id = Body.recovery_complete (record { request_id = id; is_fulfilled = true })

summary-le-progress_example : 7 ≤ 7
summary-le-progress_example =
    summary-le-progress one_broker "a" completed 7 7 (unfold summary summarize in refl)
      (unfold JsMap.get in refl) refl

abbrev after_other : Recovery
after_other =
    on_recovery_message accepts running (message 1 0 (complete_body "mine")) (metadata_of "b")

-- A message with a gap, and then another one that fails.
restarts_in-gap_example :
    restarts_in
      (receive_messages accepts running (
        []
        ++ (message 1 5 (complete_body "mine"), metadata_of "a")
          ∷ (message 1 9 (complete_body "mine"), metadata_of "a")
          ∷ [])).commands
    ≡ suc (restarts_in running.commands)
restarts_in-gap_example =
    restarts_in-gap accepts running [] ((message 1 9 (complete_body "mine"), metadata_of "a") ∷ [])
      1 5 (complete_body "mine") (metadata_of "a") refl (unfold receive_messages in refl)
      (unfold receive_messages JsMap.get in omega arith)

abbrev one_message : Payload
one_message = Payload.cons (message 1 0 (complete_body "x")) (metadata_of "p") Payload.nil

abbrev after_two : RecoveryProgress
after_two = record {
  timestamp = some 10;
  next_seq_num = 2;
  is_complete = false;
  is_fulfilled = false;
}

abbrev responses : List (ℕ × Payload)
responses = (0, one_message) ∷ (1, one_message) ∷ []

complete_round_example :
    (any (λ r. r.0 == 1) responses ≡ true) × (all_messages responses ≡ all_messages responses)
complete_round_example =
    complete_round accepts responses no_progress after_two (all_messages responses) 2 1 true
      (metadata_of "a") refl (unfold receive_all process_recovery_response process_payload in refl)
      (unfold process_recovery_complete in refl) (omega arith)
