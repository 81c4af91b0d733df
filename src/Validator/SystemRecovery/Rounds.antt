-- ===== src/Validator/SystemRecovery/Rounds.antt =====
-- What a round of the recovery has received when it goes through.
use mathlib.Core.List.{append_assoc, append-nil}
use logstore_archive.Base.{
  ℕ, suc, ◌<◌, ◌≤◌, ◌≡◌, ◌⊎◌, refl, sym, ◌∙◌, inl, inr, Bool, true, Option, none, some, List, [],
  ◌∷◌, ◌++◌, arith, ◌==◌, any, if◌then◌else◌, Bool-cases,
}
use logstore_archive.Protocol.Message.{Payload, MessageMetadata}
use logstore_archive.Validator.SystemRecovery.{
  RecoveryProgress, Delivered, Handler, process_payload, process_recovery_response,
  process_recovery_complete,
}

abbrev pub messages : Payload → Delivered
messages Payload.nil = []
messages (Payload.cons m metadata rest) = (m, metadata) ∷ messages rest

-- The payloads of a list of responses, each with its number.
abbrev pub all_messages : List (ℕ × Payload) → Delivered
all_messages [] = []
all_messages ((n, payload) ∷ rs) = messages payload ++ all_messages rs

none≢some : {A : Type 0} {a : A} → none ≡ some a → ⊥
none≢some e = cc

here_or_before :
    (n s next : ℕ) (rs : List (ℕ × Payload))
    → s < suc n
    → n ≤ next
    → (s < next) ⊎ (any (λ r. r.0 == s) ((n, Payload.nil) ∷ rs) ≡ true)
here_or_before n s next rs lt le = ground arith

module _ (handles : Handler) where
  -- The responses of one broker in the order of arrival, while none of them fails.
  unfoldable pub receive_all :
      RecoveryProgress → Delivered → List (ℕ × Payload) → Option (RecoveryProgress × Delivered)
  receive_all p log [] = some (p, log)
  receive_all p log ((n, payload) ∷ rs) =
      let r = process_recovery_response handles p n payload in
      let next = receive_all r.progress (log ++ r.handed_on) rs in
      if r.succeeded then next else none

  process_payload-succeeded :
      (payload : Payload) (p : RecoveryProgress) (log : Delivered)
      → (process_payload handles p log payload).succeeded ≡ true
      → ((process_payload handles p log payload).handed_on ≡ log ++ messages payload)
        × ((process_payload handles p log payload).progress.next_seq_num ≡ p.next_seq_num)
  unfolding process_payload
  process_payload-succeeded Payload.nil p log h = (sym (append-nil log), refl)
  process_payload-succeeded (Payload.cons m metadata rest) p log h =
      elim (Bool-cases (handles m metadata)) [
        | inl fine ↦
            let (a, b) =
              process_payload-succeeded rest (record p { timestamp = some metadata.timestamp })
                (log ++ (m, metadata) ∷ []) (rw fine at h) in
            (rw fine (a ∙ append_assoc log ((m, metadata) ∷ []) (messages rest)), rw fine b)
        | inr bad ↦ ground arith
      ]

  -- an accepted response is at most one ahead, and is handed on whole
  process_recovery_response-succeeded :
      (p : RecoveryProgress) (n : ℕ) (payload : Payload)
      → (process_recovery_response handles p n payload).succeeded ≡ true
      → (n ≤ p.next_seq_num)
        × ((process_recovery_response handles p n payload).handed_on ≡ messages payload)
        × ((process_recovery_response handles p n payload).progress.next_seq_num ≡ suc n)
  unfolding process_recovery_response
  process_recovery_response-succeeded p n payload h =
      ground (arith, process_payload-succeeded payload p [])

  -- the response at the head is accepted, and the rest goes on from where it leads
  receive_all-step :
      (n : ℕ) (payload : Payload) (rs : List (ℕ × Payload)) (p : RecoveryProgress) (log : Delivered)
      {x : RecoveryProgress × Delivered}
      → receive_all p log ((n, payload) ∷ rs) ≡ some x
      → (q : RecoveryProgress) × (n ≤ p.next_seq_num)
        × (q.next_seq_num ≡ suc n)
        × (receive_all q (log ++ messages payload) rs ≡ some x)
  unfolding receive_all
  receive_all-step n payload rs p log h =
      elim (Bool-cases (process_recovery_response handles p n payload).succeeded) [
        | inl fine ↦
            let (near, whole, next) = process_recovery_response-succeeded p n payload fine in
            (
              (process_recovery_response handles p n payload).progress,
              near,
              next,
              rw (← whole) (rw fine at h),
            )
        | inr bad ↦ absurd (none≢some (rw bad at h))
      ]

  receive_all-log :
      (rs : List (ℕ × Payload)) (p q : RecoveryProgress) (log log' : Delivered)
      → receive_all p log rs ≡ some (q, log')
      → log' ≡ log ++ all_messages rs
  receive_all-log [] p q log log' h = unfold receive_all in sym (append-nil log ∙ ground arith)
  receive_all-log ((n, payload) ∷ rs) p q log log' h =
      let (r, near, next, rest) = receive_all-step n payload rs p log h in
      receive_all-log rs r q (log ++ messages payload) log' rest
      ∙ append_assoc log (messages payload) (all_messages rs)

  receive_all-covers :
      (rs : List (ℕ × Payload)) (p q : RecoveryProgress) (log log' : Delivered) (s : ℕ)
      → receive_all p log rs ≡ some (q, log')
      → s < q.next_seq_num
      → (s < p.next_seq_num) ⊎ (any (λ r. r.0 == s) rs ≡ true)
  receive_all-covers [] p q log log' s h lt = inl (unfold receive_all in ground arith)
  receive_all-covers ((n, payload) ∷ rs) p q log log' s h lt =
      let (r, near, next, rest) = receive_all-step n payload rs p log h in
      elim (receive_all-covers rs r q (log ++ messages payload) log' s rest lt) [
        | inl below ↦ here_or_before n s p.next_seq_num rs (omega arith) near
        | inr seen ↦ inr (ground arith)
      ]

  -- When the responses of a broker, none received before, go through and its RecoveryComplete is
  -- accepted, a response of each number below the one of the RecoveryComplete was received, and
  -- the messages handed on are those of all the responses, in their order: no response was lost.
  pub complete_round :
      (rs : List (ℕ × Payload)) (p q : RecoveryProgress) (log : Delivered) (c s : ℕ)
      (is_fulfilled : Bool) (metadata : MessageMetadata)
      → p.next_seq_num ≡ 0
      → receive_all p [] rs ≡ some (q, log)
      → (process_recovery_complete q c is_fulfilled metadata).succeeded ≡ true
      → s < c
      → (any (λ r. r.0 == s) rs ≡ true) × (log ≡ all_messages rs)
  unfolding process_recovery_complete
  complete_round rs p q log c s is_fulfilled metadata start h done lt =
      elim (receive_all-covers rs p q [] log s h (ground arith)) [
        | inl below ↦ absurd (omega arith)
        | inr seen ↦ (seen, receive_all-log rs p q [] log h)
      ]
