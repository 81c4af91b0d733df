-- ===== src/Tests/Indexing.antt =====
-- A gate for a block that The Graph reads later.
use logstore_archive.Base.{◌≡◌, refl, [], ◌∷◌, arith}
use logstore_archive.Client.Indexing.{
  BlockNumberGate, IndexingState, new_indexing_state, get_or_create_gate, answered, rested,
  poll_failed, waits, answers, Run, start, next,
}
use logstore_archive.Client.Indexing.Laws.{IsPolled, run-IsPolled}

abbrev gate_five : BlockNumberGate
gate_five = record { id = 1; block_number = 5 }

abbrev waiting_five : IndexingState
waiting_five = (get_or_create_gate gate_five new_indexing_state).1

abbrev seen_three : IndexingState
seen_three = (answered 3 waiting_five).1

run_to_three : Run new_indexing_state seen_three
unfolding get_or_create_gate
run_to_three =
    next new_indexing_state waiting_five seen_three
      (next new_indexing_state new_indexing_state waiting_five (start new_indexing_state)
        (waits gate_five new_indexing_state))
      (answers 3 waiting_five (omega arith))

run-IsPolled_example : IsPolled seen_three
run-IsPolled_example = run-IsPolled seen_three run_to_three

opened_at_five : (answered 5 (rested seen_three)).0 ≡ gate_five ∷ []
unfolding answered rested get_or_create_gate
opened_at_five = refl

-- After a request that failed, the gate is still waited for, and no loop polls, also when another gate
-- comes.
failed_polls :
    (get_or_create_gate (record { id = 2; block_number = 6 }) (poll_failed waiting_five)).1
    ≡ record {
      block_number = 0;
      gates = record { id = 2; block_number = 6 } ∷ gate_five ∷ [];
      asking = 0;
      resting = 0;
    }
unfolding get_or_create_gate poll_failed
failed_polls = refl
