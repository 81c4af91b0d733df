-- ===== src/Client/Indexing.antt =====
-- packages/client/src/utils/SynchronizedGraphQLClient.ts: waiting until The Graph has read a block.
pub mod Laws
use logstore_archive.Base.{
  ℕ, suc, ◌+◌, ◌-◌, ◌==◌, ◌≤◌, leb, max, ◌≡◌, Option, none, some, List, [], ◌∷◌, Bool, true, false,
  not, ◌&&◌, if◌then◌else◌, keep,
}

-- A closed `BlockNumberGate`, with a number of its own in place of its identity
pub record BlockNumberGate : Type 0 where
  pub id : ℕ
  pub block_number : ℕ

-- `asking` and `resting` count the loops of `startPolling` that wait for the number of the block and
-- for the interval.
pub record IndexingState : Type 0 where
  pub block_number : ℕ
  pub gates : List BlockNumberGate
  pub asking : ℕ
  pub resting : ℕ

abbrev pub new_indexing_state : IndexingState
new_indexing_state = record { block_number = 0; gates = []; asking = 0; resting = 0 }

abbrev pub start_polling : List BlockNumberGate → ℕ → ℕ
start_polling [] asking = suc asking
start_polling (g ∷ gs) asking = asking

abbrev pub add_gate : BlockNumberGate → IndexingState → IndexingState
add_gate g s = record {
  block_number = s.block_number;
  gates = g ∷ s.gates;
  asking = start_polling s.gates s.asking;
  resting = s.resting;
}

-- `getOrCreateGate`, with the gate that is waited for if it was closed
unfoldable pub get_or_create_gate :
    BlockNumberGate → IndexingState → Option BlockNumberGate × IndexingState
get_or_create_gate g s =
    if leb g.block_number s.block_number then (none, s) else (some g, add_gate g s)

-- `waitUntilIndexed`, when the time is up
unfoldable pub time_out : ℕ → IndexingState → IndexingState
time_out id s = record s { gates = keep (λ g. not (g.id == id)) s.gates }

-- What `gates.forEach` opens, and what it leaves
abbrev pub opened_by : ℕ → List BlockNumberGate → List BlockNumberGate
opened_by n gates = keep (λ g. leb g.block_number n) gates

abbrev pub left_by : ℕ → List BlockNumberGate → List BlockNumberGate
left_by n gates = keep (λ g. not (leb g.block_number n)) gates

-- A loop whose number of the block has arrived goes to rest, or ends where no gate is left.
abbrev pub rest_unless_done : List BlockNumberGate → ℕ → ℕ
rest_unless_done [] resting = resting
rest_unless_done (g ∷ gs) resting = suc resting

-- `answered n` is the rest of a turn of the loop, with the gates that it opens.
unfoldable pub answered : ℕ → IndexingState → List BlockNumberGate × IndexingState
answered n s =
    let left = if n == s.block_number then s.gates else left_by n s.gates in
    (
      if n == s.block_number then [] else opened_by n s.gates,
      record {
        block_number = n;
        gates = left;
        asking = s.asking - 1;
        resting = rest_unless_done left s.resting;
      },
    )

-- The request failed: the loop ends with a promise that is rejected, which nobody looks at.
unfoldable pub poll_failed : IndexingState → IndexingState
poll_failed s = record s { asking = s.asking - 1 }

abbrev pub ask_unless_done : List BlockNumberGate → ℕ → ℕ
ask_unless_done [] asking = asking
ask_unless_done (g ∷ gs) asking = suc asking

-- The interval is over.
unfoldable pub rested : IndexingState → IndexingState
rested s = record {
  block_number = s.block_number;
  gates = s.gates;
  asking = ask_unless_done s.gates s.asking;
  resting = s.resting - 1;
}

-- Which steps can come next: a loop must be where its step starts.
pub data Step : IndexingState → IndexingState → Type 0 where
  waits : (g : BlockNumberGate) (s : IndexingState) → Step s (get_or_create_gate g s).1
  times_out : (id : ℕ) (s : IndexingState) → Step s (time_out id s)
  answers : (n : ℕ) (s : IndexingState) → 1 ≤ s.asking → Step s (answered n s).1
  rests : (s : IndexingState) → 1 ≤ s.resting → Step s (rested s)

pub data Run : IndexingState → IndexingState → Type 0 where
  start : (s : IndexingState) → Run s s
  next : (s t u : IndexingState) → Run s t → Step t u → Run s u

-- `updateRequiredBlockNumber`
abbrev pub update_required_block_number : ℕ → ℕ → ℕ
update_required_block_number block_number required = max block_number required
