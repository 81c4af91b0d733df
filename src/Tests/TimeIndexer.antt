-- ===== src/Tests/TimeIndexer.antt =====
-- The time index of two sources.

use logstore_archive.Base.{ℕ, ◌≡◌, refl, some, none, List, [], ◌∷◌, arith, ◌≤◌}
use logstore_archive.Base.Result.{ok, err}
use logstore_archive.Validator.TimeIndexer.{
  Indexed, Entry, IndexState, not_indexed, index_entry, index_all, find,
}
use logstore_archive.Validator.TimeIndexer.Laws.{Records, index_all-Records}
use logstore_archive.Validator.TimeIndexer.Answer.{IsLine, IsFirstFrom, find-index_all}
use logstore_archive.Tests.ListDb.{list_db, list_get, list_put, list_first_from}

abbrev from_a : ℕ → ℕ → Entry
from_a block timestamp = record { source = "a"; block = block; timestamp = timestamp }

abbrev from_b : ℕ → ℕ → Entry
from_b block timestamp = record { source = "b"; block = block; timestamp = timestamp }

abbrev fresh : IndexState (list_db Indexed)
fresh = record { db = []; latest = none }

abbrev lines : List Entry
lines = from_a 7 100 ∷ from_a 8 102 ∷ from_b 7 100 ∷ from_b 0 0 ∷ []

abbrev both : List (ℕ × Indexed)
both = (100, record { b = 7; s = "a" ∷ "b" ∷ [] }) ∷ (102, record { b = 8; s = "a" ∷ [] }) ∷ []

indexed_lines :
    index_all (list_db Indexed) fresh lines ≡ ok (record { db = both; latest = some 100 })
unfolding index_all index_entry list_get list_put
indexed_lines = refl

found_between :
    (find (list_db Indexed) both 101 ≡ ok 8) × (find (list_db Indexed) both 103 ≡ err not_indexed)
unfolding find list_first_from
found_between = (refl, refl)

index_all-Records_example : Records (list_db Indexed) both (from_b 7 100)
index_all-Records_example =
    index_all-Records (list_db Indexed) (from_a 7 100 ∷ from_a 8 102 ∷ []) (from_b 0 0 ∷ []) fresh
      (record { db = both; latest = some 100 }) (from_b 7 100) indexed_lines (omega arith)
      (omega arith)

find-index_all_example :
    (f : Entry) × IsLine lines f
    × (find (list_db Indexed) both 101 ≡ ok f.block)
    × (101 ≤ f.timestamp)
    × IsFirstFrom lines 101 f
find-index_all_example =
    find-index_all (list_db Indexed) lines fresh (record { db = both; latest = some 100 }) 101
      (from_a 8 102) (λ i. unfold list_get in refl) indexed_lines (omega arith)
      (from_a 7 100 ∷ [], from_b 7 100 ∷ from_b 0 0 ∷ [], refl) (omega arith) (omega arith)
