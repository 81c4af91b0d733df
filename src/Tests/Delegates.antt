-- ===== src/Tests/Delegates.antt =====
-- Two stakes of one delegate.
use logstore_archive.Base.{ℕ, String, ◌≡◌, true, some, List, [], ◌∷◌}
use logstore_archive.Base.JsMap
use logstore_archive.Base.JsMap.{JsMap}
use logstore_archive.Validator.NodeManager.{
  DelegateEvent, NodeManager, get_delegates, IsZero, HasZeroAmounts, get_delegates-HasZeroAmounts,
}

abbrev stakes : String → ℕ → ℕ → List (DelegateEvent ℕ 0)
stakes node from to =
    record { delegate = "d"; amount = 5; delegated = true }
    ∷ record { delegate = "d"; amount = 7; delegated = true }
    ∷ []

abbrev unread : NodeManager ℕ 0
unread = record { from_block_number = []; delegates = [] }

unread-HasZeroAmounts : HasZeroAmounts ℕ 0 stakes unread
unfolding JsMap.get
unread-HasZeroAmounts node m h = cc

get_delegates-HasZeroAmounts_example :
    ((m : JsMap ℕ) → (get_delegates ℕ 0 stakes unread "n" 1 9).0 ≡ some m → IsZero ℕ 0 stakes m)
    × HasZeroAmounts ℕ 0 stakes ((get_delegates ℕ 0 stakes unread "n" 1 9).1)
get_delegates-HasZeroAmounts_example =
    get_delegates-HasZeroAmounts ℕ 0 stakes unread "n" 1 9 unread-HasZeroAmounts
