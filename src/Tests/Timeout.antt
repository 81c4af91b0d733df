-- ===== src/Tests/Timeout.antt =====
-- A timer of ten units that is updated twice.
use logstore_archive.Base.{ℕ, ◌+◌, ◌<◌, ◌≤◌, ◌≡◌, ◌⊎◌, refl, some, List, [], ◌∷◌, arith}
use logstore_archive.Validator.ActivityTimeout.{
  ActivityTimeout, new_timeout, start, touch, touch_all, last_time, on_timeout, on_timeout_lem,
}

abbrev started : ActivityTimeout
started = start (new_timeout 0 10) 0

abbrev updates : List ℕ
updates = 3 ∷ 5 ∷ []

-- It goes off after ten units, and then after five more.
called_once : (on_timeout (on_timeout (touch_all started updates) 10) 15).callbacks ≡ 15 ∷ []
unfolding start touch_all touch on_timeout
called_once = refl

on_timeout_lem_example :
    ((last_time started.last_update updates + started.ms ≤ 10)
      × ((on_timeout (touch_all started updates) 10).callbacks ≡ 10 ∷ started.callbacks))
    ⊎ ((10 < last_time started.last_update updates + started.ms)
        × ((on_timeout (touch_all started updates) 10).callbacks ≡ started.callbacks)
        × ((on_timeout (touch_all started updates) 10).due
            ≡ some (last_time started.last_update updates + started.ms))
        × (last_time started.last_update updates + started.ms ≤ 15
            → (on_timeout (on_timeout (touch_all started updates) 10) 15).callbacks
              ≡ 15 ∷ started.callbacks))
on_timeout_lem_example = on_timeout_lem started updates 10 15 (omega arith)
