-- ===== src/Validator/ActivityTimeout.antt =====
-- packages/validator/src/threads/ActivityTimeout.ts, with the time of each call.
use logstore_archive.Base.{
  ℕ, ◌+◌, ◌-◌, ◌<◌, ◌≤◌, ◌≡◌, ◌⊎◌, refl, Option, none, some, List, [], ◌∷◌, leb, if◌then◌else◌,
  arith,
}

-- `due` is when the timer of the event loop goes off; `callbacks` are the times of the calls. There is
-- one timer: the recovery, which alone uses this class, calls `start` only when none runs.
pub record ActivityTimeout : Type 0 where
  pub ms : ℕ
  pub last_update : ℕ
  pub due : Option ℕ
  pub callbacks : List ℕ

-- the constructor
abbrev pub new_timeout : ℕ → ℕ → ActivityTimeout
new_timeout now ms = record { ms = ms; last_update = now; due = none; callbacks = [] }

abbrev pub set_timeout : ActivityTimeout → ℕ → ℕ → ActivityTimeout
set_timeout t now ms = record t { due = some (now + ms) }

unfoldable pub start : ActivityTimeout → ℕ → ActivityTimeout
start t now = set_timeout t now t.ms

unfoldable pub touch : ActivityTimeout → ℕ → ActivityTimeout
touch t now = record t { last_update = now }

abbrev pub stop : ActivityTimeout → ActivityTimeout
stop t = record t { due = none }

unfoldable pub on_timeout : ActivityTimeout → ℕ → ActivityTimeout
on_timeout t now =
    let stopped = stop t in
    let elapsed = now - t.last_update in
    if leb t.ms elapsed
    then record stopped { callbacks = now ∷ t.callbacks }
    else set_timeout stopped now (t.ms - elapsed)

-- Updates, at their times.
unfoldable pub touch_all : ActivityTimeout → List ℕ → ActivityTimeout
touch_all t [] = t
touch_all t (now ∷ times) = touch_all (touch t now) times

-- the last time of all, or the one from before
abbrev pub last_time : ℕ → List ℕ → ℕ
last_time before [] = before
last_time before (now ∷ times) = last_time now times

touch_all-fields :
    (t : ActivityTimeout) (times : List ℕ)
    → ((touch_all t times).last_update ≡ last_time t.last_update times)
      × ((touch_all t times).ms ≡ t.ms)
      × ((touch_all t times).callbacks ≡ t.callbacks)
unfolding touch_all touch
touch_all-fields t [] = (refl, refl, refl)
touch_all-fields t (now ∷ times) = touch_all-fields (touch t now) times

-- However often it was updated since it was started, a timer that goes off at a time not before
-- the last update either finds that `ms` have passed since that update, and calls back once, or
-- calls nothing and is set to go off exactly `ms` after that update; if nothing updates it in the
-- meantime it then calls back, whether it goes off on time or late.
pub on_timeout_lem :
    (t : ActivityTimeout) (times : List ℕ) (now later : ℕ)
    → last_time t.last_update times ≤ now
    → ((last_time t.last_update times + t.ms ≤ now)
        × ((on_timeout (touch_all t times) now).callbacks ≡ now ∷ t.callbacks))
      ⊎ ((now < last_time t.last_update times + t.ms)
          × ((on_timeout (touch_all t times) now).callbacks ≡ t.callbacks)
          × ((on_timeout (touch_all t times) now).due ≡ some (last_time t.last_update times + t.ms))
          × (last_time t.last_update times + t.ms ≤ later
              → (on_timeout (on_timeout (touch_all t times) now) later).callbacks
                ≡ later ∷ t.callbacks))
unfolding on_timeout
on_timeout_lem t times now later le =
    let (a, b, c) = touch_all-fields t times in ground (arith, a, b, c)
