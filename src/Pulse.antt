-- ===== src/Pulse.antt =====
-- packages/pulse/src/Pulse.ts: a stream in which a timestamp is published each second.
use mathlib.Core.Path.{subst}
use logstore_archive.Base.{sym, ℕ, String, ◌≡◌, refl, Bool, true, false, Option, none, some}
use logstore_archive.Base.Result.{Result, ok, err, ◌>>=◌, >>=-eq-ok}

-- `_stream`, by its id, and whether the interval is set
pub record Pulse : Type 0 where
  pub stream : Option String
  pub interval : Bool

abbrev pub new_pulse : Pulse
new_pulse = record { stream = none; interval = false }

pub data PulseError (X : Type 0) : Type 0 where
  not_initialized : PulseError X
  thrown : X → PulseError X

abbrev pub pulse_stream_id : String
pulse_stream_id = "/pulse"

-- W is the world: the Streamr network and the contracts. Each call can throw.
module _ {W X : Type 0} (get_stream get_or_create_stream : W → String → Result X (String × W))
    (grant_public_subscribe : W → String → Result X W)
    (stake_or_create_store : W → String → ℕ → Result X W)
    (publish : W → String → ℕ → Result X W) where
  abbrev lift : {V : Type 0} → Result X V → Result (PulseError X) V
  lift (ok v) = ok v
  lift (err x) = err (thrown x)

  -- the getter `stream`
  abbrev stream_of : Option String → Result (PulseError X) String
  stream_of none = err not_initialized
  stream_of (some id) = ok id

  unfoldable pub init : Pulse → W → Result (PulseError X) (Pulse × W)
  init p w = lift (get_stream w pulse_stream_id) >>= λ found.
      ok (record p { stream = some found.0 }, found.1)

  unfoldable pub create_stream : Pulse → W → ℕ → Result (PulseError X) (Pulse × W)
  create_stream p w stake_amount = lift (get_or_create_stream w pulse_stream_id) >>= λ made.
      lift (grant_public_subscribe made.1 made.0) >>= λ granted.
      lift (stake_or_create_store granted made.0 stake_amount) >>= λ staked.
      ok (record p { stream = some made.0 }, staked)

  abbrev pub start : Pulse → Pulse
  start p = record p { interval = true }

  abbrev pub stop : Pulse → Pulse
  stop p = record p { interval = false }

  unfoldable pub beat : Pulse → W → ℕ → Result (PulseError X) W
  beat p w now = stream_of p.stream >>= λ id. lift (publish w id now)

  lift-eq-ok : {V : Type 0} (r : Result X V) (v : V) → lift r ≡ ok v → r ≡ ok v
  lift-eq-ok (ok u) v h = cc (h)
  lift-eq-ok (err x) v h = absurd (cc h)

  -- After init a beat is published in the stream that was found, and before it a beat fails.
  pub beat-init :
      (w : W) (now : ℕ) (p : Pulse) (after : W)
      → init new_pulse w ≡ ok (p, after)
      → (beat new_pulse w now ≡ err not_initialized)
        × ((id : String) × (get_stream w pulse_stream_id ≡ ok (id, after))
            × (beat p after now ≡ lift (publish after id now)))
  unfolding init beat
  beat-init w now p after h =
      let ((id, next), found, same) = >>=-eq-ok (lift (get_stream w pulse_stream_id)) _ h in
      let here : p ≡ record { stream = some id; interval = false } = cc (same) in
      let later : next ≡ after = cc (same) in
      (
        refl,
        (
          id,
          subst (λ v. get_stream w pulse_stream_id ≡ ok (id, v)) later
              (lift-eq-ok (get_stream w pulse_stream_id) (id, next) found),
          subst (λ q. beat q after now ≡ lift (publish after id now)) (sym here)
              (unfold beat in refl),
        ),
      )
