-- ===== src/Validator/Runtime.antt =====
-- packages/validator/src/runtime.ts: the configuration of the pool, the first block and key of the
-- network, and the items of the keys.
pub mod Config
use logstore_archive.Base.{
  ℕ, ◌*◌, ◌==◌, ltb, String, str_eq, Bool, true, false, ◌||◌, ◌&&◌, not, Option, none, some, List,
  [], if◌then◌else◌,
}
use logstore_archive.Base.Result.{Result, ok, err, ◌>>=◌}
use logstore_archive.Validator.RollingConfig.{Switches, next_key}
use logstore_archive.Validator.Item.{ItemMessage}

-- `_startBlockNumber` and `_startKey`
pub record Runtime : Type 0 where
  pub start_block_number : Option ℕ
  pub start_key : Option ℕ

-- `!n`, of a number or undefined
abbrev pub is_unset : Option ℕ → Bool
is_unset none = true
is_unset (some n) = n == 0

abbrev pub or_zero : Option ℕ → ℕ
or_zero none = 0
or_zero (some n) = n

-- A number that is kept once it was asked for, unless it is 0; an error leaves the state.
abbrev remember : {E : Type 0} → Option ℕ → Result E ℕ → Result E ℕ
remember kept asked = if is_unset kept then asked else ok (or_zero kept)

abbrev keep_ok : {E : Type 0} → Option ℕ → Result E ℕ → Option ℕ
keep_ok kept (ok n) = some n
keep_ok kept (err e) = kept

-- `time_latest` and `listener_latest` are the latest timestamps of the index, in seconds, and of
-- the listener, in milliseconds.
abbrev pub is_reached : ℕ → Option ℕ → Option ℕ → Bool
is_reached key time_latest listener_latest = not (
    is_unset time_latest
    || ltb (or_zero time_latest) key
    || is_unset listener_latest
    || ltb (or_zero listener_latest) (key * 1000))

module _ {E : Type 0} where
  -- `asked` is the answer of the sources, if they are asked
  unfoldable pub start_block_number : Result E ℕ → Runtime → Result E ℕ × Runtime
  start_block_number asked rt =
      let answer = remember rt.start_block_number asked in
      (answer, record rt { start_block_number = keep_ok rt.start_block_number answer })

  -- `block_time` is the sources' answer for the time of a block
  unfoldable pub start_key : Result E ℕ → (ℕ → Result E ℕ) → Runtime → Result E ℕ × Runtime
  start_key asked block_time rt =
      if is_unset rt.start_key
      then (let (block, after) = start_block_number asked rt in
          let answer = block >>= block_time in
          (answer, record after { start_key = keep_ok rt.start_key answer }))
      else (ok (or_zero rt.start_key), rt)

  -- `nextKey`, on a key that was parsed; none is NaN
  unfoldable pub next_key_of :
      Switches → Result E ℕ → (ℕ → Result E ℕ) → Runtime → Option ℕ → Result E ℕ × Runtime
  next_key_of sw asked block_time rt key =
      if is_unset key then start_key asked block_time rt else (ok (next_key sw (or_zero key)), rt)

module _ {E Content : Type 0} where
  -- `getDataItem`: `value.m`, or null; `produce` prepares and generates the item
  unfoldable pub get_data_item :
      Option ℕ
      → Option ℕ
      → Option ℕ
      → (ℕ → Result E (List (ItemMessage Content)))
      → Result E (Option (List (ItemMessage Content)))
  get_data_item key time_latest listener_latest produce =
      if is_unset key
      then ok (some [])
      else if is_reached (or_zero key) time_latest listener_latest
      then (produce (or_zero key) >>= λ messages. ok (some messages))
      else ok none

-- `validateDataItem`, on the texts of `value.m`
abbrev pub validate_data_item : (String → String) → String → String → Bool
validate_data_item sha256 proposed validation = str_eq (sha256 proposed) (sha256 validation)
