-- ===== src/Client/StaleCache.antt =====
-- packages/client/src/utils/AsyncStaleThenRevalidateCache.ts, with string keys and with the time
-- of each call.
pub mod Flight
use logstore_archive.Base.{
  ℕ, ◌-◌, String, Bool, true, false, Option, none, some, List, [], ◌∷◌, ltb, if◌then◌else◌,
}
use logstore_archive.Base.JsMap
use logstore_archive.Base.JsMap.{JsMap}

-- `V | Promise<V>`: a promise by the number of the call that returned it.
pub data Cached (V : Type 0) : Type 0 where
  value : V → Cached V
  promise : ℕ → Cached V

pub record Entry (V : Type 0) : Type 0 where
  pub cached : Cached V
  pub timestamp : ℕ

-- A call of `get` or `set`, or a promise of the handler that gives its value, at a time.
pub data CacheEvent (V : Type 0) : Type 0 where
  asked : (key : String) (now call : ℕ) → CacheEvent V
  given : (key : String) (v : V) (now : ℕ) → CacheEvent V

module _ {V : Type 0} (max_age : ℕ) where
  unfoldable pub cleanup : ℕ → JsMap (Entry V) → JsMap (Entry V)
  cleanup now [] = []
  cleanup now ((k, e) ∷ m) =
      let rest = cleanup now m in if ltb max_age (now - e.timestamp) then rest else (k, e) ∷ rest

  unfoldable pub set : JsMap (Entry V) → String → Cached V → ℕ → JsMap (Entry V)
  set m key v now = cleanup now (JsMap.set m key (record { cached = v; timestamp = now }))

  -- What `get` returns, whether it calls `getFreshDataHandler`, and the entries after it; `call` is the
  -- number of that call.
  abbrev on_item :
      JsMap (Entry V) → String → ℕ → ℕ → Option (Entry V) → Cached V × Bool × JsMap (Entry V)
  on_item m key now call none = (promise call, true, set m key (promise call) now)
  on_item m key now call (some item) =
      if ltb (now - item.timestamp) max_age then (item.cached, false, m) else (item.cached, true, m)

  unfoldable pub get : JsMap (Entry V) → String → ℕ → ℕ → Cached V × Bool × JsMap (Entry V)
  get m key now call = on_item m key now call (JsMap.get m key)

  unfoldable pub step : JsMap (Entry V) → CacheEvent V → JsMap (Entry V)
  step m (asked key now call) = (get m key now call).2
  step m (given key v now) = set m key (value v) now
