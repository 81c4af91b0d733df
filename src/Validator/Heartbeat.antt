-- ===== src/Validator/Heartbeat.antt =====
-- packages/validator/src/threads/Heartbeat.ts: which brokers are online.
use logstore_archive.Base.{
  ℕ, ◌-◌, String, ◌≡◌, refl, List, [], ◌∷◌, ◌++◌, leb, if◌then◌else◌, Bool-cases, inl, inr,
}
use logstore_archive.Base.JsMap
use logstore_archive.Base.JsMap.{JsMap}

abbrev pub threshold : ℕ
threshold = 10000

-- `onMessage`: the publisher and the time of a heartbeat
unfoldable pub on_message : JsMap ℕ → String → ℕ → JsMap ℕ
on_message brokers publisher_id timestamp = JsMap.set brokers publisher_id timestamp

-- `result.push()`, of nothing
abbrev push_nothing : List String → List String
push_nothing result = result ++ []

unfoldable pub online_from : List String → ℕ → JsMap ℕ → List String
online_from result now [] = result
online_from result now ((broker, timestamp) ∷ brokers) =
    online_from (if leb (now - timestamp) threshold then push_nothing result else result) now
      brokers

-- the getter `onlineBrokers`
unfoldable pub online_brokers : ℕ → JsMap ℕ → List String
online_brokers now brokers = online_from [] now brokers

-- No broker is ever online.
pub online_brokers_lem : (now : ℕ) (brokers : JsMap ℕ) → online_brokers now brokers ≡ []
unfolding online_brokers online_from
online_brokers_lem now [] = refl
online_brokers_lem now ((broker, timestamp) ∷ brokers) =
    elim (Bool-cases (leb (now - timestamp) threshold)) [
      | inl young ↦ rw young (online_brokers_lem now brokers)
      | inr old ↦ rw old (online_brokers_lem now brokers)
    ]
