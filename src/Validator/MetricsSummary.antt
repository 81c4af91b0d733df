-- ===== src/Validator/MetricsSummary.antt =====
-- packages/validator/src/shared/MessageMetricsSummary.ts: the metrics of each type of message.
use logstore_archive.Base.{ℕ, String, Option, none, some, List, [], ◌∷◌, map}
use logstore_archive.Base.JsMap
use logstore_archive.Base.JsMap.{JsMap}
use logstore_archive.Validator.Metrics.{Metrics, new_metrics, update}

-- A subject and the type that it counts; a type of message is written as a text here.
pub record MetricsSubject : Type 0 where
  pub subject : String
  pub type : String

abbrev fill_summary : JsMap Metrics → List MetricsSubject → JsMap Metrics
fill_summary m [] = m
fill_summary m (s ∷ subjects) = fill_summary (JsMap.set m s.type new_metrics) subjects

-- the constructor
abbrev pub new_summary : List MetricsSubject → JsMap Metrics
new_summary subjects = fill_summary [] subjects

-- `metrics?.update`
abbrev update_if_some : JsMap Metrics → String → Option Metrics → String → ℕ → ℕ → JsMap Metrics
update_if_some m type none publisher_id seq_num bytes = m
update_if_some m type (some metrics) publisher_id seq_num bytes =
    JsMap.set m type (update metrics publisher_id seq_num bytes)

-- `update`, of a message that was deserialized
unfoldable pub update_summary : JsMap Metrics → String → String → ℕ → ℕ → JsMap Metrics
update_summary m type publisher_id seq_num bytes =
    update_if_some m type (JsMap.get m type) publisher_id seq_num bytes

-- the getter `summary`
unfoldable pub summary_of : List MetricsSubject → JsMap Metrics → List (Option Metrics)
summary_of subjects m = map (λ s. JsMap.get m s.type) subjects
