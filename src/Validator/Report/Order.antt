-- ===== src/Validator/Report/Order.antt =====
-- `ReportUtils.sort` does not depend on the order in which a report was put together.
use mathlib.Core.List.{Perm, is_set}
use native.Mathlib.Nat.{ℕ_set}
use logstore_archive.Base.{String_set, String, ◌≡◌, refl}
use logstore_archive.Base.JsMap.{JsMap}
use logstore_archive.Base.Sort.{Collation, sort_permuted, AreOneForm}
use logstore_archive.Protocol.Report.{Stream, Consumer, QueryEvent, StorageEvent}
use logstore_archive.Validator.Report.{ValidatorReport, sort_report}

query_set : IsSet QueryEvent
query_set = hlevel (String_set, ℕ_set)

storage_set : IsSet (StorageEvent String)
storage_set = hlevel (String_set, ℕ_set)

stream_set : {Decimal : Type 0} → IsSet Decimal → IsSet (Stream String Decimal)
stream_set set = hlevel (String_set, ℕ_set)

consumer_set : {Decimal : Type 0} → IsSet Decimal → IsSet (Consumer Decimal)
consumer_set set = hlevel (String_set, ℕ_set)

entry_set : {A : Type 0} → IsSet A → IsSet (String × A)
entry_set set = hlevel String_set

object_set : {A : Type 0} → IsSet A → IsSet (JsMap A)
object_set set = is_set (entry_set set)

module _ (L : Collation String) {Decimal : Type 0} where
  -- the same entries in another order
  pub record IsReordered (r s : ValidatorReport Decimal) : Type 0 where
    pub id_lem : r.id ≡ s.id
    pub height_lem : r.height ≡ s.height
    pub treasury_lem : r.treasury ≡ s.treasury
    pub streams_lem : Perm r.streams s.streams
    pub consumers_lem : Perm r.consumers s.consumers
    pub nodes_lem : Perm r.nodes s.nodes
    pub delegates_lem : Perm r.delegates s.delegates
    pub queries_lem : Perm r.events.queries s.events.queries
    pub storage_lem : Perm r.events.storage s.events.storage

  -- no two different entries have one place in the order
  pub record HasOneForm (r : ValidatorReport Decimal) : Type 0 where
    pub streams_one : AreOneForm L (λ s. s.id) r.streams
    pub consumers_one : AreOneForm L (λ c. c.id) r.consumers
    pub nodes_one : AreOneForm L (λ e. e.0) r.nodes
    pub delegates_one : AreOneForm L (λ e. e.0) r.delegates
    pub queries_one : AreOneForm L (λ q. q.hash) r.events.queries
    pub storage_one : AreOneForm L (λ s. s.hash) r.events.storage

  -- Two reports with the same entries in different orders are sorted to the same report, if
  -- no two different entries of one list or object have the same place in the order.
  pub sort_report_agrees :
      (r s : ValidatorReport Decimal)
      → IsSet Decimal
      → IsReordered r s
      → HasOneForm r
      → sort_report L r ≡ sort_report L s
  unfolding sort_report
  sort_report_agrees r s set same one =
      let streams = sort_permuted L (λ s. s.id) (stream_set set) same.streams_lem one.streams_one in
      let consumers =
        sort_permuted L (λ c. c.id) (consumer_set set) same.consumers_lem one.consumers_one in
      let nodes = sort_permuted L (λ e. e.0) (entry_set set) same.nodes_lem one.nodes_one in
      let delegates =
        sort_permuted L (λ e. e.0) (entry_set (object_set set)) same.delegates_lem
          one.delegates_one in
      let queries = sort_permuted L (λ q. q.hash) query_set same.queries_lem one.queries_one in
      let storage = sort_permuted L (λ s. s.hash) storage_set same.storage_lem one.storage_one in
      rw
        (
          same.id_lem, same.height_lem, same.treasury_lem, streams, consumers, nodes, delegates,
          queries, storage,
        )
        refl
