-- ===== src/Validator/TimeIndexer/Find.antt =====
-- What `find` of the time index answers.
use logstore_archive.Base.{
  ℕ, ◌≤◌, ◌<◌, ◌≡◌, ◌≢◌, refl, none, some, arith, inl, inr, ◌⊎◌, Option-cases,
}
use logstore_archive.Base.Result.{ok, err}
use logstore_archive.Validator.TimeIndexer.{OrderedDb, Indexed, not_indexed, find}
use logstore_archive.Validator.TimeIndexer.Laws.{IsIndexed}

module _ (D : OrderedDb Indexed) where
  -- the least indexed timestamp that is not before `timestamp`
  pub record IsNearest (db : D.Db) (timestamp : ℕ) (block : ℕ) : Type 0 where
    pub at : ℕ
    pub value : Indexed
    pub stored : D.get db at ≡ some value
    pub same : value.b ≡ block
    pub after : timestamp ≤ at
    pub least : (i : ℕ) → timestamp ≤ i → i < at → D.get db i ≡ none

  find-some :
      (db : D.Db) (t j : ℕ) (v : Indexed)
      → IsIndexed D db
      → 0 < t
      → D.get db j ≡ some v
      → t ≤ j
      → find D db t ≢ err not_indexed
  unfolding find
  find-some db t j v k tp g le bad = elim (Option-cases (D.first_from db t)) [
    | inl gone ↦ ground (arith, D.first_from_none db t gone j le)
    | inr (item, here) ↦
        ground (arith, k item.0 item.1 ((D.first_from_some db t item.0 item.1 here).1))
  ]

  find-cases :
      (db : D.Db) (t : ℕ)
      → IsIndexed D db
      → 0 < t
      → (find D db t ≡ err not_indexed) ⊎ ((b : ℕ) × (find D db t ≡ ok b) × IsNearest db t b)
  unfolding find
  find-cases db t k tp = elim (Option-cases (D.first_from db t)) [
    | inl gone ↦ inl (ground arith)
    | inr (item, here) ↦
        let (after, stored, least) = D.first_from_some db t item.0 item.1 here in
        let ok_value = k item.0 item.1 stored in
        inr (
          item.1.b,
          ground arith,
          record {
            at = item.0;
            value = item.1;
            stored = stored;
            same = refl;
            after = after;
            least = least;
          },
        )
  ]

  -- Where something is recorded at or after a timestamp that is not 0, `find` answers, and with
  -- the block of the nearest such record, if the records are as the indexer writes them.
  pub find-IsNearest :
      (db : D.Db) (t j : ℕ) (v : Indexed)
      → IsIndexed D db
      → 0 < t
      → D.get db j ≡ some v
      → t ≤ j
      → (b : ℕ) × (find D db t ≡ ok b) × IsNearest db t b
  unfolding find
  find-IsNearest db t j v k tp g le = elim (find-cases db t k tp) [
    | inl gone ↦ absurd (find-some db t j v k tp g le gone)
    | inr r ↦ r
  ]
