-- ===== src/Validator/TimeIndexer/Conflict.antt =====
-- What the time index does with sources that disagree.
use mathlib.Core.List.{append_assoc}
use logstore_archive.Base.{◌<◌, ◌≡◌, ◌≢◌, refl, ap, List, [], ◌∷◌, arith, inl, inr, ◌⊎◌, ◌++◌}
use logstore_archive.Base.Result.{ok, err, Result-cases}
use logstore_archive.Validator.TimeIndexer.{
  OrderedDb, Indexed, sources_differ, Entry, merge_entry, IndexState, index_entry, index_all,
}
use logstore_archive.Validator.TimeIndexer.Laws.{Records, index_all-Records}

module _ (D : OrderedDb Indexed) where
  index_entry-ok_or_differ :
      (st : IndexState D) (e : Entry)
      → ((st' : IndexState D) × (index_entry D st e ≡ ok st'))
        ⊎ (index_entry D st e ≡ err sources_differ)
  unfolding index_entry merge_entry
  index_entry-ok_or_differ st e = elim (Result-cases (index_entry D st e)) [
    | inl (st', p) ↦ inl (st', p)
    | inr (x, p) ↦ inr (ground arith)
  ]

  index_all-ok_or_differ :
      (es : List Entry) (st : IndexState D)
      → ((st' : IndexState D) × (index_all D st es ≡ ok st'))
        ⊎ (index_all D st es ≡ err sources_differ)
  unfolding index_all
  index_all-ok_or_differ [] st = inl (st, refl)
  index_all-ok_or_differ (e ∷ es) st = elim (index_entry-ok_or_differ st e) [
    | inl (st', p) ↦ rw p (index_all-ok_or_differ es st')
    | inr p ↦ inr (rw p)
  ]

  Records-unique :
      (db : D.Db) (e f : Entry)
      → Records D db e
      → Records D db f
      → e.timestamp ≡ f.timestamp
      → e.block ≡ f.block
  Records-unique db e f r q t =
      ground (arith, r.stored, q.stored, ap (D.get db) t, r.block, q.block)

  -- Two lines for one timestamp that name different blocks, neither they nor the timestamp 0, stop
  -- the index with an error, whatever lines come before, between and after them.
  pub index_all-conflict :
      (before between after : List Entry) (st : IndexState D) (e f : Entry)
      → e.timestamp ≡ f.timestamp
      → e.block ≢ f.block
      → 0 < e.block
      → 0 < f.block
      → 0 < e.timestamp
      → index_all D st (before ++ (e ∷ (between ++ (f ∷ after)))) ≡ err sources_differ
  index_all-conflict before between after st e f t b ep fp tp =
      elim (index_all-ok_or_differ (before ++ (e ∷ (between ++ (f ∷ after)))) st) [
        | inl (st', p) ↦ absurd (
            b (
              Records-unique st'.db e f
                (index_all-Records D before (between ++ (f ∷ after)) st st' e p ep tp)
                (index_all-Records D (before ++ (e ∷ between)) after st st' f (rw append_assoc p) fp
                  (rw (← t) tp))
                t))
        | inr p ↦ p
      ]
