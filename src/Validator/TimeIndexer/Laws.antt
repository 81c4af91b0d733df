-- ===== src/Validator/TimeIndexer/Laws.antt =====
-- What the time index records: each line of output, and the sources that agree.
use logstore_archive.Base.{
  ℕ, ◌<◌, String, ◌≡◌, sym, ap, ◌∙◌, true, some, List, [], ◌∷◌, arith, ◌==◌, length, Bool-cases,
  inl, inr, ◌⊎◌, not, ◌&&◌, length-append, ◌++◌, includes, eq_refl,
}
use logstore_archive.Base.Result.{ok, >>=-eq-ok}
use logstore_archive.Validator.TimeIndexer.{
  OrderedDb, Indexed, Entry, or_default, merge_entry, IndexState, index_entry, index_all,
}

includes-append_right : (x : String) (xs : List String) → includes x (xs ++ x ∷ []) ≡ true
includes-append_right x [] = simp eq_refl
includes-append_right x (y ∷ ys) = ground (arith, includes-append_right x ys)

includes-append_left :
    (x y : String) (xs : List String) → includes x xs ≡ true → includes x (xs ++ y ∷ []) ≡ true
includes-append_left x y [] h = cc
includes-append_left x y (z ∷ zs) h = ground (arith, includes-append_left x y zs)

length_of_includes : (x : String) (xs : List String) → includes x xs ≡ true → 0 < length xs
length_of_includes x [] h = cc
length_of_includes x (y ∷ ys) h = omega arith

-- what `merge_entry` leaves in the record
pub merge_entry-block : (v w : Indexed) (e : Entry) → merge_entry v e ≡ ok w → w.b ≡ e.block
unfolding merge_entry
merge_entry-block v w e h = ground arith

merge_entry-length : (v w : Indexed) (e : Entry) → merge_entry v e ≡ ok w → 0 < length w.s
unfolding merge_entry
merge_entry-length v w e h = ground (arith, length-append v.s (e.source ∷ []))

merge_entry-source :
    (v w : Indexed) (e : Entry) → merge_entry v e ≡ ok w → includes e.source w.s ≡ true
unfolding merge_entry
merge_entry-source v w e h = ground (arith, includes-append_right e.source v.s, eq_refl e.source)

merge_entry-keeps :
    (v w : Indexed) (e : Entry) (x : String)
    → merge_entry v e ≡ ok w
    → includes x v.s ≡ true
    → includes x w.s ≡ true
unfolding merge_entry
merge_entry-keeps v w e x h k = ground (arith, includes-append_left x e.source v.s)

merge_entry-same_block :
    (v w : Indexed) (e : Entry) → merge_entry v e ≡ ok w → 0 < length v.s → w.b ≡ v.b
unfolding merge_entry
merge_entry-same_block v w e h k = ground arith

module _ (D : OrderedDb Indexed) where
  -- every record that is there names a block and a source
  abbrev pub IsIndexed : D.Db → Type 0
  IsIndexed db = (i : ℕ) (v : Indexed) → D.get db i ≡ some v → (0 < v.b) × (0 < length v.s)

  -- A line that names no block is skipped, and any other goes through `merge_entry`.
  abbrev pub Indexes : IndexState D → Entry → IndexState D → Type 0
  Indexes st e st' =
      (0 < e.block)
      × (0 < e.timestamp)
      × (v : Indexed) × (merge_entry (or_default (D.get st.db e.timestamp)) e ≡ ok v)
      × (st'.db ≡ D.put st.db e.timestamp v)

  pub index_entry-cases :
      (st st' : IndexState D) (e : Entry)
      → index_entry D st e ≡ ok st'
      → (st' ≡ st) ⊎ Indexes st e st'
  unfolding index_entry
  index_entry-cases st st' e h = elim (Bool-cases (not (e.block == 0) && not (e.timestamp == 0))) [
    | inl go ↦
        let (v, merged, same) =
          >>=-eq-ok (merge_entry (or_default (D.get st.db e.timestamp)) e) _ (rw go at h) in
        inr (ground arith, ground arith, v, merged, ground arith)
    | inr skip ↦ inl (ground arith)
  ]

  index_entry-IsIndexed :
      (st st' : IndexState D) (e : Entry)
      → index_entry D st e ≡ ok st'
      → IsIndexed st.db
      → IsIndexed st'.db
  index_entry-IsIndexed st st' e h k i w g = elim (index_entry-cases st st' e h) [
    | inl same ↦ k i w (ap (λ s. D.get s i) (ap (λ (s : IndexState D). s.db) (sym same)) ∙ g)
    | inr (bp, tp, v, merged, put) ↦ ground (
      arith,
      D.get_put st.db e.timestamp i v,
      ap (λ s. D.get s i) put,
      merge_entry-block (or_default (D.get st.db e.timestamp)) v e,
      merge_entry-length (or_default (D.get st.db e.timestamp)) v e,
      k i w,
    )
  ]

  -- the index holds the entry's block under its timestamp, and its source among those that agree
  pub record Records (db : D.Db) (e : Entry) : Type 0 where
    pub value : Indexed
    pub stored : D.get db e.timestamp ≡ some value
    pub block : value.b ≡ e.block
    pub source : includes e.source value.s ≡ true

  index_entry-Indexes :
      (st st' : IndexState D) (e : Entry)
      → index_entry D st e ≡ ok st'
      → 0 < e.block
      → 0 < e.timestamp
      → Indexes st e st'
  unfolding index_entry
  index_entry-Indexes st st' e h bp tp =
      let go : (not (e.block == 0) && not (e.timestamp == 0)) ≡ true = ground arith in
      let (v, merged, same) =
        >>=-eq-ok (merge_entry (or_default (D.get st.db e.timestamp)) e) _ (rw go at h) in
      (bp, tp, v, merged, ground arith)

  index_entry-Records :
      (st st' : IndexState D) (e : Entry)
      → index_entry D st e ≡ ok st'
      → 0 < e.block
      → 0 < e.timestamp
      → Records st'.db e
  index_entry-Records st st' e h bp tp =
      let (_, _, v, merged, put) = index_entry-Indexes st st' e h bp tp in
      record {
        value = v;
        stored =
            ground
              (arith, ap (λ s. D.get s e.timestamp) put, D.get_put st.db e.timestamp e.timestamp v);
        block = merge_entry-block (or_default (D.get st.db e.timestamp)) v e merged;
        source = merge_entry-source (or_default (D.get st.db e.timestamp)) v e merged;
      }

  -- the record of `e₀` after a write of `v` for `e`
  Records-put :
      (db : D.Db) (e e₀ : Entry) (v : Indexed)
      → merge_entry (or_default (D.get db e.timestamp)) e ≡ ok v
      → Records db e₀
      → Records (D.put db e.timestamp v) e₀
  Records-put db e e₀ v merged r = elim (Bool-cases (e.timestamp == e₀.timestamp)) [
    | inl same ↦
        let at : D.get db e.timestamp ≡ some r.value = ground (arith, r.stored, ap (D.get db)) in
        let merged' : merge_entry r.value e ≡ ok v = rw at at merged in
        record {
          value = v;
          stored = ground (arith, D.get_put db e.timestamp e₀.timestamp v);
          block =
              merge_entry-same_block r.value v e merged'
                (length_of_includes e₀.source r.value.s r.source)
              ∙ r.block;
          source = merge_entry-keeps r.value v e e₀.source merged' r.source;
        }
    | inr other ↦ record {
      value = r.value;
      stored = ground (arith, D.get_put db e.timestamp e₀.timestamp v);
      block = r.block;
      source = r.source;
    }
  ]

  index_entry-keeps :
      (st st' : IndexState D) (e e₀ : Entry)
      → index_entry D st e ≡ ok st'
      → Records st.db e₀
      → Records st'.db e₀
  index_entry-keeps st st' e e₀ h r = elim (index_entry-cases st st' e h) [
    | inl same ↦ rw same r
    | inr (_, _, v, merged, put) ↦ rw put (Records-put st.db e e₀ v merged r)
  ]

  index_all-keeps :
      (es : List Entry) (st st' : IndexState D) (e₀ : Entry)
      → index_all D st es ≡ ok st'
      → Records st.db e₀
      → Records st'.db e₀
  unfolding index_all
  index_all-keeps [] st st' e₀ h r = ground (arith, h, r)
  index_all-keeps (e ∷ es) st st' e₀ h r =
      let (st₁, first, rest) = >>=-eq-ok (index_entry D st e) (λ s. index_all D s es) h in
      index_all-keeps es st₁ st' e₀ rest (index_entry-keeps st st₁ e e₀ first r)

  -- The lines of all sources go through without an error only if, whatever their order, each line
  -- that names a block and a time is on record at the end: its block stands under its timestamp,
  -- and its source is among the sources that agree.
  pub index_all-Records :
      (before after : List Entry) (st st' : IndexState D) (e : Entry)
      → index_all D st (before ++ e ∷ after) ≡ ok st'
      → 0 < e.block
      → 0 < e.timestamp
      → Records st'.db e
  unfolding index_all
  index_all-Records [] after st st' e h bp tp =
      let (st₁, first, rest) = >>=-eq-ok (index_entry D st e) (λ s. index_all D s after) h in
      index_all-keeps after st₁ st' e rest (index_entry-Records st st₁ e first bp tp)
  index_all-Records (x ∷ before) after st st' e h bp tp =
      let (st₁, first, rest) =
        >>=-eq-ok (index_entry D st x) (λ s. index_all D s (before ++ e ∷ after)) h in
      index_all-Records before after st₁ st' e rest bp tp

  pub index_all-IsIndexed :
      (es : List Entry) (st st' : IndexState D)
      → index_all D st es ≡ ok st'
      → IsIndexed st.db
      → IsIndexed st'.db
  unfolding index_all
  index_all-IsIndexed [] st st' h k = let same : st ≡ st' = ground arith in rw (← same) k
  index_all-IsIndexed (e ∷ es) st st' h k =
      let (st₁, first, rest) = >>=-eq-ok (index_entry D st e) (λ s. index_all D s es) h in
      index_all-IsIndexed es st₁ st' rest (index_entry-IsIndexed st st₁ e first k)
