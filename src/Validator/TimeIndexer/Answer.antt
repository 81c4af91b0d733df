-- ===== src/Validator/TimeIndexer/Answer.antt =====
-- packages/validator/src/threads/TimeIndexer.ts: what `find` answers of the lines that were indexed.
use logstore_archive.Base.{
  ℕ, ◌≤◌, ◌<◌, ◌≡◌, ◌⊎◌, refl, sym, ap, ◌∙◌, none, some, List, [], ◌∷◌, ◌++◌, arith, ltb, ltb→lt,
  Bool-cases, inl, inr, ◌==◌, if◌then◌else◌, some_inj,
}
use logstore_archive.Base.Result.{ok, >>=-eq-ok}
use logstore_archive.Validator.TimeIndexer.{
  OrderedDb, Indexed, Entry, or_default, IndexState, index_entry, index_all, find,
}
use logstore_archive.Validator.TimeIndexer.Laws.{
  Records, IsIndexed, index_entry-cases, merge_entry-block, index_all-Records, index_all-IsIndexed,
}
use logstore_archive.Validator.TimeIndexer.Find.{find-IsNearest}

-- A line of the output, between others
abbrev pub IsLine : List Entry → Entry → Type 0
IsLine es e = (before : List Entry) × (after : List Entry) × (es ≡ before ++ e ∷ after)

-- Of the lines that name a block and a time not before `timestamp`, none has an earlier time.
abbrev pub IsFirstFrom : List Entry → ℕ → Entry → Type 0
IsFirstFrom es timestamp f =
    (e : Entry) → IsLine es e → 0 < e.block → timestamp ≤ e.timestamp → f.timestamp ≤ e.timestamp

module _ (D : OrderedDb Indexed) where
  -- What is stored was there before, or it has the block of the line.
  index_entry-stored :
      (st st' : IndexState D) (e : Entry) (i : ℕ) (v : Indexed)
      → index_entry D st e ≡ ok st'
      → D.get st'.db i ≡ some v
      → (D.get st.db i ≡ some v) ⊎ ((e.timestamp ≡ i) × (e.block ≡ v.b))
  index_entry-stored st st' e i v h g = elim (index_entry-cases D st st' e h) [
    | inl same ↦ inl (ap (λ (s : IndexState D). D.get s.db i) (sym same) ∙ g)
    | inr (bp, tp, w, merged, put) ↦
        let written : (if e.timestamp == i then some w else D.get st.db i) ≡ some v =
          sym (D.get_put st.db e.timestamp i w) ∙ ap (λ s. D.get s i) (sym put) ∙ g in
        elim (Bool-cases (e.timestamp == i)) [
          | inl at ↦
              let here : w ≡ v = some_inj (rw at at written) in
              inr (
                ground (arith, at),
                sym (merge_entry-block (or_default (D.get st.db e.timestamp)) w e merged)
                    ∙ ap (λ (x : Indexed). x.b) here,
              )
          | inr other ↦ inl (rw other at written)
        ]
  ]

  index_all-stored :
      (es : List Entry) (st st' : IndexState D) (i : ℕ) (v : Indexed)
      → index_all D st es ≡ ok st'
      → D.get st'.db i ≡ some v
      → (D.get st.db i ≡ some v) ⊎ ((f : Entry) × IsLine es f × (f.timestamp ≡ i) × (f.block ≡ v.b))
  unfolding index_all
  index_all-stored [] st st' i v h g =
      let same : st ≡ st' = cc (h) in inl (ap (λ (s : IndexState D). D.get s.db i) same ∙ g)
  index_all-stored (e ∷ es) st st' i v h g =
      let (st₁, first, rest) = >>=-eq-ok (index_entry D st e) (λ s. index_all D s es) h in
      elim (index_all-stored es st₁ st' i v rest g) [
        | inl there ↦ elim (index_entry-stored st st₁ e i v first there) [
          | inl before ↦ inl before
          | inr (time, block) ↦ inr (e, ([], es, refl), time, block)
        ]
        | inr (f, (before, after, same), time, block) ↦
            inr (f, (e ∷ before, after, ap (λ l. e ∷ l) same), time, block)
      ]

  line-stored :
      (es : List Entry) (st st' : IndexState D) (e : Entry)
      → index_all D st es ≡ ok st'
      → IsLine es e
      → 0 < e.block
      → 0 < e.timestamp
      → Records D st'.db e
  line-stored es st st' e h (before, after, same) bp tp =
      index_all-Records D before after st st' e (ap (index_all D st) (sym same) ∙ h) bp tp

  -- When the lines of all sources went through from an empty index, in whatever order they came, then
  -- for a time that is not 0 `find` gives the block of one of the lines: of one with the least time of
  -- those that are not before it, if there is such a line. A line at just that time counts too.
  pub find-index_all :
      (es : List Entry) (st st' : IndexState D) (t : ℕ) (e : Entry)
      → ((i : ℕ) → D.get st.db i ≡ none)
      → index_all D st es ≡ ok st'
      → 0 < t
      → IsLine es e
      → 0 < e.block
      → t ≤ e.timestamp
      → (f : Entry) × IsLine es f
        × (find D st'.db t ≡ ok f.block)
        × (t ≤ f.timestamp)
        × IsFirstFrom es t f
  find-index_all es st st' t e empty h tp line bp le =
      let kept : IsIndexed D st'.db =
        index_all-IsIndexed D es st st' h (λ i v g. absurd (cc (empty i, g))) in
      let r = line-stored es st st' e h line bp (omega (arith, tp, le)) in
      let (b, answers, near) = find-IsNearest D st'.db t e.timestamp r.value kept tp r.stored le in
      elim (index_all-stored es st st' near.at near.value h near.stored) [
        | inl before ↦ absurd (cc (empty near.at, before))
        | inr (f, f_line, time, block) ↦ (
          f,
          f_line,
          answers ∙ ap ok (sym near.same ∙ sym block),
          omega (arith, near.after, time),
          λ g g_line gp gle. elim (Bool-cases (ltb g.timestamp near.at)) [
            | inl earlier ↦
                let q = line-stored es st st' g h g_line gp (omega (arith, tp, gle)) in
                let nothing = near.least g.timestamp gle (ltb→lt g.timestamp near.at earlier) in
                absurd (cc (nothing, q.stored))
            | inr later ↦ ground (arith, later, time)
          ],
        )
      ]
