-- ===== src/Validator/TimeIndexer.antt =====
-- packages/validator/src/threads/TimeIndexer.ts: the index from timestamps to blocks.
pub mod Laws
pub mod Conflict
pub mod Find
pub mod Answer
use logstore_archive.Base.{
  ℕ, ◌≤◌, ◌<◌, String, ◌≡◌, Bool, true, false, ◌&&◌, not, Option, none, some, List, [], ◌∷◌, ◌++◌,
  ltb, ◌==◌, if◌then◌else◌, length,
}
use logstore_archive.Base.Result.{Result, ok, err, ◌>>=◌}

-- An LMDB database with numbers as keys. `first_from db start` is the first item of
-- `getRange({ start, limit: 1 })`, which goes through the keys in ascending order.
pub record OrderedDb (V : Type 0) : Type 1 where
  pub Db : Type 0
  pub get : Db → ℕ → Option V
  pub put : Db → ℕ → V → Db
  pub first_from : Db → ℕ → Option (ℕ × V)
  pub get_put :
      (db : Db) (k j : ℕ) (v : V) → get (put db k v) j ≡ (if k == j then some v else get db j)
  pub first_from_some :
      (db : Db) (start j : ℕ) (v : V)
      → first_from db start ≡ some (j, v)
      → (start ≤ j) × (get db j ≡ some v) × ((i : ℕ) → start ≤ i → i < j → get db i ≡ none)
  pub first_from_none :
      (db : Db) (start : ℕ) → first_from db start ≡ none → (i : ℕ) → start ≤ i → get db i ≡ none

pub record Indexed : Type 0 where
  pub b : ℕ
  pub s : List String

abbrev pub default_db_value : Indexed
default_db_value = record { b = 0; s = [] }

pub data TimeError : Type 0 where
  sources_differ not_indexed : TimeError

-- A line of the indexer's output; a number is 0 where the line gave none.
pub record Entry : Type 0 where
  pub source : String
  pub block : ℕ
  pub timestamp : ℕ

abbrev pub is_empty : List String → Bool
is_empty [] = true
is_empty (_ ∷ _) = false

abbrev pub or_default : Option Indexed → Indexed
or_default none = default_db_value
or_default (some v) = v

-- the transaction of the `data` handler
unfoldable pub merge_entry : Indexed → Entry → Result TimeError Indexed
merge_entry value e =
    if value.b == 0 && is_empty value.s
    then ok (record { b = e.block; s = e.source ∷ [] })
    else if not (value.b == e.block)
    then err sources_differ
    else ok (record { b = e.block; s = value.s ++ e.source ∷ [] })

abbrev first_value : Option (ℕ × Indexed) → Indexed
first_value none = default_db_value
first_value (some (j, v)) = v

-- the test on the item that `find` reads
abbrev found : Indexed → Result TimeError ℕ
found res = if ltb 0 res.b && ltb 0 (length res.s) then ok res.b else err not_indexed

module _ (D : OrderedDb Indexed) where
  pub record IndexState : Type 0 where
    pub db : D.Db
    pub latest : Option ℕ

  unfoldable pub index_entry : IndexState → Entry → Result TimeError IndexState
  unfolding merge_entry
  index_entry st e =
      if not (e.block == 0) && not (e.timestamp == 0)
      then (do
        v ← merge_entry (or_default (D.get st.db e.timestamp)) e
        ok (record { db = D.put st.db e.timestamp v; latest = some e.timestamp }))
      else ok st

  unfoldable pub index_all : IndexState → List Entry → Result TimeError IndexState
  index_all st [] = ok st
  index_all st (e ∷ es) = do st' ← index_entry st e; index_all st' es

  unfoldable pub find : D.Db → ℕ → Result TimeError ℕ
  find db timestamp =
      if timestamp == 0 then ok 0 else found (first_value (D.first_from db timestamp))
