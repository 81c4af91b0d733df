-- ===== src/Validator/Item.antt =====
-- packages/validator/src/core/item.ts: the item of a key, which is the messages of every store
-- since the key before, in order.
pub mod Agreement
use logstore_archive.Base.{ℕ, ◌*◌, ◌-◌, ◌==◌, String, List, [], ◌∷◌, ◌++◌, if◌then◌else◌}
use logstore_archive.Base.Result.{Result, ok, ◌>>=◌}
use logstore_archive.Base.Sort.{Collation, sort}
use logstore_archive.Protocol.Message.{MessageMetadata}
use logstore_archive.Validator.RollingConfig.{Switches, prev_step}
use Prim.Native.String.{◌++◌ as concat}

pub record ItemMessage (Content : Type 0) : Type 0 where
  pub content : Content
  pub metadata : MessageMetadata

-- The calls of the client for a store until one ends: the messages that each call gave before it
-- failed, and those that the last one gave.
pub record Calls (Content : Type 0) : Type 0 where
  pub failed : List (List (ItemMessage Content))
  pub complete : List (ItemMessage Content)

-- `render` writes a number, as a template literal does.
abbrev pub message_id : (ℕ → String) → MessageMetadata → String
message_id render m =
    let order = concat (render m.timestamp) (concat "/" (render m.sequence_number)) in
    concat m.stream_id (concat "/" (concat (render m.stream_partition) (concat "/" order)))

-- `load`, for a key that was parsed, the block of a time and the stores up to a block
module _ {E Store : Type 0} where
  unfoldable pub load :
      ℕ → Result E ℕ → (ℕ → Result E ℕ) → (ℕ → ℕ → Result E (List Store)) → Result E (List Store)
  load key start_block_number find get_stores =
      if key == 0
      then ok []
      else start_block_number >>= λ from. find key >>= λ to. get_stores from to

module _ {Content : Type 0} (sw : Switches) (L : Collation String) (render : ℕ → String) where
  abbrev pub id_of : ItemMessage Content → String
  id_of m = message_id render m.metadata

  abbrev pub push_all : List (List (ItemMessage Content)) → List (ItemMessage Content)
  push_all [] = []
  push_all (ms ∷ rest) = ms ++ push_all rest

  -- what the calls for a store push
  abbrev pub pushed : Calls Content → List (ItemMessage Content)
  pushed c = push_all c.failed ++ c.complete

  -- `calls` are those of `client.query` for a store, from a time to a time, in milliseconds.
  module _ (calls : String → ℕ → ℕ → Calls Content) where
    abbrev pub collect : ℕ → List String → List (ItemMessage Content)
    collect key [] = []
    collect key (id ∷ stores) =
        pushed (calls id ((key - prev_step sw key) * 1000) (key * 1000)) ++ collect key stores

    unfoldable pub generate : ℕ → List String → List (ItemMessage Content)
    generate key stores = sort L id_of (collect key stores)
