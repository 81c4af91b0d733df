-- ===== src/Client/SchemaManager.antt =====
-- packages/client/src/validationManager: the validation schema in the metadata of a stream.
pub mod RoundTrip
use logstore_archive.Base.{
  String, str_eq, ◌≡◌, Bool, true, false, ◌&&◌, not, Option, none, some, List, [], if◌then◌else◌,
}
use logstore_archive.Base.JsMap.{JsMap}
use logstore_archive.Base.Result.{Result, ok, err, ◌>>=◌}

-- the protocol, and a schema or a hash
pub data SchemaParams (Schema : Type 0) : Type 0 where
  raw : Schema → SchemaParams Schema
  ipfs arweave : String → SchemaParams Schema

-- The metadata of a stream: `logstore.schema`, and what else is in `logstore` and beside it.
pub record Logstore (Schema Json : Type 0) : Type 0 where
  pub schema : Option (SchemaParams Schema)
  pub others : JsMap Json

pub record Metadata (Schema Json : Type 0) : Type 0 where
  pub logstore : Option (Logstore Schema Json)
  pub others : JsMap Json

pub data SchemaError : Type 0 where
  no_stream invalid_schema not_fetched : SchemaError

-- The Streamr network: `getStream(id).getMetadata()` gives what `updateStream` wrote.
pub record Streams (Schema Json : Type 0) : Type 1 where
  pub World : Type 0
  pub metadata_of : World → String → Option (Metadata Schema Json)
  pub update_stream : World → String → Metadata Schema Json → World
  pub metadata_of-update_stream :
      (w : World) (id other : String) (m : Metadata Schema Json)
      → metadata_of (update_stream w id m) other
        ≡ (if str_eq id other then some m else metadata_of w other)

module _ {Schema Json : Type 0} where
  abbrev logstore_others : Option (Logstore Schema Json) → JsMap Json
  logstore_others none = []
  logstore_others (some l) = l.others

  abbrev pub with_schema : Metadata Schema Json → SchemaParams Schema → Metadata Schema Json
  with_schema m params = record m {
    logstore = some (record { schema = some params; others = logstore_others m.logstore });
  }

  -- `metadata.logstore?.schema`
  abbrev schema_of : Option (Logstore Schema Json) → Option (SchemaParams Schema)
  schema_of none = none
  schema_of (some l) = l.schema

  abbrev pub schema_config : Metadata Schema Json → Option (SchemaParams Schema)
  schema_config m = schema_of m.logstore

  abbrev pub drop_schema : Option (Logstore Schema Json) → Option (Logstore Schema Json)
  drop_schema none = none
  drop_schema (some l) = some (record l { schema = none })

  abbrev pub without_schema : Metadata Schema Json → Metadata Schema Json
  without_schema m = record m { logstore = drop_schema m.logstore }

-- `is_schema` is `validateSchema` of Ajv, and `is_object` is false of a schema that is a Boolean;
-- `ipfs_json` and `arweave_json` are what the gateways give for a hash, if it is JSON.
module _ {Schema Json : Type 0} (N : Streams Schema Json) (is_schema is_object : Schema → Bool)
    (ipfs_json arweave_json : String → Option Schema) where
  abbrev or_no_stream : Option (Metadata Schema Json) → Result SchemaError (Metadata Schema Json)
  or_no_stream none = err no_stream
  or_no_stream (some m) = ok m

  abbrev stream_metadata : N.World → String → Result SchemaError (Metadata Schema Json)
  stream_metadata w id = or_no_stream (N.metadata_of w id)

  -- whether `validateSchema` throws before a schema is set
  abbrev is_refused : SchemaParams Schema → Bool
  is_refused (raw s) = is_object s && not (is_schema s)
  is_refused (ipfs h) = false
  is_refused (arweave h) = false

  unfoldable pub set_validation_schema :
      N.World → String → SchemaParams Schema → Result SchemaError N.World
  set_validation_schema w id params = stream_metadata w id >>= λ m.
      if is_refused params
      then err invalid_schema
      else ok (N.update_stream w id (with_schema m params))

  abbrev update_without :
      N.World → String → Metadata Schema Json → Option (SchemaParams Schema) → N.World
  update_without w id m none = w
  update_without w id m (some params) = N.update_stream w id (without_schema m)

  unfoldable pub remove_validation_schema : N.World → String → Result SchemaError N.World
  remove_validation_schema w id =
      stream_metadata w id >>= λ m. ok (update_without w id m (schema_config m))

  abbrev validated : Schema → Result SchemaError Schema
  validated s = if is_schema s then ok s else err invalid_schema

  abbrev fetched : Option Schema → Result SchemaError Schema
  fetched none = err not_fetched
  fetched (some s) = validated s

  -- `fetchProtocolSchema`
  abbrev pub fetch_protocol_schema : SchemaParams Schema → Result SchemaError Schema
  fetch_protocol_schema (raw s) = validated s
  fetch_protocol_schema (ipfs h) = fetched (ipfs_json h)
  fetch_protocol_schema (arweave h) = fetched (arweave_json h)

  abbrev fetch_if_some : Option (SchemaParams Schema) → Result SchemaError (Option Schema)
  fetch_if_some none = ok none
  fetch_if_some (some params) = fetch_protocol_schema params >>= λ s. ok (some s)

  unfoldable pub get_validation_schema : N.World → String → Result SchemaError (Option Schema)
  get_validation_schema w id = stream_metadata w id >>= λ m. fetch_if_some (schema_config m)
