-- ===== src/Client/SchemaManager/RoundTrip.antt =====
-- A schema that is set is read back, and one that is removed is gone.
use text.Mathlib.TextEquality.{eq_iff}
use logstore_archive.Base.{
  String, str_eq, ◌≡◌, ◌≢◌, refl, sym, ◌∙◌, Bool, false, Option, none, some, Bool-cases,
  Option-cases, inl, inr, some_inj, arith, eq_refl,
}
use logstore_archive.Base.Result.{ok, ◌>>=◌, err-ne-ok, ok_inj}
use logstore_archive.Client.SchemaManager.{
  SchemaParams, Streams, Metadata, set_validation_schema, remove_validation_schema,
  get_validation_schema, with_schema, without_schema, schema_config, Logstore, schema_of,
  drop_schema, is_refused, fetch_protocol_schema,
}

schema_of_dropped :
    {Schema Json : Type 0} (l : Option (Logstore Schema Json)) → schema_of (drop_schema l) ≡ none
schema_of_dropped none = refl
schema_of_dropped (some l) = refl

schema_config_without :
    {Schema Json : Type 0} (m : Metadata Schema Json) → schema_config (without_schema m) ≡ none
schema_config_without m = schema_of_dropped m.logstore

module _ {Schema Json : Type 0} (N : Streams Schema Json) (is_schema is_object : Schema → Bool)
    (ipfs_json arweave_json : String → Option Schema) where
  set_lem :
      (w after : N.World) (id : String) (params : SchemaParams Schema)
      → set_validation_schema N is_schema is_object ipfs_json arweave_json w id params ≡ ok after
      → (m : Metadata Schema Json) × (N.metadata_of w id ≡ some m)
        × (N.update_stream w id (with_schema m params) ≡ after)
  unfolding set_validation_schema
  set_lem w after id params h = elim (Option-cases (N.metadata_of w id)) [
    | inl gone ↦ absurd (err-ne-ok (rw gone at h))
    | inr (m, here) ↦
        let k = rw here at h in
        elim (Bool-cases (is_refused N is_schema is_object ipfs_json arweave_json params)) [
          | inl refused ↦ absurd (err-ne-ok (rw refused at k))
          | inr fine ↦ (m, here, ok_inj (rw fine at k))
        ]
  ]

  written_here :
      (w : N.World) (id : String) (m : Metadata Schema Json)
      → N.metadata_of (N.update_stream w id m) id ≡ some m
  written_here w id m = N.metadata_of-update_stream w id id m ∙ rw (eq_refl id) refl

  written_elsewhere :
      (w : N.World) (id other : String) (m : Metadata Schema Json)
      → id ≢ other
      → N.metadata_of (N.update_stream w id m) other ≡ N.metadata_of w other
  written_elsewhere w id other m d =
      let apart : str_eq id other ≡ false = ground (arith, eq_iff id other) in
      N.metadata_of-update_stream w id other m ∙ rw apart refl

  -- Where setting a schema succeeds, reading it gives the schema that its protocol gives, or fails
  -- as the protocol does; the stream keeps the rest of its metadata, and any other stream all of it.
  pub get-set_validation_schema :
      (w after : N.World) (id : String) (params : SchemaParams Schema)
      → set_validation_schema N is_schema is_object ipfs_json arweave_json w id params ≡ ok after
      → (get_validation_schema N is_schema is_object ipfs_json arweave_json after id ≡ (
          fetch_protocol_schema N is_schema is_object ipfs_json arweave_json params >>= λ s.
          ok (some s)))
        × ((m : Metadata Schema Json)
            → N.metadata_of w id ≡ some m
            → N.metadata_of after id ≡ some (with_schema m params))
        × ((other : String) → id ≢ other → N.metadata_of after other ≡ N.metadata_of w other)
  unfolding set_validation_schema get_validation_schema
  get-set_validation_schema w after id params h =
      let (m, here, made) = set_lem w after id params h in
      let read = written_here w id (with_schema m params) in
      (
        rw (sym made, read) refl,
        λ n there. let same : m ≡ n = some_inj (sym here ∙ there) in rw (sym made, sym same) read,
        λ other d. rw (sym made) (written_elsewhere w id other (with_schema m params) d),
      )

  -- After removing the schema of a stream there is none to read, and any other stream keeps its
  -- metadata.
  pub get-remove_validation_schema :
      (w after : N.World) (id : String)
      → remove_validation_schema N is_schema is_object ipfs_json arweave_json w id ≡ ok after
      → (get_validation_schema N is_schema is_object ipfs_json arweave_json after id ≡ ok none)
        × ((other : String) → id ≢ other → N.metadata_of after other ≡ N.metadata_of w other)
  unfolding remove_validation_schema get_validation_schema
  get-remove_validation_schema w after id h = elim (Option-cases (N.metadata_of w id)) [
    | inl gone ↦ absurd (err-ne-ok (rw gone at h))
    | inr (m, here) ↦ elim (Option-cases (schema_config m)) [
      | inl no_schema ↦
          let made : w ≡ after = ok_inj (rw (here, no_schema) at h) in
          rw (sym made) (rw (here, no_schema) refl, λ other d. refl)
      | inr (params, some_schema) ↦
          let made : N.update_stream w id (without_schema m) ≡ after =
            ok_inj (rw (here, some_schema) at h) in
          let read = written_here w id (without_schema m) in
          (
            rw (sym made, read, schema_config_without m) refl,
            λ other d. rw (sym made) (written_elsewhere w id other (without_schema m) d),
          )
    ]
  ]
