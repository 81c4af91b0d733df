-- ===== src/Protocol/Wire/Fields.antt =====
-- The fields of a message are read back from its array.
use mathlib.Core.List.{append-nil, append_assoc}
use logstore_archive.Base.{
  ℕ, String, ◌≡◌, refl, sym, ◌∙◌, false, List, [], ◌∷◌, ◌++◌, arith, eq_iff, str_eq,
}
use logstore_archive.Base.JsMap
use logstore_archive.Base.JsMap.{JsMap}
use logstore_archive.Base.Result.{ok}
use logstore_archive.Protocol.Js.{Js, items, jsonify, jsonify_items, in_array, Opt}
use logstore_archive.Protocol.Message.{
  QueryType, QueryOptions, last_options, from_options, range_options, MessageMetadata,
}
use logstore_archive.Protocol.Wire.Encode.{
  opt_num, opt_str, query_type_js, options_array, pairs_items, metadata_js,
}
use logstore_archive.Protocol.Wire.Decode.{
  as_opt_num, as_opt_str, pairs_of, map_of, options_of, query_type_of, metadata_of,
}
use logstore_archive.Protocol.Wire.Arrival.{null_of, wire_options, Fits, HasDistinctKeys}

pub pairs_of-pairs_items :
    (ps : List (String × String)) → pairs_of (jsonify_items (pairs_items ps)) ≡ ok ps
unfolding pairs_of pairs_items jsonify
pairs_of-pairs_items [] = refl
pairs_of-pairs_items (p ∷ ps) = rw (pairs_of-pairs_items ps)

pub set_new :
    (m : JsMap String) (k v : String) → JsMap.has m k ≡ false → JsMap.set m k v ≡ m ++ (k, v) ∷ []
unfolding JsMap.has JsMap.set
set_new [] k v h = refl
set_new ((j, w) ∷ m) k v h = ground (arith, set_new m k v)

-- none of the keys of `ps` is in `m`
abbrev pub IsFresh : JsMap String → List (String × String) → Type 0
IsFresh m [] = Unit
IsFresh m ((k, v) ∷ ps) = (JsMap.has m k ≡ false) × IsFresh m ps

pub has-append :
    (m : JsMap String) (j k v : String)
    → JsMap.has m k ≡ false
    → str_eq j k ≡ false
    → JsMap.has (m ++ (j, v) ∷ []) k ≡ false
unfolding JsMap.has
has-append [] j k v h e = ground arith
has-append ((i, w) ∷ m) j k v h e = ground (arith, has-append m j k v)

pub IsFresh-append :
    (m : JsMap String) (k v : String) (ps : List (String × String))
    → IsFresh m ps
    → JsMap.has ps k ≡ false
    → IsFresh (m ++ (k, v) ∷ []) ps
unfolding JsMap.has
IsFresh-append m k v [] f h = tt
IsFresh-append m k v ((j, w) ∷ ps) (f, fs) h = (
  has-append m k j v f (ground (arith, eq_iff k j, eq_iff j k)),
  IsFresh-append m k v ps fs (ground arith),
)

pub map_of-fresh :
    (m : JsMap String) (ps : List (String × String))
    → IsFresh m ps
    → HasDistinctKeys ps
    → map_of m ps ≡ m ++ ps
unfolding map_of
map_of-fresh m [] f d = sym (append-nil m)
map_of-fresh m ((k, v) ∷ ps) (f, fs) (d, ds) = rw (set_new m k v f) (
    map_of-fresh (m ++ (k, v) ∷ []) ps (IsFresh-append m k v ps fs d) ds
    ∙ append_assoc m ((k, v) ∷ []) ps)

pub IsFresh-empty : (ps : List (String × String)) → IsFresh [] ps
unfolding JsMap.has
IsFresh-empty [] = tt
IsFresh-empty (p ∷ ps) = (refl, IsFresh-empty ps)

pub metadata_of-metadata_js : (m : MessageMetadata) → metadata_of (jsonify (metadata_js m)) ≡ ok m
unfolding metadata_of metadata_js jsonify
metadata_of-metadata_js m = refl

-- how an optional property is read back
pub as_opt_num-opt_num : (o : Opt ℕ) → as_opt_num (in_array (jsonify (opt_num o))) ≡ ok (null_of o)
unfolding jsonify
as_opt_num-opt_num Opt.undefined = refl
as_opt_num-opt_num Opt.null = refl
as_opt_num-opt_num (Opt.given n) = refl

pub as_opt_str-opt_str :
    (o : Opt String) → as_opt_str (in_array (jsonify (opt_str o))) ≡ ok (null_of o)
unfolding jsonify
as_opt_str-opt_str Opt.undefined = refl
as_opt_str-opt_str Opt.null = refl
as_opt_str-opt_str (Opt.given n) = refl

pub query_type_of-query_type_js :
    (t : QueryType) → query_type_of (in_array (jsonify (query_type_js t))) ≡ ok t
unfolding jsonify query_type_of
query_type_of-query_type_js QueryType.last = refl
query_type_of-query_type_js QueryType.from = refl
query_type_of-query_type_js QueryType.range = refl

-- The options behind any eight items are read back.
pub options_of-options_array :
    (a b c d e f g h : Js) (t : QueryType) (o : QueryOptions)
    → Fits t o
    → (xs : List Js) × (options_array t o ≡ ok xs)
      × (options_of t (jsonify_items (items (a ∷ b ∷ c ∷ d ∷ e ∷ f ∷ g ∷ h ∷ xs)))
          ≡ ok (wire_options o))
unfolding options_array options_of jsonify
options_of-options_array a b c d e f g h QueryType.last (last_options n) fits = (_, refl, refl)
options_of-options_array a b c d e f g h QueryType.from (from_options r p limit) fits =
    (_, refl, rw (as_opt_num-opt_num r.sequence_number, as_opt_str-opt_str p))
options_of-options_array a b c d e f g h QueryType.range (range_options r r' m p limit) fits = (
  _,
  refl,
  rw (
    as_opt_num-opt_num r.sequence_number,
    as_opt_num-opt_num r'.sequence_number,
    as_opt_str-opt_str m,
    as_opt_str-opt_str p,
  ),
)
options_of-options_array a b c d e f g h _ _ fits = absurd fits
