-- ===== src/Protocol/Js.antt =====
-- The JavaScript values that the serializers write and read, and JSON as the code relies on it.
use logstore_archive.Base.{ℕ, zero, suc, String, ◌≡◌, Bool, Option, some, List, [], ◌∷◌}

-- No serializer of packages/protocol/src/system writes an object, so there is none here.
mutual
  pub data Js : Type 0 where
    undefined null : Js
    bool : Bool → Js
    num : ℕ → Js
    str : String → Js
    arr : Items → Js

  pub data Items : Type 0 where
    nil : Items
    cons : Js → Items → Items

abbrev pub items : List Js → Items
items [] = nil
items (x ∷ xs) = cons x (items xs)

abbrev pub array : List Js → Js
array xs = arr (items xs)

-- `a[i]`, which is undefined past the end
abbrev pub item_at : Items → ℕ → Js
item_at nil i = undefined
item_at (cons x xs) zero = x
item_at (cons x xs) (suc i) = item_at xs i

-- What is left of a value after `JSON.parse(JSON.stringify(v))`: in an array undefined turns into
-- null.
abbrev pub in_array : Js → Js
in_array undefined = null
in_array v = v

unfoldable mutual
  pub jsonify : Js → Js
  jsonify (arr xs) = arr (jsonify_items xs)
  jsonify v = v

  pub jsonify_items : Items → Items
  jsonify_items nil = nil
  jsonify_items (cons x xs) = cons (in_array (jsonify x)) (jsonify_items xs)

-- `JSON`, of the language: a text that was written from an array is read back.
pub record Json : Type 0 where
  pub stringify : Js → String
  pub parse : String → Option Js
  pub parse_stringify : (xs : Items) → parse (stringify (arr xs)) ≡ some (jsonify (arr xs))

-- An optional property of a TypeScript interface, which JSON can turn into null.
pub data Opt {ℓ} (A : Type ℓ) : Type ℓ where
  undefined null : Opt A
  given : A → Opt A
