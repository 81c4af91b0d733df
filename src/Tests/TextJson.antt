-- ===== src/Tests/TextJson.antt =====
-- A concrete `JSON` for the tests: a text that names the kind of each value by one character. It
-- meets the law that the code relies on.
use Prim.Native.Char.{Char, code}
use logstore_archive.Base.{
  ℕ, zero, suc, ◌+◌, ◌≤◌, ◌<◌, String, ◌≡◌, refl, true, false, Option, none, some, arith, ◌==◌,
}
use logstore_archive.Protocol.Js.{Js, Items, jsonify, jsonify_items, in_array, Json}

infixr 67 ◌▸◌
abbrev ◌▸◌ : Char → String → String
c ▸ s = String.◌∷◌ c s

unary : ℕ → String → String
unary zero r = "." ▸ r
unary (suc n) r = "1" ▸ unary n r

chars : String → String → String
chars String.[] r = "." ▸ r
chars (String.◌∷◌ c s) r = "1" ▸ c ▸ chars s r

unfoldable mutual
  unfolding unary chars

  pub print : Js → String → String
  print Js.undefined r = "n" ▸ r
  print Js.null r = "n" ▸ r
  print (Js.bool true) r = "t" ▸ r
  print (Js.bool false) r = "f" ▸ r
  print (Js.num n) r = "#" ▸ unary n r
  print (Js.str s) r = "s" ▸ chars s r
  print (Js.arr xs) r = "a" ▸ print_items xs r

  print_items : Items → String → String
  print_items Items.nil r = "." ▸ r
  print_items (Items.cons x xs) r = "1" ▸ print x (print_items xs r)

read_unary : String → Option (ℕ × String)
read_unary String.[] = none
read_unary (String.◌∷◌ c s) = elim (code c == 49) [
  | true ↦ elim (read_unary s) [ none ↦ none | some (n, r) ↦ some (suc n, r) ]
  | false ↦ some (0, s)
]

read_chars : String → Option (String × String)
read_chars String.[] = none
read_chars (String.◌∷◌ c String.[]) = some ("", "")
read_chars (String.◌∷◌ c (String.◌∷◌ d s)) = elim (code c == 49) [
  | true ↦ elim (read_chars s) [ none ↦ none | some (t, r) ↦ some (d ▸ t, r) ]
  | false ↦ some ("", d ▸ s)
]

read_unary-unary : (n : ℕ) (r : String) → read_unary (unary n r) ≡ some (n, r)
unfolding read_unary unary
read_unary-unary zero r = refl
read_unary-unary (suc n) r = rw (read_unary-unary n r)

read_chars-chars : (s r : String) → read_chars (chars s r) ≡ some (s, r)
unfolding read_chars chars
read_chars-chars String.[] String.[] = refl
read_chars-chars String.[] (String.◌∷◌ d r) = refl
read_chars-chars (String.◌∷◌ c s) r = rw (read_chars-chars s r)

unfoldable mutual
  read : ℕ → String → Option (Js × String)
  read zero s = none
  read (suc f) String.[] = none
  read (suc f) (String.◌∷◌ c s) = elim (code c == 110) [
    | true ↦ some (Js.null, s)
    | false ↦ elim (code c == 116) [
      | true ↦ some (Js.bool true, s)
      | false ↦ elim (code c == 102) [
        | true ↦ some (Js.bool false, s)
        | false ↦ elim (code c == 35) [
          | true ↦ elim (read_unary s) [ none ↦ none | some (n, r) ↦ some (Js.num n, r) ]
          | false ↦ elim (code c == 115) [
            | true ↦ elim (read_chars s) [ none ↦ none | some (t, r) ↦ some (Js.str t, r) ]
            | false ↦ elim (read_items f s) [ none ↦ none | some (xs, r) ↦ some (Js.arr xs, r) ]
          ]
        ]
      ]
    ]
  ]

  read_items : ℕ → String → Option (Items × String)
  read_items zero s = none
  read_items (suc f) String.[] = none
  read_items (suc f) (String.◌∷◌ c s) = elim (code c == 49) [
    | true ↦ elim (read f s) [
      | none ↦ none
      | some (x, r) ↦ elim (read_items f r) [
        | none ↦ none
        | some (xs, r') ↦ some (Items.cons x xs, r')
      ]
    ]
    | false ↦ some (Items.nil, s)
  ]

unfoldable mutual
  cost : Js → ℕ
  cost (Js.arr xs) = suc (cost_items xs)
  cost v = 1

  cost_items : Items → ℕ
  cost_items Items.nil = 1
  cost_items (Items.cons x xs) = suc (cost x + cost_items xs)

cost_pos : (v : Js) → 0 < cost v
unfolding cost
cost_pos (Js.arr xs) = omega arith
cost_pos v = omega arith

size : String → ℕ
size String.[] = 0
size (String.◌∷◌ c s) = suc (size s)

mutual
  unfolding read print cost jsonify

  read-print :
      (f : ℕ) (v : Js) (r : String)
      → cost v ≤ f
      → read f (print v r) ≡ some (in_array (jsonify v), r)
  read-print zero v r h = absurd (omega (arith, cost_pos v))
  read-print (suc f) Js.undefined r h = refl
  read-print (suc f) Js.null r h = refl
  read-print (suc f) (Js.bool true) r h = refl
  read-print (suc f) (Js.bool false) r h = refl
  read-print (suc f) (Js.num n) r h = rw (read_unary-unary n r, read)
  read-print (suc f) (Js.str s) r h = rw (read_chars-chars s r, read)
  read-print (suc f) (Js.arr xs) r h = rw (read_items-print f xs r (omega arith), read)

  read_items-print :
      (f : ℕ) (xs : Items) (r : String)
      → cost_items xs ≤ f
      → read_items f (print_items xs r) ≡ some (jsonify_items xs, r)
  read_items-print zero Items.nil r h = absurd (omega arith)
  read_items-print zero (Items.cons x xs) r h = absurd (omega arith)
  read_items-print (suc f) Items.nil r h = refl
  read_items-print (suc f) (Items.cons x xs) r h =
      rw (
        read-print f x (print_items xs r) (omega arith),
        read_items-print f xs r (omega arith),
        read,
      )

size-unary : (n : ℕ) (r : String) → size r < size (unary n r)
unfolding size unary
size-unary zero r = omega arith
size-unary (suc n) r = omega (arith, size-unary n r)

size-chars : (s r : String) → size r < size (chars s r)
unfolding size chars
size-chars String.[] r = omega arith
size-chars (String.◌∷◌ c s) r = omega (arith, size-chars s r)

mutual
  unfolding size print cost

  size-print : (v : Js) (r : String) → cost v + size r ≤ size (print v r)
  size-print Js.undefined r = omega arith
  size-print Js.null r = omega arith
  size-print (Js.bool true) r = omega arith
  size-print (Js.bool false) r = omega arith
  size-print (Js.num n) r = omega (arith, size-unary n r)
  size-print (Js.str s) r = omega (arith, size-chars s r)
  size-print (Js.arr xs) r = omega (arith, size-print_items xs r)

  size-print_items : (xs : Items) (r : String) → cost_items xs + size r ≤ size (print_items xs r)
  size-print_items Items.nil r = omega arith
  size-print_items (Items.cons x xs) r =
      omega (arith, size-print x (print_items xs r), size-print_items xs r)

abbrev first {ℓ} : {A : Type ℓ} → Option (A × String) → Option A
first none = none
first (some (v, _)) = some v

unfoldable pub text_parse : String → Option Js
unfolding read read_unary read_chars size
text_parse s = first (read (size s) s)

pub text_parse_stringify :
    (xs : Items) → text_parse (print (Js.arr xs) "") ≡ some (jsonify (Js.arr xs))
unfolding text_parse jsonify
text_parse_stringify xs = rw (
    read-print (size (print (Js.arr xs) "")) (Js.arr xs) ""
      (omega (arith, size-print (Js.arr xs) "")))

abbrev pub text_json : Json
text_json = record {
  stringify = λ v. print v "";
  parse = text_parse;
  parse_stringify = text_parse_stringify;
}
