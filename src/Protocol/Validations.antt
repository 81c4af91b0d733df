-- ===== src/Protocol/Validations.antt =====
-- packages/protocol/src/utils/validations.ts: the checks of an argument's value.
pub mod Laws
use logstore_archive.Base.{
  ℕ, String, Bool, true, false, not, ◌&&◌, List, [], ◌∷◌, ◌==◌, str_eq, if◌then◌else◌, any,
}
use logstore_archive.Base.Result.{Result, ok, err, ◌>>=◌}

-- A value of JavaScript, as far as the checks look at it. An object is known by its identity; `length`
-- is that of a `String` object, and `classes` are those that `instanceof` finds.
pub data Value : Type 0 where
  undefined null : Value
  boolean : Bool → Value
  -- an integer that is not negative, and one that is: -1 - n
  nonneg negsuc : ℕ → Value
  -- any other number, by its text
  fraction : String → Value
  -- a string and its length
  text : String → ℕ → Value
  string_object : (identity length : ℕ) → Value
  array : (identity : ℕ) → Value
  object : (identity : ℕ) → (classes : List String) → Value

-- `ValidationError`, by what its message says of the name
pub data ValidationError : Type 0 where
  not_undefined not_null not_a_string empty_string not_an_integer negative :
      String → ValidationError
  not_an_array not_an_instance not_one_of : String → ValidationError

abbrev pub Checked : Type 0
Checked = Result ValidationError (Unit {0})

-- `varValue == null`
abbrev pub is_nullish : Value → Bool
is_nullish undefined = true
is_nullish null = true
is_nullish _ = false

-- `typeof varValue === 'string' || varValue instanceof String`
abbrev pub is_string : Value → Bool
is_string (text s n) = true
is_string (string_object i n) = true
is_string _ = false

-- `.length`, which is 0 only of an empty string here
abbrev pub is_empty : Value → Bool
is_empty (text s n) = n == 0
is_empty (string_object i n) = n == 0
is_empty _ = false

abbrev pub is_integer : Value → Bool
is_integer (nonneg n) = true
is_integer (negsuc n) = true
is_integer _ = false

abbrev pub is_negative : Value → Bool
is_negative (negsuc n) = true
is_negative _ = false

abbrev pub is_array : Value → Bool
is_array (array i) = true
is_array _ = false

abbrev pub is_instance_of : String → Value → Bool
is_instance_of c (object i classes) = any (str_eq c) classes
is_instance_of c _ = false

-- `SameValueZero`, which `includes` compares by
abbrev pub same_value : Value → Value → Bool
same_value undefined undefined = true
same_value null null = true
same_value (boolean true) (boolean true) = true
same_value (boolean false) (boolean false) = true
same_value (nonneg m) (nonneg n) = m == n
same_value (negsuc m) (negsuc n) = m == n
same_value (fraction s) (fraction t) = str_eq s t
same_value (text s m) (text t n) = str_eq s t
same_value (string_object i m) (string_object j n) = i == j
same_value (array i) (array j) = i == j
same_value (object i c) (object j d) = i == j
same_value _ _ = false

unfoldable pub validate_is_not_null_or_undefined : String → Value → Checked
validate_is_not_null_or_undefined name undefined = err (not_undefined name)
validate_is_not_null_or_undefined name null = err (not_null name)
validate_is_not_null_or_undefined name v = ok tt

-- The first lines of a check: null is let through where it is allowed.
abbrev pub allowing : Bool → Value → Checked → Checked
allowing allow_null v check = if allow_null && is_nullish v then ok tt else check

unfoldable pub validate_is_string : String → Value → Bool → Checked
validate_is_string name v allow_null = allowing allow_null v (
    validate_is_not_null_or_undefined name v >>= λ u.
    if not (is_string v) then err (not_a_string name) else ok tt)

unfoldable pub validate_is_not_empty_string : String → Value → Bool → Checked
validate_is_not_empty_string name v allow_null =
    allowing allow_null v (
      validate_is_string name v false >>= λ u.
      if is_empty v then err (empty_string name) else ok tt)

unfoldable pub validate_is_integer : String → Value → Bool → Checked
validate_is_integer name v allow_null = allowing allow_null v (
    validate_is_not_null_or_undefined name v >>= λ u.
    if not (is_integer v) then err (not_an_integer name) else ok tt)

unfoldable pub validate_is_not_negative_integer : String → Value → Bool → Checked
validate_is_not_negative_integer name v allow_null =
    allowing allow_null v (
      validate_is_integer name v false >>= λ u.
      if is_negative v then err (negative name) else ok tt)

unfoldable pub validate_is_array : String → Value → Bool → Checked
validate_is_array name v allow_null = allowing allow_null v (
    validate_is_not_null_or_undefined name v >>= λ u.
    if not (is_array v) then err (not_an_array name) else ok tt)

-- This one has no test for null but that for what is allowed.
unfoldable pub validate_is_type : String → Value → String → Bool → Checked
validate_is_type name v type_name allow_null =
    allowing allow_null v
      (if not (is_instance_of type_name v) then err (not_an_instance name) else ok tt)

unfoldable pub validate_is_one_of : String → Value → List Value → Bool → Checked
validate_is_one_of name v valid_values allow_null = allowing allow_null v (
    validate_is_not_null_or_undefined name v >>= λ u.
    if not (any (λ w. same_value w v) valid_values) then err (not_one_of name) else ok tt)
