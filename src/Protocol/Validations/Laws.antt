-- ===== src/Protocol/Validations/Laws.antt =====
-- packages/protocol/src/utils/validations.ts: which values the checks let through.
use logstore_archive.Base.{String, ◌≡◌, Bool, true, false, not, ◌&&◌, ◌||◌, List, any, arith}
use logstore_archive.Base.Result.{ok, err}
use logstore_archive.Protocol.Validations.{
  Value, Checked, is_nullish, is_string, is_empty, is_integer, is_negative, is_array,
  is_instance_of, same_value, validate_is_not_null_or_undefined, validate_is_string,
  validate_is_not_empty_string, validate_is_integer, validate_is_not_negative_integer,
  validate_is_array, validate_is_type, validate_is_one_of,
}

abbrev pub passes : Checked → Bool
passes (ok u) = true
passes (err e) = false

-- Where null is allowed, both null and undefined pass every check. Beside that, a value passes just
-- if it is a string, a string that is not empty, an integer, an integer that is not negative, an
-- array, an instance of the class, or one of the values and neither null nor undefined.
validations_lem :
    (name type_name : String) (v : Value) (valid_values : List Value) (allow_null : Bool)
    → (passes (validate_is_string name v allow_null) ≡ (allow_null && is_nullish v || is_string v))
      × (passes (validate_is_not_empty_string name v allow_null)
          ≡ (allow_null && is_nullish v || is_string v && not (is_empty v)))
      × (passes (validate_is_integer name v allow_null)
          ≡ (allow_null && is_nullish v || is_integer v))
      × (passes (validate_is_not_negative_integer name v allow_null)
          ≡ (allow_null && is_nullish v || is_integer v && not (is_negative v)))
      × (passes (validate_is_array name v allow_null) ≡ (allow_null && is_nullish v || is_array v))
      × (passes (validate_is_type name v type_name allow_null)
          ≡ (allow_null && is_nullish v || is_instance_of type_name v))
      × (passes (validate_is_one_of name v valid_values allow_null) ≡ (
          allow_null && is_nullish v
          || not (is_nullish v) && any (λ w. same_value w v) valid_values))
unfolding validate_is_not_null_or_undefined validate_is_string validate_is_not_empty_string
    validate_is_integer validate_is_not_negative_integer validate_is_array validate_is_type
    validate_is_one_of
validations_lem name type_name v valid_values allow_null = (
  ground arith,
  ground arith,
  ground arith,
  ground arith,
  ground arith,
  ground arith,
  ground arith,
)
