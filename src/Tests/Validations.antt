-- ===== src/Tests/Validations.antt =====
-- The checks of values, at some values.
use logstore_archive.Base.{◌≡◌, refl, false}
use logstore_archive.Base.Result.{err}
use logstore_archive.Protocol.Validations.{
  null, negsuc, not_null, negative, validate_is_not_null_or_undefined, validate_is_integer,
  validate_is_not_negative_integer,
}

negative_version :
    validate_is_not_negative_integer "version" (negsuc 0) false ≡ err (negative "version")
unfolding validate_is_not_negative_integer validate_is_integer validate_is_not_null_or_undefined
negative_version = refl

null_version : validate_is_integer "version" null false ≡ err (not_null "version")
unfolding validate_is_integer validate_is_not_null_or_undefined
null_version = refl
