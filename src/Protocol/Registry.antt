-- ===== src/Protocol/Registry.antt =====
-- The serializers of packages/protocol/src/system/SystemMessage.ts, by version and type.
pub mod Laws
use logstore_archive.Base.{
  ℕ, Bool, true, false, Option, none, some, List, [], ◌∷◌, ◌==◌, if◌then◌else◌,
}
use logstore_archive.Base.Result.{Result, ok, err, ◌>>=◌}
use logstore_archive.Protocol.Message.{SystemMessageType, code}

pub data ProtocolError : Type 0 where
  unsupported_version unsupported_type already_registered : ProtocolError
  -- a TypeError or a SyntaxError of the language
  type_error syntax_error : ProtocolError
  -- a value of another type than the class declares, which the code passes on unchecked
  ill_typed : ProtocolError
  -- the recursion of `deserialize` ran out of the fuel of the model
  out_of_fuel : ProtocolError

-- An object with numbers as keys.
abbrev pub Table : Type 0 → Type 0
Table V = List (ℕ × V)

module _ {V : Type 0} where
  unfoldable pub get : Table V → ℕ → Option V
  get [] k = none
  get ((j, v) ∷ m) k = if j == k then some v else get m k

  unfoldable pub set : Table V → ℕ → V → Table V
  set [] k v = (k, v) ∷ []
  set ((j, w) ∷ m) k v = if j == k then (j, v) ∷ m else (j, w) ∷ set m k v

  unfoldable pub delete : Table V → ℕ → Table V
  delete [] k = []
  delete ((j, w) ∷ m) k = let rest = delete m k in if j == k then rest else (j, w) ∷ rest

-- The serializer class of version 1 for a type of message.
pub data Serializer : Type 0 where
  serializer_v1 : SystemMessageType → Serializer

abbrev pub Registry : Type 0
Registry = Table (Table Serializer)

abbrev or_empty : Option (Table Serializer) → Table Serializer
or_empty none = []
or_empty (some by_type) = by_type

abbrev unless_taken :
    Registry → ℕ → ℕ → Serializer → Option Serializer → Result ProtocolError Registry
unless_taken r version type s (some taken) = err already_registered
unless_taken r version type s none = ok (set r version (set (or_empty (get r version)) type s))

unfoldable pub register_serializer : Registry → ℕ → ℕ → Serializer → Result ProtocolError Registry
register_serializer r version type s =
    unless_taken r version type s (get (or_empty (get r version)) type)

-- `delete serializerByVersionAndType[version][type]`
unfoldable pub unregister_serializer : Registry → ℕ → ℕ → Result ProtocolError Registry
unregister_serializer r version type = elim (get r version) [
  | none ↦ err type_error
  | some by_type ↦ ok (set r version (delete by_type type))
]

abbrev or_unsupported : Option Serializer → Result ProtocolError Serializer
or_unsupported none = err unsupported_type
or_unsupported (some s) = ok s

unfoldable pub get_serializer : Registry → ℕ → ℕ → Result ProtocolError Serializer
get_serializer r version type = elim (get r version) [
  | none ↦ err unsupported_version
  | some by_type ↦ or_unsupported (get by_type type)
]

-- The calls that the modules of the seven classes make when they are loaded.
register_v1 : Registry → List SystemMessageType → Result ProtocolError Registry
register_v1 r [] = ok r
register_v1 r (t ∷ ts) = do
  r' ← register_serializer r 1 (code t) (serializer_v1 t)
  register_v1 r' ts

unfoldable pub loaded : Result ProtocolError Registry
unfolding register_v1 register_serializer get set
loaded = register_v1 [] (
    SystemMessageType.proof_of_report ∷ SystemMessageType.query_propagate
    ∷ SystemMessageType.query_request ∷ SystemMessageType.query_response
    ∷ SystemMessageType.recovery_complete ∷ SystemMessageType.recovery_request
    ∷ SystemMessageType.recovery_response ∷ [])
