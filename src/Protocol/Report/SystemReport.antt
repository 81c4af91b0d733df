-- ===== src/Protocol/Report/SystemReport.antt =====
-- packages/protocol/src/report/SystemReport.ts: the class, and its table of serializers by version.
pub mod Laws
use logstore_archive.Base.{
  ℕ, String, ◌≡◌, refl, Bool, true, false, not, ◌&&◌, Option, none, some, List, [], ◌∷◌, ◌==◌,
  str_eq, if◌then◌else◌,
}
use logstore_archive.Base.Result.{Result, ok, err, ◌>>=◌}
use logstore_archive.Protocol.Message.{ProofOfReport}
use logstore_archive.Protocol.Registry.{Table, get, set, delete}
use logstore_archive.Protocol.Report
use logstore_archive.Protocol.Report.{
  BigNumbers, Buffers, Hashing, ContractParams, Plain, Serialized, Report, plain, serialized,
}

-- `report.v`, of a payload that comes from anywhere: a number, a name, or nothing
pub data VersionField : Type 0 where
  absent : VersionField
  number : ℕ → VersionField
  name : String → VersionField

-- The object that TypeScript makes of `enum ReportSerializerVersions { V1 = 1 }`, read at a number
-- and at a name.
abbrev pub name_of : ℕ → Option String
name_of n = if n == 1 then some "V1" else none

abbrev pub number_of : String → Option ℕ
number_of s = if str_eq s "V1" then some 1 else none

-- whether `ReportSerializerVersions[v]` is truthy
abbrev pub is_version : VersionField → Bool
is_version absent = false
is_version (number n) = n == 1
is_version (name s) = str_eq s "V1"

abbrev or_undefined : Option String → Option ℕ
or_undefined none = none
or_undefined (some s) = number_of s

unfoldable pub get_version_by_number : ℕ → Option ℕ
get_version_by_number n = or_undefined (name_of n)

abbrev pub get_supported_versions : List ℕ
get_supported_versions = 1 ∷ []

abbrev pub latest_version : ℕ
latest_version = 1

pub data ReportError : Type 0 where
  invalid_report_payload invalid_version invalid_serializer_version : ReportError
  already_registered : ReportError

module _ (B : BigNumbers) (F : Buffers) where
  -- `ReportSerializer`
  pub record ReportSerializer : Type 0 where
    pub serialize : Plain B F → Serialized B F
    pub deserialize : Serialized B F → Plain B F
    pub to_json : Report B F → String
    pub to_contract : Report B F → ContractParams B.BigInt
    pub to_hash : Report B F → Option ℕ → String

  -- `ReportSeralizerV1`; `stringify` is `JSON.stringify`
  abbrev pub serializer_v1 : (Serialized B F → String) → Hashing → ReportSerializer
  serializer_v1 stringify H = record {
    serialize = Report.serialize B F;
    deserialize = Report.deserialize B F;
    to_json = λ r. stringify (Report.as_serialized B F r);
    to_contract = Report.to_contract B F;
    to_hash = Report.to_hash B F H;
  }

  abbrev pub Serializers : Type 0
  Serializers = Table ReportSerializer

  abbrev unless_taken :
      Serializers → ℕ → ReportSerializer → Option ReportSerializer → Result ReportError Serializers
  unless_taken t version s (some taken) = err already_registered
  unless_taken t version s none = ok (set t version s)

  unfoldable pub register_serializer :
      Serializers → ℕ → ReportSerializer → Result ReportError Serializers
  register_serializer t version s = unless_taken t version s (get t version)

  abbrev or_invalid : Option ReportSerializer → Result ReportError ReportSerializer
  or_invalid none = err invalid_serializer_version
  or_invalid (some s) = ok s

  unfoldable pub get_serializer : Serializers → ℕ → Result ReportError ReportSerializer
  get_serializer t version = or_invalid (get t version)

  unfoldable pub unregister_serializer : Serializers → ℕ → Serializers
  unregister_serializer t version = delete t version

  -- What the constructor is given: whether there is a flag `s`, the version, and the report that the
  -- rest makes up.
  pub record ReportPayload : Type 0 where
    pub has_flag : Bool
    pub version_field : VersionField
    pub report : Report B F

  pub record SystemReport : Type 0 where
    pub report : Report B F
    pub version : ℕ

  abbrev has_version : VersionField → Bool
  has_version absent = false
  has_version _ = true

  unfoldable pub new_system_report : ReportPayload → ℕ → Result ReportError SystemReport
  new_system_report p version =
      if not (p.has_flag && has_version p.version_field)
      then err invalid_report_payload
      else if not (is_version p.version_field)
      then err invalid_version
      else ok (record { report = p.report; version = version })

  abbrev pub is_serialized : SystemReport → Bool
  is_serialized r = elim r.report [ plain p ↦ false | serialized p ↦ true ]

  module _ (t : Serializers) where
    -- `this.report.s === true` gives the report back, with no serializer asked for.
    abbrev serialize_by : ℕ → Report B F → Result ReportError (Serialized B F)
    serialize_by version (serialized p) = ok p
    serialize_by version (plain p) = get_serializer t version >>= λ s. ok (s.serialize p)

    unfoldable pub serialize : SystemReport → Result ReportError (Serialized B F)
    serialize r = serialize_by r.version r.report

    abbrev deserialize_by : ℕ → Report B F → Result ReportError (Plain B F)
    deserialize_by version (plain p) = ok p
    deserialize_by version (serialized p) = get_serializer t version >>= λ s. ok (s.deserialize p)

    unfoldable pub deserialize : SystemReport → Result ReportError (Plain B F)
    deserialize r = deserialize_by r.version r.report

    unfoldable pub to_json : SystemReport → Result ReportError String
    to_json r = get_serializer t r.version >>= λ s. ok (s.to_json r.report)

    unfoldable pub to_contract : SystemReport → Result ReportError (ContractParams B.BigInt)
    to_contract r = get_serializer t r.version >>= λ s. ok (s.to_contract r.report)

    unfoldable pub to_hash : SystemReport → Option ℕ → Result ReportError String
    to_hash r timestamp = get_serializer t r.version >>= λ s. ok (s.to_hash r.report timestamp)
