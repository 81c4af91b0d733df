-- ===== src/Tests/Report.antt =====
-- A concrete report.
use logstore_archive.Base.{String, ◌≡◌, refl, some, [], ◌∷◌}
use logstore_archive.Base.JsMap
use logstore_archive.Protocol.Report.{
  HexString, zero_x, BigNumbers, Buffers, Hashing, Plain, Serialized, serialize, deserialize,
}
use logstore_archive.Protocol.Report.Laws.{IsReport, deserialize-serialize_report}
use logstore_archive.Base.Result.{ok}
use logstore_archive.Protocol.Registry.{get, set}
use logstore_archive.Protocol.Report.SystemReport
use logstore_archive.Protocol.Report.SystemReport.{serializer_v1}
use logstore_archive.Protocol.Report.SystemReport.Laws.{
  of_plain, of_serialized, system_report_agrees,
}

abbrev digits : HexString → String
digits (zero_x s) = s

-- Numbers by their hexadecimal digits.
abbrev pub by_digits : BigNumbers
by_digits = record {
  BigNumber = String;
  BigInt = String;
  to_hex_string = zero_x;
  from = digits;
  to_big_int = λ n. n;
  from_to_hex_string = λ n. refl;
}

abbrev pub same_text : Buffers
same_text = record {
  IsWellFormed = λ s. Unit {0};
  utf8_to_hex = λ s. s;
  hex_to_utf8 = λ s. s;
  hex_to_utf8-utf8_to_hex = λ s w. refl;
}

abbrev hashing : Hashing
hashing = record { solidity_pack = λ vs. "pack"; solidity_keccak256 = λ vs. "hash" }

abbrev pub report : Plain by_digits same_text
report = record {
  id = "report";
  height = 7;
  treasury = "0a";
  streams = record { id = "stream"; capture = "01"; bytes = 3 } ∷ [];
  consumers = record { id = "0xc"; capture = "02"; bytes = 4 } ∷ [];
  nodes = ("0xa", "03") ∷ ("0xb", "04") ∷ [];
  delegates = ("0xd", ("0xa", "05") ∷ []) ∷ [];
  events =
      some (record { queries = []; storage = record { id = "stream"; hash = "h"; size = 3 } ∷ [] });
}

report-IsReport : IsReport by_digits same_text report
report-IsReport = record {
  streams_lem = (tt, tt);
  events_lem = (tt, tt);
  nodes_lem = unfold JsMap.has in (refl, (refl, tt));
  delegates_lem = unfold JsMap.has in (refl, tt);
  delegates_nodes_lem = unfold JsMap.has in ((refl, tt), tt);
}

deserialize-serialize_report_example :
    deserialize by_digits same_text (serialize by_digits same_text report) ≡ report
deserialize-serialize_report_example =
    deserialize-serialize_report by_digits same_text report report-IsReport

abbrev sign : String → String
sign hash = hash

abbrev stringify : Serialized by_digits same_text → String
stringify r = r.id

system_report_agrees_example :
    (s : Serialized by_digits same_text) × (SystemReport.serialize by_digits same_text
        ((1, serializer_v1 by_digits same_text stringify hashing) ∷ [])
        (of_plain by_digits same_text stringify hashing report)
      ≡ ok s)
    × (SystemReport.deserialize by_digits same_text
          ((1, serializer_v1 by_digits same_text stringify hashing) ∷ [])
          (of_serialized by_digits same_text stringify hashing s)
        ≡ ok report)
    × (SystemReport.to_json by_digits same_text
          ((1, serializer_v1 by_digits same_text stringify hashing) ∷ [])
          (of_serialized by_digits same_text stringify hashing s)
        ≡ SystemReport.to_json by_digits same_text
            ((1, serializer_v1 by_digits same_text stringify hashing) ∷ [])
            (of_plain by_digits same_text stringify hashing report))
    × (SystemReport.to_contract by_digits same_text
          ((1, serializer_v1 by_digits same_text stringify hashing) ∷ [])
          (of_serialized by_digits same_text stringify hashing s)
        ≡ SystemReport.to_contract by_digits same_text
            ((1, serializer_v1 by_digits same_text stringify hashing) ∷ [])
            (of_plain by_digits same_text stringify hashing report))
    × (SystemReport.to_hash by_digits same_text
          ((1, serializer_v1 by_digits same_text stringify hashing) ∷ [])
          (of_serialized by_digits same_text stringify hashing s)
          (some 5)
        ≡ SystemReport.to_hash by_digits same_text
            ((1, serializer_v1 by_digits same_text stringify hashing) ∷ [])
            (of_plain by_digits same_text stringify hashing report)
            (some 5))
system_report_agrees_example =
    system_report_agrees by_digits same_text stringify hashing
      ((1, serializer_v1 by_digits same_text stringify hashing) ∷ []) report (some 5)
      (unfold SystemReport.register_serializer get set in refl) report-IsReport
