-- ===== src/Protocol/Report/SystemReport/Laws.antt =====
-- packages/protocol/src/report/SystemReport.ts: what its methods give of the two forms of a report.
use logstore_archive.Base.{ℕ, String, ◌≡◌, refl, Option, [], arith}
use logstore_archive.Base.Result.{ok}
use logstore_archive.Protocol.Registry.{get, set}
use logstore_archive.Protocol.Report
use logstore_archive.Protocol.Report.{
  BigNumbers, Buffers, Hashing, Plain, Serialized, plain, serialized,
}
use logstore_archive.Protocol.Report.Laws.{
  IsReport, deserialize-serialize_report, to_contract-serialized,
}
use logstore_archive.Protocol.Report.SystemReport
use logstore_archive.Protocol.Report.SystemReport.{
  SystemReport, Serializers, serializer_v1, invalid_serializer_version, already_registered,
  latest_version,
}

module _ (B : BigNumbers) (F : Buffers) (stringify : Serialized B F → String) (H : Hashing) where
  abbrev pub of_plain : Plain B F → SystemReport B F
  of_plain r = record { report = plain r; version = latest_version }

  abbrev pub of_serialized : Serialized B F → SystemReport B F
  of_serialized r = record { report = serialized r; version = latest_version }

  get_serializer-first :
      (t : Serializers B F) (s : SystemReport.ReportSerializer B F)
      → SystemReport.register_serializer B F [] 1 s ≡ ok t
      → SystemReport.get_serializer B F t 1 ≡ ok s
  unfolding SystemReport.register_serializer SystemReport.get_serializer get set
  get_serializer-first t s e = ground arith

  -- Once the serializer of version 1 is registered in an empty table, a report (with well-formed
  -- stream ids and each key once) and what serialize gives of it are the same to
  -- the class: deserialize gives the report back, and toJSON, toContract and toHash agree.
  pub system_report_agrees :
      (t : Serializers B F) (r : Plain B F) (timestamp : Option ℕ)
      → SystemReport.register_serializer B F [] 1 (serializer_v1 B F stringify H) ≡ ok t
      → IsReport B F r
      → (s : Serialized B F) × (SystemReport.serialize B F t (of_plain r) ≡ ok s)
        × (SystemReport.deserialize B F t (of_serialized s) ≡ ok r)
        × (SystemReport.to_json B F t (of_serialized s) ≡ SystemReport.to_json B F t (of_plain r))
        × (SystemReport.to_contract B F t (of_serialized s)
            ≡ SystemReport.to_contract B F t (of_plain r))
        × (SystemReport.to_hash B F t (of_serialized s) timestamp
            ≡ SystemReport.to_hash B F t (of_plain r) timestamp)
  unfolding SystemReport.serialize SystemReport.deserialize SystemReport.to_json
      SystemReport.to_contract SystemReport.to_hash
  system_report_agrees t r timestamp e h =
      let found = get_serializer-first t _ e in
      (
        Report.serialize B F r,
        rw found refl,
        rw (found, deserialize-serialize_report B F r h) refl,
        rw found refl,
        rw (found, to_contract-serialized B F r h) refl,
        rw found (unfold Report.to_hash in refl),
      )
