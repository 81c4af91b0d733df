-- ===== src/Validator/Managers/LastReport.antt =====
-- packages/validator/src/managers/ReportManager.ts: the last report, as the contract gives it.
pub mod RoundTrip
use logstore_archive.Base.{ℕ, String, ◌≡◌, Option, none, List, [], ◌∷◌, leb, if◌then◌else◌}
use logstore_archive.Base.JsMap
use logstore_archive.Base.JsMap.{JsMap}
use logstore_archive.Base.Result.{Result, ok, err, ◌>>=◌}
use logstore_archive.Protocol.Report.{BigNumbers, Buffers, Stream, Consumer, Plain}
use logstore_archive.Contracts.ReportManager.{
  StreamEntry, ConsumerEntry, Node, Delegate, ContractReport,
}

-- thrown by `toNumber()` of a `BigNumber` past the safe integers
pub data Overflow : Type 0 where
  overflow : Overflow

abbrev pub max_safe_integer : ℕ
max_safe_integer = 9007199254740991

abbrev pub to_number : ℕ → Result Overflow ℕ
to_number n = if leb n max_safe_integer then ok n else err overflow

-- How ethers gives back an address and an amount that a contract was sent.
pub record Abi (B : BigNumbers) : Type 1 where
  pub address : String → String
  pub IsUnsigned : B.BigNumber → Type 0
  pub IsSigned : B.BigNumber → Type 0
  pub uint256 : B.BigInt → B.BigNumber
  pub int256 : B.BigInt → B.BigNumber
  pub uint256-to_big_int : (n : B.BigNumber) → IsUnsigned n → uint256 (B.to_big_int n) ≡ n
  pub int256-to_big_int : (n : B.BigNumber) → IsSigned n → int256 (B.to_big_int n) ≡ n

module _ (B : BigNumbers) (F : Buffers) (A : Abi B) where
  unfoldable pub fill_nodes : JsMap B.BigNumber → List (Node B.BigInt) → JsMap B.BigNumber
  fill_nodes m [] = m
  fill_nodes m (n ∷ ns) = fill_nodes (JsMap.set m (A.address n.id) (A.int256 n.amount)) ns

  unfoldable pub fill_delegates :
      JsMap (JsMap B.BigNumber) → List (Delegate B.BigInt) → JsMap (JsMap B.BigNumber)
  fill_delegates m [] = m
  fill_delegates m (d ∷ ds) =
      fill_delegates (JsMap.set m (A.address d.id) (fill_nodes [] d.nodes)) ds

  abbrev pub read_streams :
      List (StreamEntry B.BigInt) → Result Overflow (List (Stream String B.BigNumber))
  read_streams [] = ok []
  read_streams (s ∷ ss) = to_number s.write_bytes >>= λ bytes. read_streams ss >>= λ rest.
      ok (record { id = s.id; capture = A.uint256 s.write_capture; bytes = bytes } ∷ rest)

  abbrev pub read_consumers :
      List (ConsumerEntry B.BigInt) → Result Overflow (List (Consumer B.BigNumber))
  read_consumers [] = ok []
  read_consumers (c ∷ cs) = to_number c.read_bytes >>= λ bytes. read_consumers cs >>= λ rest.
      ok (record { id = A.address c.id; capture = A.uint256 c.read_capture; bytes = bytes } ∷ rest)

  unfoldable pub get_last_report : ContractReport B.BigInt → Result Overflow (Plain B F)
  get_last_report r = to_number r.height >>= λ height. read_streams r.streams >>= λ streams.
      read_consumers r.consumers >>= λ consumers. ok (record {
        id = r.id;
        height = height;
        treasury = A.int256 r.treasury;
        streams = streams;
        consumers = consumers;
        nodes = fill_nodes [] r.nodes;
        delegates = fill_delegates [] r.delegates;
        events = none;
      })
