-- ===== src/Tests/Managers.antt =====
-- A chain of three blocks, two ranges of events, and a report on the contract.
use logstore_archive.Base.{
  ℕ, ◌+◌, ◌*◌, String, ◌≡◌, refl, Option, some, none, List, [], ◌∷◌, leb, if◌then◌else◌, arith, ap₂,
}
use logstore_archive.Base.JsMap
use logstore_archive.Base.Result.{ok}
use logstore_archive.Protocol.Report.{to_contract, plain}
use logstore_archive.Contracts.ReportManager.{ContractReport, kept_report}
use logstore_archive.Validator.Managers.FindBlock.{ℤ, pos, negsuc, find_block}
use logstore_archive.Validator.Managers.FindBlock.Laws.{Chain, IsClosest, find_block-IsClosest}
use logstore_archive.Validator.Managers.Stores.{
  StoreEvent, new_manager, get_stores, stake, stake_all,
}
use logstore_archive.Validator.Managers.Stores.Ledger.{
  amount_of, amounts_for, added, taken, get_stores-amount_of,
}
use logstore_archive.Validator.Managers.Stores.Ranges.{IsCommuting, IsQuery, get_stores-get_stores}
use logstore_archive.Validator.Managers.LastReport.{Abi, get_last_report}
use logstore_archive.Validator.Managers.LastReport.RoundTrip.{
  IsSendable, get_last_report-kept_report,
}
use logstore_archive.Tests.Report.{by_digits, same_text, report}

abbrev time : ℕ → ℕ
time n = n * 10 + 10

abbrev block_time : ℤ → Option ℕ
block_time (negsuc n) = none
block_time (pos n) = if leb n 2 then some (time n) else none

abbrev three_blocks : Chain block_time 2
three_blocks = record {
  time = time;
  mined = λ n le. ground arith;
  increasing = λ n m lt le. omega arith;
  unmined = λ n lt. ground arith;
}

find_block-IsClosest_example :
    (b : ℕ) × (find_block block_time (λ ts low limit a c. some (pos low)) 2 25 ≡ ok b)
    × IsClosest time 2 25 b
find_block-IsClosest_example =
    find_block-IsClosest block_time (λ ts low limit a c. some (pos low)) 2 three_blocks 25
      (λ ts low limit a c d. (pos low, refl)) (omega arith) (omega arith) (omega arith)

-- an amount as what was gained and what was lost
abbrev pub Amount : Type 0
Amount = ℕ × ℕ

abbrev pub add : Amount → Amount → Amount
add a b = (a.0 + b.0, a.1 + b.1)

abbrev pub sub : Amount → Amount → Amount
sub a b = (a.0 + b.1, a.1 + b.0)

pub amounts-IsCommuting : IsCommuting add sub
amounts-IsCommuting a stake fee = ap₂ (λ x y. (x, y)) (omega arith) (omega arith)

-- an event in block 5
abbrev pub in_block_five : String → ℕ → ℕ → ℕ → List (StoreEvent Amount)
in_block_five id amount from to =
    if leb from 5
    then if leb 5 to then record { store = id; amount = (amount, 0) } ∷ [] else []
    else []

pub in_block_five-IsQuery : (id : String) (amount : ℕ) → IsQuery add sub (in_block_five id amount)
in_block_five-IsQuery id amount a b c p q = ground arith

get_stores-amount_of_example :
    amount_of add sub
      ((get_stores add sub (in_block_five "s" 9) (in_block_five "s" 2) new_manager 1 8).0)
      "s"
    ≡ taken add sub
        (added add sub none (amounts_for add sub "s" (in_block_five "s" 9 1 8)))
        (amounts_for add sub "s" (in_block_five "s" 2 1 8))
get_stores-amount_of_example =
    get_stores-amount_of add sub (in_block_five "s" 9) (in_block_five "s" 2) 1 8 "s" (omega arith)

get_stores-get_stores_example :
    get_stores add sub
      (in_block_five "s" 9)
      (in_block_five "s" 2)
      ((get_stores add sub (in_block_five "s" 9) (in_block_five "s" 2) new_manager 1 6).1)
      1
      8
    ≡ get_stores add sub (in_block_five "s" 9) (in_block_five "s" 2) new_manager 1 8
get_stores-get_stores_example =
    get_stores-get_stores add sub (in_block_five "s" 9) (in_block_five "s" 2) new_manager 1 6 1 8
      amounts-IsCommuting (in_block_five-IsQuery "s" 9) (in_block_five-IsQuery "s" 2) (omega arith)
      (omega arith) (omega arith) (omega arith) (unfold stake_all stake in (refl, tt))

abbrev same_abi : Abi by_digits
same_abi = record {
  address = λ a. a;
  IsUnsigned = λ n. Unit {0};
  IsSigned = λ n. Unit {0};
  uint256 = λ n. n;
  int256 = λ n. n;
  uint256-to_big_int = λ n u. refl;
  int256-to_big_int = λ n s. refl;
}

report-IsSendable : IsSendable by_digits same_text same_abi report
report-IsSendable = record {
  height_lem = omega arith;
  treasury_lem = tt;
  streams_lem = ((tt, omega arith), tt);
  consumers_lem = ((refl, tt, omega arith), tt);
  nodes_lem = unfold JsMap.has in ((refl, (refl, tt)), ((refl, tt), ((refl, tt), tt)));
  delegates_lem = unfold JsMap.has in ((refl, tt), ((refl, (refl, tt), ((refl, tt), tt)), tt));
}

get_last_report-kept_report_example :
    (k : ContractReport String) × (kept_report (to_contract by_digits same_text (plain report))
      ≡ some k)
    × (get_last_report by_digits same_text same_abi k ≡ ok (record report { events = none }))
get_last_report-kept_report_example =
    get_last_report-kept_report by_digits same_text same_abi report report-IsSendable
