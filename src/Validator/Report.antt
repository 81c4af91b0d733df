-- ===== src/Validator/Report.antt =====
-- packages/validator/src/core/report.ts and utils/report.ts: the report of a bundle.
pub mod Order
use logstore_archive.Base.{
  ℕ, String, ◌==◌, str_eq, Option, none, some, List, [], ◌∷◌, map, if◌then◌else◌,
}
use logstore_archive.Base.JsMap
use logstore_archive.Base.JsMap.{JsMap}
use logstore_archive.Base.Result.{Result, ok, err, ◌>>=◌}
use logstore_archive.Base.Sort.{Collation, sort}
use logstore_archive.Protocol.Report.{
  BigNumbers, Buffers, Stream, Consumer, StorageEvent, QueryEvent, Events, ReportV1, Plain, copy,
}

-- `IValidatorReport`, with the amounts of Decimal.js
pub record ValidatorReport (Decimal : Type 0) : Type 0 where
  pub id : String
  pub height : ℕ
  pub treasury : Decimal
  pub streams : List (Stream String Decimal)
  pub consumers : List (Consumer Decimal)
  pub nodes : JsMap Decimal
  pub delegates : JsMap (JsMap Decimal)
  pub events : Events String

-- What a report is made from (`IPrepared`); the token is of the block.
pub record Prepared (Token Node : Type 0) : Type 0 where
  pub from_key : ℕ
  pub to_key : ℕ
  pub block_number : ℕ
  pub stake_token : Option Token
  pub broker_nodes : List Node

module _ {E Token Node : Type 0} where
  unfoldable pub load :
      ℕ
      → ℕ
      → Result E ℕ
      → (ℕ → Result E ℕ)
      → (ℕ → Result E Token)
      → (ℕ → ℕ → Token → Result E (List Node))
      → Result E (Prepared Token Node)
  load from_key to_key start_block_number find stake_token_at broker_nodes_of =
      if to_key == 0
      then ok (record {
        from_key = 0;
        to_key = 0;
        block_number = 0;
        stake_token = none;
        broker_nodes = [];
      })
      else (start_block_number >>= λ from_block. find to_key >>= λ to_block.
          stake_token_at to_block >>= λ token.
          broker_nodes_of from_block to_block token >>= λ nodes. ok (record {
            from_key = from_key;
            to_key = to_key;
            block_number = to_block;
            stake_token = some token;
            broker_nodes = nodes;
          }))

module _ (L : Collation String) where
  -- an object refilled in the order of its keys
  abbrev pub sort_keys : {A : Type 0} → JsMap A → JsMap A
  sort_keys m = copy (λ v. v) [] (sort L (λ e. e.0) m)

  abbrev pub sort_events : Events String → Events String
  sort_events e = record {
    queries = sort L (λ q. q.hash) e.queries;
    storage = sort L (λ s. s.hash) e.storage;
  }

module _ (L : Collation String) {Decimal : Type 0} where
  -- `ReportUtils.sort`
  unfoldable pub sort_report : ValidatorReport Decimal → ValidatorReport Decimal
  sort_report r = record r {
    nodes = sort_keys L r.nodes;
    delegates = sort_keys L r.delegates;
    streams = sort L (λ s. s.id) r.streams;
    consumers = sort L (λ c. c.id) r.consumers;
    events = sort_events L r.events;
  }

  -- What `ReportUtils.sort` leaves of its argument: the arrays are sorted in place, the objects
  -- are not.
  unfoldable pub after_sort : ValidatorReport Decimal → ValidatorReport Decimal
  after_sort r = record r {
    streams = sort L (λ s. s.id) r.streams;
    consumers = sort L (λ c. c.id) r.consumers;
    events = sort_events L r.events;
  }

-- `BigNumber.from(d.round().toHex())` of Decimal.js and ethers
module _ (B : BigNumbers) (F : Buffers) {Decimal : Type 0}
    (to_big_number : Decimal → B.BigNumber) where
  unfoldable pub finalise : ValidatorReport Decimal → Plain B F
  finalise r = record {
    id = r.id;
    height = r.height;
    treasury = to_big_number r.treasury;
    streams =
        map (λ s. record { id = s.id; capture = to_big_number s.capture; bytes = s.bytes })
          r.streams;
    consumers =
        map (λ c. record { id = c.id; capture = to_big_number c.capture; bytes = c.bytes })
          r.consumers;
    nodes = copy to_big_number [] r.nodes;
    delegates = copy (copy to_big_number []) [] r.delegates;
    events = some r.events;
  }

  abbrev pub new_report : String → ℕ → Decimal → ValidatorReport Decimal
  new_report id height zero = record {
    id = id;
    height = height;
    treasury = zero;
    streams = [];
    consumers = [];
    nodes = [];
    delegates = [];
    events = record { queries = []; storage = [] };
  }

  -- of `toKey` and the block of what was prepared; `zero` is `new Decimal(0)`
  unfoldable pub generate : Collation String → Decimal → String → ℕ → Plain B F
  generate L zero id block_number =
      let report = new_report id block_number zero in
      if str_eq id "0" then finalise report else finalise (after_sort L report)
