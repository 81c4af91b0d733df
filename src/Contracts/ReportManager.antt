-- ===== src/Contracts/ReportManager.antt =====
-- packages/contracts/src/ReportManager.sol: the report that `report` keeps, of its arguments.
use logstore_archive.Base.{ℕ, String, Option, none, some, List, [], ◌∷◌}
use logstore_archive.Protocol.Report.{ContractParams}

-- An amount is of type C; it is a `uint256` in a stream and a consumer, else an `int256`.
pub record StreamEntry (C : Type 0) : Type 0 where
  pub id : String
  pub write_capture : C
  pub write_bytes : ℕ

pub record ConsumerEntry (C : Type 0) : Type 0 where
  pub id : String
  pub read_capture : C
  pub read_bytes : ℕ

pub record Node (C : Type 0) : Type 0 where
  pub id : String
  pub amount : C

pub record Delegate (C : Type 0) : Type 0 where
  pub id : String
  pub nodes : List (Node C)

pub record ContractReport (C : Type 0) : Type 0 where
  pub id : String
  pub height : ℕ
  pub treasury : C
  pub streams : List (StreamEntry C)
  pub nodes : List (Node C)
  pub delegates : List (Delegate C)
  pub consumers : List (ConsumerEntry C)

infixl 5 ◌>>=◌
abbrev ◌>>=◌ : {A B : Type 0} → Option A → (A → Option B) → Option B
none >>= f = none
some a >>= f = f a

-- The loops run over the first array. The call is reverted, none, where another one is shorter.
module _ {C : Type 0} where
  abbrev pub stream_entries : List String → List C → List ℕ → Option (List (StreamEntry C))
  stream_entries [] cs bs = some []
  stream_entries (i ∷ is) (c ∷ cs) (b ∷ bs) = stream_entries is cs bs >>= λ rest.
      some (record { id = i; write_capture = c; write_bytes = b } ∷ rest)
  stream_entries (i ∷ is) cs bs = none

  abbrev pub consumer_entries : List String → List C → List ℕ → Option (List (ConsumerEntry C))
  consumer_entries [] cs bs = some []
  consumer_entries (i ∷ is) (c ∷ cs) (b ∷ bs) = consumer_entries is cs bs >>= λ rest.
      some (record { id = i; read_capture = c; read_bytes = b } ∷ rest)
  consumer_entries (i ∷ is) cs bs = none

  abbrev pub node_entries : List String → List C → Option (List (Node C))
  node_entries [] cs = some []
  node_entries (i ∷ is) (c ∷ cs) =
      node_entries is cs >>= λ rest. some (record { id = i; amount = c } ∷ rest)
  node_entries (i ∷ is) [] = none

  abbrev pub delegate_entries :
      List String → List (List String) → List (List C) → Option (List (Delegate C))
  delegate_entries [] ns cs = some []
  delegate_entries (i ∷ is) (n ∷ ns) (c ∷ cs) = node_entries n c >>= λ nodes.
      delegate_entries is ns cs >>= λ rest. some (record { id = i; nodes = nodes } ∷ rest)
  delegate_entries (i ∷ is) ns cs = none

  -- `currentReport`, where the checks on the reporter and the proofs pass
  unfoldable pub kept_report : ContractParams C → Option (ContractReport C)
  kept_report p = stream_entries p.streams p.write_capture_amounts p.write_bytes >>= λ streams.
      consumer_entries p.read_consumer_addresses p.read_capture_amounts p.read_bytes
      >>= λ consumers. node_entries p.nodes p.node_changes >>= λ nodes.
          delegate_entries p.delegates p.delegate_nodes p.delegate_node_changes >>= λ delegates.
          some (record {
            id = p.id;
            height = p.height;
            treasury = p.treasury_supply_change;
            streams = streams;
            nodes = nodes;
            delegates = delegates;
            consumers = consumers;
          })
