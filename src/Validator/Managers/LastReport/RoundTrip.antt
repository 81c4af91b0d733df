-- ===== src/Validator/Managers/LastReport/RoundTrip.antt =====
-- A report that is sent to the contract, kept there and read back.
use logstore_archive.Base.{
  ℕ, ◌≤◌, String, ◌≡◌, refl, ap, ◌∙◌, none, some, List, [], ◌∷◌, map, All, arith, leb, true,
}
use logstore_archive.Base.JsMap
use logstore_archive.Base.JsMap.{JsMap}
use logstore_archive.Base.Result.{ok}
use logstore_archive.Protocol.Report.{
  BigNumbers, Buffers, Stream, Consumer, Plain, to_contract, plain, keys, values, copy,
}
use logstore_archive.Protocol.Report.Laws.{HasDistinctKeys, copy_new, on_values}
use logstore_archive.Contracts.ReportManager.{
  StreamEntry, ConsumerEntry, Node, Delegate, ContractReport, kept_report, stream_entries,
  consumer_entries, node_entries, delegate_entries,
}
use logstore_archive.Validator.Managers.LastReport.{
  Abi, fill_nodes, fill_delegates, read_streams, read_consumers, to_number, max_safe_integer,
  get_last_report,
}

module _ (B : BigNumbers) (F : Buffers) (A : Abi B) where
  abbrev IsAddress : String → Type 0
  IsAddress id = A.address id ≡ id

  abbrev IsStream : Stream String B.BigNumber → Type 0
  IsStream s = A.IsUnsigned s.capture × (s.bytes ≤ max_safe_integer)

  abbrev IsConsumer : Consumer B.BigNumber → Type 0
  IsConsumer c = IsAddress c.id × A.IsUnsigned c.capture × (c.bytes ≤ max_safe_integer)

  abbrev IsNode : String × B.BigNumber → Type 0
  IsNode n = IsAddress n.0 × A.IsSigned n.1

  abbrev IsDelegate : String × JsMap B.BigNumber → Type 0
  IsDelegate d = IsAddress d.0 × HasDistinctKeys d.1 × All IsNode d.1

  -- Addresses are written as ethers writes them, amounts are within their types, and numbers are
  -- safe integers; each object has each key once.
  pub record IsSendable (r : Plain B F) : Type 0 where
    pub height_lem : r.height ≤ max_safe_integer
    pub treasury_lem : A.IsSigned r.treasury
    pub streams_lem : All IsStream r.streams
    pub consumers_lem : All IsConsumer r.consumers
    pub nodes_lem : HasDistinctKeys r.nodes × All IsNode r.nodes
    pub delegates_lem : HasDistinctKeys r.delegates × All IsDelegate r.delegates

  safe : (n : ℕ) → n ≤ max_safe_integer → to_number n ≡ ok n
  safe n h = let small : leb n max_safe_integer ≡ true = ground arith in rw small refl

  streams_back :
      (ss : List (Stream String B.BigNumber))
      → All IsStream ss
      → (es : List (StreamEntry B.BigInt)) × (stream_entries
            (map (λ s. s.id) ss)
            (map (λ s. B.to_big_int s.capture) ss)
            (map (λ s. s.bytes) ss)
          ≡ some es)
        × (read_streams B F A es ≡ ok ss)
  streams_back [] h = ([], refl, refl)
  streams_back (s ∷ ss) ((u, b), more) =
      let (es, kept, back) = streams_back ss more in
      (
        record { id = s.id; write_capture = B.to_big_int s.capture; write_bytes = s.bytes } ∷ es,
        rw kept refl,
        rw (safe s.bytes b, back, A.uint256-to_big_int s.capture u) refl,
      )

  consumers_back :
      (cs : List (Consumer B.BigNumber))
      → All IsConsumer cs
      → (es : List (ConsumerEntry B.BigInt)) × (consumer_entries
            (map (λ c. c.id) cs)
            (map (λ c. B.to_big_int c.capture) cs)
            (map (λ c. c.bytes) cs)
          ≡ some es)
        × (read_consumers B F A es ≡ ok cs)
  consumers_back [] h = ([], refl, refl)
  consumers_back (c ∷ cs) ((a, u, b), more) =
      let (es, kept, back) = consumers_back cs more in
      (
        record { id = c.id; read_capture = B.to_big_int c.capture; read_bytes = c.bytes } ∷ es,
        rw kept refl,
        rw (safe c.bytes b, back, a, A.uint256-to_big_int c.capture u) refl,
      )

  nodes_kept :
      (m : JsMap B.BigNumber)
      → All IsNode m
      → (es : List (Node B.BigInt)) × (node_entries (keys m) (map B.to_big_int (values m))
          ≡ some es)
        × ((o : JsMap B.BigNumber) → fill_nodes B F A o es ≡ copy (λ n. n) o m)
  unfolding keys values fill_nodes copy
  nodes_kept [] h = ([], refl, λ o. refl)
  nodes_kept ((k, v) ∷ m) ((a, s), more) =
      let (es, kept, fills) = nodes_kept m more in
      (
        record { id = k; amount = B.to_big_int v } ∷ es,
        rw kept refl,
        λ o. rw (a, A.int256-to_big_int v s) (fills (JsMap.set o k v)),
      )

  on_values_same : {C : Type 0} (m : JsMap C) → on_values (λ x. x) m ≡ m
  on_values_same [] = refl
  on_values_same ((k, v) ∷ m) = ap (λ x. (k, v) ∷ x) (on_values_same m)

  copy_same : {C : Type 0} (m : JsMap C) → HasDistinctKeys m → copy (λ x. x) [] m ≡ m
  copy_same m d = copy_new (λ x. x) m d ∙ on_values_same m

  delegates_kept :
      (m : JsMap (JsMap B.BigNumber))
      → All IsDelegate m
      → (es : List (Delegate B.BigInt)) × (delegate_entries
            (keys m)
            (map keys (values m))
            (map (λ d. map B.to_big_int (values d)) (values m))
          ≡ some es)
        × ((o : JsMap (JsMap B.BigNumber)) → fill_delegates B F A o es ≡ copy (λ n. n) o m)
  unfolding keys values fill_delegates copy
  delegates_kept [] h = ([], refl, λ o. refl)
  delegates_kept ((k, v) ∷ m) ((a, d, ns), more) =
      let (n, node_kept, fill) = nodes_kept v ns in
      let (es, kept, fills) = delegates_kept m more in
      (
        record { id = k; nodes = n } ∷ es,
        rw (node_kept, kept) refl,
        λ o. rw (a, fill [], copy_same v d) (fills (JsMap.set o k v)),
      )

  -- A report that can be sent is kept by the contract, and `getLastReport` then gives it back as
  -- it was but for its events, which are not sent: if the addresses in it are written as ethers
  -- writes them, its amounts are within their types, its numbers are safe integers and its objects have
  -- each key once.
  pub get_last_report-kept_report :
      (r : Plain B F)
      → IsSendable r
      → (k : ContractReport B.BigInt) × (kept_report (to_contract B F (plain r)) ≡ some k)
        × (get_last_report B F A k ≡ ok (record r { events = none }))
  unfolding kept_report to_contract get_last_report
  get_last_report-kept_report r h =
      let (ss, kept_s, back_s) = streams_back r.streams h.streams_lem in
      let (cs, kept_c, back_c) = consumers_back r.consumers h.consumers_lem in
      let (ns, kept_n, back_n) = nodes_kept r.nodes (h.nodes_lem.1) in
      let (ds, kept_d, back_d) = delegates_kept r.delegates (h.delegates_lem.1) in
      (
        record {
          id = r.id;
          height = r.height;
          treasury = B.to_big_int r.treasury;
          streams = ss;
          nodes = ns;
          delegates = ds;
          consumers = cs;
        },
        rw (kept_s, kept_c, kept_n, kept_d) refl,
        rw
            (
              safe r.height h.height_lem,
              back_s,
              back_c,
              back_n [],
              back_d [],
              copy_same r.nodes (h.nodes_lem.0),
              copy_same r.delegates (h.delegates_lem.0),
              A.int256-to_big_int r.treasury h.treasury_lem,
            )
            refl,
      )
