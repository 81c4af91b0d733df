-- ===== src/Tests/Small.antt =====
-- Runs of the cache, of the schema's manager, of the retry, of the filters and of the subgraph.
use Prim.Native.String.{◌++◌ as append}
use text.Mathlib.TextEquality.{eq_iff}
use text.Mathlib.TextLemmas.{append_inj}
use logstore_archive.Base.{
  ℕ, zero, suc, ap, ◌+◌, String, ◌≡◌, ◌≢◌, refl, sym, Bool, true, false, Option, none, some, List,
  [], ◌∷◌, All, if◌then◌else◌, arith, ltb,
}
use logstore_archive.Base.JsMap
use logstore_archive.Base.JsMap.{JsMap}
use logstore_archive.Client.StaleCache.{Entry, value, CacheEvent, asked, given}
use logstore_archive.Client.StaleCache as StaleCache
use logstore_archive.Client.StaleCache.Flight.{count_calls, get-miss_lem}
use logstore_archive.Client.SchemaManager.{Streams, Metadata}
use logstore_archive.Shared.Retry.{Outcome, sent, underpriced, retry, prices, retry_lem}
use logstore_archive.Base.Sort.{sort, insert}
use logstore_archive.Protocol.Js.{Opt}
use logstore_archive.Client.NodeList.{HeartbeatInfo, not_slower, scan, node_list_by_latency}
use logstore_archive.Client.NodeList.Best.{last_heartbeat, node_list_by_latency_lem}
use logstore_archive.Client.Queries.{QueryInput, absent}
use logstore_archive.Client.Queries as Queries
use logstore_archive.Subgraph.{ChainEvent, data_stored, handle_all}
use logstore_archive.Subgraph.Kept.{IsConcat, Keeps, handle_all_lem}

abbrev later : List (CacheEvent ℕ)
later = asked "k" 12 1 ∷ given "k" 7 13 ∷ asked "k" 14 2 ∷ []

get-miss_lem_example :
    ((StaleCache.get {V = ℕ} 10 [] "k" 11 0).1 ≡ true)
    × (count_calls 10 "k" ((StaleCache.get {V = ℕ} 10 [] "k" 11 0).2) later ≡ 0)
unfolding JsMap.get
get-miss_lem_example =
    get-miss_lem 10 [] "k" 11 0 later refl
      ((omega arith, omega arith), ((omega arith, omega arith), ((omega arith, omega arith), tt)))

-- streams in a table
abbrev table : Streams ℕ ℕ
table = record {
  World = JsMap (Metadata ℕ ℕ);
  metadata_of = JsMap.get;
  update_stream = JsMap.set;
  metadata_of-update_stream = λ w id other m. JsMap.get-set w id other m;
}

abbrev positive : ℕ → Bool
positive n = ltb 0 n

abbrev nothing : String → Option ℕ
nothing hash = none

abbrev plain_metadata : Metadata ℕ ℕ
plain_metadata = record { logstore = none; others = ("partitions", 1) ∷ [] }

abbrev before : JsMap (Metadata ℕ ℕ)
before = ("s", plain_metadata) ∷ []

abbrev rising : ℕ → ℕ
rising n = 100 + n

abbrev accepts : ℕ → ℕ → Outcome String String
accepts n price = if ltb n 2 then underpriced else sent "tx"

retry_lem_example :
    retry (λ price more. price + more) rising accepts 3 0 (rising 0)
    ≡ (prices (λ price more. price + more) rising accepts 0 2, some (sent "tx"))
retry_lem_example =
    retry_lem (λ price more. price + more) rising accepts 2 3 (λ i lt. ground arith) (λ e. cc)
      (omega arith)

abbrev tests : List (String × (ℕ → Bool))
tests = ("A", λ e. false) ∷ ("B", λ e. true) ∷ []

abbrev stored : ℕ → ChainEvent String
stored index = record {
  params = data_stored (record { store = "s"; fees = 5; bytes_stored = 9 });
  transaction_hash = "h";
  log_index = index;
  block_number = 3;
  block_timestamp = 40;
}

-- the index in unary, and then the hash
abbrev unary : String → ℕ → String
unary hash zero = append "0" hash
unary hash (suc index) = append "1" (unary hash index)

digits_differ : ◌≢◌ {A = String} "0" "1"
digits_differ e = let k = (eq_iff "0" "1").1 e in cc

unary_inj : (h g : String) (i j : ℕ) → unary h i ≡ unary g j → (h ≡ g) × (i ≡ j)
unary_inj h g zero zero e = ((append_inj e refl).1, refl)
unary_inj h g zero (suc j) e = absurd (digits_differ ((append_inj e refl).0))
unary_inj h g (suc i) zero e = absurd (digits_differ (sym ((append_inj e refl).0)))
unary_inj h g (suc i) (suc j) e =
    let (hash, index) = unary_inj h g i j ((append_inj e refl).1) in (hash, ap suc index)

unary-IsConcat : IsConcat unary
unary-IsConcat h g i j small_i small_j e = unary_inj h g i j e

handle_all_lem_example :
    All
      (Keeps unary (handle_all unary (λ kind. []) (stored 0 ∷ stored 1 ∷ [])))
      (stored 0 ∷ stored 1 ∷ [])
handle_all_lem_example =
    handle_all_lem unary (stored 0 ∷ stored 1 ∷ []) (λ kind. []) unary-IsConcat
      (omega arith, (omega arith, tt)) (((λ same e. absurd (omega arith)), tt), (tt, tt))

-- two nodes, the first of which is heard of twice
abbrev beats : List HeartbeatInfo
beats =
    record { node_address = "a"; publish_date = 10; received = 12 }
    ∷ record { node_address = "b"; publish_date = 10; received = 15 }
    ∷ record { node_address = "a"; publish_date = 20; received = 29 }
    ∷ []

node_list_by_latency_lem_example :
    ((address : String) × (last_heartbeat none address beats
        ≡ some (record { node_address = "b"; publish_date = 10; received = 15 })))
    × ((address : String) (j : HeartbeatInfo)
        → last_heartbeat none address beats ≡ some j
        → not_slower (record { node_address = "b"; publish_date = 10; received = 15 }) j ≡ true)
unfolding node_list_by_latency scan sort insert JsMap.set
node_list_by_latency_lem_example =
    node_list_by_latency_lem beats (record { node_address = "b"; publish_date = 10; received = 15 })
      (record { node_address = "a"; publish_date = 20; received = 29 } ∷ []) refl

abbrev wanted : QueryInput
wanted = record {
  last = absent;
  from = Queries.given (record { timestamp = 5; sequence_number = Opt.undefined });
  to = absent;
  publisher_id = Opt.undefined;
  msg_chain_id = Opt.undefined;
}
