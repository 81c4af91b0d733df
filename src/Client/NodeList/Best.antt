-- ===== src/Client/NodeList/Best.antt =====
-- Which node is the first of the list.
use logstore_archive.Base.{
  String, str_eq, ◌≡◌, ◌≢◌, refl, sym, ap, ◌∙◌, true, false, ◌||◌, Option, none, some, List, [],
  ◌∷◌, map, if◌then◌else◌, arith, All, inl, inr, Bool-cases, eq_iff, eq_refl, some_inj,
}
use logstore_archive.Base.JsMap
use logstore_archive.Base.JsMap.{JsMap}
use logstore_archive.Base.Sort.{sort}
use logstore_archive.Base.Sort.First.{sort-All, first-IsLeast}
use logstore_archive.Protocol.Report.Laws.{HasDistinctKeys}
use logstore_archive.Client.NodeList.{
  HeartbeatInfo, not_slower, by_latency, scan, node_list_by_latency,
}

none_differs : {A : Type 0} (a : A) → ◌≢◌ {A = Option A} none (some a)
none_differs a h = cc

-- the last heartbeat of a node, or the one from before
abbrev pub last_heartbeat :
    Option HeartbeatInfo → String → List HeartbeatInfo → Option HeartbeatInfo
last_heartbeat before address [] = before
last_heartbeat before address (h ∷ hs) =
    last_heartbeat (if str_eq h.node_address address then some h else before) address hs

get-scan :
    (hs : List HeartbeatInfo) (m : JsMap HeartbeatInfo) (address : String)
    → JsMap.get (scan m hs) address ≡ last_heartbeat (JsMap.get m address) address hs
unfolding scan
get-scan [] m address = refl
get-scan (h ∷ hs) m address =
    get-scan hs (JsMap.set m h.node_address h) address
    ∙ ap (λ o. last_heartbeat o address hs) (JsMap.get-set m h.node_address address h)

has-set :
    {V : Type 0} (m : JsMap V) (k j : String) (v : V)
    → JsMap.has (JsMap.set m k v) j ≡ (str_eq k j || JsMap.has m j)
unfolding JsMap.set JsMap.has
has-set [] k j v = refl
has-set ((i, w) ∷ m) k j v = ground (arith, has-set m k j v, eq_iff i k, eq_iff i j, eq_iff k j)

set-HasDistinctKeys :
    {V : Type 0} (m : JsMap V) (k : String) (v : V)
    → HasDistinctKeys m
    → HasDistinctKeys (JsMap.set m k v)
unfolding JsMap.set JsMap.has
set-HasDistinctKeys [] k v d = (refl, tt)
set-HasDistinctKeys ((j, w) ∷ m) k v (h, d) = elim (Bool-cases (str_eq j k)) [
  | inl same ↦ rw same (h, d)
  | inr other ↦
      let apart : str_eq k j ≡ false = ground (arith, eq_iff j k, eq_iff k j) in
      rw other (has-set m k j v ∙ rw (apart, h) refl, set-HasDistinctKeys m k v d)
]

scan-HasDistinctKeys :
    (hs : List HeartbeatInfo) (m : JsMap HeartbeatInfo)
    → HasDistinctKeys m
    → HasDistinctKeys (scan m hs)
unfolding scan
scan-HasDistinctKeys [] m d = d
scan-HasDistinctKeys (h ∷ hs) m d =
    scan-HasDistinctKeys hs (JsMap.set m h.node_address h)
      (set-HasDistinctKeys m h.node_address h d)

get_behind :
    {V : Type 0} (m l : JsMap V) (k : String) (v : V)
    → JsMap.has m k ≡ false
    → All (λ (e : String × V). JsMap.get m e.0 ≡ some e.1) l
    → All (λ (e : String × V). JsMap.get ((k, v) ∷ m) e.0 ≡ some e.1) l
unfolding JsMap.get
get_behind m [] k v h a = tt
get_behind m ((j, w) ∷ l) k v h (here, more) =
    (ground (arith, eq_iff k j, JsMap.get_of_not_has m k), get_behind m l k v h more)

entries-get :
    {V : Type 0} (m : JsMap V)
    → HasDistinctKeys m
    → All (λ (e : String × V). JsMap.get m e.0 ≡ some e.1) m
unfolding JsMap.get
entries-get [] d = tt
entries-get ((k, v) ∷ m) (h, d) = (rw (eq_refl k) refl, get_behind m m k v h (entries-get m d))

All-get :
    {V : Type 0} (P : String × V → Type 0) (m : JsMap V) (k : String) (v : V)
    → All P m
    → JsMap.get m k ≡ some v
    → P (k, v)
unfolding JsMap.get
All-get P [] k v h e = absurd (none_differs v e)
All-get P ((j, w) ∷ m) k v (here, more) e = elim (Bool-cases (str_eq j k)) [
  | inl same ↦
      let key : j ≡ k = (eq_iff j k).0 same in
      let value : w ≡ v = some_inj (rw same at e) in rw (sym key, sym value) here
  | inr other ↦ All-get P m k v more (rw other at e)
]

first_entry :
    {V : Type 0} (s : JsMap V) (i : V) (rest : List V)
    → map (λ e. e.1) s ≡ i ∷ rest
    → (k : String) × (more : JsMap V) × (s ≡ (k, i) ∷ more)
first_entry [] i rest e = absurd cc
first_entry ((k, v) ∷ more) i rest e =
    let same : v ≡ i = cc in (k, more, ap (λ x. (k, x) ∷ more) same)

-- The first node of the list is one whose last heartbeat had the least latency: the list's first entry
-- is the last heartbeat of its node, and no node's last heartbeat had a smaller latency.
pub node_list_by_latency_lem :
    (hs : List HeartbeatInfo) (i : HeartbeatInfo) (rest : List HeartbeatInfo)
    → node_list_by_latency hs ≡ i ∷ rest
    → ((address : String) × (last_heartbeat none address hs ≡ some i))
      × ((address : String) (j : HeartbeatInfo)
          → last_heartbeat none address hs ≡ some j
          → not_slower i j ≡ true)
unfolding node_list_by_latency JsMap.get
node_list_by_latency_lem hs i rest e =
    let entries = scan [] hs in
    let (k, more, first) = first_entry (sort by_latency (λ e. e.1) entries) i rest e in
    let least = first-IsLeast by_latency (λ e. e.1) entries (k, i) more first in
    let stored =
      sort-All by_latency (λ e. e.1) (λ x. JsMap.get entries x.0 ≡ some x.1) entries
        (entries-get entries (scan-HasDistinctKeys hs [] tt)) in
    let here : JsMap.get entries k ≡ some i = (rw first at stored).0 in
    (
      (k, sym (get-scan hs [] k) ∙ here),
      λ address j last.
          All-get (λ x. not_slower i x.1 ≡ true) entries address j least
            (get-scan hs [] address ∙ last),
    )
