-- ===== src/Client/NodeList.antt =====
-- packages/client/src/registry/NodeManager.ts: the nodes by their latency, and the node of an address
-- or of a URL.
pub mod Best
use logstore_archive.Base.{
  ℕ, ◌+◌, ◌≤◌, String, ◌≡◌, refl, Bool, true, false, Option, none, some, List, [], ◌∷◌, map, keep,
  leb, if◌then◌else◌, arith, inl, inr, ◌⊎◌,
}
use logstore_archive.Base.JsMap
use logstore_archive.Base.JsMap.{JsMap}
use logstore_archive.Base.Sort.{Collation, sort}

-- `HeartbeatInfo`: when a heartbeat was published and received; its latency is the difference.
pub record HeartbeatInfo : Type 0 where
  pub node_address : String
  pub publish_date : ℕ
  pub received : ℕ

-- `a.latency - b.latency <= 0`, where clocks may differ so that a latency is negative
abbrev pub not_slower : HeartbeatInfo → HeartbeatInfo → Bool
not_slower a b = leb (a.received + b.publish_date) (b.received + a.publish_date)

abbrev pub by_latency : Collation HeartbeatInfo
by_latency = record {
  not_after = not_slower;
  total = λ a b. not_slower_total a b;
  transitive = λ a b c h k. not_slower_trans a b c h k;
}
  where
    not_slower_total : (a b : HeartbeatInfo) → (not_slower a b ≡ true) ⊎ (not_slower b a ≡ true)
    not_slower_total a b = ground arith

    not_slower_trans :
        (a b c : HeartbeatInfo)
        → not_slower a b ≡ true
        → not_slower b c ≡ true
        → not_slower a c ≡ true
    not_slower_trans a b c h k = ground arith

-- the `scan` of the heartbeats
unfoldable pub scan : JsMap HeartbeatInfo → List HeartbeatInfo → JsMap HeartbeatInfo
scan m [] = m
scan m (h ∷ hs) = scan (JsMap.set m h.node_address h) hs

-- `nodeListByLatency$`, after some heartbeats
unfoldable pub node_list_by_latency : List HeartbeatInfo → List HeartbeatInfo
node_list_by_latency hs = map (λ e. e.1) (sort by_latency (λ e. e.1) (scan [] hs))

-- `node_of` is the metadata that the contract has of an address, and `includes` is that of texts.
module _ (includes : String → String → Bool) (node_of : String → String) where
  -- `getNodeAddressFromUrl`, among the active nodes
  unfoldable pub get_node_address_from_url : List String → String → Option String
  get_node_address_from_url [] url = none
  get_node_address_from_url (address ∷ addresses) url =
      let rest = get_node_address_from_url addresses url in
      if includes (node_of address) url then some address else rest

  -- `getNodeUrl` without the cache; `http_of` is the property `http` of the parsed metadata, none where
  -- it is missing or the text is not JSON
  unfoldable pub get_node_url : (String → Option String) → String → Option String
  get_node_url http_of address =
      if includes (node_of address) "http" then http_of (node_of address) else none

  abbrev some_urls : List (Option String) → List String
  some_urls [] = []
  some_urls (none ∷ urls) = some_urls urls
  some_urls (some url ∷ urls) = url ∷ some_urls urls

  -- the list of URLs that `updateNodeUrlList` gives on, none where it would be empty
  unfoldable pub node_urls : (String → Option String) → List HeartbeatInfo → List String
  node_urls http_of hs =
      some_urls (map (λ i. get_node_url http_of i.node_address) (node_list_by_latency hs))
