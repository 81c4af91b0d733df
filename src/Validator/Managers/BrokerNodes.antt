-- ===== src/Validator/Managers/BrokerNodes.antt =====
-- packages/validator/src/managers/NodeManager.ts: `getBrokerNodes` and `getStartBlockNumber`.
use logstore_archive.Base.{
  ℕ, String, Bool, false, Option, none, some, List, [], ◌∷◌, keep, ◌==◌, if◌then◌else◌, str_eq,
}
use logstore_archive.Base.JsMap.{JsMap}
use logstore_archive.Base.Result.{Result, ok, err}
use logstore_archive.Validator.NodeManager.{DelegateEvent, NodeManager, get_delegates}

module _ (BigNumber : Type 0) (zero : BigNumber) where
  -- `contract.nodes(address)`
  pub record NodeDetail : Type 0 where
    pub index : ℕ
    pub metadata : String
    pub last_seen : ℕ
    pub next : String
    pub prev : String
    pub stake : BigNumber

  -- `IBrokerNode`
  pub record BrokerNode : Type 0 where
    pub id : String
    pub detail : NodeDetail
    pub delegates : Option (JsMap BigNumber)

  -- `gte` of BigNumber
  abbrev pub is_staked : (BigNumber → BigNumber → Bool) → Option BigNumber → BrokerNode → Bool
  is_staked gte none n = false
  is_staked gte (some required) n = gte n.detail.stake required

  -- The contract at a block: `query` as for `getDelegates`, and `nodes`, the detail of an address. The
  -- nodes are looked up one after another, each in its own entries of the state.
  module _ (query : String → ℕ → ℕ → List (DelegateEvent BigNumber zero))
      (nodes : ℕ → String → NodeDetail) where
    unfoldable pub detail_all :
        NodeManager BigNumber zero
        → List String
        → ℕ
        → ℕ
        → List BrokerNode × NodeManager BigNumber zero
    detail_all st [] from to = ([], st)
    detail_all st (address ∷ addresses) from to =
        let (found, after) = get_delegates BigNumber zero query st address from to in
        let (rest, last) = detail_all after addresses from to in
        (record { id = address; detail = nodes to address; delegates = found } ∷ rest, last)

    unfoldable pub get_broker_nodes :
        (BigNumber → BigNumber → Bool)
        → (ℕ → List String)
        → NodeManager BigNumber zero
        → ℕ
        → ℕ
        → Option BigNumber
        → List BrokerNode × NodeManager BigNumber zero
    get_broker_nodes gte node_addresses st from to required =
        let (all, after) = detail_all st (node_addresses to) from to in
        (keep (is_staked gte required) all, after)

-- `overrideStartBlockNumber` of the environment, "0" if not set; a text is a number by `from_text`
pub data StartFailure : Type 0 where
  no_brokers : StartFailure

unfoldable pub get_start_block_number : (String → ℕ) → String → ℕ → Result StartFailure ℕ
get_start_block_number from_text override contract_start =
    let n = if str_eq override "0" then contract_start else from_text override in
    if n == 0 then err no_brokers else ok n
