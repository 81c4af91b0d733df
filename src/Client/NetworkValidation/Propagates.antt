-- ===== src/Client/NetworkValidation/Propagates.antt =====
-- packages/client/src/utils/networkValidation/handlePropagatedMessages.ts.
pub mod Laws
pub mod Expected
use logstore_archive.Base.{
  ℕ, String, Bool, true, false, not, ◌&&◌, Option, none, some, List, [], ◌∷◌, str_eq, if◌then◌else◌,
  keep, any, includes, map,
}
use logstore_archive.Base.JsMap
use logstore_archive.Base.JsMap.{JsMap}
use logstore_archive.Protocol.Message.{QueryPropagate, QueryResponse}
use logstore_archive.Client.NetworkValidation.Values.{SystemMessageValue}

-- `Array.from(map.keys())`
unfoldable pub keys : {V : Type 0} → JsMap V → List String
keys [] = []
keys ((k, v) ∷ m) = k ∷ keys m

-- A `Map` from addresses to `Set`s. The ids are the keys of another `Map`, so each is there once.
abbrev pub PropagatedMessagesByNodeMap : Type 0
PropagatedMessagesByNodeMap = JsMap (List String)

abbrev pub payload_ids : List (String × String) → List String
payload_ids [] = []
payload_ids ((id, content) ∷ payload) = id ∷ payload_ids payload

-- `Set.prototype.delete`, of each id of a payload
abbrev pub delete_ids : List String → List String → List String
delete_ids ids payload = keep (λ id. not (includes id payload)) ids

-- The entries that still wait for a message.
unfoldable pub waiting : PropagatedMessagesByNodeMap → PropagatedMessagesByNodeMap
waiting [] = []
waiting ((node, []) ∷ m) = waiting m
waiting ((node, id ∷ ids) ∷ m) = (node, id ∷ ids) ∷ waiting m

-- `to_ethereum_address` is `toEthereumAddress` of @streamr/utils. The publisher of a message is an
-- address, so it does not throw here.
module _ (to_ethereum_address : String → String) where
  -- One round of the loop: the set of the publisher, if there is one, loses the ids in place.
  unfoldable pub strike :
      PropagatedMessagesByNodeMap → SystemMessageValue QueryPropagate → PropagatedMessagesByNodeMap
  strike [] p = []
  strike ((node, ids) ∷ m) p =
      if str_eq node (to_ethereum_address p.metadata.publisher_id)
      then (node, delete_ids ids (payload_ids p.content.payload)) ∷ m
      else (node, ids) ∷ strike m p

  -- The loop. The clone is shallow: what this returns are the sets of the given map afterwards.
  unfoldable pub strike_all :
      PropagatedMessagesByNodeMap
      → List (SystemMessageValue QueryPropagate)
      → PropagatedMessagesByNodeMap
  strike_all m [] = m
  strike_all m (p ∷ ps) = strike_all (strike m p) ps

  abbrev pub get_missing_propagated_messages :
      PropagatedMessagesByNodeMap
      → List (SystemMessageValue QueryPropagate)
      → PropagatedMessagesByNodeMap
  get_missing_propagated_messages m ps = waiting (strike_all m ps)

  unfoldable pub expect :
      PropagatedMessagesByNodeMap
      → JsMap String
      → List (SystemMessageValue QueryResponse)
      → PropagatedMessagesByNodeMap
  expect m primary [] = m
  expect m primary (r ∷ rs) =
      expect
        (JsMap.set m (to_ethereum_address r.metadata.publisher_id)
          (keep (λ id. not (JsMap.has primary id)) (keys r.content.hash_map)))
        primary rs

  abbrev pub get_expected_propagated_messages :
      List (SystemMessageValue QueryResponse)
      → SystemMessageValue QueryResponse
      → PropagatedMessagesByNodeMap
  get_expected_propagated_messages secondary primary = expect [] primary.content.hash_map secondary
