-- ===== src/Client/NetworkValidation/Propagates/Expected.antt =====
-- What is expected of each node.
use logstore_archive.Base.{
  String, ◌≡◌, refl, ap, ◌∙◌, not, Option, none, some, List, [], ◌∷◌, arith, eq_iff, str_eq,
  if◌then◌else◌, keep,
}
use logstore_archive.Base.JsMap
use logstore_archive.Base.JsMap.{JsMap}
use logstore_archive.Protocol.Message.{QueryResponse}
use logstore_archive.Client.NetworkValidation.Values.{SystemMessageValue}
use logstore_archive.Client.NetworkValidation.StorageMatrix.Laws.{has-set}
use logstore_archive.Client.NetworkValidation.Propagates.{
  PropagatedMessagesByNodeMap, expect, get_expected_propagated_messages, keys,
}
use logstore_archive.Client.NetworkValidation.Propagates.Laws.{HasDistinctNodes}

module _ (to_ethereum_address : String → String) where
  -- The messages of a response that the primary node does not have.
  abbrev pub surplus : JsMap String → SystemMessageValue QueryResponse → List String
  surplus primary r = keep (λ id. not (JsMap.has primary id)) (keys r.content.hash_map)

  -- What the last response of a node has and the primary node has not.
  abbrev pub last_surplus :
      JsMap String
      → List (SystemMessageValue QueryResponse)
      → String
      → Option (List String)
      → Option (List String)
  last_surplus primary [] node before = before
  last_surplus primary (r ∷ rs) node before = last_surplus primary rs node (
      if str_eq (to_ethereum_address r.metadata.publisher_id) node
      then some (surplus primary r)
      else before)

  set-HasDistinctNodes :
      (m : PropagatedMessagesByNodeMap) (k : String) (ids : List String)
      → HasDistinctNodes m
      → HasDistinctNodes (JsMap.set m k ids)
  unfolding JsMap.set
  set-HasDistinctNodes [] k ids d = (unfold JsMap.has in refl, tt)
  set-HasDistinctNodes ((i, w) ∷ m) k ids (e, d) =
      ground (arith, has-set m k i ids, eq_iff i k, eq_iff k i, set-HasDistinctNodes m k ids d)

  expect-HasDistinctNodes :
      (m : PropagatedMessagesByNodeMap) (primary : JsMap String)
      (rs : List (SystemMessageValue QueryResponse))
      → HasDistinctNodes m
      → HasDistinctNodes (expect to_ethereum_address m primary rs)
  unfolding expect
  expect-HasDistinctNodes m primary [] d = d
  expect-HasDistinctNodes m primary (r ∷ rs) d =
      let node = to_ethereum_address r.metadata.publisher_id in
      expect-HasDistinctNodes (JsMap.set m node (surplus primary r)) primary rs
        (set-HasDistinctNodes m node (surplus primary r) d)

  get-expect :
      (m : PropagatedMessagesByNodeMap) (primary : JsMap String)
      (rs : List (SystemMessageValue QueryResponse)) (node : String)
      → JsMap.get (expect to_ethereum_address m primary rs) node
        ≡ last_surplus primary rs node (JsMap.get m node)
  unfolding expect
  get-expect m primary [] node = refl
  get-expect m primary (r ∷ rs) node =
      let address = to_ethereum_address r.metadata.publisher_id in
      get-expect (JsMap.set m address (surplus primary r)) primary rs node
      ∙ ap (last_surplus primary rs node) (JsMap.get-set m address node (surplus primary r))

  -- Of a node that has responded are expected the messages of its last response that the primary
  -- node's response does not have, of any other node nothing; and each node is there once.
  get_expected_lem :
      (secondary : List (SystemMessageValue QueryResponse))
      (primary : SystemMessageValue QueryResponse)
      → HasDistinctNodes (get_expected_propagated_messages to_ethereum_address secondary primary)
        × ((node : String)
            → JsMap.get
                (get_expected_propagated_messages to_ethereum_address secondary primary)
                node
              ≡ last_surplus primary.content.hash_map secondary node none)
  unfolding JsMap.get
  get_expected_lem secondary primary = (
    expect-HasDistinctNodes [] primary.content.hash_map secondary tt,
    get-expect [] primary.content.hash_map secondary,
  )
