-- ===== src/Client/NetworkValidation/Collection/Done.antt =====
-- When what is collected is complete, in checkCollectionCompletion.ts.
use logstore_archive.Base.{
  String, ◌≡◌, sym, ◌∙◌, true, ◌&&◌, Option, some, List, [], ◌∷◌, any, All, some_inj,
}
use logstore_archive.Protocol.Message.{QueryPropagate, QueryRequest, QueryResponse}
use logstore_archive.Client.NetworkValidation.Values.{SystemMessageValue}
use logstore_archive.Client.NetworkValidation.Completion.{is_done, got_response_from_all_nodes}
use logstore_archive.Client.NetworkValidation.Completion.Laws.{
  FromNode as OfNode, is_done-of_one_node,
}
use logstore_archive.Client.NetworkValidation.Collection.{Collection}
use logstore_archive.Client.NetworkValidation.Collection.Holds.{
  Ours, response_request, response_node,
}
use logstore_archive.Client.NetworkValidation.Collection.Laws.{IsCollected}

Ours-OfNode :
    (address : String) (asked http_id : Option String)
    (rs : List (SystemMessageValue QueryResponse))
    → asked ≡ some address
    → All (Ours response_request response_node asked http_id) rs
    → All (OfNode address) rs
Ours-OfNode address asked http_id [] e h = tt
Ours-OfNode address asked http_id (r ∷ rs) e ((from, i), h) =
    (some_inj (sym from ∙ e), Ours-OfNode address asked http_id rs e h)

module _ (to_ethereum_address : String → String) where
  -- For what is collected of a query (every response is to a request of the query node) and a
  -- request that this node has published, the collection is complete exactly if there is a response
  -- and each expected node has sent one: whatever was propagated, no response is a secondary one
  -- and no propagated message is waited for.
  pub is_done-ignores_propagates :
      (c : Collection) (expected_nodes : List String) (request : SystemMessageValue QueryRequest)
      (propagates : List (SystemMessageValue QueryPropagate))
      → IsCollected c
      → c.query_node ≡ some request.metadata.publisher_id
      → is_done to_ethereum_address expected_nodes request c.responses propagates ≡ (
          any (λ r. true) c.responses
          && got_response_from_all_nodes to_ethereum_address expected_nodes c.responses)
  is_done-ignores_propagates c expected_nodes request propagates h e =
      is_done-of_one_node to_ethereum_address c.responses expected_nodes request propagates
        (Ours-OfNode request.metadata.publisher_id c.query_node c.http_id c.responses e (h.0))
