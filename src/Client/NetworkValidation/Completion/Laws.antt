-- ===== src/Client/NetworkValidation/Completion/Laws.antt =====
-- What the completion of a collection depends on, for responses to requests of one node.
use logstore_archive.Base.{
  any, String, ◌≡◌, refl, true, ◌&&◌, some, List, [], ◌∷◌, arith, eq_iff, All,
}
use logstore_archive.Protocol.Message.{QueryPropagate, QueryRequest, QueryResponse}
use logstore_archive.Client.NetworkValidation.Values.{SystemMessageValue}
use logstore_archive.Client.NetworkValidation.Propagates.{
  get_expected_propagated_messages, get_missing_propagated_messages, expect, strike_all, waiting,
  strike,
}
use logstore_archive.Client.NetworkValidation.Completion.{
  primary_node_response, secondary_node_responses, got_response_from_all_nodes, is_done,
}

abbrev pub FromNode : String → SystemMessageValue QueryResponse → Type 0
FromNode query_node r = r.content.request_publisher_id ≡ query_node

module _ (to_ethereum_address : String → String) where
  secondary-nil :
      (request : SystemMessageValue QueryRequest) (rs : List (SystemMessageValue QueryResponse))
      → All (FromNode request.metadata.publisher_id) rs
      → secondary_node_responses to_ethereum_address request rs ≡ []
  unfolding secondary_node_responses
  secondary-nil request [] h = refl
  secondary-nil request (r ∷ rs) (e, h) = ground (
    arith,
    eq_iff r.content.request_publisher_id request.metadata.publisher_id,
    secondary-nil request rs h,
  )

  strike_all-nil :
      (ps : List (SystemMessageValue QueryPropagate)) → strike_all to_ethereum_address [] ps ≡ []
  unfolding strike_all strike
  strike_all-nil [] = refl
  strike_all-nil (p ∷ ps) = strike_all-nil ps

  missing-nil :
      (primary : SystemMessageValue QueryResponse) (ps : List (SystemMessageValue QueryPropagate))
      → get_missing_propagated_messages to_ethereum_address
          (get_expected_propagated_messages to_ethereum_address [] primary)
          ps
        ≡ []
  unfolding expect waiting
  missing-nil primary ps = rw (strike_all-nil ps) refl

  first-primary :
      (request : SystemMessageValue QueryRequest) (r : SystemMessageValue QueryResponse)
      (rs : List (SystemMessageValue QueryResponse))
      → FromNode request.metadata.publisher_id r
      → primary_node_response to_ethereum_address request (r ∷ rs) ≡ some r
  unfolding primary_node_response
  first-primary request r rs e =
      ground (arith, eq_iff r.content.request_publisher_id request.metadata.publisher_id)

  is_done-of_primary :
      (expected_nodes : List String) (request : SystemMessageValue QueryRequest)
      (rs : List (SystemMessageValue QueryResponse))
      (propagates : List (SystemMessageValue QueryPropagate))
      (primary : SystemMessageValue QueryResponse)
      → primary_node_response to_ethereum_address request rs ≡ some primary
      → secondary_node_responses to_ethereum_address request rs ≡ []
      → is_done to_ethereum_address expected_nodes request rs propagates
        ≡ got_response_from_all_nodes to_ethereum_address expected_nodes rs
  unfolding is_done
  is_done-of_primary expected_nodes request rs propagates primary p s =
      rw (p, is_done) (rw s (rw (missing-nil primary propagates) (ground arith)))

  pub is_done-of_one_node :
      (rs : List (SystemMessageValue QueryResponse)) (expected_nodes : List String)
      (request : SystemMessageValue QueryRequest)
      (propagates : List (SystemMessageValue QueryPropagate))
      → All (FromNode request.metadata.publisher_id) rs
      → is_done to_ethereum_address expected_nodes request rs propagates
        ≡ (any (λ r. true) rs && got_response_from_all_nodes to_ethereum_address expected_nodes rs)
  is_done-of_one_node [] expected_nodes request propagates k =
      unfold is_done primary_node_response in refl
  is_done-of_one_node (r ∷ rs) expected_nodes request propagates (e, k) =
      is_done-of_primary expected_nodes request (r ∷ rs) propagates r (first-primary request r rs e)
        (secondary-nil request (r ∷ rs) (e, k))
