-- ===== src/Tests/Network.antt =====
-- The checks of the network's responses on concrete responses.
use logstore_archive.Base.{ℕ, String, ◌≡◌, ◌≢◌, ◌↔◌, refl, true, false, List, [], ◌∷◌}
use logstore_archive.Base.JsMap
use logstore_archive.Base.JsMap.{JsMap}
use logstore_archive.Base.Result.{ok}
use logstore_archive.Protocol.Js.{Opt}
use logstore_archive.Protocol.Message.{
  QueryType, from_options, QueryRequest, QueryResponse, QueryPropagate, MessageMetadata,
}
use logstore_archive.Client.NetworkValidation.Values.{SystemMessageValue}
use logstore_archive.Client.NetworkValidation.StorageMatrix.{
  add_response, add_responses, nodes_agree_on_storage_matrix, contains_different_hash,
}
use logstore_archive.Client.NetworkValidation.StorageMatrix.Laws.{all_say}
use logstore_archive.Client.NetworkValidation.StorageMatrix.Agreement.{
  reports, nodes_agree_sound, nodes_agree_complete,
}
use logstore_archive.Client.NetworkValidation.QueryInput.{
  from_query, QueryInputPayload, has_incompatible_query_input,
}
use logstore_archive.Client.NetworkValidation.QueryInput.Laws.{unlimited, asked, incompatible_iff}
use logstore_archive.Client.NetworkValidation.Propagates.{
  PropagatedMessagesByNodeMap, get_missing_propagated_messages,
}
use logstore_archive.Client.NetworkValidation.Propagates.Laws.{
  Complete, HasDistinctNodes, get_missing_iff,
}

abbrev metadata_of : String → MessageMetadata
metadata_of publisher_id = record {
  stream_id = "stream";
  stream_partition = 0;
  timestamp = 10;
  sequence_number = 0;
  signature = "sig";
  publisher_id = publisher_id;
  msg_chain_id = "chain";
}

abbrev response_of : String → String → SystemMessageValue QueryResponse
response_of node hash = record {
  content = record { request_id = "r"; request_publisher_id = "a"; hash_map = ("m", hash) ∷ [] };
  metadata = metadata_of node;
}

abbrev agreeing : List (SystemMessageValue QueryResponse)
agreeing = response_of "a" "h" ∷ response_of "b" "h" ∷ []

abbrev differing : List (SystemMessageValue QueryResponse)
differing = response_of "a" "h" ∷ response_of "b" "g" ∷ []

nodes_agree_sound_example : ◌≡◌ {A = String} "h" "h"
nodes_agree_sound_example =
    nodes_agree_sound agreeing "m" "h" "h"
      (unfold add_responses add_response JsMap.get JsMap.set nodes_agree_on_storage_matrix
          contains_different_hash in
        refl)
      refl refl

nodes_agree_complete_example :
    (id h h' : String) × (reports h (all_say id differing) ≡ true)
    × (reports h' (all_say id differing) ≡ true)
    × (h ≢ h')
nodes_agree_complete_example = nodes_agree_complete differing (
    unfold add_responses add_response JsMap.get JsMap.set nodes_agree_on_storage_matrix
      contains_different_hash in
    refl)

abbrev part_id : String → ℕ → String
part_id stream_id partition = stream_id

abbrev input : QueryInputPayload
input = record {
  query_type = QueryType.from;
  query = from_query 5 Opt.undefined (Opt.given "p");
  stream_part_id = "s";
}

abbrev request : QueryRequest
request = record {
  request_id = "r";
  consumer_id = "c";
  stream_id = "s";
  partition = 0;
  query_type = QueryType.from;
  query_options =
      from_options (record { timestamp = 5; sequence_number = Opt.undefined }) (Opt.given "p")
        (Opt.given 3);
}

incompatible_example :
    has_incompatible_query_input part_id input request ≡ ok false
    ↔ (QueryType.from ≡ QueryType.from)
      × (input.stream_part_id ≡ part_id request.stream_id request.partition)
      × (unlimited request.query_options ≡ asked input.query)
incompatible_example = incompatible_iff part_id input request tt tt

abbrev same_address : String → String
same_address address = address

abbrev propagate : SystemMessageValue QueryPropagate
propagate = record {
  content = record { request_id = "r"; request_publisher_id = "a"; payload = ("m", "text") ∷ [] };
  metadata = metadata_of "b";
}

abbrev expected : PropagatedMessagesByNodeMap
expected = ("b", "m" ∷ "n" ∷ []) ∷ ("c", "m" ∷ []) ∷ []

expected-HasDistinctNodes : HasDistinctNodes expected
expected-HasDistinctNodes = unfold JsMap.has in (refl, (refl, tt))

get_missing_example :
    get_missing_propagated_messages same_address expected (propagate ∷ []) ≡ []
    ↔ Complete same_address (propagate ∷ []) expected
get_missing_example =
    get_missing_iff same_address expected (propagate ∷ []) expected-HasDistinctNodes
