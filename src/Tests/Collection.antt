-- ===== src/Tests/Collection.antt =====
-- What a client collects of a query, and its verdict.
use logstore_archive.Base.{
  ℕ, String, ◌≡◌, ◌↔◌, refl, inl, true, false, some, List, [], ◌∷◌, any, ◌&&◌,
}
use logstore_archive.Base.JsMap
use logstore_archive.Base.Result.{ok, err}
use logstore_archive.Protocol.Js.{Opt}
use logstore_archive.Protocol.Message.{
  QueryType, from_options, last_options, QueryRequest, QueryResponse, MessageMetadata,
}
use logstore_archive.Client.NetworkValidation.Values.{SystemMessageValue}
use logstore_archive.Client.NetworkValidation.QueryInput.{
  from_query, last_query, QueryInputPayload, has_incompatible_query_input, opt_num_eq, opt_str_eq,
}
use logstore_archive.Client.NetworkValidation.StorageMatrix.{
  nodes_agree_on_storage_matrix, add_response, add_responses, contains_different_hash,
  verify_message_presence, count_nodes,
}
use logstore_archive.Client.NetworkValidation.Completion.{
  is_done, primary_node_response, secondary_node_responses, got_response_from_all_nodes,
}
use logstore_archive.Client.NetworkValidation.Propagates.{expect, keys, strike_all, waiting}
use logstore_archive.Client.NetworkValidation.Collection.{
  Collection, new_collection, Event, request_arrives, response_arrives, node_resolved,
  http_answered, stack_overflow, collect, step, announce, filtered, meets, fill_responses,
  fill_propagates, shrink_pools, see_request, observe,
}
use logstore_archive.Client.NetworkValidation.Collection.Laws.{IsCollected, collect-IsCollected}
use logstore_archive.Client.NetworkValidation.Collection.Loop.{IsTrap, announce-overflows_iff}
use logstore_archive.Client.NetworkValidation.Collection.Done.{is_done-ignores_propagates}
use logstore_archive.Client.NetworkValidation.Collection.LeftOut.{arrival, left_out-overflows}
use logstore_archive.Client.NetworkValidation.Validation
use logstore_archive.Client.NetworkValidation.Validation.{View, start, valid, validate, advance}
use logstore_archive.Client.NetworkValidation.Validation.Laws.{
  Sometime, IsDone, Agrees, NamesAll, validate-valid, validate-waits,
}

abbrev metadata_of : String → MessageMetadata
metadata_of publisher_id = record {
  stream_id = "system";
  stream_partition = 0;
  timestamp = 10;
  sequence_number = 0;
  signature = "sig";
  publisher_id = publisher_id;
  msg_chain_id = "chain";
}

abbrev part_id : String → ℕ → String
part_id stream_id partition = stream_id

abbrev last_input : QueryInputPayload
last_input = record { query_type = QueryType.last; query = last_query 1; stream_part_id = "s" }

abbrev last_request : SystemMessageValue QueryRequest
last_request = record {
  content = record {
    request_id = "r";
    consumer_id = "c";
    stream_id = "s";
    partition = 0;
    query_type = QueryType.last;
    query_options = last_options 1;
  };
  metadata = metadata_of "a";
}

abbrev response_of : String → String → SystemMessageValue QueryResponse
response_of request node = record {
  content = record { request_id = request; request_publisher_id = "a"; hash_map = ("m", "h") ∷ [] };
  metadata = metadata_of node;
}

-- A response to another request is collected first, and left out when the HTTP response comes.
abbrev events : List Event
events =
    response_arrives (response_of "x" "a")
    ∷ node_resolved "a"
    ∷ request_arrives last_request
    ∷ response_arrives (response_of "r" "a")
    ∷ http_answered "r"
    ∷ []

abbrev collected : Collection
collected = record new_collection {
  query_node = some "a";
  http_id = some "r";
  latest_request = some last_request;
  latest_response = some (response_of "r" "a");
  responses = response_of "r" "a" ∷ response_of "r" "a" ∷ [];
  candidate = some last_request;
  request = some last_request;
}

events-collected : collect part_id last_input 3 new_collection events ≡ ok collected
unfolding collect step announce filtered meets fill_responses fill_propagates shrink_pools
    see_request observe has_incompatible_query_input opt_num_eq
events-collected = refl

collect-IsCollected_example : IsCollected collected
collect-IsCollected_example =
    collect-IsCollected part_id last_input 3 collected events events-collected

abbrev left_out_input : QueryInputPayload
left_out_input = record {
  query_type = QueryType.from;
  query = from_query 5 Opt.undefined (Opt.given "p");
  stream_part_id = "s";
}

abbrev request : QueryRequest
request = record {
  request_id = "r";
  consumer_id = "c";
  stream_id = "s";
  partition = 0;
  query_type = QueryType.from;
  query_options =
      from_options (record { timestamp = 5; sequence_number = Opt.undefined }) (Opt.given "p")
        Opt.undefined;
}

abbrev before_answer : Collection
before_answer = record new_collection {
  query_node = some "a";
  impossible = "r" ∷ [];
  latest_request = some (arrival request (metadata_of "a"));
}

-- The request of the query comes to be held for impossible.
reaches-before_answer :
    collect part_id left_out_input 2 new_collection
      (node_resolved "a" ∷ request_arrives (arrival request (metadata_of "a")) ∷ [])
    ≡ ok before_answer
unfolding collect step announce filtered meets fill_responses fill_propagates shrink_pools
    see_request observe has_incompatible_query_input opt_num_eq opt_str_eq
reaches-before_answer = refl

left_out-overflows_example :
    collect part_id left_out_input 10000 before_answer (http_answered "r" ∷ []) ≡ err stack_overflow
left_out-overflows_example =
    left_out-overflows part_id left_out_input request (metadata_of "a") before_answer 10000 [] tt tt
      (inl refl) refl refl refl

announce-overflows_iff_example :
    (announce part_id left_out_input 10000 (record before_answer { http_id = some "r" })
      ≡ err stack_overflow)
    ↔ IsTrap part_id left_out_input (record before_answer { http_id = some "r" })
announce-overflows_iff_example =
    announce-overflows_iff part_id left_out_input 9998 (record before_answer { http_id = some "r" })

abbrev same_address : String → String
same_address address = address

abbrev last_view : View
last_view = record {
  collection = collected;
  expected_nodes = some ("a" ∷ []);
  messages = some ("m" ∷ []);
  timer = false;
  broken = false;
}

validate-valid_example :
    Sometime (IsDone same_address) (last_view ∷ [])
    × Sometime Agrees (last_view ∷ [])
    × Sometime NamesAll (last_view ∷ [])
validate-valid_example = validate-valid same_address (last_view ∷ []) (
    unfold validate advance is_done primary_node_response secondary_node_responses
      got_response_from_all_nodes expect keys strike_all waiting add_response add_responses
      nodes_agree_on_storage_matrix contains_different_hash verify_message_presence count_nodes
      JsMap.get JsMap.set JsMap.has in
    refl)

abbrev silent_view : View
silent_view = record {
  collection = new_collection;
  expected_nodes = some ("a" ∷ []);
  messages = some ("m" ∷ []);
  timer = true;
  broken = false;
}

silent_waits : validate same_address start (silent_view ∷ silent_view ∷ []) ≡ Validation.waiting
silent_waits =
    validate-waits same_address (silent_view ∷ silent_view ∷ []) ((refl, refl), ((refl, refl), tt))

broken_fails :
    validate same_address start (record silent_view { broken = true } ∷ last_view ∷ [])
    ≡ Validation.failed
unfolding validate
broken_fails = refl

is_done_example : is_done same_address ("b" ∷ []) last_request collected.responses [] ≡ (
    any (λ r. true) collected.responses
    && got_response_from_all_nodes same_address ("b" ∷ []) collected.responses)
is_done_example =
    is_done-ignores_propagates same_address collected ("b" ∷ []) last_request []
      (collect-IsCollected part_id last_input 3 collected events events-collected) refl
