-- ===== src/Tests/Listener.antt =====
-- The system listener and the recovery on concrete messages.
use logstore_archive.Base.{ℕ, String, ◌≡◌, ◌||◌, List, [], ◌∷◌, any, ◌==◌, str_eq}
use logstore_archive.Base.JsMap
use logstore_archive.Base.JsMap.{JsMap}
use logstore_archive.Protocol.Message.{MessageMetadata, SystemMessage, message, Body}
use logstore_archive.Validator.SystemListener.{
  KeyedDb, Stored, SystemDb, HashOf, deliver_all, has_hash,
}
use logstore_archive.Validator.SystemListener.Laws.{
  requests, responses, propagates, is_request, is_response, is_propagate, IsDeduplicated,
  deliver_all-stored, deliver_all-IsDeduplicated,
}
use logstore_archive.Tests.ListDb.{list_get, list_put, list_get_put}

abbrev by_time : KeyedDb ℕ ◌==◌ Stored
by_time = record { Db = List (ℕ × Stored); get = list_get; put = list_put; get_put = list_get_put }

abbrev by_id : KeyedDb String str_eq Stored
by_id = record { Db = JsMap Stored; get = JsMap.get; put = JsMap.set; get_put = JsMap.get-set }

-- a hash that tells request ids apart
abbrev hash_of : HashOf
hash_of m metadata = metadata.signature

abbrev at_ten : MessageMetadata
at_ten = record {
  stream_id = "stream";
  stream_partition = 0;
  timestamp = 10;
  sequence_number = 0;
  signature = "sig";
  publisher_id = "broker";
  msg_chain_id = "chain";
}

abbrev response : SystemMessage
response = message 1 0 (
    Body.query_response
      (record { request_id = "r"; request_publisher_id = "node"; hash_map = ("id", "hash") ∷ [] }))

abbrev empty_db : SystemDb by_time by_id hash_of
empty_db = record { query_request_db = []; query_response_db = []; query_propagate_db = [] }

abbrev twice : List (SystemMessage × MessageMetadata)
twice = (response, at_ten) ∷ (response, at_ten) ∷ []

deliver_all-stored_example :
    (has_hash
        (requests by_time by_id hash_of (deliver_all by_time by_id hash_of empty_db twice) 10)
        "sig"
      ≡ (has_hash (requests by_time by_id hash_of empty_db 10) "sig"
          || any (is_request by_time by_id hash_of 10 "sig") twice))
    × (has_hash
          (responses by_time by_id hash_of (deliver_all by_time by_id hash_of empty_db twice) "r")
          "sig"
        ≡ (has_hash (responses by_time by_id hash_of empty_db "r") "sig"
            || any (is_response by_time by_id hash_of "r" "sig") twice))
    × (has_hash
          (propagates by_time by_id hash_of (deliver_all by_time by_id hash_of empty_db twice) "r")
          "sig"
        ≡ (has_hash (propagates by_time by_id hash_of empty_db "r") "sig"
            || any (is_propagate by_time by_id hash_of "r" "sig") twice))
deliver_all-stored_example = deliver_all-stored by_time by_id hash_of twice empty_db 10 "r" "sig"

empty-IsDeduplicated : IsDeduplicated by_time by_id hash_of empty_db
empty-IsDeduplicated = record {
  at_request = λ k. unfold list_get in tt;
  at_response = λ k. unfold JsMap.get in tt;
  at_propagate = λ k. unfold JsMap.get in tt;
}

deliver_all-IsDeduplicated_example :
    IsDeduplicated by_time by_id hash_of (deliver_all by_time by_id hash_of empty_db twice)
deliver_all-IsDeduplicated_example =
    deliver_all-IsDeduplicated by_time by_id hash_of twice empty_db empty-IsDeduplicated
