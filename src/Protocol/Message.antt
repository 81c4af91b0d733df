-- ===== src/Protocol/Message.antt =====
-- packages/protocol/src/system: the messages. A field has the type that its class declares.
use logstore_archive.Base.{ℕ, String, Bool, List}
use logstore_archive.Base.JsMap.{JsMap}
use logstore_archive.Protocol.Js.{Opt}

pub data QueryType : Type 0 where
  last from range : QueryType

pub record QueryRef : Type 0 where
  pub timestamp : ℕ
  pub sequence_number : Opt ℕ

-- `QueryLastOptions | QueryFromOptions | QueryRangeOptions`
pub data QueryOptions : Type 0 where
  last_options : (last : ℕ) → QueryOptions
  from_options : (from : QueryRef) (publisher_id : Opt String) (limit : Opt ℕ) → QueryOptions
  range_options :
      (from to : QueryRef) (msg_chain_id publisher_id : Opt String) (limit : Opt ℕ) → QueryOptions

pub record QueryRequest : Type 0 where
  pub request_id : String
  pub consumer_id : String
  pub stream_id : String
  pub partition : ℕ
  pub query_type : QueryType
  pub query_options : QueryOptions

pub record QueryResponse : Type 0 where
  pub request_id : String
  pub request_publisher_id : String
  pub hash_map : JsMap String

pub record QueryPropagate : Type 0 where
  pub request_id : String
  pub request_publisher_id : String
  pub payload : List (String × String)

pub record ProofOfReport : Type 0 where
  pub address : String
  pub hash : String
  pub toth : String
  pub timestamp : ℕ
  pub signature : String

pub record RecoveryRequest : Type 0 where
  pub request_id : String
  pub from : ℕ
  pub to : ℕ

pub record RecoveryComplete : Type 0 where
  pub request_id : String
  pub is_fulfilled : Bool

-- interfaces/MessageMetadata.ts
pub record MessageMetadata : Type 0 where
  pub stream_id : String
  pub stream_partition : ℕ
  pub timestamp : ℕ
  pub sequence_number : ℕ
  pub signature : String
  pub publisher_id : String
  pub msg_chain_id : String

-- A `SystemMessage` is its version, its number and the fields of its subclass. A RecoveryResponse
-- holds messages itself.
mutual
  pub data SystemMessage : Type 0 where
    message : (version seq_num : ℕ) → Body → SystemMessage

  pub data Body : Type 0 where
    query_request : QueryRequest → Body
    query_response : QueryResponse → Body
    query_propagate : QueryPropagate → Body
    proof_of_report : ProofOfReport → Body
    recovery_request : RecoveryRequest → Body
    recovery_response : (request_id : String) → Payload → Body
    recovery_complete : RecoveryComplete → Body

  pub data Payload : Type 0 where
    nil : Payload
    cons : SystemMessage → MessageMetadata → Payload → Payload

-- `enum SystemMessageType`
pub data SystemMessageType : Type 0 where
  query_request query_response query_propagate proof_of_report : SystemMessageType
  recovery_request recovery_response recovery_complete : SystemMessageType

abbrev pub code : SystemMessageType → ℕ
code SystemMessageType.query_request = 1
code SystemMessageType.query_response = 2
code SystemMessageType.query_propagate = 3
code SystemMessageType.proof_of_report = 4
code SystemMessageType.recovery_request = 5
code SystemMessageType.recovery_response = 6
code SystemMessageType.recovery_complete = 7

-- `messageType`, which each subclass passes to `super`
abbrev pub type_of : Body → SystemMessageType
type_of (Body.query_request _) = SystemMessageType.query_request
type_of (Body.query_response _) = SystemMessageType.query_response
type_of (Body.query_propagate _) = SystemMessageType.query_propagate
type_of (Body.proof_of_report _) = SystemMessageType.proof_of_report
type_of (Body.recovery_request _) = SystemMessageType.recovery_request
type_of (Body.recovery_response _ _) = SystemMessageType.recovery_response
type_of (Body.recovery_complete _) = SystemMessageType.recovery_complete
