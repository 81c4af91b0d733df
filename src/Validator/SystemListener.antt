-- ===== src/Validator/SystemListener.antt =====
-- packages/validator/src/threads/SystemListener.ts and SystemDb.ts: what the validator stores of the
-- system stream.
pub mod Laws
use logstore_archive.Base.{
  ℕ, String, ◌≡◌, Bool, true, false, ◌||◌, Option, none, some, List, [], ◌∷◌, ◌++◌, ltb, str_eq,
  ◌==◌, if◌then◌else◌, max,
}
use logstore_archive.Protocol.Message.{
  SystemMessage, message, Body, MessageMetadata, SystemMessageType, type_of,
}

-- `{ message: { content, metadata }, hash }`
pub record StoredMessage : Type 0 where
  pub content : SystemMessage
  pub metadata : MessageMetadata
  pub hash : String

-- An LMDB database, asked for `get` and `put`; `same` is the equality of its keys.
pub record KeyedDb (K : Type 0) (same : K → K → Bool) (V : Type 0) : Type 1 where
  pub Db : Type 0
  pub get : Db → K → Option V
  pub put : Db → K → V → Db
  pub get_put :
      (db : Db) (k j : K) (v : V) → get (put db k v) j ≡ (if same k j then some v else get db j)

abbrev pub Stored : Type 0
Stored = List StoredMessage

abbrev pub or_empty : Option Stored → Stored
or_empty none = []
or_empty (some ms) = ms

-- `messages.find((m) => m.hash === hash) != undefined`
abbrev pub has_hash : Stored → String → Bool
has_hash [] h = false
has_hash (m ∷ ms) h = str_eq m.hash h || has_hash ms h

-- The body of each transaction: `none` where nothing is put.
unfoldable pub add_once : Stored → StoredMessage → Option Stored
add_once messages m = if has_hash messages m.hash then none else some (messages ++ m ∷ [])

module _ {K : Type 0} {same : K → K → Bool} (D : KeyedDb K same Stored) where
  abbrev put_if : D.Db → K → Option Stored → D.Db
  put_if db key none = db
  put_if db key (some messages) = D.put db key messages

  unfoldable pub transaction : D.Db → K → StoredMessage → D.Db
  transaction db key m = put_if db key (add_once (or_empty (D.get db key)) m)

-- `sha256` of the JSON of the message and of the metadata that is picked from its own.
abbrev pub HashOf : Type 0
HashOf = SystemMessage → MessageMetadata → String

module _ (R : KeyedDb ℕ ◌==◌ Stored) (S : KeyedDb String str_eq Stored) (hash_of : HashOf) where
  pub record SystemDb : Type 0 where
    pub query_request_db : R.Db
    pub query_response_db : S.Db
    pub query_propagate_db : S.Db

  abbrev stored : SystemMessage → MessageMetadata → StoredMessage
  stored m metadata = record { content = m; metadata = metadata; hash = hash_of m metadata }

  unfoldable pub on_system_message : SystemDb → SystemMessage → MessageMetadata → SystemDb
  on_system_message db (message v n (Body.query_request q)) metadata = record db {
    query_request_db =
        transaction R db.query_request_db metadata.timestamp
          (stored (message v n (Body.query_request q)) metadata);
  }
  on_system_message db (message v n (Body.query_response q)) metadata = record db {
    query_response_db =
        transaction S db.query_response_db q.request_id
          (stored (message v n (Body.query_response q)) metadata);
  }
  on_system_message db (message v n (Body.query_propagate q)) metadata = record db {
    query_propagate_db =
        transaction S db.query_propagate_db q.request_id
          (stored (message v n (Body.query_propagate q)) metadata);
  }
  on_system_message db (message v n _) metadata = db

  pub record ListenerState : Type 0 where
    pub db : SystemDb
    pub latest_timestamp : Option ℕ

  abbrev listens : SystemMessage → Bool
  listens (message v n (Body.query_request q)) = true
  listens (message v n (Body.query_response q)) = true
  listens (message v n (Body.query_propagate q)) = true
  listens (message v n _) = false

  -- `onMessage` behind `deserialize`
  unfoldable pub on_message : ListenerState → SystemMessage → MessageMetadata → ListenerState
  on_message st m metadata =
      if listens m
      then record {
        db = on_system_message st.db m metadata;
        latest_timestamp = some metadata.timestamp;
      }
      else st

  -- Messages reach the store from the stream and from the recovery, in any order.
  unfoldable pub deliver_all : SystemDb → List (SystemMessage × MessageMetadata) → SystemDb
  deliver_all db [] = db
  deliver_all db ((m, metadata) ∷ rest) = deliver_all (on_system_message db m metadata) rest

-- `latestTimestamp`, of the summary of the recovery
abbrev or_zero : Option ℕ → ℕ
or_zero none = 0
or_zero (some t) = t

unfoldable pub latest_timestamp : Option ℕ → Bool → Option ℕ → Option ℕ
latest_timestamp latest is_complete recovered =
    if is_complete then some (max (or_zero latest) (or_zero recovered)) else recovered
