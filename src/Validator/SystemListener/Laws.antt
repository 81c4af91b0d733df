-- ===== src/Validator/SystemListener/Laws.antt =====
-- What the listener's databases hold after any deliveries.
use logstore_archive.Base.{
  ℕ, String, ◌≡◌, refl, ap, Bool, true, false, ◌&&◌, ◌||◌, List, [], ◌∷◌, ◌++◌, arith, ◌==◌, str_eq,
  any, Bool-cases, inl, inr, eq_iff,
}
use logstore_archive.Protocol.Message.{SystemMessage, message, Body, MessageMetadata}
use logstore_archive.Validator.SystemListener.{
  StoredMessage, Stored, KeyedDb, or_empty, has_hash, add_once, transaction, HashOf, SystemDb,
  on_system_message, deliver_all,
}

-- each hash once
abbrev pub HasDistinctHashes : Stored → Type 0
HasDistinctHashes [] = Unit
HasDistinctHashes (m ∷ ms) = (has_hash ms m.hash ≡ false) × HasDistinctHashes ms

has_hash-append :
    (ms : Stored) (m : StoredMessage) (h : String)
    → has_hash (ms ++ m ∷ []) h ≡ (has_hash ms h || str_eq m.hash h)
has_hash-append [] m h = ground arith
has_hash-append (x ∷ ms) m h = ground (arith, has_hash-append ms m h)

append-HasDistinctHashes :
    (ms : Stored) (m : StoredMessage)
    → HasDistinctHashes ms
    → has_hash ms m.hash ≡ false
    → HasDistinctHashes (ms ++ m ∷ [])
append-HasDistinctHashes [] m d h = (refl, tt)
append-HasDistinctHashes (x ∷ ms) m (e, d) h = (
  ground (arith, has_hash-append ms m x.hash, eq_iff x.hash m.hash, eq_iff m.hash x.hash),
  append-HasDistinctHashes ms m d (ground arith),
)

-- the messages at a key
abbrev pub at : {K : Type 0} {same : K → K → Bool} (D : KeyedDb K same Stored) → D.Db → K → Stored
at D db k = or_empty (D.get db k)

module _ {K : Type 0} {same : K → K → Bool} (D : KeyedDb K same Stored)
    (same_eq : (k j : K) → same k j ≡ true → k ≡ j) where
  -- a transaction adds one hash at one key
  has_hash-transaction :
      (db : D.Db) (k j : K) (m : StoredMessage) (h : String)
      → has_hash (at D (transaction D db k m) j) h
        ≡ (has_hash (at D db j) h || (same k j && str_eq m.hash h))
  unfolding transaction add_once
  has_hash-transaction db k j m h = elim (Bool-cases (same k j)) [
    | inl here ↦
        let e : at D db k ≡ at D db j = ap (at D db) (same_eq k j here) in
        ground (
          arith,
          here,
          ap (λ ms. has_hash ms h) e,
          ap (λ ms. has_hash ms m.hash) e,
          D.get_put db k j (at D db k ++ m ∷ []),
          has_hash-append (at D db k) m h,
          eq_iff m.hash h,
        )
    | inr there ↦ ground (arith, there, D.get_put db k j (at D db k ++ m ∷ []))
  ]

  transaction-HasDistinctHashes :
      (db : D.Db) (k j : K) (m : StoredMessage)
      → HasDistinctHashes (at D db k)
      → HasDistinctHashes (at D db j)
      → HasDistinctHashes (at D (transaction D db k m) j)
  unfolding transaction add_once
  transaction-HasDistinctHashes db k j m dk dj =
      ground
        (arith, D.get_put db k j (at D db k ++ m ∷ []), append-HasDistinctHashes (at D db k) m dk)

-- `===` of the keys
num_same : (k j : ℕ) → (k == j) ≡ true → k ≡ j
num_same k j h = ground arith

str_same : (k j : String) → str_eq k j ≡ true → k ≡ j
str_same k j h = (eq_iff k j).0 h

module _ (R : KeyedDb ℕ ◌==◌ Stored) (S : KeyedDb String str_eq Stored) (hash_of : HashOf) where
  abbrev pub requests : SystemDb R S hash_of → ℕ → Stored
  requests db k = at R db.query_request_db k

  abbrev pub responses : SystemDb R S hash_of → String → Stored
  responses db k = at S db.query_response_db k

  abbrev pub propagates : SystemDb R S hash_of → String → Stored
  propagates db k = at S db.query_propagate_db k

  -- a QueryRequest that was published at `k` and has the hash
  abbrev pub is_request : ℕ → String → SystemMessage × MessageMetadata → Bool
  is_request k h (message v n (Body.query_request q), metadata) =
      metadata.timestamp == k && str_eq (hash_of (message v n (Body.query_request q)) metadata) h
  is_request k h _ = false

  -- a QueryResponse to the request `k` that has the hash
  abbrev pub is_response : String → String → SystemMessage × MessageMetadata → Bool
  is_response k h (message v n (Body.query_response q), metadata) =
      str_eq q.request_id k && str_eq (hash_of (message v n (Body.query_response q)) metadata) h
  is_response k h _ = false

  -- a QueryPropagate for the request `k` that has the hash
  abbrev pub is_propagate : String → String → SystemMessage × MessageMetadata → Bool
  is_propagate k h (message v n (Body.query_propagate q), metadata) =
      str_eq q.request_id k && str_eq (hash_of (message v n (Body.query_propagate q)) metadata) h
  is_propagate k h _ = false

  requests-on_system_message :
      (db : SystemDb R S hash_of) (m : SystemMessage) (metadata : MessageMetadata) (k : ℕ)
      (h : String)
      → has_hash (requests (on_system_message R S hash_of db m metadata) k) h
        ≡ (has_hash (requests db k) h || is_request k h (m, metadata))
  unfolding on_system_message
  requests-on_system_message db (message v n (Body.query_request q)) metadata k h =
      has_hash-transaction R num_same db.query_request_db metadata.timestamp k _ h
  requests-on_system_message db (message v n _) metadata k h = ground arith

  responses-on_system_message :
      (db : SystemDb R S hash_of) (m : SystemMessage) (metadata : MessageMetadata) (k : String)
      (h : String)
      → has_hash (responses (on_system_message R S hash_of db m metadata) k) h
        ≡ (has_hash (responses db k) h || is_response k h (m, metadata))
  unfolding on_system_message
  responses-on_system_message db (message v n (Body.query_response q)) metadata k h =
      has_hash-transaction S str_same db.query_response_db q.request_id k _ h
  responses-on_system_message db (message v n _) metadata k h = ground arith

  propagates-on_system_message :
      (db : SystemDb R S hash_of) (m : SystemMessage) (metadata : MessageMetadata) (k : String)
      (h : String)
      → has_hash (propagates (on_system_message R S hash_of db m metadata) k) h
        ≡ (has_hash (propagates db k) h || is_propagate k h (m, metadata))
  unfolding on_system_message
  propagates-on_system_message db (message v n (Body.query_propagate q)) metadata k h =
      has_hash-transaction S str_same db.query_propagate_db q.request_id k _ h
  propagates-on_system_message db (message v n _) metadata k h = ground arith

  -- After any deliveries, in any order and with any repetitions, a hash is stored at a key exactly
  -- if it was there before or a message of that type was delivered for the key with that hash:
  -- nothing is lost, and nothing else is stored, in each of the three databases.
  pub deliver_all-stored :
      (ms : List (SystemMessage × MessageMetadata)) (db : SystemDb R S hash_of) (t : ℕ)
      (k h : String)
      → (has_hash (requests (deliver_all R S hash_of db ms) t) h
          ≡ (has_hash (requests db t) h || any (is_request t h) ms))
        × (has_hash (responses (deliver_all R S hash_of db ms) k) h
            ≡ (has_hash (responses db k) h || any (is_response k h) ms))
        × (has_hash (propagates (deliver_all R S hash_of db ms) k) h
            ≡ (has_hash (propagates db k) h || any (is_propagate k h) ms))
  unfolding deliver_all
  deliver_all-stored [] db t k h = (ground arith, ground arith, ground arith)
  deliver_all-stored ((m, metadata) ∷ ms) db t k h =
      let (a, b, c) = deliver_all-stored ms (on_system_message R S hash_of db m metadata) t k h in
      (
        ground (arith, a, requests-on_system_message db m metadata t h),
        ground (arith, b, responses-on_system_message db m metadata k h),
        ground (arith, c, propagates-on_system_message db m metadata k h),
      )

  -- Each key of each database holds a hash at most once.
  pub record IsDeduplicated (db : SystemDb R S hash_of) : Type 0 where
    pub at_request : (k : ℕ) → HasDistinctHashes (requests db k)
    pub at_response : (k : String) → HasDistinctHashes (responses db k)
    pub at_propagate : (k : String) → HasDistinctHashes (propagates db k)

  on_system_message-IsDeduplicated :
      (db : SystemDb R S hash_of) (m : SystemMessage) (metadata : MessageMetadata)
      → IsDeduplicated db
      → IsDeduplicated (on_system_message R S hash_of db m metadata)
  unfolding on_system_message
  on_system_message-IsDeduplicated db (message v n (Body.query_request q)) metadata d = record {
    at_request = λ k.
        transaction-HasDistinctHashes R num_same db.query_request_db metadata.timestamp k _
          (d.at_request metadata.timestamp) (d.at_request k);
    at_response = d.at_response;
    at_propagate = d.at_propagate;
  }
  on_system_message-IsDeduplicated db (message v n (Body.query_response q)) metadata d = record {
    at_request = d.at_request;
    at_response = λ k.
        transaction-HasDistinctHashes S str_same db.query_response_db q.request_id k _
          (d.at_response q.request_id) (d.at_response k);
    at_propagate = d.at_propagate;
  }
  on_system_message-IsDeduplicated db (message v n (Body.query_propagate q)) metadata d = record {
    at_request = d.at_request;
    at_response = d.at_response;
    at_propagate = λ k.
        transaction-HasDistinctHashes S str_same db.query_propagate_db q.request_id k _
          (d.at_propagate q.request_id) (d.at_propagate k);
  }
  on_system_message-IsDeduplicated db (message v n _) metadata d = record {
    at_request = d.at_request;
    at_response = d.at_response;
    at_propagate = d.at_propagate;
  }

  -- If each key holds each hash at most once, it does so after any deliveries, however often a
  -- message is delivered.
  pub deliver_all-IsDeduplicated :
      (ms : List (SystemMessage × MessageMetadata)) (db : SystemDb R S hash_of)
      → IsDeduplicated db
      → IsDeduplicated (deliver_all R S hash_of db ms)
  unfolding deliver_all
  deliver_all-IsDeduplicated [] db d = d
  deliver_all-IsDeduplicated ((m, metadata) ∷ ms) db d =
      deliver_all-IsDeduplicated ms (on_system_message R S hash_of db m metadata)
        (on_system_message-IsDeduplicated db m metadata d)
