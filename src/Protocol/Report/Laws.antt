-- ===== src/Protocol/Report/Laws.antt =====
-- The two forms of a report stand for the same report.
use mathlib.Core.List.{append-nil}
use logstore_archive.Base.{
  ℕ, String, ◌≡◌, refl, sym, ap, ap₂, ◌∙◌, false, ◌||◌, Option, none, some, List, [], ◌∷◌, ◌++◌,
  map, All, arith, eq_iff, str_eq,
}
use logstore_archive.Base.JsMap
use logstore_archive.Base.JsMap.{JsMap}
use logstore_archive.Protocol.Report.{
  BigNumbers, Buffers, Stream, StorageEvent, Events, copy, map_events, Plain, str_to_hex,
  hex_to_str, serialize_stream, deserialize_stream, serialize_consumer, deserialize_consumer,
  serialize, deserialize, plain, serialized, to_contract, to_hash, to_proof, Hashing,
  contract_params,
}

-- An object has each key once.
abbrev pub HasDistinctKeys : {A : Type 0} → JsMap A → Type 0
HasDistinctKeys [] = Unit
HasDistinctKeys ((k, v) ∷ m) = (JsMap.has m k ≡ false) × HasDistinctKeys m

abbrev pub on_values : {A C : Type 0} → (A → C) → JsMap A → JsMap C
on_values f [] = []
on_values f ((k, v) ∷ m) = (k, f v) ∷ on_values f m

has-append :
    {A : Type 0} (m n : JsMap A) (k : String)
    → JsMap.has (m ++ n) k ≡ (JsMap.has m k || JsMap.has n k)
unfolding JsMap.has
has-append [] n k = refl
has-append ((j, v) ∷ m) n k = ground (arith, has-append m n k)

set_new :
    {A : Type 0} (m : JsMap A) (k : String) (v : A)
    → JsMap.has m k ≡ false
    → JsMap.set m k v ≡ m ++ (k, v) ∷ []
unfolding JsMap.has JsMap.set
set_new [] k v h = refl
set_new ((j, w) ∷ m) k v h = ground (arith, set_new m k v)

-- no key of the second is one of the first
abbrev AreApart : {A C : Type 0} → JsMap C → JsMap A → Type 0
AreApart m [] = Unit
AreApart m ((k, v) ∷ rest) = (JsMap.has m k ≡ false) × AreApart m rest

AreApart-append :
    {A C : Type 0} (m : JsMap C) (k : String) (w : C) (rest : JsMap A)
    → JsMap.has rest k ≡ false
    → AreApart m rest
    → AreApart (m ++ (k, w) ∷ []) rest
unfolding JsMap.has
AreApart-append m k w [] h a = tt
AreApart-append m k w ((j, v) ∷ rest) h (e, a) =
    ground (arith, has-append m ((k, w) ∷ []) j, eq_iff j k, eq_iff k j, AreApart-append m k w rest)

append_cons : {A : Type 0} (m : List A) (x : A) (n : List A) → (m ++ x ∷ []) ++ n ≡ m ++ x ∷ n
append_cons [] x n = refl
append_cons (y ∷ m) x n = ap (λ z. y ∷ z) (append_cons m x n)

copy-append :
    {A C : Type 0} (f : A → C) (m : JsMap C) (rest : JsMap A)
    → HasDistinctKeys rest
    → AreApart m rest
    → copy f m rest ≡ m ++ on_values f rest
unfolding copy
copy-append f m [] d a = sym (append-nil m)
copy-append f m ((k, v) ∷ rest) (h, d) (e, a) =
    ap (λ x. copy f x rest) (set_new m k (f v) e)
    ∙ copy-append f (m ++ (k, f v) ∷ []) rest d (AreApart-append m k (f v) rest h a)
    ∙ append_cons m (k, f v) (on_values f rest)

nothing-AreApart : {A : Type 0} (C : Type 0) (rest : JsMap A) → AreApart {C = C} [] rest
unfolding JsMap.has
nothing-AreApart C [] = tt
nothing-AreApart C ((k, v) ∷ rest) = (refl, nothing-AreApart C rest)

-- filling a new object from one with distinct keys keeps its keys and their order
pub copy_new :
    {A C : Type 0} (f : A → C) (m : JsMap A) → HasDistinctKeys m → copy f [] m ≡ on_values f m
copy_new f m d = copy-append f [] m d (nothing-AreApart _ m)

has-on_values :
    {A C : Type 0} (f : A → C) (m : JsMap A) (k : String)
    → JsMap.has (on_values f m) k ≡ JsMap.has m k
unfolding JsMap.has
has-on_values f [] k = refl
has-on_values f ((j, v) ∷ m) k = ap (λ b. str_eq j k || b) (has-on_values f m k)

on_values-HasDistinctKeys :
    {A C : Type 0} (f : A → C) (m : JsMap A) → HasDistinctKeys m → HasDistinctKeys (on_values f m)
on_values-HasDistinctKeys f [] d = d
on_values-HasDistinctKeys f ((k, v) ∷ m) (h, d) =
    (has-on_values f m k ∙ h, on_values-HasDistinctKeys f m d)

on_values-inverse :
    {A C : Type 0} (f : A → C) (g : C → A) (P : A → Type 0) (m : JsMap A)
    → ((a : A) → P a → g (f a) ≡ a)
    → All (λ (e : String × A). P e.1) m
    → on_values g (on_values f m) ≡ m
on_values-inverse f g P [] h a = refl
on_values-inverse f g P ((k, v) ∷ m) h (p, a) =
    ap₂ (λ x y. (k, x) ∷ y) (h v p) (on_values-inverse f g P m h a)

copy-copy :
    {A C : Type 0} (f : A → C) (g : C → A) (P : A → Type 0) (m : JsMap A)
    → HasDistinctKeys m
    → ((a : A) → P a → g (f a) ≡ a)
    → All (λ (e : String × A). P e.1) m
    → copy g [] (copy f [] m) ≡ m
copy-copy f g P m d h a =
    ap (copy g []) (copy_new f m d)
    ∙ copy_new g (on_values f m) (on_values-HasDistinctKeys f m d)
    ∙ on_values-inverse f g P m h a

map-inverse :
    {A C : Type 0} (f : A → C) (g : C → A) (P : A → Type 0) (xs : List A)
    → ((a : A) → P a → g (f a) ≡ a)
    → All P xs
    → map g (map f xs) ≡ xs
map-inverse f g P [] h a = refl
map-inverse f g P (x ∷ xs) h (p, a) = ap₂ (λ y ys. y ∷ ys) (h x p) (map-inverse f g P xs h a)

All-of : {A : Type 0} (P : A → Type 0) (xs : List A) → ((a : A) → P a) → All P xs
All-of P [] h = tt
All-of P (x ∷ xs) h = (h x, All-of P xs h)

module _ (B : BigNumbers) (F : Buffers) where
  abbrev EventsAreWellFormed : Option (Events String) → Type 0
  EventsAreWellFormed none = Unit
  EventsAreWellFormed (some e) = All (λ (p : StorageEvent String). F.IsWellFormed p.id) e.storage

  -- The ids of streams are well-formed texts, and each object has each key once.
  pub record IsReport (r : Plain B F) : Type 0 where
    pub streams_lem : All (λ (s : Stream String B.BigNumber). F.IsWellFormed s.id) r.streams
    pub events_lem : EventsAreWellFormed r.events
    pub nodes_lem : HasDistinctKeys r.nodes
    pub delegates_lem : HasDistinctKeys r.delegates
    pub delegates_nodes_lem :
        All (λ (e : String × JsMap B.BigNumber). HasDistinctKeys e.1) r.delegates

  amounts-inverse :
      (m : JsMap B.BigNumber) → HasDistinctKeys m → copy B.from [] (copy B.to_hex_string [] m) ≡ m
  amounts-inverse m d =
      copy-copy B.to_hex_string B.from (λ n. Unit {0}) m d (λ n u. B.from_to_hex_string n)
        (All-of _ m (λ e. tt))

  id-inverse : (s : String) → F.IsWellFormed s → hex_to_str B F (str_to_hex B F s) ≡ s
  id-inverse s w = F.hex_to_utf8-utf8_to_hex s w

  events-inverse :
      (e : Option (Events String))
      → EventsAreWellFormed e
      → map_events (hex_to_str B F) (map_events (str_to_hex B F) e) ≡ e
  events-inverse none w = refl
  events-inverse (some e) w =
      ap (λ x. some (record { queries = e.queries; storage = x }))
        (map-inverse _ _ (λ (p : StorageEvent String). F.IsWellFormed p.id) e.storage
          (λ p h. ap (λ i. record { id = i; hash = p.hash; size = p.size }) (id-inverse p.id h)) w)

  -- A report whose stream ids are well-formed texts and whose objects have each key once is read
  -- back from its serialized form as it was.
  pub deserialize-serialize_report :
      (r : Plain B F) → IsReport r → deserialize B F (serialize B F r) ≡ r
  unfolding serialize deserialize
  deserialize-serialize_report r h =
      let treasury = B.from_to_hex_string r.treasury in
      let streams =
        map-inverse (serialize_stream B F) (deserialize_stream B F)
          (λ (s : Stream String B.BigNumber). F.IsWellFormed s.id) r.streams
          (λ s w.
            ap₂ (λ i c. record { id = i; capture = c; bytes = s.bytes }) (id-inverse s.id w)
              (B.from_to_hex_string s.capture))
          h.streams_lem in
      let consumers =
        map-inverse (serialize_consumer B F) (deserialize_consumer B F) (λ c. Unit {0}) r.consumers
          (λ c u.
            ap (λ x. record { id = c.id; capture = x; bytes = c.bytes })
              (B.from_to_hex_string c.capture))
          (All-of _ r.consumers (λ c. tt)) in
      let nodes = amounts-inverse r.nodes h.nodes_lem in
      let delegates =
        copy-copy (copy B.to_hex_string []) (copy B.from []) HasDistinctKeys r.delegates
          h.delegates_lem amounts-inverse h.delegates_nodes_lem in
      let events = events-inverse r.events h.events_lem in cc

  -- The contract is sent the same parameters for a report (with well-formed stream ids and each
  -- key once) and for its serialized form.
  pub to_contract-serialized :
      (r : Plain B F)
      → IsReport r
      → to_contract B F (serialized (serialize B F r)) ≡ to_contract B F (plain r)
  unfolding to_contract
  to_contract-serialized r h = ap (contract_params B F) (deserialize-serialize_report r h)

  -- A proof of a report (with well-formed stream ids and each key once) comes out the same from
  -- the report, from its serialized form, and from what is read back from that.
  pub to_proof-serialized :
      (H : Hashing) (r : Plain B F) (signer : String) (sign : String → String) (timestamp : ℕ)
      → IsReport r
      → (to_proof B F H (serialized (serialize B F r)) signer sign timestamp
          ≡ to_proof B F H (plain r) signer sign timestamp)
        × (to_proof B F H (plain (deserialize B F (serialize B F r))) signer sign timestamp
            ≡ to_proof B F H (plain r) signer sign timestamp)
  unfolding to_proof to_hash
  to_proof-serialized H r signer sign timestamp h = (
    refl,
    ap (λ x. to_proof B F H (plain x) signer sign timestamp) (deserialize-serialize_report r h),
  )
