-- ===== src/Client/NetworkValidation/Propagates/Laws.antt =====
-- When nothing is missing.
use logstore_archive.Base.{
  inl, inr, Bool-cases, ap₂, String, ◌≡◌, ◌↔◌, refl, ap, sym, ◌∙◌, Bool, true, false, not, ◌&&◌,
  ◌||◌, List, [], ◌∷◌, ◌++◌, arith, eq_iff, str_eq, keep, includes, All,
}
use logstore_archive.Base.JsMap
use logstore_archive.Base.JsMap.{JsMap}
use logstore_archive.Protocol.Message.{QueryPropagate}
use logstore_archive.Client.NetworkValidation.Values.{SystemMessageValue}
use logstore_archive.Client.NetworkValidation.Propagates.{
  PropagatedMessagesByNodeMap, payload_ids, waiting, strike, strike_all,
  get_missing_propagated_messages,
}

abbrev pub HasDistinctNodes : PropagatedMessagesByNodeMap → Type 0
HasDistinctNodes [] = Unit
HasDistinctNodes ((node, ids) ∷ m) = (JsMap.has m node ≡ false) × HasDistinctNodes m

module _ (to_ethereum_address : String → String) where
  -- The node has propagated the message.
  abbrev pub propagated : List (SystemMessageValue QueryPropagate) → String → String → Bool
  propagated [] node id = false
  propagated (p ∷ ps) node id =
      (str_eq node (to_ethereum_address p.metadata.publisher_id)
        && includes id (payload_ids p.content.payload))
      || propagated ps node id

  -- Each entry without what its node has propagated.
  abbrev pub left_of :
      List (SystemMessageValue QueryPropagate)
      → PropagatedMessagesByNodeMap
      → PropagatedMessagesByNodeMap
  left_of ps [] = []
  left_of ps ((node, ids) ∷ m) = (node, keep (λ id. not (propagated ps node id)) ids) ∷ left_of ps m

  keep_all : (ids : List String) → keep (λ id. true) ids ≡ ids
  keep_all [] = refl
  keep_all (id ∷ ids) = ap (λ xs. id ∷ xs) (keep_all ids)

  keep-keep :
      (p q : String → Bool) (ids : List String)
      → keep q (keep p ids) ≡ keep (λ id. p id && q id) ids
  keep-keep p q [] = refl
  keep-keep p q (id ∷ ids) = ground (arith, keep-keep p q ids)

  keep_same :
      (p q : String → Bool) (ids : List String)
      → ((id : String) → p id ≡ q id)
      → keep p ids ≡ keep q ids
  keep_same p q [] h = refl
  keep_same p q (id ∷ ids) h = ground (arith, keep_same p q ids h, h id)

  left_of-nil : (m : PropagatedMessagesByNodeMap) → left_of [] m ≡ m
  left_of-nil [] = refl
  left_of-nil ((node, ids) ∷ m) = ground (arith, left_of-nil m, keep_all ids)

  left_of-other :
      (m : PropagatedMessagesByNodeMap) (p : SystemMessageValue QueryPropagate)
      (ps : List (SystemMessageValue QueryPropagate))
      → JsMap.has m (to_ethereum_address p.metadata.publisher_id) ≡ false
      → left_of (p ∷ ps) m ≡ left_of ps m
  unfolding JsMap.has
  left_of-other [] p ps h = refl
  left_of-other ((node, ids) ∷ m) p ps h =
      let address = to_ethereum_address p.metadata.publisher_id in
      let other : str_eq node address ≡ false = ground arith in
      let absent : JsMap.has m address ≡ false = ground arith in
      let same =
        keep_same (λ id. not (propagated (p ∷ ps) node id)) (λ id. not (propagated ps node id)) ids
          (λ id. ground arith) in
      cc (same, left_of-other m p ps absent)

  left_of-strike :
      (m : PropagatedMessagesByNodeMap) (p : SystemMessageValue QueryPropagate)
      (ps : List (SystemMessageValue QueryPropagate))
      → HasDistinctNodes m
      → left_of ps (strike to_ethereum_address m p) ≡ left_of (p ∷ ps) m
  unfolding strike
  left_of-strike [] p ps d = refl
  left_of-strike ((node, ids) ∷ m) p ps (e, d) =
      let address = to_ethereum_address p.metadata.publisher_id in
      let sent = payload_ids p.content.payload in
      elim (Bool-cases (str_eq node address)) [
        | inl t ↦
            let here : node ≡ address = (eq_iff node address).0 t in
            let same =
              keep-keep (λ id. not (includes id sent)) (λ id. not (propagated ps node id)) ids
              ∙ keep_same (λ id. not (includes id sent) && not (propagated ps node id))
                  (λ id. not (includes id sent || propagated ps node id)) ids
                  (λ id. ground arith) in
            rw t (
              ap₂ (λ (x : List String) y. (node, x) ∷ y) same
                (sym (left_of-other m p ps (rw (sym here) e))))
        | inr f ↦
            let left = keep (λ id. not (propagated ps node id)) ids in
            rw f (ap (λ y. (node, left) ∷ y) (left_of-strike m p ps d))
      ]

  has-strike :
      (m : PropagatedMessagesByNodeMap) (p : SystemMessageValue QueryPropagate) (j : String)
      → JsMap.has (strike to_ethereum_address m p) j ≡ JsMap.has m j
  unfolding strike JsMap.has
  has-strike [] p j = refl
  has-strike ((node, ids) ∷ m) p j = ground (arith, has-strike m p j)

  strike-HasDistinctNodes :
      (m : PropagatedMessagesByNodeMap) (p : SystemMessageValue QueryPropagate)
      → HasDistinctNodes m
      → HasDistinctNodes (strike to_ethereum_address m p)
  unfolding strike
  strike-HasDistinctNodes [] p d = d
  strike-HasDistinctNodes ((node, ids) ∷ m) p (e, d) =
      ground (arith, has-strike m p node, strike-HasDistinctNodes m p d)

  -- After the loop each set has lost exactly what its own node has propagated.
  pub strike_all-left_of :
      (m : PropagatedMessagesByNodeMap) (ps : List (SystemMessageValue QueryPropagate))
      → HasDistinctNodes m
      → strike_all to_ethereum_address m ps ≡ left_of ps m
  unfolding strike_all
  strike_all-left_of m [] d = sym (left_of-nil m)
  strike_all-left_of m (p ∷ ps) d =
      strike_all-left_of (strike to_ethereum_address m p) ps (strike-HasDistinctNodes m p d)
      ∙ left_of-strike m p ps d

  -- Every expected message was propagated by the node it is expected from.
  abbrev pub Complete :
      List (SystemMessageValue QueryPropagate) → PropagatedMessagesByNodeMap → Type 0
  Complete ps [] = Unit
  Complete ps ((node, ids) ∷ m) = All (λ id. propagated ps node id ≡ true) ids × Complete ps m

  keep-eq-nil :
      (p : String → Bool) (ids : List String)
      → keep (λ id. not (p id)) ids ≡ [] ↔ All (λ id. p id ≡ true) ids
  keep-eq-nil p [] = (λ h. tt, λ h. refl)
  keep-eq-nil p (id ∷ ids) = ground (arith, keep-eq-nil p ids)

  waiting-cons :
      (node : String) (ids : List String) (m : PropagatedMessagesByNodeMap)
      → waiting ((node, ids) ∷ m) ≡ [] ↔ (ids ≡ []) × (waiting m ≡ [])
  unfolding waiting
  waiting-cons node [] m = ground arith
  waiting-cons node (id ∷ ids) m = ground arith

  waiting-left_of :
      (ps : List (SystemMessageValue QueryPropagate)) (m : PropagatedMessagesByNodeMap)
      → waiting (left_of ps m) ≡ [] ↔ Complete ps m
  waiting-left_of ps [] = (λ h. tt, λ h. unfold waiting in refl)
  waiting-left_of ps ((node, ids) ∷ m) =
      let left = keep (λ id. not (propagated ps node id)) ids in
      ground (
        arith,
        waiting-cons node left (left_of ps m),
        waiting-left_of ps m,
        keep-eq-nil (λ id. propagated ps node id) ids,
      )

  -- Nothing is missing exactly where each expected message was propagated by the node that it is
  -- expected from, if the map has each node once.
  pub get_missing_iff :
      (m : PropagatedMessagesByNodeMap) (ps : List (SystemMessageValue QueryPropagate))
      → HasDistinctNodes m
      → get_missing_propagated_messages to_ethereum_address m ps ≡ [] ↔ Complete ps m
  get_missing_iff m ps d = rw (strike_all-left_of m ps d) (waiting-left_of ps m)

  propagated-append :
      (ps qs : List (SystemMessageValue QueryPropagate)) (node id : String)
      → propagated (ps ++ qs) node id ≡ (propagated ps node id || propagated qs node id)
  propagated-append [] qs node id = refl
  propagated-append (p ∷ ps) qs node id = ground (arith, propagated-append ps qs node id)

  has-left_of :
      (ps : List (SystemMessageValue QueryPropagate)) (m : PropagatedMessagesByNodeMap) (j : String)
      → JsMap.has (left_of ps m) j ≡ JsMap.has m j
  unfolding JsMap.has
  has-left_of ps [] j = refl
  has-left_of ps ((node, ids) ∷ m) j = ap (λ b. str_eq node j || b) (has-left_of ps m j)

  left_of-HasDistinctNodes :
      (ps : List (SystemMessageValue QueryPropagate)) (m : PropagatedMessagesByNodeMap)
      → HasDistinctNodes m
      → HasDistinctNodes (left_of ps m)
  left_of-HasDistinctNodes ps [] d = d
  left_of-HasDistinctNodes ps ((node, ids) ∷ m) (e, d) =
      (has-left_of ps m node ∙ e, left_of-HasDistinctNodes ps m d)

  left_of-left_of :
      (ps qs : List (SystemMessageValue QueryPropagate)) (m : PropagatedMessagesByNodeMap)
      → left_of (ps ++ qs) (left_of ps m) ≡ left_of (ps ++ qs) m
  left_of-left_of ps qs [] = refl
  left_of-left_of ps qs ((node, ids) ∷ m) =
      let p : String → Bool = λ id. not (propagated ps node id) in
      let q : String → Bool = λ id. not (propagated (ps ++ qs) node id) in
      let same =
        keep-keep p q ids
        ∙ keep_same (λ id. p id && q id) q ids
            (λ id. ground (arith, propagated-append ps qs node id)) in
      ap₂ (λ (x : List String) y. (node, x) ∷ y) same (left_of-left_of ps qs m)

  -- The sets that one call has struck may be given to the next, if the map has each node once: it
  -- answers for the propagates of both what a call on fresh sets answers, so that it does no harm
  -- that the clone is shallow.
  pub get_missing-reused :
      (m : PropagatedMessagesByNodeMap) (ps qs : List (SystemMessageValue QueryPropagate))
      → HasDistinctNodes m
      → get_missing_propagated_messages to_ethereum_address
          (strike_all to_ethereum_address m ps)
          (ps ++ qs)
        ≡ get_missing_propagated_messages to_ethereum_address m (ps ++ qs)
  get_missing-reused m ps qs d = ap waiting (
      ap (λ x. strike_all to_ethereum_address x (ps ++ qs)) (strike_all-left_of m ps d)
      ∙ strike_all-left_of (left_of ps m) (ps ++ qs) (left_of-HasDistinctNodes ps m d)
      ∙ left_of-left_of ps qs m
      ∙ sym (strike_all-left_of m (ps ++ qs) d))
