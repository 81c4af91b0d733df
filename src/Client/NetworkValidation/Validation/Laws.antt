-- ===== src/Client/NetworkValidation/Validation/Laws.antt =====
-- What a verdict of validateNetworkResponses.ts says of the network.
use logstore_archive.Base.{
  String, ◌≡◌, ◌⊎◌, refl, sym, ◌∙◌, inl, inr, Bool, true, false, ◌&&◌, ◌||◌, Option, none, some,
  List, [], ◌∷◌, All, every, Bool-cases,
}
use logstore_archive.Protocol.Message.{QueryRequest, QueryResponse}
use logstore_archive.Client.NetworkValidation.Values.{SystemMessageValue}
use logstore_archive.Client.NetworkValidation.StorageMatrix.Laws.{all_say}
use logstore_archive.Client.NetworkValidation.StorageMatrix.Presence.{
  is_named, verify-convert_to_storage_matrix,
}
use logstore_archive.Client.NetworkValidation.StorageMatrix.Agreement.{reports, nodes_agree_sound}
use logstore_archive.Client.NetworkValidation.Collection.{Collection}
use logstore_archive.Client.NetworkValidation.Validation.{
  View, Progress, start, valid, waiting, is_done_at, agrees_at, present, is_present_at, advance,
  holds, times_out, validate, done_for, is_some,
}

-- One of the views has the property.
abbrev pub Sometime : (View → Type 0) → List View → Type 0
Sometime P [] = ⊥
Sometime P (v ∷ vs) = P v ⊎ Sometime P vs

-- No two responses report different hashes for one message.
abbrev pub Agrees : View → Type 0
Agrees v =
    (id h h' : String)
    → reports h (all_say id v.collection.responses) ≡ true
    → reports h' (all_say id v.collection.responses) ≡ true
    → h ≡ h'

-- The HTTP response has ended, and each of its messages is named by a response.
abbrev pub NamesAll : View → Type 0
NamesAll v =
    (ids : List String) × (v.messages ≡ some ids)
    × (every (is_named v.collection.responses) ids ≡ true)

present-NamesAll :
    (messages : Option (List String)) (responses : List (SystemMessageValue QueryResponse))
    → present (λ a. a) messages responses ≡ true
    → (ids : List String) × (messages ≡ some ids) × (every (is_named responses) ids ≡ true)
present-NamesAll none responses h = cc
present-NamesAll (some ids) responses h =
    (ids, refl, sym (verify-convert_to_storage_matrix ids responses) ∙ h)

or-cases : (a b : Bool) → (a || b) ≡ true → (a ≡ true) ⊎ (b ≡ true)
or-cases true b h = inl refl
or-cases false b h = inr h

and-cases : (a b : Bool) → (a && b) ≡ true → (a ≡ true) × (b ≡ true)
and-cases true b h = (refl, h)
and-cases false b h = cc

not-and : {a : Bool} (b : Bool) → a ≡ false → (a && b) ≡ false
not-and b e = rw e refl

module _ (to_ethereum_address : String → String) where
  abbrev pub IsDone : View → Type 0
  IsDone v = is_done_at to_ethereum_address v ≡ true

  from_done :
      (p : Progress) (v : View) (vs : List View)
      → (((advance to_ethereum_address p v).done ≡ true) ⊎ Sometime IsDone vs)
      → (p.done ≡ true) ⊎ Sometime IsDone (v ∷ vs)
  unfolding advance
  from_done p v vs (inr later) = inr (inr later)
  from_done p v vs (inl now) = elim (or-cases p.done (is_done_at to_ethereum_address v) now) [
    | inl before ↦ inl before
    | inr here ↦ inr (inl here)
  ]

  from_agreed :
      (p : Progress) (v : View) (vs : List View)
      → (((advance to_ethereum_address p v).agreed ≡ true) ⊎ Sometime Agrees vs)
      → (p.agreed ≡ true) ⊎ Sometime Agrees (v ∷ vs)
  unfolding advance
  from_agreed p v vs (inr later) = inr (inr later)
  from_agreed p v vs (inl now) = elim (or-cases p.agreed _ now) [
    | inl before ↦ inl before
    | inr here ↦
        let (_, agree) =
          and-cases (p.done || is_done_at to_ethereum_address v) (agrees_at to_ethereum_address v)
            here in
        inr (inl (λ id h h' r r'. nodes_agree_sound v.collection.responses id h h' agree r r'))
  ]

  unbroken :
      (p : Progress) (v : View) (vs : List View)
      → validate to_ethereum_address p (v ∷ vs) ≡ valid
      → v.broken ≡ false
  unfolding validate
  unbroken p v vs h = elim (Bool-cases v.broken) [ inl e ↦ absurd (cc (e, h)) | inr e ↦ e ]

  validate-from :
      (p : Progress) (vs : List View)
      → validate to_ethereum_address p vs ≡ valid
      → ((p.done ≡ true) ⊎ Sometime IsDone vs)
        × ((p.agreed ≡ true) ⊎ Sometime Agrees vs)
        × Sometime NamesAll vs
  unfolding validate
  validate-from p [] h = cc
  validate-from p (v ∷ vs) h =
      let q = advance to_ethereum_address p v in
      let whole : v.broken ≡ false = unbroken p v vs h in
      elim (Bool-cases (holds to_ethereum_address q v)) [
        | inl e ↦
            let (done, more) =
              and-cases q.done (q.agreed && is_present_at to_ethereum_address v) e in
            let (agreed, here) = and-cases q.agreed (is_present_at to_ethereum_address v) more in
            (
              from_done p v vs (inl done),
              from_agreed p v vs (inl agreed),
              inl (present-NamesAll v.messages v.collection.responses here),
            )
        | inr e ↦ elim (Bool-cases (times_out to_ethereum_address v)) [
          | inl late ↦ absurd (cc (whole, e, late, h))
          | inr early ↦
              let (done, agreed, named) = validate-from q vs (cc (whole, e, early, h)) in
              (from_done p v vs done, from_agreed p v vs agreed, inr named)
        ]
      ]

  -- If the answer of the node is held for valid, then the collection was complete at some time, at
  -- some time no two of the collected responses reported different hashes for one message, and at some
  -- time the HTTP response had ended and each of its messages was named by a collected response.
  pub validate-valid :
      (vs : List View)
      → validate to_ethereum_address start vs ≡ valid
      → Sometime IsDone vs × Sometime Agrees vs × Sometime NamesAll vs
  validate-valid vs h =
      let (done, agreed, named) = validate-from start vs h in (never done, never agreed, named)
    where
      never : {A : Type 0} → ((false ≡ true) ⊎ A) → A
      never (inl f) = cc f
      never (inr a) = a

  not_done :
      (nodes : Option (List String)) (request : Option (SystemMessageValue QueryRequest))
      (c : Collection)
      → request ≡ none
      → done_for to_ethereum_address nodes request c ≡ false
  not_done none none c e = refl
  not_done (some nodes) none c e = refl
  not_done nodes (some r) c e = cc

  never_late :
      (timer : Bool) (request : Option (SystemMessageValue QueryRequest))
      → request ≡ none
      → (timer && is_some to_ethereum_address request) ≡ false
  never_late true none e = refl
  never_late false none e = refl
  never_late timer (some r) e = cc

  no_request-waits :
      (p : Progress) (vs : List View)
      → p.done ≡ false
      → All (λ v. (v.collection.request ≡ none) × (v.broken ≡ false)) vs
      → validate to_ethereum_address p vs ≡ waiting
  unfolding validate
  no_request-waits p [] e h = refl
  no_request-waits p (v ∷ vs) e ((z, whole), h) =
      let q = advance to_ethereum_address p v in
      let undone : q.done ≡ false =
        unfold advance in
        rw (e, not_done v.expected_nodes v.collection.request v.collection z) refl in
      let unheld : holds to_ethereum_address q v ≡ false = not-and _ undone in
      let early = never_late v.timer v.collection.request z in
      let later = no_request-waits q vs undone h in cc (whole, unheld, early, later)

  -- As long as no request of the query was seen and no stream has ended with an error, the validation
  -- goes on, however long the time has been over.
  pub validate-waits :
      (vs : List View)
      → All (λ v. (v.collection.request ≡ none) × (v.broken ≡ false)) vs
      → validate to_ethereum_address start vs ≡ waiting
  validate-waits vs h = no_request-waits start vs refl h
