-- ===== src/Validator/NodeManager.antt =====
-- packages/validator/src/managers/NodeManager.ts: `getDelegates`, which keeps what it has read
-- between calls.
use logstore_archive.Base.{
  sym, ◌∙◌, str_eq, ℕ, ◌+◌, String, ◌≡◌, refl, Bool, Option, none, some, List, [], ◌∷◌, ltb,
  if◌then◌else◌, arith, eq_iff, Bool-cases, Option-cases, inl, inr,
}
use logstore_archive.Base.JsMap
use logstore_archive.Base.JsMap.{JsMap}

-- `BigNumber` of ethers, of which the code uses `from(0)`: the sums that it forms are dropped.
module _ (BigNumber : Type 0) (zero : BigNumber) where
  -- `args` of a `StakeDelegateUpdated` event
  pub record DelegateEvent : Type 0 where
    pub delegate : String
    pub amount : BigNumber
    pub delegated : Bool

  pub record NodeManager : Type 0 where
    pub from_block_number : JsMap ℕ
    pub delegates : JsMap (JsMap BigNumber)

  abbrev or_empty : Option (JsMap BigNumber) → JsMap BigNumber
  or_empty none = []
  or_empty (some m) = m

  -- The body of `forEach`: `.add(amount)` returns the sum, which is not kept.
  unfoldable pub credit : JsMap BigNumber → DelegateEvent → JsMap BigNumber
  credit m e = elim (JsMap.get m e.delegate) [ none ↦ JsMap.set m e.delegate zero | some a ↦ m ]

  unfoldable pub credit_all : JsMap BigNumber → List DelegateEvent → JsMap BigNumber
  credit_all m [] = m
  credit_all m (e ∷ es) = credit_all (credit m e) es

  abbrev raise_from : Option ℕ → ℕ → ℕ
  raise_from none from = from
  raise_from (some b) from = if ltb b from then from else b

  -- `query` is `contract.queryFilter` for a node, between two blocks.
  module _ (query : String → ℕ → ℕ → List DelegateEvent) where
    unfoldable pub get_delegates :
        NodeManager → String → ℕ → ℕ → Option (JsMap BigNumber) × NodeManager
    get_delegates st node from to =
        let start = raise_from (JsMap.get st.from_block_number node) from in
        let m = credit_all (or_empty (JsMap.get st.delegates node)) (query node start to) in
        if ltb to start
        then (
          JsMap.get st.delegates node,
          record st { from_block_number = JsMap.set st.from_block_number node start },
        )
        else (
          some m,
          record {
            from_block_number = JsMap.set st.from_block_number node (to + 1);
            delegates = JsMap.set st.delegates node m;
          },
        )

    abbrev pub IsZero : JsMap BigNumber → Type 0
    IsZero m = (k : String) (a : BigNumber) → JsMap.get m k ≡ some a → a ≡ zero

    abbrev pub HasZeroAmounts : NodeManager → Type 0
    HasZeroAmounts st =
        (node : String) (m : JsMap BigNumber) → JsMap.get st.delegates node ≡ some m → IsZero m

    credit-IsZero : (m : JsMap BigNumber) (e : DelegateEvent) → IsZero m → IsZero (credit m e)
    unfolding credit
    credit-IsZero m e z k a h =
        ground (arith, JsMap.get-set m e.delegate k zero, z k a, eq_iff e.delegate k)

    credit_all-IsZero :
        (es : List DelegateEvent) (m : JsMap BigNumber) → IsZero m → IsZero (credit_all m es)
    unfolding credit_all
    credit_all-IsZero [] m z = z
    credit_all-IsZero (e ∷ es) m z = credit_all-IsZero es (credit m e) (credit-IsZero m e z)

    or_empty-IsZero :
        (st : NodeManager) (node : String)
        → HasZeroAmounts st
        → IsZero (or_empty (JsMap.get st.delegates node))
    or_empty-IsZero st node z k a h = elim (Option-cases (JsMap.get st.delegates node)) [
      | inl gone ↦
          let none_there : JsMap.get {V = BigNumber} [] k ≡ none = unfold JsMap.get in refl in
          ground (arith, gone, none_there)
      | inr (m, here) ↦ z node m here k a (rw here at h)
    ]

    same-IsZero :
        (m n : JsMap BigNumber)
        → ◌≡◌ {A = Option (JsMap BigNumber)} (some m) (some n)
        → IsZero m
        → IsZero n
    same-IsZero m n e z k a h = let same : m ≡ n = cc in z k a (rw same h)

    set-HasZeroAmounts :
        (st : NodeManager) (node : String) (m : JsMap BigNumber)
        → HasZeroAmounts st
        → IsZero m
        → (other : String) (n : JsMap BigNumber)
        → JsMap.get (JsMap.set st.delegates node m) other ≡ some n
        → IsZero n
    set-HasZeroAmounts st node m z mz other n h =
        let written = JsMap.get-set st.delegates node other m in
        elim (Bool-cases (str_eq node other)) [
          | inl here ↦ same-IsZero m n (sym (rw here at written) ∙ h) mz
          | inr there ↦ z other n (sym (rw there at written) ∙ h)
        ]

    -- Whatever the contract reports, every amount that `getDelegates` gives is 0, and stays so: if
    -- each amount that is kept is 0, as it is when none is, then so is each that is given and
    -- each that is kept afterwards.
    pub get_delegates-HasZeroAmounts :
        (st : NodeManager) (node : String) (from to : ℕ)
        → HasZeroAmounts st
        → ((m : JsMap BigNumber) → (get_delegates st node from to).0 ≡ some m → IsZero m)
          × HasZeroAmounts ((get_delegates st node from to).1)
    unfolding get_delegates
    get_delegates-HasZeroAmounts st node from to z =
        let start = raise_from (JsMap.get st.from_block_number node) from in
        let es = query node start to in
        let m : JsMap BigNumber = credit_all (or_empty (JsMap.get st.delegates node)) es in
        let mz =
          credit_all-IsZero es (or_empty (JsMap.get st.delegates node))
            (or_empty-IsZero st node z) in
        elim (Bool-cases (ltb to start)) [
          | inl t ↦ rw t (z node, z)
          | inr f ↦ rw f (λ m' e. same-IsZero m m' e mz, set-HasZeroAmounts st node m z mz)
        ]
