-- ===== src/Cli/Utils/Laws.antt =====
-- packages/cli/src/utils: what a replacing transaction keeps of the one that it replaces.
use mathlib.Core.Path.{subst}
use logstore_archive.Base.{
  ℕ, String, ◌≡◌, refl, sym, ◌∙◌, Bool, true, false, Option, none, some, List, [], ◌∷◌, str_eq,
  if◌then◌else◌, includes, Bool-cases, Option-cases, inl, inr, eq_iff,
}
use logstore_archive.Base.JsMap
use logstore_archive.Base.JsMap.{JsMap}
use logstore_archive.Cli.Utils.{
  Field, undefined, number, pick, props, replacement, with_increased_tip, or_undefined, tip_of,
}

none_either : (b : Bool) → ◌≡◌ {A = Option Field} (if b then none else none) none
none_either true = refl
none_either false = refl

get-cons :
    (m : JsMap Field) (p k : String) (v : Field)
    → JsMap.get ((p, v) ∷ m) k ≡ (if str_eq p k then some v else JsMap.get m k)
unfolding JsMap.get
get-cons m p k v = refl

get-pick :
    (tx : JsMap Field) (ps : List String) (k : String)
    → JsMap.get (pick tx ps) k ≡ (if includes k ps then JsMap.get tx k else none)
unfolding pick
get-pick tx [] k = unfold JsMap.get in refl
get-pick tx (p ∷ ps) k = elim (Option-cases (JsMap.get tx p)) [
  | inl e ↦
      rw (e, pick)
        (get-pick tx ps k ∙ (elim (Bool-cases (str_eq p k)) [
          | inl same ↦
              let gone : JsMap.get tx k ≡ none =
                subst (λ q. JsMap.get tx q ≡ none) ((eq_iff p k).0 same) e in
              rw (same, gone) (none_either (includes k ps))
          | inr other ↦ rw other refl
        ]))
  | inr (v, e) ↦
      rw (e, pick)
        (get-cons (pick tx ps) p k v ∙ (elim (Bool-cases (str_eq p k)) [
          | inl same ↦
              let there : JsMap.get tx k ≡ some v =
                subst (λ q. JsMap.get tx q ≡ some v) ((eq_iff p k).0 same) e in
              rw same (sym there)
          | inr other ↦ rw other (get-pick tx ps k)
        ]))
]

-- A property that is picked and not overridden is in the replacing transaction as it was; a
-- property that is not picked, nor overridden, is not there.
pub get-replacement :
    (tx overrides : JsMap Field) (k : String)
    → JsMap.has overrides k ≡ false
    → JsMap.get (replacement tx overrides) k ≡ (
        if str_eq "type" k
        then some (or_undefined (JsMap.get tx "type"))
        else if includes k props
        then JsMap.get tx k
        else none)
unfolding replacement
get-replacement tx overrides k h =
    JsMap.get-set (JsMap.spread (pick tx props) overrides) "type" k _
    ∙ rw (JsMap.get-spread_of_not_has (pick tx props) overrides k h, get-pick tx props k) refl

-- A transaction with a raised tip has the nonce, the target, the data and the value of the one that it
-- replaces, the tip raised from that of the other, and neither a gas price nor a maximal fee.
pub with_increased_tip_lem :
    (raise : ℕ → ℕ) (tx : JsMap Field)
    → (JsMap.get (with_increased_tip raise tx) "nonce" ≡ JsMap.get tx "nonce")
      × (JsMap.get (with_increased_tip raise tx) "to" ≡ JsMap.get tx "to")
      × (JsMap.get (with_increased_tip raise tx) "data" ≡ JsMap.get tx "data")
      × (JsMap.get (with_increased_tip raise tx) "value" ≡ JsMap.get tx "value")
      × (JsMap.get (with_increased_tip raise tx) "maxPriorityFeePerGas"
          ≡ some (number (raise (tip_of (JsMap.get tx "maxPriorityFeePerGas")))))
      × (JsMap.get (with_increased_tip raise tx) "gasPrice" ≡ some undefined)
      × (JsMap.get (with_increased_tip raise tx) "maxFeePerGas" ≡ some undefined)
unfolding with_increased_tip
with_increased_tip_lem raise tx = (
  get-replacement tx _ "nonce" (unfold JsMap.has in refl),
  get-replacement tx _ "to" (unfold JsMap.has in refl),
  get-replacement tx _ "data" (unfold JsMap.has in refl),
  get-replacement tx _ "value" (unfold JsMap.has in refl),
  unfold replacement JsMap.spread in simp (JsMap.get-set) refl,
  unfold replacement JsMap.spread in simp (JsMap.get-set) refl,
  unfold replacement JsMap.spread in simp (JsMap.get-set) refl,
)
