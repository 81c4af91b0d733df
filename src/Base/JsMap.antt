-- ===== src/Base/JsMap.antt =====
-- JavaScript's `Map` with string keys: the entries in order of insertion; `set` on a key that is
-- there replaces the value in place. A plain object used as a dictionary is modelled by it too.
use mathlib.Core.Path.{◌≡◌, refl, ◌∙◌}
use mathlib.Core.Bool.{Bool, false, ◌||◌}
use mathlib.Core.List.{List, [], ◌∷◌}
use mathlib.Core.Option.{Option, none, some}
use Prim.Native.String.{String}
use native.Mathlib.Omega.{arith}
use text.Mathlib.TextEquality.{eq_iff}
use text.Mathlib.TextPositions.{eq_refl}
use logstore_archive.Base.Tests.{if◌then◌else◌, str_eq}

abbrev pub JsMap {ℓ} : Type ℓ → Type ℓ
JsMap V = List (String × V)

module _ {ℓ} {V : Type ℓ} where
  unfoldable pub get : JsMap V → String → Option V
  get [] k = none
  get ((j, v) ∷ m) k = if str_eq j k then some v else get m k

  unfoldable pub has : JsMap V → String → Bool
  has [] k = false
  has ((j, v) ∷ m) k = str_eq j k || has m k

  unfoldable pub set : JsMap V → String → V → JsMap V
  set [] k v = (k, v) ∷ []
  set ((j, w) ∷ m) k v = if str_eq j k then (j, v) ∷ m else (j, w) ∷ set m k v

  unfoldable pub delete : JsMap V → String → JsMap V
  delete [] k = []
  delete ((j, w) ∷ m) k = let rest = delete m k in if str_eq j k then rest else (j, w) ∷ rest

  pub get-set :
      (m : JsMap V) (k j : String) (v : V)
      → get (set m k v) j ≡ (if str_eq k j then some v else get m j)
  unfolding get set
  get-set [] k j v = refl
  get-set ((i, w) ∷ m) k j v = ground (arith, eq_iff k j, eq_iff i k, eq_iff i j, get-set m k j v)

  pub get-set_self : (m : JsMap V) (k : String) (v : V) → get (set m k v) k ≡ some v
  get-set_self m k v = simp (get-set, eq_refl)

  pub get-delete :
      (m : JsMap V) (k j : String) → get (delete m k) j ≡ (if str_eq k j then none else get m j)
  unfolding get delete
  get-delete [] k j = ground arith
  get-delete ((i, w) ∷ m) k j = ground (arith, eq_iff k j, eq_iff i k, eq_iff i j, get-delete m k j)

  pub get_of_not_has : (m : JsMap V) (k : String) → has m k ≡ false → get m k ≡ none
  unfolding get has
  get_of_not_has [] k h = refl
  get_of_not_has ((j, w) ∷ m) k h = ground (arith, get_of_not_has m k)

  -- `{ ...a, ...b }`
  unfoldable pub spread : JsMap V → JsMap V → JsMap V
  spread a [] = a
  spread a ((k, v) ∷ b) = spread (set a k v) b

  pub get-spread_of_not_has :
      (a b : JsMap V) (k : String) → has b k ≡ false → get (spread a b) k ≡ get a k
  unfolding spread has
  get-spread_of_not_has a [] k h = refl
  get-spread_of_not_has a ((j, v) ∷ b) k h =
      get-spread_of_not_has (set a j v) b k (ground (arith, h))
      ∙ (get-set a j k v ∙ (let e : str_eq j k ≡ false = ground (arith, h) in rw e refl))
