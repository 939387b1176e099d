-- ===== src/Base/Dict.antt =====
-- Python's `dict` with text keys, as the list of its entries in insertion order.
use Prim.Native.String.{String}
use mathlib.Core.Path.{◌≡◌, refl}
use mathlib.Core.Bool.{Bool}
use mathlib.Core.Option.{Option, none, some}
use mathlib.Core.List.{List, [], ◌∷◌, ◌++◌}
use native.Mathlib.Omega.{arith}
use text.Mathlib.Text.{◌==◌}
use text.Mathlib.TextEquality.{eq_iff}
use localthings.Base.Tests.{if◌then◌else◌, or_else, is_some, default}

abbrev pub Dict {ℓ} : Type ℓ → Type ℓ
Dict V = List (String × V)

module _ {ℓ} {V : Type ℓ} where
  -- d.get(k)
  unfoldable pub get : Dict V → String → Option V
  get [] k = none
  get ((j, v) ∷ m) k = if j == k then some v else get m k

  -- k in d
  abbrev pub has : Dict V → String → Bool
  has m k = is_some (get m k)

  -- d[k] = v
  unfoldable pub put : Dict V → String → V → Dict V
  put [] k v = (k, v) ∷ []
  put ((j, w) ∷ m) k v = if j == k then (k, v) ∷ m else (j, w) ∷ put m k v

  -- d.pop(k, None)
  unfoldable pub remove : Dict V → String → Dict V
  remove [] k = []
  remove ((j, w) ∷ m) k = let rest = remove m k in if j == k then rest else (j, w) ∷ rest

  override : Dict V → Dict V → Dict V
  unfolding get
  override b [] = []
  override b ((k, v) ∷ a) = (k, default v (get b k)) ∷ override b a

  added : Dict V → Dict V → Dict V
  unfolding get
  added a [] = []
  added a ((k, v) ∷ b) = let rest = added a b in if has a k then rest else (k, v) ∷ rest

  -- {**a, **b}
  unfoldable pub merge : Dict V → Dict V → Dict V
  unfolding override added
  merge a b = override b a ++ added a b

  unfoldable pub keys : Dict V → List String
  keys [] = []
  keys ((k, v) ∷ m) = k ∷ keys m

  pub get-put :
      (m : Dict V) (k j : String) (v : V) → get (put m k v) j ≡ (if k == j then some v else get m j)
  unfolding get put
  get-put [] k j v = refl
  get-put ((i, w) ∷ m) k j v = ground (arith, eq_iff k j, eq_iff i k, eq_iff i j, get-put m k j v)

  pub get-remove :
      (m : Dict V) (k j : String) → get (remove m k) j ≡ (if k == j then none else get m j)
  unfolding get remove
  get-remove [] k j = ground arith
  get-remove ((i, w) ∷ m) k j = ground (arith, eq_iff k j, eq_iff i k, eq_iff i j, get-remove m k j)

  get-append : (a b : Dict V) (k : String) → get (a ++ b) k ≡ or_else (get a k) (get b k)
  unfolding get
  get-append [] b k = refl
  get-append ((i, w) ∷ a) b k = ground (arith, get-append a b k)

  get-override :
      (a b : Dict V) (k : String)
      → get (override b a) k ≡ (if has a k then or_else (get b k) (get a k) else none)
  unfolding get override
  get-override [] b k = refl
  get-override ((i, w) ∷ a) b k = ground (arith, eq_iff i k, get-override a b k)

  get-added : (a b : Dict V) (k : String) → get (added a b) k ≡ (if has a k then none else get b k)
  unfolding get added
  get-added a [] k = ground arith
  get-added a ((i, w) ∷ b) k = ground (arith, eq_iff i k, get-added a b k)

  -- A key of the right dictionary wins, and every other key keeps its value.
  pub get-merge : (a b : Dict V) (k : String) → get (merge a b) k ≡ or_else (get b k) (get a k)
  unfolding merge
  get-merge a b k =
      ground (arith, get-append (override b a) (added a b) k, get-override a b k, get-added a b k)

pub ruleset dict_laws = (get-put, get-remove, get-merge)
