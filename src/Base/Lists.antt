-- ===== src/Base/Lists.antt =====
-- Lists over the native numbers, and Python's `any`, `all` and sets of texts.
use Prim.Native.Nat.{ℕ, suc}
use Prim.Native.String.{String}
use mathlib.Core.Path.{◌≡◌, refl}
use mathlib.Core.Bool.{Bool, true, false, not, ◌&&◌, ◌||◌}
use mathlib.Core.List.{List, [], ◌∷◌}
use native.Mathlib.Omega.{arith}
use text.Mathlib.Text.{◌==◌}
use text.Mathlib.TextEquality.{eq_iff}
use localthings.Base.Tests.{if◌then◌else◌}

module _ {ℓ} {A : Type ℓ} where
  abbrev pub length : List A → ℕ
  length [] = 0
  length (x ∷ xs) = suc (length xs)

  abbrev pub any : (A → Bool) → List A → Bool
  any p [] = false
  any p (x ∷ xs) = p x || any p xs

  abbrev pub all : (A → Bool) → List A → Bool
  all p [] = true
  all p (x ∷ xs) = p x && all p xs

  -- `[x for x in xs if p(x)]`
  abbrev pub keep : (A → Bool) → List A → List A
  keep p [] = []
  keep p (x ∷ xs) = let rest = keep p xs in if p x then x ∷ rest else rest

module _ {ℓ κ} {A : Type ℓ} {B : Type κ} where
  abbrev pub fold : (B → A → B) → B → List A → B
  fold f b [] = b
  fold f b (x ∷ xs) = fold f (f b x) xs

-- A Python set of texts is a list; only membership is read from it.
abbrev pub mem : String → List String → Bool
mem s [] = false
mem s (t ∷ ts) = t == s || mem s ts

-- `set.add`
abbrev pub add : String → List String → List String
add s ts = if mem s ts then ts else s ∷ ts

-- `set.discard`
abbrev pub discard : String → List String → List String
discard s [] = []
discard s (t ∷ ts) = let rest = discard s ts in if t == s then rest else t ∷ rest

-- `set(a) - set(b)`
abbrev pub difference : List String → List String → List String
difference [] b = []
difference (t ∷ ts) b = let rest = difference ts b in if mem t b then rest else t ∷ rest

pub mem-discard :
    (s t : String) (ts : List String) → mem t (discard s ts) ≡ (not (s == t) && mem t ts)
mem-discard s t [] = ground arith
mem-discard s t (u ∷ ts) = ground (arith, mem-discard s t ts, eq_iff s t, eq_iff u s, eq_iff u t)

pub mem-add : (s t : String) (ts : List String) → mem t (add s ts) ≡ (s == t || mem t ts)
mem-add s t ts = ground (arith, eq_iff s t)

pub mem-difference :
    (s : String) (a b : List String) → mem s (difference a b) ≡ (mem s a && not (mem s b))
mem-difference s [] b = refl
mem-difference s (t ∷ a) b = ground (arith, mem-difference s a b, eq_iff t s)
