-- ===== src/Base/Int.antt =====
-- Python's `int`: the operations on ℤ that the program uses.
use Prim.Native.Nat.{ℕ, suc, ◌+◌, ◌-◌, ◌*◌, ◌/◌, ◌%◌}
use mathlib.Core.Path.{◌≡◌}
use mathlib.Core.Bool.{Bool, false, ◌||◌}
use mathlib.Core.List.{List, [], ◌∷◌}
use native.Mathlib.Omega.{arith}
use localthings.Base.Tests.{if◌then◌else◌, leb, eqb}
use localthings.Base.Data.{ℤ, pos, negsuc}

-- the number above zero, and the number below it
abbrev pub up : ℤ → ℕ
up (negsuc n) = 0
up (pos n) = n

abbrev pub down : ℤ → ℕ
down (negsuc n) = suc n
down (pos n) = 0

-- `a - b` of two natural numbers
abbrev pub minus : ℕ → ℕ → ℤ
minus a b = if leb b a then pos (a - b) else negsuc (b - a - 1)

infixl 65 ◌+ℤ◌
unfoldable pub ◌+ℤ◌ : ℤ → ℤ → ℤ
x +ℤ y = minus (up x + up y) (down x + down y)

-- `x * n` by a number that is not negative
unfoldable pub times : ℤ → ℕ → ℤ
times x n = minus (up x * n) (down x * n)

abbrev pub leb_ℤ : ℤ → ℤ → Bool
leb_ℤ x y = leb (up x + down y) (up y + down x)

abbrev pub eqb_ℤ : ℤ → ℤ → Bool
eqb_ℤ x y = eqb (up x + down y) (up y + down x)

abbrev pub min_ℤ : ℤ → ℤ → ℤ
min_ℤ x y = if leb_ℤ x y then x else y

abbrev pub max_ℤ : ℤ → ℤ → ℤ
max_ℤ x y = if leb_ℤ x y then y else x

-- `x // n` and `x % n` for n above 0: the quotient rounds down
abbrev pub quotient : ℤ → ℕ → ℤ
quotient (pos a) n = pos (a / n)
quotient (negsuc a) n = negsuc (a / n)

abbrev pub remainder : ℤ → ℕ → ℕ
remainder (pos a) n = a % n
remainder (negsuc a) n = n - 1 - a % n

abbrev pub mem_ℤ : ℤ → List ℤ → Bool
mem_ℤ x [] = false
mem_ℤ x (y ∷ ys) = eqb_ℤ y x || mem_ℤ x ys

pub parts-+ℤ : (x y : ℤ) → up (x +ℤ y) + (down x + down y) ≡ down (x +ℤ y) + (up x + up y)
unfolding ◌+ℤ◌
parts-+ℤ x y = ground arith

pub parts-times : (x : ℤ) (n : ℕ) → up (times x n) + down x * n ≡ down (times x n) + up x * n
unfolding times
parts-times x n = ground arith
