-- ===== src/Base/Decimal.antt =====
-- `str(n)` and `int(s)` for natural numbers in decimal.
pub mod Laws
use Prim.Native.Nat.{ℕ, zero, suc, ◌+◌, ◌-◌, ◌*◌, ◌/◌, ◌%◌}
use Prim.Native.Char.{Char, code}
use Prim.Native.String.{String}
use mathlib.Core.Path.{◌≡◌, refl}
use mathlib.Core.Bool.{◌&&◌}
use mathlib.Core.Option.{Option, none, some}
use localthings.Base.Tests.{if◌then◌else◌, ltb, leb}

-- the character at a position, "0" beyond the end
abbrev pick : ℕ → String → Char
pick n String.[] = "0"
pick zero (String.◌∷◌ c s) = c
pick (suc n) (String.◌∷◌ c s) = pick n s

digits : ℕ → ℕ → String → String
digits zero n acc = acc
digits (suc fuel) n acc =
    let acc' = String.◌∷◌ (pick (n % 10) "0123456789") acc in
    let rest = digits fuel (n / 10) acc' in if ltb n 10 then acc' else rest

-- a number below 2 ^ f has at most f digits, and n < 2 ^ n
unfoldable pub decimal : ℕ → String
unfolding digits
decimal n = digits (suc n) n ""

read_digits : ℕ → String → Option ℕ
read_digits n String.[] = some n
read_digits n (String.◌∷◌ c s) =
    if leb b'0' (code c) && leb (code c) b'9'
    then read_digits (n * 10 + (code c - b'0')) s
    else none

-- a run of digits, at least one
unfoldable pub parse_decimal : String → Option ℕ
unfolding read_digits
parse_decimal String.[] = none
parse_decimal (String.◌∷◌ c s) = read_digits 0 (String.◌∷◌ c s)

decimal_test : decimal 120 ≡ "120"
unfolding decimal
decimal_test = refl
