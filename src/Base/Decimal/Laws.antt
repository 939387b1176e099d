-- ===== src/Base/Decimal/Laws.antt =====
-- What `decimal` writes holds digits only, and `parse_decimal` reads it back.
use Prim.Native.Nat.{ℕ, zero, suc, ◌+◌, ◌*◌, ◌/◌, ◌%◌, ◌<◌, ◌≤◌}
use Prim.Native.Char.{code}
use Prim.Native.String.{String}
use mathlib.Core.Path.{◌≡◌, refl, ap, ◌∙◌}
use mathlib.Core.Logic.{inl, inr}
use mathlib.Core.Bool.{Bool, true, false}
use mathlib.Core.Option.{some}
use native.Mathlib.Omega.{arith}
use localthings.Base.Tests.{ltb, Bool-cases}
use localthings.Base.Text.{lacks}
use localthings.Base.Decimal.{pick, digits, decimal, read_digits, parse_decimal}

pub digit_code : (n : ℕ) → n < 10 → code (pick n "0123456789") ≡ 48 + n
digit_code zero h = refl
digit_code (suc zero) h = refl
digit_code (suc (suc zero)) h = refl
digit_code (suc (suc (suc zero))) h = refl
digit_code (suc (suc (suc (suc zero)))) h = refl
digit_code (suc (suc (suc (suc (suc zero))))) h = refl
digit_code (suc (suc (suc (suc (suc (suc zero)))))) h = refl
digit_code (suc (suc (suc (suc (suc (suc (suc zero))))))) h = refl
digit_code (suc (suc (suc (suc (suc (suc (suc (suc zero)))))))) h = refl
digit_code (suc (suc (suc (suc (suc (suc (suc (suc (suc zero))))))))) h = refl
digit_code (suc (suc (suc (suc (suc (suc (suc (suc (suc (suc n)))))))))) h = omega arith

read-pick :
    (k n : ℕ) (s : String)
    → n < 10
    → read_digits k (String.◌∷◌ (pick n "0123456789") s) ≡ read_digits (k * 10 + n) s
unfolding read_digits
read-pick k n s h = ground (arith, digit_code n h)

read-digits : (f n : ℕ) (acc : String) → n < f → read_digits 0 (digits f n acc) ≡ read_digits n acc
unfolding digits
read-digits zero n acc h = absurd (omega arith)
read-digits (suc f) n acc h =
    let one = String.◌∷◌ (pick (n % 10) "0123456789") acc in
    elim (Bool-cases (ltb n 10)) [
      | inl small ↦ rw small (
          read-pick 0 (n % 10) acc (omega arith)
          ∙ ap (λ i. read_digits i acc) (ground (arith, small)))
      | inr large ↦ rw large (
          read-digits f (n / 10) one (ground (arith, large))
          ∙ read-pick (n / 10) (n % 10) acc (omega arith)
          ∙ ap (λ i. read_digits i acc) (omega arith))
    ]

lacks-pick :
    (d n : ℕ) (s : String)
    → n < 10
    → 58 ≤ d
    → lacks d (String.◌∷◌ (pick n "0123456789") s) ≡ lacks d s
lacks-pick d n s h far = ground (arith, digit_code n h)

lacks-digits :
    (d f n : ℕ) (acc : String) → 58 ≤ d → lacks d acc ≡ true → lacks d (digits f n acc) ≡ true
unfolding digits
lacks-digits d zero n acc far h = h
lacks-digits d (suc f) n acc far h =
    let one = String.◌∷◌ (pick (n % 10) "0123456789") acc in
    let clean : lacks d one ≡ true = lacks-pick d (n % 10) acc (omega arith) far ∙ h in
    ground (arith, clean, lacks-digits d f (n / 10) one far clean)

read_end : (n : ℕ) → read_digits n "" ≡ some n
unfolding read_digits
read_end n = refl

read-decimal : (n : ℕ) → read_digits 0 (decimal n) ≡ some n
unfolding decimal
read-decimal n = read-digits (suc n) n "" (omega arith) ∙ read_end n

-- No character with a code above "9" is in the decimal text of a number.
pub lacks-decimal : (d n : ℕ) → 58 ≤ d → lacks d (decimal n) ≡ true
unfolding decimal
lacks-decimal d n far = lacks-digits d (suc n) n "" far refl

is_empty : String → Bool
is_empty String.[] = true
is_empty (String.◌∷◌ c s) = false

digits-filled : (f n : ℕ) (acc : String) → is_empty acc ≡ false → is_empty (digits f n acc) ≡ false
unfolding digits is_empty
digits-filled zero n acc h = h
digits-filled (suc f) n acc h =
    let one = String.◌∷◌ (pick (n % 10) "0123456789") acc in
    ground (arith, digits-filled f (n / 10) one refl)

decimal-filled : (n : ℕ) → is_empty (decimal n) ≡ false
unfolding decimal digits is_empty
decimal-filled n =
    let one = String.◌∷◌ (pick (n % 10) "0123456789") "" in
    ground (arith, digits-filled n (n / 10) one refl)

parse_of_read :
    (s : String) (n : ℕ) → is_empty s ≡ false → read_digits 0 s ≡ some n → parse_decimal s ≡ some n
unfolding parse_decimal is_empty
parse_of_read String.[] n h e = absurd (ground (arith, h))
parse_of_read (String.◌∷◌ c s) n h e = e

-- A number is read back from its decimal text, with or without a zero in front.
pub parse-decimal : (n : ℕ) → parse_decimal (decimal n) ≡ some n
parse-decimal n = parse_of_read (decimal n) n (decimal-filled n) (read-decimal n)

pub parse-padded : (n : ℕ) → parse_decimal (String.◌∷◌ "0" (decimal n)) ≡ some n
unfolding parse_decimal read_digits
parse-padded n = read-decimal n
