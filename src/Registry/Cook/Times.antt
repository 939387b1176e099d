-- ===== src/Registry/Cook/Times.antt =====
-- registry/capabilities/cook.py: cook times, in seconds, and their text `HH:MM:SS`
use localthings.Base.{
  lacks, ℕ, suc, ◌+◌, ◌*◌, ◌/◌, ◌%◌, ◌≡◌, refl, ap, sym, ◌∙◌, String, true, Option, none, some,
  List, [], ◌∷◌, arith, concat, split, ltb, if◌then◌else◌, parse_decimal, ℤ, pos, negsuc, Value,
  str,
}
use localthings.Base.Decimal.{decimal}
use localthings.Base.Int.{quotient, remainder}
use localthings.Base.Text.Splitting.{split-concat, split-lacks}
use localthings.Base.Decimal.Laws.{lacks-decimal, parse-decimal, parse-padded}

-- hours, minutes and seconds
seconds_of : Option ℕ → Option ℕ → Option ℕ → Option ℕ
seconds_of (some h) (some m) (some s) = some (h * 3600 + m * 60 + s)
seconds_of _ _ _ = none

-- three parts of digits
read_parts : List String → Option ℕ
unfolding seconds_of
read_parts (h ∷ m ∷ s ∷ []) = seconds_of (parse_decimal h) (parse_decimal m) (parse_decimal s)
read_parts _ = none

-- The digits are ASCII.
unfoldable pub parse_hms : Value → Option ℕ
unfolding read_parts
parse_hms (str s) = read_parts (split b':' s)
parse_hms _ = none

-- `f"{n:02d}"`
pad2 : ℤ → String
pad2 (pos n) = if ltb n 10 then String.◌∷◌ "0" (decimal n) else decimal n
pad2 (negsuc n) = String.◌∷◌ "-" (decimal (suc n))

unfoldable pub format_hms : ℤ → String
unfolding pad2
format_hms seconds =
    let h = quotient seconds 3600 in
    let rest = remainder seconds 3600 in
    concat (pad2 h)
      (concat ":" (concat (pad2 (pos (rest / 60))) (concat ":" (pad2 (pos (rest % 60))))))

format_hms_test : format_hms (pos 3725) ≡ "01:02:05"
unfolding format_hms decimal
format_hms_test = refl

pad2-lacks : (n : ℕ) → lacks b':' (pad2 (pos n)) ≡ true
unfolding pad2
pad2-lacks n = ground (arith, lacks-decimal b':' n (omega arith))

parse-pad2 : (n : ℕ) → parse_decimal (pad2 (pos n)) ≡ some n
unfolding pad2
parse-pad2 n = ground (arith, parse-decimal n, parse-padded n)

split_three :
    (a b c : String)
    → lacks b':' a ≡ true
    → lacks b':' b ≡ true
    → lacks b':' c ≡ true
    → split b':' (concat a (concat ":" (concat b (concat ":" c)))) ≡ a ∷ b ∷ c ∷ []
split_three a b c p q r =
    split-concat ":" a (concat b (concat ":" c)) p
    ∙ ap (λ ws. a ∷ ws) (split-concat ":" b c q)
    ∙ ap (λ ws. a ∷ b ∷ ws) (split-lacks b':' c r)

seconds_of-parts :
    (n h m s : ℕ)
    → n ≡ h * 3600 + m * 60 + s
    → read_parts (pad2 (pos h) ∷ pad2 (pos m) ∷ pad2 (pos s) ∷ []) ≡ some n
unfolding read_parts seconds_of
seconds_of-parts n h m s e = rw (parse-pad2 h, parse-pad2 m, parse-pad2 s) (ap some (sym e))

-- A number of seconds is read back from the text it is sent as.
pub parse_hms-format_hms : (n : ℕ) → parse_hms (str (format_hms (pos n))) ≡ some n
unfolding parse_hms format_hms
parse_hms-format_hms n =
    let h = n / 3600 in
    let m = n % 3600 / 60 in
    let s = n % 3600 % 60 in
    ap read_parts (
      split_three (pad2 (pos h)) (pad2 (pos m)) (pad2 (pos s)) (pad2-lacks h) (pad2-lacks m)
        (pad2-lacks s))
    ∙ seconds_of-parts n h m s (omega arith)
