-- ===== src/Registry/Identity/Mac.antt =====
-- The form of a MAC address, with its separators and without.
use Prim.Native.Char.{Char}
use localthings.Base.{
  ℕ, String, Bool, true, not, ◌||◌, ◌≡◌, refl, ap, sym, ◌∙◌, none, some, List, [], ◌∷◌, all, length,
  eqb, arith, if◌then◌else◌, str,
}
use localthings.Registry.Identity.{
  is_zero, TextMethods, chars, without_separators, is_lower_hex, in_pairs, normalized_mac,
}

chars-without_hex :
    (c : Char) (s : String)
    → is_lower_hex c ≡ true
    → chars (without_separators (String.◌∷◌ c s)) ≡ c ∷ chars (without_separators s)
unfolding chars without_separators is_lower_hex
chars-without_hex c s h = ground (arith, h)

digits-in_pairs :
    (ds : List Char) → all is_lower_hex ds ≡ true → chars (without_separators (in_pairs ds)) ≡ ds
unfolding in_pairs chars without_separators
digits-in_pairs [] h = refl
digits-in_pairs (c ∷ []) h = ground (arith, h, chars-without_hex c "")
digits-in_pairs (c ∷ d ∷ []) h =
    ground (arith, h, chars-without_hex c (String.◌∷◌ d ""), chars-without_hex d "")
digits-in_pairs (c ∷ d ∷ e ∷ ds) h =
    let rest = in_pairs (e ∷ ds) in
    ground (
      arith,
      h,
      chars-without_hex c (String.◌∷◌ d (String.◌∷◌ ":" rest)),
      chars-without_hex d (String.◌∷◌ ":" rest),
      digits-in_pairs (e ∷ ds),
    )

accepted :
    (n : ℕ) (hex zero : Bool) (pairs mac : String)
    → (if not (eqb n 12) || not hex then none else if zero then none else some pairs) ≡ some mac
    → (pairs ≡ mac) × ((n ≡ 12) × (hex ≡ true))
accepted n hex zero pairs mac h = ground (arith, h)

-- An address that is accepted has, without its separators, the digits of the text that it was read
-- from, in lower case: twelve hexadecimal ones.
pub normalized_mac-digits :
    (t : TextMethods) (raw mac : String)
    → normalized_mac t (some (str raw)) ≡ some mac
    → (chars (without_separators mac) ≡ chars (without_separators (t.lower (t.strip raw))))
      × ((length (chars (without_separators mac)) ≡ 12)
          × (all is_lower_hex (chars (without_separators mac)) ≡ true))
unfolding normalized_mac
normalized_mac-digits t raw mac h =
    let ds = chars (without_separators (t.lower (t.strip raw))) in
    let a = accepted (length ds) (all is_lower_hex ds) (all is_zero ds) (in_pairs ds) mac h in
    let back = ap (λ w. chars (without_separators w)) (sym a.0) ∙ digits-in_pairs ds a.1.1 in
    (back, (ap length back ∙ a.1.0, ap (all is_lower_hex) back ∙ a.1.1))
