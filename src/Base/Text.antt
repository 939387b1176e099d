-- ===== src/Base/Text.antt =====
-- The methods of Python's `str` that the program calls, on the native texts.
pub mod Splitting
use Prim.Native.Nat.{ℕ}
use Prim.Native.Char.{code}
use Prim.Native.String.{String}
use mathlib.Core.Bool.{◌&&◌, ◌||◌, Bool, true, false, not}
use mathlib.Core.Path.{◌≡◌, refl}
use mathlib.Core.List.{List, [], ◌∷◌}
use mathlib.Core.Option.{Option, none, some}
use text.Mathlib.Text.{◌==◌}
use localthings.Base.Tests.{if◌then◌else◌, eqb, is_some}
pub use Prim.Native.String.{◌++◌ as concat}

-- `s.rsplit(d, 1)` with both parts, or none where `d` does not occur
abbrev pub rsplit : ℕ → String → Option (String × String)
rsplit d String.[] = none
rsplit d (String.◌∷◌ c s) = elim (rsplit d s) [
  | some (h, t) ↦ some (String.◌∷◌ c h, t)
  | none ↦ if eqb (code c) d then some (String.[], s) else none
]

-- the rest of the text behind a prefix: `s[len(p):]` where `s.startswith(p)`
abbrev pub strip_prefix : String → String → Option String
strip_prefix String.[] s = some s
strip_prefix (String.◌∷◌ c p) String.[] = none
strip_prefix (String.◌∷◌ c p) (String.◌∷◌ d s) =
    if eqb (code c) (code d) then strip_prefix p s else none

abbrev pub startswith : String → String → Bool
startswith s p = is_some (strip_prefix p s)

abbrev pub endswith : String → String → Bool
endswith String.[] p = String.[] == p
endswith (String.◌∷◌ c s) p = String.◌∷◌ c s == p || endswith s p

-- no character of the text has this code
abbrev pub lacks : ℕ → String → Bool
lacks d String.[] = true
lacks d (String.◌∷◌ c s) = not (eqb (code c) d) && lacks d s

push_char : String → List String → List String
push_char c [] = c ∷ []
push_char c (w ∷ ws) = concat c w ∷ ws

-- `s.split(d)`
unfoldable pub split : ℕ → String → List String
unfolding push_char
split d String.[] = String.[] ∷ []
split d (String.◌∷◌ c s) =
    let rest = split d s in
    if eqb (code c) d then String.[] ∷ rest else push_char (String.◌∷◌ c String.[]) rest

drop_left : ℕ → String → String
drop_left d String.[] = String.[]
drop_left d (String.◌∷◌ c s) = if eqb (code c) d then drop_left d s else String.◌∷◌ c s

drop_right : ℕ → String → String
drop_right d String.[] = String.[]
drop_right d (String.◌∷◌ c s) =
    let rest = drop_right d s in
    if eqb (code c) d && rest == String.[] then String.[] else String.◌∷◌ c rest

-- `s.strip(d)`
unfoldable pub strip : ℕ → String → String
unfolding drop_left drop_right
strip d s = drop_right d (drop_left d s)

not_empty : List String → List String
not_empty [] = []
not_empty (s ∷ ss) = let rest = not_empty ss in if s == String.[] then rest else s ∷ rest

-- `[s for s in href.strip("/").split("/") if s]`
unfoldable pub segments : String → List String
unfolding split strip not_empty
segments href = not_empty (split b'/' (strip b'/' href))

segments_test : segments "/mode/vs/0/" ≡ "mode" ∷ "vs" ∷ "0" ∷ []
unfolding segments
segments_test = refl

-- `p in s`
abbrev pub occurs : String → String → Bool
occurs p String.[] = p == String.[]
occurs p (String.◌∷◌ c s) = startswith (String.◌∷◌ c s) p || occurs p s
