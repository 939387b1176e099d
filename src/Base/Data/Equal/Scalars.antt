-- ===== src/Base/Data/Equal/Scalars.antt =====
-- A value that is not a list, a dict or bytes equals itself.
use mathlib.Core.Path.{◌≡◌, refl}
use mathlib.Core.Bool.{Bool, true, false}
use text.Mathlib.Text.{◌==◌}
use Prim.Native.String.{String}
use native.Mathlib.Omega.{arith}
use text.Mathlib.TextEquality.{eq_iff}
use localthings.Base.Data.{ℤ, pos, negsuc, Value, null, flag, int, str, bytes, arr, obj}
use localthings.Base.Data.Equal.{eq_int, eq_number, eq}

abbrev pub is_scalar : Value → Bool
is_scalar null = true
is_scalar (flag b) = true
is_scalar (int n) = true
is_scalar (str s) = true
is_scalar _ = false

int-same : (n : ℤ) → eq_int n n ≡ true
unfolding eq_int
int-same (pos n) = ground arith
int-same (negsuc n) = ground arith

pub eq-scalar : (v : Value) → is_scalar v ≡ true → eq v v ≡ true
unfolding eq eq_number
eq-scalar null h = refl
eq-scalar (flag true) h = int-same (pos 1)
eq-scalar (flag false) h = int-same (pos 0)
eq-scalar (int n) h = int-same n
eq-scalar (str s) h = ground (arith, eq_iff s s)
eq-scalar _ h = absurd (ground (arith, h))

-- the text itself
abbrev pub is_text : String → Value → Bool
is_text s (str t) = t == s
is_text s _ = false

-- Only a text equals a text.
pub eq-str : (v : Value) (s : String) → eq v (str s) ≡ is_text s v
unfolding eq eq_number
eq-str null s = refl
eq-str (flag true) s = refl
eq-str (flag false) s = refl
eq-str (int n) s = refl
eq-str (str t) s = refl
eq-str (bytes b) s = refl
eq-str (arr vs) s = refl
eq-str (obj fs) s = refl
