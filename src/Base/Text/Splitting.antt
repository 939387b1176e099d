-- ===== src/Base/Text/Splitting.antt =====
-- Laws of `rsplit` and of prefixes.
use Prim.Native.Nat.{ℕ}
use Prim.Native.Char.{Char, code}
use Prim.Native.String.{String}
use Prim.Native.String.append
use mathlib.Core.Path.{◌≡◌, refl, ap, ◌∙◌}
use mathlib.Core.Logic.{inl, inr}
use mathlib.Core.Bool.{true}
use mathlib.Core.List.{[], ◌∷◌}
use mathlib.Core.Option.{Option, none, some}
use native.Mathlib.Omega.{arith}
use text.Mathlib.TextEquality.{Char-path}
use localthings.Base.Tests.{if◌then◌else◌, eqb, Bool-cases}
use localthings.Base.Text.{concat, rsplit, strip_prefix, split, push_char, lacks}

concat-nil : (t : String) → concat "" t ≡ t
concat-nil t = append.nil t

concat-cons : (c : Char) (s t : String) → concat (String.◌∷◌ c s) t ≡ String.◌∷◌ c (concat s t)
concat-cons c s t = append.cons c s t

pub concat-slash : (t : String) → concat "/" t ≡ String.◌∷◌ "/" t
concat-slash t = concat-cons "/" "" t ∙ ap (λ s. String.◌∷◌ "/" s) (concat-nil t)

pub concat_assoc : (a b c : String) → concat (concat a b) c ≡ concat a (concat b c)
concat_assoc String.[] b c = simp concat-nil
concat_assoc (String.◌∷◌ d a) b c = simp (concat-cons, concat_assoc a b c)

-- A text that is put behind a slash, and has none, is what is split off.
pub rsplit-concat :
    (head key : String)
    → rsplit b'/' key ≡ none
    → rsplit b'/' (concat head (concat "/" key)) ≡ some (head, key)
rsplit-concat String.[] key h = simp (concat-nil, concat-slash) (rw (h, rsplit))
rsplit-concat (String.◌∷◌ c s) key h = simp concat-cons (rw (rsplit-concat s key h, rsplit))

pub strip-concat : (p s : String) → strip_prefix p (concat p s) ≡ some s
strip-concat String.[] s = simp concat-nil
strip-concat (String.◌∷◌ c p) s = simp concat-cons (ground (arith, strip-concat p s))

pub strip_sound : (p s rest : String) → strip_prefix p s ≡ some rest → s ≡ concat p rest
strip_sound String.[] s rest h = simp concat-nil (cc)
strip_sound (String.◌∷◌ c p) String.[] rest h = cc
strip_sound (String.◌∷◌ c p) (String.◌∷◌ d s) rest h = elim (Bool-cases (eqb (code c) (code d))) [
  | inl same ↦
      let e : c ≡ d = Char-path c d (ground (arith, same)) in
      let h' : strip_prefix p s ≡ some rest = ground (arith, same, h) in
      simp concat-cons (cc (e, strip_sound p s rest h'))
  | inr other ↦ ground (arith, other, h)
]

parts :
    {a b head tail : String}
    → ◌≡◌ {A = Option (String × String)} (some (a, b)) (some (head, tail))
    → (a ≡ head) × (b ≡ tail)
parts h = ground (arith, h)

at_slash :
    (c : Char) (s head tail : String)
    → (let whole : Option (String × String) = some ("", s) in
        if eqb (code c) b'/' then whole else none)
      ≡ some (head, tail)
    → String.◌∷◌ c s ≡ concat head (concat "/" tail)
at_slash c s head tail h = elim (Bool-cases (eqb (code c) b'/')) [
  | inl same ↦
      let e : c ≡ "/" = Char-path c "/" (ground (arith, same)) in
      let p = parts {a = ""} {b = s} (rw same at h) in
      rw (← p.0, ← p.1) (simp (concat-nil, concat-slash) (ap (λ d. String.◌∷◌ d s) e))
  | inr other ↦ absurd (ground (arith, other, h))
]

pub rsplit_sound :
    (s head tail : String) → rsplit b'/' s ≡ some (head, tail) → s ≡ concat head (concat "/" tail)
rsplit_sound String.[] head tail h = cc
rsplit_sound (String.◌∷◌ c s) head tail h =
    elim (rsplit b'/' s)
        as (λ o. rsplit b'/' s ≡ o → String.◌∷◌ c s ≡ concat head (concat "/" tail)) [
          | some (a, b) ↦ λ e.
              let p = parts {a = String.◌∷◌ c a} {b = b} (rw (e, rsplit) at h) in
              rw (← p.0, ← p.1) (simp concat-cons (ap (λ u. String.◌∷◌ c u) (rsplit_sound s a b e)))
          | none ↦ λ e. at_slash c s head tail (rw (e, rsplit) at h)
        ]
      refl

-- A text without the character is one word.
pub split-lacks : (d : ℕ) (s : String) → lacks d s ≡ true → split d s ≡ s ∷ []
unfolding split push_char
split-lacks d String.[] h = refl
split-lacks d (String.◌∷◌ c s) h =
    ground (arith, h, split-lacks d s (ground (arith, h)), concat-cons c "" s, concat-nil s)

-- The first word ends at the first such character.
pub split-concat :
    (c : Char) (a b : String)
    → lacks (code c) a ≡ true
    → split (code c) (concat a (concat (String.◌∷◌ c "") b)) ≡ a ∷ split (code c) b
unfolding split push_char
split-concat c String.[] b h = simp (concat-nil, concat-cons c "" b) (ground arith)
split-concat c (String.◌∷◌ d a) b h =
    simp (concat-cons d a)
      (ground (arith, h, split-concat c a b (ground (arith, h)), concat-cons d "" a, concat-nil a))
