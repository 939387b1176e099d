-- ===== src/Registry/Subdevices/Defs/Hrefs.antt =====
-- The way between a subdevice's hrefs and those of the connection.
use localthings.Base.{
  String, true, ◌≡◌, refl, sym, ap, ◌∙◌, none, some, concat, rsplit, strip_prefix, startswith, ◌==◌,
  eq_iff, if◌then◌else◌, arith, Option-cases, inl, inr,
}
use localthings.Base.Text.Splitting.{
  concat_assoc, rsplit-concat, rsplit_sound, strip-concat, strip_sound,
}
use localthings.Registry.Subdevices.Defs.{
  Subdevice, Kind, main, indexed, prefixed, to_actual, to_canonical, actual_of, canonical_of,
  indexed_actual, indexed_canonical, behind_prefix,
}

-- A canonical href that a subdevice of this kind has of its own: an indexed one has those whose
-- last segment is 0, and its key is one segment; a prefixed one has those that begin with a slash.
abbrev pub IsOwn : Kind → String → String → Type 0
IsOwn main key href = Unit {0}
IsOwn indexed key href =
    (rsplit b'/' key ≡ none) × (head : String) × (rsplit b'/' href ≡ some (head, "0"))
IsOwn prefixed key href = startswith href "/" ≡ true

behind-concat :
    (key href : String)
    → startswith href "/" ≡ true
    → behind_prefix key (concat "/" (concat key href)) ≡ some href
unfolding behind_prefix
behind-concat key href h =
    rw (← concat_assoc "/" key href) (rw (strip-concat (concat "/" key) href, behind_prefix) (rw h))

indexed_actual_of :
    (key href head : String)
    → rsplit b'/' href ≡ some (head, "0")
    → indexed_actual key href ≡ concat head (concat "/" key)
unfolding indexed_actual
indexed_actual_of key href head e = rw (e, indexed_actual)

indexed_canonical_of :
    (key actual head tail : String)
    → rsplit b'/' actual ≡ some (head, tail)
    → indexed_canonical key actual ≡ (if tail == key then some (concat head "/0") else none)
unfolding indexed_canonical
indexed_canonical_of key actual head tail e = rw (e, indexed_canonical)

indexed_there :
    (key href head : String)
    → rsplit b'/' key ≡ none
    → rsplit b'/' href ≡ some (head, "0")
    → indexed_canonical key (indexed_actual key href) ≡ some href
indexed_there key href head plain e = rw (indexed_actual_of key href head e) (
    rw
      (indexed_canonical_of key (concat head (concat "/" key)) head key
        (rsplit-concat head key plain))
      (ground (arith, eq_iff key key, rsplit_sound href head "0" e)))

indexed_alone :
    (key actual href : String)
    → rsplit b'/' actual ≡ none
    → indexed_canonical key actual ≡ some href
    → indexed_actual key href ≡ actual
unfolding indexed_canonical indexed_actual
indexed_alone key actual href e h =
    let h' : (if actual == key then some "0" else none) ≡ some href =
      rw (e, indexed_canonical) at h in
    let p : (actual ≡ key) × ("0" ≡ href) = ground (arith, h', eq_iff actual key) in
    rw (← p.1) (sym p.0)

indexed_back :
    (key actual href : String)
    → indexed_canonical key actual ≡ some href
    → indexed_actual key href ≡ actual
indexed_back key actual href h = elim (Option-cases (rsplit b'/' actual)) [
  | inl e ↦ indexed_alone key actual href e h
  | inr ((head, tail), e) ↦
      let h' = rw (indexed_canonical_of key actual head tail e) at h in
      let p : (tail ≡ key) × (concat head "/0" ≡ href) = ground (arith, h', eq_iff tail key) in
      rw (← p.1) (
        indexed_actual_of key (concat head "/0") head (rsplit-concat head "0" refl)
        ∙ ap (λ k. concat head (concat "/" k)) (sym p.0)
        ∙ sym (rsplit_sound actual head tail e))
]

behind_back :
    (key actual href : String)
    → behind_prefix key actual ≡ some href
    → concat "/" (concat key href) ≡ actual
unfolding behind_prefix
behind_back key actual href h = elim (Option-cases (strip_prefix (concat "/" key) actual)) [
  | inl e ↦ absurd (ground (arith, e, h))
  | inr (rest, e) ↦
      let p : rest ≡ href = ground (arith, e, h) in
      rw (← p) (sym (concat_assoc "/" key rest) ∙ sym (strip_sound (concat "/" key) actual rest e))
]

canonical_of-actual_of :
    (k : Kind) (key href : String)
    → IsOwn k key href
    → canonical_of k key (actual_of k key href) ≡ some href
unfolding canonical_of actual_of
canonical_of-actual_of main key href own = refl
canonical_of-actual_of indexed key href own = indexed_there key href own.1 own.0 own.2
canonical_of-actual_of prefixed key href own = behind-concat key href own

actual_of-canonical_of :
    (k : Kind) (key actual href : String)
    → canonical_of k key actual ≡ some href
    → actual_of k key href ≡ actual
unfolding canonical_of actual_of
actual_of-canonical_of main key actual href h = ground (arith, h)
actual_of-canonical_of indexed key actual href h = indexed_back key actual href h
actual_of-canonical_of prefixed key actual href h = behind_back key actual href h

-- An own canonical href comes back from the href on the wire.
pub to_canonical-to_actual :
    (s : Subdevice) (href : String)
    → IsOwn s.kind s.key href
    → to_canonical s (to_actual s href) ≡ some href
unfolding to_canonical to_actual
to_canonical-to_actual s href own = canonical_of-actual_of s.kind s.key href own

-- An href on the wire that has a canonical form for a subdevice comes back from it.
pub to_actual-to_canonical :
    (s : Subdevice) (actual href : String)
    → to_canonical s actual ≡ some href
    → to_actual s href ≡ actual
unfolding to_canonical to_actual
to_actual-to_canonical s actual href h = actual_of-canonical_of s.kind s.key actual href h
