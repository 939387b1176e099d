-- ===== src/Registry/Subdevices/Defs/Views.antt =====
-- What each subdevice sees of the resources of a connection.
use localthings.Base.{
  String, true, false, ◌≡◌, ◌≢◌, refl, sym, ap, ◌∙◌, Option, none, some, List, [], ◌∷◌, any, ◌==◌,
  eq_iff, if◌then◌else◌, or_else, arith, Rep, Bool-cases, Option-cases, inl, inr,
}
use localthings.Base.Dict
use localthings.Base.Dict.{Dict, get-put}
use localthings.Registry.Subdevices.Defs.{
  Subdevice, Kind, main, indexed, prefixed, to_actual, to_canonical, owns, main_view, sub_view,
  view_of, canonical_view,
}
use localthings.Registry.Subdevices.Defs.Hrefs.{
  IsOwn, to_canonical-to_actual, to_actual-to_canonical, to_canonical-to_actual,
}

-- No key twice, as in every Python dict.
abbrev pub IsDict {ℓ} : {V : Type ℓ} → Dict V → Type ℓ
IsDict [] = Unit
IsDict ((k, v) ∷ m) = (Dict.get m k ≡ none) × IsDict m

main_view_at :
    (resources : Dict Rep) (subdevices : List Subdevice) (href : String)
    → Dict.get (main_view resources subdevices) href
      ≡ (if any (λ s. owns s href) subdevices then none else Dict.get resources href)
unfolding main_view Dict.get
main_view_at [] subdevices href = ground arith
main_view_at ((k, rep) ∷ resources) subdevices href = elim (Bool-cases (k == href)) [
  | inl same ↦
      rw ((eq_iff k href).0 same)
        (ground (arith, eq_iff href href, main_view_at resources subdevices href))
  | inr other ↦ ground (arith, main_view_at resources subdevices href)
]

-- The main subdevice sees the resources that no other subdevice owns, and those unchanged.
pub get-canonical_view_main :
    (s : Subdevice) (resources : Dict Rep) (subdevices : List Subdevice) (href : String)
    → s.kind ≡ main
    → Dict.get (canonical_view s resources subdevices) href
      ≡ (if any (λ u. owns u href) subdevices then none else Dict.get resources href)
unfolding canonical_view view_of
get-canonical_view_main s resources subdevices href h =
    rw (h, view_of) (main_view_at resources subdevices href)

module _ (s : Subdevice) (c : String) (own : to_canonical s (to_actual s c) ≡ some c) where
  not_here : (actual : String) → to_canonical s actual ≡ none → (actual == to_actual s c) ≡ false
  not_here actual e = ground (arith, e, own, eq_iff actual (to_actual s c))

  same_iff :
      (actual canon : String)
      → to_canonical s actual ≡ some canon
      → (actual == to_actual s c) ≡ (canon == c)
  same_iff actual canon e = ground (
    arith,
    e,
    own,
    eq_iff actual (to_actual s c),
    eq_iff canon c,
    to_actual-to_canonical s actual canon e,
  )

  sub_view_at :
      (view resources : Dict Rep)
      → IsDict resources
      → Dict.get (sub_view s view resources) c
        ≡ or_else (Dict.get resources (to_actual s c)) (Dict.get view c)
  unfolding sub_view Dict.get
  sub_view_at view [] u = refl
  sub_view_at view ((actual, rep) ∷ resources) u = elim (Option-cases (to_canonical s actual)) [
    | inl e ↦ rw (e, sub_view) (ground (arith, not_here actual e, sub_view_at view resources u.1))
    | inr (canon, e) ↦
        rw (e, sub_view)
          (rw (sub_view_at (Dict.put view canon rep) resources u.1, get-put view canon c rep)
            (elim (Bool-cases (canon == c)) [
              | inl same ↦
                  let here : (actual == to_actual s c) ≡ true = same_iff actual canon e ∙ same in
                  let gone : Dict.get resources (to_actual s c) ≡ none =
                    ap (Dict.get resources) (sym ((eq_iff actual (to_actual s c)).0 here)) ∙ u.0 in
                  ground (arith, here, gone, same)
              | inr other ↦ ground (arith, same_iff actual canon e, other)
            ]))
  ]

nothing_else : (found : Option Rep) → or_else found none ≡ found
nothing_else none = refl
nothing_else (some rep) = refl

view_of_other :
    (k : Kind) (s : Subdevice) (resources : Dict Rep) (subdevices : List Subdevice)
    → k ≢ main
    → view_of k s resources subdevices ≡ sub_view s [] resources
unfolding view_of
view_of_other main s resources subdevices h = absurd (h refl)
view_of_other indexed s resources subdevices h = refl
view_of_other prefixed s resources subdevices h = refl

-- Of resources that name no href twice, a subdevice other than the main one sees, under a
-- canonical href of its own, the resource on the wire that the href stands for, and nothing where
-- there is none.
pub get-canonical_view_sub :
    (s : Subdevice) (resources : Dict Rep) (subdevices : List Subdevice) (href : String)
    → s.kind ≢ main
    → IsDict resources
    → IsOwn s.kind s.key href
    → Dict.get (canonical_view s resources subdevices) href ≡ Dict.get resources (to_actual s href)
unfolding canonical_view view_of Dict.get
get-canonical_view_sub s resources subdevices href h u own =
    rw (view_of_other s.kind s resources subdevices h) (
      sub_view_at s href (to_canonical-to_actual s href own) [] resources u
      ∙ nothing_else (Dict.get resources (to_actual s href)))
