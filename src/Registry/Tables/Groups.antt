-- ===== src/Registry/Tables/Groups.antt =====
-- What a table of capabilities holds under an href.
use localthings.Base.{
  String, Bool, true, false, not, ◌&&◌, ◌≡◌, refl, sym, ap, ◌∙◌, Option, none, some, List, [], ◌∷◌,
  ◌++◌, keep, all, default, is_some, arith, ◌==◌, eq_iff, if◌then◌else◌, Option-cases, Bool-cases,
  inl, inr, append_assoc, append-nil,
}
use localthings.Base.Dict
use localthings.Base.Dict.{Dict, get-put}
use localthings.Registry.Capability.{Capability}
use localthings.Registry.Tables.{
  Table, Built, table, refused, append_cap, is_ambiguous, any_ambiguous, validated, global_groups,
  build_global, typed_groups, check_groups, build_typed,
}

abbrev is_text : String → Option String → Bool
is_text href none = false
is_text href (some h) = h == href

-- the capability names this href
abbrev pub is_at : String → Capability → Bool
is_at href cap = is_text href cap.href

abbrev pub group : Table → String → List Capability
group out href = default [] (Dict.get out href)

group-append_cap :
    (out : Table) (href j : String) (cap : Capability)
    → group (append_cap out href cap) j ≡ group out j ++ (if href == j then cap ∷ [] else [])
unfolding append_cap
group-append_cap out href j cap = elim (Bool-cases (href == j)) [
  | inl e ↦ rw (get-put out href j (group out href ++ cap ∷ []), e, (eq_iff href j).0 e) refl
  | inr e ↦ rw (get-put out href j (group out href ++ cap ∷ []), e) (sym (append-nil (group out j)))
]

one_more :
    (b : Bool) (xs rest : List Capability) (cap : Capability)
    → (xs ++ (if b then cap ∷ [] else [])) ++ rest ≡ xs ++ (if b then cap ∷ rest else rest)
one_more true xs rest cap = append_assoc xs (cap ∷ []) rest
one_more false xs rest cap = append_assoc xs [] rest

group-global_groups :
    (out : Table) (caps : List Capability) (j : String)
    → group (global_groups out caps) j ≡ group out j ++ keep (is_at j) caps
unfolding global_groups
group-global_groups out [] j = sym (append-nil (group out j))
group-global_groups out (cap ∷ caps) j = elim (Option-cases cap.href) [
  | inl e ↦ ground (arith, e, group-global_groups out caps j)
  | inr (href, e) ↦ ground (
    arith,
    e,
    group-global_groups (append_cap out href cap) caps j,
    group-append_cap out href j cap,
    one_more (href == j) (group out j) (keep (is_at j) caps) cap,
  )
]

-- every capability names an href, and none a prefix
abbrev pub is_fixed : Capability → Bool
is_fixed cap = is_some cap.href && not (is_some cap.href_prefix)

group-typed_groups :
    (out built : Table) (caps : List Capability) (j : String)
    → typed_groups out caps ≡ table built
    → (group built j ≡ group out j ++ keep (is_at j) caps) × (all is_fixed caps ≡ true)
unfolding typed_groups
group-typed_groups out built [] j h = ground (arith, h, append-nil (group out j))
group-typed_groups out built (cap ∷ caps) j h = elim (Option-cases cap.href) [
  | inl e ↦ absurd (ground (arith, e, h))
  | inr (href, e) ↦ ground (
    arith,
    e,
    h,
    group-typed_groups (append_cap out href cap) built caps j,
    group-append_cap out href j cap,
    one_more (href == j) (group out j) (keep (is_at j) caps) cap,
  )
]

group_clear :
    (out : Table) (j : String) → any_ambiguous out ≡ false → is_ambiguous (group out j) ≡ false
unfolding any_ambiguous is_ambiguous Dict.get
group_clear [] j h = refl
group_clear ((href, caps) ∷ out) j h = ground (arith, h, group_clear out j)

validated_sound :
    (out built : Table) → validated out ≡ table built → (out ≡ built) × (any_ambiguous out ≡ false)
unfolding validated
validated_sound out built h = ground (arith, h)

-- A global table that is built holds under each href the capabilities that name it, in their
-- order, and no ambiguous group.
pub build_global-group :
    (caps : List Capability) (built : Table) (href : String)
    → build_global caps ≡ table built
    → (group built href ≡ keep (is_at href) caps) × (is_ambiguous (keep (is_at href) caps) ≡ false)
unfolding build_global Dict.get
build_global-group caps built href h =
    let v = validated_sound (global_groups [] caps) built h in
    let here = group-global_groups [] caps href in
    (
      ap (λ t. group t href) (sym v.0) ∙ here,
      ap is_ambiguous (sym here) ∙ group_clear (global_groups [] caps) href v.1,
    )

check_groups_sound :
    (b : Built) (built : Table)
    → check_groups b ≡ table built
    → (b ≡ table built) × (any_ambiguous built ≡ false)
unfolding check_groups
check_groups_sound (table out) built h =
    let v = validated_sound out built h in (ap table v.0, ap any_ambiguous (sym v.0) ∙ v.1)
check_groups_sound (refused r) built h = absurd (ground (arith, h))

-- A device type's table that is built comes from capabilities that each name an href and no
-- prefix. It holds under each href those that name it, in their order, and no ambiguous group.
pub build_typed-group :
    (caps : List Capability) (built : Table) (href : String)
    → build_typed caps ≡ table built
    → (group built href ≡ keep (is_at href) caps)
      × ((all is_fixed caps ≡ true) × (is_ambiguous (keep (is_at href) caps) ≡ false))
unfolding build_typed Dict.get
build_typed-group caps built href h =
    let v = check_groups_sound (typed_groups [] caps) built h in
    let here = group-typed_groups [] built caps href v.0 in
    (here.0, (here.1, ap is_ambiguous (sym here.0) ∙ group_clear built href v.1))
