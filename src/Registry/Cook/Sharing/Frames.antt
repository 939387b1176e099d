-- ===== src/Registry/Cook/Sharing/Frames.antt =====
-- What the remembered modeSpecs and the shared one change of the resources.
use localthings.Base.{
  String, true, false, not, Option, none, some, List, [], ◌∷◌, Rep, Value, ◌≡◌, refl, ◌∙◌, inl, inr,
  Bool-cases, Option-cases, arith, ◌==◌, eq_iff, if◌then◌else◌, all, fold,
}
use localthings.Base.Dict
use localthings.Base.Dict.{Dict}
use localthings.Registry.Cook.Fields.{mode_spec_field, mode_href, value_at, rep_at}
use localthings.Registry.Cook.Specs.{Json, has_entries, spec_entries}
use localthings.Registry.Cook.Sharing.{
  offered_modes, tagged_modes, supported_modes_field, list_of, share_entries, Shared,
  reports_mode_spec, filled_with, with_cached_specs, share_one, without_lower, share_mode_spec,
}

module _ (j : Json) where
  get-filled_with :
      (resources : Dict Rep) (cached : Dict Value) (href : String) (rep : Rep)
      → Dict.get resources href ≡ some rep
      → Dict.get (filled_with j resources cached) href ≡ (
          if reports_mode_spec j rep then none else elim (Dict.get cached href) [
            | none ↦ none
            | some spec ↦ some (Dict.put rep mode_spec_field spec)
          ])
  unfolding filled_with Dict.get
  get-filled_with resources [] href rep e = ground arith
  get-filled_with resources ((k, spec) ∷ cached) href rep e =
      let rest = get-filled_with resources cached href rep e in
      elim (Bool-cases (k == href)) [
        | inl same ↦
            let e' : Dict.get resources k ≡ some rep = rw ((eq_iff k href).0 same) e in
            elim (Bool-cases (reports_mode_spec j rep)) [
              | inl good ↦ ground (arith, same, good, e', rest)
              | inr bad ↦ ground (arith, same, bad, e', rest)
            ]
        | inr other ↦ elim (Option-cases (Dict.get resources k)) [
          | inl missing ↦ ground (arith, other, missing, rest)
          | inr (r, found) ↦ elim (Bool-cases (reports_mode_spec j r)) [
            | inl good ↦ ground (arith, other, found, good, rest)
            | inr bad ↦ ground (arith, other, found, bad, rest)
          ]
        ]
      ]

  get-filled_none :
      (resources : Dict Rep) (cached : Dict Value) (href : String)
      → Dict.get resources href ≡ none
      → Dict.get (filled_with j resources cached) href ≡ none
  unfolding filled_with Dict.get
  get-filled_none resources [] href e = refl
  get-filled_none resources ((k, spec) ∷ cached) href e =
      let rest = get-filled_none resources cached href e in
      elim (Bool-cases (k == href)) [
        | inl same ↦
            let e' : Dict.get resources k ≡ none = rw ((eq_iff k href).0 same) e in
            ground (arith, e', rest)
        | inr other ↦ elim (Option-cases (Dict.get resources k)) [
          | inl missing ↦ ground (arith, other, missing, rest)
          | inr (r, found) ↦ elim (Bool-cases (reports_mode_spec j r)) [
            | inl good ↦ ground (arith, other, found, good, rest)
            | inr bad ↦ ground (arith, other, found, bad, rest)
          ]
        ]
      ]

  -- A resource whose own modeSpec has no entries gets the remembered one, if there is one; every
  -- other resource stays as it is, and none is added.
  get-with_cached_specs :
      (resources : Dict Rep) (cached : Dict Value) (href : String)
      → Dict.get (with_cached_specs j resources cached) href ≡ elim (Dict.get resources href) [
        | none ↦ none
        | some rep ↦
            if has_entries j (value_at rep mode_spec_field)
            then some rep
            else elim (Dict.get cached href) [
              | none ↦ some rep
              | some spec ↦ some (Dict.put rep mode_spec_field spec)
            ]
      ]
  unfolding with_cached_specs reports_mode_spec
  get-with_cached_specs resources cached href = elim (Option-cases (Dict.get resources href)) [
    | inl missing ↦ ground (
      arith,
      missing,
      Dict.get-merge resources (filled_with j resources cached) href,
      get-filled_none resources cached href missing,
    )
    | inr (rep, found) ↦ ground (
      arith,
      found,
      Dict.get-merge resources (filled_with j resources cached) href,
      get-filled_with resources cached href rep found,
    )
  ]

  share_one-frame :
      (resources : Dict Rep) (spec : Value) (tagged : List String) (offered : List Value)
      (acc : Shared) (to_actual : String → String) (href : String)
      → to_actual mode_href == href ≡ false
      → Dict.get (share_one j resources spec tagged offered acc to_actual).shared href
        ≡ Dict.get acc.shared href
  unfolding share_one
  share_one-frame resources spec tagged offered acc to_actual href other =
      elim (Option-cases (Dict.get resources (to_actual mode_href))) [
        | inl missing ↦ rw (missing, share_one) refl
        | inr (rep, found) ↦ elim (Bool-cases (reports_mode_spec j rep)) [
          | inl good ↦ rw (found, good, share_one) refl
          | inr bad ↦
              rw (found, bad, share_one)
                (Dict.get-put acc.shared (to_actual mode_href) href _ ∙ rw other refl)
        ]
      ]

  siblings-frame :
      (resources : Dict Rep) (spec : Value) (tagged : List String) (offered : List Value)
      (acc : Shared) (siblings : List (String → String)) (href : String)
      → all (λ to_actual. not (to_actual mode_href == href)) siblings ≡ true
      → Dict.get (fold (share_one j resources spec tagged offered) acc siblings).shared href
        ≡ Dict.get acc.shared href
  siblings-frame resources spec tagged offered acc [] href h = refl
  siblings-frame resources spec tagged offered acc (f ∷ fs) href h =
      siblings-frame resources spec tagged offered (share_one j resources spec tagged offered acc f)
        fs href (ground (arith, h))
      ∙ share_one-frame resources spec tagged offered acc f href (ground (arith, h))

  without_lower-frame :
      (main : Rep) (tagged : List String) (live : Option (List Value)) (acc : Shared)
      (href : String)
      → mode_href == href ≡ false
      → Dict.get (without_lower j main tagged live acc) href ≡ Dict.get acc.shared href
  unfolding without_lower
  without_lower-frame main tagged none acc href other = refl
  without_lower-frame main tagged (some live) acc href other = elim (Bool-cases acc.zoned) [
    | inl good ↦ rw good (Dict.get-put acc.shared mode_href href _ ∙ rw other refl)
    | inr bad ↦ rw bad refl
  ]

  entries-frame :
      (resources : Dict Rep) (siblings : List (String → String)) (es : List Value) (href : String)
      → mode_href == href ≡ false
      → all (λ to_actual. not (to_actual mode_href == href)) siblings ≡ true
      → Dict.get (share_entries j resources siblings es) href ≡ Dict.get resources href
  unfolding share_entries
  entries-frame resources siblings [] href other others = refl
  entries-frame resources siblings (e ∷ es) href other others =
      let main = rep_at resources mode_href in
      let spec = value_at main mode_spec_field in
      let live = list_of (value_at main supported_modes_field) in
      let tagged = tagged_modes (e ∷ es) in
      let offered = offered_modes tagged live in
      let start : Shared = record { shared = resources; copied = false; zoned = false } in
      let done = fold (share_one j resources spec tagged offered) start siblings in
      elim (Bool-cases done.copied) [
        | inl good ↦ rw good (
            without_lower-frame main tagged live done href other
            ∙ siblings-frame resources spec tagged offered start siblings href others)
        | inr bad ↦ rw bad refl
      ]

  -- Sharing the modeSpec changes the mode resources of the cavities only: every other resource reads
  -- as before.
  get-share_mode_spec :
      (resources : Dict Rep) (siblings : List (String → String)) (href : String)
      → mode_href == href ≡ false
      → all (λ to_actual. not (to_actual mode_href == href)) siblings ≡ true
      → Dict.get (share_mode_spec j resources siblings) href ≡ Dict.get resources href
  unfolding share_mode_spec
  get-share_mode_spec resources siblings href other others =
      entries-frame resources siblings
        (spec_entries j (value_at (rep_at resources mode_href) mode_spec_field)) href other others
