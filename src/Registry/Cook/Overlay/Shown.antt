-- ===== src/Registry/Cook/Overlay/Shown.antt =====
-- What becomes of held values when the oven leaves idle, and what the overlay shows of them.
use localthings.Base.{
  String, true, false, Option, none, some, Rep, ◌≡◌, refl, ◌∙◌, inl, inr, ℤ, Bool-cases,
  Option-cases, arith, ◌⊎◌, ◌==◌,
}
use localthings.Base.Dict
use localthings.Base.Dict.{Dict}
use localthings.Registry.Cook.Fields.{items_field, rep_at, value_at, mode_href, temperatures_href}
use localthings.Registry.Cook.Specs.{Json}
use localthings.Registry.Cook.Views.{is_idle, declares_start, operation_href}
use localthings.Registry.Cook.Start.{Floats, refused, plan_start, not_supported, not_idle}
use localthings.Registry.Cook.Overlay.{
  desired_rows, overlay, show_mode, show_desired, show_time, view_of,
}
use localthings.Registry.Cook.Held.{Choices, HeldCook, holds, clear, expire, plan_choices, plan}

module _ {F : Type 0} (fl : Floats F) (j : Json) (resources : Dict Rep) where
  start_refused :
      (v : Choices F)
      → is_idle resources ≡ false
      → (plan_choices fl j resources v true ≡ refused not_supported)
        ⊎ (plan_choices fl j resources v true ≡ refused not_idle)
  unfolding plan_choices plan_start
  start_refused v busy = elim (Bool-cases (declares_start j resources)) [
    | inl good ↦ inr (rw (good, busy, plan_start) refl)
    | inr bad ↦ inl (rw (bad, plan_start) refl)
  ]

  expire-busy :
      (held : HeldCook F) → is_idle resources ≡ false → holds (expire held resources).values ≡ false
  unfolding expire clear
  expire-busy held busy = elim (Bool-cases (holds held.values)) [
    | inl good ↦ ground (arith, good, busy)
    | inr bad ↦ ground (arith, bad)
  ]

  -- Once the oven is not idle, nothing is held any more: the overlay shows what the appliance
  -- reported, and a start is refused because the board has none or because the oven is not idle.
  pub overlay-busy :
      (held : HeldCook F)
      → is_idle resources ≡ false
      → (holds (overlay fl j held resources).0.values ≡ false)
        × ((overlay fl j held resources).1 ≡ resources)
        × (((plan fl j held resources).1 ≡ refused not_supported)
            ⊎ ((plan fl j held resources).1 ≡ refused not_idle))
  unfolding overlay plan
  overlay-busy held busy =
      let gone = expire-busy held busy in
      (gone, rw gone refl, start_refused (expire held resources).values busy)

  show_mode-frame :
      (mode : Option String) (view : Dict Rep) (href : String)
      → mode_href == href ≡ false
      → Dict.get (show_mode fl j mode view) href ≡ Dict.get view href
  unfolding show_mode
  show_mode-frame none view href other = refl
  show_mode-frame (some mode) view href other = elim (Option-cases (Dict.get view mode_href)) [
    | inl missing ↦ rw (missing, show_mode) refl
    | inr (rep, found) ↦ elim (Bool-cases (mode == "")) [
      | inl good ↦ rw (found, good, show_mode) refl
      | inr bad ↦ rw (found, bad, show_mode) (Dict.get-put view mode_href href _ ∙ rw other refl)
    ]
  ]

  show_desired-frame :
      (text : Option String) (view : Dict Rep) (href : String)
      → temperatures_href == href ≡ false
      → Dict.get (show_desired fl j text view) href ≡ Dict.get view href
  unfolding show_desired
  show_desired-frame none view href other = refl
  show_desired-frame (some text) view href other =
      elim (Option-cases
        (desired_rows fl j text (value_at (rep_at view temperatures_href) items_field))) [
          | inl missing ↦ rw (missing, show_desired) refl
          | inr (rows, found) ↦
              rw (found, show_desired) (Dict.get-put view temperatures_href href _ ∙ rw other refl)
        ]

  show_time-frame :
      (seconds : Option ℤ) (view : Dict Rep) (href : String)
      → operation_href == href ≡ false
      → Dict.get (show_time fl j seconds view) href ≡ Dict.get view href
  unfolding show_time
  show_time-frame none view href other = refl
  show_time-frame (some seconds) view href other =
      elim (Option-cases (Dict.get view operation_href)) [
        | inl missing ↦ rw (missing, show_time) refl
        | inr (rep, found) ↦
            rw (found, show_time) (Dict.get-put view operation_href href _ ∙ rw other refl)
      ]

  view_of-frame :
      (v : Choices F) (href : String)
      → mode_href == href ≡ false
      → temperatures_href == href ≡ false
      → operation_href == href ≡ false
      → Dict.get (view_of fl j resources v) href ≡ Dict.get resources href
  unfolding view_of
  view_of-frame v href m t o =
      show_time-frame _ _ href o ∙ show_desired-frame _ _ href t ∙ show_mode-frame _ _ href m

  -- The overlay rewrites no resource but those of the mode, the temperatures and the operation.
  get-overlay :
      (held : HeldCook F) (href : String)
      → mode_href == href ≡ false
      → temperatures_href == href ≡ false
      → operation_href == href ≡ false
      → Dict.get (overlay fl j held resources).1 href ≡ Dict.get resources href
  unfolding overlay
  get-overlay held href m t o = elim (Bool-cases (holds (expire held resources).values)) [
    | inl good ↦ rw good (view_of-frame (expire held resources).values href m t o)
    | inr bad ↦ rw bad refl
  ]
