-- ===== src/Registry/Cook/Start/Modeless.antt =====
-- A start that is refused for want of a mode.
use localthings.Base.{
  String, Bool, true, Option, Rep, ◌≡◌, refl, inl, inr, ℤ, Bool-cases, arith, List,
}
use localthings.Base.Dict.{Dict}
use localthings.Registry.Cook.Specs.{Json, ModeSpec, mode_specs}
use localthings.Registry.Cook.Views.{is_idle, declares_start, startable_modes}
use localthings.Registry.Cook.Start.{
  Number, Floats, refused, choose_temperature, check_temperature, check_duration, check_seconds,
  seconds_or_default, at_step, plan_start, plan_mode, fill, choose_mode, check_mode, mode_required,
}
use localthings.Registry.Cook.Start.Passed.{Checked-cases}

duration-not_modeless :
    (spec : ModeSpec) (duration : Option ℤ) (complete : Bool)
    → check_duration spec duration complete ≡ refused mode_required
    → ⊥
unfolding check_duration check_seconds seconds_or_default
duration-not_modeless spec duration complete h = ground (arith, h)

mode-not_modeless :
    (specs : Dict ModeSpec) (names : List String) (mode : String)
    → check_mode specs names mode ≡ refused mode_required
    → ⊥
unfolding check_mode
mode-not_modeless specs names mode h = ground (arith, h)

module _ {F : Type 0} (fl : Floats F) (j : Json) (resources : Dict Rep) where
  temperature-not_modeless :
      (spec : ModeSpec) (x : Option (Number F)) (complete : Bool)
      → choose_temperature fl j resources spec x complete ≡ refused mode_required
      → ⊥
  unfolding choose_temperature check_temperature at_step
  temperature-not_modeless spec x complete h = ground (arith, h)

  fill-not_modeless :
      (name : String) (spec : ModeSpec) (x : Option (Number F)) (d : Option ℤ) (complete : Bool)
      → fill fl j resources name spec x d complete ≡ refused mode_required
      → ⊥
  unfolding fill
  fill-not_modeless name spec x d complete h =
      elim (Checked-cases (choose_temperature fl j resources spec x complete)) [
        | inr (e, bad) ↦ temperature-not_modeless spec x complete (ground (arith, bad, h))
        | inl (t, good) ↦ elim (Checked-cases (check_duration spec d complete)) [
          | inr (e, bad) ↦ duration-not_modeless spec d complete (ground (arith, good, bad, h))
          | inl (s, good2) ↦ ground (arith, good, good2, h)
        ]
      ]

  plan_mode-modeless :
      (mode : Option String) (x : Option (Number F)) (d : Option ℤ) (complete : Bool)
      → plan_mode fl j resources mode x d complete ≡ refused mode_required
      → choose_mode resources (startable_modes j resources) mode ≡ refused mode_required
  unfolding plan_mode
  plan_mode-modeless mode x d complete h =
      let names = startable_modes j resources in
      elim (Checked-cases (choose_mode resources names mode)) [
        | inr (e, bad) ↦ ground (arith, bad, h)
        | inl (name, good) ↦ elim (Checked-cases (check_mode (mode_specs j resources) names name)) [
          | inr (e, bad) ↦
              absurd (
                mode-not_modeless (mode_specs j resources) names name
                  (ground (arith, good, bad, h)))
          | inl (spec, good2) ↦
              absurd (fill-not_modeless name spec x d complete (rw (good, good2, plan_mode) at h))
        ]
      ]

  -- A start that is refused for want of a mode is one on an idle oven, and it stays refused for that
  -- whatever setpoint and cook time are chosen, complete or not.
  pub plan_start-modeless :
      (mode : Option String) (x x' : Option (Number F)) (d d' : Option ℤ)
      (complete complete' : Bool)
      → plan_start fl j resources mode x d complete ≡ refused mode_required
      → (is_idle resources ≡ true)
        × (plan_start fl j resources mode x' d' complete' ≡ refused mode_required)
  unfolding plan_start plan_mode
  plan_start-modeless mode x x' d d' complete complete' h =
      elim (Bool-cases (declares_start j resources)) [
        | inr bad ↦ absurd (ground (arith, bad, h))
        | inl good ↦ elim (Bool-cases (is_idle resources)) [
          | inr bad ↦ absurd (ground (arith, good, bad, h))
          | inl good2 ↦
              let e = plan_mode-modeless mode x d complete (rw (good, good2, plan_start) at h) in
              (good2, rw (good, good2, plan_mode, e) refl)
        ]
      ]
