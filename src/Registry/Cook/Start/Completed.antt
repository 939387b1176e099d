-- ===== src/Registry/Cook/Start/Completed.antt =====
-- A start that is accepted before it is complete, once it is to be sent.
use localthings.Base.{
  ℕ, String, true, false, Option, none, some, Rep, ◌≡◌, refl, inl, inr, ℤ, Option-cases, arith, ◌⊎◌,
}
use localthings.Base.Dict.{Dict}
use localthings.Registry.Cook.Fields.{device_unit, unit_key}
use localthings.Registry.Cook.Specs.{Json, TempSpec, ModeSpec}
use localthings.Registry.Cook.Views.{step_of, temp_for}
use localthings.Registry.Cook.Start.{
  CookStartError, Number, Floats, Checked, accepted, refused, CookPlan, choose_temperature,
  check_temperature, check_duration, check_seconds, seconds_or_default, plan_start, plan_mode, fill,
  temperature_required, duration_required,
}
use localthings.Registry.Cook.Start.Passed.{passed, accepts}

-- the result of a check that is complete, beside one that was not
abbrev Asks : {A : Type 0} → CookStartError → Checked A → A → Type 0
Asks e c a = (c ≡ accepted a) ⊎ (c ≡ refused e)

check_duration-Asks :
    (spec : ModeSpec) (duration : Option ℤ) (d : Option ℤ)
    → check_duration spec duration false ≡ accepted d
    → Asks duration_required (check_duration spec duration true) d
unfolding check_duration check_seconds seconds_or_default
check_duration-Asks spec duration d h = ground (arith, h)

module _ {F : Type 0} (fl : Floats F) where
  check_temperature-Asks :
      (temp : TempSpec) (n : ℕ) (x : Option (Number F)) (t : Option ℤ)
      → check_temperature fl temp n x false ≡ accepted t
      → Asks temperature_required (check_temperature fl temp n x true) t
  unfolding check_temperature
  check_temperature-Asks temp n none t h = ground (arith, h)
  check_temperature-Asks temp n (some x) t h = inl h

  module _ (j : Json) (resources : Dict Rep) where
    choose_temperature-Asks :
        (spec : ModeSpec) (x : Option (Number F)) (t : Option ℤ)
        → choose_temperature fl j resources spec x false ≡ accepted t
        → Asks temperature_required (choose_temperature fl j resources spec x true) t
    unfolding choose_temperature
    choose_temperature-Asks spec x t h =
        elim (Option-cases (temp_for (some spec) (unit_key (device_unit resources)))) [
          | inl missing ↦
              inl (rw (missing, choose_temperature) (rw (missing, choose_temperature) at h))
          | inr (temp, q) ↦
              rw (q, choose_temperature)
                (check_temperature-Asks temp (step_of j temp resources) x t
                  (rw (q, choose_temperature) at h))
        ]

    -- A start that is accepted before it is complete gives the same plan once it is to be sent, or
    -- is refused then for a setpoint or a cook time that is not chosen, and for nothing else.
    pub plan_start-asks :
        (mode : Option String) (temperature : Option (Number F)) (duration : Option ℤ)
        (plan : CookPlan)
        → plan_start fl j resources mode temperature duration false ≡ accepted plan
        → (plan_start fl j resources mode temperature duration true ≡ accepted plan)
          ⊎ (plan_start fl j resources mode temperature duration true
              ≡ refused temperature_required)
          ⊎ (plan_start fl j resources mode temperature duration true ≡ refused duration_required)
    unfolding plan_start plan_mode fill
    plan_start-asks mode temperature duration plan h =
        let p = passed fl j resources mode temperature duration false plan h in
        elim (choose_temperature-Asks p.spec temperature plan.temperature p.target) [
          | inr missing ↦
              inr
                (inl (rw (p.declared, p.idle, plan_mode, p.chosen, p.checked, fill, missing) refl))
          | inl target ↦ elim (check_duration-Asks p.spec duration plan.duration p.seconds) [
            | inr missing ↦ inr (
                inr (
                  rw (p.declared, p.idle, plan_mode, p.chosen, p.checked, fill, target, missing)
                    refl))
            | inl seconds ↦ inl (
                accepts fl j resources mode temperature duration true plan (record {
                  spec = p.spec;
                  declared = p.declared;
                  idle = p.idle;
                  chosen = p.chosen;
                  checked = p.checked;
                  target = target;
                  seconds = seconds;
                  unit = p.unit;
                }))
          ]
        ]
