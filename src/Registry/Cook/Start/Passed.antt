-- ===== src/Registry/Cook/Start/Passed.antt =====
-- The checks that a start has passed when plan_start accepts it.
use localthings.Base.{
  ◌⊎◌, String, Bool, true, Option, Rep, ◌≡◌, refl, sym, ap, ◌∙◌, inl, inr, ℤ, Bool-cases, arith,
}
use localthings.Base.Dict.{Dict}
use localthings.Registry.Cook.Fields.{device_unit}
use localthings.Registry.Cook.Specs.{Json, ModeSpec, mode_specs}
use localthings.Registry.Cook.Views.{is_idle, startable_modes, declares_start}
use localthings.Registry.Cook.Start.{
  Number, Floats, Checked, accepted, refused, CookPlan, choose_mode, check_mode, choose_temperature,
  check_duration, fill, plan_mode, plan_start, CookStartError,
}

pub accepted_inj : {A : Type 0} {a b : A} → ◌≡◌ {A = Checked A} (accepted a) (accepted b) → a ≡ b
accepted_inj h = ground (arith, h)

pub Checked-cases :
    {A : Type 0} (c : Checked A)
    → ((a : A) × (c ≡ accepted a)) ⊎ ((e : CookStartError) × (c ≡ refused e))
Checked-cases (accepted a) = inl (a, refl)
Checked-cases (refused e) = inr (e, refl)

module _ {F : Type 0} (fl : Floats F) (j : Json) (resources : Dict Rep) where
  pub record Passed (mode : Option String) (temperature : Option (Number F)) (duration : Option ℤ)
      (complete : Bool) (plan : CookPlan) : Type 0 where
    pub spec : ModeSpec
    pub declared : declares_start j resources ≡ true
    pub idle : is_idle resources ≡ true
    pub chosen : choose_mode resources (startable_modes j resources) mode ≡ accepted plan.mode
    pub checked :
        check_mode (mode_specs j resources) (startable_modes j resources) plan.mode ≡ accepted spec
    pub target :
        choose_temperature fl j resources spec temperature complete ≡ accepted plan.temperature
    pub seconds : check_duration spec duration complete ≡ accepted plan.duration
    pub unit : plan.unit ≡ device_unit resources

  fill-parts :
      (name : String) (spec : ModeSpec) (temperature : Option (Number F)) (duration : Option ℤ)
      (complete : Bool) (plan : CookPlan)
      → fill fl j resources name spec temperature duration complete ≡ accepted plan
      → (name ≡ plan.mode)
        × (choose_temperature fl j resources spec temperature complete ≡ accepted plan.temperature)
        × (check_duration spec duration complete ≡ accepted plan.duration)
        × (plan.unit ≡ device_unit resources)
  unfolding fill
  fill-parts name spec temperature duration complete plan h =
      elim (Checked-cases (choose_temperature fl j resources spec temperature complete)) [
        | inr (e, bad) ↦ absurd (ground (arith, bad, h))
        | inl (t, good) ↦ elim (Checked-cases (check_duration spec duration complete)) [
          | inr (e, bad) ↦ absurd (ground (arith, good, bad, h))
          | inl (d, good2) ↦
              let same = accepted_inj (rw (good, good2, fill) at h) in
              (
                ap CookPlan.mode same,
                good ∙ ap (λ q. accepted (CookPlan.temperature q)) same,
                good2 ∙ ap (λ q. accepted (CookPlan.duration q)) same,
                sym (ap CookPlan.unit same),
              )
        ]
      ]

  module _ (mode : Option String) (temperature : Option (Number F)) (duration : Option ℤ)
      (complete : Bool) (plan : CookPlan) where
    plan_mode-Passed :
        plan_mode fl j resources mode temperature duration complete ≡ accepted plan
        → declares_start j resources ≡ true
        → is_idle resources ≡ true
        → Passed mode temperature duration complete plan
    unfolding plan_mode
    plan_mode-Passed h d i =
        let names = startable_modes j resources in
        elim (Checked-cases (choose_mode resources names mode)) [
          | inr (e, bad) ↦ absurd (ground (arith, bad, h))
          | inl (name, good) ↦
              elim (Checked-cases (check_mode (mode_specs j resources) names name)) [
                | inr (e, bad) ↦ absurd (ground (arith, good, bad, h))
                | inl (spec, good2) ↦
                    let filled =
                      fill-parts name spec temperature duration complete plan
                        (rw (good, good2, plan_mode) at h) in
                    record {
                      spec = spec;
                      declared = d;
                      idle = i;
                      chosen = good ∙ ap accepted filled.0;
                      checked = rw (← filled.0) good2;
                      target = filled.1;
                      seconds = filled.2;
                      unit = filled.3;
                    }
              ]
        ]

    pub passed :
        plan_start fl j resources mode temperature duration complete ≡ accepted plan
        → Passed mode temperature duration complete plan
    unfolding plan_start
    passed h = elim (Bool-cases (declares_start j resources)) [
      | inr bad ↦ absurd (ground (arith, bad, h))
      | inl good ↦ elim (Bool-cases (is_idle resources)) [
        | inr bad ↦ absurd (ground (arith, good, bad, h))
        | inl good2 ↦ plan_mode-Passed (rw (good, good2, plan_start) at h) good good2
      ]
    ]

    pub accepts :
        Passed mode temperature duration complete plan
        → plan_start fl j resources mode temperature duration complete ≡ accepted plan
    unfolding plan_start plan_mode fill
    accepts p =
        rw (p.declared, p.idle, plan_mode, p.chosen, p.checked, fill, p.target, p.seconds, ← p.unit)
          refl
