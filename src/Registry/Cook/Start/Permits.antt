-- ===== src/Registry/Cook/Start/Permits.antt =====
-- Which plans a board's declaration permits, and that plan_start accepts no other.
use localthings.Base.{
  ℕ, String, Bool, true, false, not, ◌&&◌, ◌||◌, Option, none, some, List, [], ◌∷◌, Rep, ◌≡◌, sym,
  ap, ◌∙◌, inl, inr, ℤ, pos, Bool-cases, Option-cases, arith, mem, default,
}
use localthings.Base.Dict
use localthings.Base.Dict.{Dict}
use localthings.Base.Int.{leb_ℤ, mem_ℤ, eqb_ℤ}
use localthings.Registry.Cook.Fields.{device_unit, unit_key}
use localthings.Registry.Cook.Specs.{Json, TempSpec, ModeSpec, startable, mode_specs}
use localthings.Registry.Cook.Views.{is_idle, startable_modes, step_of, temp_for}
use localthings.Registry.Cook.Start.{
  Number, Floats, accepted, CookPlan, check_mode, choose_temperature, check_temperature,
  check_duration, check_seconds, seconds_or_default, at_step, plan_start,
}
use localthings.Registry.Cook.Start.Passed.{accepted_inj, passed}

-- The setpoint is the mode's default, one of its choices where it has any, and within its range
-- where it has none.
abbrev pub permits_setpoint : TempSpec → ℤ → Bool
permits_setpoint temp t =
    elim temp.default_ [ none ↦ false | some d ↦ eqb_ℤ d t ] || elim temp.choices [
      | [] ↦ leb_ℤ temp.minimum t && leb_ℤ t temp.maximum
      | c ∷ cs ↦ mem_ℤ t (c ∷ cs)
    ]

-- A mode without a temperature gets none; a complete start of another has one.
abbrev pub permits_temperature : Option TempSpec → Bool → Option ℤ → Bool
permits_temperature none complete none = true
permits_temperature none complete (some t) = false
permits_temperature (some temp) complete none = not complete
permits_temperature (some temp) complete (some t) = permits_setpoint temp t

-- A mode without a longest time gets none; another's lies between its shortest and longest, and is
-- left out of a complete start only where the mode allows it.
abbrev pub permits_duration : ModeSpec → Bool → Option ℤ → Bool
permits_duration spec complete none = elim spec.time_max [
  | none ↦ true
  | some limit ↦ not complete || spec.time_optional
]
permits_duration spec complete (some seconds) = elim spec.time_max [
  | none ↦ false
  | some limit ↦ leb_ℤ (pos (default 0 spec.time_min)) seconds && leb_ℤ seconds (pos limit)
]

module _ (j : Json) where
  -- The oven is idle, the mode is declared startable and offered now, and its setpoint and time are
  -- within its declaration.
  abbrev pub permits : Dict Rep → Bool → CookPlan → Bool
  permits resources complete plan = elim (Dict.get (mode_specs j resources) plan.mode) [
    | none ↦ false
    | some spec ↦
        is_idle resources
        && (startable spec
            && (mem plan.mode (startable_modes j resources)
                && (permits_temperature (temp_for (some spec) (unit_key (device_unit resources)))
                      complete plan.temperature
                    && permits_duration spec complete plan.duration)))
  ]

pub mode-permitted :
    (specs : Dict ModeSpec) (names : List String) (mode : String) (spec : ModeSpec)
    → check_mode specs names mode ≡ accepted spec
    → (Dict.get specs mode ≡ some spec) × (startable spec ≡ true) × (mem mode names ≡ true)
unfolding check_mode
mode-permitted specs names mode spec h = elim (Option-cases (Dict.get specs mode)) [
  | inl missing ↦ absurd (ground (arith, missing, h))
  | inr (found, e) ↦ elim (Bool-cases (startable found)) [
    | inr bad ↦ absurd (ground (arith, e, bad, h))
    | inl good ↦ elim (Bool-cases (mem mode names)) [
      | inr bad ↦ absurd (ground (arith, e, good, bad, h))
      | inl good2 ↦
          let same = accepted_inj {a = found} {b = spec} (rw (e, good, good2, check_mode) at h) in
          (e ∙ ap some same, ap startable (sym same) ∙ good, good2)
    ]
  ]
]

duration-permitted :
    (spec : ModeSpec) (duration : Option ℤ) (complete : Bool) (d : Option ℤ)
    → check_duration spec duration complete ≡ accepted d
    → permits_duration spec complete d ≡ true
unfolding check_duration check_seconds seconds_or_default
duration-permitted spec duration complete d h = ground (arith, h)

module _ {F : Type 0} (fl : Floats F) where
  setpoint-permitted :
      (temp : TempSpec) (n : ℕ) (x : Option (Number F)) (complete : Bool) (t : Option ℤ)
      → check_temperature fl temp n x complete ≡ accepted t
      → permits_temperature (some temp) complete t ≡ true
  unfolding check_temperature at_step
  setpoint-permitted temp n x complete t h = ground (arith, h)

  module _ (j : Json) (resources : Dict Rep) where
    chosen-permitted :
        (spec : ModeSpec) (x : Option (Number F)) (complete : Bool) (t : Option ℤ)
        → choose_temperature fl j resources spec x complete ≡ accepted t
        → permits_temperature (temp_for (some spec) (unit_key (device_unit resources))) complete t
          ≡ true
    unfolding choose_temperature
    chosen-permitted spec x complete t h =
        elim (Option-cases (temp_for (some spec) (unit_key (device_unit resources)))) [
          | inl missing ↦ rw missing (ground (arith, missing, h))
          | inr (temp, e) ↦ rw e (
              setpoint-permitted temp (step_of j temp resources) x complete t
                (rw (e, choose_temperature) at h))
        ]

    -- A plan that plan_start accepts is one that the board's declaration permits: the oven is idle,
    -- the mode is declared startable and offered now, the setpoint is the mode's default or one of
    -- its choices or within its range, and the time is within its limits; a setpoint or a time is
    -- left out only where the declaration lets it be, or where the start is checked before it is
    -- complete.
    pub plan_start-permits :
        (mode : Option String) (temperature : Option (Number F)) (duration : Option ℤ)
        (complete : Bool) (plan : CookPlan)
        → plan_start fl j resources mode temperature duration complete ≡ accepted plan
        → permits j resources complete plan ≡ true
    plan_start-permits mode temperature duration complete plan h =
        let p = passed fl j resources mode temperature duration complete plan h in
        let m =
          mode-permitted (mode_specs j resources) (startable_modes j resources) plan.mode p.spec
            p.checked in
        ground (
          arith,
          m.0,
          p.idle,
          m.1,
          m.2,
          chosen-permitted p.spec temperature complete plan.temperature p.target,
          duration-permitted p.spec duration complete plan.duration p.seconds,
        )
