-- ===== src/Registry/Cook/Start/Again.antt =====
-- A start that is planned again from the values of its plan.
use localthings.Base.{
  default, ℕ, zero, suc, ◌+◌, ◌*◌, ◌≤◌, String, Bool, true, Option, none, some, List, [], ◌∷◌, Rep,
  ◌≡◌, refl, sym, inl, inr, ℤ, pos, negsuc, Bool-cases, Option-cases, arith, leb, ◌-◌,
}
use localthings.Base.Dict
use localthings.Base.Dict.{Dict}
use localthings.Base.Int.{leb_ℤ, mem_ℤ, ◌+ℤ◌, times, up, down}
use localthings.Registry.Cook.Fields.{temp_item, value_at, device_unit, unit_key, above_zero}
use localthings.Registry.Cook.Specs.{int_or_none, Json, TempSpec, ModeSpec, mode_specs}
use localthings.Registry.Cook.Specs.Ranges.{is_range, mode_specs-ranges}
use localthings.Registry.Cook.Views.{startable_modes, step_of, temp_for}
use localthings.Registry.Cook.Start.{
  temperature_not_supported, Number, whole, Floats, Checked, accepted, refused, CookPlan,
  choose_temperature, check_temperature, check_duration, check_seconds, seconds_or_default, at_step,
  round, plan_start,
}
use localthings.Registry.Cook.Start.Permits.{mode-permitted}
use localthings.Registry.Cook.Start.Passed.{passed, accepts, accepted_inj}
use localthings.Registry.Cook.Held.{normal_temperature, normal_duration}

-- `round((x - lo) / n)` of an x that is k steps of n above lo is k, where a float holds k * n.
abbrev pub IsExact : {F : Type 0} → Floats F → Type 0
IsExact fl =
    (lo : ℤ) (k n : ℕ)
    → 1 ≤ n
    → k * n ≤ 9007199254740992
    → fl.steps_above (whole (lo +ℤ pos (k * n))) lo n ≡ pos k

-- The ends of the range are no further apart than the integers that a float holds.
abbrev pub is_narrow : TempSpec → Bool
is_narrow t = leb (up t.maximum + down t.minimum) (up t.minimum + down t.maximum + 9007199254740992)

times_pos : (k n : ℕ) → times (pos k) n ≡ pos (k * n)
unfolding times
times_pos k n = ground arith

times_negsuc : (k n : ℕ) → 1 ≤ n → times (negsuc k) n ≡ negsuc (suc k * n - 1)
unfolding times
times_negsuc k n h = ground (arith, h)

rises : (x : ℤ) (m : ℕ) → leb_ℤ x (x +ℤ negsuc m) ≡ true → ⊥
unfolding ◌+ℤ◌
rises x m h = absurd (ground (arith, h))

within :
    (t : TempSpec) (m : ℕ)
    → is_narrow t ≡ true
    → leb_ℤ (t.minimum +ℤ pos m) t.maximum ≡ true
    → m ≤ 9007199254740992
unfolding ◌+ℤ◌
within t m narrow h = ground (arith, narrow, h)

above_zero-above : (o : Option ℤ) → 1 ≤ default 1 (above_zero o)
above_zero-above none = ground arith
above_zero-above (some (pos zero)) = ground arith
above_zero-above (some (pos (suc n))) = ground arith
above_zero-above (some (negsuc n)) = ground arith

module _ {F : Type 0} (fl : Floats F) (exact : IsExact fl) where
  steps_again :
      (temp : TempSpec) (n : ℕ) (k : ℤ)
      → 1 ≤ n
      → is_narrow temp ≡ true
      → leb_ℤ temp.minimum (temp.minimum +ℤ times k n) ≡ true
      → leb_ℤ (temp.minimum +ℤ times k n) temp.maximum ≡ true
      → fl.steps_above (whole (temp.minimum +ℤ times k n)) temp.minimum n ≡ k
  steps_again temp n (pos k) h narrow lo hi =
      rw (times_pos k n)
        (exact temp.minimum k n h (within temp (k * n) narrow (rw (times_pos k n) at hi)))
  steps_again temp n (negsuc k) h narrow lo hi =
      absurd (rises temp.minimum (suc k * n - 1) (rw (times_negsuc k n h) at lo))

  at_step_again :
      (temp : TempSpec) (n : ℕ) (x : Number F) (t : Option ℤ)
      → 1 ≤ n
      → is_narrow temp ≡ true
      → at_step fl temp n x ≡ accepted t
      → (v : ℤ) × (t ≡ some v) × (at_step fl temp n (whole v) ≡ accepted (some v))
  unfolding at_step
  at_step_again temp n x t h narrow e =
      let k = fl.steps_above x temp.minimum n in
      let v = temp.minimum +ℤ times k n in
      elim (Bool-cases (leb_ℤ temp.minimum v)) [
        | inr bad ↦ absurd (ground (arith, bad, e))
        | inl low ↦ elim (Bool-cases (leb_ℤ v temp.maximum)) [
          | inr bad ↦ absurd (ground (arith, low, bad, e))
          | inl high ↦ (
            v,
            sym (accepted_inj (rw (low, high, at_step) at e)),
            rw (steps_again temp n k h narrow low high, low, high) refl,
          )
        ]
      ]

  given_again :
      (temp : TempSpec) (n : ℕ) (x : Number F) (complete : Bool) (t : Option ℤ) (cs : List ℤ)
      → temp.choices ≡ cs
      → 1 ≤ n
      → is_narrow temp ≡ true
      → check_temperature fl temp n (some x) complete ≡ accepted t
      → (v : ℤ) × (t ≡ some v)
        × (check_temperature fl temp n (some (whole v)) complete ≡ accepted (some v))
  unfolding check_temperature round
  given_again temp n x complete t [] q h narrow e =
      let again = at_step_again temp n x t h narrow (ground (arith, q, e)) in
      (again.0, again.1, ground (arith, q, again.2))
  given_again temp n x complete t (c ∷ cs) q h narrow e =
      elim (Bool-cases (mem_ℤ (round fl x) (c ∷ cs))) [
        | inr bad ↦ absurd (ground (arith, q, bad, e))
        | inl good ↦ (round fl x, ground (arith, q, good, e), ground (arith, q, good))
      ]

  check_again :
      (temp : TempSpec) (n : ℕ) (x : Option (Number F)) (complete : Bool) (t : Option ℤ)
      → 1 ≤ n
      → is_narrow temp ≡ true
      → check_temperature fl temp n x complete ≡ accepted t
      → check_temperature fl temp n (normal_temperature x t) complete ≡ accepted t
  check_again temp n none complete t h narrow e = e
  check_again temp n (some x) complete t h narrow e =
      let again = given_again temp n x complete t temp.choices refl h narrow e in rw again.1 again.2

  duration_again :
      (spec : ModeSpec) (duration : Option ℤ) (complete : Bool) (d : Option ℤ)
      → check_duration spec duration complete ≡ accepted d
      → normal_duration duration d ≡ duration
  unfolding check_duration check_seconds seconds_or_default
  duration_again spec none complete d e = refl
  duration_again spec (some s) complete d e = ground (arith, e)

  step_of-above :
      (j : Json) (temp : TempSpec) (resources : Dict Rep)
      → is_range temp ≡ true
      → 1 ≤ step_of j temp resources
  unfolding step_of
  step_of-above j temp resources h = ground (
    arith,
    h,
    above_zero-above (int_or_none j (value_at (temp_item resources) "x.com.samsung.da.increment")),
  )

  none_again :
      (x : Option (Number F)) (t : Option ℤ)
      → elim x as (λ y. Checked (Option ℤ)) [
        | none ↦ accepted none
        | some y ↦ refused temperature_not_supported
      ]
        ≡ accepted t
      → elim (normal_temperature x t) as (λ y. Checked (Option ℤ)) [
        | none ↦ accepted none
        | some y ↦ refused temperature_not_supported
      ]
        ≡ accepted t
  none_again none t e = e
  none_again (some x) t e = absurd (ground (arith, e))

  module _ (j : Json) (resources : Dict Rep) where
    choose_again :
        (spec : ModeSpec) (x : Option (Number F)) (complete : Bool) (t : Option ℤ)
        → ((temp : TempSpec)
            → temp_for (some spec) (unit_key (device_unit resources)) ≡ some temp
            → (is_range temp ≡ true) × (is_narrow temp ≡ true))
        → choose_temperature fl j resources spec x complete ≡ accepted t
        → choose_temperature fl j resources spec (normal_temperature x t) complete ≡ accepted t
    unfolding choose_temperature
    choose_again spec x complete t h e =
        elim (Option-cases (temp_for (some spec) (unit_key (device_unit resources)))) [
          | inl missing ↦
              rw (missing, choose_temperature)
                (none_again x t (rw (missing, choose_temperature) at e))
          | inr (temp, q) ↦
              let facts = h temp q in
              rw (q, choose_temperature)
                (check_again temp (step_of j temp resources) x complete t
                  (step_of-above j temp resources facts.0) facts.1
                  (rw (q, choose_temperature) at e))
        ]

    declared_range :
        (mode : String) (spec : ModeSpec) (unit : Option String) (temp : TempSpec)
        → Dict.get (mode_specs j resources) mode ≡ some spec
        → temp_for (some spec) unit ≡ some temp
        → is_range temp ≡ true
    unfolding temp_for
    declared_range mode spec none temp g h = absurd (ground (arith, h))
    declared_range mode spec (some unit) temp g h =
        mode_specs-ranges j resources mode unit spec temp g h

    -- A start is planned again with the setpoint and the cook time of its plan in place of those that
    -- were asked for, and gives the same plan, if no setpoint range of the plan's mode is wider than
    -- the integers that a float holds and `IsExact` holds of the floats.
    pub plan_start-again :
        (mode : Option String) (temperature : Option (Number F)) (duration : Option ℤ)
        (complete : Bool) (plan : CookPlan)
        → ((spec : ModeSpec) (temp : TempSpec)
            → Dict.get (mode_specs j resources) plan.mode ≡ some spec
            → temp_for (some spec) (unit_key (device_unit resources)) ≡ some temp
            → is_narrow temp ≡ true)
        → plan_start fl j resources mode temperature duration complete ≡ accepted plan
        → plan_start fl j resources mode
            (normal_temperature temperature plan.temperature)
            (normal_duration duration plan.duration)
            complete
          ≡ accepted plan
    plan_start-again mode temperature duration complete plan narrow h =
        let p = passed fl j resources mode temperature duration complete plan h in
        let m =
          mode-permitted (mode_specs j resources) (startable_modes j resources) plan.mode p.spec
            p.checked in
        accepts fl j resources mode (normal_temperature temperature plan.temperature)
          (normal_duration duration plan.duration) complete plan
          (record {
            spec = p.spec;
            declared = p.declared;
            idle = p.idle;
            chosen = p.chosen;
            checked = p.checked;
            target =
                choose_again p.spec temperature complete plan.temperature
                  (λ temp q. (
                    declared_range plan.mode p.spec (unit_key (device_unit resources)) temp m.0 q,
                    narrow p.spec temp m.0 q,
                  ))
                  p.target;
            seconds =
                rw (duration_again p.spec duration complete plan.duration p.seconds) p.seconds;
            unit = p.unit;
          })
