-- ===== src/Examples/Cooking.antt =====
-- registry/capabilities/cook.py on an idle oven
use localthings.Base.{
  ◌==◌, Bool-cases, ℕ, zero, suc, ◌+◌, ◌-◌, ◌*◌, ◌/◌, ◌≤◌, ◌<◌, String, Bool, true, false, not, ◌≡◌,
  refl, sym, ap, ◌∙◌, Option, none, some, List, [], ◌∷◌, arith, Rep, Value, str, int, pos, negsuc,
  ℤ, null, list, dict, parse_decimal, ◌⊎◌, inl, inr,
}
use localthings.Base.Data.Equal.{eq}
use localthings.Base.Text.{split}
use localthings.Base.Dict
use localthings.Base.Dict.{Dict}
use localthings.Base.Int.{◌+ℤ◌, times, quotient, up, down, minus}
use native.Mathlib.Nat.{mul-div_cancel}
use localthings.Registry.Cook.Times.{parse_hms, format_hms, parse_hms-format_hms}
use localthings.Registry.Cook.Fields.{
  device_unit, unit_key, mode_href, temperatures_href, mode_spec_field, items_field,
  supported_modes_field, temp_item,
}
use localthings.Registry.Cook.Specs.{
  Json, TempSpec, ModeSpec, mode_specs, int_or_none, spec_entries, temp_spec,
}
use localthings.Registry.Cook.Specs.Ranges.{is_range, mode_specs-ranges}
use localthings.Registry.Cook.Views.{
  operation_href, modes_field, state_field, is_idle, startable_modes, declares_start, step_of,
  temp_for, current_mode, operation_ready,
}
use localthings.Registry.Cook.Start.{
  not_idle, not_supported, whole, float, Floats, accepted, refused, CookPlan, plan_start, round,
  at_step,
}
use localthings.Registry.Cook.Start.Permits.{permits, plan_start-permits}
use localthings.Registry.Cook.Start.Again.{IsExact, is_narrow, plan_start-again}
use localthings.Registry.Cook.Overlay.{overlay}
use localthings.Registry.Cook.Held.{
  HeldCook, chosen_temperature, nothing, hold, plan, device_values, holds, expire, with_choice,
  plan_choices, normalized, keep_values, same_values,
}
use localthings.Registry.Cook.Held.Kept.{IsOpen, hold-IsOpen}
use localthings.Registry.Cook.Overlay.Shown.{overlay-busy}

abbrev pub texts : Json
texts = record {
  loads = λ s. none;
  text_of = λ v. elim v as (λ x. String) [ str s ↦ s | _ ↦ "None" ];
  int_text = λ s. elim (parse_decimal s) as (λ x. Option ℤ) [ none ↦ none | some n ↦ some (pos n) ];
}

-- a float is a number of halves, rounded down; the steps are counted from below
abbrev pub halves : Floats ℕ
halves = record {
  round_float = λ h. pos (h / 2);
  steps_above = λ x lo n. elim x as (λ y. ℤ) [
    | whole z ↦ quotient (minus (up z + down lo) (down z + up lo)) n
    | float h ↦ quotient (minus (h / 2 + down lo) (up lo)) n
  ];
  float_text = λ h. "";
}

abbrev pub bake : Value
bake = dict (
    ("mode", str "Bake")
    ∷ ("control", str "Start&Setting")
    ∷ ("tempMinC", int (pos 30))
    ∷ ("tempMaxC", int (pos 270))
    ∷ ("tempDefaultC", int (pos 180))
    ∷ ("tempIntervalC", int (pos 5))
    ∷ ("timeMin", str "00:01:00")
    ∷ ("timeMax", str "10:00:00")
    ∷ [])

abbrev pub modes : Rep
modes =
    (mode_spec_field, list (bake ∷ []))
    ∷ (supported_modes_field, list (str "Bake" ∷ []))
    ∷ (modes_field, list (str "NoOperation" ∷ []))
    ∷ []

abbrev pub temperatures : Rep
temperatures =
    (
      items_field,
      list (
          dict (
            ("x.com.samsung.da.unit", str "Celsius") ∷ ("x.com.samsung.da.desired", str "180") ∷ [])
          ∷ []),
    )
    ∷ []

abbrev pub oven : Dict Rep
oven =
    (mode_href, modes)
    ∷ (temperatures_href, temperatures)
    ∷ (operation_href, (state_field, str "Ready") ∷ [])
    ∷ []

abbrev bake_plan : CookPlan
bake_plan = record {
  mode = "Bake";
  temperature = some (pos 200);
  unit = some "Celsius";
  duration = some (pos 600);
}

bake-planned :
    plan_start halves texts oven (some "Bake") (some (float 403)) (some (pos 600)) true
    ≡ accepted bake_plan
unfolding plan_start declares_start is_idle startable_modes mode_specs device_unit temp_item step_of
    temp_for current_mode operation_ready spec_entries temp_spec int_or_none eq parse_hms round
    at_step ◌+ℤ◌ times Dict.get Dict.put split localthings.Base.Decimal.parse_decimal
bake-planned = refl

plan_start-permits_example : permits texts oven true bake_plan ≡ true
plan_start-permits_example =
    plan_start-permits halves texts oven (some "Bake") (some (float 403)) (some (pos 600)) true
      bake_plan bake-planned

rise : (lo : ℤ) (m : ℕ) → minus (up (lo +ℤ pos m) + down lo) (down (lo +ℤ pos m) + up lo) ≡ pos m
unfolding ◌+ℤ◌
rise lo m = ground arith

halves-IsExact : IsExact halves
halves-IsExact lo k n h b = ap (λ z. quotient z n) (rise lo (k * n)) ∙ ap pos (mul-div_cancel k h)

abbrev bake_temp : TempSpec
bake_temp = record {
  minimum = pos 30;
  maximum = pos 270;
  default_ = some (pos 180);
  step = some 5;
  choices = [];
}

abbrev bake_spec : ModeSpec
bake_spec = record {
  mode = "Bake";
  control = "Start&Setting";
  temps = ("C", bake_temp) ∷ [];
  time_min = some 60;
  time_max = some 36000;
  time_default = none;
  time_optional = false;
}

oven-specs : mode_specs texts oven ≡ ("Bake", bake_spec) ∷ []
unfolding mode_specs spec_entries temp_spec int_or_none parse_hms Dict.get Dict.put split
    localthings.Base.Decimal.parse_decimal
oven-specs = refl

only_bake :
    (mode : String) (spec : ModeSpec)
    → Dict.get {V = ModeSpec} (("Bake", bake_spec) ∷ []) mode ≡ some spec
    → some spec ≡ some bake_spec
unfolding Dict.get
only_bake mode spec h = elim (Bool-cases ("Bake" == mode)) [
  | inl same ↦ sym (rw same at h)
  | inr other ↦ absurd (ground (arith, other, h))
]

oven-celsius : unit_key (device_unit oven) ≡ some "C"
unfolding device_unit temp_item Dict.get
oven-celsius = refl

narrow_of : (temp : TempSpec) → some bake_temp ≡ some temp → is_narrow temp ≡ true
narrow_of temp h = ground (arith, h)

oven-narrow :
    (mode : String) (spec : ModeSpec) (temp : TempSpec)
    → Dict.get (mode_specs texts oven) mode ≡ some spec
    → temp_for (some spec) (unit_key (device_unit oven)) ≡ some temp
    → is_narrow temp ≡ true
unfolding temp_for Dict.get
oven-narrow mode spec temp g h =
    let bake_ = only_bake mode spec (rw oven-specs at g) in
    narrow_of temp (rw (bake_, oven-celsius) at h)

plan_start-again_example :
    plan_start halves texts oven (some "Bake") (some (whole (pos 200))) (some (pos 600)) true
    ≡ accepted bake_plan
plan_start-again_example =
    plan_start-again halves halves-IsExact texts oven (some "Bake") (some (float 403))
      (some (pos 600)) true bake_plan (oven-narrow "Bake") bake-planned

mode_specs-ranges_example : is_range bake_temp ≡ true
unfolding Dict.get
mode_specs-ranges_example =
    mode_specs-ranges texts oven "Bake" "C" bake_spec bake_temp
      (ap (λ specs. Dict.get specs "Bake") oven-specs) refl

parse_hms-format_hms_example : parse_hms (str (format_hms (pos 3725))) ≡ some 3725
parse_hms-format_hms_example = parse_hms-format_hms 3725

abbrev idle_choices : HeldCook ℕ
idle_choices = record { values = nothing; base = none }

abbrev pub held_200 : HeldCook ℕ
held_200 = record {
  values = record { mode = some "Bake"; temperature = some (whole (pos 200)); duration = none };
  base = some (record {
    mode = str "NoOperation";
    unit = some "Celsius";
    desired = str "180";
    time = null;
  });
}

abbrev held_mode : HeldCook ℕ
held_mode = record {
  values = record { mode = some "Bake"; temperature = none; duration = none };
  base = some (record {
    mode = str "NoOperation";
    unit = some "Celsius";
    desired = str "180";
    time = null;
  });
}

oven-held : hold halves texts held_mode (chosen_temperature (float 403)) oven ≡ (held_200, none)
unfolding hold expire with_choice device_values same_values plan_choices keep_values normalized
    plan_start declares_start is_idle startable_modes mode_specs device_unit temp_item step_of
    temp_for current_mode operation_ready spec_entries temp_spec int_or_none eq parse_hms round
    at_step ◌+ℤ◌ times Dict.get Dict.put split localthings.Base.Decimal.parse_decimal
oven-held = refl

hold-IsOpen_example :
    ((plan halves texts held_200 oven).0 ≡ held_200) × IsOpen (plan halves texts held_200 oven).1
unfolding device_values current_mode device_unit temp_item Dict.get
hold-IsOpen_example =
    hold-IsOpen halves halves-IsExact texts oven oven-narrow refl held_mode held_200
      (chosen_temperature (float 403)) oven-held

abbrev pub running : Dict Rep
running = (operation_href, (state_field, str "Run") ∷ []) ∷ []

overlay-busy_example :
    (holds (overlay halves texts held_200 running).0.values ≡ false)
    × ((overlay halves texts held_200 running).1 ≡ running)
    × (((plan halves texts held_200 running).1 ≡ refused not_supported)
        ⊎ ((plan halves texts held_200 running).1 ≡ refused not_idle))
unfolding is_idle operation_ready Dict.get eq
overlay-busy_example = overlay-busy halves texts running held_200 refl

abbrev emptied : Dict Rep
emptied = (mode_href, (mode_spec_field, list []) ∷ []) ∷ []
