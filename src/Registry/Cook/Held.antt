-- ===== src/Registry/Cook/Held.antt =====
-- registry/capabilities/cook.py: HeldCook, the choices that are kept while an oven is idle
pub mod Kept
use localthings.Base.{
  String, Bool, true, false, not, ◌&&◌, ◌||◌, Option, none, some, List, [], ◌∷◌, ◌==◌,
  if◌then◌else◌, mem, default, or_else, is_some, Value, Rep, str, list, arr, obj, cons, entries,
  of_entries, ℤ, pos,
}
use localthings.Base.Dict
use localthings.Base.Dict.{Dict}
use localthings.Base.Data.Equal.{eq}
use localthings.Registry.Cook.Times.{format_hms}
use localthings.Registry.Cook.Fields.{
  mode_href, temperatures_href, items_field, rep_at, value_at, device_unit, unit_key, temp_item,
}
use localthings.Registry.Cook.Specs.{Json, TempSpec, ModeSpec, mode_specs}
use localthings.Registry.Cook.Views.{
  operation_href, modes_field, default_mode_field, is_idle, startable_modes, current_mode, temp_for,
}
use localthings.Registry.Cook.Start.{
  Number, whole, float, Floats, CookStartError, mode_required, Checked, accepted, refused, CookPlan,
  plan_start, int_text_of,
}

abbrev pub desired_field : String
desired_field = "x.com.samsung.da.desired"

abbrev pub time_field : String
time_field = "x.com.samsung.da.operationTime"

-- what `_device_values` reads
pub record DeviceValues : Type 0 where
  pub mode : Value
  pub unit : Option String
  pub desired : Value
  pub time : Value

unfoldable pub device_values : Dict Rep → DeviceValues
device_values resources = record {
  mode = current_mode resources;
  unit = device_unit resources;
  desired = value_at (temp_item resources) desired_field;
  time = value_at (rep_at resources operation_href) time_field;
}

same_unit : Option String → Option String → Bool
same_unit none none = true
same_unit (some a) (some b) = a == b
same_unit _ _ = false

unfoldable pub same_values : DeviceValues → DeviceValues → Bool
unfolding same_unit
same_values a b =
    eq a.mode b.mode && (same_unit a.unit b.unit && (eq a.desired b.desired && eq a.time b.time))

-- The dict of the held values, a key that is missing as none.
pub record Choices (F : Type 0) : Type 0 where
  pub mode : Option String
  pub temperature : Option (Number F)
  pub duration : Option ℤ

pub record HeldCook (F : Type 0) : Type 0 where
  pub values : Choices F
  pub base : Option DeviceValues

-- One entry that is chosen: the parameter and its value.
pub data Choice (F : Type 0) : Type 0 where
  chosen_mode : String → Choice F
  chosen_temperature : Number F → Choice F
  chosen_duration : ℤ → Choice F

-- a key that is held takes the value of the plan
abbrev pub normal_duration : Option ℤ → Option ℤ → Option ℤ
normal_duration none d = none
normal_duration (some _) d = d

stale_base : Option DeviceValues → Dict Rep → Bool
unfolding same_values
stale_base none resources = true
stale_base (some b) resources = not (same_values (device_values resources) b)

is_accepted : {A : Type 0} → Checked A → Bool
is_accepted (accepted a) = true
is_accepted (refused e) = false

needs_mode : CookStartError → Bool
needs_mode mode_required = true
needs_mode _ = false

module _ {F : Type 0} where
  abbrev pub nothing : Choices F
  nothing = record { mode = none; temperature = none; duration = none }

  abbrev pub holds : Choices F → Bool
  holds v = is_some v.mode || (is_some v.temperature || is_some v.duration)

  unfoldable pub clear : HeldCook F → HeldCook F
  clear held = record { values = nothing; base = none }

  -- the values with the new one
  unfoldable pub with_choice : Choices F → Choice F → Choices F
  with_choice v (chosen_mode m) =
      if default m v.mode == m
      then record { mode = some m; temperature = v.temperature; duration = v.duration }
      else record { mode = some m; temperature = none; duration = none }
  with_choice v (chosen_temperature x) = record {
    mode = v.mode;
    temperature = some x;
    duration = v.duration;
  }
  with_choice v (chosen_duration d) = record {
    mode = v.mode;
    temperature = v.temperature;
    duration = some d;
  }

  -- a key that is held takes the value of the plan
  abbrev pub normal_temperature : Option (Number F) → Option ℤ → Option (Number F)
  normal_temperature (some x) (some t) = some (whole t)
  normal_temperature _ _ = none

  unfoldable pub normalized : Choices F → CookPlan → Choices F
  normalized v plan = record {
    mode = v.mode;
    temperature = normal_temperature v.temperature plan.temperature;
    duration = normal_duration v.duration plan.duration;
  }

  -- `_expire`
  unfoldable pub expire : HeldCook F → Dict Rep → HeldCook F
  unfolding stale_base clear
  expire held resources =
      if holds held.values && (not (is_idle resources) || stale_base held.base resources)
      then clear held
      else held

  is_mode_choice : Choice F → Bool
  is_mode_choice (chosen_mode m) = true
  is_mode_choice _ = false

  unfoldable pub keep_values : HeldCook F → Choices F → Dict Rep → HeldCook F
  keep_values held v resources = record {
    values = v;
    base = if holds held.values then held.base else some (device_values resources);
  }

  module _ (fl : Floats F) (j : Json) where
    -- the check of what is held, before the rest is chosen or at the start
    unfoldable pub plan_choices : Dict Rep → Choices F → Bool → Checked CookPlan
    plan_choices resources v complete =
        plan_start fl j resources v.mode v.temperature v.duration complete

    -- one available mode accepts the whole combination
    some_mode_accepts : Dict Rep → Choices F → List String → Bool
    unfolding is_accepted
    some_mode_accepts resources v [] = false
    some_mode_accepts resources v (m ∷ ms) =
        is_accepted (plan_start fl j resources (some m) v.temperature v.duration false)
        || some_mode_accepts resources v ms

    hold_values : HeldCook F → Choices F → Bool → Dict Rep → HeldCook F × Option CookStartError
    unfolding plan_choices some_mode_accepts needs_mode keep_values normalized
    hold_values held v is_mode resources = elim (plan_choices resources v false) [
      | accepted plan ↦ (keep_values held (normalized v plan) resources, none)
      | refused e ↦
          if needs_mode e && not is_mode
          then if some_mode_accepts resources v (startable_modes j resources)
            then (keep_values held v resources, none)
            else (held, some e)
          else (held, some e)
    ]

    unfoldable pub hold : HeldCook F → Choice F → Dict Rep → HeldCook F × Option CookStartError
    unfolding expire with_choice hold_values is_mode_choice
    hold held choice resources =
        let live = expire held resources in
        hold_values live (with_choice live.values choice) (is_mode_choice choice) resources

    unfoldable pub plan : HeldCook F → Dict Rep → HeldCook F × Checked CookPlan
    unfolding expire plan_choices
    plan held resources =
        let live = expire held resources in (live, plan_choices resources live.values true)
