-- ===== src/Registry/Cook/Views.antt =====
-- registry/capabilities/cook.py: what a cavity reports of its modes, its unit and its operation
use localthings.Base.{
  ℕ, String, Bool, true, false, ◌&&◌, ◌||◌, Option, none, some, List, [], ◌∷◌, ◌==◌, if◌then◌else◌,
  default, Value, Rep, null, str, arr, cons, truthy, endswith, startswith, ℤ,
}
use localthings.Base.Dict
use localthings.Base.Dict.{Dict}
use localthings.Base.Data.Equal.{eq}
use localthings.Registry.Cook.Fields.{
  mode_href, mode_spec_field, supported_modes_field, rep_at, value_at, lists, list_of, above_zero,
  temp_item, device_unit, unit_key,
}
use localthings.Registry.Cook.Specs.{
  Json, TempSpec, ModeSpec, startable, mode_specs, is_empty_spec, int_or_none,
}
use localthings.Registry.Cook.Sharing.{cavity_field}

abbrev pub operation_href : String
operation_href = "/operational/state/vs/0"

abbrev pub modes_field : String
modes_field = "x.com.samsung.da.modes"

abbrev pub state_field : String
state_field = "x.com.samsung.da.state"

abbrev pub default_mode_field : String
default_mode_field = "x.com.samsung.da.defaultMode"

unfoldable pub zoned : Dict Rep → Bool
zoned resources = truthy (value_at (rep_at resources mode_href) cavity_field)

cavity_prefix : Value → Option Value
cavity_prefix (str mode) =
    if startswith mode "Upper"
    then some (str "Upper")
    else if startswith mode "Lower"
    then some (str "Lower")
    else none
cavity_prefix _ = none

described_lower : Value → Bool
described_lower (str d) = endswith d "_DIV"
described_lower _ = false

-- None where the cavity does not say which it is
unfoldable pub cavity : Dict Rep → Value
unfolding cavity_prefix described_lower
cavity resources =
    let rep = rep_at resources mode_href in
    let field = value_at rep cavity_field in
    let description =
      value_at (rep_at resources "/information/vs/0") "x.com.samsung.da.description" in
    if truthy field then field else elim (cavity_prefix (value_at rep default_mode_field)) [
      | some prefix ↦ prefix
      | none ↦ if described_lower description then str "Lower" else null
    ]

first_mode : Value → Value
first_mode (arr (cons m ms)) = m
first_mode _ = null

unfoldable pub current_mode : Dict Rep → Value
unfolding first_mode
current_mode resources = first_mode (value_at (rep_at resources mode_href) modes_field)

unfoldable pub operation_ready : Dict Rep → Bool
operation_ready resources =
    eq (value_at (rep_at resources operation_href) state_field) (str "Ready")

unfoldable pub is_idle : Dict Rep → Bool
unfolding operation_ready current_mode
is_idle resources =
    let state = value_at (rep_at resources "/oven/vs/0") state_field in
    let mode = current_mode resources in
    operation_ready resources
    && ((eq state null || eq state (str "Ready")) && (eq mode null || eq mode (str "NoOperation")))

startable_names : Option (List Value) → Dict ModeSpec → List String
startable_names live [] = []
startable_names live ((name, spec) ∷ specs) =
    let rest = startable_names live specs in
    let offered : Bool = elim live [ none ↦ true | some modes ↦ lists modes name ] in
    if startable spec && offered then name ∷ rest else rest

any_startable : Dict ModeSpec → Bool
any_startable [] = false
any_startable ((name, spec) ∷ specs) = startable spec || any_startable specs

spec_named : Dict ModeSpec → Value → Option ModeSpec
spec_named specs (str name) = Dict.get specs name
spec_named specs v = if truthy v then none else Dict.get specs ""

-- `spec.temps.get(unit)` of a spec that is there
unfoldable pub temp_for : Option ModeSpec → Option String → Option TempSpec
temp_for (some spec) (some unit) = Dict.get spec.temps unit
temp_for _ _ = none

-- `mode or current_mode(resources) or ""`
mode_or_current : Dict Rep → Option String → Value
unfolding current_mode
mode_or_current resources none = current_mode resources
mode_or_current resources (some mode) = if mode == "" then current_mode resources else str mode

module _ (j : Json) where
  unfoldable pub startable_modes : Dict Rep → List String
  unfolding startable_names
  startable_modes resources =
      startable_names (list_of (value_at (rep_at resources mode_href) supported_modes_field))
        (mode_specs j resources)

  unfoldable pub declares_start : Dict Rep → Bool
  unfolding any_startable
  declares_start resources = any_startable (mode_specs j resources)

  unfoldable pub can_start : Dict Rep → Bool
  unfolding cavity declares_start
  can_start resources =
      let spec = value_at (rep_at resources mode_href) mode_spec_field in
      (eq spec null && eq (cavity resources) (str "Lower"))
      || (is_empty_spec j spec || declares_start resources)

  -- `_step`
  unfoldable pub step_of : TempSpec → Dict Rep → ℕ
  step_of temp resources = elim temp.step [
    | some n ↦ n
    | none ↦
        default 1
          (above_zero (int_or_none j (value_at (temp_item resources) "x.com.samsung.da.increment")))
  ]

  unfoldable pub temp_bounds : Dict Rep → Option String → Option (ℤ × ℤ × ℕ)
  unfolding spec_named mode_or_current step_of temp_for
  temp_bounds resources mode =
      let spec = spec_named (mode_specs j resources) (mode_or_current resources mode) in
      elim (temp_for spec (unit_key (device_unit resources))) [
        | none ↦ none
        | some temp ↦ elim temp.choices [
          | [] ↦ some (temp.minimum, temp.maximum, step_of temp resources)
          | _ ↦ none
        ]
      ]
