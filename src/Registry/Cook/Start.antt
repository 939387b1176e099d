-- ===== src/Registry/Cook/Start.antt =====
-- registry/capabilities/cook.py: the check of a start and the payload it is sent as
pub mod Modeless
pub mod Completed
pub mod Again
pub mod Permits
pub mod Passed
use localthings.Base.{
  ℕ, suc, String, Bool, not, ◌&&◌, ◌||◌, Option, none, some, List, [], ◌∷◌, ◌++◌, if◌then◌else◌,
  mem, default, Value, Rep, null, str, list, dict, ℤ, pos, negsuc, concat, decimal,
}
use localthings.Base.Dict
use localthings.Base.Dict.{Dict}
use localthings.Base.Int.{◌+ℤ◌, times, leb_ℤ, mem_ℤ}
use localthings.Registry.Cook.Times.{format_hms}
use localthings.Registry.Cook.Fields.{
  mode_href, temperatures_href, items_field, rep_at, value_at, device_unit, unit_key,
}
use localthings.Registry.Cook.Specs.{Json, TempSpec, ModeSpec, startable, mode_specs}
use localthings.Registry.Cook.Views.{
  operation_href, modes_field, state_field, default_mode_field, is_idle, startable_modes,
  declares_start, step_of, temp_for,
}

-- A number that a caller asks for: an int, or a float of the platform.
pub data Number (F : Type 0) : Type 0 where
  whole : ℤ → Number F
  float : F → Number F

-- What the source computes with floats: `round(x)`, `round((x - lo) / n)` and `str(x)`.
pub record Floats (F : Type 0) : Type 0 where
  pub round_float : F → ℤ
  pub steps_above : Number F → ℤ → ℕ → ℤ
  pub float_text : F → String

-- The translation keys of CookStartError.
pub data CookStartError : Type 0 where
  not_supported : CookStartError
  not_idle : CookStartError
  mode_required : CookStartError
  mode_not_startable : CookStartError
  mode_unavailable : CookStartError
  temperature_not_supported : CookStartError
  temperature_required : CookStartError
  temperature_not_a_choice : CookStartError
  temperature_out_of_range : CookStartError
  duration_not_supported : CookStartError
  duration_required : CookStartError
  duration_out_of_range : CookStartError

pub data Checked (A : Type 0) : Type 0 where
  accepted : A → Checked A
  refused : CookStartError → Checked A

pub record CookPlan : Type 0 where
  pub mode : String
  pub temperature : Option ℤ
  pub unit : Option String
  pub duration : Option ℤ

-- a mode that is given, or the board's default one
pub choose_mode : Dict Rep → List String → Option String → Checked String
choose_mode resources names (some mode) = accepted mode
choose_mode resources names none = elim (value_at (rep_at resources mode_href) default_mode_field) [
  | str mode ↦ if mem mode names then accepted mode else refused mode_required
  | _ ↦ refused mode_required
]

pub check_mode : Dict ModeSpec → List String → String → Checked ModeSpec
check_mode specs names mode = elim (Dict.get specs mode) [
  | none ↦ refused mode_not_startable
  | some spec ↦
      if startable spec
      then if mem mode names then accepted spec else refused mode_unavailable
      else refused mode_not_startable
]

pub check_seconds : ModeSpec → ℕ → ℤ → Checked (Option ℤ)
check_seconds spec limit seconds =
    if leb_ℤ (pos (default 0 spec.time_min)) seconds && leb_ℤ seconds (pos limit)
    then accepted (some seconds)
    else refused duration_out_of_range

seconds_or_default : ModeSpec → Option ℤ → Option ℤ
seconds_or_default spec (some d) = some d
seconds_or_default spec none = elim spec.time_default [ none ↦ none | some n ↦ some (pos n) ]

pub check_duration : ModeSpec → Option ℤ → Bool → Checked (Option ℤ)
unfolding check_seconds seconds_or_default
check_duration spec duration complete = elim spec.time_max [
  | none ↦ elim duration [ none ↦ accepted none | some d ↦ refused duration_not_supported ]
  | some limit ↦ elim (seconds_or_default spec duration) [
    | none ↦ if not complete || spec.time_optional then accepted none else refused duration_required
    | some seconds ↦ check_seconds spec limit seconds
  ]
]

module _ {F : Type 0} (fl : Floats F) where
  unfoldable pub round : Number F → ℤ
  round (whole n) = n
  round (float x) = fl.round_float x

  -- a value that is given, at the mode's step n
  unfoldable pub at_step : TempSpec → ℕ → Number F → Checked (Option ℤ)
  at_step temp n x =
      let value = temp.minimum +ℤ times (fl.steps_above x temp.minimum n) n in
      if leb_ℤ temp.minimum value && leb_ℤ value temp.maximum
      then accepted (some value)
      else refused temperature_out_of_range

  -- `_check_temperature`
  pub check_temperature : TempSpec → ℕ → Option (Number F) → Bool → Checked (Option ℤ)
  unfolding round at_step
  check_temperature temp n none complete = elim temp.default_ [
    | none ↦ if complete then refused temperature_required else accepted none
    | some t ↦ accepted (some t)
  ]
  check_temperature temp n (some x) complete = elim temp.choices [
    | [] ↦ at_step temp n x
    | c ∷ cs ↦
        if mem_ℤ (round x) (c ∷ cs)
        then accepted (some (round x))
        else refused temperature_not_a_choice
  ]

  module _ (j : Json) (resources : Dict Rep) where
    -- the setpoint of a mode
    pub choose_temperature : ModeSpec → Option (Number F) → Bool → Checked (Option ℤ)
    unfolding check_temperature
    choose_temperature spec temperature complete =
        elim (temp_for (some spec) (unit_key (device_unit resources))) [
          | none ↦ elim temperature [
            | none ↦ accepted none
            | some x ↦ refused temperature_not_supported
          ]
          | some temp ↦ check_temperature temp (step_of j temp resources) temperature complete
        ]

    -- the setpoint and the cook time of the mode
    pub fill : String → ModeSpec → Option (Number F) → Option ℤ → Bool → Checked CookPlan
    unfolding choose_temperature check_duration
    fill mode spec temperature duration complete =
        elim (choose_temperature spec temperature complete) [
          | refused e ↦ refused e
          | accepted target ↦ elim (check_duration spec duration complete) [
            | refused e ↦ refused e
            | accepted seconds ↦ accepted (record {
              mode = mode;
              temperature = target;
              unit = device_unit resources;
              duration = seconds;
            })
          ]
        ]

    -- the mode, and its setpoint and cook time
    pub plan_mode : Option String → Option (Number F) → Option ℤ → Bool → Checked CookPlan
    unfolding choose_mode check_mode fill
    plan_mode mode temperature duration complete =
        let names = startable_modes j resources in
        elim (choose_mode resources names mode) [
          | refused e ↦ refused e
          | accepted name ↦ elim (check_mode (mode_specs j resources) names name) [
            | refused e ↦ refused e
            | accepted spec ↦ fill name spec temperature duration complete
          ]
        ]

    unfoldable pub plan_start :
        Option String → Option (Number F) → Option ℤ → Bool → Checked CookPlan
    unfolding plan_mode
    plan_start mode temperature duration complete =
        if not (declares_start j resources)
        then refused not_supported
        else if not (is_idle resources)
        then refused not_idle
        else plan_mode mode temperature duration complete

-- `str(n)` of an int
unfoldable pub int_text_of : ℤ → String
int_text_of (pos n) = decimal n
int_text_of (negsuc n) = concat "-" (decimal (suc n))

element : String → Rep → Value
element href rep = dict (("href", str href) ∷ ("rep", dict rep) ∷ [])

temperature_row : ℤ → Option String → Value
unfolding int_text_of
temperature_row t unit = dict (
    ("x.com.samsung.da.id", str "0")
    ∷ ("x.com.samsung.da.desired", str (int_text_of t))
    ∷ ("x.com.samsung.da.unit", elim unit [ none ↦ null | some u ↦ str u ])
    ∷ [])

temperature_elements : (String → String) → CookPlan → List Value
unfolding element temperature_row
temperature_elements actual plan = elim plan.temperature [
  | none ↦ []
  | some t ↦
      element (actual temperatures_href)
        ((items_field, list (temperature_row t plan.unit ∷ [])) ∷ [])
      ∷ []
]

operation_rep : Option ℤ → Rep
operation_rep none = (state_field, str "Run") ∷ []
operation_rep (some seconds) =
    ("x.com.samsung.da.operationTime", str (format_hms seconds)) ∷ (state_field, str "Run") ∷ []

-- `CookPlan.batch`
unfoldable pub batch : CookPlan → Option (String → String) → List Value
unfolding element temperature_elements operation_rep
batch plan to_actual =
    let actual : String → String = default (λ href. href) to_actual in
    let marker : List Value = elim to_actual [
      | none ↦ dict (("href", str "/devices/0") ∷ []) ∷ []
      | some f ↦ []
    ] in
    marker
    ++ element (actual mode_href) ((modes_field, list (str plan.mode ∷ [])) ∷ [])
      ∷ (temperature_elements actual plan
          ++ element (actual operation_href) (operation_rep plan.duration) ∷ [])
