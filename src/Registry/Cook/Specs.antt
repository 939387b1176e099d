-- ===== src/Registry/Cook/Specs.antt =====
-- registry/capabilities/cook.py: what a board declares of each cooking mode
pub mod Ranges
use localthings.Base.{
  ℕ, suc, String, Bool, true, false, not, ◌&&◌, ◌||◌, Option, none, some, List, [], ◌∷◌, ◌==◌,
  if◌then◌else◌, any, fold, mem, default, concat, startswith, strip_prefix, occurs, ℤ, pos, Value,
  Rep, null, flag, int, str, arr, obj, nil, cons, ◌++◌, items, entries, keep, is_some,
}
use localthings.Base.Dict
use localthings.Base.Dict.{Dict}
use localthings.Base.Int.{min_ℤ, max_ℤ}
use localthings.Base.Data.Equal.{eq}
use localthings.Registry.Cook.Fields.{
  mode_href, temperatures_href, mode_spec_field, supported_modes_field, items_field, start_control,
  rep_at, value_at, lists, above_zero, temp_item, device_unit, unit_key, list_of,
}
use localthings.Registry.Cook.Times.{parse_hms}

-- `json.loads` with none for a ValueError, `str(v)`, and `int(s)` of a text, stand for the
-- parameters.
pub record Json : Type 0 where
  pub loads : String → Option Value
  pub text_of : Value → String
  pub int_text : String → Option ℤ

pub record TempSpec : Type 0 where
  pub minimum : ℤ
  pub maximum : ℤ
  pub default_ : Option ℤ
  pub step : Option ℕ
  pub choices : List ℤ

pub record ModeSpec : Type 0 where
  pub mode : String
  pub control : String
  pub temps : Dict TempSpec
  pub time_min : Option ℕ
  pub time_max : Option ℕ
  pub time_default : Option ℕ
  pub time_optional : Bool

abbrev pub startable : ModeSpec → Bool
startable s = s.control == start_control

never_startable : List String
never_startable =
    "BreadProof" ∷ "Defrost" ∷ "Descale" ∷ "Drain" ∷ "NoOperation" ∷ "PyroFree" ∷ "SelfClean"
    ∷ "SteamClean" ∷ []

never_startable_families : List String
never_startable_families = "Autocook" ∷ "Broil" ∷ "Easycook" ∷ "HOMECARE" ∷ "Speed" ∷ "Toast" ∷ []

is_homecare : Value → Bool
is_homecare (str m) = startswith m "HOMECARE"
is_homecare _ = false

unfoldable pub selectable_modes : List Value → List Value
unfolding is_homecare
selectable_modes live = keep (λ m. not (is_homecare m)) live

-- `s.removeprefix(p)`
remove_prefix : String → String → String
remove_prefix p s = default s (strip_prefix p s)

unfoldable pub specless_startable : String → Bool
unfolding never_startable never_startable_families remove_prefix
specless_startable mode =
    let bare = remove_prefix "Lower" (remove_prefix "Upper" mode) in
    not (mem mode never_startable)
    && (not (occurs "MicroWave" mode)
        && not (any (λ family. startswith bare family) never_startable_families))

is_microwave : Value → Bool
is_microwave (str m) = occurs "MicroWave" m
is_microwave _ = false

-- a range in steps of five
setpoints : ℕ → ℕ → TempSpec
setpoints lo hi = record {
  minimum = pos lo;
  maximum = pos hi;
  default_ = none;
  step = some 5;
  choices = [];
}

unfoldable pub specless_temps : List Value → Dict TempSpec
unfolding is_microwave setpoints
specless_temps live =
    if any is_microwave live
    then ("C", setpoints 40 200) ∷ []
    else ("C", setpoints 30 270) ∷ ("F", setpoints 175 550) ∷ []

-- 23:59:00 and 00:01:00
abbrev pub open_time_max : Option ℕ
open_time_max = some 86340

abbrev pub undeclared_time_min : Option ℕ
undeclared_time_min = some 60

specless_spec : Dict TempSpec → String → ModeSpec
specless_spec temps mode = record {
  mode = mode;
  control = start_control;
  temps = temps;
  time_min = none;
  time_max = open_time_max;
  time_default = none;
  time_optional = true;
}

add_specless : Dict TempSpec → Dict ModeSpec → Value → Dict ModeSpec
unfolding specless_startable specless_spec
add_specless temps specs (str mode) =
    if specless_startable mode then Dict.put specs mode (specless_spec temps mode) else specs
add_specless temps specs _ = specs

unfoldable pub specless_specs : Dict Rep → Dict ModeSpec
unfolding specless_temps device_unit add_specless
specless_specs resources =
    let live = default [] (list_of (value_at (rep_at resources mode_href) supported_modes_field)) in
    let temps = if is_some (device_unit resources) then specless_temps live else [] in
    fold (add_specless temps) [] live

declares_time : Rep → Bool
declares_time entry =
    Dict.has entry "timeMin" || (Dict.has entry "timeMax" || Dict.has entry "timeDefault")

range_between : ℤ → ℤ → Option ℤ → Option ℤ → List ℤ → TempSpec
range_between lo hi start interval choices = record {
  minimum = min_ℤ lo hi;
  maximum = max_ℤ lo hi;
  default_ = start;
  step = above_zero interval;
  choices = choices;
}

module _ (j : Json) where
  -- `int_or_none` of a decoded value
  unfoldable pub int_or_none : Value → Option ℤ
  int_or_none (int n) = some n
  int_or_none (flag true) = some (pos 1)
  int_or_none (flag false) = some (pos 0)
  int_or_none (str s) = j.int_text s
  int_or_none _ = none

  ints_of : List Value → List ℤ
  unfolding int_or_none
  ints_of [] = []
  ints_of (v ∷ vs) = elim (int_or_none v) [ none ↦ ints_of vs | some c ↦ c ∷ ints_of vs ]

  -- The choices are a list where there are any.
  unfoldable pub temp_spec : Rep → String → Option TempSpec
  unfolding ints_of int_or_none range_between
  temp_spec entry unit =
      let number : String → Option ℤ = λ key. int_or_none (value_at entry (concat key unit)) in
      elim (number "tempMin") [
        | none ↦ none
        | some lo ↦ elim (number "tempMax") [
          | none ↦ none
          | some hi ↦ some (
              range_between lo hi (number "tempDefault") (number "tempInterval")
                (ints_of (default [] (list_of (value_at entry (concat "tempListData" unit))))))
        ]
      ]

  temp_in : Rep → String → Dict TempSpec
  unfolding temp_spec
  temp_in entry unit = elim (temp_spec entry unit) [ none ↦ [] | some t ↦ (unit, t) ∷ [] ]

  declared_spec : Rep → String → ModeSpec
  unfolding temp_in declares_time
  declared_spec entry mode =
      let declared = declares_time entry in
      let time : String → Option ℕ = λ key. parse_hms (value_at entry key) in
      record {
        mode = mode;
        control = j.text_of (value_at entry "control");
        temps = temp_in entry "C" ++ temp_in entry "F";
        time_min = if declared then time "timeMin" else undeclared_time_min;
        time_max = if declared then time "timeMax" else open_time_max;
        time_default = time "timeDefault";
        time_optional = false;
      }

  -- an entry whose mode is a text
  add_named : Dict ModeSpec → Rep → Value → Dict ModeSpec
  unfolding declared_spec
  add_named specs entry (str mode) = Dict.put specs mode (declared_spec entry mode)
  add_named specs entry _ = specs

  -- one round of the loop over the entries
  add_spec : Dict ModeSpec → Value → Dict ModeSpec
  unfolding add_named
  add_spec specs (obj fs) = add_named specs (entries fs) (value_at (entries fs) "mode")
  add_spec specs _ = specs

  unfoldable pub spec_entries : Value → List Value
  spec_entries (str s) = default [] (list_of (default null (j.loads s)))
  spec_entries (arr vs) = items vs
  spec_entries _ = []

  specs_from : Dict Rep → Value → Dict ModeSpec
  unfolding specless_specs spec_entries add_spec
  specs_from resources null = specless_specs resources
  specs_from resources raw = fold add_spec [] (spec_entries raw)

  unfoldable pub mode_specs : Dict Rep → Dict ModeSpec
  unfolding specs_from
  mode_specs resources =
      specs_from resources (value_at (rep_at resources mode_href) mode_spec_field)

  unfoldable pub is_empty_spec : Value → Bool
  is_empty_spec (str s) = elim (j.loads s) [ some (arr nil) ↦ true | _ ↦ false ]
  is_empty_spec (arr nil) = true
  is_empty_spec _ = false

  unfoldable pub has_entries : Value → Bool
  unfolding spec_entries
  has_entries spec = elim (spec_entries spec) [ [] ↦ false | _ ↦ true ]
