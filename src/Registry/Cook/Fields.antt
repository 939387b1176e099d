-- ===== src/Registry/Cook/Fields.antt =====
-- registry/capabilities/cook.py: the fields that a cavity's resources are read by
use localthings.Base.{
  ℕ, suc, String, Bool, ◌||◌, Option, none, some, List, [], ◌==◌, if◌then◌else◌, any, default, ℤ,
  pos, Value, Rep, null, str, arr, obj, cons, items, entries,
}
use localthings.Base.Dict
use localthings.Base.Dict.{Dict}
use localthings.Base.Data.Equal.{eq}

abbrev pub mode_href : String
mode_href = "/mode/vs/0"

abbrev pub temperatures_href : String
temperatures_href = "/temperatures/vs/0"

abbrev pub mode_spec_field : String
mode_spec_field = "x.com.samsung.da.modeSpec"

abbrev pub supported_modes_field : String
supported_modes_field = "x.com.samsung.da.supportedModes"

abbrev pub items_field : String
items_field = "x.com.samsung.da.items"

abbrev pub start_control : String
start_control = "Start&Setting"

-- `resources.get(href) or {}`
abbrev pub rep_at : Dict Rep → String → Rep
rep_at resources href = default [] (Dict.get resources href)

-- `rep.get(key)`, None where the key is missing
abbrev pub value_at : Rep → String → Value
value_at rep key = default null (Dict.get rep key)

-- `m in live` of a text
abbrev pub lists : List Value → String → Bool
lists live m = any (λ v. eq v (str m)) live

-- a number above zero
abbrev pub above_zero : Option ℤ → Option ℕ
above_zero (some (pos (suc n))) = some (suc n)
above_zero _ = none

temp_item_of : Value → Rep
temp_item_of (arr (cons (obj fs) vs)) = entries fs
temp_item_of _ = []

-- the first row of the temperatures, where it is a dict
unfoldable pub temp_item : Dict Rep → Rep
unfolding temp_item_of
temp_item resources = temp_item_of (value_at (rep_at resources temperatures_href) items_field)

unit_of : Value → Option String
unit_of (str u) = if u == "Celsius" || u == "Fahrenheit" then some u else none
unit_of _ = none

unfoldable pub device_unit : Dict Rep → Option String
unfolding temp_item unit_of
device_unit resources = unit_of (value_at (temp_item resources) "x.com.samsung.da.unit")

-- `_UNIT_KEYS.get(unit)`
abbrev pub unit_key : Option String → Option String
unit_key none = none
unit_key (some u) =
    if u == "Celsius" then some "C" else if u == "Fahrenheit" then some "F" else none

-- the elements of a value that is a list, and none of another
abbrev pub list_of : Value → Option (List Value)
list_of (arr vs) = some (items vs)
list_of _ = none
