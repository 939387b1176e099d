-- ===== src/Registry/Cook/Overlay.antt =====
-- registry/capabilities/cook.py: HeldCook.overlay, which shows what a start would leave
pub mod Shown
use localthings.Base.{
  String, Bool, true, false, not, ◌&&◌, ◌||◌, Option, none, some, List, [], ◌∷◌, ◌==◌,
  if◌then◌else◌, mem, default, or_else, is_some, Value, Rep, str, list, arr, obj, cons, entries,
  of_entries, ℤ, pos,
}
use localthings.Base.Dict
use localthings.Base.Dict.{Dict}
use localthings.Base.Data.Equal.{eq}
use localthings.Registry.Cook.Times.{format_hms}
use localthings.Registry.Cook.Fields.{
  mode_href, temperatures_href, items_field, rep_at, value_at, device_unit, unit_key, temp_item,
}
use localthings.Registry.Cook.Specs.{Json, TempSpec, ModeSpec, mode_specs}
use localthings.Registry.Cook.Views.{
  operation_href, modes_field, default_mode_field, is_idle, startable_modes, current_mode, temp_for,
}
use localthings.Registry.Cook.Start.{
  Number, whole, float, Floats, CookStartError, mode_required, Checked, accepted, refused, CookPlan,
  plan_start, int_text_of,
}
use localthings.Registry.Cook.Held.{Choices, HeldCook, holds, expire, desired_field, time_field}

module _ {F : Type 0} (fl : Floats F) (j : Json) where
  number_text : Number F → String
  unfolding int_text_of
  number_text (whole n) = int_text_of n
  number_text (float x) = fl.float_text x

  -- the held mode, or the board's default one where it can start
  default_mode : Dict Rep → Option String
  default_mode resources = elim (value_at (rep_at resources mode_href) default_mode_field) [
    | str m ↦ if mem m (startable_modes j resources) then some m else none
    | _ ↦ none
  ]

  shown_mode : Dict Rep → Choices F → Option String
  unfolding default_mode
  shown_mode resources v = elim v.mode [
    | some m ↦ if m == "" then default_mode resources else some m
    | none ↦ default_mode resources
  ]

  show_mode : Option String → Dict Rep → Dict Rep
  show_mode none view = view
  show_mode (some mode) view = elim (Dict.get view mode_href) [
    | none ↦ view
    | some rep ↦
        if mode == ""
        then view
        else Dict.put view mode_href (Dict.put rep modes_field (list (str mode ∷ [])))
  ]

  -- The rows of the temperatures are dicts.
  desired_rows : String → Value → Option Value
  desired_rows text (arr (cons (obj fs) rows)) =
      some (arr (cons (obj (of_entries (Dict.put (entries fs) desired_field (str text)))) rows))
  desired_rows text _ = none

  show_desired : Option String → Dict Rep → Dict Rep
  unfolding desired_rows
  show_desired none view = view
  show_desired (some text) view =
      let rep = rep_at view temperatures_href in
      elim (desired_rows text (value_at rep items_field)) [
        | none ↦ view
        | some rows ↦ Dict.put view temperatures_href (Dict.put rep items_field rows)
      ]

  show_time : Option ℤ → Dict Rep → Dict Rep
  show_time none view = view
  show_time (some seconds) view = elim (Dict.get view operation_href) [
    | none ↦ view
    | some rep ↦ Dict.put view operation_href (Dict.put rep time_field (str (format_hms seconds)))
  ]

  default_text : Option TempSpec → Option String
  unfolding int_text_of
  default_text none = none
  default_text (some t) = elim t.default_ [ none ↦ none | some n ↦ some (int_text_of n) ]

  default_time : Option ModeSpec → Option ℤ
  default_time none = none
  default_time (some spec) = elim spec.time_default [ none ↦ none | some n ↦ some (pos n) ]

  -- what a start of the values would leave
  view_of : Dict Rep → Choices F → Dict Rep
  unfolding shown_mode show_mode show_desired show_time number_text default_text default_time
  view_of resources v =
      let mode = shown_mode resources v in
      let spec = Dict.get (mode_specs j resources) (default "" mode) in
      let declared = temp_for spec (unit_key (device_unit resources)) in
      let text : Option String = elim v.temperature [
        | some x ↦ some (number_text x)
        | none ↦ default_text declared
      ] in
      show_time (or_else v.duration (default_time spec))
        (show_desired text (show_mode mode resources))

  unfoldable pub overlay : HeldCook F → Dict Rep → HeldCook F × Dict Rep
  unfolding expire view_of
  overlay held resources =
      let live = expire held resources in
      (live, if holds live.values then view_of resources live.values else resources)
