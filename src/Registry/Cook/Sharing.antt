-- ===== src/Registry/Cook/Sharing.antt =====
-- registry/capabilities/cook.py: the modeSpec that stands in for an empty one, and the one that
-- the cavities of an oven share
pub mod Frames
use localthings.Base.{
  String, Bool, true, false, not, ◌&&◌, ◌||◌, Option, none, some, List, [], ◌∷◌, if◌then◌else◌,
  fold, mem, keep, Value, Rep, str, list, obj, entries,
}
use localthings.Base.Dict
use localthings.Base.Dict.{Dict}
use localthings.Base.Data.Equal.{eq}
use localthings.Registry.Cook.Fields.{
  mode_href, mode_spec_field, supported_modes_field, rep_at, value_at, lists, list_of,
}
use localthings.Registry.Cook.Specs.{Json, selectable_modes, spec_entries, has_entries}

abbrev pub cavity_field : String
cavity_field = "localthings.cavity"

-- the loop of share_mode_spec: the copy, and whether a spec was copied and a cavity zoned
pub record Shared : Type 0 where
  pub shared : Dict Rep
  pub copied : Bool
  pub zoned : Bool

-- a text that the list holds
among : List String → Value → Bool
among ss (str s) = mem s ss
among ss _ = false

text_values : List String → List Value
text_values [] = []
text_values (s ∷ ss) = str s ∷ text_values ss

filled_values : List Value → Bool
filled_values [] = false
filled_values _ = true

pub filled : List String → Bool
filled [] = false
filled _ = true

text_in : Value → Option String
text_in (str s) = some s
text_in _ = none

-- the mode of an entry that is tagged `cavity: Lower`
tagged_mode : Value → Option String
unfolding text_in
tagged_mode (obj fs) =
    if eq (value_at (entries fs) "cavity") (str "Lower")
    then text_in (value_at (entries fs) "mode")
    else none
tagged_mode _ = none

tagged_modes : List Value → List String
unfolding tagged_mode
tagged_modes [] = []
tagged_modes (e ∷ es) = elim (tagged_mode e) [
  | none ↦ tagged_modes es
  | some m ↦ m ∷ tagged_modes es
]

-- the tagged modes that the upper cavity lists, where it has a list
offered_modes : List String → Option (List Value) → List Value
unfolding text_values
offered_modes tagged none = text_values tagged
offered_modes tagged (some live) = text_values (keep (λ m. lists live m) tagged)

-- a cavity that lists no cooking mode at all
pub lists_no_mode : Rep → Bool
unfolding filled_values
lists_no_mode rep = elim (list_of (value_at rep supported_modes_field)) [
  | none ↦ false
  | some live ↦ not (filled_values (selectable_modes live))
]

zoned_rep : Rep → List Value → Rep
zoned_rep rep modes =
    Dict.put (Dict.put rep supported_modes_field (list modes)) cavity_field (str "Lower")

module _ (j : Json) where
  reports_mode_spec : Rep → Bool
  unfolding has_entries
  reports_mode_spec rep = has_entries j (value_at rep mode_spec_field)

  filled_with : Dict Rep → Dict Value → Dict Rep
  unfolding reports_mode_spec
  filled_with resources [] = []
  filled_with resources ((href, spec) ∷ cached) =
      let rest = filled_with resources cached in
      elim (Dict.get resources href) [
        | none ↦ rest
        | some rep ↦
            if reports_mode_spec rep then rest else (href, Dict.put rep mode_spec_field spec) ∷ rest
      ]

  unfoldable pub with_cached_specs : Dict Rep → Dict Value → Dict Rep
  unfolding filled_with
  with_cached_specs resources cached = Dict.merge resources (filled_with resources cached)

  -- one round of the loop over the siblings; `offered` is what the modeSpec's tags leave of the
  -- upper cavity's modes
  share_one : Dict Rep → Value → List String → List Value → Shared → (String → String) → Shared
  unfolding reports_mode_spec zoned_rep
  share_one resources spec tagged offered acc to_actual =
      elim (Dict.get resources (to_actual mode_href)) [
        | none ↦ acc
        | some rep ↦
            if reports_mode_spec rep
            then acc
            else let copy = Dict.put rep mode_spec_field spec in
              let zone = filled tagged && lists_no_mode copy in
              let divider =
                value_at (rep_at resources (to_actual "/connected/vs/0"))
                  "x.com.samsung.da.connected" in
              record {
                shared = Dict.put acc.shared (to_actual mode_href) (
                    if zone
                    then zoned_rep copy (if eq divider (str "Off") then [] else offered)
                    else copy);
                copied = true;
                zoned = zone || acc.zoned;
              }
      ]

  -- what the upper cavity keeps once its own Lower modes are the sibling's
  without_lower : Rep → List String → Option (List Value) → Shared → Dict Rep
  unfolding among
  without_lower main tagged none acc = acc.shared
  without_lower main tagged (some live) acc =
      if acc.zoned
      then Dict.put acc.shared mode_href
          (Dict.put main supported_modes_field (list (keep (λ m. not (among tagged m)) live)))
      else acc.shared

  share_entries : Dict Rep → List (String → String) → List Value → Dict Rep
  unfolding share_one without_lower tagged_modes offered_modes
  share_entries resources siblings [] = resources
  share_entries resources siblings (e ∷ es) =
      let main = rep_at resources mode_href in
      let spec = value_at main mode_spec_field in
      let live = list_of (value_at main supported_modes_field) in
      let tagged = tagged_modes (e ∷ es) in
      let offered = offered_modes tagged live in
      let start : Shared = record { shared = resources; copied = false; zoned = false } in
      let done = fold (share_one resources spec tagged offered) start siblings in
      if done.copied then without_lower main tagged live done else resources

  unfoldable pub share_mode_spec : Dict Rep → List (String → String) → Dict Rep
  unfolding share_entries
  share_mode_spec resources siblings =
      share_entries resources siblings
        (spec_entries j (value_at (rep_at resources mode_href) mode_spec_field))
