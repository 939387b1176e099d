-- ===== src/Observe/Apply.antt =====
-- observe.py: `ObserveManager.apply`, the one way into the cache
pub mod Gate
pub mod Tokens
use localthings.Base.{
  ℕ, String, Bool, true, false, Option, none, some, List, [], default, rsplit, endswith, ◌==◌,
  if◌then◌else◌, Rep, Value, arr, items, list,
}
use localthings.Base.Dict
use localthings.Registry.Common.Options.{merge_options_field}
use localthings.Observe.State.{ObserveManager, Library}
use localthings.Observe.Settle.{is_settling}

abbrev pub options_field : String
options_field = "x.com.samsung.da.options"

-- `/alarms/vs/<index>` in any subdevice's form
unfoldable pub is_alarms_href : String → Bool
is_alarms_href href = elim (rsplit b'/' href) [
  | none ↦ false
  | some (head, tail) ↦ endswith head "/alarms/vs"
]

-- `isinstance(v, list)`, with the elements
abbrev pub as_list : Option Value → Option (List Value)
as_list (some (arr vs)) = some (items vs)
as_list _ = none

-- the options of a notify are merged by token prefix, if both reps hold a list of them
with_options : Option (List Value) → Option (List Value) → Rep → Rep
with_options (some new) (some cached) merged =
    Dict.put merged options_field (list (merge_options_field cached new))
with_options _ _ merged = merged

unfoldable pub merged_rep : String → String → Rep → Rep → Rep
unfolding is_alarms_href with_options
merged_rep source href prior rep =
    let merged = if is_alarms_href href then rep else Dict.merge prior rep in
    if source == "observe"
    then with_options (as_list (Dict.get rep options_field))
        (as_list (Dict.get prior options_field)) merged
    else merged

-- What `apply` leaves: the manager, whether the cache changed, and the call of the hook that
-- `set_on_applied` registered, with its arguments.
pub record Applied (C : Type 0) : Type 0 where
  pub manager : ObserveManager C
  pub changed : Bool
  pub hook : Option (String × Rep × String)

module _ {C : Type 0} where
  unfoldable pub set_on_applied : ObserveManager C → ObserveManager C
  set_on_applied m = record m { has_hook = true }

module _ {C : Type 0} (lib : Library C) where
  -- under the cache lock
  accept : String → Rep → String → ObserveManager C → Applied C
  accept href rep source m =
      let prior = default [] (lib.get m.cache href) in
      let merged = merged_rep source href prior rep in
      let (cache', changed) = lib.apply_rep m.cache href merged source in
      record {
        manager = record m { cache = cache' };
        changed = changed;
        hook = if m.has_hook then some (href, merged, source) else none;
      }

  unfoldable pub apply : ℕ → String → Rep → String → ObserveManager C → Applied C
  unfolding accept
  apply now href rep source m =
      let (settling, m') = if source == "optimistic" then (false, m) else is_settling now href m in
      if settling
      then record { manager = m'; changed = false; hook = none }
      else accept href rep source m'
