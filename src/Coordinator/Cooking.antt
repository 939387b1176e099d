-- ===== src/Coordinator/Cooking.antt =====
-- coordinator.py: holding what is chosen for a cook, and starting it
pub mod Started
use localthings.Base.{
  ℕ, suc, String, Bool, true, false, not, ◌&&◌, ◌||◌, Option, none, some, List, [], ◌∷◌, ◌==◌,
  if◌then◌else◌, is_some, concat, map, Rep, Value, list, ℤ,
}
use localthings.Base.Dict.{Dict}
use localthings.Observe.State.{Library}
use localthings.Registry.Subdevices.Defs.{
  Subdevice, Kind, main, to_actual, canonical_view, main_subdevice,
}
use localthings.Registry.Cook.Specs.{Json}
use localthings.Registry.Cook.Sharing.{with_cached_specs, share_mode_spec}
use localthings.Registry.Cook.Views.{is_idle, startable_modes}
use localthings.Registry.Cook.Start.{
  Number, Floats, Checked, accepted, refused, CookPlan, CookStartError, plan_start, batch,
  not_supported,
}
use localthings.Registry.Cook.Held.{Choices, HeldCook, Choice, holds, hold, plan, clear}
use localthings.Coordinator.Put.{
  Transport, Coordinator, CommandError, Control, Delays, Sent, Target, async_put,
}

-- What a start is refused for: Remote Control, the board's declaration, or the write.
pub data StartError : Type 0 where
  remote_control_disabled : StartError
  not_startable : CookStartError → StartError
  not_written : CommandError → StartError

-- the other subdevices' mappers
siblings_of : List Subdevice → List (String → String)
siblings_of [] = []
siblings_of (s ∷ ss) = elim s.kind [
  | main ↦ siblings_of ss
  | _ ↦ (λ href. to_actual s href) ∷ siblings_of ss
]

-- the href mapper of a cavity's own collection, none for the main one
pub mapper : Subdevice → Option (String → String)
mapper s = elim s.kind [ main ↦ none | _ ↦ some (λ href. to_actual s href) ]

has_path : List String → Bool
has_path [] = false
has_path _ = true

joined_path : List String → String
joined_path [] = ""
joined_path (s ∷ ss) = concat "/" (concat s (joined_path ss))

-- The write is no entity's: it opens no window, and no read confirms it.
abbrev pub plain_write : Control
plain_write = record {
  write_only = true;
  merges_modes = false;
  confirm_on_refusal = false;
  optimistic_fn = none;
}

module _ (j : Json) (cached : Dict Value) (subdevices : List Subdevice) where
  -- `_cook_view`
  unfoldable pub cook_view : Dict Rep → Dict Rep
  unfolding siblings_of
  cook_view resources =
      share_mode_spec j (with_cached_specs j resources cached) (siblings_of subdevices)

  -- `_cavity_resources`
  unfoldable pub cavity_resources : Subdevice → Dict Rep → Dict Rep
  unfolding cook_view
  cavity_resources s resources = canonical_view s (cook_view resources) subdevices

  module _ {F : Type 0} (fl : Floats F) where
    -- `_holds_cook`
    unfoldable pub holds_cook : Subdevice → Dict Rep → Bool
    unfolding has_path cavity_resources
    holds_cook s resources =
        let view = cavity_resources s resources in is_idle view && has_path (startable_modes j view)

    -- the plan of a start: what is held, or what the call asks for
    unfoldable pub planned : Choices F → HeldCook F → Dict Rep → HeldCook F × Checked CookPlan
    planned asked held view =
        if holds asked
        then (held, plan_start fl j view asked.mode asked.temperature asked.duration true)
        else plan fl j held view

    -- once the write has ended
    concluded :
        {W C : Type 0} → HeldCook F → Sent W C → Coordinator W C × HeldCook F × Option StartError
    concluded held sent = elim sent.error [
      | some e ↦ (sent.coordinator, held, some (not_written e))
      | none ↦
          (record sent.coordinator { refreshes = suc sent.coordinator.refreshes }, clear held, none)
    ]

    module _ {W C : Type 0} (t : Transport W) (lib : Library C)
        (same_decimal : Value → Value → Bool) where
      -- the batch of a plan, to the cavity's own collection
      send_plan : Delays → Subdevice → CookPlan → Coordinator W C → Sent W C
      unfolding mapper joined_path
      send_plan d s p c =
          async_put t lib same_decimal d plain_write
            (record {
              href = joined_path s.seed_path;
              path = s.seed_path;
              body = list (batch p (mapper s));
              remote_control_off = false;
            })
            c 0

      launched :
          Delays
          → Subdevice
          → HeldCook F × Checked CookPlan
          → Coordinator W C
          → Coordinator W C × HeldCook F × Option StartError
      unfolding send_plan concluded
      launched d s (held, refused e) c = (c, held, some (not_startable e))
      launched d s (held, accepted p) c = concluded held (send_plan d s p c)

      -- The Remote Control test comes before the plan.
      unfoldable pub start_cooking :
          Delays
          → Subdevice
          → Bool
          → Choices F
          → HeldCook F
          → Dict Rep
          → Coordinator W C
          → Coordinator W C × HeldCook F × Option StartError
      unfolding has_path planned cavity_resources launched
      start_cooking d s remote_control asked held resources c =
          if not (has_path s.seed_path)
          then (c, held, some (not_startable not_supported))
          else if not remote_control
          then (c, held, some remote_control_disabled)
          else launched d s (planned asked held (cavity_resources s resources)) c
