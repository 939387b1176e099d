-- ===== src/Examples/Starting.antt =====
-- coordinator.py starting a cook on an idle oven
use localthings.Base.{
  ℕ, String, Bool, true, false, ◌≡◌, refl, Option, none, some, List, [], ◌∷◌, Rep, pos,
}
use localthings.Base.Data.Equal.{eq}
use localthings.Base.Dict
use localthings.Base.Dict.{Dict}
use localthings.Base.Int.{◌+ℤ◌, times}
use localthings.Base.Text.{split}
use localthings.Registry.Subdevices.Defs.{main_subdevice, canonical_view, owns}
use localthings.Registry.Cook.Times.{parse_hms}
use localthings.Registry.Cook.Fields.{device_unit, temp_item}
use localthings.Registry.Cook.Specs.{mode_specs, int_or_none, spec_entries, temp_spec, has_entries}
use localthings.Registry.Cook.Views.{
  is_idle, startable_modes, declares_start, step_of, temp_for, current_mode, operation_ready,
}
use localthings.Registry.Cook.Sharing.{with_cached_specs, share_mode_spec}
use localthings.Registry.Cook.Start.{float, plan_start, round, at_step, not_supported}
use localthings.Registry.Cook.Held.{Choices, holds}
use localthings.Coordinator.Put.{Coordinator, answered, async_put}
use localthings.Coordinator.Cooking.{start_cooking, cavity_resources, cook_view, planned}
use localthings.Coordinator.Cooking.Started.{Sends, start_cooking-Sends, start_cooking-rejects}
use localthings.Examples.Cooking.{texts, halves, oven, running, held_200}
use localthings.Examples.Observing.{table_cache, fridge}
use localthings.Examples.Writing.{World, line, same, delays}

abbrev accepting : Coordinator World (Dict Rep)
accepting = record {
  world = (answered 68 ∷ [], 6000);
  observed = fridge;
  session = true;
  resubscribe_due = false;
  attempts = [];
  refreshes = 0;
}

abbrev asked : Choices ℕ
asked = record { mode = some "Bake"; temperature = some (float 403); duration = some (pos 600) }

start_cooking-Sends_example :
    Sends texts []
      (main_subdevice ∷ [])
      halves
      line
      table_cache
      same
      asked
      held_200
      main_subdevice
      oven
      accepting
      (start_cooking texts []
        (main_subdevice ∷ [])
        halves
        line
        table_cache
        same
        delays
        main_subdevice
        true
        asked
        held_200
        oven
        accepting).0
    × (holds
          (start_cooking texts []
            (main_subdevice ∷ [])
            halves
            line
            table_cache
            same
            delays
            main_subdevice
            true
            asked
            held_200
            oven
            accepting).1.values
        ≡ false)
unfolding start_cooking planned cavity_resources cook_view canonical_view owns with_cached_specs
    share_mode_spec plan_start declares_start is_idle startable_modes mode_specs device_unit
    temp_item step_of temp_for current_mode operation_ready spec_entries has_entries temp_spec
    int_or_none eq parse_hms round at_step ◌+ℤ◌ times Dict.get Dict.put Dict.merge split async_put
    localthings.Base.Decimal.parse_decimal
start_cooking-Sends_example =
    start_cooking-Sends texts [] (main_subdevice ∷ []) halves line table_cache same delays
      main_subdevice true asked held_200 oven accepting refl

start_cooking-rejects_example :
    (start_cooking texts []
      (main_subdevice ∷ [])
      halves
      line
      table_cache
      same
      delays
      main_subdevice
      true
      asked
      held_200
      running
      accepting).0
    ≡ accepting
unfolding start_cooking planned cavity_resources cook_view canonical_view owns with_cached_specs
    share_mode_spec plan_start declares_start is_idle startable_modes mode_specs device_unit
    temp_item step_of temp_for current_mode operation_ready spec_entries has_entries temp_spec
    int_or_none eq Dict.get Dict.put Dict.merge
start_cooking-rejects_example =
    start_cooking-rejects texts [] (main_subdevice ∷ []) halves line table_cache same delays
      main_subdevice true asked held_200 running accepting not_supported refl
