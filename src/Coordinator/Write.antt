-- ===== src/Coordinator/Write.antt =====
-- coordinator.py: async_send_command from the call of write_fn on
pub mod Guard
pub mod Outcomes
use localthings.Base.{
  ℕ, zero, suc, ◌+◌, ◌/◌, ◌*◌, String, Bool, true, false, not, ◌&&◌, ◌||◌, Option, none, some, List,
  [], ◌∷◌, ◌++◌, ◌==◌, if◌then◌else◌, default, eqb, segments, concat, strip, fold, Value, Rep, str,
  null, obj, list, dict, is_some,
}
use localthings.Base.Dict
use localthings.Base.Dict.{Dict}
use localthings.Registry.Common.Options.{merge_options_field}
use localthings.Registry.Common.Rows.{merge_items_field}
use localthings.Observe.State.{ObserveManager, Library, Clock, Mode, observe, poll}
use localthings.Observe.Settle.{mark_write_pending, settle_deadline, restore_write_pending}
use localthings.Observe.Apply.{apply, as_list, options_field}
use localthings.Observe.Mode.{downgrade_to_poll}
use localthings.Registry.Cook.Fields.{items_field}
use localthings.Registry.Cook.Views.{modes_field}
use localthings.Coordinator.Put.{
  Reply, answered, unconfirmed, failed, Transport, Coordinator, CommandError,
  cook_start_unconfirmed, command_failed, command_refused, command_not_confirmed, Control,
  coap_accepted, bad_request, appliance_answered, Delays, Sent, Target, do_put, drop_session,
  took_effect, arm, judge, retry, async_put,
}
use localthings.Coordinator.Presence.{id_field, fields_of, payload_present_in}

-- a list that a write holds, merged with the cached one
merge_list : (List Value → List Value → List Value) → Rep → String → Rep → Rep
merge_list merge cached key body = elim (as_list (Dict.get body key)) [
  | none ↦ body
  | some new ↦ Dict.put body key (list (merge (default [] (as_list (Dict.get cached key))) new))
]

-- the body as the appliance itself merges it
unfoldable pub optimistic_body : Control → Rep → Rep → Rep
unfolding merge_list
optimistic_body desc cached body =
    let full : Rep = elim desc.optimistic_fn [ none ↦ body | some f ↦ f body ] in
    let options = merge_list merge_options_field cached options_field full in
    let modes =
      if desc.merges_modes
      then merge_list merge_options_field cached modes_field options
      else options in
    let rows =
      merge_list (λ old new. merge_items_field old new id_field) cached items_field modes in
    merge_list (λ old new. merge_items_field old new "name") cached
      "x.com.samsung.networkaudio.channelVolume" rows

module _ {W C : Type 0} (t : Transport W) (lib : Library C)
    (same_decimal : Value → Value → Bool) where
  request_refresh : Coordinator W C → Coordinator W C
  request_refresh c = record c { refreshes = suc c.refreshes }

  -- the check of a write that was sent although Remote Control is off
  confirmed : Delays → Control → Target → Sent W C → Sent W C
  unfolding took_effect
  confirmed d desc target s =
      let (c', shown) =
        took_effect t lib same_decimal d.confirm target.path target.body false s.coordinator in
      if not (is_some s.error) && (target.remote_control_off && not desc.write_only)
      then record {
        coordinator = c';
        armed = s.armed;
        error = if shown then none else some command_not_confirmed;
      }
      else s

  -- the settle window as it was before the write
  undo_window : Control → Target → Option ℕ → Sent W C → Coordinator W C
  undo_window desc target previous s =
      let c = s.coordinator in
      if desc.write_only then c else record c {
        observed =
            restore_write_pending (Clock.monotonic (t.clock c.world)) target.href previous s.armed
              c.observed;
      }

  -- the handler of the errors, and the refresh that follows
  settled : Control → Target → Option ℕ → Sent W C → Coordinator W C × Option CommandError
  unfolding request_refresh undo_window
  settled desc target previous s =
      let undone = undo_window desc target previous s in
      elim s.error [
        | none ↦ (request_refresh s.coordinator, none)
        | some e ↦ (if appliance_answered e then request_refresh undone else undone, some e)
      ]

  -- the optimistic value in the cache
  show_optimistic : Control → Target → Coordinator W C → Coordinator W C
  unfolding optimistic_body
  show_optimistic desc target c =
      if desc.write_only
      then c
      else let cached = default [] (lib.get c.observed.cache target.href) in
        record c {
          observed =
              (apply lib (Clock.monotonic (t.clock c.world)) target.href
                (optimistic_body desc cached (fields_of target.body)) "optimistic"
                c.observed).manager;
        }

  -- A write that is cancelled is left out, and nothing else runs between the steps of one write.
  unfoldable pub send_command :
      Delays → Control → Target → Coordinator W C → Coordinator W C × Option CommandError
  unfolding show_optimistic arm async_put confirmed settled
  send_command d desc target c =
      let previous = settle_deadline c.observed target.href in
      let (c', armed) =
        arm t lib same_decimal d desc target.href (show_optimistic desc target c) 0 in
      settled desc target previous
        (confirmed d desc target (async_put t lib same_decimal d desc target c' armed))
