-- ===== src/Coordinator/Put.antt =====
-- coordinator.py: _async_put, which PUTs a body and tries again on a new session, and _took_effect
use localthings.Base.{
  ℕ, ◌/◌, String, Bool, true, false, not, ◌&&◌, Option, none, some, List, ◌∷◌, if◌then◌else◌, eqb,
  Value, Rep,
}
use localthings.Observe.State.{ObserveManager, Library, Clock, Mode, observe, poll}
use localthings.Observe.Settle.{mark_write_pending}
use localthings.Observe.Mode.{downgrade_to_poll}
use localthings.Coordinator.Presence.{payload_present_in}

-- What `sess.write` does: an answer with its CoAP code, an OvenStartUnconfirmed, or another
-- exception.
pub data Reply : Type 0 where
  answered : ℕ → Reply
  unconfirmed : Reply
  failed : Reply

-- The session's connection, its two requests, `asyncio.sleep` and the clock, over the state W of
-- everything outside this component. A connection that leaves no session counts as failed, as does
-- a read that raises, or that is not a dict.
pub record Transport (W : Type 0) : Type 0 where
  pub clock : W → Clock
  pub sleep : ℕ → W → W
  pub connect : W → W × Bool
  pub write : List String → Value → W → W × Reply
  pub read : List String → W → W × Option (ℕ × Rep)

-- The state of the coordinator that a write reads and changes, each PUT that was tried, its path
-- and its body, with what came of it, the newest first, and how many refreshes were requested.
pub record Coordinator (W C : Type 0) : Type 0 where
  pub world : W
  pub observed : ObserveManager C
  pub session : Bool
  pub resubscribe_due : Bool
  pub attempts : List (List String × Value × Reply)
  pub refreshes : ℕ

-- The translation keys of the errors.
pub data CommandError : Type 0 where
  cook_start_unconfirmed : CommandError
  command_failed : CommandError
  command_refused : CommandError
  command_not_confirmed : CommandError

-- the flags and functions of the entity's description
pub record Control : Type 0 where
  pub write_only : Bool
  pub merges_modes : Bool
  pub confirm_on_refusal : Bool
  pub optimistic_fn : Option (Rep → Rep)

-- `(code >> 5) == 2`
abbrev pub coap_accepted : ℕ → Bool
coap_accepted code = eqb (code / 32) 2

abbrev pub bad_request : ℕ
bad_request = 128

-- `_APPLIANCE_ANSWERED`
abbrev pub appliance_answered : CommandError → Bool
appliance_answered command_refused = true
appliance_answered command_not_confirmed = true
appliance_answered _ = false

is_observe : Mode → Bool
is_observe observe = true
is_observe poll = false

-- `_write_settle_s`, `_CONFIRM_DELAY_S` and `_RECONNECT_PAUSE_S`
pub record Delays : Type 0 where
  pub settle : ℕ
  pub confirm : ℕ
  pub reconnect : ℕ

-- The coordinator, the deadline of the window that the write armed last, and the error that is
-- raised, if one is.
pub record Sent (W C : Type 0) : Type 0 where
  pub coordinator : Coordinator W C
  pub armed : ℕ
  pub error : Option CommandError

-- what a write aims at: its href and path, its body, and whether Remote Control is off for it
pub record Target : Type 0 where
  pub href : String
  pub path : List String
  pub body : Value
  pub remote_control_off : Bool

module _ {W C : Type 0} (t : Transport W) (lib : Library C)
    (same_decimal : Value → Value → Bool) where
  -- `_do_put`
  unfoldable pub do_put : List String → Value → Coordinator W C → Coordinator W C × Reply
  do_put path body c =
      let (w, connected) = if c.session then (c.world, true) else t.connect c.world in
      let (w', reply) = t.write path body w in
      if connected
      then (
        record c { world = w'; session = true; attempts = (path, body, reply) ∷ c.attempts },
        reply,
      )
      else (
        record c { world = w; session = false; attempts = (path, body, failed) ∷ c.attempts },
        failed,
      )

  -- what a dead session leaves behind
  unfoldable pub drop_session : Coordinator W C → Coordinator W C
  unfolding is_observe
  drop_session c =
      if is_observe c.observed.mode
      then record c {
        session = false;
        observed = downgrade_to_poll (t.clock c.world) c.observed;
        resubscribe_due = true;
      }
      else record c { session = false }

  unfoldable pub took_effect :
      ℕ → List String → Value → Bool → Coordinator W C → Coordinator W C × Bool
  took_effect delay path body strict c =
      let (w, answer) = t.read path (t.sleep delay c.world) in
      let c' = record c { world = w } in
      let lax = record c { world = t.sleep delay c.world } in
      if c.session
      then elim answer [
        | none ↦ (c', not strict)
        | some (code, rep) ↦
            if coap_accepted code
            then (c', payload_present_in same_decimal body rep)
            else (c', not strict)
      ]
      else (lax, not strict)

  -- the settle window of the write's href, armed anew
  unfoldable pub arm : Delays → Control → String → Coordinator W C → ℕ → Coordinator W C × ℕ
  arm d desc href c armed =
      if desc.write_only
      then (c, armed)
      else let (m, deadline) =
          mark_write_pending (Clock.monotonic (t.clock c.world)) href d.settle c.observed in
        (record c { observed = m }, deadline)

  -- the end of _async_put, once the appliance has answered
  unfoldable pub judge : Delays → Control → Target → Coordinator W C → ℕ → ℕ → Sent W C
  unfolding took_effect
  judge d desc target c armed code =
      let (c', shown) = took_effect d.confirm target.path target.body true c in
      let asks = eqb code bad_request && (desc.confirm_on_refusal && not desc.write_only) in
      if asks && shown then record { coordinator = c'; armed = armed; error = none } else record {
        coordinator = if asks then c' else c;
        armed = armed;
        error = if coap_accepted code then none else some command_refused;
      }

  -- the second PUT, on a new session
  unfoldable pub retry : Delays → Control → Target → Coordinator W C → ℕ → Sent W C
  unfolding do_put arm judge
  retry d desc target c armed =
      let rested = record c { world = t.sleep d.reconnect c.world } in
      let (c', reply) = do_put target.path target.body rested in
      elim reply [
        | unconfirmed ↦ record {
          coordinator = c';
          armed = armed;
          error = some cook_start_unconfirmed;
        }
        | failed ↦ record { coordinator = c'; armed = armed; error = some command_failed }
        | answered code ↦
            let (c2, armed') = arm d desc target.href c' armed in judge d desc target c2 armed' code
      ]

  unfoldable pub async_put : Delays → Control → Target → Coordinator W C → ℕ → Sent W C
  unfolding do_put drop_session retry judge
  async_put d desc target c armed =
      let (c', reply) = do_put target.path target.body c in
      elim reply [
        | unconfirmed ↦ record {
          coordinator = drop_session c';
          armed = armed;
          error = some cook_start_unconfirmed;
        }
        | failed ↦ retry d desc target (drop_session c') armed
        | answered code ↦ judge d desc target c' armed code
      ]
