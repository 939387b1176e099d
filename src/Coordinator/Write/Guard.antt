-- ===== src/Coordinator/Write/Guard.antt =====
-- The settle windows while a write is under way, and once it has failed.
use localthings.Coordinator.Put.{
  appliance_answered, Transport, Coordinator, Reply, answered, unconfirmed, failed, Control,
  CommandError, Delays, Sent, Target, bad_request, do_put, drop_session, took_effect, arm, judge,
  retry, async_put,
}
use localthings.Coordinator.Write.{
  undo_window, confirmed, settled, show_optimistic, request_refresh, send_command,
}
use localthings.Base.{
  is_some, ℕ, ◌+◌, ◌≤◌, String, Bool, true, false, not, ◌&&◌, Option, some, List, Value, ◌≡◌, refl,
  sym, ap, ◌∙◌, inl, inr, ◌⊎◌, Bool-cases, Option-cases, arith, ◌==◌, if◌then◌else◌, eqb,
}
use localthings.Base.Dict
use localthings.Base.Dict.{Dict, get-put}
use localthings.Observe.State.{ObserveManager, Library, Clock}
use localthings.Observe.Settle.{is_settling, mark_write_pending, settle_deadline}
use localthings.Observe.Settle.Windows.{is_open, is_settling_open, is_settling-undo}
use localthings.Observe.Mode.{downgrade_to_poll}
use localthings.Observe.Apply.{apply}

-- Where a write arms a window, its href's deadline is the one that was armed last, and every other
-- href's is the one of before.
abbrev Guarded : Bool → String → Dict ℕ → Dict ℕ → ℕ → Type 0
Guarded write_only href before now armed =
    (i : String)
    → Dict.get now i ≡ (if not write_only && href == i then some armed else Dict.get before i)

downgrade-settle_until :
    {C : Type 0} (clock : Clock) (m : ObserveManager C)
    → (downgrade_to_poll clock m).settle_until ≡ m.settle_until
unfolding downgrade_to_poll
downgrade-settle_until clock m = ground arith

pub Reply-cases :
    (r : Reply) → (r ≡ unconfirmed) ⊎ (r ≡ failed) ⊎ ((code : ℕ) × (r ≡ answered code))
Reply-cases unconfirmed = inl refl
Reply-cases failed = inr (inl refl)
Reply-cases (answered code) = inr (inr (code, refl))

module _ {W C : Type 0} (t : Transport W) (lib : Library C)
    (same_decimal : Value → Value → Bool) where
  windows : Coordinator W C → Dict ℕ
  windows c = c.observed.settle_until

  do_put-windows :
      (path : List String) (body : Value) (c : Coordinator W C)
      → windows (do_put t lib same_decimal path body c).0 ≡ windows c
  unfolding do_put windows
  do_put-windows path body c = ground arith

  drop-windows : (c : Coordinator W C) → windows (drop_session t lib same_decimal c) ≡ windows c
  unfolding drop_session windows
  drop-windows c = ground (arith, downgrade-settle_until (t.clock c.world) c.observed)

  took_effect-windows :
      (delay : ℕ) (path : List String) (body : Value) (strict : Bool) (c : Coordinator W C)
      → windows (took_effect t lib same_decimal delay path body strict c).0 ≡ windows c
  unfolding took_effect windows
  took_effect-windows delay path body strict c = ground arith

  module _ (d : Delays) (desc : Control) (target : Target) (before : Dict ℕ) where
    IsGuarded : Coordinator W C → ℕ → Type 0
    IsGuarded c armed = Guarded desc.write_only target.href before (windows c) armed

    IsSafe : Sent W C → Type 0
    IsSafe s = IsGuarded s.coordinator s.armed

    moved :
        (c c' : Coordinator W C) (armed : ℕ)
        → windows c' ≡ windows c
        → IsGuarded c armed
        → IsGuarded c' armed
    unfolding IsGuarded
    moved c c' armed e g i = ap (λ now. Dict.get now i) e ∙ g i

    arm-IsGuarded :
        (c : Coordinator W C) (armed : ℕ)
        → ((i : String)
            → not desc.write_only && target.href == i ≡ false
            → Dict.get (windows c) i ≡ Dict.get before i)
        → IsGuarded
            (arm t lib same_decimal d desc target.href c armed).0
            (arm t lib same_decimal d desc target.href c armed).1
    unfolding arm IsGuarded windows mark_write_pending
    arm-IsGuarded c armed others i = elim (Bool-cases desc.write_only) [
      | inl only ↦ ground (arith, only, others i)
      | inr readable ↦ ground (
        arith,
        readable,
        others i,
        get-put c.observed.settle_until target.href i
            (Clock.monotonic (t.clock c.world) + d.settle),
      )
    ]

    judge-IsSafe :
        (c : Coordinator W C) (armed code : ℕ)
        → IsGuarded c armed
        → IsSafe (judge t lib same_decimal d desc target c armed code)
    unfolding judge IsSafe
    judge-IsSafe c armed code g =
        let after = (took_effect t lib same_decimal d.confirm target.path target.body true c).0 in
        let shown = (took_effect t lib same_decimal d.confirm target.path target.body true c).1 in
        let g' =
          moved c after armed (took_effect-windows d.confirm target.path target.body true c) g in
        let asks = eqb code bad_request && (desc.confirm_on_refusal && not desc.write_only) in
        elim (Bool-cases asks) [
          | inl good ↦ elim (Bool-cases shown) [
            | inl good2 ↦ rw (good, good2, judge) g'
            | inr bad ↦ rw (good, bad, judge) g'
          ]
          | inr bad ↦ rw (bad, judge) g
        ]

    others-IsGuarded :
        (c : Coordinator W C) (armed : ℕ)
        → IsGuarded c armed
        → (i : String) → not desc.write_only && target.href == i ≡ false
        → Dict.get (windows c) i ≡ Dict.get before i
    unfolding IsGuarded
    others-IsGuarded c armed g i h = ground (arith, g i, h)

    retry-IsSafe :
        (c : Coordinator W C) (armed : ℕ)
        → IsGuarded c armed
        → IsSafe (retry t lib same_decimal d desc target c armed)
    unfolding retry IsSafe windows
    retry-IsSafe c armed g =
        let rested = record c { world = t.sleep d.reconnect c.world } in
        let c' = (do_put t lib same_decimal target.path target.body rested).0 in
        let g' = moved c c' armed (do_put-windows target.path target.body rested) g in
        elim (Reply-cases (do_put t lib same_decimal target.path target.body rested).1) [
          | inl e ↦ rw (e, retry) g'
          | inr (inl e) ↦ rw (e, retry) g'
          | inr (inr (code, e)) ↦
              rw (e, retry)
                (judge-IsSafe (arm t lib same_decimal d desc target.href c' armed).0
                  (arm t lib same_decimal d desc target.href c' armed).1 code
                  (arm-IsGuarded c' armed (others-IsGuarded c' armed g')))
        ]

    async_put-IsSafe :
        (c : Coordinator W C) (armed : ℕ)
        → IsGuarded c armed
        → IsSafe (async_put t lib same_decimal d desc target c armed)
    unfolding async_put IsSafe
    async_put-IsSafe c armed g =
        let c' = (do_put t lib same_decimal target.path target.body c).0 in
        let g' = moved c c' armed (do_put-windows target.path target.body c) g in
        let dropped = moved c' (drop_session t lib same_decimal c') armed (drop-windows c') g' in
        elim (Reply-cases (do_put t lib same_decimal target.path target.body c).1) [
          | inl e ↦ rw (e, async_put) dropped
          | inr (inl e) ↦
              rw (e, async_put) (retry-IsSafe (drop_session t lib same_decimal c') armed dropped)
          | inr (inr (code, e)) ↦ rw (e, async_put) (judge-IsSafe c' armed code g')
        ]

    confirmed-IsSafe :
        (s : Sent W C) → IsSafe s → IsSafe (confirmed t lib same_decimal d desc target s)
    unfolding confirmed IsSafe
    confirmed-IsSafe s g =
        let c = s.coordinator in
        let c' = (took_effect t lib same_decimal d.confirm target.path target.body false c).0 in
        let g' =
          moved c c' s.armed (took_effect-windows d.confirm target.path target.body false c) g in
        elim (Bool-cases
          (not (is_some s.error) && (target.remote_control_off && not desc.write_only))) [
            | inl good ↦ rw (good, confirmed) g'
            | inr bad ↦ rw (bad, confirmed) g
          ]

    settled-undone :
        (s : Sent W C) (previous : Option ℕ) (e : CommandError)
        → (settled t lib same_decimal desc target previous s).1 ≡ some e
        → ((settled t lib same_decimal desc target previous s).0.observed
            ≡ (undo_window t lib same_decimal desc target previous s).observed)
          × ((settled t lib same_decimal desc target previous s).0.world ≡ s.coordinator.world)
    unfolding settled undo_window request_refresh
    settled-undone s previous e h = elim (Option-cases s.error) [
      | inl bad ↦ absurd (ground (arith, bad, h))
      | inr (e', good) ↦ elim (Bool-cases (appliance_answered e')) [
        | inl yes_ ↦ rw (good, yes_, settled) (refl, ground arith)
        | inr no_ ↦ rw (good, no_, settled) (refl, ground arith)
      ]
    ]

    undo-settles :
        (s : Sent W C) (m : ObserveManager C) (time : ℕ) (j : String)
        → before ≡ m.settle_until
        → IsSafe s
        → Clock.monotonic (t.clock s.coordinator.world) ≤ time
        → (is_settling time j
            (undo_window t lib same_decimal desc target
              (settle_deadline m target.href)
              s).observed).0
          ≡ (is_settling time j m).0
    unfolding undo_window IsSafe IsGuarded windows settle_deadline
    undo-settles s m time j same g h = elim (Bool-cases desc.write_only) [
      | inl only ↦ rw only (
          is_settling_open s.coordinator.observed time j
          ∙ ap (is_open time) (ground (arith, only, g j, same))
          ∙ sym (is_settling_open m time j))
      | inr readable ↦ rw readable (
          is_settling-undo m s.coordinator.observed s.armed
            (Clock.monotonic (t.clock s.coordinator.world)) time target.href j
            (λ i. ground (arith, readable, same, g i)) h)
    ]

  optimistic-windows :
      (desc : Control) (target : Target) (c : Coordinator W C)
      → windows (show_optimistic t lib same_decimal desc target c) ≡ windows c
  unfolding show_optimistic windows apply
  optimistic-windows desc target c = ground arith

  -- A write that fails, whatever the appliance and its session did, leaves every href settling as it
  -- did before the write, at any time from the failure on: the window that the write opened, and the
  -- one that its retry opened anew, are undone.
  pub send_command-settles :
      (d : Delays) (desc : Control) (target : Target) (c : Coordinator W C) (e : CommandError)
      (time : ℕ) (j : String)
      → (send_command t lib same_decimal d desc target c).1 ≡ some e
      → Clock.monotonic (t.clock (send_command t lib same_decimal d desc target c).0.world) ≤ time
      → (is_settling time j (send_command t lib same_decimal d desc target c).0.observed).0
        ≡ (is_settling time j c.observed).0
  unfolding send_command windows
  send_command-settles d desc target c e time j fails h =
      let before = windows c in
      let shown = show_optimistic t lib same_decimal desc target c in
      let armed = arm t lib same_decimal d desc target.href shown 0 in
      let sent =
        confirmed t lib same_decimal d desc target
          (async_put t lib same_decimal d desc target armed.0 armed.1) in
      let previous = settle_deadline c.observed target.href in
      let guarded =
        arm-IsGuarded d desc target before shown 0
          (λ i q. ap (λ now. Dict.get now i) (optimistic-windows desc target c)) in
      let safe =
        confirmed-IsSafe d desc target before
          (async_put t lib same_decimal d desc target armed.0 armed.1)
          (async_put-IsSafe d desc target before armed.0 armed.1 guarded) in
      let parts = settled-undone d desc target before sent previous e fails in
      ap (λ m. (is_settling time j m).0) parts.0
      ∙ undo-settles d desc target before sent c.observed time j refl safe (rw (sym parts.1) h)
