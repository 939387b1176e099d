-- ===== src/Coordinator/Write/Outcomes.antt =====
-- Which PUTs a write tries, and how it ends by what came of them.
use localthings.Base.{
  ℕ, String, Bool, true, false, not, ◌&&◌, ◌||◌, Option, none, some, List, [], ◌∷◌, ◌++◌, map,
  Value, ◌≡◌, refl, sym, ap, ◌∙◌, inl, inr, Bool-cases, Option-cases, arith, eqb, is_some,
}
use localthings.Observe.State.{Library}
use localthings.Observe.Settle.{settle_deadline}
use localthings.Coordinator.Put.{
  Transport, Coordinator, Reply, answered, unconfirmed, failed, Control, CommandError, Delays, Sent,
  Target, cook_start_unconfirmed, command_failed, command_refused, command_not_confirmed,
  bad_request, coap_accepted, do_put, drop_session, took_effect, arm, judge, retry, async_put,
}
use localthings.Coordinator.Write.{
  confirmed, settled, show_optimistic, request_refresh, send_command, undo_window,
}
use localthings.Coordinator.Write.Guard.{Reply-cases}

-- how a write may end once the appliance has answered with the code
abbrev pub ends : Control → ℕ → Option CommandError → Bool
ends desc code none =
    coap_accepted code || (eqb code bad_request && (desc.confirm_on_refusal && not desc.write_only))
ends desc code (some command_refused) = not (coap_accepted code)
ends desc code _ = false

-- How a write may end by what came of its PUTs, the newest first: only a PUT that failed is tried
-- again, and only once.
abbrev pub follows : Control → List Reply → Option CommandError → Bool
follows desc (unconfirmed ∷ []) (some cook_start_unconfirmed) = true
follows desc (answered code ∷ []) e = ends desc code e
follows desc (unconfirmed ∷ failed ∷ []) (some cook_start_unconfirmed) = true
follows desc (failed ∷ failed ∷ []) (some command_failed) = true
follows desc (answered code ∷ failed ∷ []) e = ends desc code e
follows desc _ _ = false

-- A write that went through, but was sent although Remote Control is off, may be unconfirmed too.
abbrev pub may_end : Control → Target → List Reply → Option CommandError → Bool
may_end desc target replies (some command_not_confirmed) =
    target.remote_control_off && (not desc.write_only && follows desc replies none)
may_end desc target replies e = follows desc replies e

module _ {W C : Type 0} (t : Transport W) (lib : Library C)
    (same_decimal : Value → Value → Bool) where
  do_put-attempts :
      (path : List String) (body : Value) (c : Coordinator W C)
      → (do_put t lib same_decimal path body c).0.attempts
        ≡ (path, body, (do_put t lib same_decimal path body c).1) ∷ c.attempts
  unfolding do_put
  do_put-attempts path body c = ground arith

  drop-attempts : (c : Coordinator W C) → (drop_session t lib same_decimal c).attempts ≡ c.attempts
  unfolding drop_session
  drop-attempts c = ground arith

  took_effect-attempts :
      (delay : ℕ) (path : List String) (body : Value) (strict : Bool) (c : Coordinator W C)
      → (took_effect t lib same_decimal delay path body strict c).0.attempts ≡ c.attempts
  unfolding took_effect
  took_effect-attempts delay path body strict c = ground arith

  module _ (d : Delays) (desc : Control) (target : Target) where
    arm-attempts :
        (c : Coordinator W C) (armed : ℕ)
        → (arm t lib same_decimal d desc target.href c armed).0.attempts ≡ c.attempts
    unfolding arm
    arm-attempts c armed = ground arith

    judge-ends :
        (c : Coordinator W C) (armed code : ℕ)
        → ((judge t lib same_decimal d desc target c armed code).coordinator.attempts ≡ c.attempts)
          × (ends desc code (judge t lib same_decimal d desc target c armed code).error ≡ true)
    unfolding judge
    judge-ends c armed code =
        let same = took_effect-attempts d.confirm target.path target.body true c in
        (ground (arith, same), ground arith)

    -- the attempts that a write adds, and how it may end by them
    unfoldable pub Follows : List (List String × Value × Reply) → Sent W C → Type 0
    Follows before s =
        (replies : List Reply) × (s.coordinator.attempts
          ≡ map (λ r. (target.path, target.body, r)) replies ++ before)
        × (follows desc replies s.error ≡ true)

    retry-Follows :
        (c : Coordinator W C) (armed : ℕ) (before : List (List String × Value × Reply))
        → c.attempts ≡ (target.path, target.body, failed) ∷ before
        → Follows before (retry t lib same_decimal d desc target c armed)
    unfolding retry Follows
    retry-Follows c armed before h =
        let rested = record c { world = t.sleep d.reconnect c.world } in
        let put = do_put t lib same_decimal target.path target.body rested in
        let tried = do_put-attempts target.path target.body rested in
        elim (Reply-cases put.1) [
          | inl e ↦ rw (e, retry) (unconfirmed ∷ failed ∷ [], ground (arith, tried, e, h), refl)
          | inr (inl e) ↦ rw (e, retry) (failed ∷ failed ∷ [], ground (arith, tried, e, h), refl)
          | inr (inr (code, e)) ↦
              let armed' = arm t lib same_decimal d desc target.href put.0 armed in
              let j = judge-ends armed'.0 armed'.1 code in
              rw (e, retry)
                (
                  answered code ∷ failed ∷ [],
                  ground (arith, tried, e, h, j.0, arm-attempts put.0 armed),
                  j.1,
                )
        ]

    pub async_put-Follows :
        (c : Coordinator W C) (armed : ℕ)
        → Follows c.attempts (async_put t lib same_decimal d desc target c armed)
    unfolding async_put Follows
    async_put-Follows c armed =
        let put = do_put t lib same_decimal target.path target.body c in
        let tried = do_put-attempts target.path target.body c in
        elim (Reply-cases put.1) [
          | inl e ↦
              rw (e, async_put)
                (unconfirmed ∷ [], ground (arith, tried, e, drop-attempts put.0), refl)
          | inr (inl e) ↦
              rw (e, async_put)
                (retry-Follows (drop_session t lib same_decimal put.0) armed c.attempts
                  (ground (arith, tried, e, drop-attempts put.0)))
          | inr (inr (code, e)) ↦
              let j = judge-ends put.0 armed code in
              rw (e, async_put) (answered code ∷ [], ground (arith, tried, e, j.0), j.1)
        ]

    -- the same for the whole write
    MayEnd : List (List String × Value × Reply) → Sent W C → Type 0
    MayEnd before s =
        (replies : List Reply) × (s.coordinator.attempts
          ≡ map (λ r. (target.path, target.body, r)) replies ++ before)
        × (may_end desc target replies s.error ≡ true)

    not_unconfirmed :
        (replies : List Reply) → follows desc replies (some command_not_confirmed) ≡ true → ⊥
    not_unconfirmed replies h = ground (arith, h)

    follows-may_end :
        (replies : List Reply) (e : Option CommandError)
        → follows desc replies e ≡ true
        → may_end desc target replies e ≡ true
    follows-may_end replies none h = h
    follows-may_end replies (some command_not_confirmed) h = absurd (not_unconfirmed replies h)
    follows-may_end replies (some _) h = h

    none_of : (e : Option CommandError) → is_some e ≡ false → e ≡ none
    none_of e h = ground (arith, h)

    confirmed-MayEnd :
        (before : List (List String × Value × Reply)) (s : Sent W C)
        → Follows before s
        → MayEnd before (confirmed t lib same_decimal d desc target s)
    unfolding confirmed Follows MayEnd
    confirmed-MayEnd before s f =
        let read =
          took_effect t lib same_decimal d.confirm target.path target.body false s.coordinator in
        let same = took_effect-attempts d.confirm target.path target.body false s.coordinator in
        elim (Bool-cases
          (not (is_some s.error) && (target.remote_control_off && not desc.write_only))) [
            | inr bad ↦ rw (bad, confirmed) (f.0, f.1, follows-may_end f.0 s.error f.2)
            | inl good ↦
                let went : follows desc f.0 none ≡ true =
                  rw (sym (none_of s.error (ground (arith, good)))) f.2 in
                elim (Bool-cases read.1) [
                  | inl shown ↦ rw (good, shown, confirmed) (f.0, same ∙ f.1, went)
                  | inr hidden ↦
                      rw (good, hidden, confirmed) (f.0, same ∙ f.1, ground (arith, good, went))
                ]
          ]

    settled-same :
        (previous : Option ℕ) (s : Sent W C)
        → ((settled t lib same_decimal desc target previous s).0.attempts ≡ s.coordinator.attempts)
          × ((settled t lib same_decimal desc target previous s).1 ≡ s.error)
    unfolding settled undo_window request_refresh
    settled-same previous s = elim (Option-cases s.error) [
      | inl e ↦ rw (e, settled) (refl, refl)
      | inr (k, e) ↦ rw (e, settled) (ground arith, refl)
    ]

    optimistic-attempts :
        (c : Coordinator W C)
        → (show_optimistic t lib same_decimal desc target c).attempts ≡ c.attempts
    unfolding show_optimistic
    optimistic-attempts c = ground arith

    -- A write tries one PUT, or two where the first fails other than as an unconfirmed oven start. It
    -- ends without an error only where the last one was answered with a 2.xx code, or with 4.00 where
    -- the control lets a read confirm it; it is refused only by another code, fails only after two
    -- failures, names an unconfirmed oven start only after one, and stays unconfirmed only where it
    -- went through with Remote Control off.
    pub send_command-ends :
        (c : Coordinator W C)
        → (replies : List Reply) × ((send_command t lib same_decimal d desc target c).0.attempts
            ≡ map (λ r. (target.path, target.body, r)) replies ++ c.attempts)
          × (may_end desc target replies (send_command t lib same_decimal d desc target c).1 ≡ true)
    unfolding send_command MayEnd
    send_command-ends c =
        let shown = show_optimistic t lib same_decimal desc target c in
        let armed = arm t lib same_decimal d desc target.href shown 0 in
        let put = async_put t lib same_decimal d desc target armed.0 armed.1 in
        let previous = settle_deadline c.observed target.href in
        let end_ = settled-same previous (confirmed t lib same_decimal d desc target put) in
        let m = confirmed-MayEnd armed.0.attempts put (async_put-Follows armed.0 armed.1) in
        (
          m.0,
          end_.0
              ∙ m.1
              ∙ ap (λ before. map (λ r. (target.path, target.body, r)) m.0 ++ before)
                  (arm-attempts shown 0 ∙ optimistic-attempts c),
          rw end_.1 m.2,
        )
