-- ===== src/Coordinator/Cooking/Started.antt =====
-- What a start of a cook has sent, once it returns.
use localthings.Base.{
  list, Bool, true, false, none, some, List, ◌++◌, map, ◌≡◌, refl, ◌∙◌, inl, inr, Bool-cases,
  Option-cases, arith, Rep, Value,
}
use localthings.Base.Dict.{Dict}
use localthings.Observe.State.{Library}
use localthings.Registry.Subdevices.Defs.{Subdevice}
use localthings.Registry.Cook.Specs.{Json}
use localthings.Registry.Cook.Start.{Floats, Checked, accepted, refused, CookPlan, CookStartError}
use localthings.Registry.Cook.Start.Permits.{permits, plan_start-permits}
use localthings.Registry.Cook.Held.{Choices, HeldCook, holds, plan, plan_choices, expire, clear}
use localthings.Coordinator.Put.{Transport, Coordinator, Reply, Delays, Sent}
use localthings.Coordinator.Write.Outcomes.{follows, Follows, async_put-Follows}
use localthings.Coordinator.Cooking.{
  mapper, batch, not_startable, has_path, plain_write, cavity_resources, planned, send_plan,
  start_cooking, concluded, launched,
}

module _ {F W C : Type 0} (j : Json) (cached : Dict Value) (subdevices : List Subdevice)
    (fl : Floats F) (t : Transport W) (lib : Library C) (same_decimal : Value → Value → Bool) where
  planned-permits :
      (asked : Choices F) (held : HeldCook F) (view : Dict Rep) (p : CookPlan)
      → (planned j cached subdevices fl asked held view).1 ≡ accepted p
      → permits j view true p ≡ true
  unfolding planned plan plan_choices
  planned-permits asked held view p h = elim (Bool-cases (holds asked)) [
    | inl given ↦
        plan_start-permits fl j view asked.mode asked.temperature asked.duration true p
          (rw (given, planned) at h)
    | inr left ↦
        let v = (expire held view).values in
        plan_start-permits fl j view v.mode v.temperature v.duration true p
          (rw (left, planned) at h)
  ]

  -- the plan that was made, and the PUTs that sent its batch
  abbrev pub Sends :
      Choices F → HeldCook F → Subdevice → Dict Rep → Coordinator W C → Coordinator W C → Type 0
  Sends asked held s resources c after =
      (p : CookPlan) × ((planned j cached subdevices fl asked held
          (cavity_resources j cached subdevices s resources)).1
        ≡ accepted p)
      × (permits j (cavity_resources j cached subdevices s resources) true p ≡ true)
      × (replies : List Reply) × (after.attempts
          ≡ map (λ r. (s.seed_path, list (batch p (mapper s)), r)) replies ++ c.attempts)
      × (follows plain_write replies none ≡ true)

  concluded-clear :
      (held : HeldCook F) (sent : Sent W C)
      → (concluded j cached subdevices fl held sent).2 ≡ none
      → (sent.error ≡ none)
        × ((concluded j cached subdevices fl held sent).0.attempts ≡ sent.coordinator.attempts)
        × (holds (concluded j cached subdevices fl held sent).1.values ≡ false)
  unfolding concluded clear
  concluded-clear held sent h = elim (Option-cases sent.error) [
    | inl e ↦ rw (e, concluded) (refl, refl, refl)
    | inr (k, e) ↦ absurd (ground (arith, e, h))
  ]

  send_plan-Sends :
      (d : Delays) (s : Subdevice) (p : CookPlan) (c : Coordinator W C)
      → (replies : List Reply) × ((send_plan j cached subdevices fl t lib same_decimal d s p
            c).coordinator.attempts
          ≡ map (λ r. (s.seed_path, list (batch p (mapper s)), r)) replies ++ c.attempts)
        × (follows plain_write replies
              (send_plan j cached subdevices fl t lib same_decimal d s p c).error
            ≡ true)
  unfolding send_plan Follows
  send_plan-Sends d s p c = async_put-Follows t lib same_decimal d plain_write _ c 0

  launched-Sends :
      (d : Delays) (s : Subdevice) (asked : Choices F) (first : HeldCook F) (resources : Dict Rep)
      (held : HeldCook F) (checked : Checked CookPlan) (c : Coordinator W C)
      → (planned j cached subdevices fl asked first
          (cavity_resources j cached subdevices s resources)).1
        ≡ checked
      → ((p : CookPlan)
          → checked ≡ accepted p
          → permits j (cavity_resources j cached subdevices s resources) true p ≡ true)
      → (launched j cached subdevices fl t lib same_decimal d s (held, checked) c).2 ≡ none
      → Sends asked first s resources c
          (launched j cached subdevices fl t lib same_decimal d s (held, checked) c).0
        × (holds (launched j cached subdevices fl t lib same_decimal d s (held, checked) c).1.values
            ≡ false)
  unfolding launched
  launched-Sends d s asked first resources held (refused e) c made permitted h =
      absurd (ground (arith, h))
  launched-Sends d s asked first resources held (accepted p) c made permitted h =
      let sent = send_plan j cached subdevices fl t lib same_decimal d s p c in
      let end_ = concluded-clear held sent h in
      let parts = send_plan-Sends d s p c in
      ((p, made, permitted p refl, parts.0, end_.1 ∙ parts.1, rw (← end_.0) parts.2), end_.2)

  -- A start of a cook that returns without an error has sent the cavity's collection the batch of the plan
  -- that was made of what was asked for or held, which the board's declaration permits, in one PUT or in a second one after a failure, the last of which
  -- was answered with a 2.xx code, and nothing is held any more.
  pub start_cooking-Sends :
      (d : Delays) (s : Subdevice) (remote_control : Bool) (asked : Choices F) (held : HeldCook F)
      (resources : Dict Rep) (c : Coordinator W C)
      → (start_cooking j cached subdevices fl t lib same_decimal d s remote_control asked held
          resources c).2
        ≡ none
      → Sends asked held s resources c
          (start_cooking j cached subdevices fl t lib same_decimal d s remote_control asked held
            resources c).0
        × (holds
              (start_cooking j cached subdevices fl t lib same_decimal d s remote_control asked held
                resources c).1.values
            ≡ false)
  unfolding start_cooking
  start_cooking-Sends d s remote_control asked held resources c h =
      let view = cavity_resources j cached subdevices s resources in
      let (held', checked) = planned j cached subdevices fl asked held view in
      elim (Bool-cases (has_path s.seed_path)) [
        | inr bad ↦ absurd (ground (arith, bad, h))
        | inl good ↦ elim (Bool-cases remote_control) [
          | inr bad ↦ absurd (ground (arith, good, bad, h))
          | inl on ↦
              rw (good, on, start_cooking)
                (launched-Sends d s asked held resources held' checked c refl
                  (planned-permits asked held view) (rw (good, on, start_cooking) at h))
        ]
      ]

  launched-rejects :
      (d : Delays) (s : Subdevice) (held : HeldCook F) (checked : Checked CookPlan)
      (c : Coordinator W C) (e : CookStartError)
      → (launched j cached subdevices fl t lib same_decimal d s (held, checked) c).2
        ≡ some (not_startable e)
      → (launched j cached subdevices fl t lib same_decimal d s (held, checked) c).0 ≡ c
  unfolding launched concluded
  launched-rejects d s held (refused k) c e h = refl
  launched-rejects d s held (accepted p) c e h =
      elim (Option-cases (send_plan j cached subdevices fl t lib same_decimal d s p c).error) [
        | inl done ↦ absurd (ground (arith, done, h))
        | inr (k, failed_) ↦ absurd (ground (arith, failed_, h))
      ]

  -- A start that the board's declaration rules out has sent nothing.
  pub start_cooking-rejects :
      (d : Delays) (s : Subdevice) (remote_control : Bool) (asked : Choices F) (held : HeldCook F)
      (resources : Dict Rep) (c : Coordinator W C) (e : CookStartError)
      → (start_cooking j cached subdevices fl t lib same_decimal d s remote_control asked held
          resources c).2
        ≡ some (not_startable e)
      → (start_cooking j cached subdevices fl t lib same_decimal d s remote_control asked held
          resources c).0
        ≡ c
  unfolding start_cooking
  start_cooking-rejects d s remote_control asked held resources c e h =
      let view = cavity_resources j cached subdevices s resources in
      let (held', checked) = planned j cached subdevices fl asked held view in
      elim (Bool-cases (has_path s.seed_path)) [
        | inr bad ↦ rw (bad, start_cooking) refl
        | inl good ↦ elim (Bool-cases remote_control) [
          | inr bad ↦ rw (good, bad, start_cooking) refl
          | inl on ↦
              rw (good, on, start_cooking)
                (launched-rejects d s held' checked c e (rw (good, on, start_cooking) at h))
        ]
      ]
