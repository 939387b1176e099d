-- ===== src/Observe/Tracking/Pushes.antt =====
-- What updates, notifies and attempts to subscribe do to the tracking.
use localthings.Base.{
  ℕ, String, Bool, true, false, Option, none, some, List, [], ◌∷◌, inl, inr, arith, Rep, Value, obj,
  entries, Bool-cases,
}
use localthings.Observe.State.{ObserveManager, Library, Clock}
use localthings.Observe.Apply.{apply}
use localthings.Observe.Taps.{record_notification}
use localthings.Observe.Notify.{on_notification, note_push, deliver, resource_type_mismatch}
use localthings.Observe.Mode.{
  fraction_reached, await_observe_notifies, wait_for, Notify, Fraction, try_enter_observe_mode,
  subscribe_hrefs, commit, attempt,
}
use localthings.Observe.Tracking.{IsTracked, SameTracking}
use localthings.Observe.Tracking.Frames.{
  IsTracked-same, is_settling-same, record-same, note_push-IsTracked, enter-IsTracked,
  abandon-IsTracked,
}

module _ {C : Type 0} (lib : Library C) where
  pub apply-same :
      (now : ℕ) (href : String) (rep : Rep) (source : String) (m : ObserveManager C)
      → SameTracking m (apply lib now href rep source m).manager
  unfolding apply
  apply-same now href rep source m = ground (arith, is_settling-same now href m)

  pub deliver-IsTracked :
      (now : ℕ) (href : String) (isolated : Bool) (w : Option Value) {m : ObserveManager C}
      → IsTracked m
      → IsTracked (deliver lib now href isolated w m).manager
  unfolding deliver
  deliver-IsTracked now href isolated none i = i
  deliver-IsTracked now href true (some (obj fs)) i = i
  deliver-IsTracked now href false (some (obj fs)) {m} i =
      elim (Bool-cases (resource_type_mismatch lib href (entries fs) m)) [
        | inl bad ↦ rw bad i
        | inr fine ↦ rw fine (
            IsTracked-same (apply-same now href (entries fs) "observe" (note_push href m))
              (note_push-IsTracked href i))
      ]
  deliver-IsTracked now href isolated (some _) i = i

  pub on_notification-IsTracked :
      (now : ℕ) (href : String) (payload : List ℕ) {m : ObserveManager C}
      → IsTracked m
      → IsTracked (on_notification lib now href payload m).manager
  unfolding on_notification
  on_notification-IsTracked now href payload {m} i =
      deliver-IsTracked now href (record_notification now href payload (lib.loads payload) m).0
        (lib.loads payload) (IsTracked-same (record-same now href payload (lib.loads payload) m) i)

  wait_for-IsTracked :
      (fraction : Fraction) (subscribed : List String) (during : List Notify) {m : ObserveManager C}
      → IsTracked m
      → IsTracked (wait_for lib fraction subscribed during m).1
  unfolding wait_for
  wait_for-IsTracked fraction subscribed [] i = i
  wait_for-IsTracked fraction subscribed (e ∷ es) {m} i =
      elim (Bool-cases (fraction_reached fraction subscribed m)) [
        | inl reached ↦ rw (reached, wait_for) i
        | inr early ↦
            rw (early, wait_for)
              (wait_for-IsTracked fraction subscribed es
                (on_notification-IsTracked e.at e.href e.payload i))
      ]

  pub await-IsTracked :
      (fraction : Fraction) (subscribed : List String) (during : List Notify) {m : ObserveManager C}
      → IsTracked m
      → IsTracked (await_observe_notifies lib fraction subscribed during m).1
  unfolding await_observe_notifies
  await-IsTracked fraction [] during i = i
  await-IsTracked fraction (h ∷ hs) during i = wait_for-IsTracked fraction (h ∷ hs) during i

  pub commit-IsTracked :
      (clock : Clock) (subscribed : List String) (r : Bool × ObserveManager C)
      → IsTracked (commit lib clock subscribed r).1
  unfolding commit
  commit-IsTracked clock subscribed (true, m) = enter-IsTracked clock subscribed m
  commit-IsTracked clock subscribed (false, m) = abandon-IsTracked clock m

  pub attempt-IsTracked :
      (clock : Clock) (fraction : Fraction) (during : List Notify) (subscribed : List String)
      (m : ObserveManager C)
      → IsTracked (attempt lib clock fraction during subscribed m).1
  unfolding attempt
  attempt-IsTracked clock fraction during [] m = abandon-IsTracked clock m
  attempt-IsTracked clock fraction during (h ∷ hs) m = commit-IsTracked clock (h ∷ hs) _

  pub try_enter-IsTracked :
      (clock : Clock) (takes : List String → Bool) (hrefs : List String) (fraction : Fraction)
      (during : List Notify) (m : ObserveManager C)
      → IsTracked (try_enter_observe_mode lib clock takes hrefs fraction during m).1
  unfolding try_enter_observe_mode
  try_enter-IsTracked clock takes hrefs fraction during m =
      attempt-IsTracked clock fraction during (subscribe_hrefs takes hrefs m).0
        (subscribe_hrefs takes hrefs m).1
