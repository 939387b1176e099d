-- ===== src/Observe/Tracking/Frames.antt =====
-- What the calls that touch only the manager do to its tracking.
use localthings.Base.{
  ◌∷◌, Bool, [], some, ℕ, String, true, ◌≡◌, refl, Option, List, mem, mem-add, mem-discard,
  mem-difference, eq_iff, arith, Value,
}
use localthings.Observe.State.{ObserveManager, Clock, observe, init}
use localthings.Observe.Settle.{mark_write_pending, restore_write_pending, is_settling}
use localthings.Observe.Taps.{release_tap, reserve_tap, start_tap, record_notification}
use localthings.Observe.Notify.{note_push}
use localthings.Observe.Mode.{
  start_refresh_task, subscribe_hrefs, enter_observe_mode, abandon_observe_attempt,
  downgrade_to_poll, close,
}
use localthings.Observe.Sweep.{count_miss}
use localthings.Observe.Apply.{set_on_applied}
use localthings.Observe.Tracking.{set_on_applied, IsTracked, SameTracking}

module _ {C : Type 0} where
  pub IsTracked-same : {m m' : ObserveManager C} → SameTracking m m' → IsTracked m → IsTracked m'
  IsTracked-same {m} {m'} s i = record {
    poll_idle = λ p. ground (arith, s, i);
    refreshes = λ ps p.
        let p' : m.refresh_task ≡ some ps = cc (s.refresh, p) in
        rw s.subscribed (i.refreshes ps p');
    covered = λ q h p.
        let q' : m.attempting ≡ [] = cc (s.attempting, q) in ground (arith, s, i.covered q' h);
    fallback_subscribed = λ p h q.
        let p' : m.mode ≡ observe = cc (s.mode, p) in
        let q' : mem h m.fallback_hrefs ≡ true = rw s.fallback at q in
        ground (arith, s, i.fallback_subscribed p' h q');
  }

  pub is_settling-same :
      (now : ℕ) (href : String) (m : ObserveManager C) → SameTracking m (is_settling now href m).1
  unfolding is_settling
  is_settling-same now href m = ground arith

  pub mark-same :
      (now : ℕ) (href : String) (settle : ℕ) (m : ObserveManager C)
      → SameTracking m (mark_write_pending now href settle m).0
  unfolding mark_write_pending
  mark-same now href settle m = ground arith

  pub restore-same :
      (now : ℕ) (href : String) (previous : Option ℕ) (armed : ℕ) (m : ObserveManager C)
      → SameTracking m (restore_write_pending now href previous armed m)
  unfolding restore_write_pending
  restore-same now href previous armed m = ground arith

  pub record-same :
      (now : ℕ) (href : String) (payload : List ℕ) (rep : Option Value) (m : ObserveManager C)
      → SameTracking m (record_notification now href payload rep m).1
  unfolding record_notification
  record-same now href payload rep m = ground arith

  pub note_push-IsTracked :
      (href : String) {m : ObserveManager C} → IsTracked m → IsTracked (note_push href m)
  unfolding note_push
  note_push-IsTracked href {m} i = record {
    poll_idle = i.poll_idle;
    refreshes = i.refreshes;
    covered = λ q h p.
        ground
          (arith, i.covered q h p, mem-add href h m.notified, mem-discard href h m.fallback_hrefs);
    fallback_subscribed =
        λ p h q. ground (arith, i.fallback_subscribed p h, mem-discard href h m.fallback_hrefs);
  }

  pub count_miss-IsTracked :
      (href : String) {m : ObserveManager C}
      → mem href m.subscribed_hrefs ≡ true
      → IsTracked m
      → IsTracked (count_miss href m)
  unfolding count_miss
  count_miss-IsTracked href {m} known i = record {
    poll_idle = i.poll_idle;
    refreshes = i.refreshes;
    covered = λ q h p. ground (arith, i.covered q h p, mem-add href h m.fallback_hrefs);
    fallback_subscribed = λ p h q.
        ground
          (arith, i.fallback_subscribed p h, mem-add href h m.fallback_hrefs, eq_iff href h, known);
  }

  pub enter-IsTracked :
      (clock : Clock) (subscribed : List String) (m : ObserveManager C)
      → IsTracked (enter_observe_mode clock subscribed m)
  unfolding enter_observe_mode
  enter-IsTracked clock subscribed m = record {
    poll_idle = λ p. ground arith;
    refreshes = λ ps p. ground (arith, p);
    covered = λ q h p. ground (arith, mem-difference h subscribed m.notified);
    fallback_subscribed = λ p h q. ground (arith, mem-difference h subscribed m.notified);
  }

  pub abandon-IsTracked :
      (clock : Clock) (m : ObserveManager C) → IsTracked (abandon_observe_attempt clock m)
  unfolding abandon_observe_attempt
  abandon-IsTracked clock m = record {
    poll_idle = λ p. ground arith;
    refreshes = λ ps p. ground (arith, p);
    covered = λ q h p. ground arith;
    fallback_subscribed = λ p h q. ground arith;
  }

  pub downgrade-IsTracked :
      (clock : Clock) (m : ObserveManager C) → IsTracked (downgrade_to_poll clock m)
  unfolding downgrade_to_poll
  downgrade-IsTracked clock m = record {
    poll_idle = λ p. ground arith;
    refreshes = λ ps p. ground (arith, p);
    covered = λ q h p. ground arith;
    fallback_subscribed = λ p h q. ground arith;
  }

  pub close-IsTracked : {m : ObserveManager C} → IsTracked m → IsTracked (close m)
  unfolding close
  close-IsTracked i = record {
    poll_idle = i.poll_idle;
    refreshes = λ ps p. ground (arith, p);
    covered = i.covered;
    fallback_subscribed = i.fallback_subscribed;
  }

  pub set_on_applied-same : (m : ObserveManager C) → SameTracking m (set_on_applied m)
  unfolding set_on_applied
  set_on_applied-same m = ground arith

  pub reserve_tap-same :
      (href : String) (limit : ℕ) (isolate : Bool) (m : ObserveManager C)
      → SameTracking m (reserve_tap href limit isolate m).1
  unfolding reserve_tap
  reserve_tap-same href limit isolate m = ground arith

  pub start_tap-same : (now a : ℕ) (m : ObserveManager C) → SameTracking m (start_tap now a m)
  unfolding start_tap
  start_tap-same now a m = ground arith

  pub release_tap-same :
      (href : String) (a : ℕ) (m : ObserveManager C) → SameTracking m (release_tap href a m)
  unfolding release_tap
  release_tap-same href a m = ground arith

  -- While an attempt is under way nothing is said of who has pushed.
  pub subscribe-IsTracked :
      (takes : List String → Bool) (href : String) (hrefs : List String) {m : ObserveManager C}
      → IsTracked m
      → IsTracked (subscribe_hrefs takes (href ∷ hrefs) m).1
  unfolding subscribe_hrefs
  subscribe-IsTracked takes href hrefs i = record {
    poll_idle = i.poll_idle;
    refreshes = i.refreshes;
    covered = λ q h p. absurd (ground (arith, q));
    fallback_subscribed = i.fallback_subscribed;
  }

  pub refresh-IsTracked : {m : ObserveManager C} → IsTracked m → IsTracked (start_refresh_task m)
  unfolding start_refresh_task
  refresh-IsTracked i = record {
    poll_idle = i.poll_idle;
    refreshes = λ ps p. ground (arith, p);
    covered = i.covered;
    fallback_subscribed = i.fallback_subscribed;
  }

  pub init-IsTracked : (cache : C) (clock : Clock) → IsTracked (init cache clock)
  unfolding init
  init-IsTracked cache clock = record {
    poll_idle = λ p. refl;
    refreshes = λ ps p. ground (arith, p);
    covered = λ q h p. ground arith;
    fallback_subscribed = λ p h q. ground arith;
  }
