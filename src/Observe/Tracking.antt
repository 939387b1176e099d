-- ===== src/Observe/Tracking.antt =====
-- Which hrefs push: the part of the manager that decides what is sub-polled, and what holds of it
-- whatever happens.
pub mod Frames
pub mod Pushes
pub mod Sweeps
pub mod Runs
use localthings.Base.{
  map, ℕ, String, Bool, true, false, ◌||◌, ◌≡◌, refl, Option, none, some, List, [], ◌∷◌, inl, inr,
  mem, mem-add, mem-discard, mem-difference, eq_iff, arith, Rep, Value, obj, entries, Bool-cases,
}
use localthings.Base.Dict
use localthings.Base.Dict.{Dict}
use localthings.Observe.State.{ObserveManager, Library, Clock, Mode, observe, poll, init}
use localthings.Observe.Settle.{mark_write_pending, restore_write_pending, is_settling}
use localthings.Observe.Apply.{set_on_applied, apply}
use localthings.Observe.Taps.{release_tap, start_tap, reserve_tap, record_notification}
use localthings.Observe.Notify.{on_notification, note_push, deliver, resource_type_mismatch}
use localthings.Observe.Mode.{
  start_refresh_task, await_observe_notifies, path_of, Notify, Fraction, try_enter_observe_mode,
  enter_observe_mode, subscribe_hrefs, commit, attempt, abandon_observe_attempt, downgrade_to_poll,
  close,
}
use localthings.Observe.Sweep.{
  log_sweep_discrepancies, sweep_all, sweep_href, count_miss, note_diff, compare_rep,
  unless_settling, check_href, in_mode, rep_diff,
}
use localthings.Observe.Sweep.Stale.{sweep_href-IsSwept}

-- In poll mode nothing is subscribed. A refresh task refreshes the subscribed hrefs. Unless an
-- attempt is under way, a subscribed href has pushed, or is sub-polled. In observe mode only
-- subscribed hrefs are.
pub record IsTracked {C : Type 0} (m : ObserveManager C) : Type 0 where
  pub poll_idle : m.mode ≡ poll → m.subscribed_hrefs ≡ []
  pub refreshes :
      (paths : List (List String))
      → m.refresh_task ≡ some paths
      → paths ≡ map path_of m.subscribed_hrefs
  pub covered :
      m.attempting ≡ []
      → (h : String) → mem h m.subscribed_hrefs ≡ true
      → (mem h m.notified || mem h m.fallback_hrefs) ≡ true
  pub fallback_subscribed :
      m.mode ≡ observe
      → (h : String) → mem h m.fallback_hrefs ≡ true
      → mem h m.subscribed_hrefs ≡ true

-- Two managers that differ in nothing of this.
pub record SameTracking {C : Type 0} (m m' : ObserveManager C) : Type 0 where
  pub mode : m'.mode ≡ m.mode
  pub subscribed : m'.subscribed_hrefs ≡ m.subscribed_hrefs
  pub notified : m'.notified ≡ m.notified
  pub fallback : m'.fallback_hrefs ≡ m.fallback_hrefs
  pub refresh : m'.refresh_task ≡ m.refresh_task
  pub attempting : m'.attempting ≡ m.attempting

-- What can happen to a manager: a call of one of its public methods that change it, in any order.
-- An attempt is for one href at least, as the coordinator sees to.
pub data Step {C : Type 0} (lib : Library C) : ObserveManager C → ObserveManager C → Type 0 where
  hook : (m : ObserveManager C) → Step lib m (set_on_applied m)
  reserve :
      (href : String) (limit : ℕ) (isolate : Bool) (m : ObserveManager C)
      → Step lib m (reserve_tap href limit isolate m).1
  start : (now a : ℕ) (m : ObserveManager C) → Step lib m (start_tap now a m)
  release : (href : String) (a : ℕ) (m : ObserveManager C) → Step lib m (release_tap href a m)
  write :
      (now : ℕ) (href : String) (settle : ℕ) (m : ObserveManager C)
      → Step lib m (mark_write_pending now href settle m).0
  refuse :
      (now : ℕ) (href : String) (previous : Option ℕ) (armed : ℕ) (m : ObserveManager C)
      → Step lib m (restore_write_pending now href previous armed m)
  update :
      (now : ℕ) (href : String) (rep : Rep) (source : String) (m : ObserveManager C)
      → Step lib m (apply lib now href rep source m).manager
  push :
      (now : ℕ) (href : String) (payload : List ℕ) (m : ObserveManager C)
      → Step lib m (on_notification lib now href payload m).manager
  subscribe :
      (takes : List String → Bool) (href : String) (hrefs : List String) (m : ObserveManager C)
      → Step lib m (subscribe_hrefs takes (href ∷ hrefs) m).1
  wait :
      (fraction : Fraction) (subscribed : List String) (during : List Notify) (m : ObserveManager C)
      → Step lib m (await_observe_notifies lib fraction subscribed during m).1
  enter :
      (clock : Clock) (subscribed : List String) (m : ObserveManager C)
      → Step lib m (enter_observe_mode clock subscribed m)
  abandon : (clock : Clock) (m : ObserveManager C) → Step lib m (abandon_observe_attempt clock m)
  try_enter :
      (clock : Clock) (takes : List String → Bool) (hrefs : List String) (fraction : Fraction)
      (during : List Notify) (m : ObserveManager C)
      → Step lib m (try_enter_observe_mode lib clock takes hrefs fraction during m).1
  sweep :
      (clock : String → ℕ) (swept : Dict Rep) (m : ObserveManager C)
      → Step lib m (log_sweep_discrepancies lib clock swept m).1
  refresh : (m : ObserveManager C) → Step lib m (start_refresh_task m)
  downgrade : (clock : Clock) (m : ObserveManager C) → Step lib m (downgrade_to_poll clock m)
  shut : (m : ObserveManager C) → Step lib m (close m)

pub data Reach {C : Type 0} (lib : Library C) (s : ObserveManager C)
    : ObserveManager C → Type 0 where
  here : Reach lib s s
  next : {m m' : ObserveManager C} → Reach lib s m → Step lib m m' → Reach lib s m'
