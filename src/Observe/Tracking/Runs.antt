-- ===== src/Observe/Tracking/Runs.antt =====
-- What holds of the tracking after any calls.

use localthings.Observe.State.{ObserveManager, Library, Clock, init}
use localthings.Observe.Sweep.{log_sweep_discrepancies}
use localthings.Observe.Tracking.{
  IsTracked, Step, write, refuse, update, push, subscribe, wait, enter, abandon, try_enter, sweep,
  refresh, hook, reserve, start, release, downgrade, shut, Reach, here, next,
}
use localthings.Observe.Tracking.Frames.{
  refresh-IsTracked, abandon-IsTracked, enter-IsTracked, subscribe-IsTracked, release_tap-same,
  start_tap-same, reserve_tap-same, set_on_applied-same, IsTracked-same, mark-same, restore-same,
  downgrade-IsTracked, close-IsTracked, init-IsTracked,
}
use localthings.Observe.Tracking.Pushes.{
  await-IsTracked, apply-same, on_notification-IsTracked, try_enter-IsTracked,
}
use localthings.Observe.Tracking.Sweeps.{in_mode-IsTracked}

module _ {C : Type 0} {lib : Library C} where
  Step-IsTracked : {m m' : ObserveManager C} → Step lib m m' → IsTracked m → IsTracked m'
  unfolding log_sweep_discrepancies
  Step-IsTracked (write now href settle m) i = IsTracked-same (mark-same now href settle m) i
  Step-IsTracked (refuse now href previous armed m) i =
      IsTracked-same (restore-same now href previous armed m) i
  Step-IsTracked (update now href rep source m) i =
      IsTracked-same (apply-same lib now href rep source m) i
  Step-IsTracked (push now href payload m) i = on_notification-IsTracked lib now href payload i
  Step-IsTracked (hook m) i = IsTracked-same (set_on_applied-same m) i
  Step-IsTracked (reserve href limit isolate m) i =
      IsTracked-same (reserve_tap-same href limit isolate m) i
  Step-IsTracked (start now a m) i = IsTracked-same (start_tap-same now a m) i
  Step-IsTracked (release href a m) i = IsTracked-same (release_tap-same href a m) i
  Step-IsTracked (subscribe takes href hrefs m) i = subscribe-IsTracked takes href hrefs i
  Step-IsTracked (wait fraction subscribed during m) i =
      await-IsTracked lib fraction subscribed during i
  Step-IsTracked (enter clock subscribed m) i = enter-IsTracked clock subscribed m
  Step-IsTracked (abandon clock m) i = abandon-IsTracked clock m
  Step-IsTracked (try_enter clock takes hrefs fraction during m) i =
      try_enter-IsTracked lib clock takes hrefs fraction during m
  Step-IsTracked (sweep clock swept m) i = in_mode-IsTracked lib clock swept m.mode i
  Step-IsTracked (refresh m) i = refresh-IsTracked i
  Step-IsTracked (downgrade clock m) i = downgrade-IsTracked clock m
  Step-IsTracked (shut m) i = close-IsTracked i

  Reach-IsTracked_from : {s m : ObserveManager C} → IsTracked s → Reach lib s m → IsTracked m
  Reach-IsTracked_from i here = i
  Reach-IsTracked_from i (next r st) = Step-IsTracked st (Reach-IsTracked_from i r)

-- After any calls of the methods of a new manager, where an attempt to subscribe is for one href at
-- least: in poll mode nothing is subscribed, a refresh task that runs refreshes just the subscribed
-- hrefs, a subscribed href has pushed or is sub-polled unless an attempt is under way, and in observe
-- mode only subscribed hrefs are sub-polled.
pub Reach-IsTracked :
    {C : Type 0} (lib : Library C) (cache : C) (clock : Clock) {m : ObserveManager C}
    → Reach lib (init cache clock) m
    → IsTracked m
Reach-IsTracked lib cache clock r = Reach-IsTracked_from (init-IsTracked cache clock) r
