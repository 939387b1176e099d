-- ===== src/Examples/Sweeping.antt =====
-- coordinator.py: two sweeps of a refrigerator that has stopped pushing
use localthings.Base.{ℕ, String, true, ◌≡◌, refl, [], ◌∷◌, mem, Rep, str}
use localthings.Base.Data.Equal.{eq}
use localthings.Base.Dict
use localthings.Base.Dict.{Dict}
use localthings.Observe.State.{ObserveManager}
use localthings.Observe.Settle.{settle_deadline, is_settling}
use localthings.Observe.Apply.{apply, merged_rep, is_alarms_href}
use localthings.Observe.Sweep.{rep_diff, log_sweep_discrepancies, sweep_all, sweep_href}
use localthings.Observe.Sweep.Stale.{IsSeen}
use localthings.Observe.Sweep.Counts.{once}
use localthings.Coordinator.Sweep.{absorb}
use localthings.Coordinator.Sweep.Fallback.{absorb_twice-falls_back}
use localthings.Examples.Observing.{table_cache, fridge, off, on}

abbrev swept_on : Dict Rep
swept_on = ("/power/vs/0", on) ∷ []

abbrev swept_off : Dict Rep
swept_off = ("/power/vs/0", off) ∷ []

-- the first sweep at 6000, the second at 7000
abbrev early : String → ℕ
early href = 6000

abbrev late : String → ℕ
late href = 7000

abbrev swept_once : ObserveManager (Dict Rep)
swept_once = (absorb table_cache early early "sweep" swept_on fridge).1

first-IsSeen : IsSeen table_cache 6000 swept_on "/power/vs/0" fridge
unfolding Dict.get settle_deadline
first-IsSeen = record { swept = on; cached = off; in_sweep = refl; in_cache = refl; closed = refl }

second-IsSeen : IsSeen table_cache 7000 swept_off "/power/vs/0" swept_once
unfolding Dict.get Dict.remove Dict.put Dict.merge settle_deadline absorb log_sweep_discrepancies
    sweep_all sweep_href is_settling apply merged_rep is_alarms_href rep_diff eq
second-IsSeen = record {
  swept = off;
  cached = ("power", str "on") ∷ ("unit", str "C") ∷ [];
  in_sweep = refl;
  in_cache = refl;
  closed = refl;
}

absorb_twice-falls_back_example :
    mem "/power/vs/0" (absorb table_cache late late "sweep" swept_off swept_once).1.fallback_hrefs
    ≡ true
unfolding Dict.get rep_diff eq first-IsSeen second-IsSeen once
absorb_twice-falls_back_example =
    absorb_twice-falls_back table_cache early early late late "sweep" "sweep" "/power/vs/0" swept_on
      swept_off fridge refl refl first-IsSeen second-IsSeen
