-- ===== src/Coordinator/Sweep/Fallback.antt =====
-- A subscribed href that two sweeps in a row find stale goes back on the sub-poll cadence.
use localthings.Base.{
  ℕ, String, Bool, true, ◌&&◌, ◌||◌, ◌≡◌, refl, ◌∙◌, [], ◌∷◌, mem, leb, arith, Rep,
}
use localthings.Base.Dict.{Dict}
use localthings.Observe.State.{ObserveManager, Library, Mode, observe, poll}
use localthings.Observe.Settle.{is_settling}
use localthings.Observe.Apply.{apply}
use localthings.Observe.Sweep.{log_sweep_discrepancies}
use localthings.Observe.Sweep.Stale.{IsSeen, sweep-IsSwept}
use localthings.Observe.Sweep.Kept.{misses}
use localthings.Observe.Sweep.Counts.{once, is_stale, IsCounted, log_sweep_discrepancies-IsCounted}
use localthings.Coordinator.Sweep.{apply_all, mismatch_in, absorb}

-- Two managers with the same mode, subscriptions, misses and sub-polls.
record IsQuiet {C : Type 0} (m m' : ObserveManager C) : Type 0 where
  mode : m'.mode ≡ m.mode
  subscribed : m'.subscribed_hrefs ≡ m.subscribed_hrefs
  stale : m'.stale_sweeps ≡ m.stale_sweeps
  fallback : m'.fallback_hrefs ≡ m.fallback_hrefs

IsQuiet-trans : {C : Type 0} {a b c : ObserveManager C} → IsQuiet a b → IsQuiet b c → IsQuiet a c
IsQuiet-trans p q = record {
  mode = q.mode ∙ p.mode;
  subscribed = q.subscribed ∙ p.subscribed;
  stale = q.stale ∙ p.stale;
  fallback = q.fallback ∙ p.fallback;
}

module _ {C : Type 0} (lib : Library C) where
  apply-IsQuiet :
      (now : ℕ) (href : String) (rep : Rep) (source : String) (m : ObserveManager C)
      → IsQuiet m (apply lib now href rep source m).manager
  unfolding apply is_settling
  apply-IsQuiet now href rep source m = ground arith

  apply_all-IsQuiet :
      (clock : String → ℕ) (source : String) (resources : Dict Rep) (m : ObserveManager C)
      → IsQuiet m (apply_all lib clock source resources m)
  unfolding apply_all
  apply_all-IsQuiet clock source [] m = record {
    mode = refl;
    subscribed = refl;
    stale = refl;
    fallback = refl;
  }
  apply_all-IsQuiet clock source ((href, rep) ∷ resources) m =
      IsQuiet-trans (apply-IsQuiet (clock href) href rep source m) (
        apply_all-IsQuiet clock source resources (apply lib (clock href) href rep source m).manager)

  mismatch_in-observe :
      (mode : Mode) (clock : String → ℕ) (resources : Dict Rep) (m : ObserveManager C)
      → mode ≡ observe
      → mismatch_in lib mode clock resources m ≡ log_sweep_discrepancies lib clock resources m
  unfolding mismatch_in
  mismatch_in-observe observe clock resources m e = refl
  mismatch_in-observe poll clock resources m e = cc

  -- what the read of the resources leaves of an href that the comparison sees
  record IsAbsorbed (href : String) (stale : Bool) (m m' : ObserveManager C) : Type 0 where
    counted : IsCounted href stale m m'
    mode : m'.mode ≡ m.mode
    subscribed : m'.subscribed_hrefs ≡ m.subscribed_hrefs

  absorb-IsAbsorbed :
      (compared applied : String → ℕ) (source : String) (resources : Dict Rep) (href : String)
      (m : ObserveManager C)
      → m.mode ≡ observe
      → once href m.subscribed_hrefs ≡ true
      → (s : IsSeen lib (compared href) resources href m)
      → IsAbsorbed href
          (is_stale lib resources href s)
          m
          (absorb lib compared applied source resources m).1
  unfolding absorb
  absorb-IsAbsorbed compared applied source resources href m o h s =
      let swept = log_sweep_discrepancies lib compared resources m in
      let i = log_sweep_discrepancies-IsCounted lib resources href compared m o h s in
      let w = sweep-IsSwept lib compared resources m in
      let q = apply_all-IsQuiet applied source resources swept.1 in
      rw (mismatch_in-observe m.mode compared resources m o) (record {
        counted = record { count = rw q.stale i.count; fallback = rw q.fallback i.fallback };
        mode = q.mode ∙ w.mode;
        subscribed = q.subscribed ∙ w.subscribed;
      })

  -- In observe mode, over two reads that are compared with the cache and then put into it, of a
  -- subscribed href that both report, that the cache holds and that is outside its settle windows:
  -- after the second it is on the sub-poll cadence just where it was there before, or the first
  -- found it stale and it had been missed right before that, or both found it stale.
  pub absorb_twice-falls_back :
      (compared applied compared' applied' : String → ℕ) (source source' href : String)
      (resources resources' : Dict Rep) (m : ObserveManager C)
      → m.mode ≡ observe
      → once href m.subscribed_hrefs ≡ true
      → (s : IsSeen lib (compared href) resources href m)
        (s' : IsSeen lib
          (compared' href)
          resources'
          href
          (absorb lib compared applied source resources m).1)
      → mem href
          (absorb lib compared' applied' source' resources'
            (absorb lib compared applied source resources m).1).1.fallback_hrefs
        ≡ (mem href m.fallback_hrefs
            || (is_stale lib resources href s
                && (leb 1 (misses m href) || is_stale lib resources' href s')))
  absorb_twice-falls_back compared applied compared' applied' source source' href resources
        resources' m o h s s' =
      let first = absorb-IsAbsorbed compared applied source resources href m o h s in
      let m1 = (absorb lib compared applied source resources m).1 in
      let second =
        absorb-IsAbsorbed compared' applied' source' resources' href m1 (first.mode ∙ o)
          (rw first.subscribed h) s' in
      ground (arith, first.counted.count, first.counted.fallback, second.counted.fallback)
