-- ===== src/Coordinator/Sweep.antt =====
-- coordinator.py: what _async_update_data does with the resources of a read
pub mod Fallback
use localthings.Base.{ℕ, String, Bool, false, List, [], ◌∷◌, Rep}
use localthings.Base.Dict.{Dict}
use localthings.Observe.State.{ObserveManager, Library, Mode, observe, poll}
use localthings.Observe.Apply.{apply}
use localthings.Observe.Sweep.{log_sweep_discrepancies}

module _ {C : Type 0} (lib : Library C) where
  -- every rep into the cache, at the time that the clock gives for its href; the calls of the
  -- manager's hook are left out
  unfoldable pub apply_all : (String → ℕ) → String → Dict Rep → ObserveManager C → ObserveManager C
  apply_all clock source [] m = m
  apply_all clock source ((href, rep) ∷ resources) m =
      apply_all clock source resources (apply lib (clock href) href rep source m).manager

  mismatch_in : Mode → (String → ℕ) → Dict Rep → ObserveManager C → Bool × ObserveManager C
  mismatch_in poll clock resources m = (false, m)
  mismatch_in observe clock resources m = log_sweep_discrepancies lib clock resources m

  -- The comparison in observe mode, then the cache: `sweep_mismatch`, and the manager. The two
  -- clocks give the times of the comparison and of the updates.
  unfoldable pub absorb :
      (String → ℕ) → (String → ℕ) → String → Dict Rep → ObserveManager C → Bool × ObserveManager C
  unfolding mismatch_in apply_all
  absorb compared applied source resources m =
      let (mismatch, m') = mismatch_in m.mode compared resources m in
      (mismatch, apply_all applied source resources m')
