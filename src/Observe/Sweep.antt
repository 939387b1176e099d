-- ===== src/Observe/Sweep.antt =====
-- observe.py: the sweep that finds missed pushes
pub mod Stale
pub mod Kept
pub mod Counts
use localthings.Base.{
  ℕ, ◌+◌, String, Bool, true, false, not, ◌&&◌, ◌||◌, Option, none, some, List, [], ◌∷◌, default,
  leb, mem, add, if◌then◌else◌, Rep, Value,
}
use localthings.Base.Data.Equal.{eq}
use localthings.Base.Dict
use localthings.Base.Dict.{Dict}
use localthings.Observe.State.{ObserveManager, Library, Mode, observe, poll}
use localthings.Observe.Settle.{is_settling}

-- The fields of both reps whose values differ, each with its two values.
unfoldable pub rep_diff : Rep → Rep → Dict (Value × Value)
rep_diff [] sweep = []
rep_diff ((k, v) ∷ cached) sweep =
    let rest = rep_diff cached sweep in
    elim (Dict.get sweep k) [ none ↦ rest | some w ↦ if eq v w then rest else (k, (v, w)) ∷ rest ]

abbrev pub stale_sweeps_to_fallback : ℕ
stale_sweeps_to_fallback = 2

module _ {C : Type 0} where
  -- one more sweep that found `href` stale
  unfoldable pub count_miss : String → ObserveManager C → ObserveManager C
  count_miss href m =
      let misses = default 0 (Dict.get m.stale_sweeps href) + 1 in
      record m {
        stale_sweeps = Dict.put m.stale_sweeps href misses;
        fallback_hrefs =
            if leb stale_sweeps_to_fallback misses && not (mem href m.fallback_hrefs)
            then add href m.fallback_hrefs
            else m.fallback_hrefs;
      }

  -- the href's misses, by whether the reps differ
  unfoldable pub note_diff :
      String → Dict (Value × Value) → ObserveManager C → Bool × ObserveManager C
  unfolding count_miss
  note_diff href [] m = (false, record m { stale_sweeps = Dict.remove m.stale_sweeps href })
  note_diff href (d ∷ ds) m = (true, count_miss href m)

module _ {C : Type 0} (lib : Library C) where
  unfoldable pub compare_rep :
      String → Rep → Option Rep → ObserveManager C → Bool × ObserveManager C
  unfolding note_diff
  compare_rep href swept none m = (false, m)
  compare_rep href swept (some cached) m = note_diff href (rep_diff cached swept) m

  unfoldable pub unless_settling : String → Rep → Bool × ObserveManager C → Bool × ObserveManager C
  unfolding compare_rep
  unless_settling href swept (true, m) = (false, m)
  unless_settling href swept (false, m) = compare_rep href swept (lib.get m.cache href) m

  unfoldable pub check_href : ℕ → String → Option Rep → ObserveManager C → Bool × ObserveManager C
  unfolding unless_settling
  check_href now href none m = (false, m)
  check_href now href (some swept) m = unless_settling href swept (is_settling now href m)

  -- one round of the loop
  unfoldable pub sweep_href : ℕ → Dict Rep → String → ObserveManager C → Bool × ObserveManager C
  unfolding check_href
  sweep_href now sweep href m = check_href now href (Dict.get sweep href) m

  -- the loop over the subscribed hrefs, each once; the clock gives the time at which its round runs
  unfoldable pub sweep_all :
      (String → ℕ) → Dict Rep → List String → ObserveManager C → Bool × ObserveManager C
  sweep_all clock sweep [] m = (false, m)
  sweep_all clock sweep (href ∷ hrefs) m =
      let (found, m') = sweep_href (clock href) sweep href m in
      let (more, m'') = sweep_all clock sweep hrefs m' in (found || more, m'')

  unfoldable pub in_mode :
      Mode → (String → ℕ) → Dict Rep → ObserveManager C → Bool × ObserveManager C
  in_mode poll clock sweep m = (false, m)
  in_mode observe clock sweep m = sweep_all clock sweep m.subscribed_hrefs m

  unfoldable pub log_sweep_discrepancies :
      (String → ℕ) → Dict Rep → ObserveManager C → Bool × ObserveManager C
  unfolding in_mode
  log_sweep_discrepancies clock sweep m = in_mode m.mode clock sweep m
