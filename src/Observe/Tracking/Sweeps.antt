-- ===== src/Observe/Tracking/Sweeps.antt =====
-- What a sweep does to the tracking.
use localthings.Base.{
  ℕ, String, Bool, true, false, ◌≡◌, Option, none, some, List, [], ◌∷◌, mem, eq_iff, arith, Rep,
  Value,
}
use localthings.Base.Dict
use localthings.Base.Dict.{Dict}
use localthings.Observe.State.{ObserveManager, Library, Mode, observe, poll}
use localthings.Observe.Settle.{is_settling}
use localthings.Observe.Sweep.{
  sweep_all, sweep_href, note_diff, compare_rep, unless_settling, check_href, in_mode, rep_diff,
}
use localthings.Observe.Sweep.Stale.{sweep_href-IsSwept}
use localthings.Observe.Tracking.{IsTracked}
use localthings.Observe.Tracking.Frames.{IsTracked-same, is_settling-same, count_miss-IsTracked}

module _ {C : Type 0} (lib : Library C) where
  pub note_diff-IsTracked :
      (href : String) (d : Dict (Value × Value)) {m : ObserveManager C}
      → mem href m.subscribed_hrefs ≡ true
      → IsTracked m
      → IsTracked (note_diff href d m).1
  unfolding note_diff
  note_diff-IsTracked href [] known i = record {
    poll_idle = i.poll_idle;
    refreshes = i.refreshes;
    covered = i.covered;
    fallback_subscribed = i.fallback_subscribed;
  }
  note_diff-IsTracked href (d ∷ ds) known i = count_miss-IsTracked href known i

  pub compare_rep-IsTracked :
      (href : String) (swept : Rep) (o : Option Rep) {m : ObserveManager C}
      → mem href m.subscribed_hrefs ≡ true
      → IsTracked m
      → IsTracked (compare_rep lib href swept o m).1
  unfolding compare_rep
  compare_rep-IsTracked href swept none known i = i
  compare_rep-IsTracked href swept (some c) known i =
      note_diff-IsTracked href (rep_diff c swept) known i

  pub unless_settling-IsTracked :
      (href : String) (swept : Rep) (r : Bool × ObserveManager C)
      → mem href r.1.subscribed_hrefs ≡ true
      → IsTracked r.1
      → IsTracked (unless_settling lib href swept r).1
  unfolding unless_settling
  unless_settling-IsTracked href swept (true, m) known i = i
  unless_settling-IsTracked href swept (false, m) known i =
      compare_rep-IsTracked href swept (lib.get m.cache href) known i

  pub check_href-IsTracked :
      (now : ℕ) (href : String) (o : Option Rep) {m : ObserveManager C}
      → mem href m.subscribed_hrefs ≡ true
      → IsTracked m
      → IsTracked (check_href lib now href o m).1
  unfolding check_href
  check_href-IsTracked now href none known i = i
  check_href-IsTracked now href (some swept) {m} known i =
      let s = is_settling-same now href m in
      unless_settling-IsTracked href swept (is_settling now href m) (rw s.subscribed known)
        (IsTracked-same s i)

  pub sweep_all-IsTracked :
      (clock : String → ℕ) (sweep : Dict Rep) (hrefs : List String) {m : ObserveManager C}
      → ((h : String) → mem h hrefs ≡ true → mem h m.subscribed_hrefs ≡ true)
      → IsTracked m
      → IsTracked (sweep_all lib clock sweep hrefs m).1
  unfolding sweep_all
  sweep_all-IsTracked clock sweep [] known i = i
  sweep_all-IsTracked clock sweep (h ∷ hs) {m} known i =
      let w = sweep_href-IsSwept lib (clock h) sweep h m in
      sweep_all-IsTracked clock sweep hs (λ j q. rw w.subscribed (known j (ground (arith, q))))
        (unfold sweep_href in
          check_href-IsTracked (clock h) h (Dict.get sweep h) (known h (ground (arith, eq_iff h h)))
            i)

  pub in_mode-IsTracked :
      (clock : String → ℕ) (sweep : Dict Rep) (mode : Mode) {m : ObserveManager C}
      → IsTracked m
      → IsTracked (in_mode lib mode clock sweep m).1
  unfolding in_mode
  in_mode-IsTracked clock sweep poll i = i
  in_mode-IsTracked clock sweep observe {m} i =
      sweep_all-IsTracked clock sweep m.subscribed_hrefs (λ h q. q) i
