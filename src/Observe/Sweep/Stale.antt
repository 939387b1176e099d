-- ===== src/Observe/Sweep/Stale.antt =====
-- What a sweep leaves alone, and which hrefs it compares with the cache.
use localthings.Base.{
  ℕ, String, Bool, true, false, ◌≡◌, Option, none, some, List, [], ◌∷◌, arith, Rep, Value, ◌∙◌,
}
use localthings.Base.Dict
use localthings.Base.Dict.{Dict, get-put, get-remove}
use localthings.Observe.State.{ObserveManager, Library, Mode, observe, poll}
use localthings.Observe.Settle.{is_settling, settle_deadline}
use localthings.Observe.Settle.Windows.{is_open}
use localthings.Observe.Sweep.{
  rep_diff, note_diff, compare_rep, unless_settling, check_href, sweep_href, sweep_all, in_mode,
  log_sweep_discrepancies,
}

-- Two managers that agree on all that a sweep leaves alone.
pub record IsSwept {C : Type 0} (m m' : ObserveManager C) : Type 0 where
  pub cache : m'.cache ≡ m.cache
  pub mode : m'.mode ≡ m.mode
  pub subscribed : m'.subscribed_hrefs ≡ m.subscribed_hrefs
  pub notified : m'.notified ≡ m.notified
  pub refresh : m'.refresh_task ≡ m.refresh_task
  pub attempting : m'.attempting ≡ m.attempting
  pub taps : m'.taps ≡ m.taps

IsSwept-trans : {C : Type 0} {a b c : ObserveManager C} → IsSwept a b → IsSwept b c → IsSwept a c
IsSwept-trans p q = record {
  cache = q.cache ∙ p.cache;
  mode = q.mode ∙ p.mode;
  subscribed = q.subscribed ∙ p.subscribed;
  notified = q.notified ∙ p.notified;
  refresh = q.refresh ∙ p.refresh;
  attempting = q.attempting ∙ p.attempting;
  taps = q.taps ∙ p.taps;
}

IsSwept-refl : {C : Type 0} (m : ObserveManager C) → IsSwept m m
IsSwept-refl m = ground arith

module _ {C : Type 0} where
  is_settling-IsSwept :
      (now : ℕ) (href : String) (m : ObserveManager C) → IsSwept m (is_settling now href m).1
  unfolding is_settling
  is_settling-IsSwept now href m = ground arith

  note_diff-IsSwept :
      (href : String) (d : Dict (Value × Value)) (m : ObserveManager C)
      → IsSwept m (note_diff href d m).1
  unfolding note_diff
  note_diff-IsSwept href d m = ground arith

module _ {C : Type 0} (lib : Library C) where
  compare_rep-IsSwept :
      (href : String) (swept : Rep) (o : Option Rep) (m : ObserveManager C)
      → IsSwept m (compare_rep lib href swept o m).1
  unfolding compare_rep
  compare_rep-IsSwept href swept none m = IsSwept-refl m
  compare_rep-IsSwept href swept (some c) m = note_diff-IsSwept href (rep_diff c swept) m

  unless_settling-IsSwept :
      (href : String) (swept : Rep) (r : Bool × ObserveManager C)
      → IsSwept r.1 (unless_settling lib href swept r).1
  unfolding unless_settling
  unless_settling-IsSwept href swept (true, m) = IsSwept-refl m
  unless_settling-IsSwept href swept (false, m) =
      compare_rep-IsSwept href swept (lib.get m.cache href) m

  check_href-IsSwept :
      (now : ℕ) (href : String) (o : Option Rep) (m : ObserveManager C)
      → IsSwept m (check_href lib now href o m).1
  unfolding check_href
  check_href-IsSwept now href none m = IsSwept-refl m
  check_href-IsSwept now href (some swept) m =
      IsSwept-trans (is_settling-IsSwept now href m)
        (unless_settling-IsSwept href swept (is_settling now href m))

  pub sweep_href-IsSwept :
      (now : ℕ) (sweep : Dict Rep) (href : String) (m : ObserveManager C)
      → IsSwept m (sweep_href lib now sweep href m).1
  unfolding sweep_href
  sweep_href-IsSwept now sweep href m = check_href-IsSwept now href (Dict.get sweep href) m

  pub sweep_all-IsSwept :
      (clock : String → ℕ) (sweep : Dict Rep) (hrefs : List String) (m : ObserveManager C)
      → IsSwept m (sweep_all lib clock sweep hrefs m).1
  unfolding sweep_all
  sweep_all-IsSwept clock sweep [] m = IsSwept-refl m
  sweep_all-IsSwept clock sweep (h ∷ hs) m =
      IsSwept-trans (sweep_href-IsSwept (clock h) sweep h m)
        (sweep_all-IsSwept clock sweep hs (sweep_href lib (clock h) sweep h m).1)

  in_mode-IsSwept :
      (clock : String → ℕ) (sweep : Dict Rep) (mode : Mode) (m : ObserveManager C)
      → IsSwept m (in_mode lib mode clock sweep m).1
  unfolding in_mode
  in_mode-IsSwept clock sweep poll m = IsSwept-refl m
  in_mode-IsSwept clock sweep observe m = sweep_all-IsSwept clock sweep m.subscribed_hrefs m

  -- A sweep changes neither the cache nor the mode, the subscribed and notified hrefs, the
  -- refresh task, the hrefs of an attempt or the table of recordings.
  pub sweep-IsSwept :
      (clock : String → ℕ) (sweep : Dict Rep) (m : ObserveManager C)
      → IsSwept m (log_sweep_discrepancies lib clock sweep m).1
  unfolding log_sweep_discrepancies
  sweep-IsSwept clock sweep m = in_mode-IsSwept clock sweep m.mode m

  -- The sweep reports a rep of `href` that the cache holds too, outside a settle window.
  pub record IsSeen (now : ℕ) (sweep : Dict Rep) (href : String) (m : ObserveManager C)
      : Type 0 where
    pub swept : Rep
    pub cached : Rep
    pub in_sweep : Dict.get sweep href ≡ some swept
    pub in_cache : lib.get m.cache href ≡ some cached
    pub closed : is_open now (settle_deadline m href) ≡ false
