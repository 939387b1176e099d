-- ===== src/Observe/Sweep/Counts.antt =====
-- How a sweep counts the misses of an href, and when it goes back on the sub-poll cadence.
use localthings.Base.{
  ℕ, ◌+◌, String, Bool, true, false, not, ◌&&◌, ◌||◌, ◌≡◌, refl, ap, ◌∙◌, some, List, [], ◌∷◌, mem,
  mem-add, ◌==◌, eq_iff, leb, arith, Rep, Value, if◌then◌else◌, Bool-cases, inl, inr,
}
use localthings.Base.Dict.{Dict, get-put, get-remove}
use localthings.Observe.State.{ObserveManager, Library, Mode, observe, poll}
use localthings.Observe.Settle.{is_settling}
use localthings.Observe.Settle.Windows.{is_settling_open}
use localthings.Observe.Sweep.{
  rep_diff, count_miss, note_diff, compare_rep, unless_settling, check_href, sweep_href, sweep_all,
  in_mode, log_sweep_discrepancies,
}
use localthings.Observe.Sweep.Stale.{IsSwept, IsSeen, sweep_href-IsSwept}
use localthings.Observe.Sweep.Kept.{
  misses, IsKept, IsKept-trans, IsKept-refl, is_settling-IsKept, is_settling-cache, other_step,
}

-- `href` stands in the list, once
unfoldable pub once : String → List String → Bool
once href [] = false
once href (h ∷ hs) = let later = once href hs in if h == href then not (mem href hs) else later

abbrev pub differs : Dict (Value × Value) → Bool
differs [] = false
differs (d ∷ ds) = true

-- A sweep that found `href` stale, or not: a miss is counted, or the count starts again; two misses
-- in a row end in a sub-poll.
pub record IsCounted {C : Type 0} (href : String) (stale : Bool) (m m' : ObserveManager C)
    : Type 0 where
  pub count : misses m' href ≡ (if stale then misses m href + 1 else 0)
  pub fallback :
      mem href m'.fallback_hrefs
      ≡ (mem href m.fallback_hrefs || (stale && leb 2 (misses m href + 1)))

module _ {C : Type 0} where
  note_diff-IsCounted :
      (href : String) (d : Dict (Value × Value)) (m : ObserveManager C)
      → IsCounted href (differs d) m (note_diff href d m).1
  unfolding note_diff count_miss
  note_diff-IsCounted href [] m = record {
    count = ground (arith, eq_iff href href, get-remove m.stale_sweeps href href);
    fallback = ground arith;
  }
  note_diff-IsCounted href (d ∷ ds) m = record {
    count = ground (arith, eq_iff href href, get-put m.stale_sweeps href href (misses m href + 1));
    fallback = ground (arith, eq_iff href href, mem-add href href m.fallback_hrefs);
  }

  IsKept-IsCounted :
      {now : ℕ} {href : String} {stale : Bool} {a b c : ObserveManager C}
      → IsKept now href a b
      → IsCounted href stale b c
      → IsCounted href stale a c
  IsKept-IsCounted k i = record {
    count = rw (← k.count) i.count;
    fallback = rw (← k.count, ← k.fallback) i.fallback;
  }

  IsCounted-IsKept :
      {now : ℕ} {href : String} {stale : Bool} {a b c : ObserveManager C}
      → IsCounted href stale a b
      → IsKept now href b c
      → IsCounted href stale a c
  IsCounted-IsKept i k = record { count = k.count ∙ i.count; fallback = k.fallback ∙ i.fallback }

module _ {C : Type 0} (lib : Library C) (sweep : Dict Rep) (href : String) where
  -- whether the sweep finds the href stale
  abbrev pub is_stale : {now : ℕ} {m : ObserveManager C} → IsSeen lib now sweep href m → Bool
  is_stale s = differs (rep_diff s.cached s.swept)

  unless_settling_seen :
      (swept cached : Rep) (r : Bool × ObserveManager C)
      → r.0 ≡ false
      → lib.get r.1.cache href ≡ some cached
      → (unless_settling lib href swept r).1 ≡ (note_diff href (rep_diff cached swept) r.1).1
  unfolding unless_settling compare_rep
  unless_settling_seen swept cached (true, m) closed e = cc
  unless_settling_seen swept cached (false, m) closed e = rw (e, compare_rep) refl

  sweep_href-IsCounted :
      (now : ℕ) (m : ObserveManager C) (s : IsSeen lib now sweep href m)
      → IsCounted href (is_stale s) m (sweep_href lib now sweep href m).1
  unfolding sweep_href check_href
  sweep_href-IsCounted now m s =
      let m1 : ObserveManager C = (is_settling now href m).1 in
      let end_ =
        unless_settling_seen s.swept s.cached (is_settling now href m)
          (is_settling_open m now href ∙ s.closed)
          (ap (λ c. lib.get c href) (is_settling-cache now href m) ∙ s.in_cache) in
      rw (s.in_sweep, check_href, end_)
        (IsKept-IsCounted (is_settling-IsKept now href m)
          (note_diff-IsCounted href (rep_diff s.cached s.swept) m1))

  module _ (clock : String → ℕ) where
    sweep_all-IsKept :
        (now : ℕ) (hrefs : List String) (m : ObserveManager C)
        → mem href hrefs ≡ false
        → IsKept now href m (sweep_all lib clock sweep hrefs m).1
    unfolding sweep_all
    sweep_all-IsKept now [] m n = IsKept-refl now href m
    sweep_all-IsKept now (h ∷ hs) m n =
        IsKept-trans (other_step lib now (clock h) sweep h href m (ground (arith, n)))
          (sweep_all-IsKept now hs (sweep_href lib (clock h) sweep h m).1 (ground (arith, n)))

    seen_after :
        (h : String) (m : ObserveManager C)
        → (h == href) ≡ false
        → IsSeen lib (clock href) sweep href m
        → IsSeen lib (clock href) sweep href (sweep_href lib (clock h) sweep h m).1
    seen_after h m n s = record {
      swept = s.swept;
      cached = s.cached;
      in_sweep = s.in_sweep;
      in_cache =
          ap (λ c. lib.get c href) (IsSwept.cache (sweep_href-IsSwept lib (clock h) sweep h m))
          ∙ s.in_cache;
      closed = IsKept.closed (other_step lib (clock href) (clock h) sweep h href m n) s.closed;
    }

    sweep_all-IsCounted :
        (hrefs : List String) (m : ObserveManager C)
        → once href hrefs ≡ true
        → (s : IsSeen lib (clock href) sweep href m)
        → IsCounted href (is_stale s) m (sweep_all lib clock sweep hrefs m).1
    unfolding sweep_all once seen_after
    sweep_all-IsCounted [] m o s = absurd (ground (arith, o))
    sweep_all-IsCounted (h ∷ hs) m o s = elim (Bool-cases (h == href)) [
      | inl same ↦ rw ((eq_iff h href).0 same) (
          IsCounted-IsKept (sweep_href-IsCounted (clock href) m s) (
            sweep_all-IsKept (clock href) hs (sweep_href lib (clock href) sweep href m).1
              (ground (arith, o, same))))
      | inr other ↦ IsKept-IsCounted (other_step lib (clock href) (clock h) sweep h href m other) (
          sweep_all-IsCounted hs (sweep_href lib (clock h) sweep h m).1 (ground (arith, o, other))
            (seen_after h m other s))
    ]

    in_mode-IsCounted :
        (mode : Mode) (m : ObserveManager C)
        → mode ≡ observe
        → once href m.subscribed_hrefs ≡ true
        → (s : IsSeen lib (clock href) sweep href m)
        → IsCounted href (is_stale s) m (in_mode lib mode clock sweep m).1
    unfolding in_mode
    in_mode-IsCounted poll m e o s = cc
    in_mode-IsCounted observe m e o s = sweep_all-IsCounted m.subscribed_hrefs m o s

    -- In observe mode, a sweep counts a miss of a subscribed href that it finds stale, and starts
    -- its count again where it does not.
    pub log_sweep_discrepancies-IsCounted :
        (m : ObserveManager C)
        → m.mode ≡ observe
        → once href m.subscribed_hrefs ≡ true
        → (s : IsSeen lib (clock href) sweep href m)
        → IsCounted href (is_stale s) m (log_sweep_discrepancies lib clock sweep m).1
    unfolding log_sweep_discrepancies
    log_sweep_discrepancies-IsCounted m = in_mode-IsCounted m.mode m
