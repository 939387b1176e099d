-- ===== src/Observe/Sweep/Kept.antt =====
-- What a round of the sweep over one href keeps of another.
use localthings.Base.{
  ℕ, ◌+◌, String, Bool, true, false, ◌≡◌, refl, none, some, [], ◌∷◌, default, mem, mem-add, ◌==◌,
  arith, Rep, Value, ◌∙◌,
}
use localthings.Base.Dict
use localthings.Base.Dict.{Dict, get-put, get-remove}
use localthings.Observe.State.{ObserveManager, Library}
use localthings.Observe.Settle.{is_settling, settle_deadline}
use localthings.Observe.Settle.Windows.{is_open}
use localthings.Observe.Sweep.{
  rep_diff, note_diff, compare_rep, unless_settling, check_href, sweep_href,
}

abbrev pub misses : {C : Type 0} → ObserveManager C → String → ℕ
misses m href = default 0 (Dict.get m.stale_sweeps href)

-- What a step keeps of `href`: its misses, its place on the sub-polls and its deadline.
pub record IsKept {C : Type 0} (now : ℕ) (href : String) (m m' : ObserveManager C) : Type 0 where
  pub count : misses m' href ≡ misses m href
  pub fallback : mem href m'.fallback_hrefs ≡ mem href m.fallback_hrefs
  pub closed :
      is_open now (settle_deadline m href) ≡ false → is_open now (settle_deadline m' href) ≡ false

module _ {C : Type 0} where
  pub IsKept-refl : (now : ℕ) (href : String) (m : ObserveManager C) → IsKept now href m m
  IsKept-refl now href m = record { count = refl; fallback = refl; closed = λ h. h }

  -- read for the same href at the same time, or for another
  pub is_settling-IsKept :
      (now : ℕ) (href : String) (m : ObserveManager C)
      → IsKept now href m (is_settling now href m).1
  unfolding is_settling settle_deadline
  is_settling-IsKept now href m = record {
    count = ground arith;
    fallback = ground arith;
    closed = λ p. ground (arith, p, get-remove m.settle_until href href);
  }

  is_settling-IsKept_other :
      (now then_ : ℕ) (h href : String) (m : ObserveManager C)
      → (h == href) ≡ false
      → IsKept now href m (is_settling then_ h m).1
  unfolding is_settling settle_deadline
  is_settling-IsKept_other now then_ h href m n = record {
    count = ground arith;
    fallback = ground arith;
    closed = λ p. ground (arith, p, n, get-remove m.settle_until h href);
  }

  pub is_settling-cache :
      (now : ℕ) (href : String) (m : ObserveManager C) → (is_settling now href m).1.cache ≡ m.cache
  unfolding is_settling
  is_settling-cache now href m = ground arith

  note_diff-IsKept :
      (now : ℕ) (h href : String) (d : Dict (Value × Value)) (m : ObserveManager C)
      → (h == href) ≡ false
      → IsKept now href m (note_diff h d m).1
  unfolding note_diff settle_deadline
  note_diff-IsKept now h href [] m n = record {
    count = ground (arith, get-remove m.stale_sweeps h href);
    fallback = refl;
    closed = λ p. p;
  }
  note_diff-IsKept now h href (d ∷ ds) m n = record {
    count = ground (arith, get-put m.stale_sweeps h href (misses m h + 1));
    fallback = ground (arith, mem-add h href m.fallback_hrefs);
    closed = λ p. p;
  }

  pub IsKept-trans :
      {now : ℕ} {href : String} {a b c : ObserveManager C}
      → IsKept now href a b
      → IsKept now href b c
      → IsKept now href a c
  IsKept-trans p q = record {
    count = q.count ∙ p.count;
    fallback = q.fallback ∙ p.fallback;
    closed = λ h. q.closed (p.closed h);
  }

module _ {C : Type 0} (lib : Library C) (now then_ : ℕ) (sweep : Dict Rep) where
  unless_settling-IsKept :
      (h href : String) (swept : Rep) (r : Bool × ObserveManager C)
      → (h == href) ≡ false
      → IsKept now href r.1 (unless_settling lib h swept r).1
  unfolding unless_settling compare_rep
  unless_settling-IsKept h href swept (true, m) n = IsKept-refl now href m
  unless_settling-IsKept h href swept (false, m) n =
      elim (lib.get m.cache h) as (λ o. IsKept now href m (compare_rep lib h swept o m).1) [
        | none ↦ IsKept-refl now href m
        | some c ↦ note_diff-IsKept now h href (rep_diff c swept) m n
      ]

  -- A round of the loop over another href, at whatever time.
  pub other_step :
      (h href : String) (m : ObserveManager C)
      → (h == href) ≡ false
      → IsKept now href m (sweep_href lib then_ sweep h m).1
  unfolding sweep_href check_href
  other_step h href m n =
      elim (Dict.get sweep h) as (λ o. IsKept now href m (check_href lib then_ h o m).1) [
        | none ↦ IsKept-refl now href m
        | some swept ↦
            IsKept-trans (is_settling-IsKept_other now then_ h href m n)
              (unless_settling-IsKept h href swept (is_settling then_ h m) n)
      ]
