-- ===== src/Registry/UsageDb/Series.antt =====
-- Which series of third fields stand for what.
use localthings.Base.{
  ℕ, Bool, true, false, ◌&&◌, ◌≡◌, refl, Option, none, some, List, [], ◌∷◌, all, leb, eqb, arith,
  Rep,
}
use localthings.Registry.UsageDb.{
  Record, is_runtime_series, energy_scale_is_confirmed, last, max_month, thirds, energy_of,
  runtime_of, cumulative_energy_kwh, cumulative_runtime_hours, records,
}

last_of_all :
    (p : ℕ → Bool) (x : ℕ) (xs : List ℕ) → all p (x ∷ xs) ≡ true → p (last (x ∷ xs)) ≡ true
unfolding last
last_of_all p x [] h = ground (arith, h)
last_of_all p x (y ∷ ys) h = ground (arith, h, last_of_all p y ys)

scale_not_runtime :
    (x : ℕ) (xs : List ℕ)
    → energy_scale_is_confirmed (x ∷ xs) ≡ true
    → is_runtime_series (x ∷ xs) ≡ false
unfolding energy_scale_is_confirmed is_runtime_series
scale_not_runtime x xs h =
    ground (
      arith,
      h,
      last_of_all (λ v. eqb v 0) x xs,
      last_of_all (λ v. leb 1 v && leb v max_month) x xs,
    )

exclusive : (o : Option (List Record)) (n : ℕ) → energy_of o ≡ some n → runtime_of o ≡ none
unfolding energy_of runtime_of
exclusive none n h = refl
exclusive (some []) n h = refl
exclusive (some (r ∷ rs)) n h = ground (arith, h, scale_not_runtime r.third (thirds rs))

-- A file is never read both as energy in tenths of a kWh and as running time.
pub energy_or_runtime :
    (rep : Rep) (n : ℕ) → cumulative_energy_kwh rep ≡ some n → cumulative_runtime_hours rep ≡ none
unfolding cumulative_energy_kwh cumulative_runtime_hours
energy_or_runtime rep n h = exclusive (records rep) n h
