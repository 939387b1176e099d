-- ===== src/Registry/Subdevices/Enumerate/Timeouts.antt =====
-- How long each read of `enumerate_subdevices` may take.
use localthings.Base.{ℕ, ◌+◌, Bool, true, ◌≡◌, some, all, leb, ◌&&◌, ◌||◌}
use localthings.Base.Dict.{Dict}
use localthings.Registry.Subdevices.Enumerate.{World, Probing, Limits}

-- A read is allowed one of the two timeouts at most, and no time beyond the deadline, from the last
-- reading of the clock on.
abbrev pub is_timely : World → ℕ → ℕ → ℕ → ℕ × ℕ → Bool
is_timely w deadline collection property (tick, timeout) =
    (leb timeout collection || leb timeout property) && leb (w.clock tick + timeout) deadline

module _ (w : World) (lim : Limits) (deadline : ℕ) (d : lim.deadline ≡ some deadline) where
  timely : Probing → Bool
  timely p = all (is_timely w deadline lim.collection_timeout lim.property_timeout) p.asked

  -- the same for a whole step
  Timely : Probing → Type 0
  Timely p = timely p ≡ true
