-- ===== src/Observe/Settle.antt =====
-- observe.py: the write-settle guard
pub mod Windows
use localthings.Base.{
  ℕ, ◌+◌, String, Bool, true, false, Option, none, some, leb, eqb, if◌then◌else◌,
}
use localthings.Base.Dict
use localthings.Observe.State.{ObserveManager}

abbrev pub default_settle : ℕ
default_settle = 4000

is_armed : Option ℕ → ℕ → Bool
is_armed none armed = false
is_armed (some until) armed = eqb until armed

module _ {C : Type 0} where
  -- The new state, and the deadline of the window that was armed.
  unfoldable pub mark_write_pending : ℕ → String → ℕ → ObserveManager C → ObserveManager C × ℕ
  mark_write_pending now href settle m =
      let deadline = now + settle in
      (record m { settle_until = Dict.put m.settle_until href deadline }, deadline)

  unfoldable pub settle_deadline : ObserveManager C → String → Option ℕ
  settle_deadline m href = Dict.get m.settle_until href

  put_back : ℕ → String → Option ℕ → ObserveManager C → ObserveManager C
  put_back now href none m = record m { settle_until = Dict.remove m.settle_until href }
  put_back now href (some previous) m =
      if leb previous now
      then record m { settle_until = Dict.remove m.settle_until href }
      else record m { settle_until = Dict.put m.settle_until href previous }

  unfoldable pub restore_write_pending :
      ℕ → String → Option ℕ → ℕ → ObserveManager C → ObserveManager C
  unfolding put_back is_armed
  restore_write_pending now href previous armed m =
      if is_armed (Dict.get m.settle_until href) armed then put_back now href previous m else m

  settling : ℕ → String → Option ℕ → ObserveManager C → Bool × ObserveManager C
  settling now href none m = (false, m)
  settling now href (some until) m =
      if leb until now
      then (false, record m { settle_until = Dict.remove m.settle_until href })
      else (true, m)

  -- `_is_settling`, which forgets a window that is over
  unfoldable pub is_settling : ℕ → String → ObserveManager C → Bool × ObserveManager C
  unfolding settling
  is_settling now href m = settling now href (Dict.get m.settle_until href) m
