-- ===== src/Observe/Taps.antt =====
-- observe.py: the recordings of `observe_resource`
use localthings.Base.{
  ℕ, ◌+◌, String, Bool, false, not, ◌&&◌, ◌||◌, Option, none, some, List, [], ◌∷◌, ◌++◌, eqb, ltb,
  is_some, length, mem, if◌then◌else◌, Value, null,
}
use localthings.Base.Dict
use localthings.Observe.State.{ObserveManager, Tap, Recorded, decoded, raw}

update : (ℕ → Option Tap) → ℕ → Tap → ℕ → Option Tap
update heap a tap b = if eqb a b then some tap else heap b

is_tap : Option ℕ → ℕ → Bool
is_tap none a = false
is_tap (some b) a = eqb b a

recorded : List ℕ → Option Value → Recorded
recorded payload none = raw payload
recorded payload (some null) = raw payload
recorded payload (some v) = decoded v

-- one notification, kept up to the limit and counted beyond it
unfoldable pub record_item : ℕ → Recorded → Tap → Tap
record_item now r tap =
    if ltb (length tap.items) tap.limit
    then record tap { items = tap.items ++ (now, r) ∷ [] }
    else record tap { dropped = tap.dropped + 1 }

module _ {C : Type 0} where
  unfoldable pub reserve_tap : String → ℕ → Bool → ObserveManager C → Option ℕ × ObserveManager C
  unfolding update
  reserve_tap href limit isolate m = if Dict.has m.taps href then (none, m) else (
    some m.next_tap,
    record m {
      taps = Dict.put m.taps href m.next_tap;
      tap_heap =
          update m.tap_heap m.next_tap
            (record { limit = limit; isolate = isolate; started = none; items = []; dropped = 0 });
      next_tap = m.next_tap + 1;
    },
  )

  start_at : ℕ → ℕ → Option Tap → ObserveManager C → ObserveManager C
  unfolding update
  start_at now a none m = m
  start_at now a (some tap) m = record m {
    tap_heap = update m.tap_heap a (record tap { started = some now });
  }

  unfoldable pub start_tap : ℕ → ℕ → ObserveManager C → ObserveManager C
  unfolding start_at
  start_tap now a m = start_at now a (m.tap_heap a) m

  unfoldable pub release_tap : String → ℕ → ObserveManager C → ObserveManager C
  unfolding is_tap
  release_tap href a m =
      if is_tap (Dict.get m.taps href) a then record m { taps = Dict.remove m.taps href } else m

  unfoldable pub coordinator_observes : ObserveManager C → String → Bool
  coordinator_observes m href = mem href m.subscribed_hrefs || mem href m.attempting

  -- the recording of `href`, with its address
  unfoldable pub tap_of : ObserveManager C → String → Option (ℕ × Tap)
  tap_of m href = elim (Dict.get m.taps href) [
    | none ↦ none
    | some a ↦ elim (m.tap_heap a) [ none ↦ none | some tap ↦ some (a, tap) ]
  ]

  -- what a notification does to the recording of its href, and whether the cache must not see it
  record_in : ℕ → String → Recorded → Option (ℕ × Tap) → ObserveManager C → Bool × ObserveManager C
  unfolding update record_item coordinator_observes
  record_in now href r none m = (false, m)
  record_in now href r (some (a, tap)) m =
      if is_some tap.started
      then (
        tap.isolate && not (coordinator_observes m href),
        record m { tap_heap = update m.tap_heap a (record_item now r tap) },
      )
      else (false, m)

  unfoldable pub record_notification :
      ℕ → String → List ℕ → Option Value → ObserveManager C → Bool × ObserveManager C
  unfolding record_in recorded tap_of
  record_notification now href payload rep m =
      record_in now href (recorded payload rep) (tap_of m href) m
