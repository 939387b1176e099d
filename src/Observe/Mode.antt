-- ===== src/Observe/Mode.antt =====
-- observe.py: subscribing, waiting for the first pushes, and the two modes
use localthings.Base.{
  ℕ, ◌*◌, String, Bool, true, false, none, some, List, [], ◌∷◌, map, keep, length, leb, mem, add,
  difference, strip, split, segments, if◌then◌else◌,
}
use localthings.Observe.State.{ObserveManager, Library, Clock, Mode, observe, poll}
use localthings.Observe.Notify.{on_notification}

-- A notify that arrives during the wait: when, for which href, and its payload.
pub record Notify : Type 0 where
  pub at : ℕ
  pub href : String
  pub payload : List ℕ

-- A fraction such as `SUCCESS_FRACTION`, 0.8.
pub record Fraction : Type 0 where
  pub num : ℕ
  pub den : ℕ

abbrev pub success_fraction : Fraction
success_fraction = record { num = 8; den = 10 }

abbrev pub same_mode : Mode → Mode → Bool
same_mode observe observe = true
same_mode poll poll = true
same_mode _ _ = false

-- the hrefs on which `session.subscribe` did not raise
subscribed_of : (List String → Bool) → List String → List String
subscribed_of takes [] = []
subscribed_of takes (href ∷ hrefs) =
    let rest = subscribed_of takes hrefs in if takes (segments href) then add href rest else rest

-- `tuple(h.strip("/").split("/"))`
abbrev pub path_of : String → List String
path_of h = split b'/' (strip b'/' h)

module _ {C : Type 0} where
  unfoldable pub set_mode : Clock → Mode → ObserveManager C → ObserveManager C
  set_mode clock mode m =
      if same_mode mode m.mode then m else record m { mode = mode; last_mode_change = clock }

  unfoldable pub stop_refresh_task : ObserveManager C → ObserveManager C
  stop_refresh_task m = record m { refresh_task = none }

  unfoldable pub start_refresh_task : ObserveManager C → ObserveManager C
  unfolding stop_refresh_task
  start_refresh_task m =
      let m' = stop_refresh_task m in
      record m' { refresh_task = some (map path_of m.subscribed_hrefs) }

  unfoldable pub subscribe_hrefs :
      (List String → Bool) → List String → ObserveManager C → List String × ObserveManager C
  unfolding subscribed_of
  subscribe_hrefs takes hrefs m =
      (subscribed_of takes hrefs, record m { notified = []; attempting = hrefs })

  -- `_fraction_reached`
  unfoldable pub fraction_reached : Fraction → List String → ObserveManager C → Bool
  fraction_reached fraction subscribed m =
      leb (fraction.num * length subscribed)
        (length (keep (λ h. mem h m.notified) subscribed) * fraction.den)

  unfoldable pub enter_observe_mode : Clock → List String → ObserveManager C → ObserveManager C
  unfolding set_mode start_refresh_task
  enter_observe_mode clock subscribed m = start_refresh_task (
      set_mode clock observe (record m {
        subscribed_hrefs = subscribed;
        fallback_hrefs = difference subscribed m.notified;
        stale_sweeps = [];
        attempting = [];
      }))

  unfoldable pub abandon_observe_attempt : Clock → ObserveManager C → ObserveManager C
  unfolding set_mode stop_refresh_task
  abandon_observe_attempt clock m =
      let m' = stop_refresh_task m in
      set_mode clock poll (record m' { subscribed_hrefs = []; attempting = [] })

  unfoldable pub downgrade_to_poll : Clock → ObserveManager C → ObserveManager C
  unfolding set_mode stop_refresh_task
  downgrade_to_poll clock m = set_mode clock poll (
      stop_refresh_task (record m {
        fallback_hrefs = m.subscribed_hrefs;
        stale_sweeps = [];
        subscribed_hrefs = [];
      }))

  unfoldable pub close : ObserveManager C → ObserveManager C
  unfolding stop_refresh_task
  close m = stop_refresh_task m

module _ {C : Type 0} (lib : Library C) where
  -- `Condition.wait_for` over the notifies that arrive before the timeout
  unfoldable pub wait_for :
      Fraction → List String → List Notify → ObserveManager C → Bool × ObserveManager C
  wait_for fraction subscribed [] m = (fraction_reached fraction subscribed m, m)
  wait_for fraction subscribed (e ∷ es) m = elim (fraction_reached fraction subscribed m) [
    | true ↦ (true, m)
    | false ↦ wait_for fraction subscribed es (on_notification lib e.at e.href e.payload m).manager
  ]

  unfoldable pub await_observe_notifies :
      Fraction → List String → List Notify → ObserveManager C → Bool × ObserveManager C
  await_observe_notifies fraction [] during m = (false, m)
  await_observe_notifies fraction (h ∷ hs) during m = wait_for fraction (h ∷ hs) during m

  -- what follows the wait, by whether enough hrefs pushed
  unfoldable pub commit : Clock → List String → Bool × ObserveManager C → Bool × ObserveManager C
  commit clock subscribed (true, m) = (true, enter_observe_mode clock subscribed m)
  commit clock subscribed (false, m) = (false, abandon_observe_attempt clock m)

  unfoldable pub attempt :
      Clock → Fraction → List Notify → List String → ObserveManager C → Bool × ObserveManager C
  unfolding commit
  attempt clock fraction during [] m = (false, abandon_observe_attempt clock m)
  attempt clock fraction during (h ∷ hs) m =
      commit clock (h ∷ hs) (await_observe_notifies fraction (h ∷ hs) during m)

  unfoldable pub try_enter_observe_mode :
      Clock
      → (List String → Bool)
      → List String
      → Fraction
      → List Notify
      → ObserveManager C
      → Bool × ObserveManager C
  unfolding attempt
  try_enter_observe_mode clock takes hrefs fraction during m =
      let (subscribed, m') = subscribe_hrefs takes hrefs m in
      attempt clock fraction during subscribed m'
