-- ===== src/Observe/Notify.antt =====
-- observe.py: `on_notification`
pub mod Delivery
use localthings.Base.{
  ℕ, String, Bool, false, not, ◌&&◌, Option, none, some, List, [], any, all, default, add, discard,
  if◌then◌else◌, Rep, Value, obj, entries,
}
use localthings.Base.Data.Equal.{eq}
use localthings.Base.Dict
use localthings.Observe.State.{ObserveManager, Library}
use localthings.Observe.Apply.{Applied, apply, as_list}
use localthings.Observe.Taps.{record_notification}

-- `set(a) == set(b)`
unfoldable pub same_set : List Value → List Value → Bool
same_set a b = all (λ v. any (eq v) b) a && all (λ v. any (eq v) a) b

differ : Option (List Value) → Option (List Value) → Bool
unfolding same_set
differ (some rt) (some cached_rt) = not (same_set rt cached_rt)
differ _ _ = false

module _ {C : Type 0} where
  -- the href has pushed: it needs no sub-poll and is not stale
  unfoldable pub note_push : String → ObserveManager C → ObserveManager C
  note_push href m = record m {
    notified = add href m.notified;
    fallback_hrefs = discard href m.fallback_hrefs;
    stale_sweeps = Dict.remove m.stale_sweeps href;
  }

module _ {C : Type 0} (lib : Library C) where
  -- `_resource_type_mismatch`
  unfoldable pub resource_type_mismatch : String → Rep → ObserveManager C → Bool
  unfolding differ
  resource_type_mismatch href rep m =
      differ (as_list (Dict.get rep "rt"))
        (as_list (Dict.get (default [] (lib.get m.cache href)) "rt"))

  dropped : ObserveManager C → Applied C
  dropped m = record { manager = m; changed = false; hook = none }

  unfoldable pub deliver : ℕ → String → Bool → Option Value → ObserveManager C → Applied C
  unfolding dropped
  deliver now href isolated (some (obj fs)) m =
      if isolated
      then dropped m
      else if resource_type_mismatch href (entries fs) m
      then dropped m
      else apply lib now href (entries fs) "observe" (note_push href m)
  deliver now href isolated _ m = dropped m

  unfoldable pub on_notification : ℕ → String → List ℕ → ObserveManager C → Applied C
  unfolding deliver
  on_notification now href payload m =
      let rep = lib.loads payload in
      let (isolated, m') = record_notification now href payload rep m in
      deliver now href isolated rep m'
