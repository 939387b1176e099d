-- ===== src/Observe/Notify/Delivery.antt =====
-- Which notifications reach the cache, and as what.
use localthings.Base.{
  ℕ, String, Bool, not, ◌&&◌, ◌≡◌, refl, Option, none, some, List, arith, eq_iff, ◌==◌,
  if◌then◌else◌, Rep, Value, obj, entries,
}
use localthings.Observe.State.{ObserveManager, Library, IsStateCache}
use localthings.Observe.Apply.{merged_rep}
use localthings.Observe.Apply.Gate.{is_blocked, prior_rep, get-apply}
use localthings.Observe.Taps.{record_notification}
use localthings.Observe.Notify.{note_push, deliver, on_notification, resource_type_mismatch}

-- the dict that a payload decodes to
abbrev pub dict_of : Option Value → Option Rep
dict_of (some (obj fs)) = some (entries fs)
dict_of _ = none

module _ {C : Type 0} (lib : Library C) where
  -- no recording keeps the push to itself, its resource types are the cached ones, and no write of
  -- the href settles
  abbrev pub is_taken : ℕ → String → List ℕ → Rep → ObserveManager C → Bool
  is_taken now href payload rep m =
      not (record_notification now href payload (lib.loads payload) m).0
      && (not (resource_type_mismatch lib href rep m) && not (is_blocked now href "observe" m))

  -- what a push makes of the rep of `href`
  abbrev pub pushed : ℕ → String → List ℕ → Option Rep → ObserveManager C → Option Rep
  pushed now href payload none m = lib.get m.cache href
  pushed now href payload (some rep) m =
      if is_taken now href payload rep m
      then some (merged_rep "observe" href (prior_rep lib m href) rep)
      else lib.get m.cache href

  delivered : ℕ → String → Bool → Option Rep → ObserveManager C → Option Rep
  delivered now href isolated none m = lib.get m.cache href
  delivered now href isolated (some rep) m =
      if not isolated
        && (not (resource_type_mismatch lib href rep m) && not (is_blocked now href "observe" m))
      then some (merged_rep "observe" href (prior_rep lib m href) rep)
      else lib.get m.cache href

  delivered_frame :
      (now : ℕ) (href : String) (isolated : Bool) (rep : Option Rep) (m' m : ObserveManager C)
      → m'.cache ≡ m.cache
      → m'.settle_until ≡ m.settle_until
      → delivered now href isolated rep m' ≡ delivered now href isolated rep m
  unfolding delivered resource_type_mismatch
  delivered_frame now href isolated none m' m c u = ground (arith, c)
  delivered_frame now href isolated (some rep) m' m c u = rw (c, u) refl

  record_frame :
      (now : ℕ) (href : String) (payload : List ℕ) (rep : Option Value) (m : ObserveManager C)
      → ((record_notification now href payload rep m).1.cache ≡ m.cache)
        × ((record_notification now href payload rep m).1.settle_until ≡ m.settle_until)
  unfolding record_notification
  record_frame now href payload rep m = ground arith

module _ {C : Type 0} (lib : Library C) (laws : IsStateCache lib) where
  get-deliver :
      (now : ℕ) (href j : String) (isolated : Bool) (rep : Option Value) (m : ObserveManager C)
      → lib.get (deliver lib now href isolated rep m).manager.cache j
        ≡ (if href == j then delivered lib now href isolated (dict_of rep) m else lib.get m.cache j)
  unfolding deliver note_push delivered
  get-deliver now href j isolated (some (obj fs)) m = ground (
    arith,
    get-apply lib laws now href j (entries fs) "observe" (note_push href m),
    eq_iff href j,
  )
  get-deliver now href j isolated rep m = ground (arith, eq_iff href j)

  -- A push merges its dict into the cached rep of its href, unless a recording keeps it to
  -- itself, it and the cached rep list different sets of resource types, or a write of the href
  -- settles; it does so to no other href, and a payload that is no dict does so to none.
  pub get-on_notification :
      (now : ℕ) (href j : String) (payload : List ℕ) (m : ObserveManager C)
      → lib.get (on_notification lib now href payload m).manager.cache j ≡ (
          if href == j
          then pushed lib now href payload (dict_of (lib.loads payload)) m
          else lib.get m.cache j)
  unfolding on_notification delivered
  get-on_notification now href j payload m =
      let rep = lib.loads payload in
      let m' = (record_notification now href payload rep m).1 in
      let f = record_frame lib now href payload rep m in
      ground (
        arith,
        get-deliver now href j (record_notification now href payload rep m).0 rep m',
        f,
        delivered_frame lib now href (record_notification now href payload rep m).0 (dict_of rep) m'
            m f.0 f.1,
      )
