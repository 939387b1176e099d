-- ===== src/Observe/Apply/Gate.antt =====
-- What `ObserveManager.apply` lets into the cache, and what it makes of it.
use localthings.Base.{
  ℕ, String, Bool, true, false, not, ◌&&◌, ◌≡◌, refl, Option, none, some, List, [], default,
  or_else, ◌==◌, if◌then◌else◌, arith, Rep, Value, list,
}
use localthings.Base.Dict
use localthings.Base.Dict.{get-merge, get-put}
use localthings.Registry.Common.Options.{merge_options_field}
use localthings.Observe.State.{ObserveManager, Library, IsStateCache}
use localthings.Observe.Settle.{is_settling}
use localthings.Observe.Settle.Windows.{is_open}
use localthings.Observe.Apply.{
  apply, merged_rep, is_alarms_href, with_options, as_list, options_field,
}

-- a write of this component passes the gate; anything else waits for the window
abbrev pub is_blocked : {C : Type 0} → ℕ → String → String → ObserveManager C → Bool
is_blocked now href source m =
    not (source == "optimistic") && is_open now (Dict.get m.settle_until href)

abbrev pub prior_rep : {C : Type 0} → Library C → ObserveManager C → String → Rep
prior_rep lib m href = default [] (lib.get m.cache href)

module _ {C : Type 0} (lib : Library C) where
  -- A blocked update leaves the manager as it is, reports no change and calls no hook.
  apply_blocked :
      (now : ℕ) (href : String) (rep : Rep) (source : String) (m : ObserveManager C)
      → is_blocked now href source m ≡ true
      → apply lib now href rep source m ≡ record { manager = m; changed = false; hook = none }
  unfolding apply is_settling
  apply_blocked now href rep source m h = ground arith

module _ {C : Type 0} (lib : Library C) (laws : IsStateCache lib) where
  -- After `apply` the cache holds under its href the merged rep, and every other href keeps its
  -- rep; where a write of the href settles and the source is not `optimistic`, nothing changes in
  -- it.
  pub get-apply :
      (now : ℕ) (href j : String) (rep : Rep) (source : String) (m : ObserveManager C)
      → lib.get (apply lib now href rep source m).manager.cache j ≡ (
          if not (is_blocked now href source m) && href == j
          then some (merged_rep source href (prior_rep lib m href) rep)
          else lib.get m.cache j)
  unfolding apply is_settling
  get-apply now href j rep source m = ground (
    arith,
    laws.get-apply_rep m.cache href j (merged_rep source href (prior_rep lib m href) rep) source,
  )

with_options-field :
    (new cached : Option (List Value)) (merged : Rep) (k : String)
    → (options_field == k) ≡ false
    → Dict.get (with_options new cached merged) k ≡ Dict.get merged k
unfolding with_options
with_options-field (some new) (some cached) merged k h =
    ground (arith, get-put merged options_field k (list (merge_options_field cached new)))
with_options-field (some new) none merged k h = refl
with_options-field none cached merged k h = refl

-- Of a rep that is merged in, each field other than the options replaces the cached one, and a
-- field that it leaves out keeps its cached value; on an alarms href such a field is gone.
pub get-merged_rep :
    (source href : String) (prior rep : Rep) (k : String)
    → (options_field == k) ≡ false
    → Dict.get (merged_rep source href prior rep) k ≡ (
        if is_alarms_href href then Dict.get rep k else or_else (Dict.get rep k) (Dict.get prior k))
unfolding merged_rep
get-merged_rep source href prior rep k h = ground (
  arith,
  get-merge prior rep k,
  with_options-field (as_list (Dict.get rep options_field)) (as_list (Dict.get prior options_field))
      rep k h,
  with_options-field (as_list (Dict.get rep options_field)) (as_list (Dict.get prior options_field))
      (Dict.merge prior rep) k h,
)
