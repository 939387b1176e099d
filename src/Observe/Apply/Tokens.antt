-- ===== src/Observe/Apply/Tokens.antt =====
-- What the cache holds of an array of option tokens once an update is let in.
use localthings.Base.{
  eq_iff, ℕ, String, false, ◌≡◌, refl, ap, Option, some, List, default, or_else, ◌==◌,
  if◌then◌else◌, arith, Rep, Value, items, of_items, list, inl, inr, Bool-cases, [], ◌∷◌,
}
use localthings.Base.Dict
use localthings.Base.Dict.{get-merge, get-put}
use localthings.Registry.Common.Options.{merge_options_field, first_token, last_token}
use localthings.Registry.Common.Options.Laws.{first-merge_options_field}
use localthings.Observe.State.{ObserveManager, Library, IsStateCache}
use localthings.Observe.Apply.{
  apply, merged_rep, is_alarms_href, with_options, as_list, options_field,
}
use localthings.Observe.Apply.Gate.{is_blocked, prior_rep, get-apply}

items_of_items : (vs : List Value) → items (of_items vs) ≡ vs
items_of_items [] = refl
items_of_items (v ∷ vs) = ap (λ ws. v ∷ ws) (items_of_items vs)

-- the options of a rep, if it holds a list of them
abbrev pub options_of : Option Rep → List Value
options_of rep = default [] (as_list (Dict.get (default [] rep) options_field))

module _ (href : String) (prior rep : Rep) (new cached : List Value)
    (p : as_list (Dict.get rep options_field) ≡ some new)
    (q : as_list (Dict.get prior options_field) ≡ some cached) where
  merged_base : Rep
  merged_base = if is_alarms_href href then rep else Dict.merge prior rep

  options_base : as_list (Dict.get merged_base options_field) ≡ some new
  unfolding merged_base
  options_base = ground (arith, p, get-merge prior rep options_field)

  -- A notify's options are merged into the cached ones, and any other source's replace them.
  options-merged_rep :
      (source : String)
      → as_list (Dict.get (merged_rep source href prior rep) options_field)
        ≡ some (if source == "observe" then merge_options_field cached new else new)
  unfolding merged_rep with_options merged_base
  options-merged_rep source = elim (Bool-cases (source == "observe")) [
    | inr other ↦ rw other options_base
    | inl push ↦
        rw (push, p, q, with_options)
          (ground (
            arith,
            items_of_items (merge_options_field cached new),
            get-put merged_base options_field options_field (list (merge_options_field cached new)),
          ))
  ]

module _ {C : Type 0} (lib : Library C) (laws : IsStateCache lib) where
  -- Where an update with options is let in over a cached rep with options, the cache then holds for
  -- each token prefix: after a notify the last token of the notify with it, or otherwise the cached
  -- token; after any other update the token of the update, and none where it has none.
  pub first_token-apply :
      (now : ℕ) (href prefix : String) (rep : Rep) (source : String) (m : ObserveManager C)
      (new cached : List Value)
      → is_blocked now href source m ≡ false
      → as_list (Dict.get rep options_field) ≡ some new
      → as_list (Dict.get (prior_rep lib m href) options_field) ≡ some cached
      → first_token prefix
          (options_of (lib.get (apply lib now href rep source m).manager.cache href))
        ≡ (if source == "observe"
            then or_else (last_token prefix new) (first_token prefix cached)
            else first_token prefix new)
  first_token-apply now href prefix rep source m new cached open_ p q =
      let held = get-apply lib laws now href href rep source m in
      let options = options-merged_rep href (prior_rep lib m href) rep new cached p q source in
      let cell : lib.get (apply lib now href rep source m).manager.cache href
          ≡ some (merged_rep source href (prior_rep lib m href) rep) =
        ground (arith, held, open_, eq_iff href href) in
      rw (cell, options)
        (elim (Bool-cases (source == "observe")) [
          | inl push ↦ rw push (first-merge_options_field prefix cached new)
          | inr other ↦ rw other refl
        ])
