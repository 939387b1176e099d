-- ===== src/Registry/Tables.antt =====
-- registry/registry.py and registry/by_type/_base.py: tables of capabilities by href
pub mod Groups
use localthings.Base.{
  String, Bool, true, false, ◌&&◌, not, none, some, List, [], ◌∷◌, ◌++◌, any, length, ltb, default,
  is_some, if◌then◌else◌,
}
use localthings.Base.Dict
use localthings.Base.Dict.{Dict}
use localthings.Registry.Capability.{Capability}

-- the reasons for a ValueError
pub data BuildError : Type 0 where
  no_href prefixed_href ambiguous : BuildError

pub data Built : Type 0 where
  table : Dict (List Capability) → Built
  refused : BuildError → Built

abbrev pub Table : Type 0
Table = Dict (List Capability)

abbrev pub is_unfiltered : Capability → Bool
is_unfiltered c = not (is_some c.rt_filter) && not (is_some c.match_fn)

-- `out.setdefault(href, []).append(cap)`
unfoldable pub append_cap : Table → String → Capability → Table
append_cap out href cap = Dict.put out href (default [] (Dict.get out href) ++ cap ∷ [])

-- a group with more than one capability, and one that would bind anything
unfoldable pub is_ambiguous : List Capability → Bool
is_ambiguous caps = ltb 1 (length caps) && any is_unfiltered caps

unfoldable pub any_ambiguous : Table → Bool
unfolding is_ambiguous
any_ambiguous [] = false
any_ambiguous ((href, caps) ∷ out) = if is_ambiguous caps then true else any_ambiguous out

validated : Table → Built
unfolding any_ambiguous
validated out = if any_ambiguous out then refused ambiguous else table out

-- the first loop of registry.py's `_build`, which skips the pattern capabilities
global_groups : Table → List Capability → Table
unfolding append_cap
global_groups out [] = out
global_groups out (cap ∷ caps) = elim cap.href [
  | none ↦ global_groups out caps
  | some href ↦ global_groups (append_cap out href cap) caps
]

unfoldable pub build_global : List Capability → Built
unfolding validated global_groups
build_global all_caps = validated (global_groups [] all_caps)

-- the first loop of by_type/_base.py's `_build`, which refuses them
typed_groups : Table → List Capability → Built
unfolding append_cap
typed_groups out [] = table out
typed_groups out (cap ∷ caps) = elim cap.href [
  | none ↦ refused no_href
  | some href ↦
      if is_some cap.href_prefix
      then refused prefixed_href
      else typed_groups (append_cap out href cap) caps
]

check_groups : Built → Built
unfolding validated
check_groups (table out) = validated out
check_groups (refused e) = refused e

unfoldable pub build_typed : List Capability → Built
unfolding check_groups typed_groups
build_typed caps = check_groups (typed_groups [] caps)
