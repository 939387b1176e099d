-- ===== src/Registry/Discovery.antt =====
-- registry/discovery.py: from the resources of a device to its bound entities
pub mod Gaps
use Prim.Native.Char.{code}
use localthings.Base.{
  String, Bool, true, false, not, ◌&&◌, ◌||◌, Option, none, some, List, [], ◌∷◌, ◌++◌, any, map,
  concat, rsplit, strip, split, startswith, strip_prefix, parse_decimal, is_some, default, occurs,
  eqb, ◌==◌, if◌then◌else◌, Rep, Value, str, arr, obj, items, entries,
}
use localthings.Base.Data.Equal.{eq}
use localthings.Base.Dict
use localthings.Base.Dict.{Dict}
use localthings.Registry.Capability.{Capability, Description, BoundEntity}
use localthings.Registry.Subdevices.Defs.{Subdevice, to_actual}

spaced : String → String
spaced String.[] = String.[]
spaced (String.◌∷◌ c s) =
    if eqb (code c) b'_' then String.◌∷◌ " " (spaced s) else String.◌∷◌ c (spaced s)

last_segment : String → String
last_segment href = elim (rsplit b'/' href) [ none ↦ href | some (head, tail) ↦ tail ]

drop_slashes : String → String
drop_slashes String.[] = String.[]
drop_slashes (String.◌∷◌ c s) =
    let rest = drop_slashes s in if eqb (code c) b'/' && rest == "" then "" else String.◌∷◌ c rest

abbrev is_digits : String → Bool
is_digits s = is_some (parse_decimal s)

unfoldable pub instance_suffix : String → String
unfolding last_segment drop_slashes
instance_suffix href =
    let tail = last_segment (drop_slashes href) in
    if is_digits tail && not (tail == "0") then concat "_" tail else ""

-- `needle in (rep.get("rt") or ())`
unfoldable pub has_type : String → Option Value → Bool
has_type needle (some (arr ts)) = any (eq (str needle)) (items ts)
has_type needle (some (str t)) = occurs needle t
has_type needle (some (obj fs)) = Dict.has (entries fs) needle
has_type needle _ = false

passes_filter : Option String → Rep → Bool
unfolding has_type
passes_filter none rep = true
passes_filter (some rt) rep = has_type rt (Dict.get rep "rt")

passes_match : Option (Rep → Dict Rep → Bool) → Rep → Dict Rep → Bool
passes_match none rep resources = true
passes_match (some match_fn) rep resources = match_fn rep resources

-- the tests that a capability makes of a rep
unfoldable pub accepts : Capability → Rep → Dict Rep → Bool
unfolding passes_filter passes_match
accepts cap rep resources =
    passes_filter cap.rt_filter rep && passes_match cap.match_fn rep resources

pub passes_prefix : Option String → String → Bool
passes_prefix none href = true
passes_prefix (some prefix) href = prefix == "" || startswith href prefix

keyed : Option String → String → Option String
keyed none key = none
keyed (some prefix) key = if prefix == "" then none else some (concat prefix (concat "_" key))

join_segments : List String → String
join_segments [] = ""
join_segments (s ∷ []) = s
join_segments (s ∷ t ∷ ts) = concat s (concat "_" (join_segments (t ∷ ts)))

key_segments : List String → List String
key_segments [] = []
key_segments (s ∷ ss) =
    let rest = key_segments ss in if s == "" || (is_digits s || s == "vs") then rest else s ∷ rest

stripped : Bool → Option String → String → String
stripped true (some prefix) href = default href (strip_prefix prefix href)
stripped _ _ href = href

-- the key prefix that a pattern capability derives from the href
unfoldable pub derived_prefix : Capability → String → String
unfolding stripped key_segments join_segments
derived_prefix cap href =
    join_segments (
      key_segments
        (split b'/' (strip b'/' (stripped cap.strip_prefix_in_key cap.href_prefix href))))

-- What `discover` returns, and the calls of `log` and `tier_log`.
pub record Found : Type 0 where
  pub bound : List BoundEntity
  pub gaps : List String
  pub tiers : List (String × String)

join : Found → Found → Found
join a b = record {
  bound = a.bound ++ b.bound;
  gaps = a.gaps ++ b.gaps;
  tiers = a.tiers ++ b.tiers;
}

abbrev pub nothing_found : Found
nothing_found = record { bound = []; gaps = []; tiers = [] }

pub no_caps : List Capability → Bool
no_caps [] = true
no_caps (c ∷ cs) = false

-- `str.title` stands for `title`
module _ (title : String → String) where
  named : Option Value → Option String
  unfolding spaced
  named (some (str raw)) = if raw == "" then none else some (title (spaced raw))
  named _ = none

  name_of : Option String → Rep → Option String
  unfolding named
  name_of none rep = none
  name_of (some name_field) rep = if name_field == "" then none else named (Dict.get rep name_field)

  instance_name : Capability → Rep → Option String
  unfolding name_of
  instance_name cap rep = name_of cap.name_field rep

  -- `_bind`
  unfoldable pub bind :
      Capability → String → Option String → Option String → Subdevice → List BoundEntity
  unfolding keyed
  bind cap href inst_name prefix s =
      map
        (λ (d : Description). record {
          href = to_actual s href;
          capability = cap;
          desc = d;
          inst = instance_suffix href;
          key_override = keyed prefix d.key;
          instance_name = inst_name;
          subdevice = s;
        })
        cap.entities

  expanded : Option (Rep → List (String × Description)) → Rep → List (String × Description)
  expanded none rep = []
  expanded (some expand_fn) rep = expand_fn rep

  -- `_expand`
  unfoldable pub expand : Capability → String → Rep → Subdevice → List BoundEntity
  unfolding expanded
  expand cap href rep s =
      map
        (λ (e : String × Description). record {
          href = to_actual s href;
          capability = cap;
          desc = e.1;
          inst = instance_suffix href;
          key_override = some (concat e.0 (concat "_" e.1.key));
          instance_name = none;
          subdevice = s;
        })
        (expanded cap.expand_fn rep)

  -- every capability of the href that accepts the rep, and whether there is one
  unfoldable pub bind_all : Dict Rep → String → Rep → Subdevice → List Capability → Bool × Found
  unfolding instance_name join
  bind_all resources href rep s [] = (false, nothing_found)
  bind_all resources href rep s (cap ∷ caps) =
      let (matched, rest) = bind_all resources href rep s caps in
      if accepts cap rep resources
      then (
        true,
        join
            (record {
              bound = bind cap href (instance_name cap rep) none s ++ expand cap href rep s;
              gaps = [];
              tiers = (to_actual s href, cap.poll_tier) ∷ [];
            })
            rest,
      )
      else (matched, rest)

  -- the first pattern capability that accepts the rep
  unfoldable pub bind_pattern : Dict Rep → String → Rep → Subdevice → List Capability → Bool × Found
  unfolding instance_name passes_prefix
  bind_pattern resources href rep s [] = (false, nothing_found)
  bind_pattern resources href rep s (cap ∷ caps) =
      let rest = bind_pattern resources href rep s caps in
      if passes_prefix cap.href_prefix href && accepts cap rep resources
      then (
        true,
        record {
          bound = bind cap href (instance_name cap rep) (some (derived_prefix cap href)) s;
          gaps = [];
          tiers = (to_actual s href, cap.poll_tier) ∷ [];
        },
      )
      else rest

  -- one resource; an href that no capability names and none binds is a gap
  unfoldable pub discover_href :
      Dict Rep → Dict (List Capability) → List Capability → Subdevice → String → Rep → Found
  unfolding no_caps
  discover_href resources registry patterns s href rep =
      let caps = default [] (Dict.get registry href) in
      let (matched, found) = bind_all resources href rep s caps in
      let (fallback, by_pattern) = bind_pattern resources href rep s patterns in
      if matched
      then found
      else if fallback
      then by_pattern
      else if no_caps caps
      then record { bound = []; gaps = to_actual s href ∷ []; tiers = [] }
      else nothing_found

  unfoldable pub discover_all :
      Dict Rep → Dict (List Capability) → List Capability → Subdevice → Dict Rep → Found
  unfolding join
  discover_all resources registry patterns s [] = nothing_found
  discover_all resources registry patterns s ((href, rep) ∷ rest) =
      join (discover_href resources registry patterns s href rep)
        (discover_all resources registry patterns s rest)

  unfoldable pub discover : Dict Rep → Dict (List Capability) → List Capability → Subdevice → Found
  unfolding discover_all
  discover resources registry patterns s = discover_all resources registry patterns s resources
