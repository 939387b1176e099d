-- ===== src/Registry/Partition.antt =====
-- registry/subdevices.py: `discover_partitioned`, which decides which candidates are real
pub mod Gate
use localthings.Base.{
  String, Bool, true, false, not, ◌&&◌, ◌||◌, Option, none, some, List, [], ◌∷◌, ◌++◌, any, map,
  mem, default, or_else, sort_texts, to_set, ◌==◌, if◌then◌else◌, Rep, Value, null,
}
use localthings.Base.Dict
use localthings.Base.Dict.{Dict}
use localthings.Registry.Capability.{Capability, Description, BoundEntity}
use localthings.Registry.Subdevices.Defs.{Subdevice, main_subdevice, canonical_view}
use localthings.Registry.Discovery.{Found, discover}
use localthings.Registry.Adapter.{entity_key, flatten}

-- by_type/_base.py
pub record DeviceRegistry : Type 0 where
  pub name : String
  pub capabilities : Dict (List Capability)
  pub pattern_capabilities : List Capability

abbrev is_one_of : List String → Option String → Bool
is_one_of names none = false
is_one_of names (some s) = mem s names

-- `_is_meter`
unfoldable pub is_meter : Description → Bool
is_meter d =
    is_one_of ("total" ∷ "total_increasing" ∷ []) d.state_class
    || is_one_of ("energy" ∷ "water" ∷ "gas" ∷ []) d.device_class

is_primary : Option String → Bool
is_primary none = true
is_primary (some category) = category == ""

has_value : Option Value → Bool
has_value none = false
has_value (some null) = false
has_value (some _) = true

-- an entity that shows that hardware is there
unfoldable pub is_live : Dict Value → BoundEntity → Bool
unfolding is_meter is_primary has_value
is_live state b =
    is_primary b.desc.entity_category
    && (not (is_meter b.desc) && has_value (Dict.get state (entity_key b)))

-- `_has_live_primary_entity`
unfoldable pub has_live_primary_entity : List BoundEntity → Dict Value → Bool
unfolding is_live
has_live_primary_entity bound state = any (is_live state) bound

pub record SkippedSubdevice : Type 0 where
  pub subdevice : Subdevice
  pub hrefs : List String

pub record Partitioned : Type 0 where
  pub bound : List BoundEntity
  pub device_type_name : Option String
  pub materialized : List Subdevice
  pub skipped : List SkippedSubdevice
  pub gaps : List String
  pub tiers : List (String × String)

capabilities_of : Dict (List Capability) → Option DeviceRegistry → Dict (List Capability)
capabilities_of fallback none = fallback
capabilities_of fallback (some r) = r.capabilities

patterns_of : Option DeviceRegistry → List Capability
patterns_of none = []
patterns_of (some r) = r.pattern_capabilities

name_of : Option DeviceRegistry → Option String
name_of none = none
name_of (some r) = some r.name

-- `resolve` is `resolve_registry`: a view and the OCF device types to a registry.
module _ (title : String → String) (resolve : Dict Rep → List String → Option DeviceRegistry)
    (fallback : Dict (List Capability)) where
  -- what a candidate's own registry, or else the master's, finds in its view
  unfoldable pub candidate_found :
      Dict Rep → Dict Rep → List Subdevice → Option DeviceRegistry → Subdevice → Found
  unfolding capabilities_of patterns_of
  candidate_found resources typing subdevices reg su =
      let view = canonical_view su resources subdevices in
      let su_reg = or_else (resolve (canonical_view su typing subdevices) []) reg in
      discover title view (capabilities_of fallback su_reg) (patterns_of su_reg) su

  -- the gate: entities bound, and a live primary one among them
  unfoldable pub passes_gate : Dict Rep → Found → Bool
  passes_gate resources found = has_live_primary_entity found.bound (flatten found.bound resources)

  admit : Dict Rep → Subdevice → Found → Partitioned → Partitioned
  unfolding passes_gate
  admit resources su found p =
      if passes_gate resources found
      then record p {
        bound = p.bound ++ found.bound;
        materialized = p.materialized ++ su ∷ [];
        gaps = p.gaps ++ found.gaps;
        tiers = p.tiers ++ found.tiers;
      }
      else record p {
        skipped =
            p.skipped
            ++ (record {
              subdevice = su;
              hrefs = sort_texts (to_set (map (λ (b : BoundEntity). b.href) found.bound));
            })
              ∷ [];
      }

  unfoldable pub admit_all :
      Dict Rep
      → Dict Rep
      → List Subdevice
      → Option DeviceRegistry
      → List Subdevice
      → Partitioned
      → Partitioned
  unfolding admit
  admit_all resources typing subdevices reg [] p = p
  admit_all resources typing subdevices reg (su ∷ sus) p =
      admit_all resources typing subdevices reg sus
        (admit resources su (candidate_found resources typing subdevices reg su) p)

  -- The master is never gated.
  unfoldable pub master_found : Dict Rep → List Subdevice → Option DeviceRegistry → Partitioned
  unfolding capabilities_of patterns_of name_of
  master_found resources subdevices reg =
      let found =
        discover title (canonical_view main_subdevice resources subdevices)
          (capabilities_of fallback reg) (patterns_of reg) main_subdevice in
      record {
        bound = found.bound;
        device_type_name = name_of reg;
        materialized = [];
        skipped = [];
        gaps = found.gaps;
        tiers = found.tiers;
      }

  unfoldable pub discover_partitioned :
      Dict Rep → List Subdevice → List String → Option (Dict Rep) → Partitioned
  unfolding admit_all master_found
  discover_partitioned resources subdevices oic_device_types type_resources =
      let typing = default resources type_resources in
      let reg = resolve (canonical_view main_subdevice typing subdevices) oic_device_types in
      admit_all resources typing subdevices reg subdevices (master_found resources subdevices reg)
