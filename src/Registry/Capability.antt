-- ===== src/Registry/Capability.antt =====
-- registry/capability.py, registry/entities.py and registry/discovery.py: the declarations that
-- bind a resource to its entities
use localthings.Base.{String, Bool, Option, List, Rep, Value}
use localthings.Base.Dict.{Dict}
use localthings.Registry.Subdevices.Defs.{Subdevice}

-- `SamsungEntityDescription`, what `flatten` and the liveness gate read of it
pub record Description : Type 0 where
  pub key : String
  pub field : String
  pub value_fn : Value → Value
  pub rep_fn : Option (Rep → Value)
  pub exists_fn : Option (Rep → Dict Rep → Bool)
  pub entity_category : Option String
  pub state_class : Option String
  pub device_class : Option String

pub record Capability : Type 0 where
  pub href : Option String
  pub entities : List Description
  pub poll_tier : String
  pub rt_filter : Option String
  pub href_prefix : Option String
  pub strip_prefix_in_key : Bool
  pub name_field : Option String
  pub match_fn : Option (Rep → Dict Rep → Bool)
  pub expand_fn : Option (Rep → List (String × Description))

pub record BoundEntity : Type 0 where
  pub href : String
  pub capability : Capability
  pub desc : Description
  pub inst : String
  pub key_override : Option String
  pub instance_name : Option String
  pub subdevice : Subdevice
