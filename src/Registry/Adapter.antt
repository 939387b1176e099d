-- ===== src/Registry/Adapter.antt =====
-- registry/adapter.py: from bound entities to their values
use localthings.Base.{
  String, Bool, true, Option, none, some, List, [], ◌∷◌, map, concat, default, ◌==◌, if◌then◌else◌,
  Rep, Value, null,
}
use localthings.Base.Dict
use localthings.Base.Dict.{Dict}
use localthings.Registry.Capability.{Description, BoundEntity}
use localthings.Registry.Subdevices.Defs.{Subdevice, key_prefix, canonical_view}

-- `b.key_override or b.desc.key`
own_key : Option String → String → String
own_key none key = key
own_key (some k) key = if k == "" then key else k

-- `_key`
unfoldable pub entity_key : BoundEntity → String
unfolding own_key
entity_key b = concat (key_prefix b.subdevice) (concat (own_key b.key_override b.desc.key) b.inst)

present : Option (Rep → Dict Rep → Bool) → Rep → Dict Rep → Bool
present none rep view = true
present (some exists_fn) rep view = exists_fn rep view

value_from : Option (Rep → Value) → Description → Rep → Option Value
value_from (some rep_fn) d rep = some (rep_fn rep)
value_from none d rep =
    if d.field == "" then none else some (d.value_fn (default null (Dict.get rep d.field)))

store : String → Option Value → Dict Value → Dict Value
store key none out = out
store key (some v) out = Dict.put out key v

-- One entity: `exists_fn` sees the view of the entity's own subdevice. The views that the source
-- caches are pure, so they are computed where they are used.
unfoldable pub flatten_one : Dict Rep → List Subdevice → BoundEntity → Dict Value → Dict Value
unfolding present value_from store
flatten_one resources subdevices b out =
    let rep = default [] (Dict.get resources b.href) in
    if present b.desc.exists_fn rep (canonical_view b.subdevice resources subdevices)
    then store (entity_key b) (value_from b.desc.rep_fn b.desc rep) out
    else out

unfoldable pub flatten_all : Dict Rep → List Subdevice → List BoundEntity → Dict Value → Dict Value
unfolding flatten_one
flatten_all resources subdevices [] out = out
flatten_all resources subdevices (b ∷ bs) out =
    flatten_all resources subdevices bs (flatten_one resources subdevices b out)

unfoldable pub flatten : List BoundEntity → Dict Rep → Dict Value
unfolding flatten_all
flatten bound resources =
    flatten_all resources (map (λ (b : BoundEntity). b.subdevice) bound) bound []
