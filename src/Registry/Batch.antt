-- ===== src/Registry/Batch.antt =====
-- registry/batch.py: the batch that `/device/0` answers
use localthings.Base.{
  String, Bool, false, Option, none, some, List, [], ◌∷◌, any, occurs, ◌==◌, if◌then◌else◌, Rep,
  Value, str, arr, obj, items, entries,
}
use localthings.Base.Data.Equal.{eq}
use localthings.Base.Dict
use localthings.Base.Dict.{Dict}

unfoldable pub is_stub_rep : Rep → Bool
is_stub_rep ((k, v) ∷ []) = k == "href"
is_stub_rep _ = false

-- `"oic.wk.col" in (rep.get("rt") or ())`, which of a text is the test for a part of it
names_collection : Option Value → Bool
names_collection (some (arr ts)) = any (eq (str "oic.wk.col")) (items ts)
names_collection (some (str t)) = occurs "oic.wk.col" t
names_collection (some (obj fs)) = Dict.has (entries fs) "oic.wk.col"
names_collection _ = false

-- one entry: its href and rep, or none where it is no resource
unfoldable pub resource_of : Value → Option (String × Rep)
unfolding names_collection
resource_of (obj fs) = elim (Dict.get (entries fs) "href") [
  | some (str href) ↦ if href == "" then none else elim (Dict.get (entries fs) "rep") [
    | some (obj rep) ↦
        if names_collection (Dict.get (entries rep) "rt") then none else some (href, entries rep)
    | _ ↦ none
  ]
  | _ ↦ none
]
resource_of _ = none

collect : Dict Rep → List Value → Dict Rep
collect out [] = out
collect out (v ∷ vs) = elim (resource_of v) [
  | none ↦ collect out vs
  | some (href, rep) ↦ collect (Dict.put out href rep) vs
]

unfoldable pub parse_device0_batch : List Value → Dict Rep
unfolding collect resource_of
parse_device0_batch device0 = collect [] device0
