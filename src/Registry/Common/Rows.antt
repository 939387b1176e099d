-- ===== src/Registry/Common/Rows.antt =====
-- registry/capabilities/common.py: the rows of an items array, which a write sends in part
pub mod Laws
use localthings.Base.{
  String, Bool, true, false, Option, none, some, List, [], ◌∷◌, ◌++◌, ◌==◌, if◌then◌else◌, fold,
  default, Value, Fields, Rep, str, null, obj, entries, of_entries, dict,
}
use localthings.Base.Dict
use localthings.Base.Dict.{Dict}
use localthings.Base.Data.Equal.{eq}
use localthings.Base.Data.Equal.Scalars.{is_text}

-- `row.get(key)`
abbrev pub id_of : String → Rep → Value
id_of key row = default null (Dict.get row key)

-- `{**existing, **new_item}`
merged_row : Rep → Rep → Value
merged_row existing item = dict (Dict.merge existing item)

-- the inner loop: the first row with the id is merged, or the item is appended
merge_into : String → Rep → List Value → List Value
unfolding merged_row
merge_into key item [] = dict item ∷ []
merge_into key item (obj fs ∷ rows) =
    let rest = merge_into key item rows in
    if eq (id_of key (entries fs)) (id_of key item)
    then merged_row (entries fs) item ∷ rows
    else obj fs ∷ rest
merge_into key item (row ∷ rows) = row ∷ merge_into key item rows

-- one round of the outer loop; an item that is no dict is skipped
merge_item : String → List Value → Value → List Value
unfolding merge_into
merge_item key merged (obj fs) = merge_into key (entries fs) merged
merge_item key merged _ = merged

unfoldable pub merge_items_field : List Value → List Value → String → List Value
unfolding merge_item
merge_items_field cached new_items key = fold (merge_item key) cached new_items

-- The first row whose id is the text.
unfoldable pub row_at : String → String → List Value → Option Rep
row_at key id [] = none
row_at key id (obj fs ∷ rows) =
    if is_text id (id_of key (entries fs)) then some (entries fs) else row_at key id rows
row_at key id (row ∷ rows) = row_at key id rows
