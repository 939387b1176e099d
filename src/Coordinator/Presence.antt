-- ===== src/Coordinator/Presence.antt =====
-- coordinator.py: whether a read shows what a write sent
use localthings.Base.{
  String, Bool, true, false, not, ◌&&◌, Option, none, some, List, [], ◌∷◌, ◌==◌, if◌then◌else◌, any,
  all, fold, mem, Value, Items, Fields, Rep, int, str, arr, obj, nil, cons, end, field, items,
  entries,
}
use localthings.Base.Dict
use localthings.Base.Dict.{Dict}
use localthings.Base.Data.Equal.{eq}
use localthings.Observe.Apply.{options_field}
use localthings.Registry.Cook.Fields.{items_field, value_at}
use localthings.Registry.Common.Rows.{row_at}

abbrev pub id_field : String
id_field = "x.com.samsung.da.id"

-- `v in vs`
abbrev pub contains : List Value → Value → Bool
contains vs v = any (λ w. eq w v) vs

-- a row's id, where the row is a dict and its id a text that is not empty
row_id : Value → Option String
row_id (obj fs) = elim (value_at (entries fs) id_field) [
  | str s ↦ if s == "" then none else some s
  | _ ↦ none
]
row_id _ = none

-- the ids of the rows, where every row has one
pub row_ids : List Value → Option (List String)
unfolding row_id
row_ids [] = some []
row_ids (v ∷ vs) = elim (row_id v) [
  | none ↦ none
  | some s ↦ elim (row_ids vs) [ none ↦ none | some ss ↦ some (s ∷ ss) ]
]

unique : List String → Bool
unique [] = true
unique (s ∷ ss) = not (mem s ss) && unique ss

-- every row has an id, and no two rows have the same
unfoldable pub has_ids : List Value → Bool
unfolding row_ids unique
has_ids vs = elim (row_ids vs) [ none ↦ false | some ids ↦ unique ids ]

is_nil : Items → Bool
is_nil nil = true
is_nil _ = false

is_number_or_text : Value → Bool
is_number_or_text (str s) = true
is_number_or_text (int n) = true
is_number_or_text _ = false

-- `v or {}` of a dict
abbrev pub fields_of : Value → Rep
fields_of (obj fs) = entries fs
fields_of _ = []

-- what an element of a batch wrote: its href and its rep, where that is a dict that is not empty
element_rep : Value → Option (String × Fields)
element_rep (obj fs) = elim (value_at (entries fs) "href") [
  | str href ↦ elim (value_at (entries fs) "rep") [
    | obj (field k v gs) ↦ some (href, field k v gs)
    | _ ↦ none
  ]
  | _ ↦ none
]
element_rep _ = none

add_element : Dict Fields → Value → Dict Fields
unfolding element_rep
add_element reps element = elim (element_rep element) [
  | none ↦ reps
  | some (href, fs) ↦ Dict.put reps href fs
]

-- The hrefs of the elements are texts.
unfoldable pub batch_element_reps : List Value → Dict Fields
unfolding add_element
batch_element_reps payload = fold add_element [] payload

-- `Decimal(str(a)) == Decimal(str(b))` of two finite numbers stands for the parameter.
module _ (same_decimal : Value → Value → Bool) where
  unfoldable mutual
    unfolding has_ids is_number_or_text is_nil

    -- `_field_present_in`, once the key is in the readback
    pub held_as : String → Value → Value → Bool
    held_as key (arr ws) (arr cs) =
        let rows = rows_held ws (items cs) in
        if key == options_field
        then all (contains (items cs)) (items ws)
        else if key == items_field
        then if is_nil ws
          then eq (arr cs) (arr ws)
          else has_ids (items ws) && (has_ids (items cs) && rows)
        else if key == "x.com.samsung.da.desired"
        then false
        else eq (arr cs) (arr ws)
    held_as key v current =
        if key == "x.com.samsung.da.desired"
        then is_number_or_text v && (is_number_or_text current && same_decimal v current)
        else eq current v

    -- the loop of `_items_present_in` over the written rows
    pub rows_held : Items → List Value → Bool
    rows_held nil current = true
    rows_held (cons (obj fs) ws) current =
        let rest = rows_held ws current in
        elim (value_at (entries fs) id_field) [
          | str s ↦ elim (row_at id_field s current) [
            | none ↦ false
            | some row ↦ fields_held fs row && rest
          ]
          | _ ↦ false
        ]
    rows_held (cons w ws) current = false

    -- every field of a dict is present in the readback
    pub fields_held : Fields → Rep → Bool
    fields_held end readback = true
    fields_held (field k v fs) readback =
        let rest = fields_held fs readback in
        elim (Dict.get readback k) [ none ↦ false | some current ↦ held_as k v current && rest ]

  -- the rep of each href, in the parsed readback of the collection
  unfoldable pub reps_held : Dict Fields → Rep → Bool
  reps_held [] readback = true
  reps_held ((href, fs) ∷ reps) readback =
      let rest = reps_held reps readback in
      fields_held fs (fields_of (value_at readback href)) && rest

  -- `_payload_present_in`
  unfoldable pub payload_present_in : Value → Rep → Bool
  unfolding batch_element_reps
  payload_present_in (obj fs) readback = fields_held fs readback
  payload_present_in (arr es) readback = reps_held (batch_element_reps (items es)) readback
  payload_present_in _ readback = false
