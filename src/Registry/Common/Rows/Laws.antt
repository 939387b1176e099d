-- ===== src/Registry/Common/Rows/Laws.antt =====
-- What merging the rows of a write leaves under each id.
use localthings.Base.{
  String, true, Option, none, some, List, [], ◌∷◌, if◌then◌else◌, fold, default, Value, Fields, Rep,
  str, obj, entries, of_entries, dict, ◌≡◌, refl, ap, ◌∙◌, inl, inr, Bool-cases, Option-cases,
  arith, eq_iff,
}
use localthings.Base.Dict
use localthings.Base.Dict.{Dict}
use localthings.Base.Data.Equal.{eq}
use localthings.Base.Data.Equal.Scalars.{is_text, eq-str}
use localthings.Registry.Common.Rows.{
  id_of, merged_row, merge_into, merge_item, merge_items_field, row_at,
}

entries-of_entries : (m : Rep) → entries (of_entries m) ≡ m
entries-of_entries [] = refl
entries-of_entries ((k, v) ∷ m) = ap (λ r. (k, v) ∷ r) (entries-of_entries m)

-- an item's change of the row under an id
abbrev pub changed_row : String → String → Option Rep → Value → Option Rep
changed_row key id row (obj fs) =
    if is_text id (id_of key (entries fs))
    then some (elim row [ none ↦ entries fs | some r ↦ Dict.merge r (entries fs) ])
    else row
changed_row key id row _ = row

text-eq : (id : String) (v w : Value) → eq v w ≡ true → is_text id v ≡ is_text id w
unfolding eq
text-eq id (str s) (str t) h = ground (arith, eq_iff s t, h)
text-eq id (str s) w h = ground (arith, h)
text-eq id v (str t) h = ground (arith, eq-str v t, h)
text-eq id v w h = refl

text-both : (id : String) (v w : Value) → is_text id v ≡ true → is_text id w ≡ true → eq v w ≡ true
unfolding eq
text-both id (str s) (str t) h g = ground (arith, eq_iff s id, eq_iff t id, eq_iff s t, h, g)
text-both id v w h g = ground (arith, h, g)

id-merge :
    (key : String) (a b : Rep) → id_of key (Dict.merge a b) ≡ default (id_of key a) (Dict.get b key)
id-merge key a b = ground (arith, Dict.get-merge a b key)

-- the row's text id, once an item with an equal id is merged into it
text-merged :
    (key id : String) (a item : Rep)
    → eq (id_of key a) (id_of key item) ≡ true
    → is_text id (id_of key (Dict.merge a item)) ≡ is_text id (id_of key item)
text-merged key id a item h =
    let same = text-eq id (id_of key a) (id_of key item) h in
    elim (Option-cases (Dict.get item key)) [
      | inl missing ↦ ground (arith, missing, same, id-merge key a item)
      | inr (v, found) ↦ ground (arith, found, id-merge key a item)
    ]

merge-row :
    (key id : String) (item : Rep) (fs : Fields) (rows : List Value)
    → row_at key id (merge_into key item rows) ≡ changed_row key id (row_at key id rows) (dict item)
    → row_at key id (merge_into key item (obj fs ∷ rows))
      ≡ changed_row key id (row_at key id (obj fs ∷ rows)) (dict item)
unfolding row_at merge_into merged_row
merge-row key id item fs rows rest =
    let a = entries fs in
    let whole = entries-of_entries (Dict.merge a item) in
    let back = entries-of_entries item in
    elim (Bool-cases (eq (id_of key a) (id_of key item))) [
      | inl same ↦ ground (
        arith,
        same,
        whole,
        back,
        text-merged key id a item same,
        text-eq id (id_of key a) (id_of key item) same,
      )
      | inr other ↦ ground (arith, other, back, rest, text-both id (id_of key a) (id_of key item))
    ]

row_at-merge_into :
    (key id : String) (item : Rep) (rows : List Value)
    → row_at key id (merge_into key item rows) ≡ changed_row key id (row_at key id rows) (dict item)
unfolding row_at merge_into
row_at-merge_into key id item [] = ground (arith, entries-of_entries item)
row_at-merge_into key id item (obj fs ∷ rows) =
    merge-row key id item fs rows (row_at-merge_into key id item rows)
row_at-merge_into key id item (row ∷ rows) = row_at-merge_into key id item rows

row_at-merge_item :
    (key id : String) (rows : List Value) (item : Value)
    → row_at key id (merge_item key rows item) ≡ changed_row key id (row_at key id rows) item
unfolding merge_item
row_at-merge_item key id rows (obj fs) =
    ground (arith, row_at-merge_into key id (entries fs) rows, entries-of_entries (entries fs))
row_at-merge_item key id rows v = refl

-- Under every text id, the merged rows hold the cached row with the fields of each written item of
-- that id put over it in turn, or the items alone where no row has the id.
pub row_at-merge_items_field :
    (cached new_items : List Value) (key id : String)
    → row_at key id (merge_items_field cached new_items key)
      ≡ fold (changed_row key id) (row_at key id cached) new_items
unfolding merge_items_field
row_at-merge_items_field cached [] key id = refl
row_at-merge_items_field cached (item ∷ new_items) key id =
    row_at-merge_items_field (merge_item key cached item) new_items key id
    ∙ ap (λ row. fold (changed_row key id) row new_items) (row_at-merge_item key id cached item)
