-- ===== src/Registry/Encode.antt =====
-- registry/encode.py: decoded values as JSON, and back
pub mod Roundtrip
use localthings.Base.{
  ℕ, ◌-◌, zero, String, Bool, true, false, not, ◌&&◌, ◌||◌, Option, none, some, List, [], ◌∷◌, ◌==◌,
  if◌then◌else◌, any, eqb, leb, length, concat, ℤ, pos,
}

pub data Key : Type 0 where
  text_key : String → Key
  -- a key that is no text, by its repr
  other_key : String → Key

-- the three kinds of sequence; a frozenset is a set
pub data SequenceKind : Type 0 where
  list_kind : SequenceKind
  tuple_kind : SequenceKind
  set_kind : SequenceKind

-- A decoded value. `F` is a float; a container carries its `id`, and a set its elements in the order
-- in which it is iterated. Of a container that holds itself the value is unrolled at least once.
mutual
  pub data Object (F : Type 0) : Type 0 where
    nothing : Object F
    truth : Bool → Object F
    number : ℤ → Object F
    real : F → Object F
    text : String → Object F
    binary : List ℕ → Object F
    mapping : ℕ → Pairs F → Object F
    sequence : SequenceKind → ℕ → Objects F → Object F
    moment : String → Object F
    decimal : String → Object F
    tagged : ℕ → Object F → Object F
    other : String → Object F

  pub data Pairs (F : Type 0) : Type 0 where
    no_pairs : Pairs F
    pair : Key → Object F → Pairs F → Pairs F

  pub data Objects (F : Type 0) : Type 0 where
    no_objects : Objects F
    also : Object F → Objects F → Objects F

mutual
  pub data Json (F : Type 0) : Type 0 where
    json_null : Json F
    json_bool : Bool → Json F
    json_int : ℤ → Json F
    json_float : F → Json F
    json_text : String → Json F
    json_list : Elements F → Json F
    json_object : Members F → Json F

  pub data Elements (F : Type 0) : Type 0 where
    no_elements : Elements F
    element : Json F → Elements F → Elements F

  pub data Members (F : Type 0) : Type 0 where
    no_members : Members F
    member : String → Json F → Members F → Members F

-- `base64`, `hashlib.sha256` and the texts and the tests of a float.
pub record Codec (F : Type 0) : Type 0 where
  pub b64encode : List ℕ → String
  pub b64decode : String → Option (List ℕ)
  pub sha256 : List ℕ → String
  pub is_finite : F → Bool
  pub float_repr : F → String

abbrev pub type_key : String
type_key = "__localthings_type__"

-- `raw[:n]` and `s[:n]`
pub taken : ℕ → List ℕ → List ℕ
taken n [] = []
taken n (b ∷ bs) = if leb n 0 then [] else b ∷ taken (n - 1) bs

first_chars : ℕ → String → String
first_chars n String.[] = ""
first_chars n (String.◌∷◌ c s) =
    let rest = first_chars (n - 1) s in if leb n 0 then "" else String.◌∷◌ c rest

mem_id : ℕ → List ℕ → Bool
mem_id i ids = any (eqb i) ids

safe_key : Key → String
safe_key (text_key k) = k
safe_key (other_key r) = concat type_key (concat ":" r)

module _ {F : Type 0} where
  marker : String → Members F → Json F
  marker kind rest = json_object (member type_key (json_text kind) rest)

  -- `{TYPE_KEY: kind, key: s}`
  described : String → String → String → Json F
  unfolding marker
  described kind key s = marker kind (member key (json_text s) no_members)

  module _ (c : Codec F) where
    bytes_marker : ℕ → List ℕ → Json F
    unfolding marker taken
    bytes_marker max_inline raw =
        let head = taken max_inline raw in
        let cut : Members F =
          if eqb (length head) (length raw)
          then no_members
          else member "truncated" (json_bool true) no_members in
        marker "bytes" (
          member "len" (json_int (pos (length raw))) (
            member "sha256" (json_text (c.sha256 raw))
              (member "base64" (json_text (c.b64encode head)) cut)))

    -- The keys of a dict stay distinct once they are texts.
    unfoldable mutual
      unfolding marker described bytes_marker mem_id safe_key first_chars

      pub walk : ℕ → List ℕ → Object F → Json F
      walk max seen nothing = json_null
      walk max seen (truth b) = json_bool b
      walk max seen (number n) = json_int n
      walk max seen (real x) =
          if c.is_finite x then json_float x else described "float" "value" (c.float_repr x)
      walk max seen (text s) = json_text s
      walk max seen (binary raw) = bytes_marker max raw
      walk max seen (mapping i ps) =
          let inside = walk_pairs max (i ∷ seen) ps in
          if mem_id i seen then marker "cycle" no_members else json_object inside
      walk max seen (sequence kind i vs) =
          let inside = walk_objects max (i ∷ seen) vs in
          if mem_id i seen then marker "cycle" no_members else json_list inside
      walk max seen (moment s) = described "datetime" "value" s
      walk max seen (decimal s) = described "decimal" "value" s
      walk max seen (tagged n v) =
          marker "tag"
            (member "tag" (json_int (pos n)) (member "value" (walk max seen v) no_members))
      walk max seen (other r) = described "unrepresentable" "repr" (first_chars 200 r)

      pub walk_pairs : ℕ → List ℕ → Pairs F → Members F
      walk_pairs max seen no_pairs = no_members
      walk_pairs max seen (pair k v ps) =
          member (safe_key k) (walk max seen v) (walk_pairs max seen ps)

      pub walk_objects : ℕ → List ℕ → Objects F → Elements F
      walk_objects max seen no_objects = no_elements
      walk_objects max seen (also v vs) = element (walk max seen v) (walk_objects max seen vs)

    unfoldable pub json_safe : ℕ → Object F → Json F
    unfolding walk
    json_safe max v = walk max [] v

  -- `value.get(key)`
  pub member_at : String → Members F → Option (Json F)
  member_at key no_members = none
  member_at key (member k v ms) = if k == key then some v else member_at key ms

  is_bytes_marker : Members F → Bool
  unfolding member_at
  is_bytes_marker ms = elim (member_at type_key ms) [
    | some (json_text kind) ↦ kind == "bytes"
    | _ ↦ false
  ]

  true_json : Json F → Bool
  true_json (json_bool b) = b
  true_json json_null = false
  true_json (json_int (pos zero)) = false
  true_json (json_text String.[]) = false
  true_json (json_list no_elements) = false
  true_json (json_object no_members) = false
  true_json _ = true

  -- a `truncated` that is truthy; a float there is not 0.0
  is_truncated : Members F → Bool
  unfolding member_at true_json
  is_truncated ms = elim (member_at "truncated" ms) [ none ↦ false | some v ↦ true_json v ]

  -- A value that is read from JSON: its containers are new ones, with the id 0.
  unfoldable mutual
    pub loaded : Json F → Object F
    loaded json_null = nothing
    loaded (json_bool b) = truth b
    loaded (json_int n) = number n
    loaded (json_float x) = real x
    loaded (json_text s) = text s
    loaded (json_list es) = sequence list_kind 0 (loaded_elements es)
    loaded (json_object ms) = mapping 0 (loaded_members ms)

    pub loaded_elements : Elements F → Objects F
    loaded_elements no_elements = no_objects
    loaded_elements (element v es) = also (loaded v) (loaded_elements es)

    pub loaded_members : Members F → Pairs F
    loaded_members no_members = no_pairs
    loaded_members (member k v ms) = pair (text_key k) (loaded v) (loaded_members ms)

  module _ (c : Codec F) where
    -- the bytes of a marker, where its text decodes
    marked_bytes : Members F → Option (List ℕ)
    unfolding is_bytes_marker is_truncated member_at
    marked_bytes ms =
        if is_bytes_marker ms && not (is_truncated ms)
        then elim (member_at "base64" ms) [ some (json_text s) ↦ c.b64decode s | _ ↦ none ]
        else none

    unfoldable mutual
      unfolding marked_bytes is_bytes_marker is_truncated loaded

      pub from_json_safe : Json F → Object F
      from_json_safe (json_object ms) =
          let inside = from_members ms in
          if is_bytes_marker ms && not (is_truncated ms)
          then elim (marked_bytes ms) [ some raw ↦ binary raw | none ↦ loaded (json_object ms) ]
          else mapping 0 inside
      from_json_safe (json_list es) = sequence list_kind 0 (from_elements es)
      from_json_safe v = loaded v

      pub from_elements : Elements F → Objects F
      from_elements no_elements = no_objects
      from_elements (element v es) = also (from_json_safe v) (from_elements es)

      pub from_members : Members F → Pairs F
      from_members no_members = no_pairs
      from_members (member k v ms) = pair (text_key k) (from_json_safe v) (from_members ms)
