-- ===== src/CloudCourse/Blob.antt =====
-- cloudcourse.py: the tokens of a program, and registry/capabilities/common.py's readers of tokens
use localthings.Base.{
  ◌%◌, String, Bool, true, false, not, ◌||◌, Option, none, some, List, [], ◌∷◌, map, keep, mem,
  concat, strip_prefix, eqb, ltb, or_else, ◌==◌, if◌then◌else◌, Rep, Value, str, arr, items,
}
use Prim.Native.String.{count}
use localthings.Base.Dict

-- `str.upper`, `str.strip`, and whether `int(s, 16)` does not raise
pub record HexText : Type 0 where
  pub upper : String → String
  pub strip : String → String
  pub is_base16 : String → Bool

-- the options of a rep, where they are a list
abbrev pub as_options : Option Value → List Value
as_options (some (arr vs)) = items vs
as_options _ = []

behind : String → Value → Option String
behind prefix (str s) = strip_prefix (concat prefix "_") s
behind prefix _ = none

-- `option_value`
unfoldable pub option_value : List Value → String → Option String
unfolding behind
option_value [] prefix = none
option_value (o ∷ os) prefix = or_else (behind prefix o) (option_value os prefix)

-- `hex_pairs`
unfoldable pub hex_pairs : String → List String
hex_pairs (String.◌∷◌ c (String.◌∷◌ d s)) = String.◌∷◌ c (String.◌∷◌ d "") ∷ hex_pairs s
hex_pairs _ = []

-- drop the later copies: `list(dict.fromkeys(ss))`
unfoldable pub first_seen : List String → List String → List String
first_seen seen [] = []
first_seen seen (s ∷ ss) =
    let again = first_seen seen ss in
    let fresh = s ∷ first_seen (s ∷ seen) ss in if mem s seen then again else fresh

-- `_slot_and_loaded` on the bytes: the first two name the sentinel, the third the slot
slot_in : List String → Option String
slot_in (a ∷ b ∷ slot ∷ rest) = if concat a b == "FFFF" then none else some slot
slot_in _ = none

module _ (h : HexText) where
  -- `_hex_bytes`
  unfoldable pub hex_bytes : Option String → List String
  unfolding hex_pairs
  hex_bytes none = []
  hex_bytes (some blob) =
      if not (eqb (count blob % 2) 0) || (ltb (count blob) 8 || not (h.is_base16 blob))
      then []
      else hex_pairs (h.upper blob)

  -- `slot_of`; a blob is loaded if it has a slot
  unfoldable pub slot_of : Option String → Option String
  unfolding slot_in hex_bytes
  slot_of blob = slot_in (hex_bytes blob)

  abbrev pub is_loaded : Option String → Bool
  is_loaded blob = elim (slot_of blob) [ none ↦ false | some s ↦ true ]

  slots_in : Option String → List String
  unfolding hex_pairs first_seen
  slots_in none = []
  slots_in (some raw) =
      if eqb (count raw % 2) 0 then first_seen [] (hex_pairs (h.upper raw)) else []

  unfoldable pub advertised_slots : Rep → List String
  unfolding slots_in
  advertised_slots rep =
      slots_in
        (option_value (as_options (Dict.get rep "x.com.samsung.da.options")) "CloudExtraCourse")

  unfoldable pub cloud_slots : Rep → List String → List String
  unfolding advertised_slots
  cloud_slots rep courses = keep (λ s. not (mem s (map h.upper courses))) (advertised_slots rep)

  abbrev pub supports_cloud_courses : Rep → List String → Bool
  supports_cloud_courses rep courses = elim (cloud_slots rep courses) [ [] ↦ false | _ ∷ _ ↦ true ]

  unfoldable pub loaded_slot : Rep → Option String
  loaded_slot rep =
      let options = as_options (Dict.get rep "x.com.samsung.da.options") in
      or_else (slot_of (option_value options "OneTimeCloudCourse"))
        (slot_of (option_value options "CloudCourse"))
