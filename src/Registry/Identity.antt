-- ===== src/Registry/Identity.antt =====
-- registry/identity.py: which appliance this is, and the keys that are minted from it
pub mod Mac
use Prim.Native.Char.{Char, code}
use localthings.Base.{
  String, Bool, true, false, not, ◌&&◌, ◌||◌, Option, none, some, List, [], ◌∷◌, all, concat,
  startswith, leb, eqb, length, default, or_else, ◌==◌, if◌then◌else◌, Rep, Value, str, arr, items,
}
use localthings.Base.Dict
use localthings.Base.Dict.{Dict}

pub record DeviceIdentity : Type 0 where
  pub manufacturer : String
  pub model : String
  pub name : String
  pub serial : Option String
  pub device_id : Option String
  pub platform_id : Option String
  pub device_types : List String
  pub platform : Rep

pub chars : String → List Char
chars String.[] = []
chars (String.◌∷◌ c s) = c ∷ chars s

all_same : List Char → Bool
all_same [] = false
all_same (c ∷ cs) = all (λ d. eqb (code c) (code d)) cs

is_upper_hex : Char → Bool
is_upper_hex c =
    (leb b'0' (code c) && leb (code c) b'9') || (leb b'A' (code c) && leb (code c) b'F')

first_is_hex : List Char → Bool
unfolding is_upper_hex
first_is_hex [] = false
first_is_hex (c ∷ cs) = is_upper_hex c

is_zero_or_dash : Char → Bool
is_zero_or_dash c = eqb (code c) b'0' || eqb (code c) b'-'

-- `str.strip`, `str.lower` and `str.upper`, over all of Unicode, stand for the parameters.
pub record TextMethods : Type 0 where
  pub strip : String → String
  pub lower : String → String
  pub upper : String → String

module _ (t : TextMethods) where
  unfoldable pub is_placeholder_serial : String → Bool
  unfolding chars all_same first_is_hex
  is_placeholder_serial serial =
      let s = t.strip serial in
      let upper = chars (t.upper s) in
      if startswith (t.lower s) "nothing"
      then true
      else leb 8 (length upper) && (all_same upper && first_is_hex upper)

  -- `(value or "").strip()`
  abbrev pub stripped : Option String → String
  stripped value = t.strip (default "" value)

  unfoldable pub display_serial : Option String → Option String
  unfolding is_placeholder_serial
  display_serial raw_serial =
      let s = stripped raw_serial in if s == "" || is_placeholder_serial s then none else some s

  unfoldable pub resolve_serial : Option String → String → String
  unfolding display_serial
  resolve_serial raw_serial host = default host (display_serial raw_serial)

  unfoldable pub is_usable_device_id : Option String → Bool
  unfolding is_placeholder_serial is_zero_or_dash
  is_usable_device_id value =
      let s = stripped value in
      if s == ""
      then false
      else if all is_zero_or_dash (chars s)
      then false
      else not (is_placeholder_serial s)

  usable_key : Option String → Option String
  unfolding is_usable_device_id
  usable_key none = none
  usable_key (some candidate) =
      if is_usable_device_id (some candidate) then some (t.lower (t.strip candidate)) else none

  unfoldable pub ocf_device_key : Option DeviceIdentity → Option String
  unfolding usable_key
  ocf_device_key none = none
  ocf_device_key (some i) = or_else (usable_key i.device_id) (usable_key i.platform_id)

  unfoldable pub proven_ocf_device_id : Option DeviceIdentity → Option String
  unfolding usable_key
  proven_ocf_device_id none = none
  proven_ocf_device_id (some i) = usable_key i.device_id

  -- `ocf_device_key(identity) or resolve_serial(raw_serial, host)`
  unfoldable pub resolve_device_key : Option DeviceIdentity → Option String → String → String
  unfolding ocf_device_key resolve_serial
  resolve_device_key identity raw_serial host = elim (ocf_device_key identity) [
    | none ↦ resolve_serial raw_serial host
    | some key ↦ if key == "" then resolve_serial raw_serial host else key
  ]

  firmware_text : Option Value → Option String
  firmware_text (some (str mnfv)) = let s = t.strip mnfv in if s == "" then none else some s
  firmware_text _ = none

  unfoldable pub resolve_firmware : Option DeviceIdentity → Option String
  unfolding firmware_text
  resolve_firmware none = none
  resolve_firmware (some i) = firmware_text (Dict.get i.platform "mnfv")

text_items : List Value → List String
text_items [] = []
text_items (str s ∷ vs) = s ∷ text_items vs
text_items (_ ∷ vs) = text_items vs

types_of : Option Value → List String
unfolding text_items
types_of (some (str rt)) = rt ∷ []
types_of (some (arr vs)) = text_items (items vs)
types_of _ = []

unfoldable pub device_types_of : Rep → List String
unfolding types_of
device_types_of d = types_of (Dict.get d "rt")

before_pipe : String → String
before_pipe String.[] = ""
before_pipe (String.◌∷◌ c s) = if eqb (code c) b'|' then "" else String.◌∷◌ c (before_pipe s)

unfoldable pub resolve_model : String → Option DeviceIdentity → String
unfolding before_pipe
resolve_model model_num identity =
    if model_num == ""
    then elim identity [ none ↦ "" | some i ↦ i.model ]
    else before_pipe model_num

pub without_separators : String → String
without_separators String.[] = ""
without_separators (String.◌∷◌ c s) =
    let rest = without_separators s in
    if eqb (code c) b':' || (eqb (code c) b'-' || eqb (code c) b'.')
    then rest
    else String.◌∷◌ c rest

pub is_lower_hex : Char → Bool
is_lower_hex c =
    (leb b'0' (code c) && leb (code c) b'9') || (leb b'a' (code c) && leb (code c) b'f')

is_zero : Char → Bool
is_zero c = eqb (code c) b'0'

-- the digits in pairs, joined by colons
unfoldable pub in_pairs : List Char → String
in_pairs [] = ""
in_pairs (c ∷ []) = String.◌∷◌ c ""
in_pairs (c ∷ d ∷ []) = String.◌∷◌ c (String.◌∷◌ d "")
in_pairs (c ∷ d ∷ cs) = String.◌∷◌ c (String.◌∷◌ d (String.◌∷◌ ":" (in_pairs cs)))

module _ (t : TextMethods) where
  -- `_normalized_mac`
  unfoldable pub normalized_mac : Option Value → Option String
  unfolding without_separators chars is_lower_hex is_zero in_pairs
  normalized_mac (some (str raw)) =
      let digits = chars (without_separators (t.lower (t.strip raw))) in
      if not (eqb (length digits) 12) || not (all is_lower_hex digits)
      then none
      else if all is_zero digits
      then none
      else some (in_pairs digits)
  normalized_mac _ = none

  unfoldable pub resolve_mac : Dict Rep → Option String
  unfolding normalized_mac
  resolve_mac resources =
      or_else
        (normalized_mac
          (Dict.get (default [] (Dict.get resources "/wirelessinfo/vs/0")) "macaddressWiFi"))
        (normalized_mac (
          Dict.get (default [] (Dict.get resources "/sec/networkaudio/deviceinfo"))
            "x.com.samsung.networkaudio.wifimac"))
