-- ===== src/Credentials.antt =====
-- credentials.py: which credential an entry holds, and which appliance it may reach
pub mod Carriers
use Prim.Native.Char.{Char, code}
use localthings.Base.{
  ℕ, suc, String, Bool, true, false, not, ◌&&◌, ◌||◌, Option, none, some, List, [], ◌∷◌, any, leb,
  eqb, ◌==◌, if◌then◌else◌, Rep, Value, str, null,
}
use localthings.Base.Dict

-- The messages of `InvalidCredentialConfig`, and its subclass `PskIdentityZeroByte`.
pub data Invalid : Type 0 where
  unsupported_carrier not_psk unsupported_profile not_uuid zero_byte : Invalid
  not_hex_key not_certificate mixed incomplete_certificate incomplete_psk : Invalid

pub data Checked {ℓ} (A : Type ℓ) : Type ℓ where
  ok : A → Checked A
  invalid : Invalid → Checked A

infixl 5 ◌>>=◌ ◌>>◌
abbrev pub ◌>>=◌ {ℓ κ} : {A : Type ℓ} {B : Type κ} → Checked A → (A → Checked B) → Checked B
ok a >>= f = f a
invalid e >>= f = invalid e

abbrev pub ◌>>◌ {ℓ κ} : {A : Type ℓ} {B : Type κ} → Checked A → Checked B → Checked B
m >> k = m >>= λ _. k

-- `raise` under a test
abbrev pub reject : Bool → Invalid → Checked (Unit {0})
reject true e = invalid e
reject false e = ok tt

pub data Carrier : Type 0 where
  certificate psk : Carrier

pub data Profile : Type 0 where
  owner peer : Profile

abbrev pub conf_auth_carrier : String
conf_auth_carrier = "auth_carrier"

abbrev pub conf_psk_profile : String
conf_psk_profile = "psk_profile"

abbrev pub conf_psk_identity : String
conf_psk_identity = "psk_identity"

abbrev pub conf_psk_key : String
conf_psk_key = "psk_key"

abbrev pub conf_leaf_cert_pem : String
conf_leaf_cert_pem = "leaf_cert_pem"

abbrev pub conf_leaf_key_pem : String
conf_leaf_key_pem = "leaf_key_pem"

abbrev pub conf_ca_cert_pem : String
conf_ca_cert_pem = "ca_cert_pem"

abbrev pub conf_ca_key_pem : String
conf_ca_key_pem = "ca_key_pem"

-- Python's library and the transport's: `str(value).strip()`, `str.strip`, `str.lower`, `UUID` to
-- the 16 bytes and back to its text, and `PskAuth.validate_identity`, which may raise.
pub record Outside : Type 0 where
  pub stripped_text : Value → String
  pub strip : String → String
  pub lower : String → String
  pub parse_uuid : String → Option (List ℕ)
  pub uuid_text : List ℕ → String
  pub can_carry : List ℕ → Bool

carrier_named : String → Checked Carrier
carrier_named s =
    if s == "certificate"
    then ok certificate
    else if s == "psk"
    then ok psk
    else invalid unsupported_carrier

carrier_of : Option Value → Checked Carrier
unfolding carrier_named
carrier_of none = ok certificate
carrier_of (some (str s)) = carrier_named s
carrier_of (some _) = invalid unsupported_carrier

unfoldable pub authentication_carrier : Rep → Checked Carrier
unfolding carrier_of
authentication_carrier entry = carrier_of (Dict.get entry conf_auth_carrier)

profile_of : Option Value → Checked Profile
profile_of (some (str s)) =
    if s == "owner" then ok owner else if s == "peer" then ok peer else invalid unsupported_profile
profile_of _ = invalid unsupported_profile

abbrev pub is_psk : Carrier → Bool
is_psk psk = true
is_psk certificate = false

unfoldable pub psk_profile : Rep → Checked Profile
unfolding profile_of authentication_carrier
psk_profile entry = do
  carrier ← authentication_carrier entry
  reject (not (is_psk carrier)) not_psk
  profile_of (Dict.get entry conf_psk_profile)

unfoldable pub identity_may_be_suggested_from_doxm : String → Checked Bool
identity_may_be_suggested_from_doxm profile =
    if profile == "owner"
    then ok true
    else if profile == "peer"
    then ok false
    else invalid unsupported_profile

abbrev all_zero : List ℕ → Bool
all_zero [] = true
all_zero (b ∷ bs) = if eqb b 0 then all_zero bs else false

is_hex : Char → Bool
is_hex c =
    (leb b'0' (code c) && leb (code c) b'9')
    || ((leb b'a' (code c) && leb (code c) b'f') || (leb b'A' (code c) && leb (code c) b'F'))

-- the length of a text of hexadecimal digits
unfoldable pub hex_length : String → Option ℕ
unfolding is_hex
hex_length String.[] = some 0
hex_length (String.◌∷◌ c s) =
    let rest = hex_length s in
    if is_hex c then elim rest [ none ↦ none | some n ↦ some (suc n) ] else none

-- `_PSK_KEY_RE.fullmatch`
is_key_length : Option ℕ → Bool
is_key_length none = false
is_key_length (some n) = eqb n 32 || eqb n 64

abbrev text_at : Option Value → String
text_at (some (str s)) = s
text_at _ = ""

module _ (o : Outside) where
  identity_of : Option (List ℕ) → Checked String
  identity_of none = invalid not_uuid
  identity_of (some bs) = do
    reject (all_zero bs) not_uuid
    reject (any (λ b. eqb b 0) bs && not (o.can_carry bs)) zero_byte
    ok (o.uuid_text bs)

  unfoldable pub normalize_psk_identity : Value → Checked String
  unfolding identity_of
  normalize_psk_identity value = identity_of (o.parse_uuid (o.stripped_text value))

  unfoldable pub normalize_psk_key : Value → Checked String
  unfolding is_key_length
  normalize_psk_key value =
      let normalized = o.stripped_text value in
      do reject (not (is_key_length (hex_length normalized))) not_hex_key; ok (o.lower normalized)

  -- `not isinstance(value, str) or not value.strip()`
  is_blank : Option Value → Bool
  is_blank (some (str s)) = o.strip s == ""
  is_blank _ = true

  unfoldable pub certificate_credentials : Rep → Checked (String × String)
  unfolding authentication_carrier is_blank
  certificate_credentials entry = do
    carrier ← authentication_carrier entry
    reject (is_psk carrier) not_certificate
    reject (Dict.has entry conf_psk_identity || Dict.has entry conf_psk_key) mixed
    reject (is_blank (Dict.get entry conf_leaf_cert_pem)) incomplete_certificate
    reject (is_blank (Dict.get entry conf_leaf_key_pem)) incomplete_certificate
    ok (text_at (Dict.get entry conf_leaf_cert_pem), text_at (Dict.get entry conf_leaf_key_pem))

  both_of : Option Value → Option Value → Checked (String × String)
  unfolding normalize_psk_identity normalize_psk_key
  both_of (some identity) (some key) = do
    identity' ← normalize_psk_identity identity
    key' ← normalize_psk_key key
    ok (identity', key')
  both_of _ _ = invalid incomplete_psk

  -- `data.get(key)`, where None counts as missing
  given : Option Value → Option Value
  given (some null) = none
  given v = v

  unfoldable pub psk_credentials : Rep → Checked (String × String)
  unfolding psk_profile both_of given
  psk_credentials entry = do
    profile ← psk_profile entry
    reject
        (Dict.has entry conf_ca_cert_pem
          || (Dict.has entry conf_ca_key_pem
              || (Dict.has entry conf_leaf_cert_pem || Dict.has entry conf_leaf_key_pem)))
        mixed
    both_of (given (Dict.get entry conf_psk_identity)) (given (Dict.get entry conf_psk_key))

unfoldable pub requires_authenticated_device_id : Rep → Checked Bool
unfolding authentication_carrier
requires_authenticated_device_id entry = do
  carrier ← authentication_carrier entry
  ok (is_psk carrier)

pub data DeviceBinding : Type 0 where
  matched mismatched unproven : DeviceBinding

-- None and the empty text prove nothing
known : Option String → Option String
known none = none
known (some s) = if s == "" then none else some s

compare_ids : Option String → Option String → DeviceBinding
compare_ids (some a) (some b) = if a == b then matched else mismatched
compare_ids _ _ = unproven

unfoldable pub check_device_binding : Option String → Option String → DeviceBinding
unfolding known compare_ids
check_device_binding expected reported = compare_ids (known expected) (known reported)
