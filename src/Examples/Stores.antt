-- ===== src/Examples/Stores.antt =====
-- learned.py on an air conditioner, cloudcourse.py on a washer, and credentials.py on entries
use localthings.Base.{
  Option, refl, default, ◌↔◌, ◌≢◌, ◌⊎◌, String, Value, false, none, some, true, ◌≡◌, [], ◌∷◌, mem,
  Rep, str, list,
}
use localthings.Base.Dict
use localthings.CloudCourse.Blob.{HexText}
use localthings.CloudCourse.Store.{CloudCourses, restore}
use localthings.CloudCourse.Store as CloudCourse
use localthings.CloudCourse.Store.Settles.{observe_again-settles}
use localthings.Credentials.{
  Outside, ok, conf_leaf_cert_pem, conf_leaf_key_pem, conf_auth_carrier, conf_psk_profile,
  conf_psk_identity, conf_psk_key, certificate_credentials, psk_credentials, psk_profile,
  authentication_carrier, hex_length, normalize_psk_key, requires_authenticated_device_id,
  check_device_binding, matched, unproven,
}
use localthings.Credentials.Carriers.{credentials_exclusive, check_device_binding_iff}
use localthings.Learned.{codes_of, LearnedModes, codes, observe, modes_field, supported_field}
use localthings.Learned.Laws.{codes-observe}

abbrev conditioner : Rep
conditioner =
    (supported_field, list (str "Cool" ∷ str "Dry" ∷ []))
    ∷ (modes_field, list (str "Quiet" ∷ str "Cool" ∷ []))
    ∷ []

abbrev learned : LearnedModes
learned = ("/mode/vs/1", "Nap" ∷ []) ∷ []

codes-observe_example :
    mem "Quiet" (codes (observe "/mode/vs/0" conditioner learned).1 "/mode/vs/0") ≡ true
unfolding Dict.get codes codes_of
codes-observe_example = codes-observe "/mode/vs/0" "/mode/vs/0" "Quiet" conditioner learned

abbrev hex : HexText
hex = record { upper = λ s. s; strip = λ s. s; is_base16 = λ s. true }

abbrev washer : Rep
washer =
    (
      "x.com.samsung.da.options",
      list (str "Course_1C" ∷ str "CloudCourse_00000A" ∷ str "OneTimeCloudCourse_01000A" ∷ []),
    )
    ∷ []

abbrev courses : CloudCourses
courses = restore hex none

observe_again-settles_example :
    ((CloudCourse.observe hex washer (CloudCourse.observe hex washer courses).1).0 ≡ false)
    × ((CloudCourse.observe hex washer (CloudCourse.observe hex washer courses).1).1.slots
        ≡ (CloudCourse.observe hex washer courses).1.slots)
observe_again-settles_example = observe_again-settles hex washer courses

abbrev text_of : Value → String
text_of (str s) = s
text_of v = ""

abbrev outside : Outside
outside = record {
  stripped_text = text_of;
  strip = λ s. s;
  lower = λ s. s;
  parse_uuid = λ s. some (1 ∷ 2 ∷ []);
  uuid_text = λ bs. "00000000-0000-0000-0000-000000000102";
  can_carry = λ bs. true;
}

abbrev certified : Rep
certified = (conf_leaf_cert_pem, str "CERT") ∷ (conf_leaf_key_pem, str "KEY") ∷ []

certified_credentials : certificate_credentials outside certified ≡ ok ("CERT", "KEY")
unfolding certificate_credentials Dict.get
certified_credentials = refl

credentials_exclusive_example :
    (requires_authenticated_device_id certified ≡ ok false)
    × (psk_credentials outside certified ≢ ok ("id", "key"))
credentials_exclusive_example =
    credentials_exclusive outside certified ("CERT", "KEY") ("id", "key") certified_credentials

abbrev key : String
key = "000102030405060708090a0b0c0d0e0f"

abbrev shared : Rep
shared =
    (conf_auth_carrier, str "psk")
    ∷ (conf_psk_profile, str "owner")
    ∷ (conf_psk_identity, str "00000000-0000-0000-0000-000000000102")
    ∷ (conf_psk_key, str key)
    ∷ []

shared_key : normalize_psk_key outside (str key) ≡ ok key
unfolding normalize_psk_key hex_length
shared_key = refl

shared_credentials :
    psk_credentials outside shared ≡ ok ("00000000-0000-0000-0000-000000000102", key)
unfolding psk_credentials psk_profile authentication_carrier normalize_psk_key hex_length Dict.get
shared_credentials = refl

abbrev stored : Option String
stored = some "a"

check_device_binding_iff_example :
    ((check_device_binding stored stored ≡ matched) ↔ (
      (default {A = String} "" stored ≡ default {A = String} "" stored)
      × (default {A = String} "" stored ≢ "")))
    × ((check_device_binding stored stored ≡ unproven)
        ↔ ((default {A = String} "" stored ≡ "") ⊎ (default {A = String} "" stored ≡ "")))
check_device_binding_iff_example = check_device_binding_iff stored stored
