-- ===== src/Credentials/Carriers.antt =====
-- Which credentials an entry can hold at once, and what is let through.
use localthings.Base.{
  ◌↔◌, String, true, false, ◌≡◌, ◌≢◌, Option, default, some, arith, ◌⊎◌, eq_iff, Rep, Value,
}
use localthings.Credentials.{
  ok, certificate, psk, Outside, authentication_carrier, psk_profile, certificate_credentials,
  psk_credentials, hex_length, normalize_psk_key, matched, unproven, check_device_binding, known,
  compare_ids, is_key_length, requires_authenticated_device_id,
}

certificate_carrier :
    (o : Outside) (entry : Rep) (a : String × String)
    → certificate_credentials o entry ≡ ok a
    → authentication_carrier entry ≡ ok certificate
unfolding certificate_credentials
certificate_carrier o entry a h = ground (arith, h)

psk_carrier :
    (o : Outside) (entry : Rep) (a : String × String)
    → psk_credentials o entry ≡ ok a
    → authentication_carrier entry ≡ ok psk
unfolding psk_credentials psk_profile
psk_carrier o entry a h = ground (arith, h)

-- A key that is let through is the stripped text in lower case, and that text is 32 or 64
-- hexadecimal digits.
normalize_psk_key_sound :
    (o : Outside) (value : Value) (key : String)
    → normalize_psk_key o value ≡ ok key
    → (key ≡ o.lower (o.stripped_text value))
      × ((hex_length (o.stripped_text value) ≡ some 32)
          ⊎ (hex_length (o.stripped_text value) ≡ some 64))
unfolding normalize_psk_key is_key_length
normalize_psk_key_sound o value key h = ground (arith, h)

-- The binding matches exactly where both ids are the same text that is not empty, and is unproven
-- exactly where one of them is missing or empty.
pub check_device_binding_iff :
    (expected reported : Option String)
    → ((check_device_binding expected reported ≡ matched)
        ↔ ((default "" expected ≡ default "" reported) × (default "" expected ≢ "")))
      × ((check_device_binding expected reported ≡ unproven)
          ↔ ((default "" expected ≡ "") ⊎ (default "" reported ≡ "")))
unfolding check_device_binding known compare_ids
check_device_binding_iff expected reported = ground (
  arith,
  eq_iff (default "" expected) (default "" reported),
  eq_iff (default "" expected) "",
  eq_iff (default "" reported) "",
)

-- An entry that yields certificate credentials does not have to check which device answers, and
-- yields no pre-shared key.
pub credentials_exclusive :
    (o : Outside) (entry : Rep) (a b : String × String)
    → certificate_credentials o entry ≡ ok a
    → (requires_authenticated_device_id entry ≡ ok false) × (psk_credentials o entry ≢ ok b)
unfolding requires_authenticated_device_id
credentials_exclusive o entry a b h =
    let c = certificate_carrier o entry a h in
    (ground (arith, c), λ p. ground (arith, c, psk_carrier o entry b p))

-- An entry that yields a pre-shared key has to check which device answers.
psk-requires_device_id :
    (o : Outside) (entry : Rep) (a : String × String)
    → psk_credentials o entry ≡ ok a
    → requires_authenticated_device_id entry ≡ ok true
unfolding requires_authenticated_device_id
psk-requires_device_id o entry a h = ground (arith, psk_carrier o entry a h)
