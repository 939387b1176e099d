-- ===== src/Registry/Encode/Roundtrip.antt =====
-- What json_safe makes of a value is read back as the value, but for tuples and sets, which come
-- back as lists.
use localthings.Base.{
  ℕ, ◌≤◌, ◌-◌, Bool, true, false, not, ◌&&◌, none, some, List, [], ◌∷◌, ◌==◌, any, eqb, leb, length,
  ◌≡◌, refl, ap, ◌∙◌, arith,
}
use localthings.Registry.Encode.{
  list_kind, text_key, other_key, Object, Pairs, Objects, nothing, truth, number, real, text,
  binary, mapping, sequence, moment, decimal, tagged, other, no_pairs, pair, no_objects, also,
  Codec, type_key, taken, safe_key, mem_id, bytes_marker, walk, walk_pairs, walk_objects, json_safe,
  member_at, is_bytes_marker, from_json_safe, from_members, from_elements, marker,
}

taken_all : (n : ℕ) (bs : List ℕ) → length bs ≤ n → taken n bs ≡ bs
unfolding taken
taken_all n [] h = refl
taken_all n (b ∷ bs) h = ground (arith, h, taken_all (n - 1) bs (ground (arith, h)))

left : (a b : Bool) → a && b ≡ true → a ≡ true
left a b h = ground (arith, h)

right : (a b : Bool) → a && b ≡ true → b ≡ true
right a b h = ground (arith, h)

negated : {a : Bool} → not a ≡ true → a ≡ false
negated h = ground (arith, h)

module _ {F : Type 0} (c : Codec F) where
  unfoldable mutual
    unfolding mem_id

    -- A value that JSON holds, but for bytes that are no longer than the limit: no key of a dict is
    -- other than a text, or the marker's own, and no container holds itself.
    pub is_plain : ℕ → List ℕ → Object F → Bool
    is_plain max seen nothing = true
    is_plain max seen (truth b) = true
    is_plain max seen (number n) = true
    is_plain max seen (real x) = c.is_finite x
    is_plain max seen (text s) = true
    is_plain max seen (binary raw) = leb (length raw) max
    is_plain max seen (mapping i ps) = not (any (eqb i) seen) && plain_pairs max (i ∷ seen) ps
    is_plain max seen (sequence kind i vs) =
        not (any (eqb i) seen) && plain_objects max (i ∷ seen) vs
    is_plain max seen _ = false

    pub plain_pairs : ℕ → List ℕ → Pairs F → Bool
    plain_pairs max seen no_pairs = true
    plain_pairs max seen (pair (text_key k) v ps) =
        not (k == type_key) && (is_plain max seen v && plain_pairs max seen ps)
    plain_pairs max seen (pair (other_key r) v ps) = false

    pub plain_objects : ℕ → List ℕ → Objects F → Bool
    plain_objects max seen no_objects = true
    plain_objects max seen (also v vs) = is_plain max seen v && plain_objects max seen vs

  unfoldable mutual
    -- the value with the id 0 for every container, and a list for every tuple and set
    pub fresh : Object F → Object F
    fresh (mapping i ps) = mapping 0 (fresh_pairs ps)
    fresh (sequence kind i vs) = sequence list_kind 0 (fresh_objects vs)
    fresh v = v

    pub fresh_pairs : Pairs F → Pairs F
    fresh_pairs no_pairs = no_pairs
    fresh_pairs (pair k v ps) = pair k (fresh v) (fresh_pairs ps)

    pub fresh_objects : Objects F → Objects F
    fresh_objects no_objects = no_objects
    fresh_objects (also v vs) = also (fresh v) (fresh_objects vs)

  no_type_key :
      (max : ℕ) (seen : List ℕ) (ps : Pairs F)
      → plain_pairs max seen ps ≡ true
      → member_at type_key (walk_pairs c max seen ps) ≡ none
  unfolding plain_pairs walk_pairs member_at safe_key
  no_type_key max seen no_pairs h = refl
  no_type_key max seen (pair (text_key k) v ps) h =
      let far =
        negated {a = k == type_key} (left _ (is_plain max seen v && plain_pairs max seen ps) h) in
      rw far
        (no_type_key max seen ps (right (is_plain max seen v) _ (right (not (k == type_key)) _ h)))
  no_type_key max seen (pair (other_key r) v ps) h = absurd (ground (arith, h))

  no_marker :
      (max : ℕ) (seen : List ℕ) (ps : Pairs F)
      → plain_pairs max seen ps ≡ true
      → is_bytes_marker (walk_pairs c max seen ps) ≡ false
  unfolding is_bytes_marker
  no_marker max seen ps h = rw (no_type_key max seen ps h, is_bytes_marker) refl

  module _ (codec : (raw : List ℕ) → c.b64decode (c.b64encode raw) ≡ some raw) where
    bytes_back :
        (max : ℕ) (raw : List ℕ)
        → leb (length raw) max ≡ true
        → from_json_safe c (bytes_marker c max raw) ≡ binary raw
    unfolding from_json_safe bytes_marker marker
    bytes_back max raw h =
        let fits : taken max raw ≡ raw = taken_all max raw (ground (arith, h)) in
        let same : eqb (length raw) (length raw) ≡ true = ground arith in
        rw (fits, same, codec raw) refl

    mutual
      unfolding walk is_plain fresh from_json_safe

      -- What json_safe makes of a plain value, from_json_safe turns back into it, with new
      -- containers and lists for tuples and sets: bytes that fit the limit come back as bytes.
      from_json_safe-walk :
          (max : ℕ) (seen : List ℕ) (v : Object F)
          → is_plain max seen v ≡ true
          → from_json_safe c (walk c max seen v) ≡ fresh v
      from_json_safe-walk max seen nothing h = refl
      from_json_safe-walk max seen (truth b) h = refl
      from_json_safe-walk max seen (number n) h = refl
      from_json_safe-walk max seen (real x) h = rw h refl
      from_json_safe-walk max seen (text s) h = refl
      from_json_safe-walk max seen (binary raw) h = bytes_back max raw h
      from_json_safe-walk max seen (mapping i ps) h =
          let plain = right (not (any (eqb i) seen)) _ h in
          rw (negated (left _ (plain_pairs max (i ∷ seen) ps) h), no_marker max (i ∷ seen) ps plain)
            (ap (mapping 0) (from_members-walk max (i ∷ seen) ps plain))
      from_json_safe-walk max seen (sequence kind i vs) h =
          let plain = right (not (any (eqb i) seen)) _ h in
          rw (negated (left _ (plain_objects max (i ∷ seen) vs) h))
            (ap (sequence list_kind 0) (from_elements-walk max (i ∷ seen) vs plain))
      from_json_safe-walk max seen (moment s) h = absurd (ground (arith, h))
      from_json_safe-walk max seen (decimal s) h = absurd (ground (arith, h))
      from_json_safe-walk max seen (tagged n v) h = absurd (ground (arith, h))
      from_json_safe-walk max seen (other r) h = absurd (ground (arith, h))

      from_members-walk :
          (max : ℕ) (seen : List ℕ) (ps : Pairs F)
          → plain_pairs max seen ps ≡ true
          → from_members c (walk_pairs c max seen ps) ≡ fresh_pairs ps
      from_members-walk max seen no_pairs h = refl
      from_members-walk max seen (pair (text_key k) v ps) h =
          let plain = right (not (k == type_key)) _ h in
          ap (λ w. pair (text_key k) w (from_members c (walk_pairs c max seen ps)))
            (from_json_safe-walk max seen v (left _ (plain_pairs max seen ps) plain))
          ∙ ap (pair (text_key k) (fresh v))
              (from_members-walk max seen ps (right (is_plain max seen v) _ plain))
      from_members-walk max seen (pair (other_key r) v ps) h = absurd (ground (arith, h))

      from_elements-walk :
          (max : ℕ) (seen : List ℕ) (vs : Objects F)
          → plain_objects max seen vs ≡ true
          → from_elements c (walk_objects c max seen vs) ≡ fresh_objects vs
      from_elements-walk max seen no_objects h = refl
      from_elements-walk max seen (also v vs) h =
          ap (λ w. also w (from_elements c (walk_objects c max seen vs)))
            (from_json_safe-walk max seen v (left _ (plain_objects max seen vs) h))
          ∙ ap (also (fresh v)) (from_elements-walk max seen vs (right (is_plain max seen v) _ h))

    -- A plain value that json_safe has made into JSON is read back by from_json_safe as it was, with
    -- new containers and with a list for every tuple and set: no key of its dicts is the marker's or other than a text, its bytes fit the
    -- limit and come back as bytes, its floats are finite, and no container holds itself.
    pub from_json_safe-json_safe :
        (max : ℕ) (v : Object F)
        → is_plain max [] v ≡ true
        → from_json_safe c (json_safe c max v) ≡ fresh v
    unfolding json_safe
    from_json_safe-json_safe max v h = from_json_safe-walk max [] v h
