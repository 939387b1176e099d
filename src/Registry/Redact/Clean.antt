-- ===== src/Registry/Redact/Clean.antt =====
-- What is left of a resource tree once it is redacted.
use localthings.Base.{
  String, Bool, true, false, ◌&&◌, ◌==◌, if◌then◌else◌, Value, Items, Fields, null, flag, int, str,
  bytes, arr, obj, nil, cons, end, field, entries, ◌≡◌, refl, ap, ◌∙◌, inl, inr, Bool-cases, arith,
}
use localthings.Base.Dict
use localthings.Base.Dict.{Dict}
use localthings.Registry.Redact.{
  Texts, redacted, is_hidden, redact_resources, redact_items, redact_fields,
}

is_redacted : Value → Bool
is_redacted (str s) = s == redacted
is_redacted _ = false

module _ (t : Texts) where
  mutual
    unfolding is_redacted

    -- Every value under a sensitive key is the marker, at every depth.
    pub is_clean : Value → Bool
    is_clean (obj fs) = clean_fields (Dict.has (entries fs) "connectionType") fs
    is_clean (arr vs) = clean_items vs
    is_clean v = true

    pub clean_items : Items → Bool
    clean_items nil = true
    clean_items (cons v vs) = is_clean v && clean_items vs

    pub clean_fields : Bool → Fields → Bool
    clean_fields row end = true
    clean_fields row (field k v fs) =
        let inside = is_clean v in
        (if is_hidden t row k then is_redacted v else inside) && clean_fields row fs

  has-redact :
      (row : Bool) (fs : Fields) (key : String)
      → Dict.has (entries (redact_fields t row fs)) key ≡ Dict.has (entries fs) key
  unfolding redact_fields Dict.get
  has-redact row end key = refl
  has-redact row (field k v fs) key = elim (Bool-cases (k == key)) [
    | inl same ↦ rw same refl
    | inr other ↦ rw other (has-redact row fs key)
  ]

  mutual
    unfolding redact_resources is_clean is_redacted

    value_clean : (v : Value) → is_clean (redact_resources t v) ≡ true
    value_clean (obj fs) =
        let row = Dict.has (entries fs) "connectionType" in
        ap (λ r. clean_fields r (redact_fields t row fs)) (has-redact row fs "connectionType")
        ∙ fields_clean row fs
    value_clean (arr vs) = items_clean vs
    value_clean (str s) = refl
    value_clean null = refl
    value_clean (flag b) = refl
    value_clean (int n) = refl
    value_clean (bytes b) = refl

    items_clean : (vs : Items) → clean_items (redact_items t vs) ≡ true
    items_clean nil = refl
    items_clean (cons v vs) = ground (arith, value_clean v, items_clean vs)

    fields_clean : (row : Bool) (fs : Fields) → clean_fields row (redact_fields t row fs) ≡ true
    fields_clean row end = refl
    fields_clean row (field k v fs) = elim (Bool-cases (is_hidden t row k)) [
      | inl hidden ↦ rw hidden (fields_clean row fs)
      | inr shown ↦ rw shown (ground (arith, value_clean v, fields_clean row fs))
    ]

  -- Whatever is redacted holds, at every depth, the marker under every sensitive key, and under
  -- the name, the group name and the address of a connection's row.
  pub redact_resources-IsClean : (v : Value) → is_clean (redact_resources t v) ≡ true
  redact_resources-IsClean v = value_clean v

  module _ (stays : (s : String) → t.hide_macs (t.hide_macs s) ≡ t.hide_macs s) where
    mutual
      unfolding redact_resources

      -- What is redacted twice is what was redacted once, where hiding the addresses in a text
      -- leaves none to hide.
      redact_resources_again :
          (v : Value) → redact_resources t (redact_resources t v) ≡ redact_resources t v
      redact_resources_again (obj fs) =
          let row = Dict.has (entries fs) "connectionType" in
          ap (λ r. obj (redact_fields t r (redact_fields t row fs)))
            (has-redact row fs "connectionType")
          ∙ ap obj (redact_fields_again row fs)
      redact_resources_again (arr vs) = ap arr (redact_items_again vs)
      redact_resources_again (str s) = ap str (stays s)
      redact_resources_again null = refl
      redact_resources_again (flag b) = refl
      redact_resources_again (int n) = refl
      redact_resources_again (bytes b) = refl

      redact_items_again : (vs : Items) → redact_items t (redact_items t vs) ≡ redact_items t vs
      redact_items_again nil = refl
      redact_items_again (cons v vs) =
          ap (λ w. cons w (redact_items t (redact_items t vs))) (redact_resources_again v)
          ∙ ap (cons (redact_resources t v)) (redact_items_again vs)

      redact_fields_again :
          (row : Bool) (fs : Fields)
          → redact_fields t row (redact_fields t row fs) ≡ redact_fields t row fs
      redact_fields_again row end = refl
      redact_fields_again row (field k v fs) = elim (Bool-cases (is_hidden t row k)) [
        | inl hidden ↦ rw hidden (ap (field k (str redacted)) (redact_fields_again row fs))
        | inr shown ↦ rw shown (
            ap (λ w. field k w (redact_fields t row (redact_fields t row fs)))
              (redact_resources_again v)
            ∙ ap (field k (redact_resources t v)) (redact_fields_again row fs))
      ]
