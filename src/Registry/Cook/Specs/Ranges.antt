-- ===== src/Registry/Cook/Specs/Ranges.antt =====
-- The setpoint ranges that mode_specs reads from a board.
use localthings.Base.{
  zero, suc, String, Bool, true, ◌&&◌, Option, none, some, List, [], ◌∷◌, ◌++◌, Rep, Value, str,
  obj, null, ◌≡◌, refl, inl, inr, ℤ, pos, negsuc, Bool-cases, Option-cases, arith, ◌==◌,
  if◌then◌else◌, leb, fold, is_some, entries, default, concat,
}
use localthings.Base.Dict
use localthings.Base.Dict.{Dict}
use localthings.Base.Int.{leb_ℤ}
use localthings.Registry.Cook.Fields.{
  supported_modes_field, list_of, above_zero, device_unit, value_at, rep_at, mode_href,
  mode_spec_field,
}
use localthings.Registry.Cook.Specs.{
  spec_entries, add_named, specs_from, Json, TempSpec, ModeSpec, range_between, int_or_none,
  ints_of, setpoints, specless_temps, specless_spec, specless_startable, add_specless,
  specless_specs, temp_spec, temp_in, declared_spec, add_spec, mode_specs,
}

abbrev pub every_value {ℓ} : {V : Type ℓ} → (V → Bool) → Dict V → Bool
every_value p [] = true
every_value p ((k, v) ∷ m) = p v && every_value p m

module _ {ℓ} {V : Type ℓ} (p : V → Bool) where
  every-put :
      (m : Dict V) (k : String) (v : V)
      → every_value p m ≡ true
      → p v ≡ true
      → every_value p (Dict.put m k v) ≡ true
  unfolding Dict.put
  every-put [] k v all h = ground (arith, h)
  every-put ((i, w) ∷ m) k v all h = ground (arith, all, h, every-put m k v (ground (arith, all)) h)

  every-append :
      (a b : Dict V)
      → every_value p a ≡ true
      → every_value p b ≡ true
      → every_value p (a ++ b) ≡ true
  every-append [] b ha hb = hb
  every-append ((k, v) ∷ a) b ha hb = ground (arith, ha, every-append a b (ground (arith, ha)) hb)

  every-get :
      (m : Dict V) (k : String) (v : V)
      → every_value p m ≡ true
      → Dict.get m k ≡ some v
      → p v ≡ true
  unfolding Dict.get
  every-get [] k v all h = absurd (ground (arith, h))
  every-get ((i, w) ∷ m) k v all h = elim (Bool-cases (i == k)) [
    | inl same ↦ ground (arith, same, all, h)
    | inr other ↦ every-get m k v (ground (arith, all)) (ground (arith, other, h))
  ]

-- The lower end is not above the upper one, and a step, where there is one, is above zero.
abbrev pub is_range : TempSpec → Bool
is_range t = leb_ℤ t.minimum t.maximum && elim t.step [ none ↦ true | some n ↦ leb 1 n ]

ranges : ModeSpec → Bool
ranges spec = every_value is_range spec.temps

specless_temps-ranges : (live : List Value) → every_value is_range (specless_temps live) ≡ true
unfolding specless_temps setpoints
specless_temps-ranges live = ground arith

add_specless-ranges :
    (temps : Dict TempSpec) (specs : Dict ModeSpec) (v : Value)
    → every_value is_range temps ≡ true
    → every_value ranges specs ≡ true
    → every_value ranges (add_specless temps specs v) ≡ true
unfolding add_specless specless_spec ranges
add_specless-ranges temps specs (str m) ht hs = elim (Bool-cases (specless_startable m)) [
  | inl good ↦ rw good (every-put ranges specs m (specless_spec temps m) hs ht)
  | inr bad ↦ rw bad hs
]
add_specless-ranges temps specs _ ht hs = hs

fold_specless-ranges :
    (temps : Dict TempSpec) (live : List Value) (specs : Dict ModeSpec)
    → every_value is_range temps ≡ true
    → every_value ranges specs ≡ true
    → every_value ranges (fold (add_specless temps) specs live) ≡ true
fold_specless-ranges temps [] specs ht hs = hs
fold_specless-ranges temps (v ∷ vs) specs ht hs =
    fold_specless-ranges temps vs (add_specless temps specs v) ht
      (add_specless-ranges temps specs v ht hs)

specless_specs-ranges :
    (resources : Dict Rep) → every_value ranges (specless_specs resources) ≡ true
unfolding specless_specs
specless_specs-ranges resources =
    let live = default [] (list_of (value_at (rep_at resources mode_href) supported_modes_field)) in
    let temps = if is_some (device_unit resources) then specless_temps live else [] in
    fold_specless-ranges temps live [] (ground (arith, specless_temps-ranges live)) refl

above_zero-range :
    (o : Option ℤ) → elim (above_zero o) as (λ x. Bool) [ none ↦ true | some n ↦ leb 1 n ] ≡ true
above_zero-range none = refl
above_zero-range (some (pos zero)) = refl
above_zero-range (some (pos (suc n))) = ground arith
above_zero-range (some (negsuc n)) = refl

range_between-range :
    (lo hi : ℤ) (start interval : Option ℤ) (choices : List ℤ)
    → is_range (range_between lo hi start interval choices) ≡ true
unfolding range_between
range_between-range lo hi start interval choices = ground (arith, above_zero-range interval)

module _ (j : Json) where
  temp_in-ranges :
      (entry : Rep) (unit : String) → every_value is_range (temp_in j entry unit) ≡ true
  unfolding temp_in temp_spec
  temp_in-ranges entry unit =
      let number : String → Option ℤ = λ key. int_or_none j (value_at entry (concat key unit)) in
      elim (Option-cases (number "tempMin")) [
        | inl missing ↦ ground (arith, missing)
        | inr (lo, e) ↦ elim (Option-cases (number "tempMax")) [
          | inl missing ↦ ground (arith, e, missing)
          | inr (hi, e') ↦ ground (
            arith,
            e,
            e',
            range_between-range lo hi (number "tempDefault") (number "tempInterval")
                (ints_of j (default [] (list_of (value_at entry (concat "tempListData" unit))))),
          )
        ]
      ]

  add_named-ranges :
      (specs : Dict ModeSpec) (entry : Rep) (v : Value)
      → every_value ranges specs ≡ true
      → every_value ranges (add_named j specs entry v) ≡ true
  unfolding add_named declared_spec ranges
  add_named-ranges specs entry (str m) h = every-put ranges specs m (declared_spec j entry m) h (
      every-append is_range (temp_in j entry "C") (temp_in j entry "F") (temp_in-ranges entry "C")
        (temp_in-ranges entry "F"))
  add_named-ranges specs entry _ h = h

  add_spec-ranges :
      (specs : Dict ModeSpec) (v : Value)
      → every_value ranges specs ≡ true
      → every_value ranges (add_spec j specs v) ≡ true
  unfolding add_spec
  add_spec-ranges specs (obj fs) h =
      add_named-ranges specs (entries fs) (value_at (entries fs) "mode") h
  add_spec-ranges specs _ h = h

  fold-ranges :
      (es : List Value) (specs : Dict ModeSpec)
      → every_value ranges specs ≡ true
      → every_value ranges (fold (add_spec j) specs es) ≡ true
  fold-ranges [] specs h = h
  fold-ranges (e ∷ es) specs h = fold-ranges es (add_spec j specs e) (add_spec-ranges specs e h)

  specs_from-ranges :
      (resources : Dict Rep) (raw : Value) → every_value ranges (specs_from j resources raw) ≡ true
  unfolding specs_from
  specs_from-ranges resources null = specless_specs-ranges resources
  specs_from-ranges resources raw = fold-ranges (spec_entries j raw) [] refl

  all_ranges : (resources : Dict Rep) → every_value ranges (mode_specs j resources) ≡ true
  unfolding mode_specs
  all_ranges resources =
      specs_from-ranges resources (value_at (rep_at resources mode_href) mode_spec_field)

  -- Every setpoint range that a board declares, whatever its modeSpec holds, has a lower end that is not
  -- above its upper one and, where it has a step, a step above zero.
  pub mode_specs-ranges :
      (resources : Dict Rep) (mode unit : String) (spec : ModeSpec) (temp : TempSpec)
      → Dict.get (mode_specs j resources) mode ≡ some spec
      → Dict.get spec.temps unit ≡ some temp
      → is_range temp ≡ true
  unfolding ranges
  mode_specs-ranges resources mode unit spec temp h g =
      every-get is_range spec.temps unit temp
        (every-get ranges (mode_specs j resources) mode spec (all_ranges resources) h) g
