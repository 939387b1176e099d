-- ===== src/Examples/Wire.antt =====
-- registry/ on concrete hrefs, tokens and files
use localthings.Base.{
  ℕ, ◌*◌, length, true, ◌≡◌, ◌≢◌, refl, none, some, List, [], ◌∷◌, arith, Rep, str, bytes, list,
  dict,
}
use localthings.Base.Dict
use localthings.Base.Dict.{Dict}
use localthings.Registry.Common.Options.{token_prefix, last_token, first_token, merge_options_field}
use localthings.Registry.Common.Options.Laws.{first-merge_options_field}
use localthings.Registry.UsageDb.{
  in_window, may_follow, read_records, records, Record, records_of, cumulative_energy_kwh,
  cumulative_runtime_hours, says_something,
}
use localthings.Registry.UsageDb.Format.{encode, is_series, records-encode, records_sound}
use localthings.Registry.UsageDb.Series.{energy_or_runtime}
use localthings.Registry.Subdevices.Defs.{
  owns, Subdevice, main, indexed, main_subdevice, to_actual, to_canonical, canonical_view,
}
use localthings.Registry.Subdevices.Defs.Hrefs.{to_canonical-to_actual, to_actual-to_canonical}
use localthings.Registry.Subdevices.Defs.Views.{get-canonical_view_main, get-canonical_view_sub}

first-merge_options_field_example :
    first_token "Rinse"
      (merge_options_field (str "Course_1C" ∷ str "Rinse_2" ∷ []) (str "Rinse_3" ∷ []))
    ≡ some (str "Rinse_3")
unfolding first_token last_token token_prefix
first-merge_options_field_example =
    first-merge_options_field "Rinse" (str "Course_1C" ∷ str "Rinse_2" ∷ []) (str "Rinse_3" ∷ [])

abbrev january : Record
january = record { timestamp = 1735689600; value = 100; third = 0 }

abbrev february : Record
february = record { timestamp = 1738368000; value = 130; third = 0 }

records-encode_example :
    records_of (some (encode (january ∷ february ∷ []))) ≡ some (january ∷ february ∷ [])
unfolding is_series says_something in_window may_follow
records-encode_example = records-encode january (february ∷ [])

abbrev file : List ℕ
file =
    128 ∷ 133 ∷ 116 ∷ 103 ∷ 100 ∷ 0 ∷ 0 ∷ 0 ∷ 0 ∷ 0 ∷ 0 ∷ 0 ∷ 0 ∷ 100 ∷ 157 ∷ 103 ∷ 130 ∷ 0 ∷ 0 ∷ 0
    ∷ 0 ∷ 0 ∷ 0 ∷ 0 ∷ []

file_read : records_of (some file) ≡ some (january ∷ february ∷ [])
unfolding records_of read_records
file_read = refl

records_sound_example :
    (is_series none (january ∷ february ∷ []) ≡ true)
    × (says_something (january ∷ february ∷ []) ≡ true)
    × (length file ≡ 12 * length (january ∷ february ∷ []))
records_sound_example = records_sound file (january ∷ february ∷ []) file_read

abbrev usage : Rep
usage = ("x.com.samsung.items", list (dict (("x.com.samsung.blob", bytes file) ∷ []) ∷ [])) ∷ []

usage_energy : cumulative_energy_kwh usage ≡ some 130
unfolding cumulative_energy_kwh records records_of read_records Dict.get
usage_energy = refl

energy_or_runtime_example : cumulative_runtime_hours usage ≡ none
energy_or_runtime_example = energy_or_runtime usage 130 usage_energy

abbrev second_drum : Subdevice
second_drum = record { kind = indexed; key = "1"; seed_path = "device" ∷ "1" ∷ []; flat_hrefs = [] }

to_canonical-to_actual_example :
    to_canonical second_drum (to_actual second_drum "/power/vs/0") ≡ some "/power/vs/0"
to_canonical-to_actual_example =
    to_canonical-to_actual second_drum "/power/vs/0" (refl, "/power/vs", refl)

second_drum_power : to_canonical second_drum "/power/vs/1" ≡ some "/power/vs/0"
unfolding to_canonical
second_drum_power = refl

to_actual-to_canonical_example : to_actual second_drum "/power/vs/0" ≡ "/power/vs/1"
to_actual-to_canonical_example =
    to_actual-to_canonical second_drum "/power/vs/1" "/power/vs/0" second_drum_power

abbrev off : Rep
off = ("power", str "off") ∷ []

abbrev on : Rep
on = ("power", str "on") ∷ []

abbrev resources : Dict Rep
resources = ("/power/vs/0", off) ∷ ("/power/vs/1", on) ∷ []

get-canonical_view_main_example :
    Dict.get (canonical_view main_subdevice resources (second_drum ∷ [])) "/power/vs/1" ≡ none
unfolding owns
get-canonical_view_main_example =
    get-canonical_view_main main_subdevice resources (second_drum ∷ []) "/power/vs/1" refl

indexed_ne : indexed ≢ main
indexed_ne = λ e. ground (arith, e)

get-canonical_view_sub_example :
    Dict.get (canonical_view second_drum resources (second_drum ∷ [])) "/power/vs/0"
    ≡ Dict.get resources (to_actual second_drum "/power/vs/0")
unfolding Dict.get
get-canonical_view_sub_example =
    get-canonical_view_sub second_drum resources (second_drum ∷ []) "/power/vs/0" indexed_ne
      (refl, (refl, tt)) (refl, "/power/vs", refl)
