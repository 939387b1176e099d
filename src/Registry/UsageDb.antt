-- ===== src/Registry/UsageDb.antt =====
-- registry/usagedb.py: the usage history that an appliance keeps
pub mod Format
pub mod Series
use localthings.Base.{
  ℕ, ◌+◌, ◌-◌, ◌*◌, ◌%◌, Bool, true, false, not, ◌&&◌, ◌||◌, Option, none, some, List, [], ◌∷◌, map,
  all, length, ltb, leb, eqb, if◌then◌else◌, Rep, Value, bytes, arr, obj, items, entries,
}
use localthings.Base.Dict

abbrev pub record_size : ℕ
record_size = 12

-- 2015-01-01 and 2100-01-01
abbrev pub ts_min : ℕ
ts_min = 1420070400

abbrev pub ts_max : ℕ
ts_max = 4102444800

pub record Record : Type 0 where
  pub timestamp : ℕ
  pub value : ℕ
  pub third : ℕ

-- `_blob`
first_blob : List Value → Option (List ℕ)
first_blob (obj fs ∷ vs) = elim (Dict.get (entries fs) "x.com.samsung.blob") [
  | some (bytes b) ↦ some b
  | _ ↦ none
]
first_blob _ = none

unfoldable pub blob_of : Rep → Option (List ℕ)
unfolding first_blob
blob_of rep = elim (Dict.get rep "x.com.samsung.items") [
  | some (arr vs) ↦ first_blob (items vs)
  | _ ↦ none
]

abbrev pub u32_le : ℕ → ℕ → ℕ → ℕ → ℕ
u32_le a b c d = a + 256 * b + 65536 * c + 16777216 * d

-- whether a record may follow the one before it
unfoldable pub may_follow : Option Record → Record → Bool
may_follow none r = true
may_follow (some p) r = ltb p.timestamp r.timestamp && leb p.value r.value

unfoldable pub in_window : Record → Bool
in_window r = leb ts_min r.timestamp && leb r.timestamp ts_max

prepend : Record → Option (List Record) → Option (List Record)
prepend r none = none
prepend r (some rs) = some (r ∷ rs)

-- the loop over the records, with the last one read
unfoldable pub read_records : Option Record → List ℕ → Option (List Record)
unfolding may_follow in_window prepend
read_records previous (a ∷ b ∷ c ∷ d ∷ e ∷ f ∷ g ∷ h ∷ i ∷ j ∷ k ∷ l ∷ rest) =
    let r : Record = record {
      timestamp = u32_le a b c d;
      value = u32_le e f g h;
      third = u32_le i j k l;
    } in
    let out = prepend r (read_records (some r) rest) in
    if in_window r && may_follow previous r then out else none
read_records previous _ = some []

unfoldable pub last_value : List Record → ℕ
last_value [] = 0
last_value (r ∷ []) = r.value
last_value (r ∷ s ∷ rs) = last_value (s ∷ rs)

-- a counter that is zero, or that never moves, says nothing
unfoldable pub says_something : List Record → Bool
unfolding last_value
says_something [] = false
says_something (r ∷ []) = ltb 0 r.value
says_something (r ∷ s ∷ rs) =
    ltb 0 (last_value (r ∷ s ∷ rs)) && ltb r.value (last_value (r ∷ s ∷ rs))

keep_telling : Option (List Record) → Option (List Record)
unfolding says_something
keep_telling none = none
keep_telling (some rs) = if says_something rs then some rs else none

unfoldable pub records_of : Option (List ℕ) → Option (List Record)
unfolding keep_telling
records_of none = none
records_of (some blob) =
    if ltb (length blob) record_size || not (eqb (length blob % record_size) 0)
    then none
    else keep_telling (read_records none blob)

unfoldable pub records : Rep → Option (List Record)
unfolding records_of blob_of
records rep = records_of (blob_of rep)

-- `itertools.pairwise`, every pair under a test
unfoldable pub all_pairs : (ℕ → ℕ → Bool) → List ℕ → Bool
all_pairs p [] = true
all_pairs p (x ∷ []) = true
all_pairs p (x ∷ y ∷ ys) = p x y && all_pairs p (y ∷ ys)

unfoldable pub any_pair : (ℕ → ℕ → Bool) → List ℕ → Bool
any_pair p [] = false
any_pair p (x ∷ []) = false
any_pair p (x ∷ y ∷ ys) = p x y || any_pair p (y ∷ ys)

unfoldable pub last : List ℕ → ℕ
last [] = 0
last (x ∷ []) = x
last (x ∷ y ∷ ys) = last (y ∷ ys)

abbrev pub max_month : ℕ
max_month = 12

-- `_is_runtime_series`
unfoldable pub is_runtime_series : List ℕ → Bool
is_runtime_series values =
    ltb max_month (last values)
    && all_pairs (λ a b. leb a b) values
    && all_pairs (λ a b. eqb ((b - a) % 5) 0) values

-- `_energy_scale_is_confirmed`
unfoldable pub energy_scale_is_confirmed : List ℕ → Bool
energy_scale_is_confirmed values =
    if all (λ v. eqb v 0) values
    then true
    else if all (λ v. leb 1 v && leb v max_month) values
    then any_pair (λ a b. eqb a b) values
    else false

abbrev pub thirds : List Record → List ℕ
thirds rs = map (λ (r : Record). r.third) rs

energy_of : Option (List Record) → Option ℕ
energy_of none = none
energy_of (some []) = none
energy_of (some (r ∷ rs)) =
    if energy_scale_is_confirmed (thirds (r ∷ rs)) then some (last_value (r ∷ rs)) else none

-- the energy, in tenths of a kWh
unfoldable pub cumulative_energy_kwh : Rep → Option ℕ
unfolding energy_of energy_scale_is_confirmed last_value
cumulative_energy_kwh rep = energy_of (records rep)

energy_wh_of : Option (List Record) → Option ℕ
energy_wh_of none = none
energy_wh_of (some []) = none
energy_wh_of (some (r ∷ rs)) =
    if all (λ v. eqb v 0) (thirds (r ∷ rs)) then some (last_value (r ∷ rs)) else none

-- the energy, in Wh
unfoldable pub cumulative_energy_kwh_from_wh : Rep → Option ℕ
unfolding energy_wh_of last_value
cumulative_energy_kwh_from_wh rep = energy_wh_of (records rep)

runtime_of : Option (List Record) → Option ℕ
runtime_of none = none
runtime_of (some []) = none
runtime_of (some (r ∷ rs)) =
    if is_runtime_series (thirds (r ∷ rs)) then some (last (thirds (r ∷ rs))) else none

-- the running time, in tenths of an hour
unfoldable pub cumulative_runtime_hours : Rep → Option ℕ
unfolding runtime_of is_runtime_series last
cumulative_runtime_hours rep = runtime_of (records rep)
