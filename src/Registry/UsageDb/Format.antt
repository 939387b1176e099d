-- ===== src/Registry/UsageDb/Format.antt =====
-- Which files `records` reads: those that hold a plausible series, and as that series.
use localthings.Base.{
  ℕ, ◌+◌, ◌*◌, ◌/◌, ◌%◌, Bool, true, ◌&&◌, ◌≡◌, refl, Option, none, some, List, [], ◌∷◌, length,
  arith, if◌then◌else◌, Option-cases, inl, inr,
}
use localthings.Registry.UsageDb.{
  Record, read_records, records_of, in_window, may_follow, says_something, u32_le,
}

-- a number's four bytes, the lowest first, in front of more
abbrev bytes_of : ℕ → List ℕ → List ℕ
bytes_of n rest = n % 256 ∷ n / 256 % 256 ∷ n / 65536 % 256 ∷ n / 16777216 ∷ rest

-- the file that holds these records
unfoldable pub encode : List Record → List ℕ
encode [] = []
encode (r ∷ rs) = bytes_of r.timestamp (bytes_of r.value (bytes_of r.third (encode rs)))

-- every timestamp in the window, the timestamps rising, the counter never falling
unfoldable pub is_series : Option Record → List Record → Bool
is_series previous [] = true
is_series previous (r ∷ rs) = in_window r && (may_follow previous r && is_series (some r) rs)

u32_bytes : (n : ℕ) → u32_le (n % 256) (n / 256 % 256) (n / 65536 % 256) (n / 16777216) ≡ n
u32_bytes n = omega arith

length-encode : (rs : List Record) → length (encode rs) ≡ 12 * length rs
unfolding encode
length-encode [] = refl
length-encode (r ∷ rs) = omega (arith, length-encode rs)

Record_eq :
    (r : Record) (a b c : ℕ)
    → a ≡ r.timestamp
    → b ≡ r.value
    → c ≡ r.third
    → ◌≡◌ {A = Record} (record { timestamp = a; value = b; third = c }) r
Record_eq r a b c p q s = ground (arith, p, q, s)

read-encode :
    (previous : Option Record) (rs : List Record)
    → read_records previous (encode rs) ≡ (if is_series previous rs then some rs else none)
unfolding read_records encode is_series
read-encode previous [] = refl
read-encode previous (r ∷ rs) =
    rw (Record_eq r _ _ _ (u32_bytes r.timestamp) (u32_bytes r.value) (u32_bytes r.third))
      (ground (arith, read-encode (some r) rs))

-- A file that holds records is read as these records exactly when they are a series and its
-- counter is positive and moves; otherwise nothing is read.
pub records-encode :
    (r : Record) (rs : List Record)
    → records_of (some (encode (r ∷ rs)))
      ≡ (if is_series none (r ∷ rs) && says_something (r ∷ rs) then some (r ∷ rs) else none)
unfolding records_of
records-encode r rs = let n = length-encode (r ∷ rs) in ground (arith, n, read-encode none (r ∷ rs))

read_sound :
    (previous : Option Record) (bs : List ℕ) (rs : List Record)
    → read_records previous bs ≡ some rs
    → (is_series previous rs ≡ true) × (length bs ≡ 12 * length rs + length bs % 12)
unfolding read_records is_series
read_sound previous (a ∷ b ∷ c ∷ d ∷ e ∷ f ∷ g ∷ h ∷ i ∷ j ∷ k ∷ l ∷ rest) [] p = ground (arith, p)
read_sound previous (a ∷ b ∷ c ∷ d ∷ e ∷ f ∷ g ∷ h ∷ i ∷ j ∷ k ∷ l ∷ rest) (r ∷ rs) p =
    ground (arith, p, read_sound (some r) rest rs)
read_sound previous bs rs p = ground (arith, p)

-- Whatever a file holds, what is read from it is a series whose counter is positive and moves, of
-- one record for each twelve bytes.
pub records_sound :
    (blob : List ℕ) (rs : List Record)
    → records_of (some blob) ≡ some rs
    → (is_series none rs ≡ true) × (says_something rs ≡ true) × (length blob ≡ 12 * length rs)
unfolding records_of
records_sound blob rs h = elim (Option-cases (read_records none blob)) [
  | inl e ↦ ground (arith, e, h)
  | inr (read, e) ↦ ground (arith, e, h, read_sound none blob read e)
]
