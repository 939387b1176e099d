-- ===== src/Base/Sorting.antt =====
-- Python's `sorted` and sets, on texts and numbers.
use Prim.Native.Nat.{ℕ, Ordering}
use Prim.Native.String.{String, compare}
use mathlib.Core.Bool.{Bool, true, false}
use mathlib.Core.List.{List, [], ◌∷◌}
use localthings.Base.Tests.{if◌then◌else◌, ltb, eqb}
use localthings.Base.Lists.{add}

abbrev pub text_lt : String → String → Bool
text_lt a b = elim (compare a b) [ Ordering.lt ↦ true | _ ↦ false ]

abbrev pub insert_text : String → List String → List String
insert_text s [] = s ∷ []
insert_text s (t ∷ ts) = let rest = insert_text s ts in if text_lt s t then s ∷ t ∷ ts else t ∷ rest

abbrev pub sort_texts : List String → List String
sort_texts [] = []
sort_texts (s ∷ ss) = insert_text s (sort_texts ss)

-- `set(ss)`
abbrev pub to_set : List String → List String
to_set [] = []
to_set (s ∷ ss) = add s (to_set ss)

-- one more number of a sorted set
abbrev pub insert_number : ℕ → List ℕ → List ℕ
insert_number n [] = n ∷ []
insert_number n (m ∷ ms) =
    let rest = insert_number n ms in
    if ltb n m then n ∷ m ∷ ms else if eqb n m then m ∷ ms else m ∷ rest
