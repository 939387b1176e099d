-- ===== src/Base/Data/Equal.antt =====
-- Python's `==` on decoded values: True and False equal 1 and 0, and two dicts are equal whatever
-- the order of their keys.
pub mod Scalars
use Prim.Native.Nat.{ℕ, suc}
use Prim.Native.String.{String}
use mathlib.Core.Bool.{Bool, true, false, ◌&&◌}
use mathlib.Core.Option.{Option, none, some}
use mathlib.Core.List.{List, [], ◌∷◌}
use text.Mathlib.Text.{◌==◌}
use localthings.Base.Tests.{if◌then◌else◌, eqb}
use localthings.Base.Data.{
  ℤ, pos, negsuc, Value, Items, Fields, null, flag, int, str, bytes, arr, obj, nil, cons, end,
  field,
}

eq_int : ℤ → ℤ → Bool
eq_int (pos a) (pos b) = eqb a b
eq_int (negsuc a) (negsuc b) = eqb a b
eq_int _ _ = false

eq_number : ℤ → Value → Bool
unfolding eq_int
eq_number a (flag true) = eq_int a (pos 1)
eq_number a (flag false) = eq_int a (pos 0)
eq_number a (int b) = eq_int a b
eq_number a _ = false

eq_bytes : List ℕ → List ℕ → Bool
eq_bytes [] [] = true
eq_bytes (a ∷ as') (b ∷ bs) = eqb a b && eq_bytes as' bs
eq_bytes _ _ = false

find_field : String → Fields → Option Value
find_field k end = none
find_field k (field j v fs) = if j == k then some v else find_field k fs

count_fields : Fields → ℕ
count_fields end = 0
count_fields (field k v fs) = suc (count_fields fs)

unfoldable mutual
  unfolding eq_number eq_bytes find_field count_fields

  pub eq : Value → Value → Bool
  eq null null = true
  eq (flag true) w = eq_number (pos 1) w
  eq (flag false) w = eq_number (pos 0) w
  eq (int a) w = eq_number a w
  eq (str s) (str t) = s == t
  eq (bytes a) (bytes b) = eq_bytes a b
  eq (arr vs) (arr ws) = eq_items vs ws
  eq (obj fs) (obj gs) = eqb (count_fields fs) (count_fields gs) && eq_fields fs gs
  eq _ _ = false

  pub eq_items : Items → Items → Bool
  eq_items nil nil = true
  eq_items (cons v vs) (cons w ws) = eq v w && eq_items vs ws
  eq_items _ _ = false

  pub eq_fields : Fields → Fields → Bool
  eq_fields end gs = true
  eq_fields (field k v fs) gs =
      elim (find_field k gs) [ none ↦ false | some w ↦ eq v w ] && eq_fields fs gs
