-- ===== src/Base/Data.antt =====
-- The values that a decoded CBOR or JSON body holds: Python's None, bool, int, str, bytes, list
-- and dict with text keys.
pub mod Equal
use Prim.Native.Nat.{ℕ, zero}
use Prim.Native.String.{String}
use mathlib.Core.Bool.{Bool, true, false}
use mathlib.Core.List.{List, [], ◌∷◌}
use localthings.Base.Dict.{Dict}

-- `negsuc n` is -(n + 1).
pub data ℤ : Type 0 where
  pos : ℕ → ℤ
  negsuc : ℕ → ℤ

mutual
  -- the entries of a dict, in their order
  pub data Fields : Type 0 where
    field : String → Value → Fields → Fields
    end : Fields

  pub data Value : Type 0 where
    obj : Fields → Value
    arr : Items → Value
    bytes : List ℕ → Value
    str : String → Value
    int : ℤ → Value
    flag : Bool → Value
    null : Value

  -- the elements of a list
  pub data Items : Type 0 where
    cons : Value → Items → Items
    nil : Items

-- The representation of a resource.
abbrev pub Rep : Type 0
Rep = Dict Value

abbrev pub items : Items → List Value
items nil = []
items (cons v vs) = v ∷ items vs

abbrev pub of_items : List Value → Items
of_items [] = nil
of_items (v ∷ vs) = cons v (of_items vs)

abbrev pub entries : Fields → Rep
entries end = []
entries (field k v fs) = (k, v) ∷ entries fs

abbrev pub of_entries : Rep → Fields
of_entries [] = end
of_entries ((k, v) ∷ m) = field k v (of_entries m)

abbrev pub list : List Value → Value
list vs = arr (of_items vs)

abbrev pub dict : Rep → Value
dict m = obj (of_entries m)

-- `bool(v)`
abbrev pub truthy : Value → Bool
truthy null = false
truthy (flag b) = b
truthy (int (pos zero)) = false
truthy (int _) = true
truthy (str String.[]) = false
truthy (str _) = true
truthy (bytes []) = false
truthy (bytes _) = true
truthy (arr nil) = false
truthy (arr _) = true
truthy (obj end) = false
truthy (obj _) = true
