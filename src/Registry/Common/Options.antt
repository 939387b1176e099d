-- ===== src/Registry/Common/Options.antt =====
-- registry/capabilities/common.py: the arrays of `<Prefix>_<Value>` tokens
pub mod Laws
use Prim.Native.String.{String}
use localthings.Base.{
  ◌≡◌, refl, Bool, true, false, not, Option, none, some, List, [], ◌∷◌, arith, ◌==◌, eq_iff, ◌++◌,
  if◌then◌else◌, or_else, any, fold, rsplit, Value, str, null,
}

-- `o.rsplit("_", 1)[0]` of a text that holds a "_"
unfoldable pub token_prefix : Value → Option String
token_prefix (str s) = elim (rsplit b'_' s) [ none ↦ none | some (h, t) ↦ some h ]
token_prefix _ = none

same_prefix : String → Option String → Bool
same_prefix p none = false
same_prefix p (some q) = q == p

-- the inner loop over the cached tokens
replace_token : String → Value → List Value → List Value
unfolding same_prefix
replace_token p token [] = []
replace_token p token (o ∷ os) =
    (if same_prefix p (token_prefix o) then token else o) ∷ replace_token p token os

has_prefix : String → List Value → Bool
unfolding same_prefix
has_prefix p os = any (λ o. same_prefix p (token_prefix o)) os

-- one round of the outer loop; a token without a prefix is skipped
merge_token : List Value → Value → List Value
unfolding replace_token has_prefix
merge_token merged token = elim (token_prefix token) [
  | none ↦ merged
  | some p ↦ if has_prefix p merged then replace_token p token merged else merged ++ token ∷ []
]

unfoldable pub merge_options_field : List Value → List Value → List Value
unfolding merge_token
merge_options_field cached new_tokens = fold merge_token cached new_tokens

-- The first token with a prefix, and the last.
unfoldable pub first_token : String → List Value → Option Value
unfolding same_prefix
first_token p [] = none
first_token p (o ∷ os) = if same_prefix p (token_prefix o) then some o else first_token p os

unfoldable pub last_token : String → List Value → Option Value
unfolding same_prefix
last_token p [] = none
last_token p (o ∷ os) =
    or_else (last_token p os) (if same_prefix p (token_prefix o) then some o else none)
