-- ===== src/Registry/Common/Options/Laws.antt =====
-- What merging an array of option tokens does, token prefix by token prefix.
use Prim.Native.String.{String}
use localthings.Base.{
  Bool-cases, inl, inr, ◌≡◌, refl, false, none, some, List, [], ◌∷◌, arith, ◌==◌, eq_iff, ◌++◌,
  if◌then◌else◌, or_else, Value,
}
use localthings.Registry.Common.Options.{
  token_prefix, same_prefix, replace_token, has_prefix, merge_token, merge_options_field,
  first_token, last_token,
}

first-replace_self :
    (p : String) (t : Value) (os : List Value)
    → token_prefix t ≡ some p
    → first_token p (replace_token p t os) ≡ (if has_prefix p os then some t else none)
unfolding first_token replace_token has_prefix
first-replace_self p t [] h = refl
first-replace_self p t (o ∷ os) h = ground (arith, eq_iff p p, first-replace_self p t os h)

first-replace_ne :
    (p q : String) (t : Value) (os : List Value)
    → token_prefix t ≡ some p
    → (p == q) ≡ false
    → first_token q (replace_token p t os) ≡ first_token q os
unfolding first_token replace_token
first-replace_ne p q t [] h n = refl
first-replace_ne p q t (o ∷ os) h n =
    elim (token_prefix o)
        as (λ w.
          token_prefix o ≡ w
          → first_token q (replace_token p t (o ∷ os)) ≡ first_token q (o ∷ os)) [
            | none ↦ λ e. ground (arith, e, first-replace_ne p q t os h n)
            | some r ↦ λ e.
                ground (arith, e, eq_iff r p, eq_iff r q, eq_iff p q, first-replace_ne p q t os h n)
          ]
      refl

first-append :
    (q : String) (os ps : List Value)
    → first_token q (os ++ ps) ≡ or_else (first_token q os) (first_token q ps)
unfolding first_token
first-append q [] ps = refl
first-append q (o ∷ os) ps = ground (arith, first-append q os ps)

first_singleton :
    (q : String) (t : Value) → token_prefix t ≡ some q → first_token q (t ∷ []) ≡ some t
unfolding first_token
first_singleton q t e = ground (arith, e, eq_iff q q)

first_singleton_ne :
    (p q : String) (t : Value)
    → token_prefix t ≡ some p
    → (p == q) ≡ false
    → first_token q (t ∷ []) ≡ none
unfolding first_token
first_singleton_ne p q t e n = ground (arith, e)

first_of_has : (q : String) (os : List Value) → has_prefix q os ≡ false → first_token q os ≡ none
unfolding first_token has_prefix
first_of_has q [] h = refl
first_of_has q (o ∷ os) h = ground (arith, first_of_has q os)

first-merge_token_of :
    (p q : String) (os : List Value) (t : Value)
    → token_prefix t ≡ some p
    → first_token q (if has_prefix p os then replace_token p t os else os ++ t ∷ [])
      ≡ (if p == q then some t else first_token q os)
first-merge_token_of p q os t e = elim (Bool-cases (p == q)) [
  | inl same ↦
      let pq : p ≡ q = (eq_iff p q).0 same in
      ground (
        arith,
        e,
        pq,
        eq_iff p q,
        first-replace_self p t os e,
        first-append p os (t ∷ []),
        first_of_has p os,
        first_singleton p t e,
      )
  | inr other ↦ ground (
    arith,
    first-replace_ne p q t os e other,
    first-append q os (t ∷ []),
    first_singleton_ne p q t e,
  )
]

first-merge_token :
    (q : String) (os : List Value) (t : Value)
    → first_token q (merge_token os t)
      ≡ or_else (if same_prefix q (token_prefix t) then some t else none) (first_token q os)
unfolding merge_token same_prefix
first-merge_token q os t =
    elim (token_prefix t)
        as (λ w.
          token_prefix t ≡ w
          → first_token q (merge_token os t)
            ≡ or_else (if same_prefix q (token_prefix t) then some t else none)
                (first_token q os)) [
                  | none ↦ λ e. ground (arith, e)
                  | some p ↦ λ e. ground (arith, e, first-merge_token_of p q os t e)
                ]
      refl

-- The merged array holds for each prefix the last new token with it, and otherwise the token that
-- was cached.
pub first-merge_options_field :
    (q : String) (cached new_tokens : List Value)
    → first_token q (merge_options_field cached new_tokens)
      ≡ or_else (last_token q new_tokens) (first_token q cached)
unfolding merge_options_field last_token
first-merge_options_field q cached [] = refl
first-merge_options_field q cached (t ∷ ts) =
    ground
      (arith, first-merge_options_field q (merge_token cached t) ts, first-merge_token q cached t)
