-- ===== src/Learned/Laws.antt =====
-- What a device's store of learned modes holds after a rep.
use localthings.Base.{
  String, Bool, true, false, not, ◌&&◌, ◌||◌, ◌≡◌, refl, List, [], ◌∷◌, ◌++◌, keep, mem, default,
  ◌==◌, eq_iff, arith, Rep, Bool-cases, inl, inr,
}
use localthings.Base.Dict
use localthings.Base.Dict.{get-put}
use localthings.Learned.{
  LearnedModes, codes_of, is_code, is_new, learn, codes, observe, observe_supported, modes_field,
  supported_field,
}

abbrev pub is_listed : List String → Bool
is_listed [] = false
is_listed (s ∷ ss) = true

-- a mode that the device reports beside a supported list without it
abbrev pub is_unadvertised : Rep → String → Bool
is_unadvertised rep c =
    let supported = codes_of (Dict.get rep supported_field) in
    is_listed supported
    && (is_code c && (mem c (codes_of (Dict.get rep modes_field)) && not (mem c supported)))

mem-append : (c : String) (xs ys : List String) → mem c (xs ++ ys) ≡ (mem c xs || mem c ys)
mem-append c [] ys = refl
mem-append c (x ∷ xs) ys = ground (arith, mem-append c xs ys)

mem-keep :
    (c : String) (p : String → Bool) (xs : List String) → mem c (keep p xs) ≡ (p c && mem c xs)
mem-keep c p [] = ground arith
mem-keep c p (x ∷ xs) = elim (Bool-cases (x == c)) [
  | inl same ↦ rw ((eq_iff x c).0 same) (ground (arith, mem-keep c p xs))
  | inr other ↦ ground (arith, mem-keep c p xs)
]

learn-codes :
    (href j c : String) (new : List String) (m : LearnedModes)
    → mem c (codes (learn href (codes m href) new m).1 j)
      ≡ (mem c (codes m j) || (href == j && mem c new))
unfolding learn codes
learn-codes href j c [] m = ground arith
learn-codes href j c (n ∷ ns) m = elim (Bool-cases (href == j)) [
  | inl same ↦ rw ((eq_iff href j).0 same) (
      ground (
        arith,
        eq_iff j j,
        get-put m j j (default [] (Dict.get m j) ++ n ∷ ns),
        mem-append c (default [] (Dict.get m j)) (n ∷ ns),
      ))
  | inr other ↦ ground (arith, get-put m href j (default [] (Dict.get m href) ++ n ∷ ns))
]

observe_supported-codes :
    (href j c : String) (supported reported : List String) (m : LearnedModes)
    → mem c (codes (observe_supported href supported reported m).1 j) ≡ (
        mem c (codes m j)
        || (href == j
            && (is_listed supported && (is_code c && (mem c reported && not (mem c supported))))))
unfolding observe_supported is_new
observe_supported-codes href j c [] reported m = ground arith
observe_supported-codes href j c (s ∷ ss) reported m =
    let new = keep (is_new (s ∷ ss) (codes m href)) reported in
    ground (
      arith,
      eq_iff href j,
      learn-codes href j c new m,
      mem-keep c (is_new (s ∷ ss) (codes m href)) reported,
    )

-- After a rep the store holds the modes that it held and, under the href of the rep, each mode
-- that the rep reports and its supported list, which is not empty, lacks; and nothing else.
pub codes-observe :
    (href j c : String) (rep : Rep) (m : LearnedModes)
    → mem c (codes (observe href rep m).1 j)
      ≡ (mem c (codes m j) || (href == j && is_unadvertised rep c))
unfolding observe
codes-observe href j c rep m =
    observe_supported-codes href j c (codes_of (Dict.get rep supported_field))
      (codes_of (Dict.get rep modes_field)) m

learn_new :
    (href : String) (known new : List String) (m : LearnedModes) → (learn href known new m).0 ≡ new
unfolding learn
learn_new href known [] m = refl
learn_new href known (c ∷ cs) m = refl

new_supported :
    (href c : String) (supported reported : List String) (m : LearnedModes)
    → mem c (observe_supported href supported reported m).0 ≡ (
        (is_listed supported && (is_code c && (mem c reported && not (mem c supported))))
        && not (mem c (codes m href)))
unfolding observe_supported is_new
new_supported href c [] reported m = refl
new_supported href c (s ∷ ss) reported m = ground (
  arith,
  learn_new href (codes m href) (keep (is_new (s ∷ ss) (codes m href)) reported) m,
  mem-keep c (is_new (s ∷ ss) (codes m href)) reported,
)

-- What `observe` returns are the modes that are unadvertised and were not held.
pub new-observe :
    (href c : String) (rep : Rep) (m : LearnedModes)
    → mem c (observe href rep m).0 ≡ (is_unadvertised rep c && not (mem c (codes m href)))
unfolding observe
new-observe href c rep m =
    new_supported href c (codes_of (Dict.get rep supported_field))
      (codes_of (Dict.get rep modes_field)) m

nothing_listed : (xs : List String) → ((c : String) → mem c xs ≡ false) → xs ≡ []
nothing_listed [] h = refl
nothing_listed (x ∷ xs) h = ground (arith, h x, eq_iff x x)

-- A rep that was observed teaches nothing when it comes again.
observe_again :
    (href : String) (rep : Rep) (m : LearnedModes)
    → (observe href rep (observe href rep m).1).0 ≡ []
observe_again href rep m = nothing_listed _ λ c. ground (
  arith,
  new-observe href c rep (observe href rep m).1,
  codes-observe href href c rep m,
  eq_iff href href,
)
