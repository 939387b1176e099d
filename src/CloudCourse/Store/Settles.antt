-- ===== src/CloudCourse/Store/Settles.antt =====
-- The payloads that `observe` stores are stable: the same rep again changes nothing.
use localthings.Base.{
  String, true, false, ◌≡◌, refl, ap, ◌∙◌, Option, none, some, List, [], ◌∷◌, arith, all, eq_iff,
  ◌==◌, if◌then◌else◌, Option-cases, Bool-cases, inl, inr, ◌⊎◌, Rep, Value, not,
}
use localthings.Base.Dict
use localthings.Base.Dict.{Dict, get-put}
use localthings.CloudCourse.Blob.{HexText, option_value, slot_of, advertised_slots}
use localthings.CloudCourse.Store.{
  CloudCourses, Program, observe, observe_options, learn_blob, learn_at, set_blob, same_blobs,
  blob_at, same_option, is_offered,
}
use localthings.CloudCourse.Store.Candidates.{
  options_in, observe_idle, observe_with, same_option_self,
}

put-put {ℓ} :
    {V : Type ℓ} (m : Dict V) (k : String) (v w : V)
    → Dict.put (Dict.put m k v) k w ≡ Dict.put m k w
unfolding Dict.put
put-put [] k v w = ground (arith, eq_iff k k)
put-put ((j, u) ∷ m) k v w = elim (Bool-cases (j == k)) [
  | inl e ↦ rw (e, (eq_iff k k).1 refl) refl
  | inr e ↦ rw (e, e) (ap (λ l. (j, u) ∷ l) (put-put m k v w))
]

put-get {ℓ} :
    {V : Type ℓ} (m : Dict V) (k : String) (v : V) → Dict.get m k ≡ some v → Dict.put m k v ≡ m
unfolding Dict.put Dict.get
put-get [] k v h = absurd (ground (arith, h))
put-get ((j, u) ∷ m) k v h = elim (Bool-cases (j == k)) [
  | inl e ↦ ground (arith, e, h, eq_iff j k)
  | inr e ↦ ground (arith, e, h, put-get m k v)
]

-- one payload of a slot
place : String → String → Dict Program → Dict Program
place slot blob s = Dict.put s slot (set_blob (Dict.get s slot) blob)

set_blob_same :
    (r : Option Program) (b c : String) → set_blob (some (set_blob r b)) c ≡ set_blob r c
unfolding set_blob
set_blob_same none b c = refl
set_blob_same (some r) b c = refl

get-place :
    (slot blob j : String) (s : Dict Program)
    → Dict.get (place slot blob s) j
      ≡ (if slot == j then some (set_blob (Dict.get s slot) blob) else Dict.get s j)
unfolding place
get-place slot blob j s = get-put s slot j (set_blob (Dict.get s slot) blob)

get-place_self :
    (slot blob : String) (s : Dict Program)
    → Dict.get (place slot blob s) slot ≡ some (set_blob (Dict.get s slot) blob)
get-place_self slot blob s = ground (arith, get-place slot blob slot s, eq_iff slot slot)

get-put_self :
    (s : Dict Program) (slot : String) (r : Program) → Dict.get (Dict.put s slot r) slot ≡ some r
get-put_self s slot r = ground (arith, get-put s slot slot r, eq_iff slot slot)

-- a later payload of the same slot replaces the earlier one
place-place :
    (slot b c : String) (s : Dict Program) → place slot c (place slot b s) ≡ place slot c s
unfolding place
place-place slot b c s =
    rw (get-put_self s slot (set_blob (Dict.get s slot) b), set_blob_same (Dict.get s slot) b c)
      (put-put s slot (set_blob (Dict.get s slot) b) (set_blob (Dict.get s slot) c))

-- a payload that is there already changes nothing
place_there :
    (slot blob : String) (s t : Dict Program)
    → Dict.get s slot ≡ some (set_blob (Dict.get t slot) blob)
    → place slot blob s ≡ s
unfolding place
place_there slot blob s t h =
    rw (h, set_blob_same (Dict.get t slot) blob blob)
      (put-get s slot (set_blob (Dict.get t slot) blob) h)

two_places :
    (a b : String) (x y : String) (s : Dict Program)
    → place b y (place a x (place b y (place a x s))) ≡ place b y (place a x s)
two_places a b x y s = elim (Bool-cases (b == a)) [
  | inl e ↦
      rw ((eq_iff b a).0 e)
        (place-place a x y (place a y (place a x s)) ∙ place-place a y y (place a x s))
  | inr e ↦
      let here = get-place b y a (place a x s) in
      let there = get-place_self a x s in
      rw (place_there a x (place b y (place a x s)) s (ground (arith, e, here, there)))
        (place-place b y y (place a x s))
]

module _ (h : HexText) (known : List String) where
  -- what one payload does, whatever is stored
  record Places (o : Option String) (slot blob : String) : Type 0 where
    places : (s : Dict Program) → learn_blob h known o s ≡ place slot blob s

  learn_blob_cases :
      (o : Option String)
      → ((s : Dict Program) → learn_blob h known o s ≡ s)
        ⊎ ((slot : String) × (blob : String) × Places o slot blob)
  unfolding learn_blob learn_at place
  learn_blob_cases none = inl (λ s. refl)
  learn_blob_cases (some blob) = elim (Option-cases (slot_of h (some blob))) [
    | inl e ↦ inl (λ s. ground (arith, e))
    | inr (slot, e) ↦ elim (Bool-cases (is_offered h known slot)) [
      | inl offered ↦ inr (slot, h.upper blob, record { places = λ s. ground (arith, e, offered) })
      | inr refused ↦ inl (λ s. ground (arith, e, refused))
    ]
  ]

  -- the payload of the default token, and then that of the one-time one
  learn_both_again :
      (o p : Option String) (s : Dict Program)
      → learn_blob h known p (learn_blob h known o (learn_blob h known p (learn_blob h known o s)))
        ≡ learn_blob h known p (learn_blob h known o s)
  learn_both_again o p s = elim (learn_blob_cases o) [
    | inl f ↦ elim (learn_blob_cases p) [
      | inl g ↦ rw (f s, g s, f s, g s) refl
      | inr (b, y, g) ↦
          rw (f s, g.places s, f (place b y s), g.places (place b y s)) (place-place b y y s)
    ]
    | inr (a, x, f) ↦ elim (learn_blob_cases p) [
      | inl g ↦
          let t = place a x s in
          rw (f.places s, g t, f.places t, g (place a x t)) (place-place a x x s)
      | inr (b, y, g) ↦
          let t = place b y (place a x s) in
          rw (f.places s, g.places (place a x s), f.places t, g.places (place a x t))
            (two_places a b x y s)
    ]
  ]

all_same_blobs :
    (m : Dict Program) (ks : List String)
    → all (λ s. same_option (blob_at m s) (blob_at m s)) ks ≡ true
all_same_blobs m [] = refl
all_same_blobs m (k ∷ ks) = ground (arith, same_option_self (blob_at m k), all_same_blobs m ks)

same_blobs_self : (m : Dict Program) → same_blobs m m ≡ true
unfolding same_blobs
same_blobs_self m = ground (arith, all_same_blobs m (Dict.keys m))

options_settle :
    (h : HexText) (known : List String) (options : List Value) (m : CloudCourses)
    → let m' = (observe_options h known options m).1 in
      let again = observe_options h known options m' in
      (again.0 ≡ false) × (again.1.slots ≡ m'.slots)
unfolding observe_options
options_settle h known options m =
    let e =
      learn_both_again h known (option_value options "CloudCourse")
        (option_value options "OneTimeCloudCourse") m.slots in
    (rw (e) (ap not (same_blobs_self _)), e)

-- A rep that comes twice in a row reports no change the second time and leaves the programs as
-- they are, even where its two tokens name one slot with different payloads.
pub observe_again-settles :
    (h : HexText) (rep : Rep) (m : CloudCourses)
    → ((observe h rep (observe h rep m).1).0 ≡ false)
      × ((observe h rep (observe h rep m).1).1.slots ≡ (observe h rep m).1.slots)
observe_again-settles h rep m = elim (Option-cases (options_in rep)) [
  | inl e ↦ rw (observe_idle h rep m e, observe_idle h rep m e) (refl, refl)
  | inr (options, e) ↦ rw (observe_with h rep options m e) (
      rw (observe_with h rep options (observe_options h (advertised_slots h rep) options m).1 e)
        (options_settle h (advertised_slots h rep) options m))
]
