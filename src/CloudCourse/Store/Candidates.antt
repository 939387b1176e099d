-- ===== src/CloudCourse/Store/Candidates.antt =====
-- When a code counts as a candidate for the download course.
use localthings.Base.{
  ℕ, String, Bool, true, false, not, ◌&&◌, ◌≡◌, refl, ap, ◌∙◌, Option-cases, inl, inr, Option, none,
  some, List, [], arith, eq_iff, if◌then◌else◌, Rep, Value, truthy,
}
use localthings.Base.Dict
use localthings.Base.Dict.{get-put}
use localthings.CloudCourse.Blob.{HexText, option_value, as_options, is_loaded, advertised_slots}
use localthings.CloudCourse.Store.{
  CloudCourses, unobserved, observe, observe_options, restore, is_change, same_option,
  count_candidate,
}

-- the options of a rep where `observe` reads them
abbrev pub options_in : Rep → Option (List Value)
options_in rep = elim (Dict.get rep "x.com.samsung.da.options") [
  | none ↦ none
  | some v ↦ if truthy v then some (as_options (some v)) else none
]

pub observe_idle :
    (h : HexText) (rep : Rep) (m : CloudCourses)
    → options_in rep ≡ none
    → observe h rep m ≡ (false, m)
unfolding observe
observe_idle h rep m e = ground (arith, e)

pub observe_with :
    (h : HexText) (rep : Rep) (options : List Value) (m : CloudCourses)
    → options_in rep ≡ some options
    → observe h rep m ≡ observe_options h (advertised_slots h rep) options m
unfolding observe
observe_with h rep options m e = ground (arith, e)

pub same_option_self : (o : Option String) → same_option o o ≡ true
unfolding same_option
same_option_self none = refl
same_option_self (some s) = (eq_iff s s).1 refl

uncounted :
    (h : HexText) (o : Option String) (loaded change : Bool) (c : Dict.Dict ℕ)
    → change ≡ false
    → count_candidate h o (loaded && change) c ≡ c
unfolding count_candidate
uncounted h none loaded change c e = refl
uncounted h (some s) loaded change c e = ground (arith, e)

options_first :
    (h : HexText) (known : List String) (options : List Value) (m : CloudCourses)
    → m.last_oneshot ≡ unobserved
    → (observe_options h known options m).1.candidates ≡ m.candidates
unfolding observe_options is_change
options_first h known options m e =
    uncounted h (option_value options "Course")
      (is_loaded h (option_value options "OneTimeCloudCourse"))
      (is_change m.last_oneshot (option_value options "OneTimeCloudCourse")) m.candidates
      (rw (e, is_change) refl)

options_again :
    (h : HexText) (known : List String) (options : List Value) (m : CloudCourses)
    → (observe_options h known options (observe_options h known options m).1).1.candidates
      ≡ (observe_options h known options m).1.candidates
unfolding observe_options is_change
options_again h known options m =
    uncounted h (option_value options "Course")
      (is_loaded h (option_value options "OneTimeCloudCourse"))
      (not (
        same_option (option_value options "OneTimeCloudCourse")
          (option_value options "OneTimeCloudCourse")))
      _ (ap not (same_option_self (option_value options "OneTimeCloudCourse")))

restored_unobserved :
    (h : HexText) (stored : Option Value) → (restore h stored).last_oneshot ≡ unobserved
unfolding restore
restored_unobserved h stored = ground arith

restored_candidates : (h : HexText) (stored : Option Value) → (restore h stored).candidates ≡ []
unfolding restore
restored_candidates h stored = ground arith

-- No code is a candidate because of the first rep after a start, whatever was stored.
observe_first-candidates :
    (h : HexText) (stored : Option Value) (rep : Rep)
    → (observe h rep (restore h stored)).1.candidates ≡ []
observe_first-candidates h stored rep = elim (Option-cases (options_in rep)) [
  | inl e ↦ rw (observe_idle h rep (restore h stored) e) (restored_candidates h stored)
  | inr (options, e) ↦ rw (observe_with h rep options (restore h stored) e) (
      options_first h (advertised_slots h rep) options (restore h stored)
        (restored_unobserved h stored)
      ∙ restored_candidates h stored)
]

-- A rep that comes twice in a row counts no code the second time.
observe_again-candidates :
    (h : HexText) (rep : Rep) (m : CloudCourses)
    → (observe h rep (observe h rep m).1).1.candidates ≡ (observe h rep m).1.candidates
observe_again-candidates h rep m = elim (Option-cases (options_in rep)) [
  | inl e ↦ rw (observe_idle h rep m e, observe_idle h rep m e) refl
  | inr (options, e) ↦ rw (observe_with h rep options m e) (
      rw (observe_with h rep options (observe_options h (advertised_slots h rep) options m).1 e)
        (options_again h (advertised_slots h rep) options m))
]
