-- ===== src/CloudCourse/Store.antt =====
-- cloudcourse.py: `CloudCourses`, the store of discovered programs
pub mod Settles
pub mod Candidates
use localthings.Base.{
  ℕ, ◌+◌, String, Bool, true, false, not, ◌&&◌, ◌||◌, Option, none, some, List, [], ◌∷◌, map, all,
  keep, mem, length, eqb, ltb, default, text_lt, ◌==◌, if◌then◌else◌, Rep, Value, str, obj, entries,
  truthy,
}
use localthings.Base.Dict
use localthings.Base.Dict.{Dict}
use localthings.CloudCourse.Blob.{
  HexText, as_options, option_value, slot_of, is_loaded, advertised_slots, cloud_slots,
}

pub record Program : Type 0 where
  pub blob : String
  pub name : String

-- `_UNOBSERVED`, or the one-time payload last seen
pub data Last : Type 0 where
  unobserved : Last
  seen : Option String → Last

pub record CloudCourses : Type 0 where
  pub download_course : Option String
  pub slots : Dict Program
  pub candidates : Dict ℕ
  pub last_oneshot : Last

pub same_option : Option String → Option String → Bool
same_option none none = true
same_option (some a) (some b) = a == b
same_option _ _ = false

blob_at : Dict Program → String → Option String
blob_at m slot = elim (Dict.get m slot) [ none ↦ none | some r ↦ some r.blob ]

-- `before == {slot: record["blob"], ...}`
unfoldable pub same_blobs : Dict Program → Dict Program → Bool
unfolding blob_at same_option
same_blobs a b =
    eqb (length a) (length b) && all (λ s. same_option (blob_at a s) (blob_at b s)) (Dict.keys a)

is_change : Last → Option String → Bool
unfolding same_option
is_change unobserved oneshot = false
is_change (seen before) oneshot = not (same_option oneshot before)

set_blob : Option Program → String → Program
set_blob none blob = record { blob = blob; name = "" }
set_blob (some r) blob = record r { blob = blob }

text_or_none : Option Value → Option String
text_or_none (some (str s)) = if s == "" then none else some s
text_or_none _ = none

text_of : Option Value → Option String
text_of (some (str s)) = some s
text_of _ = none

module _ (h : HexText) where
  name_text : Option String → String
  name_text none = ""
  name_text (some s) = if h.strip s == "" then "" else s

  restore_slot : String → Option String → Option String → Dict Program → Dict Program
  unfolding same_option name_text
  restore_slot slot none name slots = slots
  restore_slot slot (some blob) name slots =
      if same_option (slot_of h (some blob)) (some (h.upper slot))
      then Dict.put slots (h.upper slot) (record { blob = h.upper blob; name = name_text name })
      else slots

  restore_slots : Dict Program → Rep → Dict Program
  unfolding restore_slot text_of
  restore_slots slots [] = slots
  restore_slots slots ((slot, obj fs) ∷ raw) =
      restore_slots
        (restore_slot slot (text_of (Dict.get (entries fs) "blob"))
          (text_of (Dict.get (entries fs) "name")) slots)
        raw
  restore_slots slots ((slot, _) ∷ raw) = restore_slots slots raw

  slots_from : Option Value → Dict Program
  unfolding restore_slots
  slots_from (some (obj fs)) = restore_slots [] (entries fs)
  slots_from _ = []

  -- `_coerce` and `__init__`
  unfoldable pub restore : Option Value → CloudCourses
  unfolding slots_from text_or_none
  restore (some (obj fs)) = record {
    download_course = text_or_none (Dict.get (entries fs) "download_course");
    slots = slots_from (Dict.get (entries fs) "slots");
    candidates = [];
    last_oneshot = unobserved;
  }
  restore _ = record {
    download_course = none;
    slots = [];
    candidates = [];
    last_oneshot = unobserved;
  }

  is_offered : List String → String → Bool
  is_offered [] slot = true
  is_offered (k ∷ known) slot = mem slot (k ∷ known)

  learn_at : List String → Option String → String → Dict Program → Dict Program
  unfolding is_offered set_blob
  learn_at known none blob slots = slots
  learn_at known (some slot) blob slots =
      if is_offered known slot
      then Dict.put slots slot (set_blob (Dict.get slots slot) (h.upper blob))
      else slots

  -- one token's payload, recorded against the slot that it names
  unfoldable pub learn_blob : List String → Option String → Dict Program → Dict Program
  unfolding learn_at
  learn_blob known none slots = slots
  learn_blob known (some blob) slots = learn_at known (slot_of h (some blob)) blob slots

  count_candidate : Option String → Bool → Dict ℕ → Dict ℕ
  count_candidate none counted candidates = candidates
  count_candidate (some course) counted candidates =
      if counted && not (course == "")
      then Dict.put candidates course (default 0 (Dict.get candidates course) + 1)
      else candidates

  pub observe_options : List String → List Value → CloudCourses → Bool × CloudCourses
  unfolding is_change count_candidate
  observe_options known options m =
      let oneshot = option_value options "OneTimeCloudCourse" in
      let slots' =
        learn_blob known oneshot (learn_blob known (option_value options "CloudCourse") m.slots) in
      (
        not (same_blobs m.slots slots'),
        record m {
          slots = slots';
          candidates =
              count_candidate (option_value options "Course")
                (is_loaded h oneshot && is_change m.last_oneshot oneshot) m.candidates;
          last_oneshot = seen oneshot;
        },
      )

  -- `observe`: whether a payload changed, and the store
  unfoldable pub observe : Rep → CloudCourses → Bool × CloudCourses
  unfolding observe_options
  observe rep m = elim (Dict.get rep "x.com.samsung.da.options") [
    | none ↦ (false, m)
    | some v ↦
        if truthy v
        then observe_options (advertised_slots h rep) (as_options (some v)) m
        else (false, m)
  ]

  unfoldable pub set_name : String → String → CloudCourses → CloudCourses
  set_name slot name m = elim (Dict.get m.slots (h.upper slot)) [
    | none ↦ m
    | some r ↦ record m {
      slots = Dict.put m.slots (h.upper slot) (record r { name = h.strip name });
    }
  ]

unfoldable pub set_download_course : Option String → CloudCourses → CloudCourses
set_download_course none m = record m { download_course = none }
set_download_course (some code) m = record m {
  download_course = if code == "" then none else some code;
}

-- the order of `download_candidates`: most observed first, then by code
before : String × ℕ → String × ℕ → Bool
before (a, n) (b, k) = ltb k n || (eqb k n && text_lt a b)

insert_ranked : String × ℕ → List (String × ℕ) → List (String × ℕ)
unfolding before
insert_ranked c [] = c ∷ []
insert_ranked c (d ∷ ds) =
    let rest = insert_ranked c ds in if before c d then c ∷ d ∷ ds else d ∷ rest

rank : List (String × ℕ) → List (String × ℕ)
unfolding insert_ranked
rank [] = []
rank (c ∷ cs) = insert_ranked c (rank cs)

unfoldable pub download_candidates : CloudCourses → List String
unfolding rank
download_candidates m = map (λ (c : String × ℕ). c.0) (rank m.candidates)

named_in : Dict Program → Dict Program
named_in [] = []
named_in ((slot, r) ∷ m) = let rest = named_in m in if r.name == "" then rest else (slot, r) ∷ rest

-- `named`: the slots that can be offered, each with its name
unfoldable pub named : CloudCourses → Dict String
unfolding named_in
named m = map (λ (e : String × Program). (e.0, e.1.name)) (named_in m.slots)

-- `view`: what a write or a label can be built from
unfoldable pub view : CloudCourses → Option (String × Dict Program)
unfolding named_in
view m = elim m.download_course [
  | none ↦ none
  | some code ↦ if code == "" then none else some (code, named_in m.slots)
]

lacks_name : Dict Program → String → Bool
lacks_name m s = elim (Dict.get m s) [ none ↦ true | some r ↦ r.name == "" ]

-- `undiscovered`, over the slots of a snapshot
unfoldable pub undiscovered : HexText → Rep → Dict Program → List String → List String
unfolding lacks_name
undiscovered h rep programs courses = keep (lacks_name programs) (cloud_slots h rep courses)
