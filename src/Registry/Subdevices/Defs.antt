-- ===== src/Registry/Subdevices/Defs.antt =====
-- registry/subdevices.py: a subdevice, and the way between its hrefs and those of the connection
pub mod Hrefs
pub mod Views
use Prim.Native.Char.{Char, code}
use localthings.Base.{
  String, Bool, false, ◌&&◌, ◌||◌, Option, none, some, List, [], ◌∷◌, any, is_some, concat, rsplit,
  strip_prefix, startswith, leb, ◌==◌, if◌then◌else◌, Rep,
}
use localthings.Base.Dict
use localthings.Base.Dict.{Dict}

pub data Kind : Type 0 where
  main indexed prefixed : Kind

pub record Subdevice : Type 0 where
  pub kind : Kind
  pub key : String
  pub seed_path : List String
  pub flat_hrefs : List String

abbrev pub main_subdevice : Subdevice
main_subdevice = record { kind = main; key = ""; seed_path = "device" ∷ "0" ∷ []; flat_hrefs = [] }

-- `canonical.rpartition("/")`, with the last segment replaced where it is "0"
indexed_actual : String → String → String
indexed_actual key canonical = elim (rsplit b'/' canonical) [
  | none ↦ if canonical == "0" then key else canonical
  | some (head, tail) ↦ if tail == "0" then concat head (concat "/" key) else canonical
]

indexed_canonical : String → String → Option String
indexed_canonical key actual = elim (rsplit b'/' actual) [
  | none ↦ if actual == key then some "0" else none
  | some (head, tail) ↦ if tail == key then some (concat head "/0") else none
]

actual_of : Kind → String → String → String
unfolding indexed_actual
actual_of main key canonical = canonical
actual_of indexed key canonical = indexed_actual key canonical
actual_of prefixed key canonical = concat "/" (concat key canonical)

unfoldable pub to_actual : Subdevice → String → String
unfolding actual_of
to_actual s canonical = actual_of s.kind s.key canonical

-- `actual.startswith(prefix + "/")`, with the rest from the "/" on
unfoldable pub behind_prefix : String → String → Option String
behind_prefix key actual = elim (strip_prefix (concat "/" key) actual) [
  | none ↦ none
  | some rest ↦ if startswith rest "/" then some rest else none
]

canonical_of : Kind → String → String → Option String
unfolding indexed_canonical behind_prefix
canonical_of main key actual = some actual
canonical_of indexed key actual = indexed_canonical key actual
canonical_of prefixed key actual = behind_prefix key actual

unfoldable pub to_canonical : Subdevice → String → Option String
unfolding canonical_of
to_canonical s actual = canonical_of s.kind s.key actual

owned_by : Kind → Option String → Bool
owned_by main canonical = false
owned_by _ canonical = is_some canonical

unfoldable pub owns : Subdevice → String → Bool
unfolding owned_by to_canonical
owns s actual = owned_by s.kind (to_canonical s actual)

is_alnum : Char → Bool
is_alnum c =
    (leb b'a' (code c) && leb (code c) b'z')
    || ((leb b'A' (code c) && leb (code c) b'Z') || (leb b'0' (code c) && leb (code c) b'9'))

-- `re.sub(r"[^a-zA-Z0-9]", "", key)`
slug : String → String
unfolding is_alnum
slug String.[] = String.[]
slug (String.◌∷◌ c s) = let rest = slug s in if is_alnum c then String.◌∷◌ c rest else rest

prefix_of : Kind → String → String
unfolding slug
prefix_of main key = ""
prefix_of indexed key = concat "subdevice" (concat key "_")
prefix_of prefixed key = concat "subdevice_" (concat (slug key) "_")

unfoldable pub key_prefix : Subdevice → String
unfolding prefix_of
key_prefix s = prefix_of s.kind s.key

main_view : Dict Rep → List Subdevice → Dict Rep
unfolding owns
main_view [] subdevices = []
main_view ((href, rep) ∷ resources) subdevices =
    let rest = main_view resources subdevices in
    if any (λ s. owns s href) subdevices then rest else (href, rep) ∷ rest

sub_view : Subdevice → Dict Rep → Dict Rep → Dict Rep
unfolding to_canonical
sub_view s view [] = view
sub_view s view ((actual, rep) ∷ resources) = elim (to_canonical s actual) [
  | none ↦ sub_view s view resources
  | some canon ↦ sub_view s (Dict.put view canon rep) resources
]

view_of : Kind → Subdevice → Dict Rep → List Subdevice → Dict Rep
unfolding main_view sub_view
view_of main s resources subdevices = main_view resources subdevices
view_of _ s resources subdevices = sub_view s [] resources

unfoldable pub canonical_view : Subdevice → Dict Rep → List Subdevice → Dict Rep
unfolding view_of
canonical_view s resources subdevices = view_of s.kind s resources subdevices

add_prefix : String → Dict Rep → Dict Rep → Dict Rep
add_prefix key out [] = out
add_prefix key out ((href, rep) ∷ batch) =
    add_prefix key
      (Dict.put out
        (if startswith href (concat "/" (concat key "/"))
          then href
          else concat "/" (concat key href))
        rep)
      batch

normalized : Kind → String → Dict Rep → Dict Rep
unfolding add_prefix
normalized prefixed key batch = add_prefix key [] batch
normalized _ key batch = batch

unfoldable pub normalize_seed_batch : Subdevice → Dict Rep → Dict Rep
unfolding normalized
normalize_seed_batch s batch = normalized s.kind s.key batch
