-- ===== src/Learned.antt =====
-- learned.py: modes that a device reports but does not advertise
pub mod Laws
use localthings.Base.{
  String, Bool, not, ◌&&◌, Option, some, List, [], ◌∷◌, ◌++◌, keep, mem, default, ◌==◌, Rep, Value,
  str, arr, obj, items, entries, dict, list, map,
}
use localthings.Base.Dict
use localthings.Base.Dict.{Dict}

abbrev pub modes_field : String
modes_field = "x.com.samsung.da.modes"

abbrev pub supported_field : String
supported_field = "x.com.samsung.da.supportedModes"

-- the texts of a list
unfoldable pub texts : List Value → List String
texts [] = []
texts (str s ∷ vs) = s ∷ texts vs
texts (_ ∷ vs) = texts vs

-- `_codes`
unfoldable pub codes_of : Option Value → List String
unfolding texts
codes_of (some (str s)) = s ∷ []
codes_of (some (arr vs)) = texts (items vs)
codes_of _ = []

-- what `LearnedModes` keeps, `_learned`
abbrev pub LearnedModes : Type 0
LearnedModes = Dict (List String)

abbrev pub is_code : String → Bool
is_code c = not (c == "")

put_valid : String → List String → LearnedModes → LearnedModes
put_valid href [] restored = restored
put_valid href (c ∷ cs) restored = Dict.put restored href (c ∷ cs)

coerce_entries : LearnedModes → Rep → LearnedModes
unfolding codes_of put_valid
coerce_entries restored [] = restored
coerce_entries restored ((href, codes) ∷ stored) =
    coerce_entries (put_valid href (keep is_code (codes_of (some codes))) restored) stored

-- `_coerce`
unfoldable pub coerce_stored : Option Value → LearnedModes
unfolding coerce_entries
coerce_stored (some (obj fs)) = coerce_entries [] (entries fs)
coerce_stored _ = []

is_new : List String → List String → String → Bool
is_new supported known code = is_code code && not (mem code supported) && not (mem code known)

learn : String → List String → List String → LearnedModes → List String × LearnedModes
learn href known [] m = ([], m)
learn href known (c ∷ cs) m = (c ∷ cs, Dict.put m href (known ++ c ∷ cs))

-- `codes`
unfoldable pub codes : LearnedModes → String → List String
codes m href = default [] (Dict.get m href)

observe_supported : String → List String → List String → LearnedModes → List String × LearnedModes
unfolding is_new learn codes
observe_supported href [] reported m = ([], m)
observe_supported href (s ∷ supported) reported m =
    learn href (codes m href) (keep (is_new (s ∷ supported) (codes m href)) reported) m

-- `observe`: the codes that are new, and the store with them
unfoldable pub observe : String → Rep → LearnedModes → List String × LearnedModes
unfolding observe_supported codes_of
observe href rep m =
    observe_supported href (codes_of (Dict.get rep supported_field))
      (codes_of (Dict.get rep modes_field)) m

-- `snapshot`, as the value that the config entry stores
snapshot_entries : LearnedModes → Rep
snapshot_entries [] = []
snapshot_entries ((href, cs) ∷ m) = (href, list (map str cs)) ∷ snapshot_entries m

unfoldable pub snapshot : LearnedModes → Value
unfolding snapshot_entries
snapshot m = dict (snapshot_entries m)

unfoldable pub clear : LearnedModes → LearnedModes
clear m = []
