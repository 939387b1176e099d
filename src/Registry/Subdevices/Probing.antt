-- ===== src/Registry/Subdevices/Probing.antt =====
-- registry/subdevices.py: `enumerate_subdevices`, which probes for sibling subdevices
use Prim.Native.Char.{Char, code}
use localthings.Base.{
  occurs, ℕ, zero, suc, String, Bool, false, not, ◌&&◌, ◌||◌, Option, none, some, List, [], ◌∷◌,
  ◌++◌, any, mem, add, is_some, concat, strip_prefix, leb, ◌==◌, if◌then◌else◌, Rep, Value, str,
  arr, obj, items, entries, sort_texts, insert_number, parse_decimal, default,
}
use localthings.Base.Data.Equal.{eq}
use localthings.Base.Dict
use localthings.Base.Dict.{Dict}

-- `_iter_oic_res_hrefs`: the link dicts, grouped or bare
links_in : List Value → List Rep
links_in [] = []
links_in (obj fs ∷ vs) = entries fs ∷ links_in vs
links_in (_ ∷ vs) = links_in vs

grouped_links : Option Value → Rep → List Rep
unfolding links_in
grouped_links (some (arr vs)) entry = links_in (items vs)
grouped_links (some _) entry = []
grouped_links none entry = if Dict.has entry "href" then entry ∷ [] else []

unfoldable pub iter_oic_res_hrefs : List Value → List Rep
unfolding grouped_links
iter_oic_res_hrefs [] = []
iter_oic_res_hrefs (obj fs ∷ vs) =
    grouped_links (Dict.get (entries fs) "links") (entries fs) ++ iter_oic_res_hrefs vs
iter_oic_res_hrefs (_ ∷ vs) = iter_oic_res_hrefs vs

is_hex : Char → Bool
is_hex c =
    (leb b'0' (code c) && leb (code c) b'9')
    || ((leb b'a' (code c) && leb (code c) b'f') || (leb b'A' (code c) && leb (code c) b'F'))

-- n hexadecimal digits, and what follows them
take_hex : ℕ → String → Option (String × String)
unfolding is_hex
take_hex zero s = some ("", s)
take_hex (suc n) String.[] = none
take_hex (suc n) (String.◌∷◌ c s) =
    if is_hex c
    then elim (take_hex n s) [ none ↦ none | some (h, rest) ↦ some (String.◌∷◌ c h, rest) ]
    else none

-- further groups of a UUID, each behind a dash
take_groups : List ℕ → String → Option (String × String)
unfolding take_hex
take_groups [] s = some ("", s)
take_groups (n ∷ ns) s = elim (strip_prefix "-" s) [
  | none ↦ none
  | some s' ↦ elim (take_hex n s') [
    | none ↦ none
    | some (h, s'') ↦ elim (take_groups ns s'') [
      | none ↦ none
      | some (hs, rest) ↦ some (concat "-" (concat h hs), rest)
    ]
  ]
]

-- `_UUID_PREFIX_RE.match`: a UUID as the first segment, with another behind it
unfoldable pub uuid_prefix : String → Option String
unfolding take_groups
uuid_prefix href = elim (strip_prefix "/" href) [
  | none ↦ none
  | some s ↦ elim (take_hex 8 s) [
    | none ↦ none
    | some (h, s') ↦ elim (take_groups (4 ∷ 4 ∷ 4 ∷ 12 ∷ []) s') [
      | none ↦ none
      | some (hs, rest) ↦ if is_some (strip_prefix "/" rest) then some (concat h hs) else none
    ]
  ]
]

-- `_INDEXED_HREF_RE.match`
unfoldable pub device_index : String → Option ℕ
device_index href = elim (strip_prefix "/device/" href) [
  | none ↦ none
  | some tail ↦ parse_decimal tail
]

abbrev link_href : Rep → String
link_href link = elim (Dict.get link "href") [ some (str s) ↦ s | _ ↦ "" ]

-- `in` on the value of `rt`: an element, a part of a text, or a key; another value, where it
-- raises, counts as none
is_multidevice : Option Value → Bool
is_multidevice (some (arr ts)) = any (eq (str "x.com.samsung.da.multidevice")) (items ts)
is_multidevice (some (str s)) = occurs "x.com.samsung.da.multidevice" s
is_multidevice (some (obj fs)) = Dict.has (entries fs) "x.com.samsung.da.multidevice"
is_multidevice _ = false

unfoldable pub linked_ids : List Rep → List String
unfolding is_multidevice
linked_ids [] = []
linked_ids (link ∷ links) =
    let rest = linked_ids links in
    elim (uuid_prefix (link_href link)) [
      | none ↦ rest
      | some id ↦ if is_multidevice (Dict.get link "rt") then add id rest else rest
    ]

unfoldable pub link_indices : List Rep → List ℕ
link_indices [] = []
link_indices (link ∷ links) =
    let rest = link_indices links in
    elim (device_index (link_href link)) [
      | none ↦ rest
      | some n ↦ if leb 1 n then insert_number n rest else rest
    ]

-- `subdeviceIdList`, sorted; anything but a list of texts yields nothing
text_ids : List Value → List String
text_ids [] = []
text_ids (str s ∷ vs) = let rest = text_ids vs in if s == "" then rest else s ∷ rest
text_ids (_ ∷ vs) = text_ids vs

list_ids : Option Value → List String
unfolding text_ids
list_ids (some (arr vs)) = sort_texts (text_ids (items vs))
list_ids _ = []

unfoldable pub listed_ids : Dict Rep → List String
unfolding list_ids
listed_ids resources = list_ids (
    Dict.get (default [] (Dict.get resources "/subdevices/vs/0"))
      "x.com.samsung.da.subdeviceIdList")

preferred_first : List String → Dict Rep → List String → List String
preferred_first [] resources seen = []
preferred_first (h ∷ hs) resources seen =
    let rest = preferred_first hs resources seen in
    let more = preferred_first hs resources (h ∷ seen) in
    if Dict.has resources h && not (mem h seen) then h ∷ more else rest

others_of : List String → List String → List String
others_of seen [] = []
others_of seen (h ∷ hs) = let rest = others_of seen hs in if mem h seen then rest else h ∷ rest

-- `_flat_probe_hrefs`: the preferred hrefs that the master has, then its others in order
unfoldable pub flat_probe_hrefs : List String → Dict Rep → List String
unfolding preferred_first others_of
flat_probe_hrefs preferred resources =
    let first = preferred_first preferred resources [] in
    first ++ others_of first (sort_texts (Dict.keys resources))
