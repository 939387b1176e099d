-- ===== src/Registry/Flat.antt =====
-- registry/flat.py: devices that are read one href at a time
use localthings.Base.{
  ℕ, ◌+◌, ◌*◌, ◌-◌, String, Bool, true, false, not, ◌&&◌, ◌||◌, Option, none, some, List, [], ◌∷◌,
  ◌==◌, if◌then◌else◌, mem, add, length, leb, ltb, eqb, strip, split, startswith, keep, sort_texts,
  truthy, Value, Rep, Fields, str, obj, end, field,
}
use localthings.Base.Dict
use localthings.Base.Dict.{Dict}
use localthings.Registry.Subdevices.Probing.{iter_oic_res_hrefs}

skip_exact : List String
skip_exact =
    "/oic/d" ∷ "/oic/p" ∷ "/oic/res" ∷ "/CoapCloudConfResURI" ∷ "/DevConfResURI"
    ∷ "/EasySetupResURI" ∷ "/sec/accesspointlist" ∷ "/sec/provisioninginfo" ∷ []

-- the texts under `href`, each once
hrefs_in : List Rep → List String
hrefs_in [] = []
hrefs_in (link ∷ links) = elim (Dict.get link "href") [
  | some (str href) ↦ add href (hrefs_in links)
  | _ ↦ hrefs_in links
]

is_skipped : String → Bool
unfolding skip_exact
is_skipped h = mem h skip_exact || (startswith h "/oic/sec/" || startswith h "/device/")

flat_hrefs : List Value → List String
unfolding hrefs_in is_skipped
flat_hrefs links = sort_texts (keep (λ h. not (is_skipped h)) (hrefs_in (iter_oic_res_hrefs links)))

abbrev secret_keys : List String
secret_keys = "cd" ∷ "x.com.samsung.bssid" ∷ "ssid" ∷ "bssid" ∷ "wifidirectssid" ∷ []

strip_fields : Fields → Fields
strip_fields end = end
strip_fields (field k v fs) =
    let rest = strip_fields fs in if mem k secret_keys then rest else field k v rest

-- `_strip`
strip_value : Value → Value
unfolding strip_fields
strip_value (obj fs) = obj (strip_fields fs)
strip_value v = v

strip_nested : Fields → Rep
unfolding strip_value
strip_nested end = []
strip_nested (field k v fs) = (k, strip_value v) ∷ strip_nested fs

-- The state W of the transport and of the clock, in milliseconds; a read that raises is none.
-- `str(v).lower()` stands for the last field.
record Reader (W : Type 0) : Type 0 where
  now : W → ℕ
  pace : W → W
  read : List String → ℕ → W → W × Option (ℕ × Value)
  lowered : Value → String

module _ {W : Type 0} (r : Reader W) where
  -- the network's name as "wifi"
  hide_network : Rep → Rep
  hide_network rep = elim (Dict.get rep "tnn") [
    | none ↦ rep
    | some tnn ↦
        if truthy tnn && not (r.lowered tnn == "ethernet")
        then Dict.put rep "tnn" (str "wifi")
        else rep
  ]

  without_secrets : Fields → Rep
  unfolding hide_network strip_nested strip_fields
  without_secrets fs = hide_network (strip_nested (strip_fields fs))

  -- what one answer yields
  yielded : String → Option (ℕ × Value) → Dict Rep → Dict Rep
  unfolding without_secrets
  yielded href (some (code, obj fs)) rest =
      if eqb code 69 then (href, without_secrets fs) ∷ rest else rest
  yielded href _ rest = rest

  -- the time that is left for a read, none once it is spent
  time_left : ℕ → Option ℕ → W → Option ℕ
  time_left timeout none w = some timeout
  time_left timeout (some deadline) w =
      if leb deadline (r.now w) then none else some (deadline - r.now w)

  at_most : ℕ → ℕ → ℕ
  at_most a b = if leb a b then a else b

  -- the loop over the hrefs, until `stop`
  read_each : (W → Bool) → ℕ → Option ℕ → Bool → List String → W → W × Dict Rep
  unfolding time_left at_most yielded
  read_each stop timeout deadline first [] w = (w, [])
  read_each stop timeout deadline first (h ∷ hs) w =
      let left = elim (time_left timeout deadline w) as (λ o. ℕ) [ none ↦ 0 | some n ↦ n ] in
      let (w', answer) =
        r.read (split b'/' (strip b'/' h)) (at_most timeout left) (if first then w else r.pace w) in
      let (w2, rest) = read_each stop timeout deadline false hs w' in
      if stop w then (w, []) else elim (time_left timeout deadline w) [
        | none ↦ (w, [])
        | some n ↦ (w2, yielded h answer rest)
      ]

  iter_resources : (W → Bool) → List String → ℕ → Option ℕ → W → W × Dict Rep
  unfolding read_each
  iter_resources stop hrefs timeout budget w =
      read_each stop timeout (elim budget [ none ↦ none | some b ↦ some (r.now w + b) ]) true hrefs
        w

  -- `read_all`, with a timeout of 2.5 s and a budget of 60 s
  read_all : List Value → W → W × Dict Rep
  unfolding iter_resources
  read_all links w =
      let hrefs = flat_hrefs links in
      let (w', resources) = iter_resources (λ w. false) hrefs 2500 (some 60000) w in
      (w', if ltb (2 * length resources) (length hrefs) then [] else resources)
