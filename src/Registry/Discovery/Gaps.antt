-- ===== src/Registry/Discovery/Gaps.antt =====
-- Which hrefs `discover` reports as gaps.
use localthings.Base.{
  String, Bool, not, ◌&&◌, ◌≡◌, refl, List, [], ◌∷◌, any, default, arith, if◌then◌else◌, Rep,
}
use localthings.Base.Dict
use localthings.Base.Dict.{Dict}
use localthings.Registry.Capability.{Capability}
use localthings.Registry.Subdevices.Defs.{Subdevice, to_actual}
use localthings.Registry.Discovery.{
  join, accepts, passes_prefix, bind_all, bind_pattern, no_caps, discover_href, discover_all,
  discover,
}

-- the pattern capability takes the resource
abbrev pub fits : Dict Rep → String → Rep → Capability → Bool
fits resources href rep cap = passes_prefix cap.href_prefix href && accepts cap rep resources

-- no capability names the href, and no pattern fits it
abbrev pub is_gap : Dict Rep → Dict (List Capability) → List Capability → String → Rep → Bool
is_gap resources registry patterns href rep =
    no_caps (default [] (Dict.get registry href)) && not (any (fits resources href rep) patterns)

module _ (title : String → String) (resources : Dict Rep) (s : Subdevice) where
  bind_all-gaps :
      (href : String) (rep : Rep) (caps : List Capability)
      → (bind_all title resources href rep s caps).1.gaps ≡ []
  unfolding bind_all join
  bind_all-gaps href rep [] = refl
  bind_all-gaps href rep (cap ∷ caps) = ground (arith, bind_all-gaps href rep caps)

  bind_all_matched :
      (href : String) (rep : Rep) (caps : List Capability)
      → (bind_all title resources href rep s caps).0 ≡ any (λ cap. accepts cap rep resources) caps
  unfolding bind_all
  bind_all_matched href rep [] = refl
  bind_all_matched href rep (cap ∷ caps) = ground (arith, bind_all_matched href rep caps)

  bind_pattern-gaps :
      (href : String) (rep : Rep) (caps : List Capability)
      → (bind_pattern title resources href rep s caps).1.gaps ≡ []
  unfolding bind_pattern
  bind_pattern-gaps href rep [] = refl
  bind_pattern-gaps href rep (cap ∷ caps) = ground (arith, bind_pattern-gaps href rep caps)

  bind_pattern_matched :
      (href : String) (rep : Rep) (caps : List Capability)
      → (bind_pattern title resources href rep s caps).0 ≡ any (fits resources href rep) caps
  unfolding bind_pattern
  bind_pattern_matched href rep [] = refl
  bind_pattern_matched href rep (cap ∷ caps) = ground (arith, bind_pattern_matched href rep caps)

  module _ (registry : Dict (List Capability)) (patterns : List Capability) where
    href_gaps :
        (href : String) (rep : Rep)
        → (discover_href title resources registry patterns s href rep).gaps
          ≡ (if is_gap resources registry patterns href rep then to_actual s href ∷ [] else [])
    unfolding discover_href no_caps
    href_gaps href rep =
        let caps = default [] (Dict.get registry href) in
        ground (
          arith,
          bind_all-gaps href rep caps,
          bind_all_matched href rep caps,
          bind_pattern-gaps href rep patterns,
          bind_pattern_matched href rep patterns,
        )

    -- the gaps among these resources, as hrefs on the wire
    abbrev pub gaps_of : Dict Rep → List String
    gaps_of [] = []
    gaps_of ((href, rep) ∷ rest) =
        let more = gaps_of rest in
        if is_gap resources registry patterns href rep then to_actual s href ∷ more else more

    all_gaps :
        (rs : Dict Rep) → (discover_all title resources registry patterns s rs).gaps ≡ gaps_of rs
    unfolding discover_all join
    all_gaps [] = refl
    all_gaps ((href, rep) ∷ rest) = ground (arith, href_gaps href rep, all_gaps rest)

    -- The gaps that are reported are the resources that no capability names and no pattern fits, in
    -- order.
    pub discover-gaps : (discover title resources registry patterns s).gaps ≡ gaps_of resources
    unfolding discover
    discover-gaps = all_gaps resources
