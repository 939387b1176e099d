-- ===== src/Examples/Devices.antt =====
-- registry/ on a washer with a sibling drum
use localthings.Base.{
  zero, suc, suc, ℕ, ◌+◌, ◌≤◌, String, Bool, true, false, not, ◌≡◌, refl, Option, none, some, List,
  [], ◌∷◌, ◌++◌, map, keep, all, length, arith, Rep, str,
}
use localthings.Base.Dict
use localthings.Base.Dict.{Dict}
use localthings.Registry.Capability.{Capability, Description, BoundEntity}
use localthings.Registry.Subdevices.Defs.{Subdevice, indexed, main_subdevice}
use localthings.Registry.Subdevices.Enumerate.{
  World, enumerate_subdevices, probe_all, enumerate_from, prefixed_loop, indexed_siblings,
  indexed_loop, probe_multidevice, next_timeout, get_batch, get_raw, probed, probed,
}
use localthings.Registry.Subdevices.Enumerate.Budget.{enumerate_subdevices_late}
use localthings.Registry.Subdevices.Probing.{
  link_indices, linked_ids, iter_oic_res_hrefs, listed_ids,
}
use localthings.Registry.Discovery.{discover}
use localthings.Registry.Discovery.Gaps.{gaps_of, discover-gaps}
use localthings.Registry.Tables.{
  any_ambiguous, append_cap, table, build_global, build_typed, is_ambiguous,
}
use localthings.Registry.Tables.Groups.{
  group, is_at, is_fixed, build_global-group, build_typed-group,
}
use localthings.Registry.Partition.{DeviceRegistry}
use localthings.Registry.Partition.Gate.{
  joined, subdevice_of, found_of, is_materialized, partitioned, master, discover_partitioned-splits,
  discover_partitioned-binds,
}
use localthings.Registry.Identity.{
  TextMethods, chars, without_separators, is_lower_hex, normalized_mac,
}
use localthings.Registry.Identity.Mac.{normalized_mac-digits}

abbrev power : Description
power = record {
  key = "power";
  field = "power";
  value_fn = λ v. v;
  rep_fn = none;
  exists_fn = none;
  entity_category = none;
  state_class = none;
  device_class = none;
}

abbrev power_cap : Capability
power_cap = record {
  href = some "/power/vs/0";
  entities = power ∷ [];
  poll_tier = "fast";
  rt_filter = none;
  href_prefix = none;
  strip_prefix_in_key = false;
  name_field = none;
  match_fn = none;
  expand_fn = none;
}

abbrev on : Rep
on = ("power", str "on") ∷ []

abbrev drum : Subdevice
drum = record { kind = indexed; key = "1"; seed_path = "device" ∷ "1" ∷ []; flat_hrefs = [] }

abbrev resources : Dict Rep
resources = ("/power/vs/0", on) ∷ ("/power/vs/1", on) ∷ ("/door/vs/0", []) ∷ []

abbrev by_href : Dict (List Capability)
by_href = ("/power/vs/0", power_cap ∷ []) ∷ []

abbrev title : String → String
title s = s

abbrev unresolved : Dict Rep → List String → Option DeviceRegistry
unresolved view types = none

discover-gaps_example :
    (discover title resources by_href [] main_subdevice).gaps
    ≡ gaps_of title resources main_subdevice by_href [] resources
discover-gaps_example = discover-gaps title resources main_subdevice by_href []

abbrev real : Subdevice → Bool
real su = is_materialized title unresolved by_href resources (drum ∷ []) [] none su

discover_partitioned-splits_example :
    ((partitioned title unresolved by_href resources (drum ∷ []) [] none).materialized
      ≡ keep real (drum ∷ []))
    × (map subdevice_of (partitioned title unresolved by_href resources (drum ∷ []) [] none).skipped
        ≡ keep (λ su. not (real su)) (drum ∷ []))
discover_partitioned-splits_example =
    discover_partitioned-splits title unresolved by_href resources (drum ∷ []) [] none

abbrev bound_in : Subdevice → List BoundEntity
bound_in su = (found_of title unresolved by_href resources (drum ∷ []) [] none su).bound

abbrev gaps_in : Subdevice → List String
gaps_in su = (found_of title unresolved by_href resources (drum ∷ []) [] none su).gaps

discover_partitioned-binds_example :
    ((partitioned title unresolved by_href resources (drum ∷ []) [] none).bound
      ≡ (master title unresolved by_href resources (drum ∷ []) [] none).bound
        ++ joined (map bound_in (keep real (drum ∷ []))))
    × ((partitioned title unresolved by_href resources (drum ∷ []) [] none).gaps
        ≡ (master title unresolved by_href resources (drum ∷ []) [] none).gaps
          ++ joined (map gaps_in (keep real (drum ∷ []))))
discover_partitioned-binds_example =
    discover_partitioned-binds title unresolved by_href resources (drum ∷ []) [] none

global_built : build_global (power_cap ∷ []) ≡ table by_href
unfolding build_global append_cap any_ambiguous Dict.put Dict.get
global_built = refl

typed_built : build_typed (power_cap ∷ []) ≡ table by_href
unfolding build_typed append_cap any_ambiguous Dict.put Dict.get
typed_built = refl

build_global-group_example :
    (group by_href "/power/vs/0" ≡ keep (is_at "/power/vs/0") (power_cap ∷ []))
    × (is_ambiguous (keep (is_at "/power/vs/0") (power_cap ∷ [])) ≡ false)
build_global-group_example = build_global-group (power_cap ∷ []) by_href "/power/vs/0" global_built

build_typed-group_example :
    (group by_href "/power/vs/0" ≡ keep (is_at "/power/vs/0") (power_cap ∷ []))
    × ((all is_fixed (power_cap ∷ []) ≡ true)
        × (is_ambiguous (keep (is_at "/power/vs/0") (power_cap ∷ [])) ≡ false))
build_typed-group_example = build_typed-group (power_cap ∷ []) by_href "/power/vs/0" typed_built

-- a clock that starts at 10 and stands at 12 from then on, and a device that does not answer
abbrev stuck_clock : ℕ → ℕ
stuck_clock zero = 10
stuck_clock (suc n) = 12

abbrev world : World
world = record { clock = stuck_clock; read = λ n path timeout. none; lower = λ s. s }

-- the answers run into the deadline at 13, after two readings at 12
abbrev slow_clock : ℕ → ℕ
slow_clock zero = 10
slow_clock (suc zero) = 12
slow_clock (suc (suc n)) = 13

abbrev slow_world : World
slow_world = record { clock = slow_clock; read = λ n path timeout. none; lower = λ s. s }

-- one read, at the reading 1 of the clock and with a timeout of 1
one_read : (probe_all slow_world [] [] [] (some 3) 10 5).asked ≡ (1, 1) ∷ []
unfolding probe_all enumerate_from prefixed_loop indexed_siblings indexed_loop probe_multidevice
    next_timeout get_batch get_raw link_indices linked_ids iter_oic_res_hrefs listed_ids Dict.get
    probed
one_read = refl

late_clock : (n : ℕ) → 10 + 2 ≤ stuck_clock (suc n)
late_clock n = omega arith

enumerate_subdevices_late_example :
    enumerate_subdevices world resources [] [] (some 2) 10 5 ≡ ([], [])
enumerate_subdevices_late_example =
    enumerate_subdevices_late world resources [] [] 2 10 5 late_clock

abbrev text_methods : TextMethods
text_methods = record { strip = λ s. s; lower = λ s. s; upper = λ s. s }

mac_read : normalized_mac text_methods (some (str "00-11-22-aa-bb-cc")) ≡ some "00:11:22:aa:bb:cc"
unfolding normalized_mac
mac_read = refl

normalized_mac-digits_example :
    (chars (without_separators "00:11:22:aa:bb:cc")
      ≡ chars (without_separators "00-11-22-aa-bb-cc"))
    × ((length (chars (without_separators "00:11:22:aa:bb:cc")) ≡ 12)
        × (all is_lower_hex (chars (without_separators "00:11:22:aa:bb:cc")) ≡ true))
normalized_mac-digits_example =
    normalized_mac-digits text_methods "00-11-22-aa-bb-cc" "00:11:22:aa:bb:cc" mac_read
