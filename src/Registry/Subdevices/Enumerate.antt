-- ===== src/Registry/Subdevices/Enumerate.antt =====
-- registry/subdevices.py: the probes of `enumerate_subdevices`, under one deadline
pub mod Budget
pub mod Timeouts
use Prim.Native.Nat.{min}
use localthings.Base.{
  ℕ, ◌+◌, ◌-◌, String, Bool, true, false, not, Option, none, some, List, [], ◌∷◌, ◌++◌, mem, concat,
  split, strip, leb, eqb, if◌then◌else◌, Rep, Value, arr, obj, items, entries, decimal, sort_texts,
}
use localthings.Base.Dict
use localthings.Base.Dict.{Dict}
use localthings.Registry.Batch.{parse_device0_batch}
use localthings.Registry.Subdevices.Defs.{Subdevice, indexed, prefixed, normalize_seed_batch}
use localthings.Registry.Subdevices.Probing.{
  iter_oic_res_hrefs, linked_ids, link_indices, listed_ids, flat_probe_hrefs,
}

-- What the function meets: `time.monotonic` at its n-th reading, `transport.read` at its n-th call
-- with the path and the timeout (none where it raises), and `str.lower`.
pub record World : Type 0 where
  pub clock : ℕ → ℕ
  pub read : ℕ → List String → ℕ → Option (ℕ × Value)
  pub lower : String → String

-- The variables of `enumerate_subdevices`, how often the clock and the transport were read,
-- and for each read, the newest first, the last reading of the clock before it and its timeout.
pub record Probing : Type 0 where
  pub ticks : ℕ
  pub reads : ℕ
  pub asked : List (ℕ × ℕ)
  pub log : List (String × Bool)
  pub subdevices : List Subdevice
  pub fetched : Dict Rep
  pub probed_ids : List String
  pub budget_exhausted : Bool

pub record Limits : Type 0 where
  pub deadline : Option ℕ
  pub collection_timeout : ℕ
  pub property_timeout : ℕ

-- ('device', '1') → '/device/1'
unfoldable pub seed_href : List String → String
seed_href [] = ""
seed_href (s ∷ ss) = concat "/" (concat s (seed_href ss))

-- the body of a 2.05 answer
body_of : Option (ℕ × Value) → Option Value
body_of none = none
body_of (some (code, body)) = if eqb code 0x45 then some body else none

batch_of : Option Value → Dict Rep
batch_of (some (arr vs)) = parse_device0_batch (items vs)
batch_of _ = []

property_of : Option Value → Rep
property_of (some (obj fs)) = entries fs
property_of _ = []

abbrev pub is_empty {ℓ} : {A : Type ℓ} → List A → Bool
is_empty [] = true
is_empty (x ∷ xs) = false

module _ (w : World) (lim : Limits) where
  remaining : ℕ → Option ℕ → Probing → Option ℕ × Probing
  remaining maximum none p = (some maximum, p)
  remaining maximum (some deadline) p =
      let now = w.clock p.ticks in
      if leb deadline now
      then (none, record p { ticks = p.ticks + 1; budget_exhausted = true })
      else (some (min maximum (deadline - now)), record p { ticks = p.ticks + 1 })

  -- `_next_timeout`
  unfoldable pub next_timeout : ℕ → Probing → Option ℕ × Probing
  unfolding remaining
  next_timeout maximum p = remaining maximum lim.deadline p

  unfoldable pub get_raw : List String → ℕ → Probing → Option Value × Probing
  unfolding body_of
  get_raw path timeout p = (
    body_of (w.read p.reads path timeout),
    record p { reads = p.reads + 1; asked = (p.ticks - 1, timeout) ∷ p.asked },
  )

  -- `_probed`
  unfoldable pub probed : String → Bool → Probing → Probing
  probed href found p = record p { log = p.log ++ (href, found) ∷ [] }

  unfoldable pub get_batch : List String → ℕ → Probing → Dict Rep × Probing
  unfolding get_raw batch_of
  get_batch path timeout p =
      let (body, p') = get_raw path timeout p in
      let batch = batch_of body in (batch, probed (seed_href path) (not (is_empty batch)) p')

  unfoldable pub get_property : List String → String → ℕ → Probing → Rep × Probing
  unfolding get_raw property_of
  get_property path href timeout p =
      let (body, p') = get_raw path timeout p in
      let rep = property_of body in (rep, probed href (not (is_empty rep)) p')

  keep_flat : String → String → Rep → List String × Probing → List String × Probing
  keep_flat href actual [] (found, p) = (found, p)
  keep_flat href actual (f ∷ fs) (found, p) =
      (found ++ href ∷ [], record p { fetched = Dict.put p.fetched actual (f ∷ fs) })

  flat_round : String → String → ℕ → List String × Probing → List String × Probing
  unfolding get_property keep_flat
  flat_round sub_id href timeout (found, p) =
      let actual = concat "/" (concat sub_id href) in
      let (rep, p') = get_property (split b'/' (strip b'/' actual)) actual timeout p in
      keep_flat href actual rep (found, p')

  -- the loop over the master's hrefs, each under the subdevice's prefix
  unfoldable pub flat_loop : String → List String → List String × Probing → List String × Probing
  unfolding flat_round
  flat_loop sub_id [] (found, p) = (found, p)
  flat_loop sub_id (href ∷ hrefs) (found, p) =
      let (timeout, p') = next_timeout lim.property_timeout p in
      elim timeout [
        | none ↦ (found, p')
        | some t ↦ flat_loop sub_id hrefs (flat_round sub_id href t (found, p'))
      ]

  add_flat : String → List String × Probing → Probing
  add_flat sub_id ([], p) = p
  add_flat sub_id (h ∷ hs, p) = record p {
    subdevices =
        p.subdevices
        ++ (record { kind = prefixed; key = sub_id; seed_path = []; flat_hrefs = h ∷ hs }) ∷ [];
  }

  -- what the Collection of a prefixed candidate answered
  add_prefixed : List String → String → Dict Rep × Probing → Probing
  unfolding flat_loop add_flat
  add_prefixed hrefs sub_id ([], p) = add_flat sub_id (flat_loop sub_id hrefs ([], p))
  add_prefixed hrefs sub_id (e ∷ es, p) =
      let s : Subdevice = record {
        kind = prefixed;
        key = sub_id;
        seed_path = sub_id ∷ "device" ∷ "0" ∷ [];
        flat_hrefs = [];
      } in
      record p {
        fetched = Dict.merge p.fetched (normalize_seed_batch s (e ∷ es));
        subdevices = p.subdevices ++ s ∷ [];
      }

  probe_new : List String → String → Probing → Probing
  unfolding add_prefixed
  probe_new hrefs sub_id p =
      let (timeout, p') = next_timeout lim.collection_timeout p in
      elim timeout [
        | none ↦ p'
        | some t ↦ add_prefixed hrefs sub_id (get_batch (sub_id ∷ "device" ∷ "0" ∷ []) t p')
      ]

  -- `_probe_prefixed`, over the hrefs of the fallback
  unfoldable pub probe_prefixed : List String → String → Probing → Probing
  unfolding probe_new
  probe_prefixed hrefs sub_id p =
      if mem (w.lower sub_id) p.probed_ids
      then p
      else probe_new hrefs sub_id (record p { probed_ids = w.lower sub_id ∷ p.probed_ids })

  -- patterns B and C: every id, until the budget is spent
  unfoldable pub prefixed_loop : List String → List String → Probing → Probing
  unfolding probe_prefixed
  prefixed_loop hrefs [] p = p
  prefixed_loop hrefs (id ∷ ids) p =
      let p' = probe_prefixed hrefs id p in
      let rest = prefixed_loop hrefs ids p' in if p'.budget_exhausted then p' else rest

  -- what the Collection of an indexed candidate answered, and whether it is one
  add_indexed : ℕ → Dict Rep × Probing → Bool × Probing
  add_indexed n ([], p) = (false, p)
  add_indexed n (e ∷ es, p) = (
    true,
    record p {
      fetched = Dict.merge p.fetched (e ∷ es);
      subdevices =
          p.subdevices
          ++ (record {
            kind = indexed;
            key = decimal n;
            seed_path = "device" ∷ decimal n ∷ [];
            flat_hrefs = [];
          })
            ∷ [];
    },
  )

  -- pattern A: every index, until the budget is spent, and whether the last one answered
  unfoldable pub indexed_loop : List ℕ → Bool × Probing → Bool × Probing
  unfolding add_indexed
  indexed_loop [] (found, p) = (found, p)
  indexed_loop (n ∷ ns) (found, p) =
      let (timeout, p') = next_timeout lim.collection_timeout p in
      elim timeout [
        | none ↦ (false, p')
        | some t ↦ indexed_loop ns (add_indexed n (get_batch ("device" ∷ decimal n ∷ []) t p'))
      ]

  -- with nothing listed, siblings 1 and 2 are tried, and 3 only behind an answer of 2
  unfoldable pub indexed_siblings : List ℕ → Probing → Probing
  unfolding indexed_loop
  indexed_siblings [] p =
      let (found, p') = indexed_loop (1 ∷ 2 ∷ []) (false, p) in
      if found then (indexed_loop (3 ∷ []) (false, p')).1 else p'
  indexed_siblings (n ∷ ns) p = (indexed_loop (n ∷ ns) (false, p)).1

  keep_multidevice : Rep × Probing → Probing
  keep_multidevice ([], p) = p
  keep_multidevice (f ∷ fs, p) = record p {
    fetched = Dict.put p.fetched "/multidevice/vs/0" (f ∷ fs);
  }

  unfoldable pub probe_multidevice : Probing → Probing
  unfolding keep_multidevice get_property
  probe_multidevice p =
      let (timeout, p') = next_timeout lim.property_timeout p in
      elim timeout [
        | none ↦ p'
        | some t ↦
            keep_multidevice
              (get_property ("multidevice" ∷ "vs" ∷ "0" ∷ []) "/multidevice/vs/0" t p')
      ]

  unfoldable pub enumerate_from : Dict Rep → List Value → List String → Probing → Probing
  unfolding prefixed_loop indexed_siblings probe_multidevice
  enumerate_from resources oic_res preferred p =
      let links = iter_oic_res_hrefs oic_res in
      let hrefs = flat_probe_hrefs preferred resources in
      let p1 = prefixed_loop hrefs (listed_ids resources) p in
      let p2 = prefixed_loop hrefs (sort_texts (linked_ids links)) p1 in
      probe_multidevice (indexed_siblings (link_indices links) p2)

abbrev pub fresh : Probing
fresh = record {
  ticks = 0;
  reads = 0;
  asked = [];
  log = [];
  subdevices = [];
  fetched = [];
  probed_ids = [];
  budget_exhausted = false;
}

-- the clock is read once for the deadline, if there is a budget
limits_of : World → Option ℕ → ℕ → ℕ → Limits
limits_of w none collection property = record {
  deadline = none;
  collection_timeout = collection;
  property_timeout = property;
}
limits_of w (some budget) collection property = record {
  deadline = some (w.clock 0 + budget);
  collection_timeout = collection;
  property_timeout = property;
}

first_tick : Option ℕ → Probing
first_tick none = fresh
first_tick (some budget) = record fresh { ticks = 1 }

-- the variables of `enumerate_subdevices` at its end
unfoldable pub probe_all : World → Dict Rep → List Value → List String → Option ℕ → ℕ → ℕ → Probing
unfolding limits_of first_tick enumerate_from
probe_all w resources oic_res preferred budget collection property =
    enumerate_from w (limits_of w budget collection property) resources oic_res preferred
      (first_tick budget)

unfoldable pub enumerate_subdevices :
    World → Dict Rep → List Value → List String → Option ℕ → ℕ → ℕ → List Subdevice × Dict Rep
unfolding probe_all
enumerate_subdevices w resources oic_res preferred budget collection property =
    let p = probe_all w resources oic_res preferred budget collection property in
    (p.subdevices, p.fetched)
