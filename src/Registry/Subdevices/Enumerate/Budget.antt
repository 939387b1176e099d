-- ===== src/Registry/Subdevices/Enumerate/Budget.antt =====
-- What the deadline of `enumerate_subdevices` allows.
use localthings.Base.{
  zero, suc, ℕ, ◌+◌, ◌≤◌, String, Bool, true, false, ◌≡◌, refl, ◌∙◌, none, some, List, [], ◌∷◌,
  arith, mem, if◌then◌else◌, Bool-cases, inl, inr, Rep, Value, sort_texts,
}
use localthings.Base.Dict.{Dict}
use localthings.Registry.Subdevices.Probing.{
  iter_oic_res_hrefs, linked_ids, link_indices, listed_ids, flat_probe_hrefs,
}
use localthings.Registry.Subdevices.Enumerate.{
  World, Probing, Limits, remaining, next_timeout, probe_new, probe_prefixed, prefixed_loop,
  indexed_loop, indexed_siblings, probe_multidevice, enumerate_from, enumerate_subdevices,
  probe_all, limits_of, first_tick,
}

-- Two states of the search with the same reads and the same finds.
pub record SameFinds (p q : Probing) : Type 0 where
  pub reads : q.reads ≡ p.reads
  pub log : q.log ≡ p.log
  pub subdevices : q.subdevices ≡ p.subdevices
  pub fetched : q.fetched ≡ p.fetched
  pub started : 1 ≤ p.ticks → 1 ≤ q.ticks

SameFinds-refl : (p : Probing) → SameFinds p p
SameFinds-refl p = record {
  reads = refl;
  log = refl;
  subdevices = refl;
  fetched = refl;
  started = λ s. s;
}

SameFinds-trans : {p q r : Probing} → SameFinds p q → SameFinds q r → SameFinds p r
SameFinds-trans a b = record {
  reads = b.reads ∙ a.reads;
  log = b.log ∙ a.log;
  subdevices = b.subdevices ∙ a.subdevices;
  fetched = b.fetched ∙ a.fetched;
  started = λ s. b.started (a.started s);
}

module _ (w : World) (lim : Limits) (deadline : ℕ) (d : lim.deadline ≡ some deadline)
    (late : (n : ℕ) → deadline ≤ w.clock (suc n)) where
  late_at : (n : ℕ) → 1 ≤ n → deadline ≤ w.clock n
  late_at zero s = absurd (omega (arith, s))
  late_at (suc n) s = late n

  no_time : (maximum : ℕ) (p : Probing) → 1 ≤ p.ticks → (next_timeout w lim maximum p).0 ≡ none
  unfolding next_timeout remaining
  no_time maximum p s = ground (arith, d, late_at p.ticks s)

  next-SameFinds : (maximum : ℕ) (p : Probing) → SameFinds p (next_timeout w lim maximum p).1
  unfolding next_timeout remaining
  next-SameFinds maximum p = record {
    reads = ground arith;
    log = ground arith;
    subdevices = ground arith;
    fetched = ground arith;
    started = λ s. ground (arith, s);
  }

  probe_new-SameFinds :
      (hrefs : List String) (id : String) (p : Probing)
      → 1 ≤ p.ticks
      → SameFinds p (probe_new w lim hrefs id p)
  unfolding probe_new
  probe_new-SameFinds hrefs id p s =
      rw (no_time lim.collection_timeout p s, probe_new) (next-SameFinds lim.collection_timeout p)

  probe_prefixed-SameFinds :
      (hrefs : List String) (id : String) (p : Probing)
      → 1 ≤ p.ticks
      → SameFinds p (probe_prefixed w lim hrefs id p)
  unfolding probe_prefixed
  probe_prefixed-SameFinds hrefs id p s =
      let q : Probing = record p { probed_ids = w.lower id ∷ p.probed_ids } in
      elim (Bool-cases (mem (w.lower id) p.probed_ids)) [
        | inl e ↦ rw (e) (SameFinds-refl p)
        | inr e ↦ rw (e) (
            SameFinds-trans
              (record {
                reads = refl;
                log = refl;
                subdevices = refl;
                fetched = refl;
                started = λ s. s;
              })
              (probe_new-SameFinds hrefs id q s))
      ]

  prefixed_loop-SameFinds :
      (hrefs ids : List String) (p : Probing)
      → 1 ≤ p.ticks
      → SameFinds p (prefixed_loop w lim hrefs ids p)
  unfolding prefixed_loop
  prefixed_loop-SameFinds hrefs [] p s = SameFinds-refl p
  prefixed_loop-SameFinds hrefs (id ∷ ids) p s =
      let q = probe_prefixed w lim hrefs id p in
      let one = probe_prefixed-SameFinds hrefs id p s in
      elim (Bool-cases q.budget_exhausted) [
        | inl e ↦ rw (e) one
        | inr e ↦ rw (e) (SameFinds-trans one (prefixed_loop-SameFinds hrefs ids q (one.started s)))
      ]

  indexed_loop-SameFinds :
      (ns : List ℕ) (found : Bool) (p : Probing)
      → 1 ≤ p.ticks
      → SameFinds p (indexed_loop w lim ns (found, p)).1
  unfolding indexed_loop
  indexed_loop-SameFinds [] found p s = SameFinds-refl p
  indexed_loop-SameFinds (n ∷ ns) found p s =
      rw (no_time lim.collection_timeout p s, indexed_loop)
        (next-SameFinds lim.collection_timeout p)

  third_sibling :
      (p : Probing) (b : Bool × Probing)
      → 1 ≤ p.ticks
      → SameFinds p b.1
      → SameFinds p (if b.0 then (indexed_loop w lim (3 ∷ []) (false, b.1)).1 else b.1)
  third_sibling p (true, q) s a =
      SameFinds-trans a (indexed_loop-SameFinds (3 ∷ []) false q (a.started s))
  third_sibling p (false, q) s a = a

  indexed_siblings-SameFinds :
      (ns : List ℕ) (p : Probing) → 1 ≤ p.ticks → SameFinds p (indexed_siblings w lim ns p)
  unfolding indexed_siblings
  indexed_siblings-SameFinds [] p s =
      third_sibling p (indexed_loop w lim (1 ∷ 2 ∷ []) (false, p)) s
        (indexed_loop-SameFinds (1 ∷ 2 ∷ []) false p s)
  indexed_siblings-SameFinds (n ∷ ns) p s = indexed_loop-SameFinds (n ∷ ns) false p s

  probe_multidevice-SameFinds :
      (p : Probing) → 1 ≤ p.ticks → SameFinds p (probe_multidevice w lim p)
  unfolding probe_multidevice
  probe_multidevice-SameFinds p s =
      rw (no_time lim.property_timeout p s, probe_multidevice)
        (next-SameFinds lim.property_timeout p)

  enumerate_from-SameFinds :
      (resources : Dict Rep) (oic_res : List Value) (preferred : List String) (p : Probing)
      → 1 ≤ p.ticks
      → SameFinds p (enumerate_from w lim resources oic_res preferred p)
  unfolding enumerate_from
  enumerate_from-SameFinds resources oic_res preferred p s =
      let hrefs = flat_probe_hrefs preferred resources in
      let links = iter_oic_res_hrefs oic_res in
      let p1 = prefixed_loop w lim hrefs (listed_ids resources) p in
      let p2 = prefixed_loop w lim hrefs (sort_texts (linked_ids links)) p1 in
      let p3 = indexed_siblings w lim (link_indices links) p2 in
      let a = prefixed_loop-SameFinds hrefs (listed_ids resources) p s in
      let s1 = a.started s in
      let b = prefixed_loop-SameFinds hrefs (sort_texts (linked_ids links)) p1 s1 in
      let s2 = b.started s1 in
      let c = indexed_siblings-SameFinds (link_indices links) p2 s2 in
      SameFinds-trans a
        (SameFinds-trans b (SameFinds-trans c (probe_multidevice-SameFinds p3 (c.started s2))))

-- Where every reading of the clock after the first is at the deadline or later, the search for
-- subdevices finds none and fetches nothing.
pub enumerate_subdevices_late :
    (w : World) (resources : Dict Rep) (oic_res : List Value) (preferred : List String)
    (budget collection property : ℕ)
    → ((n : ℕ) → w.clock 0 + budget ≤ w.clock (suc n))
    → enumerate_subdevices w resources oic_res preferred (some budget) collection property
      ≡ ([], [])
unfolding enumerate_subdevices probe_all
enumerate_subdevices_late w resources oic_res preferred budget collection property late =
    let lim = limits_of w (some budget) collection property in
    let r =
      enumerate_from-SameFinds w lim (w.clock 0 + budget) refl late resources oic_res preferred
        (first_tick (some budget)) (omega arith) in
    ground (arith, r.subdevices, r.fetched)
