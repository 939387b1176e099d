-- ===== src/Registry/Partition/Gate.antt =====
-- Which candidates `discover_partitioned` takes for real, and what it makes of the others.
use localthings.Base.{
  String, Bool, true, false, not, ◌≡◌, refl, sym, ap, ◌∙◌, Option, List, [], ◌∷◌, ◌++◌, map, keep,
  default, if◌then◌else◌, Rep, Bool-cases, inl, inr, append_assoc, map-append, append-nil,
}
use localthings.Base.Dict.{Dict}
use localthings.Registry.Capability.{Capability}
use localthings.Registry.Subdevices.Defs.{Subdevice, main_subdevice, canonical_view}
use localthings.Registry.Discovery.{Found}
use localthings.Registry.Partition.{
  DeviceRegistry, Partitioned, SkippedSubdevice, candidate_found, passes_gate, admit, admit_all,
  master_found, discover_partitioned,
}

abbrev pub joined {ℓ} : {A : Type ℓ} → List (List A) → List A
joined [] = []
joined (xs ∷ xss) = xs ++ joined xss

appended {ℓ} :
    {A : Type ℓ} {b c : List A} (a x z : List A) → c ≡ b ++ z → b ≡ a ++ x → c ≡ a ++ (x ++ z)
appended a x z p q = p ∙ ap (λ l. l ++ z) q ∙ append_assoc a x z

kept {ℓ} :
    {A : Type ℓ} (b : Bool) (x : A) (rest : List A)
    → (if b then x ∷ [] else []) ++ rest ≡ (if b then x ∷ rest else rest)
kept true x rest = refl
kept false x rest = refl

dropped {ℓ} :
    {A : Type ℓ} (b : Bool) (x : A) (rest : List A)
    → (if b then [] else x ∷ []) ++ rest ≡ (if not b then x ∷ rest else rest)
dropped true x rest = refl
dropped false x rest = refl

kept_joined {ℓ κ} :
    {A : Type ℓ} {B : Type κ} (b : Bool) (f : A → List B) (x : A) (rest : List A)
    → (if b then f x else []) ++ joined (map f rest) ≡ joined (map f (if b then x ∷ rest else rest))
kept_joined true f x rest = refl
kept_joined false f x rest = refl

abbrev pub subdevice_of : SkippedSubdevice → Subdevice
subdevice_of s = s.subdevice

module _ (title : String → String) (resolve : Dict Rep → List String → Option DeviceRegistry)
    (fallback : Dict (List Capability)) where
  module _ (resources typing : Dict Rep) (subdevices : List Subdevice)
      (reg : Option DeviceRegistry) where
    abbrev found_in : Subdevice → Found
    found_in su = candidate_found title resolve fallback resources typing subdevices reg su

    abbrev is_real : Subdevice → Bool
    is_real su = passes_gate title resolve fallback resources (found_in su)

    -- what one candidate adds
    record Adds (real : Bool) (su : Subdevice) (p p' : Partitioned) : Type 0 where
      materialized : p'.materialized ≡ p.materialized ++ (if real then su ∷ [] else [])
      skipped :
          map subdevice_of p'.skipped ≡ map subdevice_of p.skipped ++ (if real then [] else su ∷ [])
      bound : p'.bound ≡ p.bound ++ (if real then (found_in su).bound else [])
      gaps : p'.gaps ≡ p.gaps ++ (if real then (found_in su).gaps else [])

    admit-Adds :
        (su : Subdevice) (p : Partitioned)
        → Adds (is_real su) su p (admit title resolve fallback resources su (found_in su) p)
    unfolding admit
    admit-Adds su p = elim (Bool-cases (is_real su)) [
      | inl e ↦ rw (e) (record {
        materialized = refl;
        skipped = sym (append-nil (map subdevice_of p.skipped));
        bound = refl;
        gaps = refl;
      })
      | inr e ↦ rw (e) (record {
        materialized = sym (append-nil p.materialized);
        skipped = map-append subdevice_of p.skipped (_ ∷ []);
        bound = sym (append-nil p.bound);
        gaps = sym (append-nil p.gaps);
      })
    ]

    -- what all candidates add
    record AddsAll (sus : List Subdevice) (p p' : Partitioned) : Type 0 where
      materialized : p'.materialized ≡ p.materialized ++ keep is_real sus
      skipped :
          map subdevice_of p'.skipped
          ≡ map subdevice_of p.skipped ++ keep (λ su. not (is_real su)) sus
      bound : p'.bound ≡ p.bound ++ joined (map (λ su. (found_in su).bound) (keep is_real sus))
      gaps : p'.gaps ≡ p.gaps ++ joined (map (λ su. (found_in su).gaps) (keep is_real sus))

    AddsAll-cons :
        (su : Subdevice) (sus : List Subdevice) (p p' p'' : Partitioned)
        → Adds (is_real su) su p p'
        → AddsAll sus p' p''
        → AddsAll (su ∷ sus) p p''
    AddsAll-cons su sus p p' p'' a b = record {
      materialized =
          appended _ _ _ b.materialized a.materialized
          ∙ ap (λ l. p.materialized ++ l) (kept (is_real su) su (keep is_real sus));
      skipped =
          appended _ _ _ b.skipped a.skipped
          ∙ ap (λ l. map subdevice_of p.skipped ++ l)
              (dropped (is_real su) su (keep (λ s. not (is_real s)) sus));
      bound =
          appended _ _ _ b.bound a.bound
          ∙ ap (λ l. p.bound ++ l)
              (kept_joined (is_real su) (λ s. (found_in s).bound) su (keep is_real sus));
      gaps =
          appended _ _ _ b.gaps a.gaps
          ∙ ap (λ l. p.gaps ++ l)
              (kept_joined (is_real su) (λ s. (found_in s).gaps) su (keep is_real sus));
    }

    admit_all-AddsAll :
        (sus : List Subdevice) (p : Partitioned)
        → AddsAll sus p (admit_all title resolve fallback resources typing subdevices reg sus p)
    unfolding admit_all
    admit_all-AddsAll [] p = record {
      materialized = sym (append-nil p.materialized);
      skipped = sym (append-nil (map subdevice_of p.skipped));
      bound = sym (append-nil p.bound);
      gaps = sym (append-nil p.gaps);
    }
    admit_all-AddsAll (su ∷ sus) p =
        let p' = admit title resolve fallback resources su (found_in su) p in
        AddsAll-cons su sus p p' _ (admit-Adds su p) (admit_all-AddsAll sus p')

  module _ (resources : Dict Rep) (subdevices : List Subdevice) (types : List String)
      (type_resources : Option (Dict Rep)) where
    abbrev pub typed : Dict Rep
    typed = default resources type_resources

    abbrev pub master_registry : Option DeviceRegistry
    master_registry = resolve (canonical_view main_subdevice typed subdevices) types

    abbrev pub found_of : Subdevice → Found
    found_of su =
        candidate_found title resolve fallback resources typed subdevices master_registry su

    abbrev pub is_materialized : Subdevice → Bool
    is_materialized su = passes_gate title resolve fallback resources (found_of su)

    abbrev pub partitioned : Partitioned
    partitioned =
        discover_partitioned title resolve fallback resources subdevices types type_resources

    abbrev pub master : Partitioned
    master = master_found title resolve fallback resources subdevices master_registry

    -- The candidates that pass the gate are materialized and the others are skipped, in order.
    pub discover_partitioned-splits :
        (partitioned.materialized ≡ keep is_materialized subdevices)
        × (map subdevice_of partitioned.skipped ≡ keep (λ su. not (is_materialized su)) subdevices)
    unfolding discover_partitioned
    discover_partitioned-splits =
        let a = admit_all-AddsAll resources typed subdevices master_registry subdevices master in
        (a.materialized, a.skipped)

    -- The entities and the gaps are the master's and, after them, those found in the candidates
    -- that pass the gate; a candidate that does not pass it adds none.
    pub discover_partitioned-binds :
        (partitioned.bound
          ≡ master.bound
            ++ joined (map (λ su. (found_of su).bound) (keep is_materialized subdevices)))
        × (partitioned.gaps
            ≡ master.gaps
              ++ joined (map (λ su. (found_of su).gaps) (keep is_materialized subdevices)))
    unfolding discover_partitioned
    discover_partitioned-binds =
        let a = admit_all-AddsAll resources typed subdevices master_registry subdevices master in
        (a.bound, a.gaps)
