-- ===== src/Registry/Cook/Held/Kept.antt =====
-- What is kept while an oven is idle can be started, once what is not chosen is chosen; what is kept
-- when it leaves idle, or its panel is used, is gone.
use localthings.Base.{
  String, Bool, true, false, not, ◌&&◌, ◌||◌, Option, none, some, Rep, ◌≡◌, refl, ap, ◌∙◌, inl, inr,
  Bool-cases, arith, ◌⊎◌, eq_iff,
}
use localthings.Base.Dict
use localthings.Base.Dict.{Dict}
use localthings.Base.Data.Equal.Scalars.{is_scalar, eq-scalar}
use localthings.Registry.Cook.Fields.{device_unit, unit_key}
use localthings.Registry.Cook.Specs.{Json, TempSpec, ModeSpec, mode_specs}
use localthings.Registry.Cook.Views.{is_idle, startable_modes, temp_for}
use localthings.Registry.Cook.Start.{
  Floats, Checked, accepted, refused, CookPlan, mode_required, temperature_required,
  duration_required, CookStartError,
}
use localthings.Registry.Cook.Start.Passed.{Checked-cases, passed}
use localthings.Registry.Cook.Start.Again.{IsExact, is_narrow, plan_start-again}
use localthings.Registry.Cook.Start.Completed.{plan_start-asks}
use localthings.Registry.Cook.Start.Modeless.{plan_start-modeless}
use localthings.Registry.Cook.Held.{
  DeviceValues, device_values, same_unit, same_values, Choices, HeldCook, Choice, holds, clear,
  with_choice, normalized, stale_base, expire, keep_values, plan_choices, some_mode_accepts,
  hold_values, hold, plan, is_mode_choice, needs_mode,
}

-- The values that a panel shows are not lists or dicts.
abbrev pub is_plain : DeviceValues → Bool
is_plain d = is_scalar d.mode && (is_scalar d.desired && is_scalar d.time)

unit-same : (u : Option String) → same_unit u u ≡ true
unfolding same_unit
unit-same none = refl
unit-same (some u) = ground (arith, eq_iff u u)

values-same : (d : DeviceValues) → is_plain d ≡ true → same_values d d ≡ true
unfolding same_values
values-same d h =
    ground (arith, h, unit-same d.unit, eq-scalar d.mode, eq-scalar d.desired, eq-scalar d.time)

-- a plan, or a refusal that only names what is not chosen yet
abbrev pub IsOpen : Checked CookPlan → Type 0
IsOpen c =
    ((p : CookPlan) × (c ≡ accepted p))
    ⊎ (c ≡ refused mode_required)
    ⊎ (c ≡ refused temperature_required)
    ⊎ (c ≡ refused duration_required)

stale-same :
    (d : DeviceValues) (resources : Dict Rep)
    → d ≡ device_values resources
    → is_plain (device_values resources) ≡ true
    → stale_base (some d) resources ≡ false
unfolding stale_base
stale-same d resources e plain = rw (e, values-same (device_values resources) plain) refl

module _ {F : Type 0} where
  -- What is still held was held under the values that the panel still shows.
  expire-fresh :
      (held : HeldCook F) (resources : Dict Rep)
      → holds (expire held resources).values ≡ true
      → stale_base (expire held resources).base resources ≡ false
  unfolding expire clear
  expire-fresh held resources h =
      elim (Bool-cases
        (holds held.values && (not (is_idle resources) || stale_base held.base resources))) [
          | inl lost ↦ absurd (ground (arith, lost, h))
          | inr kept ↦ rw (kept, expire) (ground (arith, kept, rw (kept, expire) at h))
        ]

  expire-idle :
      (held : HeldCook F) (resources : Dict Rep)
      → is_idle resources ≡ true
      → stale_base held.base resources ≡ false
      → expire held resources ≡ held
  unfolding expire
  expire-idle held resources idle fresh = ground (arith, idle, fresh)

  kept-fresh :
      (held : HeldCook F) (v : Choices F) (resources : Dict Rep)
      → (holds held.values ≡ true → stale_base held.base resources ≡ false)
      → is_plain (device_values resources) ≡ true
      → stale_base (keep_values held v resources).base resources ≡ false
  unfolding keep_values
  kept-fresh held v resources fresh plain = elim (Bool-cases (holds held.values)) [
    | inl some_ ↦ rw some_ (fresh some_)
    | inr none_ ↦ rw none_ (stale-same (device_values resources) resources refl plain)
  ]

  keeps :
      (held : HeldCook F) (v : Choices F) (resources : Dict Rep)
      → is_idle resources ≡ true
      → is_plain (device_values resources) ≡ true
      → expire (keep_values (expire held resources) v resources) resources
        ≡ keep_values (expire held resources) v resources
  keeps held v resources idle plain =
      expire-idle (keep_values (expire held resources) v resources) resources idle
        (kept-fresh (expire held resources) v resources (expire-fresh held resources) plain)

  module _ (fl : Floats F) (exact : IsExact fl) (j : Json) (resources : Dict Rep) where
    normalized-IsOpen :
        ((mode : String) (spec : ModeSpec) (temp : TempSpec)
          → Dict.get (mode_specs j resources) mode ≡ some spec
          → temp_for (some spec) (unit_key (device_unit resources)) ≡ some temp
          → is_narrow temp ≡ true)
        → (v : Choices F) (p : CookPlan) → plan_choices fl j resources v false ≡ accepted p
        → IsOpen (plan_choices fl j resources (normalized v p) true)
    unfolding plan_choices normalized
    normalized-IsOpen narrow v p h =
        let w = normalized v p in
        let again =
          plan_start-again fl exact j resources v.mode v.temperature v.duration false p
            (narrow p.mode) h in
        elim (plan_start-asks fl j resources v.mode w.temperature w.duration p again) [
          | inl whole_ ↦ inl (p, whole_)
          | inr (inl missing) ↦ inr (inr (inl missing))
          | inr (inr missing) ↦ inr (inr (inr missing))
        ]

    -- what hold_values keeps, where it raises nothing
    Kept : HeldCook F → HeldCook F → Type 0
    Kept live after =
        (w : Choices F) × (after ≡ keep_values live w resources)
        × (is_idle resources ≡ true)
        × IsOpen (plan_choices fl j resources w true)

    modeless-IsOpen :
        (v : Choices F)
        → plan_choices fl j resources v false ≡ refused mode_required
        → (is_idle resources ≡ true) × IsOpen (plan_choices fl j resources v true)
    unfolding plan_choices
    modeless-IsOpen v h =
        let m =
          plan_start-modeless fl j resources v.mode v.temperature v.temperature v.duration
            v.duration false true h in
        (m.0, inr (inl m.1))

    needs-mode : (e : CookStartError) → needs_mode e ≡ true → e ≡ mode_required
    unfolding needs_mode
    needs-mode e h = ground (arith, h)

    refused-Kept :
        (live after : HeldCook F) (v : Choices F) (is_mode : Bool) (e : CookStartError)
        → plan_choices fl j resources v false ≡ refused e
        → hold_values fl j live v is_mode resources ≡ (after, none)
        → Kept live after
    unfolding hold_values Kept
    refused-Kept live after v is_mode e q h = elim (Bool-cases (needs_mode e && not is_mode)) [
      | inr bad ↦ absurd (ground (arith, q, bad, h))
      | inl good ↦
          elim (Bool-cases (some_mode_accepts fl j resources v (startable_modes j resources))) [
            | inr bad ↦ absurd (ground (arith, q, good, bad, h))
            | inl good2 ↦
                let m = modeless-IsOpen v (q ∙ ap refused (needs-mode e (ground (arith, good)))) in
                (v, ground (arith, q, good, good2, h), m.0, m.1)
          ]
    ]

    hold_values-Kept :
        ((mode : String) (spec : ModeSpec) (temp : TempSpec)
          → Dict.get (mode_specs j resources) mode ≡ some spec
          → temp_for (some spec) (unit_key (device_unit resources)) ≡ some temp
          → is_narrow temp ≡ true)
        → (live after : HeldCook F) (v : Choices F) (is_mode : Bool)
        → hold_values fl j live v is_mode resources ≡ (after, none)
        → Kept live after
    unfolding hold_values Kept plan_choices
    hold_values-Kept narrow live after v is_mode h =
        elim (Checked-cases (plan_choices fl j resources v false)) [
          | inr (e, q) ↦ refused-Kept live after v is_mode e q h
          | inl (p, q) ↦ (
            normalized v p,
            ground (arith, q, h),
            (passed fl j resources v.mode v.temperature v.duration false p q).idle,
            normalized-IsOpen narrow v p q,
          )
        ]

    -- What hold keeps can be started from the same report: the values are still held then, and the
    -- start is planned from them, or it is refused for a mode, a setpoint or a cook time that is not
    -- chosen yet, and for nothing else; if no setpoint range of the board is wider than the integers
    -- that a float holds, `IsExact` holds of the floats, and the mode, the setpoint and the time that
    -- the panel shows are not lists or dicts.
    pub hold-IsOpen :
        ((mode : String) (spec : ModeSpec) (temp : TempSpec)
          → Dict.get (mode_specs j resources) mode ≡ some spec
          → temp_for (some spec) (unit_key (device_unit resources)) ≡ some temp
          → is_narrow temp ≡ true)
        → is_plain (device_values resources) ≡ true
        → (held after : HeldCook F) (choice : Choice F)
        → hold fl j held choice resources ≡ (after, none)
        → ((plan fl j after resources).0 ≡ after) × IsOpen (plan fl j after resources).1
    unfolding hold plan Kept
    hold-IsOpen narrow plain held after choice h =
        let live = expire held resources in
        let k =
          hold_values-Kept narrow live after (with_choice live.values choice)
            (is_mode_choice choice) h in
        let fresh : expire after resources ≡ after = rw k.1 (keeps held k.0 resources k.2 plain) in
        (fresh, rw (fresh, k.1) k.3)
