-- ===== src/Observe/State.antt =====
-- observe.py: the state of an `ObserveManager`, and the names that it takes from elsewhere
use localthings.Base.{
  ℕ, String, Bool, false, Option, none, some, List, [], Rep, Value, ◌≡◌, ◌==◌, if◌then◌else◌,
}
use localthings.Base.Dict.{Dict}

pub data Mode : Type 0 where
  observe poll : Mode

-- `time.monotonic()` and `time.time()`, in milliseconds
pub record Clock : Type 0 where
  pub monotonic : ℕ
  pub wall : ℕ

-- What one notification left in a recording: the decoded body, or the payload where it does not
-- decode.
pub data Recorded : Type 0 where
  decoded : Value → Recorded
  raw : List ℕ → Recorded

pub record Tap : Type 0 where
  pub limit : ℕ
  pub isolate : Bool
  pub started : Option ℕ
  pub items : List (ℕ × Recorded)
  pub dropped : ℕ

-- `smartthings_local`'s StateCache, and `cbor2.loads`, which may raise. `C` is the cache's state.
pub record Library (C : Type 0) : Type 0 where
  pub get : C → String → Option Rep
  pub apply_rep : C → String → Rep → String → C × Bool
  pub loads : List ℕ → Option Value

-- `apply_rep` stores the rep that it is given under its href, in place of what was there, and
-- leaves every other href alone.
pub record IsStateCache {C : Type 0} (lib : Library C) : Type 0 where
  pub get-apply_rep :
      (c : C) (href j : String) (rep : Rep) (source : String)
      → lib.get (lib.apply_rep c href rep source).0 j
        ≡ (if href == j then some rep else lib.get c j)

-- A `Tap` is shared by `_taps` and the call that reserved it, so it lives in `tap_heap`, and
-- `taps` holds its address.
pub record ObserveManager (C : Type 0) : Type 0 where
  pub cache : C
  pub mode : Mode
  pub last_mode_change : Clock
  pub settle_until : Dict ℕ
  pub subscribed_hrefs : List String
  pub notified : List String
  pub stale_sweeps : Dict ℕ
  pub fallback_hrefs : List String
  pub has_hook : Bool
  pub refresh_task : Option (List (List String))
  pub taps : Dict ℕ
  pub tap_heap : ℕ → Option Tap
  pub next_tap : ℕ
  pub attempting : List String

-- __init__
unfoldable pub init : {C : Type 0} → C → Clock → ObserveManager C
init cache clock = record {
  cache = cache;
  mode = poll;
  last_mode_change = clock;
  settle_until = [];
  subscribed_hrefs = [];
  notified = [];
  stale_sweeps = [];
  fallback_hrefs = [];
  has_hook = false;
  refresh_task = none;
  taps = [];
  tap_heap = λ _. none;
  next_tap = 0;
  attempting = [];
}
