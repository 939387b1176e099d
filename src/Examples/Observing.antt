-- ===== src/Examples/Observing.antt =====
-- observe.py on a refrigerator, with a dictionary for the state cache
use localthings.Base.{
  ℕ, String, Bool, true, ◌≡◌, refl, Option, none, some, List, [], ◌∷◌, arith, Rep, Value, str, int,
  pos, list, dict,
}
use localthings.Base.Dict
use localthings.Base.Dict.{Dict, get-put}
use localthings.Observe.State.{ObserveManager, Library, IsStateCache, Clock, observe, init}
use localthings.Observe.Settle.{is_settling}
use localthings.Observe.Settle.Windows.{is_settling-restore, restored}
use localthings.Observe.Apply.{is_alarms_href, apply, merged_rep, options_field}
use localthings.Observe.Apply.Gate.{get-apply, get-merged_rep}
use localthings.Observe.Apply.Tokens.{options_of, first_token-apply}
use localthings.Registry.Common.Options.{first_token, last_token, token_prefix}
use localthings.Observe.Tracking.{IsTracked, here, next, subscribe, wait, enter, downgrade}
use localthings.Observe.Tracking.Runs.{Reach-IsTracked}
use localthings.Observe.Notify.{on_notification}
use localthings.Observe.Notify.Delivery.{pushed, get-on_notification}
use localthings.Observe.Mode.{
  await_observe_notifies, enter_observe_mode, subscribe_hrefs, Notify, success_fraction,
  downgrade_to_poll,
}

-- a payload of one byte is a rep that holds it
abbrev pub load : List ℕ → Option Value
load (b ∷ []) = some (dict (("temperature", int (pos b)) ∷ []))
load _ = none

abbrev pub table_cache : Library (Dict Rep)
table_cache = record {
  get = Dict.get;
  apply_rep = λ c href rep source. (Dict.put c href rep, true);
  loads = load;
}

table_cache-IsStateCache : IsStateCache table_cache
table_cache-IsStateCache = record { get-apply_rep = λ c href j rep source. get-put c href j rep }

abbrev pub off : Rep
off = ("power", str "off") ∷ ("unit", str "C") ∷ []

abbrev pub on : Rep
on = ("power", str "on") ∷ []

abbrev pub start : Clock
start = record { monotonic = 0; wall = 0 }

-- it observes one href, and a write of that href settles until 5000
abbrev pub fridge : ObserveManager (Dict Rep)
fridge = record {
  cache = ("/power/vs/0", off) ∷ [];
  mode = observe;
  last_mode_change = start;
  settle_until = ("/power/vs/0", 5000) ∷ [];
  subscribed_hrefs = "/power/vs/0" ∷ [];
  notified = "/power/vs/0" ∷ [];
  stale_sweeps = [];
  fallback_hrefs = [];
  has_hook = true;
  refresh_task = none;
  taps = [];
  tap_heap = λ a. none;
  next_tap = 0;
  attempting = [];
}

get-apply_example :
    Dict.get (apply table_cache 5000 "/power/vs/0" on "poll" fridge).manager.cache "/power/vs/0"
    ≡ some (merged_rep "poll" "/power/vs/0" off on)
unfolding Dict.get
get-apply_example =
    get-apply table_cache table_cache-IsStateCache 5000 "/power/vs/0" "/power/vs/0" on "poll" fridge

get-merged_rep_example : Dict.get (merged_rep "poll" "/power/vs/0" off on) "unit" ≡ some (str "C")
unfolding Dict.get is_alarms_href
get-merged_rep_example = get-merged_rep "poll" "/power/vs/0" off on "unit" refl

abbrev cached_tokens : List Value
cached_tokens = str "Course_1C" ∷ str "Rinse_2" ∷ []

abbrev new_tokens : List Value
new_tokens = str "Rinse_3" ∷ []

abbrev washer : ObserveManager (Dict Rep)
washer = record fridge { cache = ("/course/vs/0", (options_field, list cached_tokens) ∷ []) ∷ [] }

abbrev notify : Rep
notify = (options_field, list new_tokens) ∷ []

first_token-apply_example :
    first_token "Course" (
      options_of (
        Dict.get
          (apply table_cache 6000 "/course/vs/0" notify "observe" washer).manager.cache
          "/course/vs/0"))
    ≡ some (str "Course_1C")
unfolding first_token last_token token_prefix Dict.get
first_token-apply_example =
    first_token-apply table_cache table_cache-IsStateCache 6000 "/course/vs/0" "Course" notify
      "observe" washer new_tokens cached_tokens refl refl refl

is_settling-restore_example :
    (is_settling 6000 "/power/vs/0" (restored fridge 4500 "/power/vs/0" 4000 4800)).0
    ≡ (is_settling 6000 "/power/vs/0" fridge).0
is_settling-restore_example =
    is_settling-restore fridge 4500 4000 4800 6000 "/power/vs/0" "/power/vs/0" (omega arith)

abbrev takes_all : List String → Bool
takes_all path = true

abbrev pushes : List Notify
pushes = (record { at = 100; href = "/power/vs/0"; payload = 4 ∷ [] }) ∷ []

abbrev asked : ObserveManager (Dict Rep)
asked = (subscribe_hrefs takes_all ("/power/vs/0" ∷ []) (init [] start)).1

abbrev waited : ObserveManager (Dict Rep)
waited = (await_observe_notifies table_cache success_fraction ("/power/vs/0" ∷ []) pushes asked).1

abbrev observing : ObserveManager (Dict Rep)
observing = enter_observe_mode start ("/power/vs/0" ∷ []) waited

Reach-IsTracked_example : IsTracked (downgrade_to_poll start observing)
Reach-IsTracked_example = Reach-IsTracked table_cache [] start (
    next
      (next
        (next (next here (subscribe takes_all "/power/vs/0" [] (init [] start)))
          (wait success_fraction ("/power/vs/0" ∷ []) pushes asked))
        (enter start ("/power/vs/0" ∷ []) waited))
      (downgrade start observing))

get-on_notification_example :
    Dict.get
      (on_notification table_cache 6000 "/power/vs/0" (7 ∷ []) fridge).manager.cache
      "/power/vs/0"
    ≡ pushed table_cache 6000 "/power/vs/0"
        (7 ∷ [])
        (some (("temperature", int (pos 7)) ∷ []))
        fridge
get-on_notification_example =
    get-on_notification table_cache table_cache-IsStateCache 6000 "/power/vs/0" "/power/vs/0"
      (7 ∷ []) fridge
