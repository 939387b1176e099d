-- ===== src/Examples/Writing.antt =====
-- coordinator.py, and the exports, on a refrigerator
use localthings.Base.{
  ap, if◌then◌else◌, ◌∙◌, ℕ, zero, suc, ◌+◌, String, Bool, true, false, ◌≡◌, refl, Option, none,
  some, List, [], ◌∷◌, ◌++◌, map, arith, eqb, Rep, Value, str, dict,
}
use Prim.Native.Char.{code}
use localthings.Base.Data.Equal.{eq}
use localthings.Base.Dict
use localthings.Base.Dict.{Dict}
use localthings.Registry.Common.Rows.{merge_items_field, row_at}
use localthings.Registry.Common.Rows.Laws.{row_at-merge_items_field}
use localthings.Observe.Settle.{is_settling, mark_write_pending}
use localthings.Observe.Apply.{apply}
use localthings.Coordinator.Put.{
  Transport, Coordinator, Reply, answered, failed, Control, Delays, Target, command_refused,
}
use localthings.Coordinator.Write.{send_command}
use localthings.Coordinator.Write.Guard.{send_command-settles}
use localthings.Coordinator.Write.Outcomes.{may_end, send_command-ends}
use localthings.Registry.Redact.{Texts, redact_resources}
use localthings.Registry.Redact.Clean.{is_clean, redact_resources-IsClean}
use localthings.Registry.Encode.{
  Codec, Object, mapping, pair, text_key, binary, no_pairs, sequence, tuple_kind, list_kind, also,
  truth, no_objects, json_safe, from_json_safe,
}
use localthings.Registry.Encode.Roundtrip.{is_plain, fresh, from_json_safe-json_safe}
use localthings.Examples.Observing.{table_cache, fridge}

abbrev rows : List Value
rows = dict (("x.com.samsung.da.id", str "0") ∷ ("x.com.samsung.da.desired", str "4") ∷ []) ∷ []

abbrev written : List Value
written = dict (("x.com.samsung.da.id", str "0") ∷ ("x.com.samsung.da.desired", str "3") ∷ []) ∷ []

row_at-merge_items_field_example :
    row_at "x.com.samsung.da.id" "0" (merge_items_field rows written "x.com.samsung.da.id")
    ≡ some (("x.com.samsung.da.id", str "0") ∷ ("x.com.samsung.da.desired", str "3") ∷ [])
unfolding row_at Dict.get Dict.merge
row_at-merge_items_field_example = row_at-merge_items_field rows written "x.com.samsung.da.id" "0"

-- the replies that are to come, and the time
abbrev pub World : Type 0
World = List Reply × ℕ

abbrev pub next_reply : World → World × Reply
next_reply ([], now) = (([], now + 100), failed)
next_reply (r ∷ rs, now) = ((rs, now + 100), r)

abbrev pub line : Transport World
line = record {
  clock = λ w. record { monotonic = w.1; wall = 0 };
  sleep = λ n w. (w.0, w.1 + n);
  connect = λ w. (w, true);
  write = λ path body w. next_reply w;
  read = λ path w. (w, none);
}

-- the first PUT meets a dead session, the second is refused
abbrev refusing : Coordinator World (Dict Rep)
refusing = record {
  world = (failed ∷ answered 132 ∷ [], 6000);
  observed = fridge;
  session = true;
  resubscribe_due = false;
  attempts = [];
  refreshes = 0;
}

abbrev switch : Control
switch = record {
  write_only = false;
  merges_modes = false;
  confirm_on_refusal = false;
  optimistic_fn = none;
}

abbrev power : Target
power = record {
  href = "/power/vs/0";
  path = "power" ∷ "vs" ∷ "0" ∷ [];
  body = dict (("power", str "on") ∷ []);
  remote_control_off = false;
}

abbrev pub delays : Delays
delays = record { settle = 30000; confirm = 1000; reconnect = 2000 }

abbrev pub same : Value → Value → Bool
same v w = eq v w

send_command-settles_example :
    (is_settling 9000 "/power/vs/0"
      (send_command line table_cache same delays switch power refusing).0.observed).0
    ≡ (is_settling 9000 "/power/vs/0" fridge).0
unfolding send_command mark_write_pending apply
send_command-settles_example =
    send_command-settles line table_cache same delays switch power refusing command_refused 9000
      "/power/vs/0" refl (omega arith)

send_command-ends_example :
    (replies : List Reply) × ((send_command line table_cache same delays switch power
        refusing).0.attempts
      ≡ map (λ r. (power.path, power.body, r)) replies ++ [])
    × (may_end switch power replies
          (send_command line table_cache same delays switch power refusing).1
        ≡ true)
send_command-ends_example = send_command-ends line table_cache same delays switch power refusing

abbrev plain_texts : Texts
plain_texts = record { lower = λ s. s; hide_macs = λ s. s }

abbrev report : Value
report = dict (("deviceid", str "ab12") ∷ ("power", str "on") ∷ [])

redact_resources-IsClean_example : is_clean plain_texts (redact_resources plain_texts report) ≡ true
redact_resources-IsClean_example = redact_resources-IsClean plain_texts report

-- a byte in unary, behind which a "b" stands
abbrev unary : ℕ → String → String
unary zero s = s
unary (suc n) s = String.◌∷◌ "a" (unary n s)

abbrev encode : List ℕ → String
encode [] = ""
encode (n ∷ ns) = unary n (String.◌∷◌ "b" (encode ns))

abbrev decode : ℕ → String → Option (List ℕ)
decode n String.[] = some []
decode n (String.◌∷◌ c s) =
    let rest = decode 0 s in
    let more = decode (suc n) s in
    if eqb (code c) b'b'
    then elim rest as (λ o. Option (List ℕ)) [ none ↦ none | some ns ↦ some (n ∷ ns) ]
    else more

decode-unary : (k n : ℕ) (s : String) → decode k (unary n s) ≡ decode (n + k) s
decode-unary k zero s = ap (λ i. decode i s) (omega arith)
decode-unary k (suc n) s = decode-unary (suc k) n s ∙ ap (λ i. decode i s) (omega arith)

decode-encode : (raw : List ℕ) → decode 0 (encode raw) ≡ some raw
decode-encode [] = refl
decode-encode (n ∷ ns) =
    decode-unary 0 n (String.◌∷◌ "b" (encode ns))
    ∙ rw (decode-encode ns) (ap (λ i. some (i ∷ ns)) (omega arith))

abbrev codec : Codec ℕ
codec = record {
  b64encode = encode;
  b64decode = decode 0;
  sha256 = λ raw. "";
  is_finite = λ f. true;
  float_repr = λ f. "";
}

abbrev history : Object ℕ
history = mapping 7 (
    pair (text_key "blob") (binary (3 ∷ 0 ∷ 2 ∷ []))
      (pair (text_key "sent") (sequence tuple_kind 8 (also (truth true) no_objects)) no_pairs))

from_json_safe-json_safe_example :
    from_json_safe codec (json_safe codec 16 history)
    ≡ mapping 0 (
        pair
          (text_key "blob")
          (binary (3 ∷ 0 ∷ 2 ∷ []))
          (pair (text_key "sent") (sequence list_kind 0 (also (truth true) no_objects)) no_pairs))
unfolding is_plain fresh
from_json_safe-json_safe_example = from_json_safe-json_safe codec decode-encode 16 history refl
