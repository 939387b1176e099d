-- ===== src/Registry/Redact.antt =====
-- registry/redact.py: what is taken out of a resource tree before it leaves the installation
pub mod Clean
use localthings.Base.{
  String, Bool, true, false, not, ◌&&◌, ◌||◌, List, [], ◌∷◌, ◌==◌, if◌then◌else◌, any, mem, concat,
  endswith, occurs, Value, Items, Fields, null, flag, int, str, bytes, arr, obj, nil, cons, end,
  field, entries,
}
use localthings.Base.Dict
use localthings.Base.Dict.{Dict}

abbrev pub redacted : String
redacted = "**REDACTED**"

sensitive_substrings : List String
sensitive_substrings =
    "mac" ∷ "serial" ∷ "token" ∷ "login" ∷ "account" ∷ "email" ∷ "userid" ∷ "deviceid" ∷ "uuid"
    ∷ "duid" ∷ "tglogid" ∷ "password" ∷ "secret" ∷ "ssolist" ∷ "ssid" ∷ []

sensitive_exact : List String
sensitive_exact =
    "n" ∷ "tnn" ∷ "cd" ∷ "x.com.samsung.networkaudio.name" ∷ "x.com.samsung.rmd"
    ∷ "x.com.samsung.provisioning.sessionid" ∷ "x.com.samsung.provisioning.laststatus"
    ∷ "x.com.samsung.devicelog.connectioninfo" ∷ []

connection_row_keys : List String
connection_row_keys = "name" ∷ "groupname" ∷ "ip" ∷ []

sensitive_suffixes : List String
sensitive_suffixes = "udn" ∷ "sn" ∷ "dsn" ∷ []

-- the whole key, or its tail after "." or "_"
ends_in : String → String → Bool
ends_in key s = key == s || (endswith key (concat "." s) || endswith key (concat "_" s))

-- `str.lower` and `_MAC_VALUE_RE.sub(REDACTED, s)` stand for the parameters.
pub record Texts : Type 0 where
  pub lower : String → String
  pub hide_macs : String → String

module _ (t : Texts) where
  unfoldable pub is_sensitive_key : String → Bool
  unfolding sensitive_substrings sensitive_exact sensitive_suffixes ends_in
  is_sensitive_key key =
      let lowered = t.lower key in
      mem lowered sensitive_exact
      || (any (ends_in lowered) sensitive_suffixes
          || any (λ s. occurs s lowered) sensitive_substrings)

  -- the key of a value that is redacted, in a connection's row or elsewhere
  unfoldable pub is_hidden : Bool → String → Bool
  unfolding is_sensitive_key connection_row_keys
  is_hidden row key = is_sensitive_key key || (row && mem (t.lower key) connection_row_keys)

  unfoldable mutual
    unfolding is_hidden

    pub redact_resources : Value → Value
    redact_resources (obj fs) = obj (redact_fields (Dict.has (entries fs) "connectionType") fs)
    redact_resources (arr vs) = arr (redact_items vs)
    redact_resources (str s) = str (t.hide_macs s)
    redact_resources v = v

    pub redact_items : Items → Items
    redact_items nil = nil
    redact_items (cons v vs) = cons (redact_resources v) (redact_items vs)

    pub redact_fields : Bool → Fields → Fields
    redact_fields row end = end
    redact_fields row (field k v fs) =
        let kept = redact_resources v in
        field k (if is_hidden row k then str redacted else kept) (redact_fields row fs)
