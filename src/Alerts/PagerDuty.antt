-- ===== src/Alerts/PagerDuty.antt =====
-- js/src/streammachine/alerts.js, `Alerts.PagerDuty`: alerts become incidents. The library pagerduty
-- answers a request later, with `created` or `resolved`. `_logResponse`, which only writes a line to
-- the log, and the debug lines are not modelled.
use stream_machine.Prelude.Tests.{if◌then◌else◌, Bool-cases}
use stream_machine.Alerts.{Message}
use stream_machine.Prelude.{
  List, Option, String, [], false, none, refl, some, true, ◌∷◌, ◌≡◌, ap, ◌∙◌, inl, inr,
}
use text.Mathlib.Text.{◌==◌ as str_eq}
use Prim.Native.String.{◌++◌ as str_append}
use text.Mathlib.TextEquality.{eq_iff as str_eq_iff}

pub record Details : Type 0 where
  pub via : String
  pub code : String
  pub description : String
  pub key : String

-- What the library is asked for, and what goes to the log as an error.
pub data PagerEvent : Type 0 where
  create : String → Details → PagerEvent
  resolve : String → String → Details → PagerEvent
  error_logged : String → PagerEvent

-- this.incidentKeys
abbrev pub IncidentKeys : Type 0
IncidentKeys = String → Option String

unfoldable pub new_pager : IncidentKeys
new_pager k = none

unfoldable pub details : Message → Details
details m = record {
  via = "StreamMachine Alerts";
  code = m.code;
  description = m.description;
  key = str_append m.code (str_append "/" m.key);
}

-- "[StreamMachine/" + msg.key + "] " + msg.code + ending
pub subject : Message → String → String
subject m ending =
    str_append "[StreamMachine/" (str_append m.key (str_append "] " (str_append m.code ending)))

set_key : IncidentKeys → String → Option String → IncidentKeys
set_key keys k o j = if str_eq j k then o else keys j

-- `_sendAlert`
unfoldable pub send_alert : Message → PagerEvent
unfolding details subject
send_alert m = create (subject m " Alert") (details m)

-- The callback of create: a response that is undefined throws, and gives `none`.
unfoldable pub created :
    IncidentKeys → Details → Option (Option String) → Option (IncidentKeys × List PagerEvent)
unfolding set_key
created keys d none = none
created keys d (some none) =
    some (keys, error_logged "PagerDuty response did not include an incident key." ∷ [])
created keys d (some (some k)) =
    if str_eq k ""
    then some (keys, error_logged "PagerDuty response did not include an incident key." ∷ [])
    else some (set_key keys d.key (some k), [])

-- `_sendAllClear`; an empty incident key would be falsy, but is never kept.
unfoldable pub send_all_clear : IncidentKeys → Message → PagerEvent
unfolding details subject
send_all_clear keys m = elim (keys (details m).key) [
  | none ↦ error_logged "Could not send allClear to PagerDuty. No incident key in system."
  | some k ↦ resolve k (subject m " Cleared") (details m)
]

-- The callback of resolve.
unfoldable pub resolved : IncidentKeys → Details → IncidentKeys
unfolding set_key
resolved keys d = set_key keys d.key none

set_key-removed :
    (keys : IncidentKeys) (k k' : String) (o : Option String) (j : String)
    → k' ≡ k
    → set_key (set_key keys k o) k' none j ≡ (if str_eq j k then none else keys j)
unfolding set_key
set_key-removed keys k k' o j e = elim (Bool-cases (str_eq j k)) [
  | inl mine ↦ rw (e, mine) refl
  | inr theirs ↦ rw (e, theirs) refl
]

send_all_clear-found :
    (keys : IncidentKeys) (m : Message) (k : String)
    → keys (details m).key ≡ some k
    → send_all_clear keys m ≡ resolve k (subject m " Cleared") (details m)
unfolding send_all_clear
send_all_clear-found keys m k e = rw (e, send_all_clear) refl

-- The all-clear of an alert, whose incident was created with a key, resolves the incident of that
-- key, and afterwards the key is forgotten while the keys of all other alerts are as before.
pub send_all_clear-resolves :
    (keys : IncidentKeys) (m cleared : Message) (k : String)
    → str_eq k "" ≡ false
    → (details cleared).key ≡ (details m).key
    → (keys' : IncidentKeys) × (created keys (details m) (some (some k)) ≡ some (keys', []))
      × (send_all_clear keys' cleared ≡ resolve k (subject cleared " Cleared") (details cleared))
      × ((j : String)
          → resolved keys' (details cleared) j
            ≡ (if str_eq j (details m).key then none else keys j))
unfolding created send_all_clear resolved
send_all_clear-resolves keys m cleared k filled alike =
    let key = (details m).key in
    let key' = (details cleared).key in
    let self : str_eq key key ≡ true = (str_eq_iff key key).1 refl in
    let kept : set_key keys key (some k) key ≡ some k = rw self refl in
    let keys' = set_key keys key (some k) in
    (
      keys',
      rw filled refl,
      send_all_clear-found keys' cleared k (ap keys' alike ∙ kept),
      λ j. set_key-removed keys key key' (some k) j alike,
    )
