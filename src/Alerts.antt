-- ===== src/Alerts.antt =====
-- js/src/streammachine/alerts.js: a condition that lasts raises an alert, and one that stays away
-- clears it. Times are counted in milliseconds. The logger's lines are not modelled.
pub mod Watch
pub mod Debounce
pub mod History
pub mod PagerDuty
pub mod Tests
use stream_machine.Prelude.Tests.{if◌then◌else◌, leb}
use stream_machine.Prelude.{
  ◌&&◌, ◌*◌, ◌+◌, ◌++◌, Bool, List, Option, String, [], false, none, not, some, true, ℕ, ◌∷◌,
}
use text.Mathlib.Text.{◌==◌ as str_eq}

pub record AlertType : Type 0 where
  pub description : String
  pub wait_for : ℕ

-- ALERT_TYPES
pub alert_type : String → Option AlertType
alert_type code =
    if str_eq code "sourceless"
    then some (record {
      description = "A monitored stream has lost its only source connection.";
      wait_for = 30;
    })
    else if str_eq code "slave_disconnected"
    then some (record {
      description = "A slave server has lost its connection to the master server.";
      wait_for = 30;
    })
    else if str_eq code "slave_unresponsive"
    then some (record {
      description = "A slave server has stopped responding to our status queries.";
      wait_for = 30;
    })
    else if str_eq code "slave_unsynced"
    then some (record { description = "A slave server is out of sync with master."; wait_for = 30 })
    else none

-- A property that holds a timer: null or deleted, waiting until a time, or left there after the
-- timer has run. Only the first is falsy.
pub data Timer : Type 0 where
  unset : Timer
  pending : ℕ → Timer
  fired : Timer

abbrev pub is_unset : Timer → Bool
is_unset unset = true
is_unset (pending due) = false
is_unset fired = false

pub record AlertState : Type 0 where
  pub code : String
  pub key : String
  pub triggered_at : ℕ
  pub last_seen_at : ℕ
  pub alert_sent : Bool
  pub a_timeout : Timer
  pub c_timeout : Timer

-- The object of an event; the alert has no `last_seen_at`.
pub record Message : Type 0 where
  pub code : String
  pub key : String
  pub triggered_at : ℕ
  pub last_seen_at : Option ℕ
  pub description : String

pub data Event : Type 0 where
  alert : Message → Event
  alert_cleared : Message → Event

-- this._states
abbrev pub States : Type 0
States = String → String → Option AlertState

-- The condition is seen: a new state, or the old one with its all-clear called off.
seen : String → String → ℕ → Option AlertState → AlertState
seen code key now none = record {
  code = code;
  key = key;
  triggered_at = now;
  last_seen_at = now;
  alert_sent = false;
  a_timeout = unset;
  c_timeout = unset;
}
seen code key now (some s) = record s { last_seen_at = now; c_timeout = unset }

arm : ℕ → AlertState → AlertState
arm due s =
    if not s.alert_sent && is_unset s.a_timeout then record s { a_timeout = pending due } else s

-- The condition is not seen: the alert is called off, or the all-clear is prepared.
unseen : ℕ → AlertState → AlertState
unseen due s =
    if s.alert_sent && is_unset s.c_timeout
    then record s { a_timeout = unset; c_timeout = pending due }
    else record s { a_timeout = unset }

-- `update` on the state of its code and key.
pub update_entry : AlertType → String → String → ℕ → Bool → Option AlertState → Option AlertState
unfolding seen arm unseen
update_entry t code key now true o = some (arm (now + t.wait_for * 1000) (seen code key now o))
update_entry t code key now false none = none
update_entry t code key now false (some s) = some (unseen (now + t.wait_for * 1000) s)

-- `_fireAlert`, which the alert timer runs.
fire_alert : AlertType → AlertState → Option AlertState × List Event
fire_alert t s = (
  some (record s { alert_sent = true; a_timeout = fired }),
  alert (record {
    code = s.code;
    key = s.key;
    triggered_at = s.triggered_at;
    last_seen_at = none;
    description = t.description;
  })
      ∷ [],
)

-- `_fireAllClear`, which the all-clear timer runs.
fire_all_clear : AlertType → AlertState → Option AlertState × List Event
fire_all_clear t s = (
  none,
  alert_cleared (record {
    code = s.code;
    key = s.key;
    triggered_at = s.triggered_at;
    last_seen_at = some s.last_seen_at;
    description = t.description;
  })
      ∷ [],
)

-- What can happen to one code and key: a call of `update`, or the clock reaching a timer.
pub data Input : Type 0 where
  report : Bool → Input
  a_due : Input
  c_due : Input

run_timer :
    (AlertState → Option AlertState × List Event)
    → ℕ
    → Timer
    → AlertState
    → Option AlertState × List Event
run_timer f now unset s = (some s, [])
run_timer f now (pending due) s = if leb due now then f s else (some s, [])
run_timer f now fired s = (some s, [])

pub step_entry :
    AlertType → String → String → ℕ → Input → Option AlertState → Option AlertState × List Event
unfolding update_entry fire_alert fire_all_clear run_timer
step_entry t code key now (report active) o = (update_entry t code key now active o, [])
step_entry t code key now a_due none = (none, [])
step_entry t code key now a_due (some s) = run_timer (fire_alert t) now s.a_timeout s
step_entry t code key now c_due none = (none, [])
step_entry t code key now c_due (some s) = run_timer (fire_all_clear t) now s.c_timeout s

-- this._states[code][key] = ..., or delete.
pub set_state : States → String → String → Option AlertState → States
set_state m code key o c k = if str_eq c code && str_eq k key then o else m c k

-- One happening, with the events emitted. A code that is unknown changes nothing.
unfoldable pub step : States → ℕ → String → String → Input → States × List Event
unfolding step_entry set_state alert_type
step m now code key i = elim (alert_type code) [
  | none ↦ (m, [])
  | some t ↦ let r = step_entry t code key now i (m code key) in (set_state m code key r.0, r.1)
]

pub record Call : Type 0 where
  pub now : ℕ
  pub code : String
  pub key : String
  pub input : Input

unfoldable pub run : States → List Call → States × List Event
unfolding step
run m [] = (m, [])
run m (c ∷ cs) =
    let r = step m c.now c.code c.key c.input in let rest = run r.0 cs in (rest.0, r.1 ++ rest.1)

unfoldable pub new_alerts : States
new_alerts c k = none
