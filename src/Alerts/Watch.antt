-- ===== src/Alerts/Watch.antt =====
-- The events of one code and key.
use stream_machine.Prelude.Tests.{leb, Bool-cases}
use stream_machine.Prelude.{
  Bool, List, Option, String, [], false, none, some, true, ℕ, ◌∷◌, ◌≡◌, refl, inl, inr,
}
use stream_machine.Alerts.{
  AlertState, AlertType, Event, Input, Message, Timer, alert, alert_cleared, fired, pending,
  step_entry, arm, seen, unseen, unset, update_entry, a_due, c_due, fire_alert, fire_all_clear,
  report, run_timer,
}

abbrev pub message : Event → Message
message (alert m) = m
message (alert_cleared m) = m

abbrev pub is_sent : Option AlertState → Bool
is_sent none = false
is_sent (some s) = s.alert_sent

-- Alerts and all-clears take turns, from a state in which the alert is out or not to another.
abbrev pub Alternates : Bool → List Event → Bool → Type 0
Alternates b [] b' = b ≡ b'
Alternates b (alert m ∷ es) b' = (b ≡ false) × Alternates true es b'
Alternates b (alert_cleared m ∷ es) b' = (b ≡ true) × Alternates false es b'

-- An alert can be pending only before it is out, and an all-clear only after.
abbrev pub NotPending : Timer → Type 0
NotPending unset = Unit {0}
NotPending (pending due) = ⊥
NotPending fired = Unit {0}

abbrev NotFired : Timer → Type 0
NotFired unset = Unit {0}
NotFired (pending due) = Unit {0}
NotFired fired = ⊥

abbrev IsUnset : Timer → Type 0
IsUnset unset = Unit {0}
IsUnset (pending due) = ⊥
IsUnset fired = ⊥

abbrev IsCoherent : Bool → Timer → Timer → Type 0
IsCoherent false a c = NotFired a × IsUnset c
IsCoherent true a c = NotPending a × NotFired c

abbrev pub IsValidEntry : String → String → Option AlertState → Type 0
IsValidEntry code key none = Unit
IsValidEntry code key (some s) =
    (s.code ≡ code) × (s.key ≡ key) × IsCoherent s.alert_sent s.a_timeout s.c_timeout

-- What one happening to an entry must keep.
abbrev pub IsStep : String → String → Option AlertState → Option AlertState × List Event → Type 0
IsStep code key o (o', es) = IsValidEntry code key o' × Alternates (is_sent o) es (is_sent o')

abbrev make : String → String → ℕ → ℕ → Bool → Timer → Timer → AlertState
make code key t l sent a c = record {
  code = code;
  key = key;
  triggered_at = t;
  last_seen_at = l;
  alert_sent = sent;
  a_timeout = a;
  c_timeout = c;
}

report-IsStep :
    (w : AlertType) (code key : String) (now : ℕ) (active : Bool) (o : Option AlertState)
    → IsValidEntry code key o
    → IsStep code key o (update_entry w code key now active o, [])
unfolding update_entry seen arm unseen
report-IsStep w code key now true none v = ((refl, refl, (tt, tt)), refl)
report-IsStep w code key now false none v = (tt, refl)
report-IsStep w code key now active (some s) v =
    by_parts active s.code s.key s.triggered_at s.last_seen_at s.alert_sent s.a_timeout s.c_timeout
      v
  where
    by_parts :
        (active : Bool) (c k : String) (t l : ℕ) (sent : Bool) (a b : Timer)
        → let o : Option AlertState = some (make c k t l sent a b) in
          IsValidEntry code key o → IsStep code key o (update_entry w code key now active o, [])
    by_parts true c k t l false unset b (p, q, h) = ((p, q, (tt, tt)), refl)
    by_parts true c k t l false (pending d) b (p, q, h) = ((p, q, (tt, tt)), refl)
    by_parts true c k t l false fired b (p, q, h) = absurd h.0
    by_parts true c k t l true a b (p, q, h) = ((p, q, (h.0, tt)), refl)
    by_parts false c k t l false a unset (p, q, h) = ((p, q, (tt, tt)), refl)
    by_parts false c k t l false a (pending d) (p, q, h) = absurd h.1
    by_parts false c k t l false a fired (p, q, h) = absurd h.1
    by_parts false c k t l true a unset (p, q, h) = ((p, q, (tt, tt)), refl)
    by_parts false c k t l true a (pending d) (p, q, h) = ((p, q, (tt, tt)), refl)
    by_parts false c k t l true a fired (p, q, h) = absurd h.1

fire_alert-IsStep :
    (w : AlertType) (code key : String) (now : ℕ) (s : AlertState)
    → IsValidEntry code key (some s)
    → IsStep code key (some s) (run_timer (fire_alert w) now s.a_timeout s)
unfolding run_timer fire_alert
fire_alert-IsStep w code key now s v =
    by_parts s.code s.key s.triggered_at s.last_seen_at s.alert_sent s.a_timeout s.c_timeout v
  where
    by_parts :
        (c k : String) (t l : ℕ) (sent : Bool) (a b : Timer)
        → let s = make c k t l sent a b in
          IsValidEntry code key (some s)
          → IsStep code key (some s) (run_timer (fire_alert w) now a s)
    by_parts c k t l sent unset b v = (v, refl)
    by_parts c k t l sent fired b v = (v, refl)
    by_parts c k t l true (pending d) b (p, q, h) = absurd h.0
    by_parts c k t l false (pending d) unset (p, q, h) = elim (Bool-cases (leb d now)) [
      | inl due ↦ rw (due, run_timer) ((p, q, (tt, tt)), (refl, refl))
      | inr waits ↦ rw (waits, run_timer) ((p, q, (tt, tt)), refl)
    ]
    by_parts c k t l false (pending d) (pending e) (p, q, h) = absurd h.1
    by_parts c k t l false (pending d) fired (p, q, h) = absurd h.1

fire_all_clear-IsStep :
    (w : AlertType) (code key : String) (now : ℕ) (s : AlertState)
    → IsValidEntry code key (some s)
    → IsStep code key (some s) (run_timer (fire_all_clear w) now s.c_timeout s)
unfolding run_timer fire_all_clear
fire_all_clear-IsStep w code key now s v =
    by_parts s.code s.key s.triggered_at s.last_seen_at s.alert_sent s.a_timeout s.c_timeout v
  where
    by_parts :
        (c k : String) (t l : ℕ) (sent : Bool) (a b : Timer)
        → let s = make c k t l sent a b in
          IsValidEntry code key (some s)
          → IsStep code key (some s) (run_timer (fire_all_clear w) now b s)
    by_parts c k t l sent a unset v = (v, refl)
    by_parts c k t l sent a fired v = (v, refl)
    by_parts c k t l false a (pending d) (p, q, h) = absurd h.1
    by_parts c k t l true a (pending d) (p, q, h) = elim (Bool-cases (leb d now)) [
      | inl due ↦ rw (due, run_timer) (tt, (refl, refl))
      | inr waits ↦ rw (waits, run_timer) ((p, q, h), refl)
    ]

pub step_entry-IsStep :
    (w : AlertType) (code key : String) (now : ℕ) (i : Input) (o : Option AlertState)
    → IsValidEntry code key o
    → IsStep code key o (step_entry w code key now i o)
unfolding step_entry
step_entry-IsStep w code key now (report active) o v = report-IsStep w code key now active o v
step_entry-IsStep w code key now a_due none v = (tt, refl)
step_entry-IsStep w code key now a_due (some s) v = fire_alert-IsStep w code key now s v
step_entry-IsStep w code key now c_due none v = (tt, refl)
step_entry-IsStep w code key now c_due (some s) v = fire_all_clear-IsStep w code key now s v
