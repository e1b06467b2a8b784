-- ===== src/Alerts/Debounce.antt =====
-- When the timers of a code and key run, and when they are called off.
use stream_machine.Alerts.Watch.{NotPending}
use stream_machine.Prelude.Tests.{Bool-cases, leb}
use stream_machine.Alerts.{
  AlertState, AlertType, Event, Input, Timer, a_due, alert, alert_cleared, c_due, fire_alert,
  fire_all_clear, fired, is_unset, pending, report, run_timer, step_entry, unseen, unset,
  update_entry,
}
use stream_machine.Prelude.{
  ◌&&◌, ◌++◌, List, Option, String, [], false, inl, inr, none, refl, some, true, ℕ, ◌∷◌, ◌≡◌, ◌*◌,
  ◌+◌, ◌<◌, arith, ◌≤◌,
}

-- What happens to one code and key, each at its time.
abbrev pub run_entry :
    AlertType
    → String
    → String
    → Option AlertState
    → List (ℕ × Input)
    → Option AlertState × List Event
run_entry w code key o [] = (o, [])
run_entry w code key o ((now, i) ∷ is) =
    let r = step_entry w code key now i o in
    let rest = run_entry w code key r.0 is in (rest.0, r.1 ++ rest.1)

-- The condition is not reported as active.
abbrev pub NeverActive : List (ℕ × Input) → Type 0
NeverActive [] = Unit
NeverActive ((now, report true) ∷ is) = ⊥
NeverActive ((now, report false) ∷ is) = NeverActive is
NeverActive ((now, a_due) ∷ is) = NeverActive is
NeverActive ((now, c_due) ∷ is) = NeverActive is

abbrev pub NoAlert : List Event → Type 0
NoAlert [] = Unit
NoAlert (alert m ∷ es) = ⊥
NoAlert (alert_cleared m ∷ es) = NoAlert es

-- No alert is pending.
abbrev IsQuiet : Option AlertState → Type 0
IsQuiet none = Unit
IsQuiet (some s) = NotPending s.a_timeout

NoAlert-append : (es fs : List Event) → NoAlert es → NoAlert fs → NoAlert (es ++ fs)
NoAlert-append [] fs h k = k
NoAlert-append (alert m ∷ es) fs h k = absurd h
NoAlert-append (alert_cleared m ∷ es) fs h k = NoAlert-append es fs h k

quiet_timer :
    (w : AlertType) (now : ℕ) (x : Timer) (s : AlertState)
    → NotPending x
    → run_timer (fire_alert w) now x s ≡ (some s, [])
unfolding run_timer
quiet_timer w now unset s h = refl
quiet_timer w now fired s h = refl
quiet_timer w now (pending d) s h = absurd h

all_clear-IsQuiet :
    (w : AlertType) (now : ℕ) (x : Timer) (s : AlertState)
    → NotPending s.a_timeout
    → IsQuiet (run_timer (fire_all_clear w) now x s).0
      × NoAlert (run_timer (fire_all_clear w) now x s).1
unfolding run_timer fire_all_clear
all_clear-IsQuiet w now unset s h = (h, tt)
all_clear-IsQuiet w now fired s h = (h, tt)
all_clear-IsQuiet w now (pending d) s h = elim (Bool-cases (leb d now)) [
  | inl due ↦ rw (due, run_timer) (tt, tt)
  | inr waits ↦ rw (waits, run_timer) (h, tt)
]

unseen-IsQuiet :
    (w : AlertType) (code key : String) (now : ℕ) (o : Option AlertState)
    → IsQuiet (update_entry w code key now false o)
unfolding update_entry unseen
unseen-IsQuiet w code key now none = tt
unseen-IsQuiet w code key now (some s) = elim (Bool-cases (s.alert_sent && is_unset s.c_timeout)) [
  | inl clears ↦ rw (clears, unseen) tt
  | inr stays ↦ rw (stays, unseen) tt
]

quiet_run :
    (w : AlertType) (code key : String) (o : Option AlertState) (is : List (ℕ × Input))
    → IsQuiet o
    → NeverActive is
    → NoAlert (run_entry w code key o is).1
unfolding step_entry
quiet_run w code key o [] q h = tt
quiet_run w code key o ((now, report true) ∷ is) q h = absurd h
quiet_run w code key o ((now, report false) ∷ is) q h =
    quiet_run w code key (update_entry w code key now false o) is (unseen-IsQuiet w code key now o)
      h
quiet_run w code key none ((now, a_due) ∷ is) q h = quiet_run w code key none is tt h
quiet_run w code key (some s) ((now, a_due) ∷ is) q h =
    rw (quiet_timer w now s.a_timeout s q, step_entry) (quiet_run w code key (some s) is q h)
quiet_run w code key none ((now, c_due) ∷ is) q h = quiet_run w code key none is tt h
quiet_run w code key (some s) ((now, c_due) ∷ is) q h =
    let r = run_timer (fire_all_clear w) now s.c_timeout s in
    let kept = all_clear-IsQuiet w now s.c_timeout s q in
    NoAlert-append r.1 (run_entry w code key r.0 is).1 kept.1 (quiet_run w code key r.0 is kept.0 h)

-- After a report that the condition is gone no alert is emitted, whatever runs, until it is
-- reported as active again.
pub gone-NoAlert :
    (w : AlertType) (code key : String) (o : Option AlertState) (now : ℕ) (is : List (ℕ × Input))
    → NeverActive is
    → NoAlert (run_entry w code key (step_entry w code key now (report false) o).0 is).1
unfolding step_entry
gone-NoAlert w code key o now is h =
    quiet_run w code key (update_entry w code key now false o) is (unseen-IsQuiet w code key now o)
      h

abbrev pub alert_of : AlertType → String → String → ℕ → Event
alert_of w code key t = alert (record {
  code = code;
  key = key;
  triggered_at = t;
  last_seen_at = none;
  description = w.description;
})

abbrev pub clear_of : AlertType → String → String → ℕ → ℕ → Event
clear_of w code key t l = alert_cleared (record {
  code = code;
  key = key;
  triggered_at = t;
  last_seen_at = some l;
  description = w.description;
})

-- A condition that is reported at t0 and again at t1, and is not reported gone, raises an alert when
-- the clock reaches t0 and the waiting time; reported gone at t2, it is cleared and forgotten when
-- the clock reaches t2 and the waiting time. No timer runs its event earlier.
pub lasting-alert :
    (w : AlertType) (code key : String) (t0 t1 early now t2 early' now' : ℕ)
    → early < t0 + w.wait_for * 1000
    → t0 + w.wait_for * 1000 ≤ now
    → early' < t2 + w.wait_for * 1000
    → t2 + w.wait_for * 1000 ≤ now'
    → run_entry w code key none (
        (t0, report true)
        ∷ (t1, report true)
        ∷ (early, a_due)
        ∷ (now, a_due)
        ∷ (t2, report false)
        ∷ (early', c_due)
        ∷ (now', c_due)
        ∷ [])
      ≡ (none, alert_of w code key t0 ∷ clear_of w code key t0 t1 ∷ [])
unfolding step_entry
lasting-alert w code key t0 t1 early now t2 early' now' h1 h2 h3 h4 =
    let d = t0 + w.wait_for * 1000 in
    let d' = t2 + w.wait_for * 1000 in
    let a : leb d early ≡ false = ground arith in
    let b : leb d now ≡ true = ground arith in
    let a' : leb d' early' ≡ false = ground arith in
    let b' : leb d' now' ≡ true = ground arith in rw (a, b, a', b') refl

-- A condition that is reported gone before its alert is out keeps its state: when it comes back
-- and lasts, the alert gives the time at which it was first reported, however long ago.
pub returning-alert :
    (w : AlertType) (code key : String) (t0 t1 t2 now : ℕ)
    → t2 + w.wait_for * 1000 ≤ now
    → (run_entry w code key none
        ((t0, report true) ∷ (t1, report false) ∷ (t2, report true) ∷ (now, a_due) ∷ [])).1
      ≡ alert_of w code key t0 ∷ []
unfolding step_entry
returning-alert w code key t0 t1 t2 now h =
    let b : leb (t2 + w.wait_for * 1000) now ≡ true = ground arith in rw b refl
