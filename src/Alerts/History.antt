-- ===== src/Alerts/History.antt =====
-- The events of a whole history of the service, for each code and key.
use stream_machine.Prelude.Tests.{Bool-cases, Option-cases, if◌then◌else◌, leb}
use stream_machine.Alerts.Watch.{
  Alternates, IsStep, IsValidEntry, message, step_entry-IsStep, is_sent,
}
use stream_machine.Alerts.{
  AlertState, AlertType, Event, Input, States, Timer, a_due, alert, alert_cleared, alert_type,
  c_due, fire_alert, fire_all_clear, fired, pending, report, run_timer, set_state, step, step_entry,
  unset, Call, new_alerts, run,
}
use stream_machine.Prelude.{
  ◌&&◌, ◌++◌, Bool, List, Option, String, [], false, inl, inr, none, refl, some, true, ℕ, ◌∷◌, ◌≡◌,
  arith,
}
use text.Mathlib.Text.{◌==◌ as str_eq}
use text.Mathlib.TextEquality.{eq_iff as str_eq_iff}

abbrev is_of : String → String → Event → Bool
is_of code key e = str_eq (message e).code code && str_eq (message e).key key

-- The events for a code and key.
abbrev pub events_of : String → String → List Event → List Event
events_of code key [] = []
events_of code key (e ∷ es) =
    let rest = events_of code key es in if is_of code key e then e ∷ rest else rest

abbrev AllOf : String → String → List Event → Type 0
AllOf code key [] = Unit
AllOf code key (e ∷ es) = ((message e).code ≡ code) × ((message e).key ≡ key) × AllOf code key es

abbrev AllValid : States → Type 0
AllValid m = (code key : String) → IsValidEntry code key (m code key)

events_of-append :
    (code key : String) (es fs : List Event)
    → events_of code key (es ++ fs) ≡ events_of code key es ++ events_of code key fs
events_of-append code key [] fs = refl
events_of-append code key (e ∷ es) fs = elim (Bool-cases (is_of code key e)) [
  | inl mine ↦ rw (mine, events_of-append code key es fs) refl
  | inr theirs ↦ rw (theirs, events_of-append code key es fs) refl
]

events_of-same :
    (code key : String) (es : List Event) → AllOf code key es → events_of code key es ≡ es
events_of-same code key [] h = refl
events_of-same code key (e ∷ es) (p, q, h) =
    let mine : is_of code key e ≡ true =
      ground (arith, p, q, str_eq_iff (message e).code code, str_eq_iff (message e).key key) in
    rw (mine, events_of-same code key es h) refl

events_of-other :
    (code key c k : String) (es : List Event)
    → (str_eq c code && str_eq k key) ≡ false
    → AllOf code key es
    → events_of c k es ≡ []
events_of-other code key c k [] n h = refl
events_of-other code key c k (e ∷ es) n (p, q, h) =
    let theirs : is_of c k e ≡ false = ground (
      arith,
      p,
      q,
      n,
      str_eq_iff c code,
      str_eq_iff k key,
      str_eq_iff (message e).code c,
      str_eq_iff (message e).key k,
    ) in
    rw (theirs, events_of-other code key c k es n h) refl

Alternates-append :
    (a b c : Bool) (es fs : List Event)
    → Alternates a es b
    → Alternates b fs c
    → Alternates a (es ++ fs) c
Alternates-append a b c [] fs h k = rw h k
Alternates-append a b c (alert m ∷ es) fs (p, h) k = (p, Alternates-append true b c es fs h k)
Alternates-append a b c (alert_cleared m ∷ es) fs (p, h) k =
    (p, Alternates-append false b c es fs h k)

run_timer-AllOf :
    (code key : String) (f : AlertState → Option AlertState × List Event) (now : ℕ) (x : Timer)
    (s : AlertState)
    → AllOf code key (f s).1
    → AllOf code key (run_timer f now x s).1
unfolding run_timer
run_timer-AllOf code key f now unset s h = tt
run_timer-AllOf code key f now fired s h = tt
run_timer-AllOf code key f now (pending d) s h = elim (Bool-cases (leb d now)) [
  | inl due ↦ rw (due, run_timer) h
  | inr waits ↦ rw (waits, run_timer) tt
]

step_entry-AllOf :
    (w : AlertType) (code key : String) (now : ℕ) (i : Input) (o : Option AlertState)
    → IsValidEntry code key o
    → AllOf code key (step_entry w code key now i o).1
unfolding step_entry fire_alert fire_all_clear
step_entry-AllOf w code key now (report active) o v = tt
step_entry-AllOf w code key now a_due none v = tt
step_entry-AllOf w code key now a_due (some s) v =
    run_timer-AllOf code key (fire_alert w) now s.a_timeout s (v.0, v.1, tt)
step_entry-AllOf w code key now c_due none v = tt
step_entry-AllOf w code key now c_due (some s) v =
    run_timer-AllOf code key (fire_all_clear w) now s.c_timeout s (v.0, v.1, tt)

-- A step keeps the entry of each code and key valid, and its events fit the entry.
pub step_lem :
    (m : States) (now : ℕ) (code key : String) (i : Input) (c k : String)
    → AllValid m
    → IsStep c k (m c k) ((step m now code key i).0 c k, events_of c k (step m now code key i).1)
unfolding step set_state
step_lem m now code key i c k v = elim (Option-cases (alert_type code)) [
  | inl unknown ↦ rw (unknown, step) (v c k, refl)
  | inr (w, known) ↦ elim (Bool-cases (str_eq c code && str_eq k key)) [
    | inl same ↦
        let e : c ≡ code = ground (arith, same, str_eq_iff c code) in
        let e' : k ≡ key = ground (arith, same, str_eq_iff k key) in
        rw
          (
            known,
            step,
            same,
            e,
            e',
            events_of-same code key _ (step_entry-AllOf w code key now i (m code key) (v code key)),
          )
          (step_entry-IsStep w code key now i (m code key) (v code key))
    | inr other ↦
        rw
          (
            known,
            step,
            other,
            events_of-other code key c k _ other
                (step_entry-AllOf w code key now i (m code key) (v code key)),
          )
          (v c k, refl)
  ]
]

run-Alternates_from :
    (cs : List Call) (m : States) (code key : String)
    → AllValid m
    → Alternates
        (is_sent (m code key))
        (events_of code key (run m cs).1)
        (is_sent ((run m cs).0 code key))
unfolding run
run-Alternates_from [] m code key v = refl
run-Alternates_from (c ∷ cs) m code key v =
    let r = step m c.now c.code c.key c.input in
    let kept = step_lem m c.now c.code c.key c.input code key v in
    let valid : AllValid r.0 = λ c' k'. (step_lem m c.now c.code c.key c.input c' k' v).0 in
    rw (events_of-append code key r.1 (run r.0 cs).1) (
      Alternates-append _ _ _ (events_of code key r.1) (events_of code key (run r.0 cs).1) kept.1
        (run-Alternates_from cs r.0 code key valid))

-- Whatever is reported and whichever timers run, in any order, the events of each code and key are
-- an alert, its all-clear, an alert, its all-clear and so on; the last one is an alert exactly if
-- the state of that code and key has its alert sent.
pub run-Alternates :
    (cs : List Call) (code key : String)
    → Alternates false
        (events_of code key (run new_alerts cs).1)
        (is_sent ((run new_alerts cs).0 code key))
unfolding new_alerts
run-Alternates cs code key = run-Alternates_from cs new_alerts code key (λ c k. tt)
