-- ===== src/Alerts/Tests.antt =====
-- Runs of the alerts' definitions, and the theorems applied to them.
use stream_machine.Alerts.PagerDuty.{
  create, details, error_logged, new_pager, send_alert, send_all_clear,
}
use stream_machine.Alerts.History.{events_of, run-Alternates}
use stream_machine.Alerts.Debounce.{alert_of, clear_of, lasting-alert, run_entry}
use stream_machine.Prelude.{List, [], arith, false, none, refl, true, ℕ, ◌∷◌, ◌≡◌, some}
use stream_machine.Alerts.Watch.{Alternates, is_sent}
use stream_machine.Alerts.{
  AlertType, Call, Input, a_due, c_due, new_alerts, report, run, step, Message,
}

abbrev sourceless : AlertType
sourceless = record {
  description = "A monitored stream has lost its only source connection.";
  wait_for = 30;
}

abbrev kpcc : ℕ → Input → Call
kpcc now i = record { now = now; code = "sourceless"; key = "kpcc"; input = i }

abbrev slave : ℕ → Input → Call
slave now i = record { now = now; code = "slave_unsynced"; key = "lax"; input = i }

-- Two conditions at once; the one of the slave ends in time.
abbrev two_conditions : List Call
two_conditions =
    kpcc 0 (report true)
    ∷ slave 1000 (report true)
    ∷ slave 2000 (report false)
    ∷ kpcc 30000 a_due
    ∷ slave 31000 a_due
    ∷ kpcc 40000 (report false)
    ∷ kpcc 70000 c_due
    ∷ []

two_conditions-run :
    (run new_alerts two_conditions).1
    ≡ alert_of sourceless "sourceless" "kpcc" 0 ∷ clear_of sourceless "sourceless" "kpcc" 0 0 ∷ []
unfolding run new_alerts
two_conditions-run = refl

unknown_code : step new_alerts 0 "sunspots" "kpcc" (report true) ≡ (new_alerts, [])
unfolding step
unknown_code = refl

run-Alternates_example :
    Alternates false
      (events_of "sourceless" "kpcc" (run new_alerts two_conditions).1)
      (is_sent ((run new_alerts two_conditions).0 "sourceless" "kpcc"))
run-Alternates_example = run-Alternates two_conditions "sourceless" "kpcc"

lasting-alert_example :
    run_entry sourceless "sourceless" "kpcc" none (
      (0, report true)
      ∷ (10000, report true)
      ∷ (29999, a_due)
      ∷ (30000, a_due)
      ∷ (40000, report false)
      ∷ (69999, c_due)
      ∷ (70000, c_due)
      ∷ [])
    ≡ (
      none,
      alert_of sourceless "sourceless" "kpcc" 0
          ∷ clear_of sourceless "sourceless" "kpcc" 0 10000
          ∷ [],
    )
lasting-alert_example =
    lasting-alert sourceless "sourceless" "kpcc" 0 10000 29999 30000 40000 69999 70000 (omega arith)
      (omega arith) (omega arith) (omega arith)

abbrev lost : Message
lost = record {
  code = "sourceless";
  key = "kpcc";
  triggered_at = 0;
  last_seen_at = none;
  description = "A monitored stream has lost its only source connection.";
}

abbrev found : Message
found = record lost { last_seen_at = some 40000 }

alert_without_answer :
    send_all_clear new_pager found
    ≡ error_logged "Could not send allClear to PagerDuty. No incident key in system."
unfolding send_all_clear new_pager
alert_without_answer = refl

sends_alert : send_alert lost ≡ create "[StreamMachine/kpcc] sourceless Alert" (details lost)
unfolding send_alert
sends_alert = refl
