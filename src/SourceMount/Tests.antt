-- ===== src/SourceMount/Tests.antt =====
-- Runs of the mount's definitions, and the theorems applied to them.
use stream_machine.SourceMount.Listening.{run-passes_active}
use stream_machine.Prelude.Tests.{if◌then◌else◌}
use stream_machine.SourceMount.{
  Input, Source, SourceMount, Switch, Vitals, add_source, added, alarm_at, data_passed, is_source,
  left, new_mount, plain, promote, run, sends_data, silent, step, ticked, vitals_arrive,
  vitals_known,
}
use stream_machine.Prelude.{List, Option, [], false, none, refl, some, true, ℕ, ◌∷◌, ◌≡◌}

abbrev icecast : Source
icecast = record { id = 1; uuid = "one"; is_fallback = false }

abbrev backup : Source
backup = record { id = 2; uuid = "two"; is_fallback = false }

abbrev mp3 : Vitals
mp3 = record { stream_key = "mp3-44100-64-s"; emit_duration = 500 }

abbrev knows_all : ℕ → Option Vitals
knows_all n = some mp3

abbrev knows_none : ℕ → Option Vitals
knows_none n = none

abbrev switch_by_icecast : Switch
switch_by_icecast = record {
  newsource = icecast;
  old_source = none;
  cb = plain 7;
  waiting = true;
  alarm = true;
}

abbrev waiting_mount : SourceMount
waiting_mount = record {
  sources = icecast ∷ [];
  source = none;
  vitals = none;
  emit_duration = none;
  listening = [];
  switches = switch_by_icecast ∷ [];
  ticks = [];
  waiters = [];
}

-- The same, when another source has taken over in the meantime.
abbrev overtaken_mount : SourceMount
overtaken_mount = record waiting_mount {
  sources = backup ∷ icecast ∷ [];
  source = some backup;
  listening = 2 ∷ [];
}

abbrev both : SourceMount
both = record waiting_mount {
  sources = icecast ∷ backup ∷ [];
  source = some icecast;
  listening = 1 ∷ [];
  switches = [];
}

first_source_waits : (add_source new_mount icecast none (plain 7)).0 ≡ waiting_mount
unfolding add_source new_mount
first_source_waits = refl

second_source_is_kept :
    (add_source (vitals_arrive waiting_mount 0 mp3).0 backup (some mp3) silent).0.sources
    ≡ icecast ∷ backup ∷ []
unfolding add_source vitals_arrive
second_source_is_kept = refl

abbrev busy_day : List Input
busy_day =
    added icecast none (plain 7)
    ∷ alarm_at 0
    ∷ vitals_known 0 mp3
    ∷ ticked
    ∷ added backup (some mp3) silent
    ∷ promote "two" knows_all 8
    ∷ left icecast knows_none
    ∷ []

run-passes_active_example :
    (step (run new_mount busy_day) (sends_data backup 5)).1
    ≡ (if is_source (run new_mount busy_day).source backup then data_passed 5 ∷ [] else [])
run-passes_active_example = run-passes_active busy_day backup 5
