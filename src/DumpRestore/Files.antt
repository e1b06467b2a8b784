-- ===== src/DumpRestore/Files.antt =====
-- What the events of a file do to a dump that goes on (dump_restore.js).
use stream_machine.DumpRestore.{
  Dumper, Job, Result, answer_once, FileEvent, Stage, closed_at, closes, dumped, failed, file_event,
  file_event_of, opened_at, opening, opens, renamed_at, renames, renaming, unlinked_at,
  unlinking_both, unlinking_one, unlinks, write_fails, writing,
}
use stream_machine.Prelude.Tests.{Bool-cases}
use stream_machine.Prelude.{Bool, Option, false, inl, inr, none, not, refl, some, true, ◌≡◌, ◌⊎◌, ℕ}

abbrev pub has_open : Dumper → Bool
has_open d = elim d.job [ none ↦ false | some j ↦ not j.called ]

abbrev pub Owned : Dumper → Type 0
Owned d = (d.job ≡ none) ⊎ (d.active ≡ true)

-- What an event of a file does to its dumper: it goes on, or it gives its result.
abbrev pub Went : Dumper → Dumper × Option Result → Type 0
Went d (d', none) = (has_open d' ≡ has_open d) × Owned d'
Went d (d', some r) = (has_open d ≡ true) × (has_open d' ≡ false) × Owned d'

Owned-job : (d : Dumper) (j : Job) → d.job ≡ some j → Owned d → d.active ≡ true
Owned-job d j job (inl none_there) = absurd (cc (job, none_there))
Owned-job d j job (inr active) = active

answer_once-Went :
    (d d' : Dumper) (j : Job) (r : Result)
    → d.job ≡ some j
    → Owned d'
    → has_open d' ≡ false
    → Went d (d', answer_once j.called r)
unfolding answer_once
answer_once-Went d d' j r job owned closed = elim (Bool-cases j.called) [
  | inl before ↦ rw (job, before) (closed, owned)
  | inr first ↦ rw (job, first) (refl, closed, owned)
]

opened_at-Went :
    (d : Dumper) (j : Job) (g : Stage) → d.job ≡ some j → Owned d → Went d (opened_at d j g, none)
unfolding opened_at
opened_at-Went d j opening job owned = (rw job refl, inr (Owned-job d j job owned))
opened_at-Went d j writing job owned = (refl, owned)
opened_at-Went d j renaming job owned = (refl, owned)
opened_at-Went d j unlinking_both job owned = (refl, owned)
opened_at-Went d j (unlinking_one b) job owned = (refl, owned)

closed_at-Went :
    (bytes : ℕ) (d : Dumper) (j : Job) (g : Stage)
    → d.job ≡ some j
    → Owned d
    → Went d (closed_at bytes d j g, none)
unfolding closed_at
closed_at-Went bytes d j opening job owned = (refl, owned)
closed_at-Went bytes d j writing job owned = (rw job refl, inr (Owned-job d j job owned))
closed_at-Went bytes d j renaming job owned = (refl, owned)
closed_at-Went bytes d j unlinking_both job owned = (refl, owned)
closed_at-Went bytes d j (unlinking_one b) job owned = (refl, owned)

unlinked_at-Went :
    (err : Bool) (d : Dumper) (j : Job) (g : Stage)
    → d.job ≡ some j
    → Owned d
    → Went d (unlinked_at err d j g)
unfolding unlinked_at
unlinked_at-Went err d j opening job owned = (refl, owned)
unlinked_at-Went err d j writing job owned = (refl, owned)
unlinked_at-Went err d j renaming job owned = (refl, owned)
unlinked_at-Went err d j unlinking_both job owned = (rw job refl, inr (Owned-job d j job owned))
unlinked_at-Went err d j (unlinking_one b) job owned =
    answer_once-Went d (record d { active = false; job = none }) j _ job (inl refl) refl

renamed_at-Went :
    (err : Bool) (d : Dumper) (j : Job) (g : Stage)
    → d.job ≡ some j
    → Owned d
    → Went d (renamed_at err d j g)
unfolding renamed_at
renamed_at-Went true d j renaming job owned =
    answer_once-Went d (record d { job = none }) j failed job (inl refl) refl
renamed_at-Went false d j renaming job owned =
    answer_once-Went d (record d { active = false; job = none }) j dumped job (inl refl) refl
renamed_at-Went true d j opening job owned = (refl, owned)
renamed_at-Went true d j writing job owned = (refl, owned)
renamed_at-Went true d j unlinking_both job owned = (refl, owned)
renamed_at-Went true d j (unlinking_one b) job owned = (refl, owned)
renamed_at-Went false d j opening job owned = (refl, owned)
renamed_at-Went false d j writing job owned = (refl, owned)
renamed_at-Went false d j unlinking_both job owned = (refl, owned)
renamed_at-Went false d j (unlinking_one b) job owned = (refl, owned)

file_event_of-Went :
    (e : FileEvent) (d : Dumper) (j : Job) → d.job ≡ some j → Owned d → Went d (file_event_of e d j)
unfolding file_event_of
file_event_of-Went opens d j job owned = opened_at-Went d j j.stage job owned
file_event_of-Went write_fails d j job owned =
    answer_once-Went d (record d { job = some (record j { called = true }) }) j failed job
      (inr (Owned-job d j job owned)) refl
file_event_of-Went (closes n) d j job owned = closed_at-Went n d j j.stage job owned
file_event_of-Went (unlinks err) d j job owned = unlinked_at-Went err d j j.stage job owned
file_event_of-Went (renames err) d j job owned = renamed_at-Went err d j j.stage job owned

pub file_event-Went : (e : FileEvent) (d : Dumper) → Owned d → Went d (file_event e d)
unfolding file_event
file_event-Went e d owned = go d.job refl
  where
    go :
        (o : Option Job)
        → d.job ≡ o
        → Went d (elim o [ none ↦ (d, none) | some j ↦ file_event_of e d j ])
    go none job = (refl, owned)
    go (some j) job = file_event_of-Went e d j job owned
