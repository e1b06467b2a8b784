-- ===== src/DumpRestore/Faults.antt =====
-- Where dump_restore.js goes wrong.
use stream_machine.DumpRestore.Stuck.{
  AllBusy, IsStuck, StaysStuck, append-AllBusy, dump_next-StaysStuck, set_other, silent-AllBusy,
}
use stream_machine.DumpRestore.Loading.{load, on_load_event, once_loaded}
use stream_machine.DumpRestore.Running.{
  Input, adds, asks_loaded, destroys, react, react_all, starts_load, to_file, to_load, triggers,
}
use stream_machine.DumpRestore.Loading.Apart.{
  IsApart, set_dumper-cases, load-IsApart, on_load_event-IsApart, once_loaded-IsApart,
  first_destroyed-IsApart,
}
use stream_machine.DumpRestore.{
  DumpRestore, Dumper, Effect, FileEvent, Result, answered, dump_next, file_event, on_file_event,
  set_dumper, file_event_of, first_destroyed, new_stream, renames, renaming, snds, trigger_dumps,
  Job, answer_once, failed, renamed_at,
}
use stream_machine.Prelude.Tests.{◌==◌, Bool-cases, if◌then◌else◌}
use stream_machine.Prelude.{
  ◌++◌, List, Option, [], ap, arith, inl, inr, none, refl, some, subst, sym, true, ℕ, ◌∙◌, ◌∷◌, ◌≡◌,
  ◌≢◌, Bool,
}

answered-StaysStuck :
    (i j : ℕ) (r : Option Result) (s : DumpRestore)
    → j ≢ i
    → IsStuck (s.dumpers i)
    → StaysStuck i (answered j r s)
unfolding answered
answered-StaysStuck i j none s other stuck = (stuck, tt)
answered-StaysStuck i j (some r) s other stuck =
    let rest = dump_next-StaysStuck i s.queue s stuck in (rest.0, (inl other, rest.1))

-- What an event does to a dumper, by the job that it has.
file_event_with : FileEvent → Dumper → Option Job → Dumper × Option Result
file_event_with e d none = (d, none)
file_event_with e d (some j) = file_event_of e d j

file_event-job : (e : FileEvent) (d : Dumper) → file_event e d ≡ file_event_with e d d.job
unfolding file_event file_event_with
file_event-job e d =
    elim d.job
      as (λ o.
        elim o as (λ o'. Dumper × Option Result) [ none ↦ (d, none) | some j ↦ file_event_of e d j ]
        ≡ file_event_with e d o) [ none ↦ refl | some j ↦ refl ]

file_event-none : (e : FileEvent) (d : Dumper) → d.job ≡ none → file_event e d ≡ (d, none)
unfolding file_event_with
file_event-none e d no_job = file_event-job e d ∙ ap (file_event_with e d) no_job

on_file_event-none :
    (j : ℕ) (e : FileEvent) (s : DumpRestore)
    → (s.dumpers j).job ≡ none
    → on_file_event j e s ≡ (record s { dumpers = set_dumper j (s.dumpers j) s.dumpers }, [])
unfolding on_file_event answered
on_file_event-none j e s no_job =
    ap (λ out. answered j out.1 (record s { dumpers = set_dumper j out.0 s.dumpers }))
      (file_event-none e (s.dumpers j) no_job)

on_file_event-StaysStuck :
    (i j : ℕ) (e : FileEvent) (s : DumpRestore)
    → IsStuck (s.dumpers i)
    → StaysStuck i (on_file_event j e s)
unfolding on_file_event
on_file_event-StaysStuck i j e s stuck = elim (Bool-cases (j == i)) [
  | inl this ↦
      let is_it : j ≡ i = ground (arith, this) in
      let its_own : IsStuck (s.dumpers j) = subst (λ k. IsStuck (s.dumpers k)) (sym is_it) stuck in
      subst (StaysStuck i) (sym (on_file_event-none j e s its_own.1)) (
        elim (set_dumper-cases j (s.dumpers j) s.dumpers i) [
          | inl (_, same, there) ↦ subst IsStuck (sym there) its_own
          | inr (_, there) ↦ subst IsStuck (sym there) stuck
        ],
        tt,
      )
  | inr other ↦
      let differs : j ≢ i = λ same. ground (arith, other, same) in
      answered-StaysStuck i j _ _ differs (set_other i j _ s.dumpers differs stuck)
]

IsApart-StaysStuck :
    (i : ℕ) (s : DumpRestore) (out : DumpRestore × List Effect)
    → IsStuck (s.dumpers i)
    → IsApart s out
    → StaysStuck i out
IsApart-StaysStuck i s out stuck a =
    ((a.active_kept i ∙ stuck.0, a.job_kept i ∙ stuck.1), silent-AllBusy i out.1 a.silent)

trigger_dumps-StaysStuck :
    (i : ℕ) (after : Option ℕ) (s : DumpRestore)
    → IsStuck (s.dumpers i)
    → StaysStuck i (trigger_dumps after s)
unfolding trigger_dumps
trigger_dumps-StaysStuck i after s stuck = elim (Bool-cases s.working) [
  | inl busy ↦ rw busy (stuck, tt)
  | inr idle ↦
      subst (λ b. StaysStuck i (if b then working else idling)) (sym idle)
        (dump_next-StaysStuck i queue (record s { after_dumps = after }) stuck)
]
  where
    queue : List ℕ
    queue = s.queue ++ snds s.streams

    working : DumpRestore × List Effect
    working = (record s { queue = queue }, [])

    idling : DumpRestore × List Effect
    idling = dump_next queue (record s { after_dumps = after })

react-StaysStuck :
    (i : ℕ) (s : DumpRestore) (e : Input) → IsStuck (s.dumpers i) → StaysStuck i (react s e)
unfolding react new_stream
react-StaysStuck i s (triggers after) stuck = trigger_dumps-StaysStuck i after s stuck
react-StaysStuck i s (to_file j e) stuck = on_file_event-StaysStuck i j e s stuck
react-StaysStuck i s (to_load j e) stuck =
    IsApart-StaysStuck i s (on_load_event j e s) stuck (on_load_event-IsApart j e s)
react-StaysStuck i s (asks_loaded j k) stuck =
    IsApart-StaysStuck i s (once_loaded j k s) stuck (once_loaded-IsApart j k s)
react-StaysStuck i s (adds key) stuck = (stuck, tt)
react-StaysStuck i s (destroys key) stuck =
    IsApart-StaysStuck i s (first_destroyed key s, []) stuck (first_destroyed-IsApart key s)
react-StaysStuck i s starts_load stuck = IsApart-StaysStuck i s (load s) stuck (load-IsApart s)

react_all-StaysStuck :
    (i : ℕ) (is : List Input) (s : DumpRestore)
    → IsStuck (s.dumpers i)
    → StaysStuck i (react_all s is)
unfolding react_all
react_all-StaysStuck i [] s stuck = (stuck, tt)
react_all-StaysStuck i (e ∷ is) s stuck =
    let now = react-StaysStuck i s e stuck in
    let later = react_all-StaysStuck i is (react s e).0 now.0 in
    (later.0, append-AllBusy i (react s e).1 _ now.1 later.1)

answered-IsStuck :
    (i : ℕ) (r : Option Result) (s : DumpRestore)
    → IsStuck (s.dumpers i)
    → IsStuck ((answered i r s).0.dumpers i)
unfolding answered
answered-IsStuck i none s stuck = stuck
answered-IsStuck i (some r) s stuck = (dump_next-StaysStuck i s.queue s stuck).0

failed_rename-IsStuck :
    (i : ℕ) (s : DumpRestore) (called : Bool)
    → (s.dumpers i).active ≡ true
    → (s.dumpers i).job ≡ some (record { stage = renaming; called = called })
    → IsStuck ((on_file_event i (renames true) s).0.dumpers i)
unfolding on_file_event
failed_rename-IsStuck i s called active job =
    let d = s.dumpers i in
    let ended : file_event (renames true) d ≡ (record d { job = none }, answer_once called failed) =
      file_event-job (renames true) d
      ∙ ap (file_event_with (renames true) d) job
      ∙ (unfold file_event_with in unfold file_event_of in unfold renamed_at in refl) in
    subst
      (λ out.
        let s' = record s { dumpers = set_dumper i out.0 s.dumpers } in
        IsStuck ((answered i out.1 s').0.dumpers i))
      (sym ended)
      (answered-IsStuck i (answer_once called failed) _
        (elim (set_dumper-cases i (record d { job = none }) s.dumpers i) [
          | inl (_, _, there) ↦ subst IsStuck (sym there) (active, refl)
          | inr (other, _) ↦ absurd (ground (arith, other))
        ]))

-- When the new file of a dump cannot be renamed, its dumper stays active for ever: whatever happens
-- afterwards, each of its dumps is refused because it is active.
pub failed_rename-ends_dumps :
    (i : ℕ) (s : DumpRestore) (called : Bool) (is : List Input)
    → (s.dumpers i).active ≡ true
    → (s.dumpers i).job ≡ some (record { stage = renaming; called = called })
    → let failed_once = (react s (to_file i (renames true))).0 in
      let out = react_all failed_once is in ((out.0.dumpers i).active ≡ true) × AllBusy i out.1
unfolding react
failed_rename-ends_dumps i s called is active job =
    let now = failed_rename-IsStuck i s called active job in
    let later = react_all-StaysStuck i is (on_file_event i (renames true) s).0 now in
    (later.0.0, later.1)
