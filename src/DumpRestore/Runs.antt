-- ===== src/DumpRestore/Runs.antt =====
-- The queue of dump_restore.js over all that happens to it.
-- What an input adds to the queue.
use stream_machine.DumpRestore.Loading.Apart.{
  load-IsApart, on_load_event-IsApart, once_loaded-IsApart, reports, reports-append,
  first_destroyed-IsApart,
}
use stream_machine.DumpRestore.Loading.{load, on_load_event, once_loaded}
use stream_machine.DumpRestore.Files.{file_event-Went}
use mathlib.Core.List.{append_assoc}
use stream_machine.DumpRestore.Running.{
  Input, adds, asks_loaded, destroys, react, react_all, starts_load, to_file, to_load, triggers,
}
use stream_machine.DumpRestore.Turns.{
  HasTurns, IsApart-HasTurns, IsWorking, answered-HasTurns, the_one, trigger_dumps-HasTurns,
}
use stream_machine.DumpRestore.{
  DumpRestore, add_first, first_destroyed, new_dump_restore, new_dumper, new_stream, on_file_event,
  snds, no_streams,
}
use stream_machine.Prelude.{◌++◌, List, Option, [], ap, inl, none, refl, sym, ℕ, ◌∙◌, ◌∷◌, ◌≡◌}

abbrev pub added : DumpRestore → Input → List ℕ
added s (triggers after) = snds s.streams
added s _ = []

-- The queue of a state whose dumps and queue are those of another.
same-HasTurns :
    (s s' : DumpRestore) (current : Option ℕ)
    → IsWorking s current
    → s'.dumpers ≡ s.dumpers
    → s'.working ≡ s.working
    → s'.queue ≡ s.queue
    → HasTurns (the_one current ++ (s.queue ++ [])) (s', [])
same-HasTurns s s' current v dumpers working queue =
    IsApart-HasTurns s current (s', []) v
      (record {
        job_kept = λ j. ap (λ ds. (ds j).job) dumpers;
        active_kept = λ j. ap (λ ds. (ds j).active) dumpers;
        working_kept = working;
        queue_kept = queue;
        silent = refl;
      })

react-HasTurns :
    (s : DumpRestore) (current : Option ℕ) (i : Input)
    → IsWorking s current
    → HasTurns (the_one current ++ (s.queue ++ added s i)) (react s i)
unfolding react on_file_event new_stream
react-HasTurns s current (triggers after) v = trigger_dumps-HasTurns after s current v
react-HasTurns s current (to_file i e) v =
    answered-HasTurns i _ _ s current v (file_event-Went e (s.dumpers i) (v.owned i))
react-HasTurns s current (to_load i e) v =
    IsApart-HasTurns s current (on_load_event i e s) v (on_load_event-IsApart i e s)
react-HasTurns s current (asks_loaded i k) v =
    IsApart-HasTurns s current (once_loaded i k s) v (once_loaded-IsApart i k s)
react-HasTurns s current (adds key) v = same-HasTurns s _ current v refl refl refl
react-HasTurns s current (destroys key) v =
    IsApart-HasTurns s current (first_destroyed key s, []) v (first_destroyed-IsApart key s)
react-HasTurns s current starts_load v = IsApart-HasTurns s current (load s) v (load-IsApart s)

-- What all of the inputs add.
abbrev pub all_added : DumpRestore → List Input → List ℕ
all_added s [] = []
all_added s (i ∷ is) = added s i ++ all_added (react s i).0 is

react_all-HasTurns :
    (s : DumpRestore) (current : Option ℕ) (is : List Input)
    → IsWorking s current
    → HasTurns (the_one current ++ (s.queue ++ all_added s is)) (react_all s is)
unfolding react_all
react_all-HasTurns s current [] v = same-HasTurns s s current v refl refl refl
react_all-HasTurns s current (i ∷ is) v =
    let one = react-HasTurns s current i v in
    let s' = (react s i).0 in
    let more = react_all-HasTurns s' one.current is one.working in
    let before = reports (react s i).1 in
    record {
      current = more.current;
      working = more.working;
      in_turn =
          ap (λ l. l ++ (the_one more.current ++ (react_all s' is).0.queue))
            (reports-append (react s i).1 (react_all s' is).1)
          ∙ append_assoc before _ _
          ∙ ap (λ l. before ++ l)
              (more.in_turn ∙ sym (append_assoc (the_one one.current) s'.queue _))
          ∙ sym (append_assoc before _ _)
          ∙ ap (λ l. l ++ all_added s' is) one.in_turn
          ∙ append_assoc (the_one current) _ _
          ∙ ap (λ l. the_one current ++ l) (append_assoc s.queue (added s i) _);
    }

add_first-IsWorking :
    (keys : List ℕ) (s : DumpRestore) → IsWorking s none → IsWorking (add_first keys s) none
unfolding add_first new_stream
add_first-IsWorking [] s v = v
add_first-IsWorking (k ∷ ks) s v =
    add_first-IsWorking ks _
      (record { open_one = v.open_one; owned = v.owned; flag = v.flag; rest = v.rest })

add_first-queue : (keys : List ℕ) (s : DumpRestore) → (add_first keys s).queue ≡ s.queue
unfolding add_first new_stream
add_first-queue [] s = refl
add_first-queue (k ∷ ks) s = add_first-queue ks _

-- Each dumper that is put in the queue gets its turn, in order, and one at a time: whatever happens,
-- the dumps that were reported, the one that is in progress and those that wait are together, in this
-- order, all that were ever queued. At most one dump is in progress whose callback has not been
-- called, the mark for working tells whether one is, and nothing waits when none is.
pub new_dump_restore-in_turn :
    (keys : List ℕ) (is : List Input)
    → let first = new_dump_restore keys in
      let out = react_all first is in
      (current : Option ℕ) × IsWorking out.0 current
      × (reports out.1 ++ (the_one current ++ out.0.queue) ≡ all_added first is)
unfolding new_dump_restore new_dumper
new_dump_restore-in_turn keys is =
    let empty_queue = add_first-queue keys no_streams in
    let v = react_all-HasTurns (new_dump_restore keys) none is (
      add_first-IsWorking keys _
        (record { open_one = λ j. refl; owned = λ j. inl refl; flag = refl; rest = λ e. refl })) in
    (
      v.current,
      v.working,
      v.in_turn ∙ ap (λ q. q ++ all_added (new_dump_restore keys) is) empty_queue,
    )
