-- ===== src/DumpRestore/Tests.antt =====
-- Runs of dump_restore.js, and the theorems applied to them.
use stream_machine.DumpRestore.Loading.Apart.{reports}
use stream_machine.DumpRestore.Destroying.{find, first_destroyed-deletes_last, has_item}
use stream_machine.DumpRestore.Faults.{failed_rename-ends_dumps}
use stream_machine.DumpRestore.Loading.{buffer_loads, file_opens, read_fails}
use stream_machine.DumpRestore.Runs.{all_added, new_dump_restore-in_turn}
use stream_machine.DumpRestore.Turns.{IsWorking, the_one}
use stream_machine.DumpRestore.Running.{
  Input, asks_loaded, react, react_all, starts_load, to_file, to_load, triggers, destroys,
}
use stream_machine.DumpRestore.{
  DumpRestore, closes, dumped, emptied, first_destroyed, load_complete, new_dump_restore, opens,
  renames, reported, told_loaded, unlinks, new_dumper, snds,
}
use stream_machine.DumpRestore.Stuck.{AllBusy}
use stream_machine.Prelude.{
  ◌++◌, List, Option, [], arith, false, none, refl, some, true, ℕ, ◌∷◌, ◌≡◌,
}

-- Two streams; the dump of the first one is written, and that of the second is empty.
abbrev dumping : List Input
dumping =
    triggers (some 7)
    ∷ to_file 0 opens
    ∷ to_file 0 (closes 12)
    ∷ triggers none
    ∷ to_file 0 (renames false)
    ∷ to_file 1 opens
    ∷ to_file 1 (closes 0)
    ∷ to_file 1 (unlinks false)
    ∷ to_file 1 (unlinks false)
    ∷ []

dumps_in_turn :
    (react_all (new_dump_restore (4 ∷ 9 ∷ [])) dumping).1
    ≡ reported 0 dumped ∷ reported 1 emptied ∷ []
unfolding react_all react new_dump_restore new_dumper
dumps_in_turn = refl

-- Both streams have a file for the first, and none for the second.
loads_both :
    (react_all (new_dump_restore (4 ∷ 9 ∷ [])) (
      asks_loaded 0 3
      ∷ starts_load
      ∷ to_load 0 file_opens
      ∷ to_load 0 buffer_loads
      ∷ to_load 1 (read_fails true)
      ∷ [])).1
    ≡ told_loaded 3 ∷ load_complete 2 0 ∷ []
unfolding react_all react new_dump_restore new_dumper
loads_both = refl

new_dump_restore-in_turn_example :
    let first = new_dump_restore (4 ∷ 9 ∷ []) in
    let out = react_all first dumping in
    (current : Option ℕ) × IsWorking out.0 current
    × (reports out.1 ++ (the_one current ++ out.0.queue) ≡ all_added first dumping)
new_dump_restore-in_turn_example = new_dump_restore-in_turn (4 ∷ 9 ∷ []) dumping

abbrev written : DumpRestore
written =
    (react_all (new_dump_restore (4 ∷ 9 ∷ []))
      (triggers none ∷ to_file 0 opens ∷ to_file 0 (closes 12) ∷ [])).0

failed_rename-ends_dumps_example :
    let failed_once = (react written (to_file 0 (renames true))).0 in
    let out = react_all failed_once dumping in ((out.0.dumpers 0).active ≡ true) × AllBusy 0 out.1
unfolding react_all react new_dump_restore new_dumper
failed_rename-ends_dumps_example = failed_rename-ends_dumps 0 written false dumping refl refl

first_destroyed-deletes_last_example :
    let before = new_dump_restore (4 ∷ 5 ∷ 9 ∷ []) in
    let after = first_destroyed 4 before in
    let out = react_all before (destroys 4 ∷ triggers none ∷ []) in
    (i l : ℕ) × (current : Option ℕ) × (find 4 before.streams ≡ some i)
    × (find 9 before.streams ≡ some l)
    × (find 4 after.streams ≡ some i)
    × (find 9 after.streams ≡ none)
    × IsWorking out.0 current
    × (reports out.1 ++ (the_one current ++ out.0.queue) ≡ snds after.streams)
    × (has_item i (snds after.streams) ≡ true)
first_destroyed-deletes_last_example =
    first_destroyed-deletes_last (4 ∷ 5 ∷ []) 9 4 refl (λ e. ground (arith, e))
