-- ===== src/DumpRestore.antt =====
-- js/src/streammachine/rewind/dump_restore.js: the dumps of all streams' buffers, one after the other,
-- and their loading. Files, and what is written to them, are the inputs' part.
pub mod Loading
pub mod Running
pub mod Files
pub mod Turns
pub mod Runs
pub mod Stuck
pub mod Faults
pub mod Destroying
mod Tests
use stream_machine.Prelude.Tests.{◌==◌, if◌then◌else◌}
use stream_machine.Prelude.{
  ◌+◌, ◌++◌, Bool, List, Option, [], false, map, none, some, true, ℕ, ◌∷◌, ◌||◌, not,
}

-- A dump that has not ended: the ".new" file is opened, is written, is put in place of the old one, or
-- both are removed, and one of them is left to be (the flag tells of an error with the other).
pub data Stage : Type 0 where
  opening writing renaming unlinking_both : Stage
  unlinking_one : Bool → Stage

-- `called` is the memory of `_.once(cb)`.
pub record Job : Type 0 where
  pub stage : Stage
  pub called : Bool

-- The dump is read: the file is opened, and then the buffer is filled from it.
pub data Reading : Type 0 where
  no_reading to_open filling : Reading

-- `is_loading` is the buffer's, and `waiting` are the callbacks of `once_loaded`.
pub record Dumper : Type 0 where
  pub active : Bool
  pub is_loading : Bool
  pub loaded : Option Bool
  pub tried_load : Bool
  pub waiting : List ℕ
  pub job : Option Job
  pub reading : Reading

unfoldable pub new_dumper : Dumper
new_dumper = record {
  active = false;
  is_loading = false;
  loaded = none;
  tried_load = false;
  waiting = [];
  job = none;
  reading = no_reading;
}

pub data Result : Type 0 where
  dumped emptied failed already_active while_loading : Result

-- `Dumper._dump`: an error at once, or a dump that begins.
unfoldable pub begin_dump : Dumper → Dumper × Option Result
begin_dump d =
    if d.active
    then (d, some already_active)
    else if d.is_loading
    then (d, some while_loading)
    else (record d { active = true; job = some (record { stage = opening; called = false }) }, none)

answer_once : Bool → Result → Option Result
answer_once called r = if called then none else some r

-- The file is open; nothing listens to "close" before.
opened_at : Dumper → Job → Stage → Dumper
opened_at d j opening = record d { job = some (record j { stage = writing }) }
opened_at d j _ = d

-- The file is closed, with so many bytes written.
closed_at : ℕ → Dumper → Job → Stage → Dumper
closed_at bytes d j writing = record d {
  job = some (record j { stage = if bytes == 0 then unlinking_both else renaming });
}
closed_at bytes d j _ = d

-- A file is removed; the flag tells of an error that counts.
unlinked_at : Bool → Dumper → Job → Stage → Dumper × Option Result
unfolding answer_once
unlinked_at err d j unlinking_both =
    (record d { job = some (record j { stage = unlinking_one err }) }, none)
unlinked_at err d j (unlinking_one before) = (
  record d { active = false; job = none },
  answer_once j.called (if before || err then failed else emptied),
)
unlinked_at err d j _ = (d, none)

-- The new file has been renamed, or has not: then the dumper stays active.
renamed_at : Bool → Dumper → Job → Stage → Dumper × Option Result
unfolding answer_once
renamed_at true d j renaming = (record d { job = none }, answer_once j.called failed)
renamed_at false d j renaming =
    (record d { active = false; job = none }, answer_once j.called dumped)
renamed_at err d j _ = (d, none)

-- What happens to the files of a dump.
pub data FileEvent : Type 0 where
  opens write_fails : FileEvent
  closes : ℕ → FileEvent
  unlinks renames : Bool → FileEvent

file_event_of : FileEvent → Dumper → Job → Dumper × Option Result
unfolding opened_at closed_at unlinked_at renamed_at answer_once
file_event_of opens d j = (opened_at d j j.stage, none)
file_event_of write_fails d j =
    (record d { job = some (record j { called = true }) }, answer_once j.called failed)
file_event_of (closes bytes) d j = (closed_at bytes d j j.stage, none)
file_event_of (unlinks err) d j = unlinked_at err d j j.stage
file_event_of (renames err) d j = renamed_at err d j j.stage

unfoldable pub file_event : FileEvent → Dumper → Dumper × Option Result
unfolding file_event_of
file_event e d = elim d.job [ none ↦ (d, none) | some j ↦ file_event_of e d j ]

-- The dumpers are objects with numbers, and `streams` has those of the streams' keys. The listeners
-- to "destroy" of the first streams share one variable, which has the last of their keys.
pub record DumpRestore : Type 0 where
  pub dumpers : ℕ → Dumper
  pub next_dumper : ℕ
  pub streams : List (ℕ × ℕ)
  pub last_key : Option ℕ
  pub queue : List ℕ
  pub working : Bool
  pub after_dumps : Option ℕ
  pub load_q : List ℕ
  pub success : ℕ
  pub errors : ℕ

pub data Effect : Type 0 where
  reported : ℕ → Result → Effect
  called_back told_loaded : ℕ → Effect
  load_complete : ℕ → ℕ → Effect

pub set_dumper : ℕ → Dumper → (ℕ → Dumper) → ℕ → Dumper
set_dumper i d ds j = if i == j then d else ds j

pub after_of : Option ℕ → List Effect
after_of none = []
after_of (some k) = called_back k ∷ []

-- The turn of a dumper: its dump begins, or it has an error at once and the rest follows.
dump_turn :
    ℕ
    → List ℕ
    → DumpRestore
    → DumpRestore × List Effect
    → Dumper × Option Result
    → DumpRestore × List Effect
unfolding set_dumper
dump_turn i q s rest (d, none) =
    (record s { dumpers = set_dumper i d s.dumpers; queue = q; working = true }, [])
dump_turn i q s rest (d, some e) = (rest.0, reported i e ∷ rest.1)

-- `_dump`: the dumpers of the queue in turn, until one begins.
pub dump_next : List ℕ → DumpRestore → DumpRestore × List Effect
unfolding begin_dump dump_turn after_of
dump_next [] s =
    (record s { queue = []; working = false; after_dumps = none }, after_of s.after_dumps)
dump_next (i ∷ q) s = dump_turn i q s (dump_next q s) (begin_dump (s.dumpers i))

pub snds : List (ℕ × ℕ) → List ℕ
snds [] = []
snds ((k, i) ∷ m) = i ∷ snds m

-- `_triggerDumps`
unfoldable pub trigger_dumps : Option ℕ → DumpRestore → DumpRestore × List Effect
unfolding dump_next snds
trigger_dumps after s =
    let queue = s.queue ++ snds s.streams in
    if s.working
    then (record s { queue = queue }, [])
    else dump_next queue (record s { after_dumps = after })

-- The callback that a dumper gets: it goes on with the queue.
pub answered : ℕ → Option Result → DumpRestore → DumpRestore × List Effect
unfolding dump_next
answered i none s = (s, [])
answered i (some r) s = let rest = dump_next s.queue s in (rest.0, reported i r ∷ rest.1)

unfoldable pub on_file_event : ℕ → FileEvent → DumpRestore → DumpRestore × List Effect
unfolding file_event answered set_dumper
on_file_event i e s =
    let (d, r) = file_event e (s.dumpers i) in
    answered i r (record s { dumpers = set_dumper i d s.dumpers })

-- `this._streams[key] = ...`: a key that is there keeps its place.
pub put_stream : ℕ → ℕ → List (ℕ × ℕ) → List (ℕ × ℕ)
put_stream key i [] = (key, i) ∷ []
put_stream key i ((k, j) ∷ m) = if k == key then (key, i) ∷ m else (k, j) ∷ put_stream key i m

pub remove_stream : ℕ → List (ℕ × ℕ) → List (ℕ × ℕ)
remove_stream key [] = []
remove_stream key ((k, j) ∷ m) = if k == key then m else (k, j) ∷ remove_stream key m

unfoldable pub new_stream : ℕ → DumpRestore → DumpRestore
unfolding put_stream
new_stream key s = record s {
  streams = put_stream key s.next_dumper s.streams;
  next_dumper = s.next_dumper + 1;
}

pub forget : Option ℕ → DumpRestore → DumpRestore
unfolding remove_stream
forget none s = s
forget (some key) s = record s { streams = remove_stream key s.streams }

-- A stream that was there at first is destroyed: whichever it is, the last one's dumper is deleted.
unfoldable pub first_destroyed : ℕ → DumpRestore → DumpRestore
unfolding forget
first_destroyed key s = forget s.last_key s

-- The constructor, with the keys of the master's streams.
add_first : List ℕ → DumpRestore → DumpRestore
unfolding new_stream
add_first [] s = s
add_first (k ∷ ks) s = add_first ks (record (new_stream k s) { last_key = some k })

abbrev pub no_streams : DumpRestore
no_streams = record {
  dumpers = λ i. new_dumper;
  next_dumper = 0;
  streams = [];
  last_key = none;
  queue = [];
  working = false;
  after_dumps = none;
  load_q = [];
  success = 0;
  errors = 0;
}

unfoldable pub new_dump_restore : List ℕ → DumpRestore
unfolding add_first
new_dump_restore keys = add_first keys no_streams
