-- ===== src/DumpRestore/Loading.antt =====
-- The loading of all dumps at the start (dump_restore.js, `load` and `Dumper._tryLoad`).
pub mod Apart
use stream_machine.Prelude.Tests.{if◌then◌else◌}
use stream_machine.DumpRestore.{
  DumpRestore, Dumper, Effect, Reading, filling, load_complete, no_reading, set_dumper, snds,
  to_open, told_loaded,
}
use stream_machine.Prelude.{◌+◌, ◌++◌, Bool, List, [], false, not, some, true, ℕ, ◌∷◌}

-- `_load`: the next of the dumpers is to load its file. `load` is called once, at the start.
pub load_next : List ℕ → DumpRestore → DumpRestore × List Effect
unfolding set_dumper
load_next [] s = (record s { load_q = [] }, load_complete s.success s.errors ∷ [])
load_next (i ∷ q) s = (
  record s {
    load_q = q;
    dumpers = set_dumper i (record (s.dumpers i) { reading = to_open }) s.dumpers;
  },
  [],
)

-- `load`
unfoldable pub load : DumpRestore → DumpRestore × List Effect
unfolding load_next snds
load s = load_next (snds s.streams) (record s { success = 0; errors = 0 })

-- What happens to a file that is read: an error, of which the flag tells whether there is no file,
-- comes before or after it is open.
pub data LoadEvent : Type 0 where
  file_opens buffer_loads : LoadEvent
  read_fails : Bool → LoadEvent

pub tell_all : List ℕ → List Effect
tell_all [] = []
tell_all (k ∷ ks) = told_loaded k ∷ tell_all ks

-- The end of a load: `_setLoaded`, and the callback, which counts and goes on.
pub end_load : ℕ → Dumper → Bool → Bool → DumpRestore → DumpRestore × List Effect
unfolding set_dumper load_next tell_all
end_load i d status err s =
    let d' = record d {
      loaded = some status;
      tried_load = true;
      waiting = [];
      reading = no_reading;
    } in
    let counted = record s {
      dumpers = set_dumper i d' s.dumpers;
      success = if err then s.success else s.success + 1;
      errors = if err then s.errors + 1 else s.errors;
    } in
    let rest = load_next s.load_q counted in (rest.0, tell_all d.waiting ++ rest.1)

pub load_event_at : ℕ → Dumper → Reading → LoadEvent → DumpRestore → DumpRestore × List Effect
unfolding end_load set_dumper
load_event_at i d to_open file_opens s = (
  record s { dumpers = set_dumper i (record d { reading = filling; is_loading = true }) s.dumpers },
  [],
)
load_event_at i d to_open (read_fails is_missing) s = end_load i d false (not is_missing) s
load_event_at i d filling (read_fails is_missing) s = end_load i d false (not is_missing) s
load_event_at i d filling buffer_loads s = end_load i (record d { is_loading = false }) true false s
load_event_at i d _ e s = (s, [])

unfoldable pub on_load_event : ℕ → LoadEvent → DumpRestore → DumpRestore × List Effect
unfolding load_event_at
on_load_event i e s = load_event_at i (s.dumpers i) (s.dumpers i).reading e s

-- `once_loaded`
unfoldable pub once_loaded : ℕ → ℕ → DumpRestore → DumpRestore × List Effect
unfolding set_dumper
once_loaded i k s =
    let d = s.dumpers i in
    if d.tried_load then (s, told_loaded k ∷ []) else (
      record s { dumpers = set_dumper i (record d { waiting = d.waiting ++ k ∷ [] }) s.dumpers },
      [],
    )
