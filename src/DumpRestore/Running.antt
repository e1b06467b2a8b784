-- ===== src/DumpRestore/Running.antt =====
-- What happens to dump_restore.js, one input after the other.
use stream_machine.DumpRestore.Loading.{LoadEvent, load, on_load_event, once_loaded}
use stream_machine.DumpRestore.{
  DumpRestore, Effect, FileEvent, first_destroyed, new_stream, on_file_event, trigger_dumps,
}
use stream_machine.Prelude.{◌++◌, List, Option, [], ℕ, ◌∷◌}

pub data Input : Type 0 where
  triggers : Option ℕ → Input
  to_file : ℕ → FileEvent → Input
  to_load : ℕ → LoadEvent → Input
  asks_loaded : ℕ → ℕ → Input
  adds destroys : ℕ → Input
  starts_load : Input

unfoldable pub react : DumpRestore → Input → DumpRestore × List Effect
unfolding trigger_dumps on_file_event on_load_event once_loaded new_stream first_destroyed load
react s (triggers after) = trigger_dumps after s
react s (to_file i e) = on_file_event i e s
react s (to_load i e) = on_load_event i e s
react s (asks_loaded i k) = once_loaded i k s
react s (adds key) = (new_stream key s, [])
react s (destroys key) = (first_destroyed key s, [])
react s starts_load = load s

unfoldable pub react_all : DumpRestore → List Input → DumpRestore × List Effect
unfolding react
react_all s [] = (s, [])
react_all s (i ∷ is) =
    let (s', now) = react s i in let (s'', later) = react_all s' is in (s'', now ++ later)
