-- ===== src/WorkerPool/Tests.antt =====
-- Runs of the pool of workers, and the theorems applied to them.
use stream_machine.WorkerPool.Closing.Runs.{refusal-never_closes, shutdown-closes_once}
use stream_machine.WorkerPool.Strength.{come_up, full, new_pool-full_strength, up}
use stream_machine.WorkerPool.Closing.Ending.{closed_count}
use stream_machine.WorkerPool.Size.{alive_count, rewinds_loaded-overshoots}
use stream_machine.WorkerPool.Choice.{Serves, get_worker-Serves}
use stream_machine.WorkerPool.Ids.{HasIds, new_pool-HasIds}
use stream_machine.WorkerPool.Closing.{
  CloseInput, PoolClosing, answers, close_all, process_ends, shutdown,
}
use stream_machine.Prelude.{◌++◌, Bool, List, [], arith, false, refl, true, ℕ, ◌∷◌, ◌≡◌}
use stream_machine.WorkerPool
use stream_machine.WorkerPool.{
  Process, forked, worker_loaded, replied, full_strength, Input, WorkerPool, count, exited, exits,
  get_worker, is_loaded, is_set_up, new_pool, react_all, rewinds_loaded, select,
}

new_pool-HasIds_example :
    HasIds (react_all (new_pool 2).0 (is_set_up 1 false ∷ is_loaded 1 ∷ exits 1 ∷ [])).0
new_pool-HasIds_example = new_pool-HasIds 2 (is_set_up 1 false ∷ is_loaded 1 ∷ exits 1 ∷ [])

-- The first worker loads and exits while the second is starting.
abbrev early_exit : List Input
early_exit = is_set_up 1 false ∷ is_loaded 1 ∷ exits 1 ∷ is_set_up 2 false ∷ []

abbrev process_of : ℕ → Bool → Bool → Bool → Process
process_of id registered loaded gone = record {
  id = id;
  registered = registered;
  configured = false;
  loaded = loaded;
  exited = gone;
}

abbrev two_alive : WorkerPool
two_alive = record {
  size = 2;
  next_id = 4;
  shutting_down = false;
  processes =
      process_of 1 false true true
      ∷ process_of 2 true false false
      ∷ process_of 3 false false false
      ∷ [];
  waiting = [];
}

reaches_two_alive : (react_all (new_pool 2).0 early_exit).0 ≡ two_alive
unfolding react_all new_pool
reaches_two_alive = refl

rewinds_loaded-overshoots_example : alive_count (rewinds_loaded two_alive 2).0 ≡ 3
rewinds_loaded-overshoots_example =
    rewinds_loaded-overshoots two_alive 2 (unfold select in refl) (unfold count in omega arith)

abbrev first_of : Process → List Process → Process
first_of w ws = w

get_worker-Serves_example : Serves (up 2 2) 1 (full 2)
get_worker-Serves_example =
    get_worker-Serves first_of (λ w ws. (0, refl)) (up 2 2) 0 (full 2) (unfold get_worker in refl)

new_pool-full_strength_example : react_all (new_pool 2).0 (come_up 0 2) ≡ (
  up 2 2,
  replied 1
      ∷ worker_loaded
      ∷ replied 1
      ∷ forked 2
      ∷ replied 2
      ∷ worker_loaded
      ∷ replied 2
      ∷ full_strength
      ∷ [],
)
new_pool-full_strength_example = new_pool-full_strength 1

abbrev two_up : PoolClosing
two_up = record { pool = up 2 2; closing = []; after_left = 0; polling = true }

-- The second worker's process ends before the first has answered.
abbrev both_end : List CloseInput
both_end = answers 2 false ∷ process_ends 2 ∷ answers 1 false ∷ process_ends 1 ∷ []

shutdown-closes_once_example :
    closed_count ((shutdown two_up).1 ++ (close_all (shutdown two_up).0 both_end).1) ≡ 1
unfolding close_all shutdown WorkerPool.workers count WorkerPool.process_exited
shutdown-closes_once_example =
    shutdown-closes_once two_up both_end refl (omega arith)
      ((refl, refl), (tt, ((refl, refl), (tt, tt))))

refusal-never_closes_example :
    closed_count (
      (shutdown two_up).1
      ++ ((close_all (shutdown two_up).0 []).1
          ++ (close_all (close_all (shutdown two_up).0 []).0 (answers 1 true ∷ both_end)).1))
    ≡ 0
unfolding close_all shutdown WorkerPool.workers count WorkerPool.process_exited
refusal-never_closes_example =
    refusal-never_closes two_up [] both_end 1 refl (omega arith) tt (omega arith)
