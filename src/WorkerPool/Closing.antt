-- ===== src/WorkerPool/Closing.antt =====
-- js/src/streammachine/modes/worker_pool.js, `shutdown` and `shutdownWorker`: a request to each
-- worker, its answer, the wait for the exit of its process, and the timer of a second.
pub mod Ending
pub mod Exits
pub mod Runs
use stream_machine.WorkerPool.{Process, WorkerPool}
use stream_machine.Prelude.Tests.{◌==◌, if◌then◌else◌, leb}
use stream_machine.Prelude.{◌&&◌, ◌++◌, ◌-◌, Bool, List, [], false, map, not, true, ◌||◌, ℕ, ◌∷◌}
use stream_machine.WorkerPool

-- Whose callback a worker's end is told to: that of `shutdown`, or one that `shutdownWorker` got.
pub data Caller : Type 0 where
  whole_pool : Caller
  caller : ℕ → Caller

pub data Stage : Type 0 where
  asked exiting : Stage

-- A call of `shutdownWorker` that has not ended.
pub record Closing : Type 0 where
  pub id : ℕ
  pub stage : Stage
  pub whose : Caller

-- `after_left` is how many more calls `_.after` waits for; `polling` tells whether the interval of
-- the status poll runs.
pub record PoolClosing : Type 0 where
  pub pool : WorkerPool
  pub closing : List Closing
  pub after_left : ℕ
  pub polling : Bool

pub data Effect : Type 0 where
  requested : ℕ → Effect
  pool_closed : Effect
  worker_closed worker_unknown : ℕ → Effect
  threw : Effect
  of_pool : WorkerPool.Effect → Effect

pub has_id : ℕ → List Process → Bool
has_id id [] = false
has_id id (w ∷ ws) = w.id == id || has_id id ws

-- `_.after`: from the last call that it waits for on, each call goes through.
count_down : PoolClosing → PoolClosing × List Effect
count_down s =
    if leb s.after_left 1
    then (record s { after_left = 0; polling = false }, pool_closed ∷ [])
    else (record s { after_left = s.after_left - 1 }, [])

-- The end of a call of `shutdownWorker`, without and with an error.
tell : PoolClosing → Caller → PoolClosing × List Effect
unfolding count_down
tell s whole_pool = count_down s
tell s (caller k) = (s, worker_closed k ∷ [])

refuse : PoolClosing → Caller → PoolClosing × List Effect
unfolding count_down
refuse s whole_pool = count_down s
refuse s (caller k) = (s, worker_unknown k ∷ [])

-- `shutdownWorker`
unfoldable pub shutdown_worker : PoolClosing → ℕ → Caller → PoolClosing × List Effect
unfolding has_id refuse
shutdown_worker s id whose =
    if has_id id (WorkerPool.workers s.pool)
    then (
      record s { closing = s.closing ++ record { id = id; stage = asked; whose = whose } ∷ [] },
      requested id ∷ [],
    )
    else refuse s whose

pub shutdown_each : PoolClosing → List Process → PoolClosing × List Effect
unfolding shutdown_worker
shutdown_each s [] = (s, [])
shutdown_each s (w ∷ ws) =
    let (s', effects) = shutdown_worker s w.id whole_pool in
    let (s'', more) = shutdown_each s' ws in (s'', effects ++ more)

-- `shutdown`. With no worker the callback is called at once.
unfoldable pub shutdown : PoolClosing → PoolClosing × List Effect
unfolding shutdown_each
shutdown s =
    let none_left = WorkerPool.count s.pool == 0 in
    let asking = record s {
      pool = record s.pool { shutting_down = true };
      after_left = WorkerPool.count s.pool;
      polling = if none_left then false else s.polling;
    } in
    let (s', effects) = shutdown_each asking (WorkerPool.workers s.pool) in
    (s', (if none_left then pool_closed ∷ [] else []) ++ effects)

is_asked : Stage → Bool
is_asked asked = true
is_asked exiting = false

-- The requests to a worker that it has now answered, and those that are still open.
answered : ℕ → List Closing → List Closing
unfolding is_asked
answered id [] = []
answered id (c ∷ cs) =
    let rest = answered id cs in
    if c.id == id && is_asked c.stage then record c { stage = exiting } ∷ rest else c ∷ rest

pub not_answered : ℕ → List Closing → List Closing
unfolding is_asked
not_answered id [] = []
not_answered id (c ∷ cs) =
    let rest = not_answered id cs in if c.id == id && is_asked c.stage then rest else c ∷ rest

-- The worker's answer. After an error nobody is told; the exit of a worker that has gone already
-- cannot be waited for, and throws.
unfoldable pub shutdown_answered : PoolClosing → ℕ → Bool → PoolClosing × List Effect
unfolding answered not_answered has_id
shutdown_answered s id true = (record s { closing = not_answered id s.closing }, [])
shutdown_answered s id false =
    if has_id id (WorkerPool.workers s.pool)
    then (record s { closing = answered id s.closing }, [])
    else (record s { closing = not_answered id s.closing }, threw ∷ [])

-- The calls that wait for the exit of a worker.
waiting_for : ℕ → List Closing → List Closing
unfolding is_asked
waiting_for id [] = []
waiting_for id (c ∷ cs) =
    let rest = waiting_for id cs in if c.id == id && not (is_asked c.stage) then c ∷ rest else rest

not_waiting_for : ℕ → List Closing → List Closing
unfolding is_asked
not_waiting_for id [] = []
not_waiting_for id (c ∷ cs) =
    let rest = not_waiting_for id cs in
    if c.id == id && not (is_asked c.stage) then rest else c ∷ rest

tell_all : PoolClosing → List Closing → PoolClosing × List Effect
unfolding tell
tell_all s [] = (s, [])
tell_all s (c ∷ cs) =
    let (s', effects) = tell s c.whose in let (s'', more) = tell_all s' cs in (s'', effects ++ more)

-- The exit of a worker's process: the listeners of the worker's own "exit" are told before the pool
-- may start another.
unfoldable pub worker_exited : PoolClosing → ℕ → PoolClosing × List Effect
unfolding waiting_for not_waiting_for tell_all
worker_exited s id =
    let (pool, effects) = WorkerPool.process_exited s.pool id in
    let (s', told) =
      tell_all (record s { pool = pool; closing = not_waiting_for id s.closing })
        (waiting_for id s.closing) in
    (s', told ++ map of_pool effects)

-- The timer of a worker that has not exited: `w.w.kill()` reads a variable that has no value.
unfoldable pub timer_ran_out : PoolClosing → ℕ → PoolClosing × List Effect
unfolding waiting_for
timer_ran_out s id = elim (waiting_for id s.closing) [ [] ↦ (s, []) | c ∷ cs ↦ (s, threw ∷ []) ]

-- What can happen while workers are being shut down.
pub data CloseInput : Type 0 where
  answers : ℕ → Bool → CloseInput
  process_ends timer_ends : ℕ → CloseInput

unfoldable pub close_react : PoolClosing → CloseInput → PoolClosing × List Effect
unfolding shutdown_answered worker_exited timer_ran_out
close_react s (answers id refused) = shutdown_answered s id refused
close_react s (process_ends id) = worker_exited s id
close_react s (timer_ends id) = timer_ran_out s id

unfoldable pub close_all : PoolClosing → List CloseInput → PoolClosing × List Effect
unfolding close_react
close_all s [] = (s, [])
close_all s (i ∷ is) =
    let (s', effects) = close_react s i in let (t, more) = close_all s' is in (t, effects ++ more)
