-- ===== src/WorkerPool.antt =====
-- js/src/streammachine/modes/worker_pool.js: the processes of a slave, which are started one after
-- the other. The processes, the messages between them and the timers are events that call the
-- handlers below, in any order.
pub mod Closing
pub mod Ids
pub mod Choice
pub mod Size
pub mod Strength
mod Tests
use stream_machine.Prelude.Lists.{length}
use stream_machine.Prelude.Tests.{◌==◌, if◌then◌else◌, leb}
use stream_machine.Prelude.{
  ◌&&◌, ◌+◌, ◌++◌, Bool, List, Option, [], false, map, none, not, some, suc, true, zero, ℕ, ◌∷◌,
}

-- A forked process. `registered` tells whether it stands in `workers`, under its id.
pub record Process : Type 0 where
  pub id : ℕ
  pub registered : Bool
  pub configured : Bool
  pub loaded : Bool
  pub exited : Bool

-- `processes` has every process that was forked; `waiting` has the callbacks of `once_loaded`.
pub record WorkerPool : Type 0 where
  pub size : ℕ
  pub next_id : ℕ
  pub shutting_down : Bool
  pub processes : List Process
  pub waiting : List ℕ

-- What others see: forks, events of the pool, answers to the workers and callbacks, and the exit
-- of a worker. `threw` is an exception.
pub data Effect : Type 0 where
  forked exited replied : ℕ → Effect
  full_strength worker_loaded threw : Effect
  ready : ℕ → Effect

pub select : (Process → Bool) → List Process → List Process
select f [] = []
select f (w ∷ ws) = let rest = select f ws in if f w then w ∷ rest else rest

-- `this.workers`
unfoldable pub workers : WorkerPool → List Process
unfolding select
workers p = select (λ w. w.registered) p.processes

-- `count`
unfoldable pub count : WorkerPool → ℕ
unfolding workers
count p = length (workers p)

-- `loaded_count`
unfoldable pub loaded_count : WorkerPool → ℕ
unfolding workers select
loaded_count p = length (select (λ w. w.loaded) (workers p))

unfoldable pub new_process : ℕ → Process
new_process id = record {
  id = id;
  registered = false;
  configured = false;
  loaded = false;
  exited = false;
}

-- `_spawn`
unfoldable pub spawn : WorkerPool → WorkerPool × List Effect
unfolding count new_process
spawn p = if leb p.size (count p) then (p, full_strength ∷ []) else (
  record p { next_id = p.next_id + 1; processes = p.processes ++ new_process p.next_id ∷ [] },
  forked p.next_id ∷ [],
)

-- The constructor, which starts the first worker.
unfoldable pub new_pool : ℕ → WorkerPool × List Effect
unfolding spawn
new_pool size =
    spawn (record { size = size; next_id = 1; shutting_down = false; processes = []; waiting = [] })

-- A change of the process with an id.
pub update : ℕ → (Process → Process) → List Process → List Process
update id f [] = []
update id f (w ∷ ws) = (if w.id == id then f w else w) ∷ update id f ws

-- The message `worker_configured`.
unfoldable pub worker_configured : WorkerPool → ℕ → WorkerPool × List Effect
unfolding update
worker_configured p id = (
  record p { processes = update id (λ w. record w { configured = true }) p.processes },
  replied id ∷ [],
)

-- The message `rewinds_loaded`. Those who wait for a loaded worker are called back.
unfoldable pub rewinds_loaded : WorkerPool → ℕ → WorkerPool × List Effect
unfolding update spawn
rewinds_loaded p id =
    let ready_pool = record p {
      processes = update id (λ w. record w { loaded = true }) p.processes;
      waiting = [];
    } in
    let (p', effects) = spawn ready_pool in
    (p', worker_loaded ∷ (map ready p.waiting ++ replied id ∷ effects))

-- The channel to the worker is set up, or not: then `worker.kill()` names no variable, and throws.
unfoldable pub rpc_set_up : WorkerPool → ℕ → Bool → WorkerPool × List Effect
unfolding update
rpc_set_up p id true = (p, threw ∷ [])
rpc_set_up p id false =
    (record p { processes = update id (λ w. record w { registered = true }) p.processes }, [])

-- The process of a worker exits.
unfoldable pub process_exited : WorkerPool → ℕ → WorkerPool × List Effect
unfolding update spawn
process_exited p id =
    let gone = record p {
      processes = update id (λ w. record w { registered = false; exited = true }) p.processes;
    } in
    if p.shutting_down
    then (gone, exited id ∷ [])
    else (let (p', effects) = spawn gone in (p', exited id ∷ effects))

-- `once_loaded`; the number names the callback.
unfoldable pub once_loaded : WorkerPool → ℕ → WorkerPool × List Effect
unfolding loaded_count
once_loaded p k =
    if loaded_count p == 0
    then (record p { waiting = p.waiting ++ k ∷ [] }, [])
    else (p, ready k ∷ [])

-- The workers that `getWorker` chooses from. An id of 0 is falsy, and excludes none.
unfoldable pub candidates : WorkerPool → Option ℕ → List Process
unfolding workers select
candidates p none = select (λ w. w.loaded) (workers p)
candidates p (some zero) = select (λ w. w.loaded) (workers p)
candidates p (some (suc k)) = select (λ w. w.loaded && not (w.id == suc k)) (workers p)

sample_of : (Process → List Process → Process) → List Process → Option Process
sample_of sample [] = none
sample_of sample (w ∷ ws) = some (sample w ws)

-- `getWorker`, where `sample` is the library's `_.sample` on a list that is not empty.
unfoldable pub get_worker :
    (Process → List Process → Process) → WorkerPool → Option ℕ → Option Process
unfolding candidates sample_of
get_worker sample p exclude = sample_of sample (candidates p exclude)

-- The events of a pool.
pub data Input : Type 0 where
  is_configured is_loaded exits : ℕ → Input
  is_set_up : ℕ → Bool → Input
  waits : ℕ → Input

unfoldable pub react : WorkerPool → Input → WorkerPool × List Effect
unfolding worker_configured rewinds_loaded rpc_set_up process_exited once_loaded
react p (is_configured id) = worker_configured p id
react p (is_loaded id) = rewinds_loaded p id
react p (exits id) = process_exited p id
react p (is_set_up id failed) = rpc_set_up p id failed
react p (waits k) = once_loaded p k

unfoldable pub react_all : WorkerPool → List Input → WorkerPool × List Effect
unfolding react
react_all p [] = (p, [])
react_all p (i ∷ is) =
    let (p', effects) = react p i in let (q, more) = react_all p' is in (q, effects ++ more)
