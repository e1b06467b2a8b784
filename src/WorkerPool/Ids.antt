-- ===== src/WorkerPool/Ids.antt =====
-- The ids of the workers, and the choice of one (worker_pool.js).
use stream_machine.WorkerPool.Strength.{full}
use stream_machine.WorkerPool.{
  Input, Process, WorkerPool, count, exits, is_configured, is_loaded, is_set_up, new_process,
  once_loaded, process_exited, react, react_all, rewinds_loaded, rpc_set_up, spawn, update, waits,
  worker_configured, loaded_count, new_pool,
}
use stream_machine.Prelude.Tests.{◌==◌, Bool-cases, leb}
use stream_machine.Prelude.{
  ◌+◌, ◌++◌, List, [], arith, false, inl, inr, refl, true, ℕ, ◌∷◌, ◌≡◌, ◌≤◌,
}

-- The ids of the processes rise, and the next one is larger than all.
abbrev pub AreRising : ℕ → List Process → ℕ → Type 0
AreRising low [] next = low ≤ next
AreRising low (w ∷ ws) next = (low ≤ w.id) × AreRising (w.id + 1) ws next

-- A change that keeps the id.
update-AreRising :
    (f : Process → Process) (id low next : ℕ) (ws : List Process)
    → ((w : Process) → (f w).id ≡ w.id)
    → AreRising low ws next
    → AreRising low (update id f ws) next
unfolding update
update-AreRising f id low next [] keeps r = r
update-AreRising f id low next (w ∷ ws) keeps r = elim (Bool-cases (w.id == id)) [
  | inl this ↦ rw (this, keeps w) (r.0, update-AreRising f id (w.id + 1) next ws keeps r.1)
  | inr other ↦ rw other (r.0, update-AreRising f id (w.id + 1) next ws keeps r.1)
]

append-AreRising :
    (low next : ℕ) (ws : List Process)
    → AreRising low ws next
    → AreRising low (ws ++ new_process next ∷ []) (next + 1)
unfolding new_process
append-AreRising low next [] r = (r, omega arith)
append-AreRising low next (w ∷ ws) r = (r.0, append-AreRising (w.id + 1) next ws r.1)

abbrev pub HasIds : WorkerPool → Type 0
HasIds p = AreRising 1 p.processes p.next_id

spawn-HasIds : (p : WorkerPool) → HasIds p → HasIds (spawn p).0
unfolding spawn
spawn-HasIds p r = elim (Bool-cases (leb p.size (count p))) [
  | inl full ↦ rw full r
  | inr room ↦ rw room (append-AreRising 1 p.next_id p.processes r)
]

react-HasIds : (p : WorkerPool) (i : Input) → HasIds p → HasIds (react p i).0
unfolding react worker_configured rewinds_loaded rpc_set_up process_exited once_loaded
react-HasIds p (is_configured id) r =
    update-AreRising (λ (w : Process). record w { configured = true }) id 1 p.next_id p.processes
      (λ w. refl) r
react-HasIds p (is_loaded id) r = spawn-HasIds _ (
    update-AreRising (λ (w : Process). record w { loaded = true }) id 1 p.next_id p.processes
      (λ w. refl) r)
react-HasIds p (exits id) r =
    let gone =
      update-AreRising (λ (w : Process). record w { registered = false; exited = true }) id 1
        p.next_id p.processes (λ w. refl) r in
    elim (Bool-cases p.shutting_down) [
      | inl stopping ↦ rw stopping gone
      | inr running ↦ rw running (spawn-HasIds _ gone)
    ]
react-HasIds p (is_set_up id true) r = r
react-HasIds p (is_set_up id false) r =
    update-AreRising (λ (w : Process). record w { registered = true }) id 1 p.next_id p.processes
      (λ w. refl) r
react-HasIds p (waits k) r = elim (Bool-cases (loaded_count p == 0)) [
  | inl waiting ↦ rw waiting r
  | inr ready_now ↦ rw ready_now r
]

-- Whatever happens to a new pool, the processes that it forks have ids from 1 on, no two the same,
-- all of them below the next id.
pub react_all-HasIds :
    (inputs : List Input) (p : WorkerPool) → HasIds p → HasIds (react_all p inputs).0
unfolding react_all
react_all-HasIds [] p r = r
react_all-HasIds (i ∷ is) p r = react_all-HasIds is (react p i).0 (react-HasIds p i r)

-- Whatever happens to a new pool, the processes that it has forked have ids from 1 on, each larger
-- than the one before, and the next id is larger than all of them.
pub new_pool-HasIds :
    (size : ℕ) (inputs : List Input) → HasIds (react_all (new_pool size).0 inputs).0
unfolding new_pool
new_pool-HasIds size inputs = react_all-HasIds inputs _ (
    spawn-HasIds
      (record { size = size; next_id = 1; shutting_down = false; processes = []; waiting = [] })
      (omega arith))
