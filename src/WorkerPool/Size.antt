-- ===== src/WorkerPool/Size.antt =====
-- How many processes a pool has at a time (worker_pool.js).
use stream_machine.Prelude.Lists.{length, length-append}
use stream_machine.Prelude.Tests.{◌==◌, Bool-cases, leb}
use stream_machine.Prelude.{
  ◌+◌, ◌++◌, ◌<◌, Bool, List, [], ap, arith, false, inl, inr, not, refl, suc, ℕ, ◌∙◌, ◌∷◌, ◌≡◌,
  true,
}
use stream_machine.WorkerPool.{
  forked, Process, WorkerPool, count, new_process, rewinds_loaded, select, spawn, update, workers,
}

pub select-append :
    (f : Process → Bool) (vs ws : List Process) → select f (vs ++ ws) ≡ select f vs ++ select f ws
unfolding select
select-append f [] ws = refl
select-append f (v ∷ vs) ws = elim (Bool-cases (f v)) [
  | inl keep ↦ rw keep (ap (λ us. v ∷ us) (select-append f vs ws))
  | inr other ↦ rw other (select-append f vs ws)
]

-- The processes that have not exited.
abbrev pub alive_count : WorkerPool → ℕ
alive_count p = length (select (λ w. not w.exited) p.processes)

-- A change that keeps what is selected by.
length-select-update :
    (f : Process → Bool) (g : Process → Process) (id : ℕ) (ws : List Process)
    → ((w : Process) → f (g w) ≡ f w)
    → length (select f (update id g ws)) ≡ length (select f ws)
unfolding select update
length-select-update f g id [] keeps = refl
length-select-update f g id (w ∷ ws) keeps =
    let ih = length-select-update f g id ws keeps in
    elim (Bool-cases (w.id == id)) [
      | inl this ↦ elim (Bool-cases (f w)) [
        | inl keep ↦ rw (this, keeps w, keep) (ap suc ih)
        | inr other ↦ rw (this, keeps w, other) ih
      ]
      | inr another ↦ elim (Bool-cases (f w)) [
        | inl keep ↦ rw (another, keep) (ap suc ih)
        | inr other ↦ rw (another, other) ih
      ]
    ]

spawn_with_room :
    (p : WorkerPool)
    → count p < p.size
    → (alive_count (spawn p).0 ≡ alive_count p + 1) × ((spawn p).1 ≡ forked p.next_id ∷ [])
unfolding spawn
spawn_with_room p h =
    let room : leb p.size (count p) ≡ false = ground arith in
    let more : select (λ w. not w.exited) (p.processes ++ new_process p.next_id ∷ [])
        ≡ select (λ w. not w.exited) p.processes ++ new_process p.next_id ∷ [] =
      select-append (λ w. not w.exited) p.processes (new_process p.next_id ∷ [])
      ∙ (unfold select in unfold new_process in refl) in
    rw room (ap length more ∙ length-append _ _, refl)

-- A worker that is loaded while another is still starting makes the pool too large: when as many
-- processes run as the pool should have, and one of them is not registered yet, so that fewer than
-- that are counted, then a worker's "rewinds_loaded" has one process more forked.
pub rewinds_loaded-overshoots :
    (p : WorkerPool) (id : ℕ)
    → alive_count p ≡ p.size
    → count p < p.size
    → alive_count (rewinds_loaded p id).0 ≡ p.size + 1
unfolding rewinds_loaded
rewinds_loaded-overshoots p id all counted =
    let load : Process → Process = λ w. record w { loaded = true } in
    let ready_pool : WorkerPool = record p {
      processes = update id load p.processes;
      waiting = [];
    } in
    let same_count : count ready_pool ≡ count p =
      unfold count in
      unfold workers in length-select-update (λ w. w.registered) load id p.processes (λ w. refl) in
    let same_alive : alive_count ready_pool ≡ alive_count p =
      length-select-update (λ w. not w.exited) load id p.processes (λ w. refl) in
    (spawn_with_room ready_pool (omega (arith, same_count, counted))).0
    ∙ omega (arith, same_alive, all)
