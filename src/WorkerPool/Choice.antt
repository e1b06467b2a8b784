-- ===== src/WorkerPool/Choice.antt =====
-- The worker that `getWorker` of worker_pool.js chooses.
use stream_machine.Prelude.Lists.{get_elem?}
use stream_machine.WorkerPool.{
  Process, WorkerPool, candidates, get_worker, select, workers, sample_of,
}
use stream_machine.Prelude.{
  Bool, List, [], ap, false, inl, inr, some, suc, sym, true, zero, ℕ, ◌∙◌, ◌∷◌, ◌≡◌, ◌&&◌, arith,
  not, subst,
}
use stream_machine.Prelude.Tests.{◌==◌, Bool-cases, some_eq}

-- The process stands in the list.
abbrev pub Occurs : Process → List Process → Type 0
Occurs w ws = (i : ℕ) × (get_elem? ws i ≡ some w)

select-Occurs :
    (f : Process → Bool) (ws : List Process) (w : Process)
    → Occurs w (select f ws)
    → Occurs w ws × (f w ≡ true)
unfolding select
select-Occurs f [] w (i, e) = cc
select-Occurs f (v ∷ vs) w o = elim (Bool-cases (f v)) [
  | inl keep ↦ kept (select-Occurs f vs w) keep (rw keep at o)
  | inr other ↦ let ((j, at), holds) = select-Occurs f vs w (rw other at o) in ((suc j, at), holds)
]
  where
    kept :
        (Occurs w (select f vs) → Occurs w vs × (f w ≡ true))
        → f v ≡ true
        → Occurs w (v ∷ select f vs)
        → Occurs w (v ∷ vs) × (f w ≡ true)
    kept ih keep (zero, e) = ((0, e), ap f (sym (some_eq e)) ∙ keep)
    kept ih keep (suc k, e) = let ((j, at), holds) = ih (k, e) in ((suc j, at), holds)

sample_of-Occurs :
    (sample : Process → List Process → Process)
    → ((w : Process) (ws : List Process) → Occurs (sample w ws) (w ∷ ws))
    → (cs : List Process) (w : Process) → sample_of sample cs ≡ some w
    → Occurs w cs
unfolding sample_of
sample_of-Occurs sample sampled [] w e = cc
sample_of-Occurs sample sampled (c ∷ cs) w e =
    subst (λ v. Occurs v (c ∷ cs)) (some_eq e) (sampled c cs)

-- A worker that may be given to another worker's listener.
pub record Serves (p : WorkerPool) (excluded : ℕ) (w : Process) : Type 0 where
  pub forked_here : Occurs w p.processes
  pub registered : w.registered ≡ true
  pub loaded : w.loaded ≡ true
  pub another : (w.id == excluded) ≡ false

-- Where sampling gives an element of the list, the worker that is chosen is one of the pool's
-- processes, set up and loaded, and not the one with the excluded id, if that is not 0.
pub get_worker-Serves :
    (sample : Process → List Process → Process)
    (sampled : (w : Process) (ws : List Process) → Occurs (sample w ws) (w ∷ ws)) (p : WorkerPool)
    (k : ℕ) (w : Process)
    → get_worker sample p (some (suc k)) ≡ some w
    → Serves p (suc k) w
unfolding get_worker candidates workers
get_worker-Serves sample sampled p k w e =
    let (among, chosen) =
      select-Occurs (λ w. w.loaded && not (w.id == suc k)) (workers p) w
        (sample_of-Occurs sample sampled (candidates p (some (suc k))) w e) in
    let (there, set_up) = select-Occurs (λ w. w.registered) p.processes w among in
    record {
      forked_here = there;
      registered = set_up;
      loaded = ground arith;
      another = ground arith;
    }
