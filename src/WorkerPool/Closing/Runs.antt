-- ===== src/WorkerPool/Closing/Runs.antt =====
-- A shutdown of the pool from its start to its end (worker_pool.js).
use stream_machine.WorkerPool.Closing.Exits.{
  AllFair, all_ended, all_ended-asked, all_shut_down, asked_of, close_all-all_ended,
}
use stream_machine.Prelude.Lists.{length, length-append}
use mathlib.Core.List.{append_assoc, append-nil}
use stream_machine.WorkerPool.Closing.Ending.{
  AllPool, Kept, Lost, Waits, close_react-Fair, close_react-Lost, closed_count, closed_count-append,
  once, given_up-Waits,
}
use stream_machine.Prelude.Tests.{◌==◌, if◌then◌else◌}
use stream_machine.Prelude.{
  ◌+◌, ◌++◌, List, [], arith, refl, suc, sym, true, ℕ, ◌∙◌, ◌∷◌, ◌≡◌, ◌≤◌, ◌<◌, ap, false, ◌-◌,
  subst, map,
}
use stream_machine.WorkerPool
use stream_machine.WorkerPool.{Process, WorkerPool, waits}
use stream_machine.WorkerPool.Closing.{
  Closing, Effect, CloseInput, PoolClosing, asked, close_all, close_react, has_id, requested,
  shutdown_each, shutdown_worker, whole_pool, answers, not_answered, shutdown, pool_closed,
  shutdown_answered,
}

once_twice : (a b c : ℕ) → b ≤ a → c ≤ b → once a b + once b c ≡ once a c
once_twice a b c h k = ground arith

close_all-Fair :
    (s : PoolClosing) (is : List CloseInput) → Waits 0 s → AllFair s is → Kept 0 s (close_all s is)
unfolding close_all
close_all-Fair s [] w f = record { waits = w; no_more = omega arith; told = ground arith }
close_all-Fair s (i ∷ is) w (fair, all) =
    let k = close_react-Fair s i w fair in
    let (s', effects) = close_react s i in
    let rest = close_all-Fair s' is k.waits all in
    let out = close_all s' is in
    record {
      waits = rest.waits;
      no_more = omega (arith, rest.no_more, k.no_more);
      told =
          closed_count-append effects out.1
          ∙ omega (
            arith,
            k.told,
            rest.told,
            once_twice (length s.closing) (length s'.closing) (length out.0.closing) k.no_more
                rest.no_more,
          );
    }

close_all-Lost :
    (d : ℕ) (s : PoolClosing) (is : List CloseInput) → Waits (suc d) s → Lost (close_all s is)
unfolding close_all
close_all-Lost d s [] w = record { d = d; waits = w; silent = refl }
close_all-Lost d s (i ∷ is) w =
    let k = close_react-Lost d s i w in
    let rest = close_all-Lost k.d (close_react s i).0 is k.waits in
    record {
      d = rest.d;
      waits = rest.waits;
      silent =
          closed_count-append (close_react s i).1 (close_all (close_react s i).0 is).1
          ∙ omega (arith, k.silent, rest.silent);
    }

has_id-append : (w : Process) (vs ws : List Process) → has_id w.id (vs ++ w ∷ ws) ≡ true
unfolding has_id
has_id-append w [] ws = let this : (w.id == w.id) ≡ true = ground arith in rw this refl
has_id-append w (v ∷ vs) ws = ground (arith, has_id-append w vs ws)

append-AllPool :
    (cs : List Closing) (c : Closing) → AllPool cs → c.whose ≡ whole_pool → AllPool (cs ++ c ∷ [])
append-AllPool [] c p e = (e, tt)
append-AllPool (b ∷ bs) c p e = (p.0, append-AllPool bs c p.1 e)

-- Asking the workers of a pool, the first of which are asked already.
record Asked (s : PoolClosing) (ws : List Process) (out : PoolClosing × List Effect) : Type 0 where
  pool_only : AllPool out.0.closing
  added : length out.0.closing ≡ length s.closing + length ws
  calls : out.0.closing ≡ s.closing ++ map asked_of ws
  left_alone : out.0.after_left ≡ s.after_left
  silent : closed_count out.1 ≡ 0

shutdown_each-Asked :
    (s : PoolClosing) (vs ws : List Process)
    → WorkerPool.workers s.pool ≡ vs ++ ws
    → AllPool s.closing
    → Asked s ws (shutdown_each s ws)
unfolding shutdown_each
shutdown_each-Asked s vs [] e p = record {
  pool_only = p;
  added = omega arith;
  calls = sym (append-nil s.closing);
  left_alone = refl;
  silent = refl;
}
shutdown_each-Asked s vs (w ∷ ws) e p =
    let here : has_id w.id (WorkerPool.workers s.pool) ≡ true = rw e (has_id-append w vs ws) in
    let c : Closing = record { id = w.id; stage = asked; whose = whole_pool } in
    let s' : PoolClosing = record s { closing = s.closing ++ c ∷ [] } in
    let one : shutdown_worker s w.id whole_pool ≡ (s', requested w.id ∷ []) =
      unfold shutdown_worker in rw here refl in
    let ih =
      shutdown_each-Asked s' (vs ++ w ∷ []) ws (e ∙ sym (append_assoc vs (w ∷ []) ws))
        (append-AllPool s.closing c p refl) in
    rw one (record {
      pool_only = ih.pool_only;
      added = ih.added ∙ omega (arith, length-append s.closing (c ∷ []));
      calls = ih.calls ∙ append_assoc s.closing (c ∷ []) (map asked_of ws);
      left_alone = ih.left_alone;
      silent = ih.silent;
    })

-- The state after `shutdown` has asked all workers.
record Started (s : PoolClosing) : Type 0 where
  waits : Waits 0 (shutdown s).0
  all_asked : length (shutdown s).0.closing ≡ WorkerPool.count s.pool
  calls : (shutdown s).0.closing ≡ map asked_of (WorkerPool.workers s.pool)
  not_yet : closed_count (shutdown s).1 ≡ 0

shutdown-Started : (s : PoolClosing) → s.closing ≡ [] → 0 < WorkerPool.count s.pool → Started s
unfolding shutdown
shutdown-Started s e some_left =
    let n = WorkerPool.count s.pool in
    let busy : (n == 0) ≡ false = ground arith in
    let asking : PoolClosing = record s {
      pool = record s.pool { shutting_down = true };
      after_left = n;
      polling = if n == 0 then false else s.polling;
    } in
    let asked =
      shutdown_each-Asked asking [] (WorkerPool.workers s.pool) (unfold WorkerPool.workers in refl)
        (rw e tt) in
    let nothing : length s.closing ≡ 0 = ap length e in
    let counted : n ≡ length (WorkerPool.workers s.pool) = unfold WorkerPool.count in refl in
    let quiet : closed_count (if n == 0 then pool_closed ∷ [] else []) ≡ 0 = rw busy refl in
    record {
      waits = record {
        pool_only = asked.pool_only;
        open_calls = asked.left_alone ∙ omega (arith, asked.added, nothing, counted);
      };
      all_asked = omega (arith, asked.added, nothing, counted);
      calls = asked.calls ∙ ap (λ cs. cs ++ map asked_of (WorkerPool.workers s.pool)) e;
      not_yet =
          closed_count-append (if n == 0 then pool_closed ∷ [] else []) _
          ∙ omega (arith, quiet, asked.silent);
    }

-- When the pool is shut down while it has workers, and every worker's answer is without an error
-- and comes while it is registered, then, whatever else happens in whatever order, the callback has
-- been called once if each worker that the pool had has answered and its process has exited after
-- that, and it has not been called otherwise.
pub shutdown-closes_once :
    (s : PoolClosing) (is : List CloseInput)
    → s.closing ≡ []
    → 0 < WorkerPool.count s.pool
    → AllFair (shutdown s).0 is
    → closed_count ((shutdown s).1 ++ (close_all (shutdown s).0 is).1)
      ≡ (if all_shut_down (WorkerPool.workers s.pool) is then 1 else 0)
shutdown-closes_once s is e some_left fair =
    let v = shutdown-Started s e some_left in
    let k = close_all-Fair (shutdown s).0 is v.waits fair in
    let ended : (length (close_all (shutdown s).0 is).0.closing == 0)
        ≡ all_shut_down (WorkerPool.workers s.pool) is =
      sym (close_all-all_ended is (shutdown s).0 fair)
      ∙ ap (λ cs. all_ended cs is) v.calls
      ∙ all_ended-asked is (WorkerPool.workers s.pool) in
    let called : closed_count ((shutdown s).1 ++ (close_all (shutdown s).0 is).1)
        ≡ (if length (close_all (shutdown s).0 is).0.closing == 0 then 1 else 0) =
      closed_count-append (shutdown s).1 (close_all (shutdown s).0 is).1
      ∙ ground (arith, v.not_yet, v.all_asked, k.told) in
    called ∙ ap (λ b. if b then 1 else 0) ended

-- After one worker has answered with an error to a request that was open, the callback is never
-- called, whatever happens then; before that, every answer was without an error and came while its
-- worker was registered.
pub refusal-never_closes :
    (s : PoolClosing) (is js : List CloseInput) (id : ℕ)
    → s.closing ≡ []
    → 0 < WorkerPool.count s.pool
    → AllFair (shutdown s).0 is
    → length (not_answered id (close_all (shutdown s).0 is).0.closing)
      < length (close_all (shutdown s).0 is).0.closing
    → let t = close_all (shutdown s).0 is in
      closed_count ((shutdown s).1 ++ (t.1 ++ (close_all t.0 (answers id true ∷ js)).1)) ≡ 0
unfolding close_all close_react shutdown_answered
refusal-never_closes s is js id e some_left fair lost =
    let v = shutdown-Started s e some_left in
    let k = close_all-Fair (shutdown s).0 is v.waits fair in
    let t = close_all (shutdown s).0 is in
    let refused : PoolClosing = record t.0 { closing = not_answered id t.0.closing } in
    let missing = length t.0.closing - length (not_answered id t.0.closing) in
    let late : Waits (suc (missing - 1)) refused =
      subst (λ n. Waits n refused) (omega (arith, lost)) (given_up-Waits 0 t.0 id k.waits) in
    let after = close_all-Lost (missing - 1) refused js late in
    let before : closed_count t.1 ≡ 0 = ground (arith, k.told, lost) in
    closed_count-append (shutdown s).1 (t.1 ++ (close_all refused js).1)
    ∙ omega
        (arith, v.not_yet, closed_count-append t.1 (close_all refused js).1, before, after.silent)
