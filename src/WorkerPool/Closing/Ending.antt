-- ===== src/WorkerPool/Closing/Ending.antt =====
-- When the callback of `shutdown` (worker_pool.js) is called.
use stream_machine.Prelude.Lists.{length}
use stream_machine.Prelude.Tests.{◌==◌, if◌then◌else◌, Bool-cases, leb}
use stream_machine.Prelude.{
  ◌+◌, ◌++◌, ◌-◌, List, [], arith, map, refl, suc, ℕ, ◌∷◌, ◌≡◌, ◌≤◌, false, inl, inr, true, ◌∙◌,
  ◌⊎◌, ◌&&◌, ap, not, subst,
}
use stream_machine.WorkerPool
use stream_machine.WorkerPool.{Process, WorkerPool, waits}
use stream_machine.WorkerPool.Closing.{
  Closing, PoolClosing, count_down, of_pool, pool_closed, requested, tell, tell_all, whole_pool,
  worker_closed, worker_unknown, Effect, threw, answered, is_asked, not_answered, not_waiting_for,
  waiting_for, worker_exited, CloseInput, answers, close_react, has_id, process_ends,
  shutdown_answered, timer_ends, timer_ran_out,
}

-- Every open call belongs to `shutdown`.
abbrev pub AllPool : List Closing → Type 0
AllPool [] = Unit {0}
AllPool (c ∷ cs) = (c.whose ≡ whole_pool) × AllPool cs

-- How often the callback is called.
abbrev pub closed_count : List Effect → ℕ
closed_count [] = 0
closed_count (pool_closed ∷ es) = suc (closed_count es)
closed_count (requested id ∷ es) = closed_count es
closed_count (worker_closed k ∷ es) = closed_count es
closed_count (worker_unknown k ∷ es) = closed_count es
closed_count (threw ∷ es) = closed_count es
closed_count (of_pool e ∷ es) = closed_count es

pub closed_count-append :
    (es fs : List Effect) → closed_count (es ++ fs) ≡ closed_count es + closed_count fs
closed_count-append [] fs = omega arith
closed_count-append (pool_closed ∷ es) fs = omega (arith, closed_count-append es fs)
closed_count-append (requested id ∷ es) fs = closed_count-append es fs
closed_count-append (worker_closed k ∷ es) fs = closed_count-append es fs
closed_count-append (worker_unknown k ∷ es) fs = closed_count-append es fs
closed_count-append (threw ∷ es) fs = closed_count-append es fs
closed_count-append (of_pool e ∷ es) fs = closed_count-append es fs

closed_count-of_pool : (es : List WorkerPool.Effect) → closed_count (map of_pool es) ≡ 0
closed_count-of_pool [] = refl
closed_count-of_pool (e ∷ es) = closed_count-of_pool es

-- All calls that `_.after` waits for are open, and d more.
pub record Waits (d : ℕ) (s : PoolClosing) : Type 0 where
  pub pool_only : AllPool s.closing
  pub open_calls : s.after_left ≡ length s.closing + d

-- The effects of telling: the callback is called by the last of the calls that are waited for.
record Told (a k : ℕ) (s : PoolClosing) (out : PoolClosing × List Effect) : Type 0 where
  fewer : out.0.after_left ≡ a - k
  same : out.0.closing ≡ s.closing
  calls : closed_count out.1 ≡ (if a == 0 then 0 else if a == k then 1 else 0)

tell_all-Told :
    (cs : List Closing) (s : PoolClosing)
    → AllPool cs
    → length cs ≤ s.after_left
    → Told s.after_left (length cs) s (tell_all s cs)
unfolding tell_all tell count_down
tell_all-Told [] s p h = record { fewer = omega arith; same = refl; calls = ground arith }
tell_all-Told (c ∷ cs) s p h =
    rw p.0 (go (λ t b. tell_all-Told cs t p.1 b) (Bool-cases (leb s.after_left 1)))
  where
    go :
        ((t : PoolClosing)
          → length cs ≤ t.after_left
          → Told t.after_left (length cs) t (tell_all t cs))
        → (leb s.after_left 1 ≡ true) ⊎ (leb s.after_left 1 ≡ false)
        → Told s.after_left (suc (length cs)) s (tell_all s (record c { whose = whole_pool } ∷ cs))
    go rest (inl last) =
        let s' : PoolClosing = record s { after_left = 0; polling = false } in
        let one : s.after_left ≡ 1 = ground arith in
        let nobody : length cs ≤ 0 = ground arith in
        let down : count_down s ≡ (s', pool_closed ∷ []) = rw last refl in
        let ih = rest s' nobody in
        rw down (record {
          fewer = ih.fewer ∙ omega arith;
          same = ih.same;
          calls = ground (arith, ih.calls);
        })
    go rest (inr more) =
        let s' : PoolClosing = record s { after_left = s.after_left - 1 } in
        let down : count_down s ≡ (s', []) = rw more refl in
        let ih = rest s' (omega (arith, h)) in
        rw down (record {
          fewer = ih.fewer ∙ omega arith;
          same = ih.same;
          calls = ground (arith, ih.calls);
        })

-- The open calls that wait for an exit, and the others.
split-waiting :
    (id : ℕ) (cs : List Closing)
    → AllPool cs
    → AllPool (waiting_for id cs)
      × AllPool (not_waiting_for id cs)
      × (length (waiting_for id cs) + length (not_waiting_for id cs) ≡ length cs)
unfolding waiting_for not_waiting_for
split-waiting id [] p = (tt, tt, omega arith)
split-waiting id (c ∷ cs) p =
    let (all, others, lengths) = split-waiting id cs p.1 in
    elim (Bool-cases (c.id == id && not (is_asked c.stage))) [
      | inl this ↦ rw this ((p.0, all), others, omega (arith, lengths))
      | inr other ↦ rw other (all, (p.0, others), omega (arith, lengths))
    ]

answered-kept :
    (id : ℕ) (cs : List Closing)
    → AllPool cs
    → AllPool (answered id cs) × (length (answered id cs) ≡ length cs)
unfolding answered
answered-kept id [] p = (tt, refl)
answered-kept id (c ∷ cs) p =
    let (all, lengths) = answered-kept id cs p.1 in
    elim (Bool-cases (c.id == id && is_asked c.stage)) [
      | inl this ↦ rw this ((p.0, all), ap suc lengths)
      | inr other ↦ rw other ((p.0, all), ap suc lengths)
    ]

not_answered-fewer :
    (id : ℕ) (cs : List Closing)
    → AllPool cs
    → AllPool (not_answered id cs) × (length (not_answered id cs) ≤ length cs)
unfolding not_answered
not_answered-fewer id [] p = (tt, omega arith)
not_answered-fewer id (c ∷ cs) p =
    let (all, lengths) = not_answered-fewer id cs p.1 in
    elim (Bool-cases (c.id == id && is_asked c.stage)) [
      | inl this ↦ rw this (all, omega (arith, lengths))
      | inr other ↦ rw other ((p.0, all), omega (arith, lengths))
    ]

-- One call of the callback when open calls become none.
abbrev pub once : ℕ → ℕ → ℕ
once before after = if before == 0 then 0 else if after == 0 then 1 else 0

-- A step that keeps what is waited for.
pub record Kept (d : ℕ) (s : PoolClosing) (out : PoolClosing × List Effect) : Type 0 where
  pub waits : Waits d out.0
  pub no_more : length out.0.closing ≤ length s.closing
  pub told :
      closed_count out.1 ≡ (if d == 0 then once (length s.closing) (length out.0.closing) else 0)

worker_exited-Kept : (d : ℕ) (s : PoolClosing) (id : ℕ) → Waits d s → Kept d s (worker_exited s id)
unfolding worker_exited
worker_exited-Kept d s id w =
    let (all, others, lengths) = split-waiting id s.closing w.pool_only in
    let (pool, effects) = WorkerPool.process_exited s.pool id in
    let s' : PoolClosing = record s { pool = pool; closing = not_waiting_for id s.closing } in
    let told =
      tell_all-Told (waiting_for id s.closing) s' all (omega (arith, lengths, w.open_calls)) in
    let out = tell_all s' (waiting_for id s.closing) in
    let quiet = closed_count-of_pool effects in
    let same_length : length out.0.closing ≡ length (not_waiting_for id s.closing) =
      ap length told.same in
    record {
      waits = record {
        pool_only = rw told.same others;
        open_calls = told.fewer ∙ omega (arith, same_length, lengths, w.open_calls);
      };
      no_more = rw told.same (omega (arith, lengths));
      told =
          closed_count-append out.1 (map of_pool effects)
          ∙ ground (arith, told.calls, quiet, same_length, lengths, w.open_calls);
    }

-- An answer without an error, of a worker that is registered.
abbrev pub Fair : PoolClosing → CloseInput → Type 0
Fair s (answers id refused) = (refused ≡ false) × (has_id id (WorkerPool.workers s.pool) ≡ true)
Fair s (process_ends id) = Unit {0}
Fair s (timer_ends id) = Unit {0}

timer_ran_out-Kept : (d : ℕ) (s : PoolClosing) (id : ℕ) → Waits d s → Kept d s (timer_ran_out s id)
unfolding timer_ran_out
timer_ran_out-Kept d s id w = go (waiting_for id s.closing) refl
  where
    go : (cs : List Closing) → waiting_for id s.closing ≡ cs → Kept d s (timer_ran_out s id)
    go [] e =
        rw (e, timer_ran_out) (record { waits = w; no_more = omega arith; told = ground arith })
    go (c ∷ cs) e =
        rw (e, timer_ran_out) (record { waits = w; no_more = omega arith; told = ground arith })

pub close_react-Fair :
    (s : PoolClosing) (i : CloseInput) → Waits 0 s → Fair s i → Kept 0 s (close_react s i)
unfolding close_react shutdown_answered
close_react-Fair s (answers id true) w f = absurd (let bad = f.0 in cc)
close_react-Fair s (answers id false) w f =
    let (all, lengths) = answered-kept id s.closing w.pool_only in
    rw f.1 (record {
      waits = record { pool_only = all; open_calls = omega (arith, lengths, w.open_calls) };
      no_more = omega (arith, lengths);
      told = ground (arith, lengths);
    })
close_react-Fair s (process_ends id) w f = worker_exited-Kept 0 s id w
close_react-Fair s (timer_ends id) w f = timer_ran_out-Kept 0 s id w

-- A step after one that lost a call.
pub record Lost (out : PoolClosing × List Effect) : Type 0 where
  pub d : ℕ
  pub waits : Waits (suc d) out.0
  pub silent : closed_count out.1 ≡ 0

Kept-Lost :
    (d : ℕ) (s : PoolClosing) (out : PoolClosing × List Effect) → Kept (suc d) s out → Lost out
Kept-Lost d s out k = record { d = d; waits = k.waits; silent = k.told ∙ ground arith }

-- A request that is given up leaves a call that never comes.
pub given_up-Waits :
    (d : ℕ) (s : PoolClosing) (id : ℕ)
    → Waits d s
    → Waits
        (d + (length s.closing - length (not_answered id s.closing)))
        (record s { closing = not_answered id s.closing })
given_up-Waits d s id w =
    let (all, lengths) = not_answered-fewer id s.closing w.pool_only in
    record { pool_only = all; open_calls = omega (arith, lengths, w.open_calls) }

more-Lost :
    (d e : ℕ) (s : PoolClosing) (es : List Effect)
    → Waits (suc d + e) s
    → closed_count es ≡ 0
    → Lost (s, es)
more-Lost d e s es w silent = record {
  d = d + e;
  waits = subst (λ n. Waits n s) (omega arith) w;
  silent = silent;
}

pub close_react-Lost :
    (d : ℕ) (s : PoolClosing) (i : CloseInput) → Waits (suc d) s → Lost (close_react s i)
unfolding close_react shutdown_answered
close_react-Lost d s (answers id true) w = more-Lost d _ _ [] (given_up-Waits (suc d) s id w) refl
close_react-Lost d s (answers id false) w =
    elim (Bool-cases (has_id id (WorkerPool.workers s.pool))) [
      | inl there ↦
          let (all, lengths) = answered-kept id s.closing w.pool_only in
          rw there (
            more-Lost d 0 _ []
              (record { pool_only = all; open_calls = omega (arith, lengths, w.open_calls) }) refl)
      | inr gone ↦ rw gone (more-Lost d _ _ (threw ∷ []) (given_up-Waits (suc d) s id w) refl)
    ]
close_react-Lost d s (process_ends id) w = Kept-Lost d s _ (worker_exited-Kept (suc d) s id w)
close_react-Lost d s (timer_ends id) w = Kept-Lost d s _ (timer_ran_out-Kept (suc d) s id w)
