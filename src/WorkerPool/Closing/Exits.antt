-- ===== src/WorkerPool/Closing/Exits.antt =====
-- Which workers have exited, told from what has happened, and which calls wait for them
-- (worker_pool.js).
use stream_machine.Prelude.Lists.{length}
use stream_machine.WorkerPool.{Process}
use stream_machine.WorkerPool.Closing.Ending.{Fair}
use stream_machine.WorkerPool.Closing.{
  Caller, CloseInput, Closing, Effect, PoolClosing, Stage, answered, answers, asked, caller,
  close_all, close_react, count_down, exiting, is_asked, not_waiting_for, process_ends,
  shutdown_answered, tell, tell_all, timer_ends, timer_ran_out, waiting_for, whole_pool,
  worker_exited,
}
use stream_machine.Prelude.Tests.{◌==◌, either_branch, if◌then◌else◌, leb}
use stream_machine.Prelude.{
  ◌&&◌, Bool, List, [], ap, arith, false, map, not, refl, sym, true, ◌||◌, ℕ, ◌∙◌, ◌∷◌, ◌≡◌,
}

-- The worker's process has exited.
abbrev pub has_exited : ℕ → List CloseInput → Bool
has_exited id [] = false
has_exited id (process_ends j ∷ is) = id == j || has_exited id is
has_exited id (_ ∷ is) = has_exited id is

-- The worker has answered without an error, and its process has exited after it.
abbrev pub has_shut_down : ℕ → List CloseInput → Bool
has_shut_down id [] = false
has_shut_down id (answers j refused ∷ is) =
    let rest = has_shut_down id is in if id == j && not refused then has_exited id is else rest
has_shut_down id (_ ∷ is) = has_shut_down id is

abbrev pub all_shut_down : List Process → List CloseInput → Bool
all_shut_down [] is = true
all_shut_down (w ∷ ws) is = has_shut_down w.id is && all_shut_down ws is

-- What a call still waits for happens.
abbrev has_ended : Stage → ℕ → List CloseInput → Bool
has_ended asked id is = has_shut_down id is
has_ended exiting id is = has_exited id is

abbrev pub all_ended : List Closing → List CloseInput → Bool
all_ended [] is = true
all_ended (c ∷ cs) is = has_ended c.stage c.id is && all_ended cs is

ended_answered :
    (g : Stage) (k id : ℕ) (is : List CloseInput)
    → (k == id && is_asked g) ≡ true
    → has_ended g k (answers id false ∷ is) ≡ has_exited k is
unfolding is_asked
ended_answered asked k id is h = let this : (k == id) ≡ true = ground (arith, h) in rw this refl
ended_answered exiting k id is h = refl

ended_unanswered :
    (g : Stage) (k id : ℕ) (is : List CloseInput)
    → (k == id && is_asked g) ≡ false
    → has_ended g k (answers id false ∷ is) ≡ has_ended g k is
unfolding is_asked
ended_unanswered asked k id is h =
    let other : (k == id) ≡ false = ground (arith, h) in rw other refl
ended_unanswered exiting k id is h = refl

answered-all_ended :
    (id : ℕ) (is : List CloseInput) (cs : List Closing)
    → all_ended cs (answers id false ∷ is) ≡ all_ended (answered id cs) is
unfolding answered
answered-all_ended id is [] = refl
answered-all_ended id is (c ∷ cs) =
    let rest = answered-all_ended id is cs in
    either_branch
      (λ ds.
        (has_ended c.stage c.id (answers id false ∷ is) && all_ended cs (answers id false ∷ is))
        ≡ all_ended ds is)
      (c.id == id && is_asked c.stage) _ _
      (λ h. rw (ended_answered c.stage c.id id is h, rest) refl)
      (λ h. rw (ended_unanswered c.stage c.id id is h, rest) refl)

ended_exit :
    (g : Stage) (k id : ℕ) (is : List CloseInput)
    → (k == id && not (is_asked g)) ≡ true
    → has_ended g k (process_ends id ∷ is) ≡ true
unfolding is_asked
ended_exit asked k id is h = absurd (ground (arith, h))
ended_exit exiting k id is h = let this : (k == id) ≡ true = ground (arith, h) in rw this refl

ended_other :
    (g : Stage) (k id : ℕ) (is : List CloseInput)
    → (k == id && not (is_asked g)) ≡ false
    → has_ended g k (process_ends id ∷ is) ≡ has_ended g k is
unfolding is_asked
ended_other asked k id is h = refl
ended_other exiting k id is h = let other : (k == id) ≡ false = ground (arith, h) in rw other refl

not_waiting_for-all_ended :
    (id : ℕ) (is : List CloseInput) (cs : List Closing)
    → all_ended cs (process_ends id ∷ is) ≡ all_ended (not_waiting_for id cs) is
unfolding not_waiting_for
not_waiting_for-all_ended id is [] = refl
not_waiting_for-all_ended id is (c ∷ cs) =
    let rest = not_waiting_for-all_ended id is cs in
    either_branch
      (λ ds.
        (has_ended c.stage c.id (process_ends id ∷ is) && all_ended cs (process_ends id ∷ is))
        ≡ all_ended ds is)
      (c.id == id && not (is_asked c.stage)) _ _
      (λ h. rw (ended_exit c.stage c.id id is h, rest) refl)
      (λ h. rw (ended_other c.stage c.id id is h, rest) refl)

ended_timer :
    (g : Stage) (k id : ℕ) (is : List CloseInput)
    → has_ended g k (timer_ends id ∷ is) ≡ has_ended g k is
ended_timer asked k id is = refl
ended_timer exiting k id is = refl

timer-all_ended :
    (id : ℕ) (is : List CloseInput) (cs : List Closing)
    → all_ended cs (timer_ends id ∷ is) ≡ all_ended cs is
timer-all_ended id is [] = refl
timer-all_ended id is (c ∷ cs) = rw (ended_timer c.stage c.id id is, timer-all_ended id is cs) refl

tell-closing : (s : PoolClosing) (whose : Caller) → (tell s whose).0.closing ≡ s.closing
unfolding tell count_down
tell-closing s whole_pool =
    either_branch (λ (out : PoolClosing × List Effect). out.0.closing ≡ s.closing)
      (leb s.after_left 1) _ _ (λ last. refl) (λ more. refl)
tell-closing s (caller k) = refl

tell_all-closing : (cs : List Closing) (s : PoolClosing) → (tell_all s cs).0.closing ≡ s.closing
unfolding tell_all
tell_all-closing [] s = refl
tell_all-closing (c ∷ cs) s = tell_all-closing cs (tell s c.whose).0 ∙ tell-closing s c.whose

timer_ran_out-closing : (s : PoolClosing) (id : ℕ) → (timer_ran_out s id).0.closing ≡ s.closing
unfolding timer_ran_out
timer_ran_out-closing s id = go (waiting_for id s.closing) refl
  where
    go :
        (cs : List Closing)
        → waiting_for id s.closing ≡ cs
        → (timer_ran_out s id).0.closing ≡ s.closing
    go [] e = rw (e, timer_ran_out) refl
    go (c ∷ cs) e = rw (e, timer_ran_out) refl

close_react-all_ended :
    (s : PoolClosing) (i : CloseInput) (is : List CloseInput)
    → Fair s i
    → all_ended s.closing (i ∷ is) ≡ all_ended (close_react s i).0.closing is
unfolding close_react shutdown_answered worker_exited
close_react-all_ended s (answers id true) is (e, _) = absurd (cc e)
close_react-all_ended s (answers id false) is (_, there) =
    rw there (answered-all_ended id is s.closing)
close_react-all_ended s (process_ends id) is fair =
    not_waiting_for-all_ended id is s.closing
    ∙ ap (λ cs. all_ended cs is) (sym (tell_all-closing (waiting_for id s.closing) _))
close_react-all_ended s (timer_ends id) is fair =
    timer-all_ended id is s.closing ∙ ap (λ cs. all_ended cs is) (sym (timer_ran_out-closing s id))

ended_never : (g : Stage) (k : ℕ) → has_ended g k [] ≡ false
ended_never asked k = refl
ended_never exiting k = refl

all_ended-nil : (cs : List Closing) → all_ended cs [] ≡ (length cs == 0)
all_ended-nil [] = refl
all_ended-nil (c ∷ cs) = rw (ended_never c.stage c.id) (ground arith)

-- Every answer is one without an error, and comes while the worker is registered.
abbrev pub AllFair : PoolClosing → List CloseInput → Type 0
AllFair s [] = Unit {0}
AllFair s (i ∷ is) = Fair s i × AllFair (close_react s i).0 is

-- No call waits any more when what the calls waited for has happened, and only then.
pub close_all-all_ended :
    (is : List CloseInput) (s : PoolClosing)
    → AllFair s is
    → all_ended s.closing is ≡ (length (close_all s is).0.closing == 0)
unfolding close_all
close_all-all_ended [] s fair = all_ended-nil s.closing
close_all-all_ended (i ∷ is) s (fair, all) =
    close_react-all_ended s i is fair ∙ close_all-all_ended is (close_react s i).0 all

-- The call of `shutdownWorker` for a worker of the pool.
abbrev pub asked_of : Process → Closing
asked_of w = record { id = w.id; stage = asked; whose = whole_pool }

pub all_ended-asked :
    (is : List CloseInput) (ws : List Process)
    → all_ended (map asked_of ws) is ≡ all_shut_down ws is
all_ended-asked is [] = refl
all_ended-asked is (w ∷ ws) = ap (λ b. has_shut_down w.id is && b) (all_ended-asked is ws)
