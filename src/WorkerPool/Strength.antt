-- ===== src/WorkerPool/Strength.antt =====
-- A pool whose workers all come up reaches its full strength (worker_pool.js).
use mathlib.Core.List.{append-nil, append_assoc}
use stream_machine.WorkerPool.Size.{select-append}
use stream_machine.Prelude.Lists.{length, length-append}
use stream_machine.Prelude.Tests.{◌==◌, leb}
use stream_machine.Prelude.{
  ◌++◌, ◌<◌, Bool, List, [], ap, arith, false, refl, suc, true, zero, ℕ, ◌∙◌, ◌∷◌, ◌≡◌, ◌+◌, sym,
}
use stream_machine.WorkerPool.{
  forked, full_strength, worker_loaded, replied, Effect, Input, Process, WorkerPool, count,
  is_configured, is_loaded, is_set_up, new_process, react, react_all, rewinds_loaded, rpc_set_up,
  select, spawn, update, worker_configured, workers, new_pool,
}

-- A worker that is set up, configured and loaded.
abbrev pub full : ℕ → Process
full id = record { id = id; registered = true; configured = true; loaded = true; exited = false }

-- The first k workers.
abbrev pub all_up : ℕ → List Process
all_up zero = []
all_up (suc k) = all_up k ++ full (suc k) ∷ []

-- A worker comes up: its channel is set up, it is configured, and it has loaded its streams.
abbrev pub comes_up : ℕ → List Input
comes_up id = is_set_up id false ∷ is_configured id ∷ is_loaded id ∷ []

-- The workers from the one with the id k + 1 on, r of them, come up one after the other.
abbrev pub come_up : ℕ → ℕ → List Input
come_up k zero = []
come_up k (suc r) = comes_up (suc k) ++ come_up (suc k) r

-- What is seen of it: each worker has the next one forked, and after the last the pool is full.
abbrev pub seen : ℕ → ℕ → List Effect
seen k zero = []
seen k (suc zero) = replied (suc k) ∷ worker_loaded ∷ replied (suc k) ∷ full_strength ∷ []
seen k (suc (suc r)) =
    replied (suc k) ∷ worker_loaded ∷ replied (suc k) ∷ forked (suc (suc k)) ∷ seen (suc k) (suc r)

-- All ids are below n.
abbrev Below : ℕ → List Process → Type 0
Below n [] = Unit {0}
Below n (w ∷ ws) = (w.id < n) × Below n ws

append-Below :
    (n : ℕ) (ws : List Process) (w : Process) → Below n ws → w.id < n → Below n (ws ++ w ∷ [])
append-Below n [] w b h = (h, tt)
append-Below n (v ∷ vs) w b h = (b.0, append-Below n vs w b.1 h)

weaken-Below : (n : ℕ) (ws : List Process) → Below n ws → Below (suc n) ws
weaken-Below n [] b = tt
weaken-Below n (v ∷ vs) b = (omega (arith, b.0), weaken-Below n vs b.1)

all_up-Below : (k : ℕ) → Below (suc k) (all_up k)
all_up-Below zero = tt
all_up-Below (suc k) =
    append-Below (suc (suc k)) (all_up k) (full (suc k))
      (weaken-Below (suc k) (all_up k) (all_up-Below k)) (omega arith)

update-last :
    (id : ℕ) (f : Process → Process) (ws : List Process) (w : Process)
    → Below id ws
    → w.id ≡ id
    → update id f (ws ++ w ∷ []) ≡ ws ++ f w ∷ []
unfolding update
update-last id f [] w b e = let this : (w.id == id) ≡ true = ground arith in rw this refl
update-last id f (v ∷ vs) w b e =
    let other : (v.id == id) ≡ false = ground (arith, b.0) in
    rw other (ap (λ us. v ∷ us) (update-last id f vs w b.1 e))

select-all_up :
    (f : Process → Bool) (k : ℕ) → ((id : ℕ) → f (full id) ≡ true) → select f (all_up k) ≡ all_up k
select-all_up f zero h = unfold select in refl
select-all_up f (suc k) h =
    select-append f (all_up k) (full (suc k) ∷ [])
    ∙ ap (λ ws. ws ++ select f (full (suc k) ∷ [])) (select-all_up f k h)
    ∙ ap (λ ws. all_up k ++ ws) (unfold select in rw (h (suc k)) refl)

length-all_up : (k : ℕ) → length (all_up k) ≡ k
length-all_up zero = refl
length-all_up (suc k) =
    length-append (all_up k) (full (suc k) ∷ []) ∙ omega (arith, length-all_up k)

-- The first k workers are up, and the next is starting.
abbrev pub starting : ℕ → ℕ → WorkerPool
starting n k = record {
  size = n;
  next_id = suc (suc k);
  shutting_down = false;
  processes = all_up k ++ new_process (suc k) ∷ [];
  waiting = [];
}

-- The first k workers are up.
abbrev pub up : ℕ → ℕ → WorkerPool
up n k = record {
  size = n;
  next_id = suc k;
  shutting_down = false;
  processes = all_up k;
  waiting = [];
}

count-up : (n k : ℕ) → count (up n k) ≡ k
unfolding count workers
count-up n k = ap length (select-all_up (λ w. w.registered) k (λ id. refl)) ∙ length-all_up k

abbrev with_processes : ℕ → ℕ → List Process → WorkerPool
with_processes n next ws = record {
  size = n;
  next_id = next;
  shutting_down = false;
  processes = ws;
  waiting = [];
}

abbrev bring_up : ℕ → List Process → List Process
bring_up id ws =
    update id (λ w. record w { loaded = true })
      (update id (λ w. record w { configured = true })
        (update id (λ w. record w { registered = true }) ws))

bring_up-last : (k : ℕ) → bring_up (suc k) (all_up k ++ new_process (suc k) ∷ []) ≡ all_up (suc k)
unfolding new_process
bring_up-last k =
    let b = all_up-Below k in
    let id : ℕ = suc k in
    let configure : Process → Process = λ w. record w { configured = true } in
    let load : Process → Process = λ w. record w { loaded = true } in
    let set_up : Process = record (new_process id) { registered = true } in
    ap (λ ws. update id load (update id configure ws))
      (update-last id (λ w. record w { registered = true }) (all_up k) (new_process id) b refl)
    ∙ ap (update id load) (update-last id configure (all_up k) set_up b refl)
    ∙ update-last id load (all_up k) (record set_up { configured = true }) b refl

comes_up-spawn :
    (n next id : ℕ) (ws : List Process)
    → react_all (with_processes n next ws) (comes_up id) ≡ (
      (spawn (with_processes n next (bring_up id ws))).0,
      replied id ∷ worker_loaded ∷ replied id ∷ (spawn (with_processes n next (bring_up id ws))).1,
    )
unfolding react_all react rpc_set_up worker_configured rewinds_loaded
comes_up-spawn n next id ws =
    let pool = spawn (with_processes n next (bring_up id ws)) in
    ap (λ es. (pool.0, replied id ∷ worker_loaded ∷ replied id ∷ es)) (append-nil pool.1)

react_all-append :
    (p : WorkerPool) (is js : List Input)
    → react_all p (is ++ js) ≡ (
      (react_all (react_all p is).0 js).0,
      (react_all p is).1 ++ (react_all (react_all p is).0 js).1,
    )
unfolding react_all
react_all-append p [] js = refl
react_all-append p (i ∷ is) js =
    let (p', effects) = react p i in
    ap (λ r. (r.0, effects ++ r.1)) (react_all-append p' is js)
    ∙ ap (λ es. ((react_all (react_all p' is).0 js).0, es))
        (sym (append_assoc effects (react_all p' is).1 (react_all (react_all p' is).0 js).1))

-- One worker comes up, and the pool starts another if it is not full.
comes_up-starting :
    (n k : ℕ)
    → react_all (starting n k) (comes_up (suc k)) ≡ (
      (spawn (up n (suc k))).0,
      replied (suc k) ∷ worker_loaded ∷ replied (suc k) ∷ (spawn (up n (suc k))).1,
    )
comes_up-starting n k =
    comes_up-spawn n (suc (suc k)) (suc k) (all_up k ++ new_process (suc k) ∷ [])
    ∙ ap
        (λ ws. (
          (spawn (with_processes n (suc (suc k)) ws)).0,
          replied (suc k)
              ∷ worker_loaded
              ∷ replied (suc k)
              ∷ (spawn (with_processes n (suc (suc k)) ws)).1,
        ))
        (bring_up-last k)

spawn-full : (n : ℕ) → spawn (up n n) ≡ (up n n, full_strength ∷ [])
unfolding spawn
spawn-full n =
    let no_room : leb n (count (up n n)) ≡ true = ground (arith, count-up n n) in rw no_room refl

spawn-next : (n k : ℕ) → k < n → spawn (up n k) ≡ (starting n k, forked (suc k) ∷ [])
unfolding spawn
spawn-next n k h =
    let room : leb n (count (up n k)) ≡ false = ground (arith, count-up n k) in
    let next : suc k + 1 ≡ suc (suc k) = omega arith in rw (room, next) refl

come_up-all :
    (n k r : ℕ)
    → k + suc r ≡ n
    → react_all (starting n k) (come_up k (suc r)) ≡ (up n n, seen k (suc r))
come_up-all n k zero e =
    let last : suc k ≡ n = omega arith in
    comes_up-starting n k
    ∙ ap (λ r. (r.0, replied (suc k) ∷ worker_loaded ∷ replied (suc k) ∷ r.1))
        (ap (λ m. spawn (up n m)) last ∙ spawn-full n)
come_up-all n k (suc r) e =
    let js = come_up (suc k) (suc r) in
    let news : List Effect =
      replied (suc k) ∷ worker_loaded ∷ replied (suc k) ∷ forked (suc (suc k)) ∷ [] in
    let one : react_all (starting n k) (comes_up (suc k)) ≡ (starting n (suc k), news) =
      comes_up-starting n k
      ∙ ap (λ r. (r.0, replied (suc k) ∷ worker_loaded ∷ replied (suc k) ∷ r.1))
          (spawn-next n (suc k) (omega arith)) in
    react_all-append (starting n k) (comes_up (suc k)) js
    ∙ ap (λ r. ((react_all r.0 js).0, r.1 ++ (react_all r.0 js).1)) one
    ∙ ap (λ q. (q.0, news ++ q.1)) (come_up-all n (suc k) r (omega arith))

-- When the workers of a new pool of n + 1 come up one after the other, each one's process is forked
-- after the one before it has loaded its streams, and after the last the pool is at full strength:
-- the pool has the n + 1 workers, with the ids from 1 on, all of them up.
pub new_pool-full_strength :
    (n : ℕ)
    → react_all (new_pool (suc n)).0 (come_up 0 (suc n)) ≡ (up (suc n) (suc n), seen 0 (suc n))
unfolding new_pool
new_pool-full_strength n =
    ap (λ p. react_all p.0 (come_up 0 (suc n))) (spawn-next (suc n) 0 (omega arith))
    ∙ come_up-all (suc n) 0 n (omega arith)
