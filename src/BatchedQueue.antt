-- ===== src/BatchedQueue.antt =====
-- js/src/streammachine/util/batched_queue.js: objects are pushed on in batches, of a size or after a
-- time. The highWaterMark options are the stream library's.
pub mod Batches
pub mod Tests
use stream_machine.Prelude.Lists.{length}
use stream_machine.Prelude.Tests.{◌==◌, if◌then◌else◌, leb}
use stream_machine.Prelude.{◌+◌, ◌++◌, List, Option, [], none, some, ℕ, ◌∷◌}

pub record BatchedQueue {ℓ} (A : Type ℓ) : Type ℓ where
  pub size : ℕ
  pub latency : ℕ
  pub queue : List A
  pub timer : Option ℕ

-- An option of 0 is falsy.
or_default : Option ℕ → ℕ → ℕ
or_default none d = d
or_default (some n) d = if n == 0 then d else n

module _ {ℓ} {A : Type ℓ} where
  unfoldable pub new_queue : Option ℕ → Option ℕ → BatchedQueue A
  unfolding or_default
  new_queue batch latency = record {
    size = or_default batch 1000;
    latency = or_default latency 200;
    queue = [];
    timer = none;
  }

  -- `_writeQueue`, also for `_flush` and for the timer
  unfoldable pub write_queue : BatchedQueue A → BatchedQueue A × List (List A)
  write_queue b =
      (record b { queue = []; timer = none }, if length b.queue == 0 then [] else b.queue ∷ [])

  set_timer : ℕ → BatchedQueue A → BatchedQueue A
  set_timer now b = elim b.timer [
    | none ↦ record b { timer = some (now + b.latency) }
    | some due ↦ b
  ]

  -- `_transform`
  unfoldable pub transform : ℕ → BatchedQueue A → A → BatchedQueue A × List (List A)
  unfolding write_queue set_timer
  transform now b obj =
      let b' = record b { queue = b.queue ++ obj ∷ [] } in
      if leb b'.size (length b'.queue) then write_queue b' else (set_timer now b', [])

  -- The timer runs when its time has come.
  unfoldable pub on_time : ℕ → BatchedQueue A → BatchedQueue A × List (List A)
  unfolding write_queue
  on_time now b = elim b.timer [
    | none ↦ (b, [])
    | some due ↦ if leb due now then write_queue b else (b, [])
  ]

-- What happens to a queue, each at its time.
pub data Input {ℓ} (A : Type ℓ) : Type ℓ where
  object : ℕ → A → Input A
  clock : ℕ → Input A
  flush_all : Input A

module _ {ℓ} {A : Type ℓ} where
  unfoldable pub react : BatchedQueue A → Input A → BatchedQueue A × List (List A)
  unfolding transform on_time write_queue
  react b (object now a) = transform now b a
  react b (clock now) = on_time now b
  react b flush_all = write_queue b

  unfoldable pub react_all : BatchedQueue A → List (Input A) → BatchedQueue A × List (List A)
  unfolding react
  react_all b [] = (b, [])
  react_all b (i ∷ is) = let r = react b i in let rest = react_all r.0 is in (rest.0, r.1 ++ rest.1)
