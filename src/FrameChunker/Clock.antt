-- ===== src/FrameChunker/Clock.antt =====
-- The timestamps of the chunks follow their durations.
use native.Mathlib.Nat.{mod-add-div'}
use stream_machine.Prelude.Int.{ltb_ℤ, pos}
use stream_machine.FrameChunker.Drift.{durations_of, durations_of-append}
use stream_machine.FrameChunker.{
  FrameChunker, FrameObj, carry, emit_chunk, next_ts, transform, transform_all,
}
use stream_machine.Prelude.Tests.{Bool-cases, ltb}
use stream_machine.Prelude.{
  ◌*◌, ◌+◌, ◌++◌, List, String, [], arith, inl, inr, refl, some, suc, ℕ, ◌∷◌, ◌≡◌, ◌%◌,
}

carry-sum : (u rem d : ℕ) → (carry u rem d).0 * suc u + (carry u rem d).1 ≡ rem + d
unfolding carry
carry-sum u rem d =
    let r = rem + d % suc u in
    let whole = mod-add-div' d (suc u) in
    let over = mod-add-div' r (suc u) in
    elim (Bool-cases (ltb (suc u) r)) [
      | inl more ↦ rw more (grind (arith, whole, over))
      | inr less ↦ rw less (omega (arith, whole))
    ]

-- A chunk moves the clock on by exactly its duration: the last timestamp, in units, and the
-- remainder that is carried over.
emit_chunk-clock :
    (u : ℕ) (c : FrameChunker) (key : String) (t : ℕ)
    → c.last_ts ≡ some t
    → let r = emit_chunk u c key in
      (t' : ℕ) × (r.0.last_ts ≡ some t')
      × (t' * suc u + r.0.remainders ≡ t * suc u + c.remainders + durations_of r.1)
unfolding emit_chunk next_ts
emit_chunk-clock u c key t e =
    let (dur, rem) = carry u c.remainders c.queue_duration in
    let sum = carry-sum u c.remainders c.queue_duration in (t + dur, rw e refl, grind (arith, sum))

transform-clock :
    (u : ℕ) (c : FrameChunker) (o : FrameObj) (t : ℕ)
    → c.last_ts ≡ some t
    → let r = transform u c o in
      (t' : ℕ) × (r.0.last_ts ≡ some t')
      × (t' * suc u + r.0.remainders ≡ t * suc u + c.remainders + durations_of r.1)
unfolding transform
transform-clock u c o t e =
    let c' = record c {
      chunk_queue = c.chunk_queue ++ o ∷ [];
      queue_duration = c.queue_duration + o.duration;
    } in
    elim (Bool-cases (ltb_ℤ c.target (pos (c.queue_duration + o.duration)))) [
      | inl full ↦ rw full (emit_chunk-clock u c' o.stream_key t e)
      | inr waits ↦ rw waits (t, e, omega arith)
    ]

-- Once a first chunk has its timestamp, every further chunk's timestamp moves on by its
-- duration: the last timestamp, in units, and the remainder grow together by exactly the
-- durations of the chunks, and no rounding adds up.
pub transform_all-clock :
    (u : ℕ) (os : List FrameObj) (c : FrameChunker) (t : ℕ)
    → c.last_ts ≡ some t
    → let r = transform_all u c os in
      (t' : ℕ) × (r.0.last_ts ≡ some t')
      × (t' * suc u + r.0.remainders ≡ t * suc u + c.remainders + durations_of r.1)
unfolding transform_all
transform_all-clock u [] c t e = (t, e, omega arith)
transform_all-clock u (o ∷ os) c t e =
    let r = transform u c o in
    let rest = transform_all u r.0 os in
    let (t', e', step) = transform-clock u c o t e in
    let (t'', e'', steps) = transform_all-clock u os r.0 t' e' in
    (t'', e'', omega (arith, step, steps, durations_of-append r.1 rest.1))
