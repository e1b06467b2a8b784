-- ===== src/Rewind/Buffer/Offsets.antt =====
-- The offsets that rewind_buffer.js grants, and what the store has at them.
use stream_machine.Rewind.Store.Seek.{at, number, ok}
use stream_machine.Prelude.{
  ◌*◌, ◌+◌, ◌/◌, ◌<◌, List, arith, none, refl, some, suc, ℕ, ◌∷◌, ◌≡◌, ◌≢◌, ◌≤◌, ◌-◌, ap,
}
use stream_machine.Rewind.Store.{Chunk}
use stream_machine.Rewind.Buffer.{
  RewindBuffer, check_offset, millis, secs_to_offset, check_offset_of,
}
use stream_machine.Prelude.Lists.{length}
use stream_machine.Prelude.Int.{negsuc, pos, ℤ}
use stream_machine.Rewind.Store.Seek.Reading.{at_outside, at_within}
use native.Mathlib.Decide.{dec_lt, ℕ_discrete}

-- An offset in chunks is the number of seconds, to the nearest chunk and halves upwards.
pub secs_to_offset_nearest :
    (d secs : ℕ)
    → (o : ℕ) × (secs_to_offset (millis d) (pos secs) ≡ pos o)
      × (2 * (o * suc d) ≤ 2 * secs + suc d)
      × (2 * secs + suc d < 2 * (o * suc d) + 2 * suc d)
unfolding secs_to_offset
secs_to_offset_nearest d secs = ((2 * secs + suc d) / (2 * suc d), refl, grind arith, grind arith)

module _ (bs : List Chunk → ℕ → ℤ) (r : RewindBuffer) (fb : Chunk) (rest : List Chunk)
    (e : r.store.buffer ≡ fb ∷ rest) where
  -- On a buffer with chunks every offset but one is answered by an offset at which the store has
  -- a chunk. The one is the buffer's length, which is granted and has none.
  pub at-check_offset :
      (o : ℤ)
      → (o ≡ pos (length r.store.buffer) → at bs r.store (number (check_offset r o)) ≡ ok none)
        × (o ≢ pos (length r.store.buffer)
            → (c : Chunk) × (at bs r.store (number (check_offset r o)) ≡ ok (some c)))
  unfolding check_offset
  at-check_offset (negsuc o) =
      (λ same. absurd (ground arith), λ other. at_within bs r.store 0 (rw e (omega arith)))
  at-check_offset (pos o) = elim (dec_lt o size) [
    | yes below ↦
        let granted : check_offset_of size (pos o) ≡ pos o = ground arith in
        (λ same. absurd (ground arith), λ other. rw granted (at_within bs r.store o below))
    | no above ↦ elim (ℕ_discrete o size) [
      | yes equal ↦
          let granted : check_offset_of size (pos o) ≡ pos size = ground arith in
          (
            λ same. rw granted (at_outside bs r.store fb rest e).2,
            λ other. absurd (other (ap pos equal)),
          )
      | no over ↦
          let granted : check_offset_of size (pos o) ≡ pos (size - 1) = ground arith in
          (
            λ same. absurd (ground arith),
            λ other. rw granted (at_within bs r.store (size - 1) (ground arith)),
          )
    ]
  ]
    where
      size : ℕ
      size = length r.store.buffer
