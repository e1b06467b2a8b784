-- ===== src/Rewind/Store/Seek/Reading.antt =====
-- `at` and `range` of memory_store.js by a number of chunks.
use stream_machine.Prelude.{
  ◌+◌, ◌++◌, ◌-◌, ◌<◌, List, [], ap, arith, min, none, refl, reverse, some, suc, sym, zero, ℕ, ◌∙◌,
  ◌∷◌, ◌≡◌,
}
use stream_machine.Rewind.Store.{Chunk, MemoryStore}
use stream_machine.Rewind.Store.Seek.{at, number, ok, range, clamp_offset}
use native.Mathlib.Decide.{dec_lt}
use stream_machine.Prelude.Lists.{
  drop, get_elem?, length, length-append, take, slice, slice_within, get_elem?-some, last?,
}
use stream_machine.Prelude.Int.{negsuc, pos, ℤ, ◌+ℤ◌, ◌-ℤ◌, ltb_ℤ, sub_ℕ}
use mathlib.Core.List.{reverse-cons}
use native.Mathlib.Nat.{zero-add}
use mathlib.Core.Path.{ap₂}
use stream_machine.Prelude.Tests.{if◌then◌else◌}

module _ {ℓ} {A : Type ℓ} where
  get_elem?-append_left :
      (xs ys : List A) (i : ℕ) → i < length xs → get_elem? (xs ++ ys) i ≡ get_elem? xs i
  get_elem?-append_left [] ys i h = elim h [ ]
  get_elem?-append_left (x ∷ xs) ys zero h = refl
  get_elem?-append_left (x ∷ xs) ys (suc i) h = get_elem?-append_left xs ys i (omega arith)

  get_elem?-append_right :
      (xs ys : List A) (i : ℕ) → get_elem? (xs ++ ys) (length xs + i) ≡ get_elem? ys i
  get_elem?-append_right [] ys i = rw zero-add
  get_elem?-append_right (x ∷ xs) ys i =
      let e : suc (length xs) + i ≡ suc (length xs + i) = omega arith in
      rw e (get_elem?-append_right xs ys i)

  length-reverse : (xs : List A) → length (reverse xs) ≡ length xs
  length-reverse [] = refl
  length-reverse (x ∷ xs) =
      omega (
        arith,
        ap length (reverse-cons x xs),
        length-append (reverse xs) (x ∷ []),
        length-reverse xs,
      )

  -- Counting from the end is counting in the reversed list.
  pub get_elem?-reverse :
      (xs : List A) (k : ℕ)
      → k < length xs
      → get_elem? (reverse xs) k ≡ get_elem? xs (length xs - 1 - k)
  get_elem?-reverse [] k h = elim h [ ]
  get_elem?-reverse (x ∷ xs) k h = rw (reverse-cons x xs) (elim (dec_lt k (length xs)) [
    | yes p ↦
        let e : suc (length xs) - 1 - k ≡ suc (length xs - 1 - k) = omega arith in
        rw e (
          get_elem?-append_left (reverse xs) (x ∷ []) k (omega (arith, length-reverse xs))
          ∙ get_elem?-reverse xs k p)
    | no p ↦
        let e : suc (length xs) - 1 - k ≡ 0 = omega arith in
        let e' : k ≡ length (reverse xs) + 0 = omega (arith, length-reverse xs) in
        rw e (
          ap (get_elem? (reverse xs ++ x ∷ [])) e' ∙ get_elem?-append_right (reverse xs) (x ∷ []) 0)
  ])

  last?-get_elem? : (x : A) (xs : List A) → get_elem? (x ∷ xs) (length xs) ≡ last? (x ∷ xs)
  last?-get_elem? x [] = refl
  last?-get_elem? x (y ∷ ys) = last?-get_elem? y ys

module _ (bs : List Chunk → ℕ → ℤ) (s : MemoryStore) where
  at_number :
      (k : ℕ)
      → k < length s.buffer
      → at bs s (number (pos k)) ≡ ok (get_elem? s.buffer (length s.buffer - 1 - k))
  unfolding at
  at_number k h = ground arith

  -- `at` with a whole number below the length gives the chunk so many places from the newest.
  pub at-reverse :
      (k : ℕ) → k < length s.buffer → at bs s (number (pos k)) ≡ ok (get_elem? (reverse s.buffer) k)
  at-reverse k h = at_number k h ∙ ap ok (sym (get_elem?-reverse s.buffer k h))

  -- An offset below zero gives the newest chunk, and one above the length the oldest; but an
  -- offset that equals the length gives `undefined`, though the buffer has chunks.
  pub at_outside :
      (fb : Chunk) (rest : List Chunk)
      → s.buffer ≡ fb ∷ rest
      → ((k : ℕ) → at bs s (number (negsuc k)) ≡ at bs s (number (pos 0)))
        × ((k : ℕ) → length s.buffer < k → at bs s (number (pos k)) ≡ ok (some fb))
        × (at bs s (number (pos (length s.buffer))) ≡ ok none)
  unfolding at
  at_outside fb rest e = (λ k. ground arith, λ k h. ground arith, ground arith)

  -- `range` from offset k takes at most k chunks, so that it never reaches the newest.
  pub range-take :
      (k n : ℕ)
      → k < length s.buffer
      → range bs s (number (pos k)) (pos n)
        ≡ ok (take (min n k) (drop (length s.buffer - 1 - k) s.buffer))
  unfolding range
  range-take k n h =
      let size = length s.buffer in
      let clamped : clamp_offset size (pos k) ≡ pos k = ground arith in
      let start : sub_ℕ size 1 -ℤ pos k ≡ pos (size - 1 - k) = ground arith in
      let stop : (sub_ℕ size 1 -ℤ pos k) +ℤ (if ltb_ℤ (pos k) (pos n) then pos k else pos n)
          ≡ pos (size - 1 - k + min n k) =
        ground arith in
      let count : size - 1 - k + min n k - (size - 1 - k) ≡ min n k = omega arith in
      rw clamped (
        ap₂ (λ i j. ok (slice s.buffer i j)) start stop
        ∙ ap ok (slice_within s.buffer _ _ (omega arith) (omega arith))
        ∙ ap (λ m. ok (take m (drop (size - 1 - k) s.buffer))) count)

  pub at_within :
      (k : ℕ) → k < length s.buffer → (c : Chunk) × (at bs s (number (pos k)) ≡ ok (some c))
  at_within k h =
      let (c, found) = get_elem?-some s.buffer (length s.buffer - 1 - k) (omega arith) in
      (c, at_number k h ∙ ap ok found)

  -- Offset 0 is the newest chunk.
  pub at_newest : (lb : Chunk) → last? s.buffer ≡ some lb → at bs s (number (pos 0)) ≡ ok (some lb)
  at_newest lb l = go s.buffer refl l
    where
      go :
          (buf : List Chunk)
          → s.buffer ≡ buf
          → last? buf ≡ some lb
          → at bs s (number (pos 0)) ≡ ok (some lb)
      go [] e l' = cc
      go (x ∷ xs) e l' =
          let newest : get_elem? s.buffer (length s.buffer - 1 - 0) ≡ some lb =
            let i : suc (length xs) - 1 - 0 ≡ length xs = omega arith in
            rw (e, i) (last?-get_elem? x xs ∙ l') in
          at_number 0 (rw e (omega arith)) ∙ ap ok newest
