-- ===== src/Rewind/Store/Seek/Timestamps.antt =====
-- `at` of memory_store.js by a Date.
use stream_machine.Prelude.{
  ◌+◌, ◌-◌, ◌<◌, List, [], arith, refl, some, suc, zero, ℕ, ◌∷◌, ◌≡◌, ◌≤◌, ap, sym, ◌∙◌, none,
}
use stream_machine.Rewind.Store.{Chunk, MemoryStore}
use stream_machine.Rewind.Store.Order.{IsSorted}
use stream_machine.Prelude.Lists.{get_elem?, length, get_elem?-some, get_elem?-none}
use stream_machine.Rewind.Store.Seek.{nearer, ok, seek, at, date, type_error}
use stream_machine.Prelude.Int.{negsuc, pos, ℤ, ◌-ℤ◌, sub_ℕ}
use native.Mathlib.Decide.{dec_lt, ℕ_discrete}
use stream_machine.Prelude.Tests.{some_eq}

-- What the package binary-search says of its result on a sorted array: an index at which the
-- timestamp stands, or -1 less the place where it would be inserted.
abbrev pub Finds : List Chunk → ℕ → ℤ → Type 0
Finds buf ts (pos i) = (c : Chunk) × (get_elem? buf i ≡ some c) × (c.ts ≡ ts)
Finds buf ts (negsuc p) =
    (p ≤ length buf)
    × ((i : ℕ) (c : Chunk) → i < p → get_elem? buf i ≡ some c → c.ts < ts)
    × ((i : ℕ) (c : Chunk) → p ≤ i → get_elem? buf i ≡ some c → ts < c.ts)

abbrev pub IsSearch : (List Chunk → ℕ → ℤ) → Type 0
IsSearch bs = (buf : List Chunk) (ts : ℕ) → IsSorted buf → Finds buf ts (bs buf ts)

-- Later in a sorted buffer is later in time.
pub get_elem?-IsSorted :
    (buf : List Chunk) (i j : ℕ) (c d : Chunk)
    → IsSorted buf
    → i < j
    → get_elem? buf i ≡ some c
    → get_elem? buf j ≡ some d
    → c.ts < d.ts
get_elem?-IsSorted [] i j c d s h e f = cc
get_elem?-IsSorted (x ∷ []) i (suc j) c d s h e f = cc
get_elem?-IsSorted (x ∷ []) i zero c d s h e f = absurd (omega arith)
get_elem?-IsSorted (x ∷ y ∷ ys) i zero c d s h e f = absurd (omega arith)
get_elem?-IsSorted (x ∷ y ∷ ys) (suc i) (suc j) c d s h e f =
    get_elem?-IsSorted (y ∷ ys) i j c d s.1 (omega arith) e f
get_elem?-IsSorted (x ∷ y ∷ ys) zero (suc zero) c d s h e f = ground arith
get_elem?-IsSorted (x ∷ y ∷ ys) zero (suc (suc j)) c d s h e f =
    let later = get_elem?-IsSorted (y ∷ ys) zero (suc j) y d s.1 (omega arith) refl f in
    ground arith

length-get_elem? :
    (buf : List Chunk) (i : ℕ) (c : Chunk) → get_elem? buf i ≡ some c → i < length buf
length-get_elem? [] i c e = cc
length-get_elem? (x ∷ xs) zero c e = omega arith
length-get_elem? (x ∷ xs) (suc i) c e = omega (arith, length-get_elem? xs i c e)

module _ (buf : List Chunk) (sorted : IsSorted buf) (ts i : ℕ) (a : Chunk)
    (here : get_elem? buf i ≡ some a) (from : a.ts ≤ ts)
    (next : (d : Chunk) → get_elem? buf (suc i) ≡ some d → ts < d.ts) where
  -- The timestamp found is that of the last chunk that does not start after it.
  found_index : (j : ℕ) (c : Chunk) → get_elem? buf j ≡ some c → c.ts ≡ ts → j ≡ i
  found_index j c f same = elim (dec_lt j i) [
    | yes before ↦
        absurd (omega (arith, get_elem?-IsSorted buf j i c a sorted before f here, from, same))
    | no not_before ↦ elim (dec_lt i j) [
      | no not_after ↦ omega arith
      | yes after ↦
          let (d, g) = get_elem?-some buf (suc i) (omega (arith, length-get_elem? buf j c f)) in
          let later = next d g in
          elim (ℕ_discrete (suc i) j) [
            | yes e ↦
                let same_chunk : d ≡ c = some_eq (sym g ∙ ap (get_elem? buf) e ∙ f) in
                absurd (omega (arith, later, same, ap (λ (k : Chunk). k.ts) same_chunk))
            | no far ↦ absurd (
                omega (
                  arith,
                  get_elem?-IsSorted buf (suc i) j d c sorted (omega arith) g f,
                  later,
                  same,
                ))
          ]
    ]
  ]

  -- A timestamp that is not found would be inserted behind that chunk.
  missing_index : (p : ℕ) → Finds buf ts (negsuc p) → p ≡ suc i
  missing_index p (within, below, above) = elim (dec_lt i p) [
    | no before ↦ absurd (omega (arith, above i a (omega arith) here, from))
    | yes behind ↦ elim (dec_lt (suc i) p) [
      | no close ↦ omega arith
      | yes far ↦
          let (d, g) = get_elem?-some buf (suc i) (omega arith) in
          absurd (omega (arith, below (suc i) d far g, next d g))
    ]
  ]

  seek-covered :
      (r : ℤ)
      → Finds buf ts r
      → ts < a.ts + a.duration
      → seek buf ts r ≡ ok (pos (length buf - suc i))
  unfolding seek
  seek-covered (pos j) (c, f, same) till =
      let e = found_index j c f same in
      let h = length-get_elem? buf i a here in ground (arith, e, h)
  seek-covered (negsuc zero) found till = absurd (omega (arith, missing_index zero found))
  seek-covered (negsuc (suc p)) found till =
      let e : p ≡ i = omega (arith, missing_index (suc p) found) in
      let h = length-get_elem? buf i a here in
      let here' : get_elem? buf p ≡ some a = ap (get_elem? buf) e ∙ here in
      rw (here', seek) (unfold nearer in ground (arith, e, h))

seek-after_end :
    (buf : List Chunk)
    → IsSorted buf
    → (ts i : ℕ) (lb : Chunk) → length buf ≡ suc i
    → get_elem? buf i ≡ some lb
    → lb.ts < ts
    → lb.ts + lb.duration ≤ ts
    → (r : ℤ) → Finds buf ts r
    → seek buf ts r ≡ type_error
unfolding seek
seek-after_end buf sorted ts i lb size here from over r found = go r found
  where
    next : (d : Chunk) → get_elem? buf (suc i) ≡ some d → ts < d.ts
    next d g = absurd (omega (arith, length-get_elem? buf (suc i) d g))

    go : (r : ℤ) → Finds buf ts r → seek buf ts r ≡ type_error
    go (pos j) (c, f, same) =
        let e = found_index buf sorted ts i lb here (omega arith) next j c f same in
        let same_chunk : c ≡ lb = some_eq (sym f ∙ ap (get_elem? buf) e ∙ here) in
        absurd (omega (arith, same, ap (λ (k : Chunk). k.ts) same_chunk))
    go (negsuc zero) found =
        absurd (omega (arith, missing_index buf sorted ts i lb here (omega arith) next zero found))
    go (negsuc (suc p)) found =
        let m = missing_index buf sorted ts i lb here (omega arith) next (suc p) found in
        let e : p ≡ i = omega (arith, m) in
        let here' : get_elem? buf p ≡ some lb = ap (get_elem? buf) e ∙ here in
        let gone : get_elem? buf (suc p) ≡ none = get_elem?-none buf (suc p) (omega arith) in
        rw (here', seek, gone) (unfold nearer in ground arith)

-- The place, from the end of n chunks, that has i chunks before it.
index_back : (n i : ℕ) → i < n → sub_ℕ n 1 -ℤ pos (n - suc i) ≡ pos i
index_back n i h = ground arith

module _ (bs : List Chunk → ℕ → ℤ) (search_lem : IsSearch bs) (s : MemoryStore)
    (sorted : IsSorted s.buffer) where
  -- In a sorted store, a Date within a stored chunk, from its timestamp up to its end and before
  -- the next chunk, gives that chunk.
  pub at-covered :
      (ts i : ℕ) (a : Chunk)
      → get_elem? s.buffer i ≡ some a
      → a.ts ≤ ts
      → ts < a.ts + a.duration
      → ((d : Chunk) → get_elem? s.buffer (suc i) ≡ some d → ts < d.ts)
      → at bs s (date ts) ≡ ok (some a)
  unfolding at
  at-covered ts i a here from till next =
      let found =
        seek-covered s.buffer sorted ts i a here from next (bs s.buffer ts)
          (search_lem s.buffer ts sorted) till in
      let h = length-get_elem? s.buffer i a here in
      let index = index_back (length s.buffer) i h in rw (found, index) (ap ok here)

  -- In a sorted store, a Date at or after the end of the newest chunk, and after its start, makes
  -- `at` throw a TypeError: the chunk after the newest is read, and there is none.
  pub at-after_end :
      (ts i : ℕ) (lb : Chunk)
      → length s.buffer ≡ suc i
      → get_elem? s.buffer i ≡ some lb
      → lb.ts < ts
      → lb.ts + lb.duration ≤ ts
      → at bs s (date ts) ≡ type_error
  unfolding at
  at-after_end ts i lb size here from over = rw (
      seek-after_end s.buffer sorted ts i lb size here from over (bs s.buffer ts)
        (search_lem s.buffer ts sorted))
