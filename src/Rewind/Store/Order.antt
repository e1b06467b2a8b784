-- ===== src/Rewind/Store/Order.antt =====
-- The buffer of memory_store.js stays in order and within its maximum.
use stream_machine.Prelude.{
  ◌++◌, ◌<◌, List, Option, [], arith, inl, inr, none, refl, some, suc, zero, ℕ, ◌∷◌, ◌≡◌, ◌≤◌, ◌||◌,
  ◌∙◌, true,
}
use stream_machine.Prelude.Tests.{Bool-cases, ltb, ◌==◌, Option-cases, ltb→lt}
use stream_machine.Rewind.Store.{
  Chunk, MemoryStore, truncate, insert, place, place_between, shift_over, truncate_to,
}
use stream_machine.Prelude.Lists.{last?, length}

-- Every timestamp is later than the one before it.
abbrev pub IsSorted : List Chunk → Type 0
IsSorted [] = Unit {0}
IsSorted (c ∷ []) = Unit {0}
IsSorted (c ∷ d ∷ cs) = (c.ts < d.ts) × IsSorted (d ∷ cs)

pub last?-append {ℓ} : {A : Type ℓ} (xs : List A) (x : A) → last? (xs ++ x ∷ []) ≡ some x
last?-append [] x = refl
last?-append (y ∷ []) x = refl
last?-append (y ∷ z ∷ zs) x = last?-append (z ∷ zs) x

append-IsSorted :
    (xs : List Chunk) (lb c : Chunk)
    → last? xs ≡ some lb
    → lb.ts < c.ts
    → IsSorted xs
    → IsSorted (xs ++ c ∷ [])
append-IsSorted [] lb c e h s = tt
append-IsSorted (x ∷ []) lb c e h s = (ground arith, tt)
append-IsSorted (x ∷ y ∷ ys) lb c e h s = (s.0, append-IsSorted (y ∷ ys) lb c e h s.1)

pub tail-IsSorted : (c : Chunk) (cs : List Chunk) → IsSorted (c ∷ cs) → IsSorted cs
tail-IsSorted c [] s = tt
tail-IsSorted c (d ∷ ds) s = s.1

-- The last timestamp is the largest.
pub head-le-last :
    (x : Chunk) (xs : List Chunk) (lb : Chunk)
    → IsSorted (x ∷ xs)
    → last? (x ∷ xs) ≡ some lb
    → x.ts ≤ lb.ts
head-le-last x [] lb s e = ground arith
head-le-last x (y ∷ ys) lb s e = omega (arith, head-le-last y ys lb s.1 e)

shift_over-IsSorted : (m : ℕ) (bs : List Chunk) → IsSorted bs → IsSorted (shift_over m bs).0
unfolding shift_over
shift_over-IsSorted m [] s = tt
shift_over-IsSorted m (b ∷ bs) s = elim (Bool-cases (ltb m (length (b ∷ bs)))) [
  | inl over ↦ rw over (shift_over-IsSorted m bs (tail-IsSorted b bs s))
  | inr fits ↦ rw fits s
]

pub truncate-IsSorted : (s : MemoryStore) → IsSorted s.buffer → IsSorted (truncate s).0.buffer
unfolding truncate
truncate-IsSorted s h = go s.max_length
  where
    go : (m : Option ℕ) → IsSorted (truncate_to m s.buffer).0
    go none = h
    go (some zero) = h
    go (some (suc m)) = shift_over-IsSorted (suc m) s.buffer h

unshift-IsSorted :
    (fb c : Chunk) (rest : List Chunk)
    → c.ts < fb.ts
    → IsSorted (fb ∷ rest)
    → IsSorted (c ∷ fb ∷ rest)
unshift-IsSorted fb c rest h s = (h, s)

place_between-IsSorted :
    (s : MemoryStore) (fb lb c : Chunk) (rest : List Chunk)
    → 0 < c.ts
    → s.buffer ≡ fb ∷ rest
    → last? (fb ∷ rest) ≡ some lb
    → IsSorted (fb ∷ rest)
    → IsSorted (place_between s fb lb c).0.buffer
unfolding place_between
place_between-IsSorted s fb lb c rest p e l h = elim (Bool-cases (lb.ts == 0 || ltb lb.ts c.ts)) [
  | inl newer ↦ rw (newer, e) (append-IsSorted (fb ∷ rest) lb c l (ground arith) h)
  | inr not_newer ↦ elim (Bool-cases (ltb c.ts fb.ts)) [
    | inl older ↦ rw (not_newer, older, e) (ltb→lt c.ts fb.ts older, h)
    | inr inside ↦ rw (not_newer, inside, e) h
  ]
]

place-IsSorted :
    (s : MemoryStore) (bs : List Chunk) (c : Chunk)
    → 0 < c.ts
    → s.buffer ≡ bs
    → IsSorted bs
    → IsSorted (place s bs c).0.buffer
unfolding place
place-IsSorted s [] c p e h = tt
place-IsSorted s (fb ∷ rest) c p e h = elim (Option-cases (last? (fb ∷ rest))) [
  | inl empty ↦ rw (empty, place, e) h
  | inr (lb, l) ↦ rw (l, place) (place_between-IsSorted s fb lb c rest p e l h)
]

-- Inserting a chunk whose timestamp is not 0 keeps the buffer in strictly increasing order of
-- timestamps, wherever the chunk falls and whatever is shifted out.
pub insert-IsSorted :
    (s : MemoryStore) (c : Chunk) → 0 < c.ts → IsSorted s.buffer → IsSorted (insert s c).0.buffer
unfolding insert
insert-IsSorted s c p h =
    truncate-IsSorted (place s s.buffer c).0 (place-IsSorted s s.buffer c p refl h)

last?-shift_over : (m : ℕ) (bs : List Chunk) → last? (shift_over (suc m) bs).0 ≡ last? bs
unfolding shift_over
last?-shift_over m [] = refl
last?-shift_over m (b ∷ []) = ground arith
last?-shift_over m (b ∷ d ∷ ds) = elim (Bool-cases (ltb (suc m) (length (b ∷ d ∷ ds)))) [
  | inl over ↦ rw over (last?-shift_over m (d ∷ ds))
  | inr fits ↦ rw fits
]

last?-truncate : (s : MemoryStore) → last? (truncate s).0.buffer ≡ last? s.buffer
unfolding truncate
last?-truncate s = go s.max_length
  where
    go : (m : Option ℕ) → last? (truncate_to m s.buffer).0 ≡ last? s.buffer
    go none = refl
    go (some zero) = refl
    go (some (suc m)) = last?-shift_over m s.buffer

-- A chunk newer than all stored ones is the newest after its insertion.
pub last?-insert :
    (s : MemoryStore) (lb c : Chunk)
    → last? s.buffer ≡ some lb
    → lb.ts < c.ts
    → last? (insert s c).0.buffer ≡ some c
unfolding insert place
last?-insert s lb c l h = last?-truncate (place s s.buffer c).0 ∙ go s.buffer refl l
  where
    go :
        (bs : List Chunk)
        → s.buffer ≡ bs
        → last? bs ≡ some lb
        → last? (place s bs c).0.buffer ≡ some c
    go [] e l' = absurd (ground arith)
    go (fb ∷ rest) e l' =
        let newer : (lb.ts == 0 || ltb lb.ts c.ts) ≡ true = ground arith in
        let placed : (place s (fb ∷ rest) c).0.buffer ≡ s.buffer ++ c ∷ [] =
          rw (l', place) (unfold place_between in rw newer) in
        rw placed (last?-append s.buffer c)
