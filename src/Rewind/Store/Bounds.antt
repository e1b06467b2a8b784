-- ===== src/Rewind/Store/Bounds.antt =====
-- memory_store.js holds the newest chunks, as many as its maximum allows.
use stream_machine.Prelude.{
  ◌++◌, ◌-◌, ◌<◌, List, [], ap, arith, inl, inr, refl, some, suc, ℕ, ◌∙◌, ◌∷◌, ◌≡◌, ◌≤◌, subst, sym,
  ◌+◌, Option, none, zero,
}
use stream_machine.Prelude.Tests.{Bool-cases, if◌then◌else◌, ltb, ltb→lt}
use stream_machine.Rewind.Store.{
  Chunk, MemoryStore, insert, place, shift_over, truncate, truncate_to, set_max,
}
use stream_machine.Prelude.Lists.{drop, last?, length, length-drop, length-append}

-- What is left when the oldest go.
abbrev pub keep_last : ℕ → List Chunk → List Chunk
keep_last m cs = drop (length cs - m) cs

-- Where the chunk belongs in a buffer that begins with `fb` and ends with `lb`; a chunk between
-- the two is not stored.
abbrev pub placed : Chunk → Chunk → List Chunk → Chunk → List Chunk
placed fb lb cs c = if ltb lb.ts c.ts then cs ++ c ∷ [] else if ltb c.ts fb.ts then c ∷ cs else cs

shift_over-keep_last : (m : ℕ) (bs : List Chunk) → (shift_over m bs).0 ≡ keep_last m bs
unfolding shift_over
shift_over-keep_last m [] = ground arith
shift_over-keep_last m (b ∷ bs) = elim (Bool-cases (ltb m (length (b ∷ bs)))) [
  | inl over ↦
      let e : length (b ∷ bs) - m ≡ suc (length bs - m) =
        omega (arith, ltb→lt m (suc (length bs)) over) in
      rw (over, e) (shift_over-keep_last m bs)
  | inr fits ↦ let e : length (b ∷ bs) - m ≡ 0 = ground arith in rw (fits, e)
]

pub truncate-keep_last :
    (s : MemoryStore) (m : ℕ)
    → s.max_length ≡ some (suc m)
    → (truncate s).0.buffer ≡ keep_last (suc m) s.buffer
unfolding truncate
truncate-keep_last s m e = rw (e, truncate_to) (shift_over-keep_last (suc m) s.buffer)

place-placed :
    (s : MemoryStore) (fb lb c : Chunk) (rest : List Chunk)
    → s.buffer ≡ fb ∷ rest
    → last? (fb ∷ rest) ≡ some lb
    → 0 < lb.ts
    → (place s (fb ∷ rest) c).0.buffer ≡ placed fb lb (fb ∷ rest) c
unfolding place
place-placed s fb lb c rest e l p = rw (l, place) (ground arith)

max_length-place :
    (s : MemoryStore) (bs : List Chunk) (c : Chunk) → (place s bs c).0.max_length ≡ s.max_length
unfolding place
max_length-place s [] c = refl
max_length-place s (fb ∷ rest) c = ground arith

pub max_length-insert : (s : MemoryStore) (c : Chunk) → (insert s c).0.max_length ≡ s.max_length
unfolding insert truncate
max_length-insert s c = max_length-place s s.buffer c

-- With a maximum of m + 1 and timestamps that are not 0, inserting into a buffer that is not
-- empty puts a newer chunk at the end and an older one at the front, drops any other, and then
-- keeps the last m + 1 chunks.
pub insert-keep_last :
    (s : MemoryStore) (m : ℕ) (fb lb c : Chunk) (rest : List Chunk)
    → s.max_length ≡ some (suc m)
    → s.buffer ≡ fb ∷ rest
    → last? (fb ∷ rest) ≡ some lb
    → 0 < lb.ts
    → (insert s c).0.buffer ≡ keep_last (suc m) (placed fb lb (fb ∷ rest) c)
unfolding insert
insert-keep_last s m fb lb c rest me e l p =
    truncate-keep_last (place s s.buffer c).0 m (max_length-place s s.buffer c ∙ me)
    ∙ ap (keep_last (suc m)) (
        subst (λ bs. (place s bs c).0.buffer ≡ placed fb lb (fb ∷ rest) c) (sym e)
          (place-placed s fb lb c rest e l p))

truncate_to-empty : (m : Option ℕ) → (truncate_to m []).0 ≡ []
unfolding truncate_to shift_over
truncate_to-empty none = refl
truncate_to-empty (some zero) = refl
truncate_to-empty (some (suc m)) = refl

pub set_max-empty :
    (s : MemoryStore) (m : Option ℕ)
    → s.buffer ≡ []
    → ((set_max s m).0.buffer ≡ []) × ((set_max s m).0.max_length ≡ m)
unfolding set_max truncate
set_max-empty s m e = (ap (λ bs. (truncate_to m bs).0) e ∙ truncate_to-empty m, refl)

pub insert-empty :
    (s : MemoryStore) (m : ℕ) (c : Chunk)
    → s.max_length ≡ some (suc m)
    → s.buffer ≡ []
    → (insert s c).0.buffer ≡ c ∷ []
unfolding insert place
insert-empty s m c me e =
    let fits : 1 - suc m ≡ 0 = omega arith in
    truncate-keep_last (place s s.buffer c).0 m (max_length-place s s.buffer c ∙ me)
    ∙ ap (keep_last (suc m)) (subst (λ bs. (place s bs c).0.buffer ≡ c ∷ []) (sym e) refl)
    ∙ rw fits refl

-- Whatever was stored, an insert leaves no more than a maximum of m + 1 chunks.
pub length-insert :
    (s : MemoryStore) (m : ℕ) (c : Chunk)
    → s.max_length ≡ some (suc m)
    → length (insert s c).0.buffer ≤ suc m
unfolding insert
length-insert s m c me =
    rw (truncate-keep_last (place s s.buffer c).0 m (max_length-place s s.buffer c ∙ me))
      (omega (arith, length-drop (length placed_buffer - suc m) placed_buffer))
  where
    placed_buffer : List Chunk
    placed_buffer = (place s s.buffer c).0.buffer

-- A store that holds as many chunks as its maximum.
abbrev pub full_store : List Chunk → MemoryStore
full_store bs = record { max_length = some (length bs); buffer = bs }

shift_over-fits : (bs : List Chunk) → shift_over (length bs) bs ≡ (bs, [])
unfolding shift_over
shift_over-fits [] = refl
shift_over-fits (b ∷ bs) = ground arith

-- A full store stays as long as it is when a newer chunk comes.
pub length-insert_full :
    (fb lb c : Chunk) (rest : List Chunk)
    → last? (fb ∷ rest) ≡ some lb
    → 0 < lb.ts
    → lb.ts < c.ts
    → length (insert (full_store (fb ∷ rest)) c).0.buffer ≡ length (fb ∷ rest)
length-insert_full fb lb c rest l p newer =
    let cs = (fb ∷ rest) ++ c ∷ [] in
    let appended : placed fb lb (fb ∷ rest) c ≡ cs = ground arith in
    let kept = insert-keep_last (full_store (fb ∷ rest)) (length rest) fb lb c rest refl refl l p in
    let total : length cs ≡ length (fb ∷ rest) + 1 = length-append (fb ∷ rest) (c ∷ []) in
    ap length (kept ∙ ap (keep_last (suc (length rest))) appended)
    ∙ length-drop (length cs - suc (length rest)) cs
    ∙ omega arith
