-- ===== src/Rewind/Store/Events.antt =====
-- The events of memory_store.js, from which the HLS segmenter follows the buffer.
use stream_machine.Prelude.{
  ◌++◌, List, Option, [], inl, inr, none, refl, some, suc, zero, ◌||◌, ℕ, ◌∷◌, ◌≡◌,
}
use stream_machine.Prelude.Tests.{◌==◌, Bool-cases, Option-cases, ltb}
use stream_machine.Rewind.Store.{
  Chunk, MemoryStore, StoreEvent, insert, place, place_between, push, shift, shift_over, truncate,
  truncate_to, unshift,
}
use stream_machine.Prelude.Lists.{last?, length}

-- The events lead from one buffer to the other: a push adds at the end, an unshift at the front,
-- and a shift takes away the chunk that it names, from the front.
abbrev pub Explains : List Chunk → List StoreEvent → List Chunk → Type 0
Explains bs [] cs = bs ≡ cs
Explains bs (push c ∷ es) cs = Explains (bs ++ c ∷ []) es cs
Explains bs (unshift c ∷ es) cs = Explains (c ∷ bs) es cs
Explains bs (shift c ∷ es) cs = (rest : List Chunk) × (bs ≡ c ∷ rest) × Explains rest es cs

Explains-append :
    (bs cs ds : List Chunk) (es fs : List StoreEvent)
    → Explains bs es cs
    → Explains cs fs ds
    → Explains bs (es ++ fs) ds
Explains-append bs cs ds [] fs p q = rw p q
Explains-append bs cs ds (push c ∷ es) fs p q = Explains-append (bs ++ c ∷ []) cs ds es fs p q
Explains-append bs cs ds (unshift c ∷ es) fs p q = Explains-append (c ∷ bs) cs ds es fs p q
Explains-append bs cs ds (shift c ∷ es) fs (rest, e, p) q =
    (rest, e, Explains-append rest cs ds es fs p q)

shift_over-Explains :
    (m : ℕ) (bs : List Chunk) → Explains bs (shift_over m bs).1 (shift_over m bs).0
unfolding shift_over
shift_over-Explains m [] = refl
shift_over-Explains m (b ∷ bs) = elim (Bool-cases (ltb m (length (b ∷ bs)))) [
  | inl over ↦ rw over (bs, refl, shift_over-Explains m bs)
  | inr fits ↦ rw fits
]

pub truncate-Explains : (s : MemoryStore) → Explains s.buffer (truncate s).1 (truncate s).0.buffer
unfolding truncate
truncate-Explains s = go s.max_length
  where
    go : (m : Option ℕ) → Explains s.buffer (truncate_to m s.buffer).1 (truncate_to m s.buffer).0
    go none = refl
    go (some zero) = refl
    go (some (suc m)) = shift_over-Explains (suc m) s.buffer

place-Explains :
    (s : MemoryStore) (bs : List Chunk) (c : Chunk)
    → s.buffer ≡ bs
    → Explains bs (place s bs c).1 (place s bs c).0.buffer
unfolding place
place-Explains s [] c e = refl
place-Explains s (fb ∷ rest) c e = elim (Option-cases (last? (fb ∷ rest))) [
  | inl empty ↦ rw (empty, place, e)
  | inr (lb, l) ↦ rw (l, place) (between lb)
]
  where
    between :
        (lb : Chunk)
        → Explains (fb ∷ rest) (place_between s fb lb c).1 (place_between s fb lb c).0.buffer
    between lb = elim (Bool-cases (lb.ts == 0 || ltb lb.ts c.ts)) [
      | inl newer ↦ rw (newer, e)
      | inr not_newer ↦ elim (Bool-cases (ltb c.ts fb.ts)) [
        | inl older ↦ rw (not_newer, older, e)
        | inr inside ↦ rw (not_newer, inside, e)
      ]
    ]

-- The events that an insert emits lead exactly from the old buffer to the new one, whichever
-- branch is taken: a listener that applies them in order holds the same buffer.
pub insert-Explains :
    (s : MemoryStore) (c : Chunk) → Explains s.buffer (insert s c).1 (insert s c).0.buffer
unfolding insert
insert-Explains s c =
    Explains-append s.buffer (place s s.buffer c).0.buffer _ (place s s.buffer c).1 _
      (place-Explains s s.buffer c refl) (truncate-Explains (place s s.buffer c).0)
