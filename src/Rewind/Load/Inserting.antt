-- ===== src/Rewind/Load/Inserting.antt =====
-- Inserting the chunks of a sorted buffer into memory_store.js, the newest first.
use stream_machine.Rewind.Store.{insert}
use stream_machine.Rewind.Store.Order.{IsSorted}
use mathlib.Core.List.{reverse-cons}
use stream_machine.Rewind.Store.Bounds.{
  placed, insert-keep_last, keep_last, max_length-insert, insert-empty,
}
use stream_machine.Rewind.Store.Order.{head-le-last}
use stream_machine.Prelude.Lists.{drop, last?, last?-drop, length, length-drop}
use stream_machine.Rewind.Store.{Chunk, MemoryStore}
use stream_machine.Prelude.Tests.{Bool-cases, leb}
use stream_machine.Prelude.{
  ◌++◌, ◌-◌, ◌<◌, List, [], ap, arith, inl, inr, refl, reverse, some, suc, sym, zero, ℕ, ◌∙◌, ◌∷◌,
  ◌≡◌, ◌≤◌,
}

-- The store after one insert for each chunk.
abbrev pub store_all : MemoryStore → List Chunk → MemoryStore
store_all s [] = s
store_all s (c ∷ cs) = store_all (insert s c).0 cs

pub store_all-append :
    (s : MemoryStore) (cs ds : List Chunk) → store_all s (cs ++ ds) ≡ store_all (store_all s cs) ds
store_all-append s [] ds = refl
store_all-append s (c ∷ cs) ds = store_all-append (insert s c).0 cs ds

-- The timestamps are not 0.
abbrev pub AreDated : List Chunk → Type 0
AreDated [] = Unit {0}
AreDated (c ∷ cs) = (0 < c.ts) × AreDated cs

last?-dated : (cs : List Chunk) (lb : Chunk) → AreDated cs → last? cs ≡ some lb → 0 < lb.ts
last?-dated [] lb p l = cc
last?-dated (c ∷ []) lb p l = ground arith
last?-dated (c ∷ d ∷ ds) lb p l = last?-dated (d ∷ ds) lb p.1 l

last?-some : (c : Chunk) (cs : List Chunk) → (lb : Chunk) × (last? (c ∷ cs) ≡ some lb)
last?-some c [] = (c, refl)
last?-some c (d ∷ ds) = last?-some d ds

max_length-store_all :
    (s : MemoryStore) (cs : List Chunk) → (store_all s cs).max_length ≡ s.max_length
max_length-store_all s [] = refl
max_length-store_all s (c ∷ cs) = max_length-store_all (insert s c).0 cs ∙ max_length-insert s c

-- Keeping the last of what was kept, with one more in front.
keep_last-cons :
    (m : ℕ) (c : Chunk) (cs : List Chunk) → keep_last m (c ∷ keep_last m cs) ≡ keep_last m (c ∷ cs)
keep_last-cons m c cs = elim (Bool-cases (leb (length cs) m)) [
  | inl fits ↦ let all : length cs - m ≡ 0 = ground arith in rw all refl
  | inr over ↦
      let kept = length-drop (length cs - m) cs in
      let one : suc (length (keep_last m cs)) - m ≡ 1 = ground (arith, kept) in
      let more : suc (length cs) - m ≡ suc (length cs - m) = ground arith in rw (one, more) refl
]

-- Dropping chunks that leave some in a sorted buffer.
keep_last-head :
    (n : ℕ) (c : Chunk) (cs : List Chunk)
    → n < length (c ∷ cs)
    → IsSorted (c ∷ cs)
    → (fb : Chunk) × (rest : List Chunk) × (drop n (c ∷ cs) ≡ fb ∷ rest) × (c.ts ≤ fb.ts)
keep_last-head zero c cs h s = (c, cs, refl, omega arith)
keep_last-head (suc n) c [] h s = absurd (omega arith)
keep_last-head (suc n) c (d ∷ ds) h s =
    let (fb, rest, e, le) = keep_last-head n d ds (omega arith) s.1 in
    (fb, rest, e, omega (arith, le, s.0))

insert-older :
    (s : MemoryStore) (m : ℕ) (c d : Chunk) (ds : List Chunk)
    → s.max_length ≡ some (suc m)
    → s.buffer ≡ keep_last (suc m) (d ∷ ds)
    → AreDated (d ∷ ds)
    → IsSorted (c ∷ d ∷ ds)
    → (insert s c).0.buffer ≡ keep_last (suc m) (c ∷ d ∷ ds)
insert-older s m c d ds me e p h =
    let n = length (d ∷ ds) - suc m in
    let (fb, rest, kept, le) = keep_last-head n d ds (omega arith) h.1 in
    let (lb, l) = last?-some d ds in
    let l' : last? (fb ∷ rest) ≡ some lb =
      ap last? (sym kept) ∙ last?-drop n (d ∷ ds) (omega arith) ∙ l in
    let dated = last?-dated (d ∷ ds) lb p l in
    let newest = head-le-last d ds lb h.1 l in
    let in_front : placed fb lb (fb ∷ rest) c ≡ c ∷ fb ∷ rest = ground (arith, le, newest, h.0) in
    insert-keep_last s m fb lb c rest me (e ∙ kept) l' dated
    ∙ ap (keep_last (suc m)) (in_front ∙ ap (λ bs. c ∷ bs) (sym kept))
    ∙ keep_last-cons (suc m) c (d ∷ ds)

-- Inserting a sorted buffer into an empty store, the newest chunk first, leaves the newest
-- chunks, as many as the maximum allows.
pub store_all-reverse :
    (s : MemoryStore) (m : ℕ) (cs : List Chunk)
    → s.max_length ≡ some (suc m)
    → s.buffer ≡ []
    → AreDated cs
    → IsSorted cs
    → (store_all s (reverse cs)).buffer ≡ keep_last (suc m) cs
store_all-reverse s m [] me e p h = let fits : 0 - suc m ≡ 0 = omega arith in rw fits e
store_all-reverse s m (c ∷ []) me e p h =
    let fits : 1 - suc m ≡ 0 = omega arith in insert-empty s m c me e ∙ rw fits refl
store_all-reverse s m (c ∷ d ∷ ds) me e p h =
    let t = store_all s (reverse (d ∷ ds)) in
    ap (λ cs. (store_all s cs).buffer) (reverse-cons c (d ∷ ds))
    ∙ ap (λ (u : MemoryStore). u.buffer) (store_all-append s (reverse (d ∷ ds)) (c ∷ []))
    ∙ insert-older t m c d ds (max_length-store_all s (reverse (d ∷ ds)) ∙ me)
        (store_all-reverse s m (d ∷ ds) me e p.1 h.1) p.1 h
