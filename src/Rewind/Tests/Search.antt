-- ===== src/Rewind/Tests/Search.antt =====
-- A search with the documented behaviour of the package binary-search, for the tests.
use stream_machine.Prelude.{
  ◌+◌, ◌<◌, List, [], arith, inl, inr, refl, some, suc, zero, ℕ, ◌∷◌, ◌≡◌, ◌≤◌, ap, ◌∙◌,
}
use stream_machine.Prelude.Tests.{◌==◌, Bool-cases, if◌then◌else◌, ltb, ltb→lt}
use stream_machine.Rewind.Store.{Chunk}
use stream_machine.Rewind.Store.Seek.Timestamps.{Finds, IsSearch, get_elem?-IsSorted}
use stream_machine.Rewind.Store.Order.{IsSorted, tail-IsSorted}
use stream_machine.Prelude.Lists.{get_elem?, length}
use stream_machine.Prelude.Int.{negsuc, pos, ℤ}

find_from : ℕ → List Chunk → ℕ → ℤ
find_from i [] ts = negsuc i
find_from i (c ∷ cs) ts =
    if c.ts == ts then pos i else if ltb ts c.ts then negsuc i else find_from (suc i) cs ts

unfoldable pub linear_search : List Chunk → ℕ → ℤ
unfolding find_from
linear_search = find_from 0

-- `Finds`, for the rest of a buffer from an index on.
abbrev FindsFrom : ℕ → List Chunk → ℕ → ℤ → Type 0
FindsFrom i cs ts (pos j) =
    (k : ℕ) × (j ≡ i + k) × (c : Chunk) × (get_elem? cs k ≡ some c) × (c.ts ≡ ts)
FindsFrom i cs ts (negsuc p) =
    (k : ℕ) × (p ≡ i + k)
    × (k ≤ length cs)
    × ((m : ℕ) (c : Chunk) → m < k → get_elem? cs m ≡ some c → c.ts < ts)
    × ((m : ℕ) (c : Chunk) → k ≤ m → get_elem? cs m ≡ some c → ts < c.ts)

from_first :
    (ts : ℕ) (c : Chunk) (cs : List Chunk) (m : ℕ) (d : Chunk)
    → IsSorted (c ∷ cs)
    → ts < c.ts
    → get_elem? (c ∷ cs) m ≡ some d
    → ts < d.ts
from_first ts c cs zero d s h e = ground arith
from_first ts c cs (suc m) d s h e =
    omega (arith, get_elem?-IsSorted (c ∷ cs) 0 (suc m) c d s (omega arith) refl e)

shift_index :
    (i : ℕ) (c : Chunk) (cs : List Chunk) (ts : ℕ) (r : ℤ)
    → c.ts < ts
    → FindsFrom (suc i) cs ts r
    → FindsFrom i (c ∷ cs) ts r
shift_index i c cs ts (pos j) h (k, e, d, f, same) = (suc k, omega arith, d, f, same)
shift_index i c cs ts (negsuc p) h (k, e, within, below, above) =
    (suc k, omega arith, omega arith, less, more)
  where
    less : (m : ℕ) (d : Chunk) → m < suc k → get_elem? (c ∷ cs) m ≡ some d → d.ts < ts
    less zero d l e' = ground arith
    less (suc m) d l e' = below m d (omega arith) e'

    more : (m : ℕ) (d : Chunk) → suc k ≤ m → get_elem? (c ∷ cs) m ≡ some d → ts < d.ts
    more zero d l e' = absurd (omega arith)
    more (suc m) d l e' = above m d (omega arith) e'

find_from-FindsFrom :
    (i : ℕ) (cs : List Chunk) (ts : ℕ) → IsSorted cs → FindsFrom i cs ts (find_from i cs ts)
unfolding find_from
find_from-FindsFrom i [] ts s =
    (0, omega arith, omega arith, λ m c h e. absurd (omega arith), λ m c h e. cc)
find_from-FindsFrom i (c ∷ cs) ts s = elim (Bool-cases (c.ts == ts)) [
  | inl same ↦ rw same (0, omega arith, c, refl, ground arith)
  | inr other ↦ elim (Bool-cases (ltb ts c.ts)) [
    | inl before ↦
        rw (other, before)
          (
            0,
            omega arith,
            omega arith,
            λ m d h e. absurd (omega arith),
            λ m d h e. from_first ts c cs m d s (ltb→lt ts c.ts before) e,
          )
    | inr after ↦
        rw (other, after)
          (shift_index i c cs ts (find_from (suc i) cs ts) (ground arith)
            (find_from-FindsFrom (suc i) cs ts (tail-IsSorted c cs s)))
  ]
]

pub linear_search-IsSearch : IsSearch linear_search
unfolding linear_search
linear_search-IsSearch buf ts s = go (find_from 0 buf ts) (find_from-FindsFrom 0 buf ts s)
  where
    go : (r : ℤ) → FindsFrom 0 buf ts r → Finds buf ts r
    go (pos j) (k, e, c, f, same) =
        let e' : j ≡ k = omega arith in (c, ap (get_elem? buf) e' ∙ f, same)
    go (negsuc p) (k, e, within, below, above) =
        (omega arith, λ m c h. below m c (omega arith), λ m c h. above m c (omega arith))
