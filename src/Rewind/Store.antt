-- ===== src/Rewind/Store.antt =====
-- js/src/streammachine/rewind/memory_store.js: the buffer behind the rewind buffer, oldest first.
-- Times and durations are counted in one unit, any fraction of a millisecond: the code only adds
-- and compares them. `ts` is the Date's number.
pub mod Seek
pub mod Order
pub mod Events
pub mod Bounds
use stream_machine.Prelude.{
  ℕ, zero, suc, ◌+◌, ◌-◌, ◌≤◌, ◌≡◌, String, List, [], ◌∷◌, ◌++◌, Option, none, some, Bool, true,
  false, ◌&&◌, ◌||◌,
}
use stream_machine.Prelude.Tests.{ltb, leb, ◌==◌, if◌then◌else◌}
use stream_machine.Prelude.Lists.{length, get_elem?, last?, head?, at_index, slice}
use stream_machine.Prelude.Int.{ℤ, pos, negsuc, sub_ℕ, ◌-ℤ◌, ◌+ℤ◌, ltb_ℤ}

pub record Chunk : Type 0 where
  pub ts : ℕ
  pub duration : ℕ
  pub bytes : List ℕ
  pub meta : Option String

pub record MemoryStore : Type 0 where
  pub max_length : Option ℕ
  pub buffer : List Chunk

pub data StoreEvent : Type 0 where
  push unshift shift : Chunk → StoreEvent

unfoldable pub new_store : Option ℕ → MemoryStore
new_store n = record { max_length = n; buffer = [] }

unfoldable pub reset : MemoryStore → MemoryStore
reset s = record s { buffer = [] }

-- The branches of `insert` on a buffer that is not empty, with its first and last chunks.
place_between : MemoryStore → Chunk → Chunk → Chunk → MemoryStore × List StoreEvent
place_between s fb lb c =
    if lb.ts == 0 || ltb lb.ts c.ts
    then (record s { buffer = s.buffer ++ c ∷ [] }, push c ∷ [])
    else if ltb c.ts fb.ts
    then (record s { buffer = c ∷ s.buffer }, unshift c ∷ [])
    else (s, [])

place : MemoryStore → List Chunk → Chunk → MemoryStore × List StoreEvent
unfolding place_between
place s [] c = (record s { buffer = c ∷ [] }, push c ∷ [])
place s (fb ∷ rest) c = elim (last? (fb ∷ rest)) [
  | none ↦ (s, [])
  | some lb ↦ place_between s fb lb c
]

-- `while (length > max) shift`, for a maximum that is not 0.
shift_over : ℕ → List Chunk → List Chunk × List StoreEvent
shift_over m [] = ([], [])
shift_over m (b ∷ bs) =
    let rest = shift_over m bs in
    if ltb m (length (b ∷ bs)) then (rest.0, shift b ∷ rest.1) else (b ∷ bs, [])

-- A maximum of null or 0 is falsy, and keeps everything.
truncate_to : Option ℕ → List Chunk → List Chunk × List StoreEvent
truncate_to none bs = (bs, [])
truncate_to (some zero) bs = (bs, [])
truncate_to (some (suc m)) bs = shift_over (suc m) bs

pub truncate : MemoryStore → MemoryStore × List StoreEvent
unfolding truncate_to shift_over
truncate s =
    let (bs, events) = truncate_to s.max_length s.buffer in (record s { buffer = bs }, events)

unfoldable pub insert : MemoryStore → Chunk → MemoryStore × List StoreEvent
unfolding place truncate
insert s c =
    let (placed, added) = place s s.buffer c in
    let (kept, removed) = truncate placed in (kept, added ++ removed)

unfoldable pub set_max : MemoryStore → Option ℕ → MemoryStore × List StoreEvent
unfolding truncate
set_max s n = truncate (record s { max_length = n })
