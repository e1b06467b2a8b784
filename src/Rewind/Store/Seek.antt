-- ===== src/Rewind/Store/Seek.antt =====
-- js/src/streammachine/rewind/memory_store.js: `_findTimestampOffset`, `at`, `range`, `first`,
-- `last`. An offset counts chunks back from the newest, which has offset 0.
-- `bs` stands for the package binary-search: the index of the element that compares equal to the
-- needle, or -1 less its insertion point.
pub mod Reading
pub mod Timestamps
use stream_machine.Prelude.{◌&&◌, ◌+◌, ◌-◌, List, Option, none, some, suc, zero, ℕ}
use stream_machine.Prelude.Int.{◌+ℤ◌, ◌-ℤ◌, ltb_ℤ, negsuc, pos, sub_ℕ, ℤ}
use stream_machine.Rewind.Store.{Chunk, MemoryStore}
use stream_machine.Prelude.Lists.{at_index, get_elem?, head?, last?, length, slice}
use stream_machine.Prelude.Tests.{if◌then◌else◌, leb, ltb}

-- A client asks for a number of chunks, or for a Date.
pub data Offset : Type 0 where
  number : ℤ → Offset
  date : ℕ → Offset

-- What the callback gets: a value, the error "Timestamp not found in RewindBuffer", or nothing,
-- since reading a field of `undefined` has thrown.
pub data Reply {ℓ} (A : Type ℓ) : Type ℓ where
  ok : A → Reply A
  not_found : Reply A
  type_error : Reply A

infixl 5 ◌>>=◌
abbrev pub ◌>>=◌ {ℓ κ} : {A : Type ℓ} {B : Type κ} → Reply A → (A → Reply B) → Reply B
ok a >>= f = f a
not_found >>= f = not_found
type_error >>= f = type_error

-- Math.abs(a - b)
abs_diff : ℕ → ℕ → ℕ
abs_diff a b = if ltb a b then b - a else a - b

-- Between `a`, the last chunk that starts before `ts`, and `b`, the next one, at index `p`.
nearer : ℕ → ℕ → ℕ → Chunk → Option Chunk → Reply ℤ
unfolding abs_diff
nearer size p ts a b =
    if leb a.ts ts && ltb ts (a.ts + a.duration) then ok (sub_ℕ size p) else elim b [
      | none ↦ type_error
      | some b ↦
          if ltb (abs_diff b.ts ts) (abs_diff (a.ts + a.duration) ts)
          then ok (sub_ℕ size (p + 1))
          else ok (sub_ℕ size p)
    ]

seek : List Chunk → ℕ → ℤ → Reply ℤ
unfolding nearer
seek buf ts (pos i) = ok (sub_ℕ (length buf) (i + 1))
seek buf ts (negsuc zero) = ok (sub_ℕ (length buf) 1)
seek buf ts (negsuc (suc p)) = elim (get_elem? buf p) [
  | none ↦ type_error
  | some a ↦ nearer (length buf) (suc p) ts a (get_elem? buf (suc p))
]

-- if (offset > length) offset = length - 1; if (offset < 0) offset = 0
clamp_offset : ℕ → ℤ → ℤ
clamp_offset size o =
    let o' = if ltb_ℤ (pos size) o then sub_ℕ size 1 else o in
    if ltb_ℤ o' (pos 0) then pos 0 else o'

-- An offset of -1, from an empty buffer, is no timestamp.
found_or_error : ℤ → Reply ℤ
found_or_error (negsuc zero) = not_found
found_or_error o = ok o

module _ (bs : List Chunk → ℕ → ℤ) where
  pub find_timestamp_offset : List Chunk → ℕ → Reply ℤ
  unfolding seek
  find_timestamp_offset buf ts = seek buf ts (bs buf ts)

  -- The first lines of `at` and of `range`.
  resolve : List Chunk → Offset → Reply ℤ
  unfolding find_timestamp_offset found_or_error clamp_offset
  resolve buf (date ts) = do o ← find_timestamp_offset buf ts; found_or_error o
  resolve buf (number o) = ok (clamp_offset (length buf) o)

  -- `none` is `undefined`.
  unfoldable pub at : MemoryStore → Offset → Reply (Option Chunk)
  unfolding resolve
  at s offset = do
    o ← resolve s.buffer offset
    ok (at_index s.buffer (sub_ℕ (length s.buffer) 1 -ℤ o))

  unfoldable pub range : MemoryStore → Offset → ℤ → Reply (List Chunk)
  unfolding resolve
  range s offset n = do
    o ← resolve s.buffer offset
    let n' = if ltb_ℤ o n then o else n
    let start = sub_ℕ (length s.buffer) 1 -ℤ o
    ok (slice s.buffer start (start +ℤ n'))

abbrev pub first : MemoryStore → Option Chunk
first s = head? s.buffer

abbrev pub last : MemoryStore → Option Chunk
last s = last? s.buffer
