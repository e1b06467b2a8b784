-- ===== src/Hls/Injector.antt =====
-- js/src/streammachine/rewind/hls_segmenter.js, `HLSSegmenter.Injector`: chunks of audio become
-- segments of fixed length. What a segment's later life does to it (the finalizer deletes its
-- `buffers`) is not seen here.
pub mod Placement
pub mod Flow
use mathlib.Core.Option
use stream_machine.Prelude.{
  ◌&&◌, ◌*◌, ◌+◌, ◌++◌, ◌/◌, Bool, List, Option, [], false, map, none, some, true, ℕ, ◌∷◌,
}
use stream_machine.Rewind.Store.{Chunk}
use stream_machine.Prelude.Tests.{if◌then◌else◌, leb, ltb}

-- A segment before the finalizer has given it an id.
pub record Segment : Type 0 where
  pub ts : ℕ
  pub end_ts : ℕ
  pub buffers : List Chunk

pub record Injector : Type 0 where
  pub segment_length : ℕ
  pub first_seg : Option Segment
  pub last_seg : Option Segment

unfoldable pub new_injector : ℕ → Injector
new_injector n = record { segment_length = n; first_seg = none; last_seg = none }

-- `_createSegment`, with the chunk that is at once put into it.
pub create_segment : ℕ → Chunk → Segment
create_segment n c = record { ts = c.ts / n * n; end_ts = c.ts / n * n + n; buffers = c ∷ [] }

-- seg.ts <= ts < seg.end_ts
covers : Segment → ℕ → Bool
covers s ts = leb s.ts ts && ltb ts s.end_ts

pub covered_by : Option Segment → ℕ → Bool
unfolding covers
covered_by none ts = false
covered_by (some s) ts = covers s ts

pub push_buffer : Segment → Chunk → Segment
push_buffer s c = record s { buffers = s.buffers ++ c ∷ [] }

pub unshift_buffer : Segment → Chunk → Segment
unshift_buffer s c = record s { buffers = c ∷ s.buffers }

-- !last_seg || chunk.ts >= last_seg.end_ts
pub is_after : Option Segment → ℕ → Bool
is_after none ts = true
is_after (some s) ts = leb s.end_ts ts

-- !first_seg || chunk.ts < first_seg.ts
pub is_before : Option Segment → ℕ → Bool
is_before none ts = true
is_before (some s) ts = ltb ts s.ts

abbrev pub to_list : Option Segment → List Segment
to_list none = []
to_list (some s) = s ∷ []

-- A segment behind the last one: the first stays, or is the last one so far.
pub append_segment : Injector → Segment → Injector × List Segment
append_segment j seg = elim j.first_seg [
  | none ↦ (record j { first_seg = j.last_seg; last_seg = some seg }, [])
  | some _ ↦ (record j { last_seg = some seg }, to_list j.last_seg)
]

-- A segment before the first one.
pub prepend_segment : Injector → Segment → Injector × List Segment
prepend_segment j seg = (record j { first_seg = some seg }, to_list j.first_seg)

-- `_transform`: the new state, and the segments that are pushed on.
unfoldable pub inject : Injector → Chunk → Injector × List Segment
unfolding create_segment covered_by push_buffer unshift_buffer is_after is_before append_segment
    prepend_segment
inject j c =
    if covered_by j.last_seg c.ts
    then (record j { last_seg = Option.map (λ s. push_buffer s c) j.last_seg }, [])
    else if covered_by j.first_seg c.ts
    then (record j { first_seg = Option.map (λ s. unshift_buffer s c) j.first_seg }, [])
    else if is_after j.last_seg c.ts
    then append_segment j (create_segment j.segment_length c)
    else if is_before j.first_seg c.ts
    then prepend_segment j (create_segment j.segment_length c)
    else (j, [])

total_duration : List Chunk → ℕ
total_duration [] = 0
total_duration (c ∷ cs) = c.duration + total_duration cs

flushed : ℕ → Option Segment → List Segment
unfolding total_duration
flushed n none = []
flushed n (some s) = if leb n (total_duration s.buffers) then s ∷ [] else []

-- `_flush`: the two open segments are pushed if they are long enough. They stay open.
unfoldable pub flush : Injector → List Segment
unfolding flushed
flush j = flushed j.segment_length j.first_seg ++ flushed j.segment_length j.last_seg
