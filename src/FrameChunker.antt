-- ===== src/FrameChunker.antt =====
-- js/src/streammachine/sources/_frame_chunker.js: frames are gathered into chunks of about the wanted
-- duration. Durations are counted in a unit of which `suc u` make a millisecond, timestamps in
-- milliseconds.
pub mod Frames
pub mod Drift
pub mod Clock
pub mod Tests
use stream_machine.Prelude.Lists.{length}
use stream_machine.Prelude.Tests.{if◌then◌else◌, ltb}
use stream_machine.Prelude.Int.{◌+ℤ◌, ltb_ℤ, pos, sub_ℕ, ℤ}
use stream_machine.Prelude.{◌%◌, ◌+◌, ◌++◌, ◌/◌, List, Option, String, [], none, some, suc, ℕ, ◌∷◌}

-- An object that is written: a frame, with what its header says.
pub record FrameObj : Type 0 where
  pub bytes : List ℕ
  pub duration : ℕ
  pub stream_key : String

pub record RawChunk : Type 0 where
  pub data_bytes : List ℕ
  pub ts : ℕ
  pub duration : ℕ
  pub frames : ℕ
  pub stream_key : String

pub record FrameChunker : Type 0 where
  pub duration : ℕ
  pub initial_time : ℕ
  pub chunk_queue : List FrameObj
  pub queue_duration : ℕ
  pub remainders : ℕ
  pub target : ℤ
  pub last_ts : Option ℕ

unfoldable pub new_chunker : ℕ → ℕ → FrameChunker
new_chunker duration initial_time = record {
  duration = duration;
  initial_time = initial_time;
  chunk_queue = [];
  queue_duration = 0;
  remainders = 0;
  target = pos duration;
  last_ts = none;
}

-- `resetTime`
unfoldable pub reset_time : FrameChunker → ℕ → FrameChunker
reset_time c ts = record c { last_ts = none; remainders = 0; initial_time = ts }

pub concat_frames : List FrameObj → List ℕ
concat_frames [] = []
concat_frames (o ∷ os) = o.bytes ++ concat_frames os

-- The whole milliseconds of a duration, and what is carried over: `_remainders` is taken down only
-- when it is more than a millisecond.
pub carry : ℕ → ℕ → ℕ → ℕ × ℕ
carry u remainders duration =
    let rem = remainders + duration % suc u in
    if ltb (suc u) rem
    then (duration / suc u + rem / suc u, rem % suc u)
    else (duration / suc u, rem)

-- A timestamp of 0 is a Date, and truthy.
pub next_ts : Option ℕ → ℕ → ℕ → ℕ
next_ts none initial_time dur = initial_time
next_ts (some t) initial_time dur = t + dur

module _ (u : ℕ) where
  -- The queue becomes a chunk.
  emit_chunk : FrameChunker → String → FrameChunker × List RawChunk
  unfolding concat_frames carry next_ts
  emit_chunk c stream_key =
      let (dur, rem) = carry u c.remainders c.queue_duration in
      let ts = next_ts c.last_ts c.initial_time dur in
      (
        record c {
          chunk_queue = [];
          queue_duration = 0;
          remainders = rem;
          target = c.target +ℤ sub_ℕ c.duration c.queue_duration;
          last_ts = some ts;
        },
        record {
          data_bytes = concat_frames c.chunk_queue;
          ts = ts;
          duration = c.queue_duration;
          frames = length c.chunk_queue;
          stream_key = stream_key;
        }
            ∷ [],
      )

  -- `_transform`
  unfoldable pub transform : FrameChunker → FrameObj → FrameChunker × List RawChunk
  unfolding emit_chunk
  transform c obj =
      let c' = record c {
        chunk_queue = c.chunk_queue ++ obj ∷ [];
        queue_duration = c.queue_duration + obj.duration;
      } in
      if ltb_ℤ c'.target (pos c'.queue_duration) then emit_chunk c' obj.stream_key else (c', [])

  unfoldable pub transform_all : FrameChunker → List FrameObj → FrameChunker × List RawChunk
  unfolding transform
  transform_all c [] = (c, [])
  transform_all c (o ∷ os) =
      let r = transform c o in let rest = transform_all r.0 os in (rest.0, r.1 ++ rest.1)
