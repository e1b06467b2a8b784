-- ===== src/FrameChunker/Tests.antt =====
-- Runs of the chunker's definitions, and the theorems applied to them.
use stream_machine.Prelude.Int.{pos}
use stream_machine.Prelude.Lists.{length}
use stream_machine.FrameChunker.Drift.{durations_of, transform_all-duration}
use stream_machine.FrameChunker.Frames.{AreMadeOf, join, transform_all-frames}
use stream_machine.FrameChunker.{FrameChunker, FrameObj, new_chunker, reset_time, transform_all}
use stream_machine.Prelude.{◌*◌, ◌+◌, ◌++◌, List, [], arith, refl, some, ℕ, ◌∷◌, ◌≡◌, ◌≤◌}

abbrev beat : ℕ → FrameObj
beat n = record { bytes = n ∷ []; duration = 26; stream_key = "mp3-44100-64-s" }

-- Frames of 26 units, chunks of 60, ten units to the millisecond.
abbrev fresh : FrameChunker
fresh = new_chunker 60 1000

abbrev five : List FrameObj
five = beat 1 ∷ beat 2 ∷ beat 3 ∷ beat 4 ∷ beat 5 ∷ []

two_chunks :
    (transform_all 9 fresh five).1
    ≡ record {
      data_bytes = 1 ∷ 2 ∷ 3 ∷ [];
      ts = 1000;
      duration = 78;
      frames = 3;
      stream_key = "mp3-44100-64-s";
    }
      ∷ record {
        data_bytes = 4 ∷ 5 ∷ [];
        ts = 1005;
        duration = 52;
        frames = 2;
        stream_key = "mp3-44100-64-s";
      }
      ∷ []
unfolding transform_all new_chunker
two_chunks = refl

starts_again :
    (transform_all 9 (reset_time (transform_all 9 fresh five).0 5000) (beat 6 ∷ beat 7 ∷ [])).1
    ≡ record {
      data_bytes = 6 ∷ 7 ∷ [];
      ts = 5000;
      duration = 52;
      frames = 2;
      stream_key = "mp3-44100-64-s";
    }
      ∷ []
unfolding transform_all new_chunker reset_time
starts_again = refl

abbrev running : FrameChunker
running = record {
  duration = 60;
  initial_time = 1000;
  chunk_queue = beat 4 ∷ [];
  queue_duration = 26;
  remainders = 8;
  target = pos 42;
  last_ts = some 1000;
}

transform_all-frames_example :
    let r = transform_all 9 running five in
    (groups : List (List FrameObj)) × AreMadeOf r.1 groups
    × (join groups ++ r.0.chunk_queue ≡ beat 4 ∷ five)
transform_all-frames_example = transform_all-frames 9 five running

transform_all-duration_example :
    (60 * length (transform_all 9 fresh five).1 ≤ durations_of (transform_all 9 fresh five).1)
    × (durations_of (transform_all 9 fresh five).1
        ≤ 60 * length (transform_all 9 fresh five).1 + 26)
transform_all-duration_example =
    transform_all-duration 9 26 60 1000 five (omega arith) (ground arith)
