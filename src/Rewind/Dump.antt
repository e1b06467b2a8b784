-- ===== src/Rewind/Dump.antt =====
-- js/src/streammachine/rewind_buffer.js: `dumpBuffer` with its RewindWriter. Bytes are numbers
-- below 256. The libraries Concentrate and Dissolve and the JSON functions are the parameter `Codec`.
pub mod Complete
pub mod Writing
use stream_machine.Prelude.Int.{ℤ}
use stream_machine.Prelude.Lists.{get_elem?, last?, length}
use stream_machine.Rewind.Buffer.{PerChunk, RewindBuffer, millis}
use stream_machine.Rewind.Store.{Chunk, StoreEvent}
use stream_machine.Prelude.Tests.{◌==◌, if◌then◌else◌, ltb}
use stream_machine.Prelude.{
  ◌+◌, ◌++◌, Bool, List, Option, String, [], false, none, not, some, suc, true, zero, ◌||◌, ℕ, ◌∷◌,
}

-- The JSON object at the head of a dump, with a segment map of any type. `secs_per_chunk` is n
-- for n + 1 milliseconds, as in `millis n`.
pub record DumpHeader (H : Type 0) : Type 0 where
  pub start_ts : ℕ
  pub end_ts : ℕ
  pub secs_per_chunk : ℕ
  pub stream_key : String
  pub hls : Option H

-- The JSON object of a chunk.
pub record ChunkMeta : Type 0 where
  pub ts : ℕ
  pub meta : Option String
  pub duration : ℕ

-- `number w n` is the number n in w bytes, and `read_number` the number in such bytes.
pub record Codec (H : Type 0) : Type 0 where
  pub number : ℕ → ℕ → List ℕ
  pub read_number : List ℕ → ℕ
  pub header_json : DumpHeader H → List ℕ
  pub parse_header : List ℕ → Option (DumpHeader H)
  pub meta_json : ChunkMeta → List ℕ
  pub parse_meta : List ℕ → Option ChunkMeta

-- What is pushed, how many chunks are left to be written (`i + 1`), and whether `null` was pushed.
pub record RewindWriter : Type 0 where
  pub buf : List Chunk
  pub left : ℕ
  pub pushed : List (List ℕ)
  pub ended : Bool

unfoldable pub chunk_meta : Chunk → ChunkMeta
chunk_meta c = record { ts = c.ts; meta = c.meta; duration = c.duration }

module _ {H : Type 0} (codec : Codec H) where
  unfoldable pub header_of : Chunk → Chunk → ℕ → String → Option H → DumpHeader H
  header_of first last secs key hls = record {
    start_ts = first.ts;
    end_ts = last.ts;
    secs_per_chunk = secs;
    stream_key = key;
    hls = hls;
  }

  -- `_writeHeader`.
  unfoldable pub write_header : DumpHeader H → List ℕ
  write_header h = let json = codec.header_json h in codec.number 4 (length json) ++ json

  unfoldable pub new_writer : List Chunk → ℕ → String → Option H → RewindWriter
  unfolding header_of write_header
  new_writer [] secs key hls = record { buf = []; left = 0; pushed = []; ended = true }
  new_writer (c ∷ cs) secs key hls = record {
    buf = c ∷ cs;
    left = length (c ∷ cs);
    pushed = elim (last? (c ∷ cs)) [
      | none ↦ []
      | some lb ↦ write_header (header_of c lb secs key hls) ∷ []
    ];
    ended = false;
  }

  unfoldable pub write_chunk : Chunk → List ℕ
  unfolding chunk_meta
  write_chunk c =
      let json = codec.meta_json (chunk_meta c) in
      codec.number 1 (length json) ++ (json ++ (codec.number 2 (length c.bytes) ++ c.bytes))

  -- The loop of `_read`, with what `push` returns for the chunk at each index. If there were no
  -- chunk at the index, it would throw and leave the writer as it is.
  read_from : (ℕ → Bool) → ℕ → List Chunk → ℕ → ℕ → List (List ℕ) × ℕ × Bool
  unfolding write_chunk
  read_from accepts size buf zero wlen = ([], 0, false)
  read_from accepts size buf (suc i) wlen = elim (get_elem? buf i) [
    | none ↦ ([], suc i, false)
    | some c ↦
        let r = write_chunk c in
        let rest = read_from accepts size buf i (wlen + length r) in
        if i == 0
        then (r ∷ [], 0, true)
        else if not (accepts i) || ltb size (wlen + length r)
        then (r ∷ [], i, false)
        else (r ∷ rest.0, rest.1, rest.2)
  ]

  -- `_read`.
  unfoldable pub read : (ℕ → Bool) → ℕ → RewindWriter → RewindWriter
  unfolding read_from
  read accepts size w =
      let (records, remaining, at_end) = read_from accepts size w.buf w.left 0 in
      record w { left = remaining; pushed = w.pushed ++ records; ended = w.ended || at_end }

  dump_with : List Chunk → Option H → PerChunk → Option String → Option RewindWriter
  unfolding new_writer
  dump_with bs hls (millis d) (some key) = some (new_writer bs d key hls)
  dump_with bs hls _ _ = none

  -- `dumpBuffer`. A store that holds chunks has had the vitals of a source; without them the header
  -- has no length of a chunk, which is left out here (`none`).
  unfoldable pub dump_buffer : RewindBuffer → Option H → Option RewindWriter
  unfolding dump_with
  dump_buffer r hls = dump_with r.store.buffer hls r.secs_per_chunk r.stream_key
