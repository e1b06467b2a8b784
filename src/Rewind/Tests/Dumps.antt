-- ===== src/Rewind/Tests/Dumps.antt =====
-- A small dump, written and loaded with a codec that knows no metadata and one key.
use stream_machine.Rewind.Store.Bounds.{keep_last}
use stream_machine.Rewind.Dump.Complete.{dump_buffer_complete, dump_of}
use native.Mathlib.Numerals.{unary_clauses}
use stream_machine.Rewind.Dump.{header_of, RewindWriter, dump_buffer}
use stream_machine.Prelude.Lists.{length}
use stream_machine.Rewind.Buffer.{RewindBuffer, chunks_of, infinity, millis}
use stream_machine.Rewind.Load.RoundTrip.{IsDumpable, IsLoaded, load_buffer-dump_buffer}
use stream_machine.Rewind.Dump.Writing.{IsCodec, read_all}
use stream_machine.Rewind.Dump.{ChunkMeta, Codec, DumpHeader, chunk_meta}
use stream_machine.Rewind.Store.{Chunk}
use stream_machine.Prelude.{
  ◌%◌, ◌*◌, ◌+◌, ◌/◌, ◌<◌, Bool, List, Option, [], ◌^◌, arith, false, none, refl, some, suc, true,
  zero, ℕ, ◌∷◌, ◌≡◌,
}
use stream_machine.Rewind.Load.Tokens.{AreAsked, IsReadable, joined_bytes}
use stream_machine.Rewind.Load.{header_length, load_buffer}

-- Numbers with the least byte first.
abbrev bytes_of : ℕ → ℕ → List ℕ
bytes_of zero n = []
bytes_of (suc w) n = (n % 256) ∷ bytes_of w (n / 256)

abbrev value_of : List ℕ → ℕ
value_of [] = 0
value_of (b ∷ bs) = b + 256 * value_of bs

abbrev parse_header_bytes : List ℕ → Option (DumpHeader (Unit {0}))
parse_header_bytes (a ∷ b ∷ d ∷ []) =
    some (record { start_ts = a; end_ts = b; secs_per_chunk = d; stream_key = "mp3"; hls = none })
parse_header_bytes bs = none

abbrev parse_meta_bytes : List ℕ → Option ChunkMeta
parse_meta_bytes (a ∷ b ∷ []) = some (record { ts = a; meta = none; duration = b })
parse_meta_bytes bs = none

abbrev small_codec : Codec (Unit {0})
small_codec = record {
  number = bytes_of;
  read_number = value_of;
  header_json = λ h. h.start_ts ∷ h.end_ts ∷ h.secs_per_chunk ∷ [];
  parse_header = parse_header_bytes;
  meta_json = λ m. m.ts ∷ m.duration ∷ [];
  parse_meta = parse_meta_bytes;
}

length-bytes_of : (w n : ℕ) → length (bytes_of w n) ≡ w
length-bytes_of zero n = refl
length-bytes_of (suc w) n = omega (arith, length-bytes_of w (n / 256))

value-bytes_of : (w n : ℕ) → n < 256 ^ w → value_of (bytes_of w n) ≡ n
value-bytes_of zero n h = omega arith
value-bytes_of (suc w) n h =
    let below : n / 256 < 256 ^ w = omega (arith, (simp unary_clauses at h)) in
    let ih = value-bytes_of w (n / 256) below in omega (arith, ih)

small_codec-IsCodec : IsCodec small_codec
small_codec-IsCodec = record {
  length-number = λ w n h. length-bytes_of w n;
  read-number = value-bytes_of;
}

abbrev chunk_at : ℕ → Chunk
chunk_at n = record { ts = n; duration = 9; bytes = n ∷ 0 ∷ []; meta = none }

abbrev chunks : List Chunk
chunks = chunk_at 1 ∷ chunk_at 2 ∷ chunk_at 3 ∷ []

-- Chunks of 10 ms.
abbrev dumped : RewindBuffer
dumped = record {
  rsecs = 30;
  rburstsecs = 10;
  secs_per_chunk = millis 9;
  rmax = some 3;
  rburst = some 1;
  stream_key = some "mp3";
  is_loading = false;
  listeners = [];
  store = record { max_length = some 3; buffer = chunks };
}

-- It has room for two chunks.
abbrev emptied : RewindBuffer
emptied = record {
  rsecs = 20;
  rburstsecs = 10;
  secs_per_chunk = infinity;
  rmax = none;
  rburst = none;
  stream_key = none;
  is_loading = false;
  listeners = [];
  store = record { max_length = none; buffer = [] };
}

-- `push` always asks for more, and then never.
abbrev calls : List (ℕ × (ℕ → Bool))
calls = (1000, λ i. true) ∷ (0, λ i. false) ∷ (0, λ i. false) ∷ []

dumped-IsDumpable : IsDumpable small_codec 9 "mp3" chunks dumped
unfolding chunk_meta
dumped-IsDumpable = record {
  per_chunk = refl;
  keyed = refl;
  chunks = refl;
  dated = omega arith;
  sorted = omega arith;
  short = (
    omega arith,
    omega arith,
    refl,
    (omega arith, omega arith, refl, (omega arith, omega arith, refl, tt)),
  );
}

header-IsReadable :
    IsReadable small_codec (header_of small_codec (chunk_at 1) (chunk_at 3) 9 "mp3" none)
unfolding header_of
header-IsReadable = record { small = omega arith; parses = refl }

two_chunks_fit : chunks_of (millis 9) 20 ≡ 2
unfolding chunks_of
two_chunks_fit = refl

load_buffer-dump_buffer_example :
    (w : RewindWriter) × (tokens : List (List ℕ)) × (dump_buffer small_codec dumped none ≡ some w)
    × ((read_all small_codec calls w).ended ≡ true)
    × (joined_bytes small_codec (read_all small_codec calls w).pushed
        ≡ joined_bytes small_codec tokens)
    × AreAsked small_codec header_length tokens
    × IsLoaded 9 "mp3" (keep_last 2 chunks) (load_buffer small_codec true emptied (some tokens)).0
load_buffer-dump_buffer_example =
    load_buffer-dump_buffer small_codec small_codec-IsCodec true calls dumped emptied 9 1 "mp3" none
      (chunk_at 1) (chunk_at 3) (chunk_at 2 ∷ chunk_at 3 ∷ []) dumped-IsDumpable refl
      header-IsReadable (omega arith) refl refl two_chunks_fit

dump_buffer_complete_example :
    (w : RewindWriter) × (dump_buffer small_codec dumped none ≡ some w)
    × ((read_all small_codec calls w).ended ≡ true)
    × ((read_all small_codec calls w).pushed
        ≡ dump_of small_codec 9 "mp3" none (chunk_at 1) (chunk_at 3) chunks)
dump_buffer_complete_example =
    dump_buffer_complete small_codec 9 "mp3" none calls dumped (chunk_at 1) (chunk_at 3)
      (chunk_at 2 ∷ chunk_at 3 ∷ []) refl refl refl refl (omega arith)
