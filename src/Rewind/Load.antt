-- ===== src/Rewind/Load.antt =====
-- js/src/streammachine/rewind_buffer.js: `loadBuffer`. The library Dissolve cuts the bytes of the
-- stream into tokens of the lengths that the code asks for; the model takes these tokens.
pub mod Tokens
pub mod Inserting
pub mod RoundTrip
use stream_machine.Rewind.Buffer.{Vitals}
use stream_machine.Rewind.Store
use stream_machine.Rewind.Dump.{DumpHeader, Codec, ChunkMeta}
use stream_machine.Mp3.Parser.{tokens}
use stream_machine.Prelude.Int.{pos, ℤ}
use stream_machine.Prelude.Lists.{length}
use stream_machine.Prelude.Tests.{if◌then◌else◌}
use stream_machine.Rewind.Buffer.{RewindBuffer, buffered_secs, chunk_length, millis}
use stream_machine.Rewind.Store.{Chunk, StoreEvent, insert}
use stream_machine.Prelude.{◌++◌, Bool, List, Option, [], false, map, none, some, true, ℕ, ◌∷◌}

-- What Dissolve waits for.
pub data Stage : Type 0 where
  header_length meta_length : Stage
  header_bytes : ℕ → Stage
  meta_bytes : ℕ → Stage
  data_length : List ℕ → Stage
  data_bytes : List ℕ → ℕ → Stage
  failed : Stage

-- How many bytes it asks for.
unfoldable pub asked : Stage → ℕ
asked header_length = 4
asked meta_length = 1
asked (header_bytes n) = n
asked (meta_bytes n) = n
asked (data_length meta) = 2
asked (data_bytes meta n) = n
asked failed = 0

-- What the parser pushes. The first is the header, and `headerRead` tells it from the chunks.
pub data Pushed (H : Type 0) : Type 0 where
  head : DumpHeader H → Pushed H
  piece : Chunk → Pushed H

-- What the listeners, the store, the segmenter and the callback see.
pub data LoadEvent (H : Type 0) : Type 0 where
  rewind_loading rewind_loaded : LoadEvent H
  header : DumpHeader H → LoadEvent H
  buffer : Chunk → LoadEvent H
  load_map : Option H → LoadEvent H
  stored : StoreEvent → LoadEvent H
  called_back : Option ℤ → ℕ → LoadEvent H

is_failed : Stage → Bool
is_failed failed = true
is_failed _ = false

opt_list {ℓ} : {A : Type ℓ} → Option A → List A
opt_list none = []
opt_list (some a) = a ∷ []

module _ {H : Type 0} where
  -- The object that `_rChunkLength` gets.
  header_vitals : DumpHeader H → Vitals
  header_vitals h = record { emit_duration = millis h.secs_per_chunk; stream_key = h.stream_key }

  map_of : Bool → Option H → List (LoadEvent H)
  map_of true (some hls) = load_map (some hls) ∷ []
  map_of _ _ = []

module _ {H : Type 0} (codec : Codec H) where
  -- The parser of `loadBuffer`: a token of the length that was asked for.
  unfoldable pub dissolve : Stage → List ℕ → Stage × Option (Pushed H)
  dissolve header_length t = (header_bytes (codec.read_number t), none)
  dissolve (header_bytes n) t = elim (codec.parse_header t) [
    | none ↦ (failed, none)
    | some h ↦ (meta_length, some (head h))
  ]
  dissolve meta_length t = (meta_bytes (codec.read_number t), none)
  dissolve (meta_bytes n) t = (data_length t, none)
  dissolve (data_length meta) t = (data_bytes meta (codec.read_number t), none)
  dissolve (data_bytes meta n) t = elim (codec.parse_meta meta) [
    | none ↦ (failed, none)
    | some m ↦ (
      meta_length,
      some (piece (record { ts = m.ts; duration = m.duration; bytes = t; meta = m.meta })),
    )
  ]
  dissolve failed t = (failed, none)

  -- The loop of the "readable" handler. `has_segmenter` tells whether the stream has a segmenter.
  handle : Bool → RewindBuffer → Pushed H → RewindBuffer × List (LoadEvent H)
  unfolding header_vitals map_of
  handle has_segmenter r (head h) =
      let (r', events) = chunk_length r (header_vitals h) in
      (r', header h ∷ (map stored events ++ map_of has_segmenter h.hls))
  handle has_segmenter r (piece c) =
      let (store, events) = Store.insert r.store c in
      (record r { store = store }, map stored events ++ buffer c ∷ [])

  pub handle_all : Bool → RewindBuffer → List (Pushed H) → RewindBuffer × List (LoadEvent H)
  unfolding handle
  handle_all has_segmenter r [] = (r, [])
  handle_all has_segmenter r (p ∷ ps) =
      let (r', events) = handle has_segmenter r p in
      let (r'', more) = handle_all has_segmenter r' ps in (r'', events ++ more)

  -- What the parser pushes, and where it stands at the end.
  pub parse_tokens : Stage → List (List ℕ) → List (Pushed H) × Stage
  unfolding dissolve opt_list
  parse_tokens s [] = ([], s)
  parse_tokens s (t ∷ ts) =
      let (s', out) = dissolve s t in
      let rest = parse_tokens s' ts in (opt_list out ++ rest.0, rest.1)

  -- The "end" handler.
  finish : Bool → RewindBuffer → RewindBuffer × List (LoadEvent H)
  finish true r = (r, [])
  finish false r = (
    record r { is_loading = false },
    rewind_loaded ∷ called_back (buffered_secs r) (length r.store.buffer) ∷ [],
  )

  -- `loadBuffer` on the tokens of a stream, or with no stream. After an exception in the parser
  -- there is no "end".
  unfoldable pub load_buffer :
      Bool → RewindBuffer → Option (List (List ℕ)) → RewindBuffer × List (LoadEvent H)
  unfolding parse_tokens handle_all finish is_failed
  load_buffer has_segmenter r none = (
    record r { is_loading = false },
    rewind_loading
        ∷ ((if has_segmenter then load_map none ∷ [] else [])
            ++ called_back (some (pos 0)) 0 ∷ rewind_loaded ∷ []),
  )
  load_buffer has_segmenter r (some tokens) =
      let (pushed, stage) = parse_tokens header_length tokens in
      let (r', events) = handle_all has_segmenter (record r { is_loading = true }) pushed in
      let (r'', last_events) = finish (is_failed stage) r' in
      (r'', rewind_loading ∷ (events ++ last_events))
