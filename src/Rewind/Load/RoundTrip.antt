-- ===== src/Rewind/Load/RoundTrip.antt =====
-- Loading what RewindWriter wrote (rewind_buffer.js).
use stream_machine.Rewind.Dump.Complete.{dump_buffer_complete}
use stream_machine.Rewind.Load.Tokens.{joined_bytes}
use stream_machine.Rewind.Load.Tokens.{
  AreAsked, AreReadable, IsReadable, concat-chunk_tokens, dump_tokens, parse-dump_tokens,
}
use stream_machine.Rewind.Store.{insert}
use stream_machine.Rewind.Load.{Pushed}
use stream_machine.Mp3.Parser.{tokens}
use stream_machine.Rewind.Store.Order.{IsSorted}
use stream_machine.Rewind.Store.Bounds.{keep_last}
use stream_machine.Rewind.Buffer.Keys.{chunk_length-IsTuned}
use stream_machine.Rewind.Load.Inserting.{AreDated, store_all, store_all-reverse}
use stream_machine.Rewind.Buffer.{RewindBuffer, chunk_length, chunks_of, millis}
use stream_machine.Prelude.Lists.{length, last?}
use mathlib.Core.List.{append_assoc}
use stream_machine.Rewind.Dump.Writing.{IsCodec, read_all}
use stream_machine.Rewind.Dump.{
  Codec, DumpHeader, write_chunk, RewindWriter, dump_buffer, header_of, write_header,
}
use stream_machine.Rewind.Store.{Chunk}
use stream_machine.Prelude.{
  List, [], map, refl, ℕ, ◌∷◌, ◌≡◌, some, Bool, sym, String, ap, false, none, reverse, suc, true,
  ◌∙◌, Option, ◌≤◌, subst,
}
use stream_machine.Rewind.Load.{
  head, piece, header_length, meta_length, Stage, parse_tokens, handle, handle_all, header_vitals,
  finish, is_failed, load_buffer,
}

module _ {H : Type 0} (codec : Codec H) where
  handle_all-pieces :
      (has_segmenter : Bool) (r : RewindBuffer) (cs : List Chunk)
      → (handle_all codec has_segmenter r (map piece cs)).0
        ≡ record r { store = store_all r.store cs }
  unfolding handle_all handle
  handle_all-pieces has_segmenter r [] = refl
  handle_all-pieces has_segmenter r (c ∷ cs) =
      handle_all-pieces has_segmenter (record r { store = (insert r.store c).0 }) cs

  handle_all-dump :
      (has_segmenter : Bool) (r : RewindBuffer) (h : DumpHeader H) (cs : List Chunk)
      → (handle_all codec has_segmenter r (head h ∷ map piece cs)).0 ≡ (
          let t = (chunk_length r (header_vitals h)).0 in record t { store = store_all t.store cs })
  unfolding handle_all handle
  handle_all-dump has_segmenter r h cs =
      handle_all-pieces has_segmenter (chunk_length r (header_vitals h)).0 cs

-- What is known of a buffer when a dump has been loaded into it.
pub record IsLoaded (d : ℕ) (key : String) (bs : List Chunk) (r : RewindBuffer) : Type 0 where
  pub chunks : r.store.buffer ≡ bs
  pub per_chunk : r.secs_per_chunk ≡ millis d
  pub stream_key : r.stream_key ≡ some key
  pub loaded : r.is_loading ≡ false

module _ {H : Type 0} (codec : Codec H) (laws : IsCodec codec) (has_segmenter : Bool) where
  load_buffer-parsed :
      (r : RewindBuffer) (tokens : List (List ℕ)) (pushed : List (Pushed H))
      → parse_tokens codec header_length tokens ≡ (pushed, meta_length)
      → (load_buffer codec has_segmenter r (some tokens)).0
        ≡ record (handle_all codec has_segmenter (record r { is_loading = true }) pushed).0 {
          is_loading = false;
        }
  unfolding load_buffer finish is_failed
  load_buffer-parsed r tokens pushed e =
      ap
        (λ (p : List (Pushed H) × Stage).
          (finish codec (is_failed p.1)
            (handle_all codec has_segmenter (record r { is_loading = true }) p.0).0).0)
        e

  load_buffer-header :
      (h : DumpHeader H) (r : RewindBuffer) (m : ℕ) (bs : List Chunk)
      → r.stream_key ≡ none
      → r.store.buffer ≡ []
      → chunks_of (millis h.secs_per_chunk) r.rsecs ≡ suc m
      → AreDated bs
      → IsSorted bs
      → AreReadable codec (reverse bs)
      → IsReadable codec h
      → IsLoaded h.secs_per_chunk h.stream_key
          (keep_last (suc m) bs)
          (load_buffer codec has_segmenter r (some (dump_tokens codec h (reverse bs)))).0
  unfolding header_vitals
  load_buffer-header h r m bs keyless e fits dated sorted short small =
      let parsed = parse-dump_tokens codec laws h (reverse bs) small short in
      let r' = record r { is_loading = true } in
      let t = (chunk_length r' (header_vitals h)).0 in
      let tuned = chunk_length-IsTuned r' (header_vitals h) keyless e in
      let inserted =
        store_all-reverse t.store m bs (tuned.maximum ∙ ap some fits) tuned.no_chunks dated
          sorted in
      subst (IsLoaded h.secs_per_chunk h.stream_key (keep_last (suc m) bs))
        (sym (
          load_buffer-parsed r (dump_tokens codec h (reverse bs)) _ parsed.0
          ∙ ap (λ (q : RewindBuffer). record q { is_loading = false })
              (handle_all-dump codec has_segmenter r' h (reverse bs))))
        (record {
          chunks = inserted;
          per_chunk = tuned.length_kept;
          stream_key = tuned.key_kept;
          loaded = refl;
        })

  concat-dump_tokens :
      (h : DumpHeader H) (cs : List Chunk)
      → joined_bytes codec (dump_tokens codec h cs)
        ≡ joined_bytes codec (write_header codec h ∷ map (write_chunk codec) cs)
  unfolding write_header
  concat-dump_tokens h cs = simp (concat-chunk_tokens codec cs, append_assoc)

-- A buffer in order whose chunks have short metadata and audio.
pub record IsDumpable {H : Type 0} (codec : Codec H) (d : ℕ) (key : String) (bs : List Chunk)
    (r : RewindBuffer) : Type 0 where
  pub per_chunk : r.secs_per_chunk ≡ millis d
  pub keyed : r.stream_key ≡ some key
  pub chunks : r.store.buffer ≡ bs
  pub dated : AreDated bs
  pub sorted : IsSorted bs
  pub short : AreReadable codec (reverse bs)

module _ {H : Type 0} (codec : Codec H) (laws : IsCodec codec) (has_segmenter : Bool) where
  -- A dump that is loaded into another buffer restores the stream. The dumped buffer is in order
  -- with timestamps that are not 0; the JSON of the header and of each chunk's metadata is read back;
  -- that of the header takes less than 2 ^ 32 bytes, that of each chunk's metadata less than 256, and
  -- the audio of each chunk less than 65536. The other buffer has no key and no chunks, and its
  -- seconds make m + 1 chunks. Then the dump, read in any way, as often as it has chunks or more, is
  -- written and ended, its bytes are tokens of the lengths that the parser asks for, and with these
  -- the other buffer gets the key, the length of a chunk and the newest m + 1 of the chunks, and is no
  -- longer loading.
  pub load_buffer-dump_buffer :
      (calls : List (ℕ × (ℕ → Bool))) (r r' : RewindBuffer) (d m : ℕ) (key : String)
      (hls : Option H) (fb lb : Chunk) (rest : List Chunk)
      → IsDumpable codec d key (fb ∷ rest) r
      → last? (fb ∷ rest) ≡ some lb
      → IsReadable codec (header_of codec fb lb d key hls)
      → length (fb ∷ rest) ≤ length calls
      → r'.stream_key ≡ none
      → r'.store.buffer ≡ []
      → chunks_of (millis d) r'.rsecs ≡ suc m
      → (w : RewindWriter) × (tokens : List (List ℕ)) × (dump_buffer codec r hls ≡ some w)
        × ((read_all codec calls w).ended ≡ true)
        × (joined_bytes codec (read_all codec calls w).pushed ≡ joined_bytes codec tokens)
        × AreAsked codec header_length tokens
        × IsLoaded d key
            (keep_last (suc m) (fb ∷ rest))
            (load_buffer codec has_segmenter r' (some tokens)).0
  load_buffer-dump_buffer calls r r' d m key hls fb lb rest v l small enough keyless e fits =
      let h = header_of codec fb lb d key hls in
      let bs = fb ∷ rest in
      let (w, dumped, ended, written) =
        dump_buffer_complete codec d key hls calls r fb lb rest v.per_chunk v.keyed v.chunks l
          enough in
      (
        w,
        dump_tokens codec h (reverse bs),
        dumped,
        ended,
        ap (joined_bytes codec) written
            ∙ sym (concat-dump_tokens codec laws has_segmenter h (reverse bs)),
        (parse-dump_tokens codec laws h (reverse bs) small v.short).1,
        unfold header_of in
            load_buffer-header codec laws has_segmenter h r' m bs keyless e fits v.dated v.sorted
              v.short small,
      )
