-- ===== src/Rewind/Load/Tokens.antt =====
-- The tokens into which the parser of `loadBuffer` (rewind_buffer.js) cuts a dump.
use stream_machine.Prelude.Lists.{length}
use mathlib.Core.List.{append_assoc}
use stream_machine.Rewind.Dump.Writing.{IsCodec}
use stream_machine.Rewind.Dump.{Codec, DumpHeader, chunk_meta, write_chunk}
use stream_machine.Rewind.Store.{Chunk}
use stream_machine.Prelude.{◌++◌, ◌<◌, List, [], ◌^◌, map, refl, ℕ, ◌∷◌, ◌≡◌, some, arith, sym}
use stream_machine.Rewind.Load.{
  head, piece, header_length, meta_length, Stage, asked, dissolve, opt_list, parse_tokens,
  data_bytes, header_bytes,
}

module _ {H : Type 0} (codec : Codec H) where
  -- Every token has the length that the parser asks for when it gets it.
  abbrev pub AreAsked : Stage → List (List ℕ) → Type 0
  AreAsked s [] = Unit {0}
  AreAsked s (t ∷ ts) = (length t ≡ asked s) × AreAsked (dissolve codec s t).0 ts

  abbrev pub meta_of : Chunk → List ℕ
  meta_of c = codec.meta_json (chunk_meta c)

  -- The lengths of the metadata and of the audio fit into one byte and into two, and the JSON of
  -- the metadata is read back.
  abbrev pub AreReadable : List Chunk → Type 0
  AreReadable [] = Unit {0}
  AreReadable (c ∷ cs) =
      (length (meta_of c) < 256)
      × (length c.bytes < 65536)
      × (codec.parse_meta (meta_of c) ≡ some (chunk_meta c))
      × AreReadable cs

  -- The same of the header, whose length has four bytes.
  pub record IsReadable (h : DumpHeader H) : Type 0 where
    pub small : length (codec.header_json h) < 256 ^ 4
    pub parses : codec.parse_header (codec.header_json h) ≡ some h

  -- The tokens of chunks in the order in which they are written.
  abbrev pub chunk_tokens : List Chunk → List (List ℕ)
  chunk_tokens [] = []
  chunk_tokens (c ∷ cs) =
      codec.number 1 (length (meta_of c))
      ∷ meta_of c
      ∷ codec.number 2 (length c.bytes)
      ∷ c.bytes
      ∷ chunk_tokens cs

  abbrev pub dump_tokens : DumpHeader H → List Chunk → List (List ℕ)
  dump_tokens h cs =
      codec.number 4 (length (codec.header_json h)) ∷ codec.header_json h ∷ chunk_tokens cs

  abbrev pub joined_bytes : List (List ℕ) → List ℕ
  joined_bytes [] = []
  joined_bytes (t ∷ ts) = t ++ joined_bytes ts

  pub concat-chunk_tokens :
      (cs : List Chunk) → joined_bytes (chunk_tokens cs) ≡ joined_bytes (map (write_chunk codec) cs)
  unfolding write_chunk
  concat-chunk_tokens [] = refl
  concat-chunk_tokens (c ∷ cs) = simp (concat-chunk_tokens cs, append_assoc)

module _ {H : Type 0} (codec : Codec H) (laws : IsCodec codec) where
  dissolve-data :
      (n : ℕ) (c : Chunk)
      → codec.parse_meta (meta_of codec c) ≡ some (chunk_meta c)
      → dissolve codec (data_bytes (meta_of codec c) n) c.bytes ≡ (meta_length, some (piece c))
  unfolding dissolve chunk_meta
  dissolve-data n c e = rw (e, dissolve) refl

  dissolve-header :
      (n : ℕ) (h : DumpHeader H)
      → IsReadable codec h
      → dissolve codec (header_bytes n) (codec.header_json h) ≡ (meta_length, some (head h))
  unfolding dissolve
  dissolve-header n h v = rw (v.parses, dissolve) refl

  parse-chunk_tokens :
      (cs : List Chunk)
      → AreReadable codec cs
      → (parse_tokens codec meta_length (chunk_tokens codec cs) ≡ (map piece cs, meta_length))
        × AreAsked codec meta_length (chunk_tokens codec cs)
  unfolding parse_tokens dissolve opt_list asked chunk_meta
  parse-chunk_tokens [] f = (refl, tt)
  parse-chunk_tokens (c ∷ cs) f =
      let ih = parse-chunk_tokens cs f.3 in
      let small_meta : length (meta_of codec c) < 256 ^ 1 = omega (arith, f.0) in
      let small_data : length c.bytes < 256 ^ 2 = omega (arith, f.1) in
      rw (dissolve-data (codec.read_number (codec.number 2 (length c.bytes))) c f.2, ih.0)
        (
          refl,
          (
            laws.length-number 1 _ small_meta,
            (
              sym (laws.read-number 1 _ small_meta),
              (laws.length-number 2 _ small_data, (sym (laws.read-number 2 _ small_data), ih.1)),
            ),
          ),
        )

  pub parse-dump_tokens :
      (h : DumpHeader H) (cs : List Chunk)
      → IsReadable codec h
      → AreReadable codec cs
      → (parse_tokens codec header_length (dump_tokens codec h cs)
          ≡ (head h ∷ map piece cs, meta_length))
        × AreAsked codec header_length (dump_tokens codec h cs)
  unfolding parse_tokens dissolve opt_list asked
  parse-dump_tokens h cs v f =
      let ih = parse-chunk_tokens cs f in
      let n = codec.number 4 (length (codec.header_json h)) in
      rw (dissolve-header (codec.read_number n) h v, ih.0)
        (refl, (laws.length-number 4 _ v.small, (sym (laws.read-number 4 _ v.small), ih.1)))
