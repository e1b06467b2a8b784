-- ===== src/Rewind/Dump/Complete.antt =====
-- What RewindWriter (rewind_buffer.js) writes, however the stream is read.
use stream_machine.Rewind.Dump.Writing.{IsWriting, read_all, read_all-IsWriting, records_back}
use stream_machine.Rewind.Buffer.{RewindBuffer, millis}
use stream_machine.Prelude.Lists.{drop, length, last?}
use stream_machine.Rewind.Dump.{
  Codec, RewindWriter, dump_buffer, dump_with, header_of, new_writer, write_header,
}
use stream_machine.Rewind.Store.{Chunk}
use stream_machine.Prelude.Tests.{◌==◌}
use stream_machine.Prelude.{
  Bool, List, [], some, ℕ, ◌∷◌, ◌≡◌, ◌≤◌, ap, arith, refl, ◌∙◌, Option, String, true,
}

drop-length {ℓ} : {A : Type ℓ} (xs : List A) → drop (length xs) xs ≡ []
drop-length [] = refl
drop-length (x ∷ xs) = drop-length xs

module _ {H : Type 0} (codec : Codec H) (d : ℕ) (key : String) (hls : Option H) where
  -- What is written of a buffer: the header, and a record for each chunk, the newest first.
  abbrev pub dump_of : Chunk → Chunk → List Chunk → List (List ℕ)
  dump_of first last bs =
      write_header codec (header_of codec first last d key hls) ∷ records_back codec bs

  new_writer-IsWriting :
      (fb lb : Chunk) (rest : List Chunk)
      → last? (fb ∷ rest) ≡ some lb
      → IsWriting codec
          (fb ∷ rest)
          (write_header codec (header_of codec fb lb d key hls) ∷ [])
          (new_writer codec (fb ∷ rest) d key hls)
  unfolding new_writer
  new_writer-IsWriting fb lb rest l = record {
    whole = refl;
    inside = omega arith;
    written = rw (l, new_writer, drop-length rest) refl;
    ending = ground arith;
  }

  -- A dump of a store that holds chunks is written in full and then ended, whatever sizes it is
  -- read with and whatever `push` returns, after as many reads as there are chunks at the most:
  -- the header, with the first and the last timestamp, and then every chunk once, the newest first.
  pub dump_buffer_complete :
      (calls : List (ℕ × (ℕ → Bool))) (r : RewindBuffer) (fb lb : Chunk) (rest : List Chunk)
      → r.secs_per_chunk ≡ millis d
      → r.stream_key ≡ some key
      → r.store.buffer ≡ fb ∷ rest
      → last? (fb ∷ rest) ≡ some lb
      → length (fb ∷ rest) ≤ length calls
      → (w : RewindWriter) × (dump_buffer codec r hls ≡ some w)
        × ((read_all codec calls w).ended ≡ true)
        × ((read_all codec calls w).pushed ≡ dump_of fb lb (fb ∷ rest))
  unfolding dump_buffer dump_with
  dump_buffer_complete calls r fb lb rest per keyed e l enough =
      let w = new_writer codec (fb ∷ rest) d key hls in
      let (v, fewer) =
        read_all-IsWriting codec (fb ∷ rest) _ calls w (new_writer-IsWriting fb lb rest l) in
      let done : (read_all codec calls w).left ≡ 0 = omega (arith, fewer, enough) in
      (
        w,
        simp (per, keyed, e),
        v.ending ∙ ap (λ n. n == 0) done,
        v.written
            ∙ ap
                (λ n.
                  write_header codec (header_of codec fb lb d key hls)
                  ∷ records_back codec (drop n (fb ∷ rest)))
                done,
      )
