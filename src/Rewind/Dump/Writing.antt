-- ===== src/Rewind/Dump/Writing.antt =====
-- The invariant of RewindWriter (rewind_buffer.js) between two reads.
use mathlib.Core.List.{append_assoc, map-append, reverse-cons, append-nil}
use stream_machine.Prelude.Lists.{drop, length, get_elem?, get_elem?-some}
use stream_machine.SourceMount.{call}
use stream_machine.Rewind.Dump.{Codec, RewindWriter, read, write_chunk, read_from}
use stream_machine.Rewind.Store.{Chunk}
use stream_machine.Prelude.Tests.{◌==◌, Bool-cases, ltb, some_eq, if◌then◌else◌}
use stream_machine.Prelude.{
  ◌++◌, ◌<◌, Bool, List, [], ◌^◌, map, reverse, some, ℕ, ◌∷◌, ◌≡◌, ◌≤◌, suc, zero, ◌+◌, ◌-◌, ap,
  arith, inl, inr, not, refl, ◌||◌, ◌∙◌, subst, sym, false,
}

-- The laws of Concentrate and Dissolve: a number that fits into w bytes takes w bytes, and is read
-- back.
pub record IsCodec {H : Type 0} (codec : Codec H) : Type 0 where
  pub length-number : (w n : ℕ) → n < 256 ^ w → length (codec.number w n) ≡ w
  pub read-number : (w n : ℕ) → n < 256 ^ w → codec.read_number (codec.number w n) ≡ n

module _ {H : Type 0} (codec : Codec H) where
  -- The records of the first n chunks, the newest of them first.
  abbrev pub records_back : List Chunk → List (List ℕ)
  records_back bs = map (write_chunk codec) (reverse bs)

  -- Reading again and again, as the stream does: each time with a size and what `push` will return.
  abbrev pub read_all : List (ℕ × (ℕ → Bool)) → RewindWriter → RewindWriter
  read_all [] w = w
  read_all (call ∷ calls) w = read_all calls (read codec call.1 call.0 w)

  -- A writer between two reads: the records of the chunks from the index `left` on are written,
  -- after the header, and it has ended exactly when none is left.
  pub record IsWriting (bs : List Chunk) (front : List (List ℕ)) (w : RewindWriter) : Type 0 where
    pub whole : w.buf ≡ bs
    pub inside : w.left ≤ length bs
    pub written : w.pushed ≡ front ++ records_back (drop w.left bs)
    pub ending : w.ended ≡ (w.left == 0)

drop-get_elem? {ℓ} :
    {A : Type ℓ} (i : ℕ) (xs : List A) (x : A)
    → get_elem? xs i ≡ some x
    → drop i xs ≡ x ∷ drop (suc i) xs
drop-get_elem? i [] x e = cc
drop-get_elem? zero (y ∷ ys) x e = ap (λ z. z ∷ ys) (some_eq e)
drop-get_elem? (suc i) (y ∷ ys) x e = drop-get_elem? i ys x e

module _ {H : Type 0} (codec : Codec H) (bs : List Chunk) where
  -- One run of the loop, from the index i: it stops at a lower one.
  record Ran (i : ℕ) (out : List (List ℕ) × ℕ × Bool) : Type 0 where
    lower : out.1 ≤ i
    ran : records_back codec (drop out.1 bs) ≡ records_back codec (drop (suc i) bs) ++ out.0
    stopped : out.2 ≡ (out.1 == 0)

  records_back-step :
      (i : ℕ) (c : Chunk)
      → get_elem? bs i ≡ some c
      → records_back codec (drop i bs)
        ≡ records_back codec (drop (suc i) bs) ++ write_chunk codec c ∷ []
  records_back-step i c e =
      ap (records_back codec) (drop-get_elem? i bs c e)
      ∙ ap (map (write_chunk codec)) (reverse-cons c (drop (suc i) bs))
      ∙ map-append (write_chunk codec) (reverse (drop (suc i) bs)) (c ∷ [])

  -- The loop at an index above 0.
  read_from-suc :
      (accepts : ℕ → Bool) (size wlen i : ℕ) (c : Chunk)
      → get_elem? bs (suc i) ≡ some c
      → let r = write_chunk codec c in
        let rest = read_from codec accepts size bs (suc i) (wlen + length r) in
        read_from codec accepts size bs (suc (suc i)) wlen ≡ (
          if not (accepts (suc i)) || ltb size (wlen + length r)
          then (r ∷ [], suc i, false)
          else (r ∷ rest.0, rest.1, rest.2))
  unfolding read_from
  read_from-suc accepts size wlen i c e =
      let more : (suc i == 0) ≡ false = ground arith in rw (e, read_from) (rw more refl)

  read_from-Ran :
      (accepts : ℕ → Bool) (size wlen i : ℕ)
      → i < length bs
      → Ran i (read_from codec accepts size bs (suc i) wlen)
  read_from-Ran accepts size wlen zero h =
      let (c, e) = get_elem?-some bs 0 h in
      unfold read_from in
      rw (e, read_from)
        (record { lower = omega arith; ran = records_back-step 0 c e; stopped = refl })
  read_from-Ran accepts size wlen (suc i) h =
      let (c, e) = get_elem?-some bs (suc i) h in
      let wlen' = wlen + length (write_chunk codec c) in
      let rest = read_from codec accepts size bs (suc i) wlen' in
      let ih = read_from-Ran accepts size wlen' i (omega arith) in
      rw (read_from-suc accepts size wlen i c e)
        (elim (Bool-cases (not (accepts (suc i)) || ltb size wlen')) [
          | inl stop ↦ rw stop (record {
            lower = omega arith;
            ran = records_back-step (suc i) c e;
            stopped = ground arith;
          })
          | inr on ↦ rw on (record {
            lower = omega (arith, ih.lower);
            ran =
                ih.ran
                ∙ ap (λ rs. rs ++ rest.0) (records_back-step (suc i) c e)
                ∙ append_assoc (records_back codec (drop (suc (suc i)) bs))
                    (write_chunk codec c ∷ []) _;
            stopped = ih.stopped;
          })
        ])

  -- One call of `_read` with n chunks left, the last of which may be none.
  record Called (n : ℕ) (ended : Bool) (out : List (List ℕ) × ℕ × Bool) : Type 0 where
    fewer : out.1 ≤ n - 1
    called : records_back codec (drop out.1 bs) ≡ records_back codec (drop n bs) ++ out.0
    closing : (ended || out.2) ≡ (out.1 == 0)

  read_from-Called :
      (accepts : ℕ → Bool) (size n : ℕ) (ended : Bool) (buf : List Chunk)
      → buf ≡ bs
      → n ≤ length bs
      → ended ≡ (n == 0)
      → Called n ended (read_from codec accepts size buf n 0)
  unfolding read_from
  read_from-Called accepts size zero ended buf whole h e = record {
    fewer = omega arith;
    called = sym (append-nil _);
    closing = rw e;
  }
  read_from-Called accepts size (suc i) ended buf whole h e =
      let r = read_from-Ran accepts size 0 i (omega arith) in
      let unended : ended ≡ false = ground arith in
      subst (λ b. Called (suc i) ended (read_from codec accepts size b (suc i) 0)) (sym whole)
        (record { fewer = omega (arith, r.lower); called = r.ran; closing = rw unended r.stopped })

  read-IsWriting :
      (front : List (List ℕ)) (accepts : ℕ → Bool) (size : ℕ) (w : RewindWriter)
      → IsWriting codec bs front w
      → IsWriting codec bs front (read codec accepts size w)
        × ((read codec accepts size w).left ≤ w.left - 1)
  unfolding read
  read-IsWriting front accepts size w v =
      let out = read_from codec accepts size w.buf w.left 0 in
      let r = read_from-Called accepts size w.left w.ended w.buf v.whole v.inside v.ending in
      (
        record {
          whole = v.whole;
          inside = omega (arith, v.inside, r.fewer);
          written =
              ap (λ p. p ++ out.0) v.written
              ∙ append_assoc front (records_back codec (drop w.left bs)) out.0
              ∙ ap (λ rs. front ++ rs) (sym r.called);
          ending = r.closing;
        },
        r.fewer,
      )

  pub read_all-IsWriting :
      (front : List (List ℕ)) (calls : List (ℕ × (ℕ → Bool))) (w : RewindWriter)
      → IsWriting codec bs front w
      → IsWriting codec bs front (read_all codec calls w)
        × ((read_all codec calls w).left ≤ w.left - length calls)
  read_all-IsWriting front [] w v = (v, omega arith)
  read_all-IsWriting front (call ∷ calls) w v =
      let (v', fewer) = read-IsWriting front call.1 call.0 w v in
      let (v'', still) = read_all-IsWriting front calls (read codec call.1 call.0 w) v' in
      (v'', omega (arith, fewer, still))
