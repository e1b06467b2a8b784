-- ===== src/Aac/Parser/Starting.antt =====
-- An AAC parser that looks for the first frame.
use stream_machine.Aac.Header.{parse_frame, Header, header_from}
use stream_machine.Aac.Parser.Framing.{
  Frame, IsFrame, body_length-lem, parse_frame-sync, AreFrames, IsReady, events_for, frames-IsRun,
  tokens_of,
}
use stream_machine.Prelude.Lists.{length}
use stream_machine.Mp3.Parser.{is_none}
use stream_machine.Aac.Parser.Framing.{head_length}
use stream_machine.Aac.Parser.{
  Aac, audio_token, finish_frame, frame, head_or_zero, header, search, search_or_finish,
  second_byte, token, try_header, body_length,
}
use stream_machine.Prelude.Tests.{◌==◌, if◌then◌else◌, Bool-cases, some_eq}
use stream_machine.Prelude.{
  ◌%◌, ◌++◌, ◌/◌, Bool, List, [], false, none, some, true, ℕ, ◌∷◌, ◌≡◌, arith, refl, subst, ap, inl,
  inr, suc, sym, ◌∙◌,
}
use stream_machine.Strtok.{IsRun, cons-IsRun}

-- The parser that looks for a frame and has seen 0xFF.
abbrev pub after_ff : Aac → Aac
after_ff p = record p { got_ff = true }

-- The parser looks for a frame.
pub record IsSearching (p : Aac) : Type 0 where
  pub no_id3v2 : p.parsing_id3v2 ≡ false
  pub no_rest : p.finishing_id3v2 ≡ false
  pub no_frame : p.frame_size ≡ none
  pub unsynced : p.frame_header ≡ none
  pub no_ff : p.got_ff ≡ false

pub first_byte : (p : Aac) → IsSearching p → token p (255 ∷ []) ≡ (after_ff p, [], 1)
unfolding token audio_token search_or_finish search is_none head_or_zero
first_byte p r = simp (r.no_id3v2, r.no_rest, r.no_frame, r.unsynced, r.no_ff)

starting_byte :
    (p : Aac) (b : ℕ)
    → IsSearching p
    → p.byte_two ≡ none
    → b / 16 ≡ 15
    → b / 2 % 4 ≡ 0
    → token (after_ff p) (b ∷ [])
      ≡ (record (after_ff p) { byte_two = some b }, [], if b % 2 == 1 then 5 else 7)
unfolding token audio_token second_byte is_none head_or_zero
starting_byte p b r fresh sync layer =
    let is_f : (b / 16 == 15) ≡ true = ground arith in
    let no_layer : (b / 2 % 4 == 0) ≡ true = ground arith in
    simp (r.no_id3v2, r.no_rest, r.no_frame, r.unsynced, fresh, is_f, no_layer)

-- The state when the first header is complete.
abbrev found : Aac → Frame → Aac
found p x = record p {
  got_ff = false;
  byte_two = none;
  beginning = false;
  frame_header = some x.decoded;
  frame_header_buf = x.head;
  frame_size = some x.decoded.frame_length;
  is_crc = x.decoded.crc;
}

rest_of_head :
    (crc : Bool) (p : Aac) (x : Frame) (b : ℕ) (rest : List ℕ)
    → IsSearching p
    → IsFrame crc x
    → x.head ≡ 255 ∷ b ∷ rest
    → token (record (after_ff p) { byte_two = some b }) rest
      ≡ (found p x, header x.decoded ∷ [], length x.body)
unfolding token audio_token try_header is_none
rest_of_head crc p x b rest r f e =
    let dec : parse_frame (255 ∷ b ∷ rest) ≡ some x.decoded =
      subst (λ v. parse_frame v ≡ some x.decoded) e f.decodes in
    let left_over : body_length x.decoded.frame_length (length (255 ∷ b ∷ rest)) ≡ length x.body =
      subst (λ v. body_length x.decoded.frame_length (length v) ≡ length x.body) e
        (body_length-lem crc x f) in
    simp (r.no_id3v2, r.no_rest, r.no_frame, r.unsynced, try_header, dec, left_over, e)

-- The body of the first frame.
first_body :
    (crc : Bool) (p : Aac) (x : Frame)
    → IsSearching p
    → IsFrame crc x
    → token (found p x) x.body ≡ (
      record (found p x) { frame_size = none },
      frame (x.head ++ x.body) (some x.decoded) ∷ [],
      head_length crc,
    )
unfolding token audio_token search_or_finish finish_frame is_none
first_body crc p x r f =
    let (b, xs, ff, sync) = parse_frame-sync x.head x.decoded f.decodes in
    rw (r.no_id3v2, r.no_rest, f.crc_flag, ff) refl

parse_frame-crc :
    (b : ℕ) (rest : List ℕ) (h : Header)
    → parse_frame (255 ∷ b ∷ rest) ≡ some h
    → h.crc ≡ (b % 2 == 0)
unfolding parse_frame header_from
parse_frame-crc b [] h e = cc
parse_frame-crc b (c ∷ []) h e = cc
parse_frame-crc b (c ∷ d ∷ []) h e = cc
parse_frame-crc b (c ∷ d ∷ f ∷ []) h e = cc
parse_frame-crc b (c ∷ d ∷ f ∷ g ∷ []) h e = cc
parse_frame-crc b (c ∷ d ∷ f ∷ g ∷ k ∷ rest) h e = elim (Bool-cases (b / 16 == 15)) [
  | inl starts ↦ sym (ap (λ (h : Header). h.crc) (some_eq (rw starts at e)))
  | inr other ↦ absurd (let bad = rw other at e in cc)
]

sized :
    (crc : Bool) (n b : ℕ)
    → suc (suc n) ≡ head_length crc
    → crc ≡ (b % 2 == 0)
    → n ≡ (if b % 2 == 1 then 5 else 7)
sized true n b e k = ground arith
sized false n b e k = ground arith

-- How much of the header follows its second byte.
rest_length :
    (crc : Bool) (x : Frame) (b : ℕ) (rest : List ℕ)
    → IsFrame crc x
    → x.head ≡ 255 ∷ b ∷ rest
    → length rest ≡ (if b % 2 == 1 then 5 else 7)
rest_length crc x b rest f e =
    let flag =
      parse_frame-crc b rest x.decoded (subst (λ v. parse_frame v ≡ some x.decoded) e f.decodes) in
    let size : suc (suc (length rest)) ≡ head_length crc = ap length (sym e) ∙ f.head_size in
    let known : crc ≡ (b % 2 == 0) = sym f.crc_flag ∙ flag in sized crc (length rest) b size known

-- A parser that looks for a frame, and has found no second byte yet, gives exactly the frames of
-- a stream of whole frames of layer 0 that all have a CRC or all have none: it wants exactly the
-- tokens of which they consist, and gives a header and a frame for each, in order.
pub stream-adts_frames :
    (crc : Bool) (p : Aac) (x : Frame) (xs : List Frame) (b : ℕ) (rest : List ℕ)
    → IsSearching p
    → p.byte_two ≡ none
    → AreFrames crc (x ∷ xs)
    → x.head ≡ 255 ∷ b ∷ rest
    → b / 2 % 4 ≡ 0
    → (q : Aac) × IsRun token p 1
        ((255 ∷ []) ∷ (b ∷ []) ∷ rest ∷ x.body ∷ tokens_of xs)
        q
        (events_for (x ∷ xs))
        (head_length crc)
      × IsReady crc q
stream-adts_frames crc p x xs b rest r fresh (f, all) e layer =
    let (c, ys, ff, sync) = parse_frame-sync x.head x.decoded f.decodes in
    let both = sym ff ∙ e in
    let same : c ≡ b = cc in
    let ready : IsReady crc (record (found p x) { frame_size = none }) = record {
      no_id3v2 = r.no_id3v2;
      no_rest = r.no_rest;
      no_frame = refl;
      synced = unfold is_none in refl;
      no_ff = refl;
      crc_known = f.crc_flag;
    } in
    let (q, runs, ready') =
      frames-IsRun crc xs (record (found p x) { frame_size = none }) ready all in
    let body =
      cons-IsRun token (found p x) q (length x.body) x.body _ _ _ (first_body crc p x r f) refl
        runs in
    let third =
      cons-IsRun token _ q _ rest _ _ _ (rest_of_head crc p x b rest r f e)
        (rest_length crc x b rest f e) body in
    let second =
      cons-IsRun token (after_ff p) q 1 (b ∷ []) _ _ _
        (starting_byte p b r fresh (rw (sym same) sync) layer) refl third in
    (q, cons-IsRun token p q 1 (255 ∷ []) _ _ _ (first_byte p r) refl second, ready')
