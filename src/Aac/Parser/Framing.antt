-- ===== src/Aac/Parser/Framing.antt =====
-- A stream of whole AAC frames is cut into these frames.
use stream_machine.Aac.Header.{Header, parse_frame}
use stream_machine.Prelude.Lists.{length}
use stream_machine.Mp3.Parser.{is_none}
use stream_machine.Prelude.Tests.{if◌then◌else◌, ◌==◌, Bool-cases}
use stream_machine.Aac.Parser.{
  Aac, Event, audio_token, body_length, finish_frame, frame, header, next_header, search_or_finish,
  token, is_id3,
}
use stream_machine.Prelude.{
  ◌+◌, ◌++◌, ◌/◌, Bool, List, [], false, none, some, ℕ, ◌∷◌, ◌≡◌, ◌&&◌, ◌-◌, ap, arith, inl, inr,
  refl, true,
}
use stream_machine.Strtok.{IsRun, cons-IsRun, done-IsRun}

pub record Frame : Type 0 where
  pub head : List ℕ
  pub body : List ℕ
  pub decoded : Header

abbrev pub head_length : Bool → ℕ
head_length crc = if crc then 9 else 7

-- A header that decodes, of 7 bytes or, with a CRC, of 9, and as many bytes as it says.
pub record IsFrame (crc : Bool) (x : Frame) : Type 0 where
  pub decodes : parse_frame x.head ≡ some x.decoded
  pub crc_flag : x.decoded.crc ≡ crc
  pub head_size : length x.head ≡ head_length crc
  pub size : x.decoded.frame_length ≡ length x.head + length x.body

abbrev pub AreFrames : Bool → List Frame → Type 0
AreFrames crc [] = Unit {0}
AreFrames crc (x ∷ xs) = IsFrame crc x × AreFrames crc xs

abbrev pub tokens_of : List Frame → List (List ℕ)
tokens_of [] = []
tokens_of (x ∷ xs) = x.head ∷ x.body ∷ tokens_of xs

abbrev pub events_for : List Frame → List Event
events_for [] = []
events_for (x ∷ xs) = header x.decoded ∷ frame (x.head ++ x.body) (some x.decoded) ∷ events_for xs

-- Between two frames.
pub record IsReady (crc : Bool) (p : Aac) : Type 0 where
  pub no_id3v2 : p.parsing_id3v2 ≡ false
  pub no_rest : p.finishing_id3v2 ≡ false
  pub no_frame : p.frame_size ≡ none
  pub synced : is_none p.frame_header ≡ false
  pub no_ff : p.got_ff ≡ false
  pub crc_known : p.is_crc ≡ crc

-- Bytes that decode begin with 0xFFF.
pub parse_frame-sync :
    (v : List ℕ) (h : Header)
    → parse_frame v ≡ some h
    → (b : ℕ) × (xs : List ℕ) × (v ≡ 255 ∷ b ∷ xs) × (b / 16 ≡ 15)
unfolding parse_frame
parse_frame-sync [] h e = cc
parse_frame-sync (a ∷ []) h e = cc
parse_frame-sync (a ∷ b ∷ []) h e = cc
parse_frame-sync (a ∷ b ∷ c ∷ []) h e = cc
parse_frame-sync (a ∷ b ∷ c ∷ d ∷ []) h e = cc
parse_frame-sync (a ∷ b ∷ c ∷ d ∷ f ∷ []) h e = cc
parse_frame-sync (a ∷ b ∷ c ∷ d ∷ f ∷ g ∷ []) h e = cc
parse_frame-sync (a ∷ b ∷ c ∷ d ∷ f ∷ g ∷ k ∷ rest) h e =
    elim (Bool-cases ((a == 255) && (b / 16 == 15))) [
      | inl starts ↦
          let ff : a ≡ 255 = ground arith in
          (b, c ∷ d ∷ f ∷ g ∷ k ∷ rest, ap (λ n. n ∷ b ∷ c ∷ d ∷ f ∷ g ∷ k ∷ rest) ff, ground arith)
      | inr other ↦ absurd (let bad = rw other at e in cc)
    ]

is_id3-ff : (xs : List ℕ) → is_id3 (255 ∷ xs) ≡ false
unfolding is_id3
is_id3-ff [] = refl
is_id3-ff (x ∷ []) = refl
is_id3-ff (x ∷ y ∷ rest) = refl

-- The state with a header taken.
abbrev with_header : Aac → Frame → Aac
with_header p x = record p {
  frame_header = some x.decoded;
  frame_header_buf = x.head;
  frame_size = some x.decoded.frame_length;
}

pub body_length-lem :
    (crc : Bool) (x : Frame)
    → IsFrame crc x
    → body_length x.decoded.frame_length (length x.head) ≡ length x.body
unfolding body_length
body_length-lem crc x f =
    let whole : (x.decoded.frame_length == 1) ≡ false = rw (f.size, f.head_size) (two crc) in
    let rest : x.decoded.frame_length - length x.head ≡ length x.body = omega (arith, f.size) in
    rw (whole, rest) refl
  where
    two : (crc : Bool) → (head_length crc + length x.body == 1) ≡ false
    two true = ground arith
    two false = ground arith

token-head :
    (crc : Bool) (p : Aac) (x : Frame)
    → IsReady crc p
    → IsFrame crc x
    → token p x.head ≡ (with_header p x, header x.decoded ∷ [], length x.body)
unfolding token audio_token next_header is_none
token-head crc p x r f =
    let (b, xs, ff, sync) = parse_frame-sync x.head x.decoded f.decodes in
    let no_id3 : is_id3 x.head ≡ false = rw ff (is_id3-ff (b ∷ xs)) in
    simp (
      r.no_id3v2,
      r.no_rest,
      r.no_frame,
      r.synced,
      no_id3,
      f.decodes,
      next_header,
      body_length-lem crc x f,
    )

token-body :
    (crc : Bool) (p : Aac) (x : Frame)
    → IsReady crc p
    → IsFrame crc x
    → token (with_header p x) x.body ≡ (
      record (with_header p x) { frame_size = none },
      frame (x.head ++ x.body) (some x.decoded) ∷ [],
      head_length crc,
    )
unfolding token audio_token search_or_finish finish_frame is_none
token-body crc p x r f =
    let (b, xs, ff, sync) = parse_frame-sync x.head x.decoded f.decodes in
    rw (r.no_id3v2, r.no_rest, r.no_ff, r.crc_known, ff) refl

next-IsReady :
    (crc : Bool) (p : Aac) (x : Frame)
    → IsReady crc p
    → IsReady crc (record (with_header p x) { frame_size = none })
next-IsReady crc p x r = record {
  no_id3v2 = r.no_id3v2;
  no_rest = r.no_rest;
  no_frame = refl;
  synced = unfold is_none in refl;
  no_ff = r.no_ff;
  crc_known = r.crc_known;
}

-- Between two frames, whole frames give their events in order; the parser wants exactly the tokens
-- that the frames consist of, and is again between two frames.
pub frames-IsRun :
    (crc : Bool) (xs : List Frame) (p : Aac)
    → IsReady crc p
    → AreFrames crc xs
    → (q : Aac) × IsRun token p (head_length crc) (tokens_of xs) q (events_for xs) (head_length crc)
      × IsReady crc q
frames-IsRun crc [] p ready all = (p, done-IsRun token p (head_length crc), ready)
frames-IsRun crc (x ∷ xs) p ready (f, all) =
    let p' = record (with_header p x) { frame_size = none } in
    let (q, runs, ready') = frames-IsRun crc xs p' (next-IsReady crc p x ready) all in
    let body =
      cons-IsRun token (with_header p x) q (length x.body) x.body (tokens_of xs) (events_for xs) _
        (token-body crc p x ready f) refl runs in
    (
      q,
      cons-IsRun token p q (head_length crc) x.head (x.body ∷ tokens_of xs) _ _
          (token-head crc p x ready f) f.head_size body,
      ready',
    )
