-- ===== src/Mp3/Parser/Framing.antt =====
-- A stream of whole frames is cut into these frames.
use stream_machine.SourceMount.{run}
use stream_machine.Prelude.Tests.{◌==◌, Bool-cases, leb}
use stream_machine.Prelude.Lists.{length, take}
use stream_machine.Mp3.Header.{Header, parse_frame}
use stream_machine.Mp3.Parser.{
  Event, Mp3, frame, has_tag, header, is_none, audio_token, finish_frame, next_header,
  search_or_finish, take_header, token, AreServed, new_parser, tokens, head_or_zero, search,
  second_byte, try_header, Reaction, header_behind,
}
use stream_machine.Prelude.{
  ◌+◌, ◌++◌, ◌<◌, List, [], false, none, refl, some, ℕ, ◌∷◌, ◌≡◌, ◌&&◌, ◌/◌, ap, arith, inl, inr,
  ◌-◌, true, subst, ◌∙◌,
}

pub record Frame : Type 0 where
  pub head : List ℕ
  pub body : List ℕ
  pub decoded : Header

-- A header that decodes, and as many bytes as it says; a size of 1 is not a frame's.
pub record IsFrame (x : Frame) : Type 0 where
  pub decodes : parse_frame x.head ≡ some x.decoded
  pub four : length x.head ≡ 4
  pub size : x.decoded.frame_size ≡ 4 + length x.body

abbrev pub AreFrames : List Frame → Type 0
AreFrames [] = Unit
AreFrames (x ∷ xs) = IsFrame x × AreFrames xs

abbrev pub tokens_of : List Frame → List (List ℕ)
tokens_of [] = []
tokens_of (x ∷ xs) = x.head ∷ x.body ∷ tokens_of xs

-- The events of frames that come behind another.
abbrev pub events_for : List Frame → List Event
events_for [] = []
events_for (x ∷ xs) =
    header_behind x.head x.decoded ∷ frame (x.head ++ x.body) x.decoded ∷ events_for xs

-- Between two frames.
pub record IsReady (p : Mp3) : Type 0 where
  pub no_id3v1 : p.parsing_id3v1 ≡ false
  pub no_id3v2 : p.parsing_id3v2 ≡ false
  pub no_rest : p.finishing_id3v2 ≡ false
  pub no_frame : p.frame_size ≡ none
  pub synced : is_none p.frame_header ≡ false
  pub no_ff : p.got_ff ≡ false

-- Bytes that decode begin with 0xFF, and so with no tag.
pub parse_frame-ff :
    (v : List ℕ) (h : Header) → parse_frame v ≡ some h → (xs : List ℕ) × (v ≡ 255 ∷ xs)
unfolding parse_frame
parse_frame-ff [] h e = cc
parse_frame-ff (x ∷ []) h e = cc
parse_frame-ff (x ∷ y ∷ []) h e = cc
parse_frame-ff (x ∷ y ∷ z ∷ []) h e = cc
parse_frame-ff (x ∷ y ∷ z ∷ w ∷ rest) h e = elim (Bool-cases (x == 255 && leb 14 (y / 16))) [
  | inl starts ↦
      let ff : x ≡ 255 = ground arith in (y ∷ z ∷ w ∷ rest, ap (λ n. n ∷ y ∷ z ∷ w ∷ rest) ff)
  | inr other ↦ absurd (let bad = rw other at e in cc)
]

has_tag-ff : (a b c : ℕ) (xs : List ℕ) → a < 127 → has_tag a b c (255 ∷ xs) ≡ false
unfolding has_tag
has_tag-ff a b c [] h = refl
has_tag-ff a b c (x ∷ []) h = refl
has_tag-ff a b c (x ∷ y ∷ rest) h = let other : (127 == a) ≡ false = ground arith in rw other refl

-- The state with a header taken.
abbrev with_header : Mp3 → Frame → Mp3
with_header p x = record p {
  frame_header = some x.decoded;
  frame_header_buf = x.head;
  frame_size = some x.decoded.frame_size;
}

token-head :
    (p : Mp3) (x : Frame)
    → IsReady p
    → IsFrame x
    → token p x.head ≡ (with_header p x, header_behind x.head x.decoded ∷ [], length x.body)
unfolding token audio_token next_header take_header
token-head p x r f =
    let (xs, ff) = parse_frame-ff x.head x.decoded f.decodes in
    let no_id3 : has_tag 73 68 51 x.head ≡ false = rw ff (has_tag-ff 73 68 51 xs (omega arith)) in
    let no_tag : has_tag 84 65 71 x.head ≡ false = rw ff (has_tag-ff 84 65 71 xs (omega arith)) in
    let valid : (x.decoded.frame_size == 1) ≡ false = rw f.size (ground arith) in
    let left : x.decoded.frame_size - 4 ≡ length x.body = rw f.size (omega arith) in
    simp (
      r.no_id3v1, r.no_id3v2, r.no_rest, r.no_frame, r.synced, no_id3, no_tag, f.decodes,
      next_header, valid, left,
    )

token-body :
    (p : Mp3) (x : Frame)
    → IsReady p
    → IsFrame x
    → token (with_header p x) x.body
      ≡ (record (with_header p x) { frame_size = none }, frame (x.head ++ x.body) x.decoded ∷ [], 4)
unfolding token audio_token search_or_finish finish_frame
token-body p x r f =
    let (xs, ff) = parse_frame-ff x.head x.decoded f.decodes in
    rw (r.no_id3v1, r.no_id3v2, r.no_rest, r.no_ff, ff) refl

next-IsReady :
    (p : Mp3) (x : Frame) → IsReady p → IsReady (record (with_header p x) { frame_size = none })
next-IsReady p x r = record {
  no_id3v1 = r.no_id3v1;
  no_id3v2 = r.no_id3v2;
  no_rest = r.no_rest;
  no_frame = refl;
  synced = unfold is_none in refl;
  no_ff = r.no_ff;
}

-- What the parser makes of the tokens, each of which has the length it wants.
abbrev pub IsRun : Mp3 → ℕ → List (List ℕ) → Mp3 → List Event → ℕ → Type 0
IsRun p want vs q es n = (tokens p want vs ≡ (q, es, n)) × AreServed p want vs

pub cons-IsRun_from :
    {n : ℕ} (p q : Mp3) (want : ℕ) (v : List ℕ) (vs : List (List ℕ)) (es : List Event)
    (r : Reaction)
    → token p v ≡ r
    → length v ≡ want
    → IsRun r.0 r.2 vs q es n
    → IsRun p want (v ∷ vs) q (r.1 ++ es) n
unfolding tokens
cons-IsRun_from {n = n} p q want v vs es r e l =
    subst (λ r. IsRun r.0 r.2 vs q es n → IsRun p want (v ∷ vs) q (r.1 ++ es) n) e
      (λ (run, served). (ap (λ t. (t.0, (token p v).1 ++ t.1, t.2)) run, (l, served)))

pub done-IsRun : (p : Mp3) (n : ℕ) → IsRun p n [] p [] n
unfolding tokens
done-IsRun p n = (refl, tt)

-- Between two frames, whole frames give their events in order; the parser wants exactly the tokens
-- that the frames consist of, and is again between two frames.
pub tokens-frames :
    (xs : List Frame) (p : Mp3)
    → IsReady p
    → AreFrames xs
    → (q : Mp3) × (tokens p 4 (tokens_of xs) ≡ (q, events_for xs, 4))
      × AreServed p 4 (tokens_of xs)
      × IsReady q
tokens-frames [] p ready all = (p, unfold tokens in refl, tt, ready)
tokens-frames (x ∷ xs) p ready (f, all) =
    let p' = record (with_header p x) { frame_size = none } in
    let (q, run, served, ready') = tokens-frames xs p' (next-IsReady p x ready) all in
    let body =
      cons-IsRun_from (with_header p x) q (length x.body) x.body (tokens_of xs) (events_for xs) _
        (token-body p x ready f) refl (run, served) in
    let head =
      cons-IsRun_from p q 4 x.head (x.body ∷ tokens_of xs) _ _ (token-head p x ready f) f.four
        body in
    (q, head.0, head.1, ready')

second_byte-starts :
    (b c d : ℕ) (h : Header) → parse_frame (255 ∷ b ∷ c ∷ d ∷ []) ≡ some h → leb 14 (b / 16) ≡ true
unfolding parse_frame
second_byte-starts b c d h e = elim (Bool-cases (leb 14 (b / 16))) [
  | inl starts ↦ starts
  | inr other ↦ absurd (let bad = rw other at e in cc)
]

abbrev started : Mp3
started = record new_parser { got_ff = true }

first_byte : token new_parser (255 ∷ []) ≡ (started, [], 1)
unfolding token new_parser audio_token search_or_finish search is_none head_or_zero
first_byte = refl

starting_byte :
    (x : Frame) (b c d : ℕ)
    → x.head ≡ 255 ∷ b ∷ c ∷ d ∷ []
    → IsFrame x
    → token started (b ∷ []) ≡ (record started { byte_two = some b }, [], 2)
unfolding token new_parser audio_token second_byte is_none head_or_zero
starting_byte x b c d e f =
    let starts = second_byte-starts b c d x.decoded (rw e at f.decodes) in rw starts refl

try_header-decodes :
    (p : Mp3) (b : ℕ) (v : List ℕ) (h : Header)
    → parse_frame (255 ∷ b ∷ take 2 v) ≡ some h
    → try_header p b v
      ≡ take_header (record p { got_ff = false; byte_two = none }) (255 ∷ b ∷ take 2 v) h (header h)
unfolding try_header
try_header-decodes p b v h e = rw (e, try_header) refl

starting_header :
    (x : Frame) (b c d : ℕ)
    → x.head ≡ 255 ∷ b ∷ c ∷ d ∷ []
    → IsFrame x
    → token (record started { byte_two = some b }) (c ∷ d ∷ [])
      ≡ (with_header new_parser x, header x.decoded ∷ [], length x.body)
unfolding token new_parser audio_token try_header take_header is_none
starting_header x b c d e f =
    let decodes : parse_frame (255 ∷ b ∷ c ∷ d ∷ []) ≡ some x.decoded = rw e at f.decodes in
    let valid : (x.decoded.frame_size == 1) ≡ false = rw f.size (ground arith) in
    let left : x.decoded.frame_size - 4 ≡ length x.body = rw f.size (omega arith) in
    let reached : token (record started { byte_two = some b }) (c ∷ d ∷ [])
        ≡ take_header new_parser (255 ∷ b ∷ c ∷ d ∷ []) x.decoded (header x.decoded) =
      try_header-decodes (record started { byte_two = some b }) b (c ∷ d ∷ []) x.decoded decodes in
    reached ∙ (rw (valid, left, e) refl)

starting_body :
    (x : Frame) (b c d : ℕ)
    → x.head ≡ 255 ∷ b ∷ c ∷ d ∷ []
    → token (with_header new_parser x) x.body ≡ (
      record (with_header new_parser x) { frame_size = none },
      frame (x.head ++ x.body) x.decoded ∷ [],
      4,
    )
unfolding token new_parser audio_token search_or_finish finish_frame is_none
starting_body x b c d e = rw e refl

new_parser-IsReady : (x : Frame) → IsReady (record (with_header new_parser x) { frame_size = none })
unfolding new_parser is_none
new_parser-IsReady x = record {
  no_id3v1 = refl;
  no_id3v2 = refl;
  no_rest = refl;
  no_frame = refl;
  synced = refl;
  no_ff = refl;
}

-- From a stream that begins with a frame and consists of whole frames (headers that decode, each
-- followed by the bytes that its size says), a new parser emits exactly the headers and the frames,
-- in order, and wants exactly the tokens that it is given. The event of each header but the first has
-- the header's bytes as its first argument.
pub stream-frames :
    (x : Frame) (xs : List Frame) (b c d : ℕ)
    → x.head ≡ 255 ∷ b ∷ c ∷ d ∷ []
    → AreFrames (x ∷ xs)
    → let vs = (255 ∷ []) ∷ (b ∷ []) ∷ (c ∷ d ∷ []) ∷ x.body ∷ tokens_of xs in
      ((tokens new_parser 1 vs).1
        ≡ header x.decoded ∷ frame (x.head ++ x.body) x.decoded ∷ events_for xs)
      × AreServed new_parser 1 vs
stream-frames x xs b c d e (f, all) =
    let p' = record (with_header new_parser x) { frame_size = none } in
    let (q, run, served, ready) = tokens-frames xs p' (new_parser-IsReady x) all in
    let body =
      cons-IsRun_from (with_header new_parser x) q (length x.body) x.body (tokens_of xs)
        (events_for xs) _ (starting_body x b c d e) refl (run, served) in
    let head =
      cons-IsRun_from (record started { byte_two = some b }) q 2 (c ∷ d ∷ [])
        (x.body ∷ tokens_of xs) _ _ (starting_header x b c d e f) refl body in
    let second = cons-IsRun_from started q 1 (b ∷ []) _ _ _ (starting_byte x b c d e f) refl head in
    let first = cons-IsRun_from new_parser q 1 (255 ∷ []) _ _ _ first_byte refl second in
    (ap (λ t. t.1) first.0, first.1)
