-- ===== src/Mp3/Parser.antt =====
-- js/src/streammachine/parsers/mp3.js, the function that `strtok.parse` calls with each token: it
-- gives the number of bytes that it wants next, and is then called with that many. "debug" events
-- and the "end" that follows the last write are not modelled.
pub mod Framing
pub mod Resync
use stream_machine.Prelude.Lists.{drop, get_elem?, length, take}
use stream_machine.Mp3.Header.{Header, frame_size, parse_frame}
use stream_machine.Prelude.{
  ◌%◌, ◌&&◌, ◌*◌, ◌+◌, ◌++◌, ◌-◌, ◌/◌, Bool, List, Option, [], ◌^◌, false, none, not, some, suc,
  true, zero, ℕ, ◌∷◌, ◌≡◌,
}
use stream_machine.Prelude.Tests.{◌==◌, if◌then◌else◌, leb}

abbrev mpeg_header_length : ℕ
mpeg_header_length = 4

abbrev id3v2_header_length : ℕ
id3v2_header_length = 10

abbrev id3v1_length : ℕ
id3v1_length = 128

-- `frame_size` is `none` for -1. Buffers that are null are empty lists.
pub record Mp3 : Type 0 where
  pub frame_size : Option ℕ
  pub got_ff : Bool
  pub got_id3 : ℕ
  pub byte_two : Option ℕ
  pub frame_header : Option Header
  pub frame_header_buf : List ℕ
  pub parsing_id3v1 : Bool
  pub parsing_id3v2 : Bool
  pub finishing_id3v2 : Bool
  pub id3v2_1 : List ℕ
  pub id3v2_2 : List ℕ
  pub id3v1_1 : List ℕ

-- The tag at the end of a file, its strings as bytes.
pub record Id3v1 : Type 0 where
  pub title : List ℕ
  pub artist : List ℕ
  pub album : List ℕ
  pub year : List ℕ
  pub comment : List ℕ
  pub track : Option ℕ
  pub genre : Option ℕ

-- The event "header" of a header behind a frame has the header's bytes as its first argument, and the
-- header as its second; that of a header that was searched for has the header alone.
pub data Event : Type 0 where
  header : Header → Event
  header_behind : List ℕ → Header → Event
  frame : List ℕ → Header → Event
  id3v1 : Id3v1 → Event
  id3v2 : List ℕ → Event

pub new_parser : Mp3
new_parser = record {
  frame_size = none;
  got_ff = false;
  got_id3 = 0;
  byte_two = none;
  frame_header = none;
  frame_header_buf = [];
  parsing_id3v1 = false;
  parsing_id3v2 = false;
  finishing_id3v2 = false;
  id3v2_1 = [];
  id3v2_2 = [];
  id3v1_1 = [];
}

-- What a token leads to: the new state, the events and the length of the next token.
abbrev pub Reaction : Type 0
Reaction = Mp3 × List Event × ℕ

-- The bytes before the first 0.
strip_null : List ℕ → List ℕ
strip_null [] = []
strip_null (x ∷ xs) = let rest = strip_null xs in if x == 0 then [] else x ∷ rest

-- buf.slice(i, j)
between : ℕ → ℕ → List ℕ → List ℕ
between i j bytes = take (j - i) (drop i bytes)

is_zero_at : ℕ → List ℕ → Bool
is_zero_at n bytes = elim (get_elem? bytes n) [ none ↦ false | some b ↦ b == 0 ]

-- `parseId3V1`
pub parse_id3v1 : List ℕ → Id3v1
unfolding strip_null between is_zero_at
parse_id3v1 bytes = record {
  title = strip_null (between 3 33 bytes);
  artist = strip_null (between 33 63 bytes);
  album = strip_null (between 63 93 bytes);
  year = strip_null (between 93 97 bytes);
  comment =
      if is_zero_at 125 bytes
      then strip_null (between 97 125 bytes)
      else strip_null (between 97 127 bytes);
  track = if is_zero_at 125 bytes then get_elem? bytes 126 else none;
  genre = get_elem? bytes 127;
}

-- The length of an ID3v2 tag, seven bits from each of the last four of six bytes.
unfoldable pub id3v2_length : List ℕ → ℕ
id3v2_length (minor ∷ flags ∷ a ∷ b ∷ c ∷ d ∷ rest) =
    d % 128 + c % 128 * 2 ^ 7 + b % 128 * 2 ^ 14 + a % 128 * 2 ^ 21
id3v2_length bytes = 0

-- v.toString("ascii", 0, 3) is the tag; ascii drops the highest bit of a byte.
has_tag : ℕ → ℕ → ℕ → List ℕ → Bool
has_tag a b c (x ∷ y ∷ z ∷ rest) = (x % 128 == a) && (y % 128 == b) && (z % 128 == c)
has_tag a b c bytes = false

finish_id3v1 : Mp3 → List ℕ → Reaction
unfolding parse_id3v1
finish_id3v1 p v = (
  record p { id3v1_1 = []; parsing_id3v1 = false },
  id3v1 (parse_id3v1 (p.id3v1_1 ++ v)) ∷ [],
  mpeg_header_length,
)

header_id3v2 : Mp3 → List ℕ → Reaction
unfolding id3v2_length
header_id3v2 p v =
    (record p { parsing_id3v2 = false; finishing_id3v2 = true; id3v2_2 = v }, [], id3v2_length v)

finish_id3v2 : Mp3 → List ℕ → Reaction
finish_id3v2 p v =
    (record p { finishing_id3v2 = false }, id3v2 (p.id3v2_1 ++ p.id3v2_2 ++ v) ∷ [], 1)

-- A frame's header is known, and its body is wanted. For a size of 1 ("Invalid frame header") one
-- more byte is wanted, and for a size of 2 or 3 the code wants a negative number, which is 0 here.
take_header : Mp3 → List ℕ → Header → Event → Reaction
take_header p v h event = (
  record p { frame_header = some h; frame_header_buf = v; frame_size = some h.frame_size },
  event ∷ [],
  if h.frame_size == 1 then 1 else h.frame_size - mpeg_header_length,
)

-- The token after a frame.
next_header : Mp3 → List ℕ → Reaction
unfolding has_tag take_header
next_header p v =
    if has_tag 73 68 51 v
    then (
      record p { parsing_id3v2 = true; id3v2_1 = v },
      [],
      id3v2_header_length - mpeg_header_length,
    )
    else if has_tag 84 65 71 v
    then (record p { parsing_id3v1 = true; id3v1_1 = v }, [], id3v1_length - mpeg_header_length)
    else elim (parse_frame v) [
      | none ↦ (record p { frame_header = none }, [], 1)
      | some h ↦ take_header p v h (header_behind v h)
    ]

-- Two bytes of a header were found in the search for one, and these are the other two.
try_header : Mp3 → ℕ → List ℕ → Reaction
unfolding take_header
try_header p b v =
    let buf = 255 ∷ b ∷ take 2 v in
    let p' = record p { got_ff = false; byte_two = none } in
    elim (parse_frame buf) [ none ↦ (p', [], 1) | some h ↦ take_header p' buf h (header h) ]

-- A byte in the search for a header or a tag.
search : Mp3 → ℕ → Reaction
search p b =
    if b == 255
    then (record p { got_ff = true }, [], 1)
    else if b == 73
    then (record p { got_id3 = 1 }, [], 1)
    else if (p.got_id3 == 1) && (b == 68)
    then (record p { got_id3 = 2 }, [], 1)
    else if (p.got_id3 == 2) && (b == 51)
    then (record p { got_id3 = 3 }, [], 1)
    else if p.got_id3 == 3
    then (
      record p { id3v2_1 = 73 ∷ 68 ∷ 51 ∷ b ∷ []; parsing_id3v2 = true; got_id3 = 0 },
      [],
      id3v2_header_length - mpeg_header_length,
    )
    else (p, [], 1)

-- The body of a frame, whose header is known.
finish_frame : Mp3 → List ℕ → Reaction
finish_frame p v = (
  record p { frame_size = none },
  elim p.frame_header_buf [
    | [] ↦ []
    | b ∷ bs ↦ elim p.frame_header [ none ↦ [] | some h ↦ frame (b ∷ bs ++ v) h ∷ [] ]
  ],
  mpeg_header_length,
)

unfoldable pub is_none {ℓ} : {A : Type ℓ} → Option A → Bool
is_none none = true
is_none (some a) = false

head_or_zero : List ℕ → ℕ
head_or_zero [] = 0
head_or_zero (b ∷ bs) = b

search_or_finish : Mp3 → List ℕ → Reaction
unfolding search finish_frame is_none head_or_zero
search_or_finish p v =
    if is_none p.frame_size && not p.got_ff then search p (head_or_zero v) else finish_frame p v

-- After 0xFF.
second_byte : Mp3 → List ℕ → Reaction
unfolding search_or_finish head_or_zero
second_byte p v =
    if leb 14 (head_or_zero v / 16)
    then (record p { byte_two = some (head_or_zero v) }, [], 2)
    else search_or_finish (record p { got_ff = false }) v

-- A token, when no tag is being read.
audio_token : Mp3 → List ℕ → Reaction
unfolding next_header try_header second_byte search_or_finish is_none
audio_token p v =
    if is_none p.frame_size && not (is_none p.frame_header)
    then next_header p v
    else if p.got_ff
    then elim p.byte_two [ none ↦ second_byte p v | some b ↦ try_header p b v ]
    else search_or_finish p v

-- The function that takes the tokens.
pub token : Mp3 → List ℕ → Reaction
unfolding finish_id3v1 header_id3v2 finish_id3v2 audio_token
token p v =
    if p.parsing_id3v1
    then finish_id3v1 p v
    else if p.parsing_id3v2
    then header_id3v2 p v
    else if p.finishing_id3v2
    then finish_id3v2 p v
    else audio_token p v

-- Tokens one after the other: the state, the events, and the length wanted last.
pub tokens : Mp3 → ℕ → List (List ℕ) → Reaction
unfolding token
tokens p want [] = (p, [], want)
tokens p want (v ∷ vs) =
    let (p', events, want') = token p v in
    let (q, more, last_want) = tokens p' want' vs in (q, events ++ more, last_want)

-- Each token has the length that was wanted.
abbrev pub AreServed : Mp3 → ℕ → List (List ℕ) → Type 0
AreServed p want [] = Unit
AreServed p want (v ∷ vs) =
    let (p', events, want') = token p v in (length v ≡ want) × AreServed p' want' vs
