-- ===== src/Aac/Parser.antt =====
-- js/src/streammachine/parsers/aac.js, the function that `strtok.parse` calls with each token: it
-- gives the number of bytes that it wants next. "debug" events and the "end" that follows the last
-- write are not modelled.
pub mod Framing
pub mod Resync
pub mod Starting
use stream_machine.Prelude.Lists.{length}
use stream_machine.Prelude.Tests.{◌==◌, if◌then◌else◌}
use stream_machine.Prelude.{
  ◌%◌, ◌&&◌, ◌++◌, ◌-◌, ◌/◌, Bool, List, Option, [], false, none, not, some, true, ℕ, ◌∷◌,
}
use stream_machine.Mp3.Parser.{id3v2_length, is_none}
use stream_machine.Aac.Header.{Header, parse_frame}

-- `frame_size` is `none` for -1. Buffers that are null are empty lists.
pub record Aac : Type 0 where
  pub frame_size : Option ℕ
  pub beginning : Bool
  pub got_ff : Bool
  pub byte_two : Option ℕ
  pub is_crc : Bool
  pub got_id3 : ℕ
  pub frame_header : Option Header
  pub frame_header_buf : List ℕ
  pub parsing_id3v2 : Bool
  pub finishing_id3v2 : Bool
  pub id3v2_1 : List ℕ
  pub id3v2_2 : List ℕ

pub data Event : Type 0 where
  header : Header → Event
  frame : List ℕ → Option Header → Event
  id3v2 : List ℕ → Event

unfoldable pub new_parser : Aac
new_parser = record {
  frame_size = none;
  beginning = true;
  got_ff = false;
  byte_two = none;
  is_crc = false;
  got_id3 = 0;
  frame_header = none;
  frame_header_buf = [];
  parsing_id3v2 = false;
  finishing_id3v2 = false;
  id3v2_1 = [];
  id3v2_2 = [];
}

-- What a token leads to: the new state, the events and the length of the next token.
abbrev pub Reaction : Type 0
Reaction = Aac × List Event × ℕ

-- The rest of the header of an ID3v2 tag, after four bytes.
header_id3v2 : Aac → List ℕ → Reaction
header_id3v2 p v =
    (record p { parsing_id3v2 = false; finishing_id3v2 = true; id3v2_2 = v }, [], id3v2_length v)

finish_id3v2 : Aac → List ℕ → Reaction
finish_id3v2 p v =
    (record p { finishing_id3v2 = false }, id3v2 (p.id3v2_1 ++ p.id3v2_2 ++ v) ∷ [], 1)

-- v.toString("ascii", 0, 3) is "ID3"; ascii drops the highest bit of a byte.
is_id3 : List ℕ → Bool
is_id3 (x ∷ y ∷ z ∷ rest) = (x % 128 == 73) && (y % 128 == 68) && (z % 128 == 51)
is_id3 v = false

-- How many bytes of the frame follow a header of the given length. For a frame of 1 byte ("Invalid
-- frame header") one more is wanted, and for one that is shorter than its header the code wants
-- a negative number, which is 0 here.
pub body_length : ℕ → ℕ → ℕ
body_length size taken = if size == 1 then 1 else size - taken

-- The token after a frame.
next_header : Aac → List ℕ → Reaction
unfolding is_id3 body_length
next_header p v =
    if is_id3 v
    then (record p { parsing_id3v2 = true; id3v2_1 = v }, [], 6)
    else elim (parse_frame v) [
      | none ↦ (record p { frame_header = none }, [], 1)
      | some h ↦ (
        record p { frame_header = some h; frame_header_buf = v; frame_size = some h.frame_length },
        header h ∷ [],
        body_length h.frame_length (length v),
      )
    ]

-- Two bytes of a header were found in the search for one, and this is the rest.
try_header : Aac → ℕ → List ℕ → Reaction
unfolding body_length
try_header p b v =
    let buf = 255 ∷ b ∷ v in
    let p' = record p { got_ff = false; byte_two = none } in
    elim (parse_frame buf) [
      | none ↦ (p', [], 1)
      | some h ↦ (
        record p' {
          beginning = false;
          frame_header = some h;
          frame_header_buf = buf;
          frame_size = some h.frame_length;
          is_crc = h.crc;
        },
        header h ∷ [],
        body_length h.frame_length (length buf),
      )
    ]

-- A byte in the search for a header or a tag.
search : Aac → ℕ → Reaction
search p b =
    if b == 255
    then (record p { got_ff = true }, [], 1)
    else if b == 73
    then (record p { got_id3 = 1 }, [], 1)
    else if (p.got_id3 == 1) && (b == 68)
    then (record p { got_id3 = 2 }, [], 1)
    else if (p.got_id3 == 2) && (b == 51)
    then (record p { got_id3 = 3 }, [], 1)
    else if p.got_id3 == 3
    then (record p { id3v2_1 = 73 ∷ 68 ∷ 51 ∷ b ∷ []; parsing_id3v2 = true; got_id3 = 0 }, [], 6)
    else (p, [], 1)

-- The body of a frame, whose header is known.
frame_of : List ℕ → Option Header → List ℕ → List Event
frame_of [] h v = []
frame_of (b ∷ bs) h v = frame (b ∷ bs ++ v) h ∷ []

finish_frame : Aac → List ℕ → Reaction
unfolding frame_of
finish_frame p v = (
  record p { frame_size = none },
  frame_of p.frame_header_buf p.frame_header v,
  if p.is_crc then 9 else 7,
)

head_or_zero : List ℕ → ℕ
head_or_zero [] = 0
head_or_zero (b ∷ bs) = b

search_or_finish : Aac → List ℕ → Reaction
unfolding search finish_frame head_or_zero
search_or_finish p v =
    if is_none p.frame_size && not p.got_ff then search p (head_or_zero v) else finish_frame p v

-- After 0xFF: the sync goes on, and the layer is 0, or the search goes on with this byte. A byte
-- of another layer is remembered all the same.
second_byte : Aac → List ℕ → Reaction
unfolding search_or_finish head_or_zero
second_byte p v =
    let b = head_or_zero v in
    if not (b / 16 == 15)
    then search_or_finish (record p { got_ff = false }) v
    else if b / 2 % 4 == 0
    then (record p { byte_two = some b }, [], if b % 2 == 1 then 5 else 7)
    else search_or_finish (record p { byte_two = some b; got_ff = false }) v

-- A token, when no tag is being read.
audio_token : Aac → List ℕ → Reaction
unfolding next_header try_header second_byte search_or_finish
audio_token p v =
    if is_none p.frame_size && not (is_none p.frame_header)
    then next_header p v
    else if p.got_ff
    then elim p.byte_two [ none ↦ second_byte p v | some b ↦ try_header p b v ]
    else search_or_finish p v

-- The function that takes the tokens.
unfoldable pub token : Aac → List ℕ → Reaction
unfolding header_id3v2 finish_id3v2 audio_token
token p v =
    if p.parsing_id3v2
    then header_id3v2 p v
    else if p.finishing_id3v2
    then finish_id3v2 p v
    else audio_token p v
