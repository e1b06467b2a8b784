-- ===== src/Mp3/Tests.antt =====
-- Runs of the parser's definitions, and the theorems applied to them.
use stream_machine.Mp3.Header.Decoding.{byte1, byte2, byte3, fields_of-bytes}
use stream_machine.Mp3.Parser.Framing.{Frame, IsFrame, IsReady, events_for, stream-frames}
use stream_machine.Mp3.Header.{Fields, Header, fields_of, parse_frame, read_uint32}
use stream_machine.Mp3.Parser.{AreServed, Mp3, is_none, new_parser, tokens, frame, header}
use stream_machine.Prelude.{
  List, [], arith, false, none, refl, some, suc, true, zero, ℕ, ◌∷◌, ◌≡◌, ◌++◌,
}

abbrev small_fields : Fields
small_fields = record {
  mpeg_id = 2;
  layer_id = 1;
  crc16_used = false;
  bitrate_index = 1;
  sampling_rate_index = 1;
  padding = false;
  private_bit_set = false;
  mode = 3;
  mode_extension = 0;
  copyrighted = false;
  original = true;
  emphasis = 0;
}

-- MPEG 2, Layer III, 8 kbit/s, 24 kHz, mono.
abbrev small_header : Header
small_header = record {
  fields = small_fields;
  channels = 1;
  bitrate_kbps = 8;
  sampling_rate_hz = 24000;
  samples_per_frame = 576;
  bytes_per_slot = 1;
  frame_size = 24;
  frames_per_sec = record { num = 24000; den = 576 };
  stream_key = record { sampling_rate = 24000; bitrate = 8; stereo = false };
}

abbrev zeros : ℕ → List ℕ
zeros zero = []
zeros (suc n) = 0 ∷ zeros n

abbrev small_frame : Frame
small_frame = record { head = 255 ∷ 243 ∷ 20 ∷ 192 ∷ []; body = zeros 20; decoded = small_header }

small_frame-IsFrame : IsFrame small_frame
unfolding parse_frame
small_frame-IsFrame = record { decodes = refl; four = refl; size = refl }

-- 128 kbit/s at 44100 Hz, the usual frame, and what is no header.
usual_size : (h : Header) → parse_frame (255 ∷ 251 ∷ 144 ∷ 0 ∷ []) ≡ some h → h.frame_size ≡ 417
unfolding parse_frame
usual_size h e = cc

reserved_mpeg_id : parse_frame (255 ∷ 235 ∷ 144 ∷ 0 ∷ []) ≡ none
unfolding parse_frame
reserved_mpeg_id = refl

fields_of-bytes_example :
    fields_of (read_uint32 255 (byte1 small_fields) (byte2 small_fields) (byte3 small_fields))
    ≡ record small_fields { original = false }
fields_of-bytes_example = fields_of-bytes small_fields (record {
  mpeg = omega arith;
  layer = omega arith;
  bitrate = omega arith;
  rate = omega arith;
  mode = omega arith;
  extension = omega arith;
  emphasis = omega arith;
})

abbrev twice : List (List ℕ)
twice =
    (255 ∷ [])
    ∷ (243 ∷ [])
    ∷ (20 ∷ 192 ∷ [])
    ∷ zeros 20
    ∷ (255 ∷ 243 ∷ 20 ∷ 192 ∷ [])
    ∷ zeros 20
    ∷ []

stream-frames_example :
    ((tokens new_parser 1 twice).1
      ≡ header small_header
        ∷ frame (small_frame.head ++ small_frame.body) small_header
        ∷ events_for (small_frame ∷ []))
    × AreServed new_parser 1 twice
stream-frames_example =
    stream-frames small_frame (small_frame ∷ []) 243 20 192 refl
      (small_frame-IsFrame, (small_frame-IsFrame, tt))

abbrev synced_parser : Mp3
synced_parser = record {
  frame_size = none;
  got_ff = false;
  got_id3 = 0;
  byte_two = none;
  frame_header = some small_header;
  frame_header_buf = 255 ∷ 243 ∷ 20 ∷ 192 ∷ [];
  parsing_id3v1 = false;
  parsing_id3v2 = false;
  finishing_id3v2 = false;
  id3v2_1 = [];
  id3v2_2 = [];
  id3v1_1 = [];
}

synced_parser-IsReady : IsReady synced_parser
unfolding is_none
synced_parser-IsReady = record {
  no_id3v1 = refl;
  no_id3v2 = refl;
  no_rest = refl;
  no_frame = refl;
  synced = refl;
  no_ff = refl;
}
