-- ===== src/Aac/Tests.antt =====
-- Runs of the AAC parser, and the theorems applied to them.
use stream_machine.Aac.Parser.Resync.{false_sync-loses_frame}
use stream_machine.Prelude.{[], arith, false, none, refl, some, ◌∷◌, ◌≡◌}
use stream_machine.Aac.Parser.Starting.{IsSearching, stream-adts_frames}
use stream_machine.Aac.Parser.Framing.{IsReady}
use stream_machine.Aac.Parser.{new_parser, token, Aac}
use stream_machine.Aac.Parser.Framing.{Frame, IsFrame, events_for}
use stream_machine.Aac.Header.{header_from, parse_frame, Header}
use stream_machine.Aac.Header.Decoding.{Adts, AreInRange, Reads, layout, parse_frame-layout}
use stream_machine.Strtok.{IsRun}

-- MPEG-4, AAC LC, 44100 Hz, stereo, 10 bytes.
abbrev small_adts : Adts
small_adts = record {
  id = 0;
  layer = 0;
  no_crc = 1;
  profile = 1;
  frequency_index = 4;
  private_bit = 0;
  channels = 2;
  flags = 0;
  length = 10;
  fullness = 2047;
  blocks = 0;
}

small_adts-AreInRange : AreInRange small_adts
small_adts-AreInRange = record {
  id = omega arith;
  layer = omega arith;
  no_crc = omega arith;
  profile = omega arith;
  frequency_index = omega arith;
  private_bit = omega arith;
  channels = omega arith;
  flags = omega arith;
  length = omega arith;
  fullness = omega arith;
  blocks = omega arith;
}

parse_frame-layout_example :
    (h : Header) × (parse_frame (layout small_adts) ≡ some h) × Reads small_adts h
parse_frame-layout_example = parse_frame-layout small_adts small_adts-AreInRange

abbrev small_frame : Frame
small_frame = record {
  head = 255 ∷ 241 ∷ 80 ∷ 128 ∷ 1 ∷ 95 ∷ 252 ∷ [];
  body = 1 ∷ 2 ∷ 3 ∷ [];
  decoded = header_from 241 80 128 1 95 252;
}

laid_out : layout small_adts ≡ small_frame.head
laid_out = refl

small_frame-IsFrame : IsFrame false small_frame
unfolding parse_frame header_from
small_frame-IsFrame = record { decodes = refl; crc_flag = refl; head_size = refl; size = refl }

new_parser-IsSearching : IsSearching new_parser
unfolding new_parser
new_parser-IsSearching = record {
  no_id3v2 = refl;
  no_rest = refl;
  no_frame = refl;
  unsynced = refl;
  no_ff = refl;
}

new_parser-fresh : (new_parser.byte_two ≡ none) × (new_parser.got_id3 ≡ 0)
unfolding new_parser
new_parser-fresh = (refl, refl)

stream-adts_frames_example :
    (q : Aac) × IsRun token new_parser 1
      ((255 ∷ [])
        ∷ (241 ∷ [])
        ∷ (80 ∷ 128 ∷ 1 ∷ 95 ∷ 252 ∷ [])
        ∷ small_frame.body
        ∷ small_frame.head
        ∷ small_frame.body
        ∷ [])
      q
      (events_for (small_frame ∷ small_frame ∷ []))
      7
    × IsReady false q
stream-adts_frames_example =
    stream-adts_frames false new_parser small_frame (small_frame ∷ []) 241
      (80 ∷ 128 ∷ 1 ∷ 95 ∷ 252 ∷ []) new_parser-IsSearching new_parser-fresh.0
      (small_frame-IsFrame, (small_frame-IsFrame, tt)) refl refl

false_sync-loses_frame_example :
    IsRun token new_parser 1
      ((255 ∷ []) ∷ (251 ∷ []) ∷ (255 ∷ []) ∷ (241 ∷ []) ∷ [])
      new_parser
      []
      1
false_sync-loses_frame_example =
    false_sync-loses_frame new_parser 251 241 new_parser-IsSearching new_parser-fresh.0
      new_parser-fresh.1 (omega arith) (omega arith) (omega arith)
