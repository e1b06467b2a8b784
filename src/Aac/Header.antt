-- ===== src/Aac/Header.antt =====
-- js/src/streammachine/parsers/aac.js, `parseFrame`: the first seven bytes of a frame. `none` is
-- an assertion that fails. Entries that a table does not have are `none` too, as JavaScript has
-- `undefined`; what is computed from them is NaN, and `none` here.
pub mod Decoding
use stream_machine.Prelude.Lists.{get_elem?}
use stream_machine.Prelude.Tests.{◌==◌, if◌then◌else◌}
use stream_machine.Prelude.{
  ◌%◌, ◌&&◌, ◌*◌, ◌+◌, ◌/◌, Bool, List, Option, String, [], ◌^◌, none, some, ℕ, ◌∷◌,
}
use mathlib.Core.Option.{map as option_map}
use stream_machine.Mp3.Header.{Ratio}

pub data MpegType : Type 0 where
  mpeg2 mpeg4 : MpegType

abbrev pub profiles : List String
profiles =
    "Null" ∷ "AAC Main" ∷ "AAC LC" ∷ "AAC SSR" ∷ "AAC LTP" ∷ "SBR" ∷ "AAC Scalable" ∷ "TwinVQ" ∷ []

abbrev pub sample_frequencies : List ℕ
sample_frequencies =
    96000 ∷ 88200 ∷ 64000 ∷ 48000 ∷ 44100 ∷ 32000 ∷ 24000 ∷ 22050 ∷ 16000 ∷ 12000 ∷ 11025 ∷ 8000
    ∷ 7350 ∷ []

abbrev pub channel_counts : List ℕ
channel_counts = 0 ∷ 1 ∷ 2 ∷ 3 ∷ 4 ∷ 5 ∷ 6 ∷ 8 ∷ []

-- The parts that are joined to the key.
pub record StreamKey : Type 0 where
  pub sample_freq : Option ℕ
  pub profile : ℕ
  pub channels : Option ℕ

pub record Header : Type 0 where
  pub crc : Bool
  pub mpeg_type : MpegType
  pub profile : ℕ
  pub sample_freq : Option ℕ
  pub channel_config : ℕ
  pub frame_length : ℕ
  pub buffer_fullness : ℕ
  pub number_of_frames : ℕ
  pub profile_name : Option String
  pub channels : Option ℕ
  pub frames_per_sec : Option Ratio
  pub duration : Option Ratio
  pub stream_key : StreamKey

-- Frames per second, and the milliseconds of a frame.
rate_of : ℕ → Ratio
rate_of freq = record { num = freq; den = 1024 }

duration_of : ℕ → Ratio
duration_of freq = record { num = 1024 * 1000; den = freq }

-- The header of bytes that begin with 0xFFF: b & m and b >> s are written as remainders and
-- quotients.
unfoldable pub header_from : ℕ → ℕ → ℕ → ℕ → ℕ → ℕ → Header
unfolding rate_of duration_of
header_from b1 b2 b3 b4 b5 b6 =
    let freq = get_elem? sample_frequencies (b2 / 4 % 16) in
    let profile = b2 / 64 + 1 in
    let config = b2 % 2 * 4 + b3 / 64 in
    record {
      crc = b1 % 2 == 0;
      mpeg_type = if b1 / 8 % 2 == 0 then mpeg4 else mpeg2;
      profile = profile;
      sample_freq = freq;
      channel_config = config;
      frame_length = b3 % 4 * 2 ^ 11 + b4 * 2 ^ 3 + b5 / 2 ^ 5;
      buffer_fullness = b5 % 32 * 2 ^ 6 + b6 / 4;
      number_of_frames = b6 % 4 + 1;
      profile_name = get_elem? profiles profile;
      channels = get_elem? channel_counts config;
      frames_per_sec = option_map rate_of freq;
      duration = option_map duration_of freq;
      stream_key = record {
        sample_freq = freq;
        profile = profile;
        channels = get_elem? channel_counts config;
      };
    }

unfoldable pub parse_frame : List ℕ → Option Header
parse_frame (b0 ∷ b1 ∷ b2 ∷ b3 ∷ b4 ∷ b5 ∷ b6 ∷ rest) =
    if (b0 == 255) && (b1 / 16 == 15) then some (header_from b1 b2 b3 b4 b5 b6) else none
parse_frame _ = none
