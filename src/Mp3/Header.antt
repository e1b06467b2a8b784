-- ===== src/Mp3/Header.antt =====
-- js/src/streammachine/parsers/mp3.js, `parseFrame`: the four bytes of a frame's header. An index
-- out of a table, or into null, makes the code throw in the end, and gives `none` here; so does
-- a division by the sampling rate 0, which leaves a size that ~~ turns into 0.
pub mod Decoding
pub mod Size
use stream_machine.Prelude.Lists.{get_elem?}
use stream_machine.Prelude.{
  List, Option, [], none, some, suc, zero, ℕ, ◌∷◌, ◌%◌, ◌&&◌, ◌*◌, ◌+◌, ◌/◌, Bool, ◌^◌, false, not,
  true, ◌||◌,
}
use stream_machine.Prelude.Tests.{◌==◌, if◌then◌else◌, leb, ltb}

abbrev layer1_id : ℕ
layer1_id = 3

abbrev layer2_id : ℕ
layer2_id = 2

abbrev mpeg1_id : ℕ
mpeg1_id = 3

abbrev mpeg2_id : ℕ
mpeg2_id = 2

abbrev mpeg25_id : ℕ
mpeg25_id = 0

abbrev mode_mono : ℕ
mode_mono = 3

abbrev pub sampling_rates : List ℕ
sampling_rates = 44100 ∷ 48000 ∷ 32000 ∷ 0 ∷ []

abbrev pub bitrate_mpeg1_layer1 : List ℕ
bitrate_mpeg1_layer1 =
    0 ∷ 32 ∷ 64 ∷ 96 ∷ 128 ∷ 160 ∷ 192 ∷ 224 ∷ 256 ∷ 288 ∷ 320 ∷ 352 ∷ 384 ∷ 416 ∷ 448 ∷ []

abbrev pub bitrate_mpeg1_layer2 : List ℕ
bitrate_mpeg1_layer2 =
    0 ∷ 32 ∷ 48 ∷ 56 ∷ 64 ∷ 80 ∷ 96 ∷ 112 ∷ 128 ∷ 160 ∷ 192 ∷ 224 ∷ 256 ∷ 320 ∷ 384 ∷ []

abbrev pub bitrate_mpeg1_layer3 : List ℕ
bitrate_mpeg1_layer3 =
    0 ∷ 32 ∷ 40 ∷ 48 ∷ 56 ∷ 64 ∷ 80 ∷ 96 ∷ 112 ∷ 128 ∷ 160 ∷ 192 ∷ 224 ∷ 256 ∷ 320 ∷ []

abbrev pub bitrate_mpeg2_layer1 : List ℕ
bitrate_mpeg2_layer1 =
    0 ∷ 32 ∷ 48 ∷ 56 ∷ 64 ∷ 80 ∷ 96 ∷ 112 ∷ 128 ∷ 144 ∷ 160 ∷ 176 ∷ 192 ∷ 224 ∷ 256 ∷ []

abbrev pub bitrate_mpeg2_layer2a3 : List ℕ
bitrate_mpeg2_layer2a3 =
    0 ∷ 8 ∷ 16 ∷ 24 ∷ 32 ∷ 40 ∷ 48 ∷ 56 ∷ 64 ∷ 80 ∷ 96 ∷ 112 ∷ 128 ∷ 144 ∷ 160 ∷ []

abbrev pub bitrate_map : List (Option (List (Option (List ℕ))))
bitrate_map =
    some (
      none
      ∷ some bitrate_mpeg2_layer2a3
      ∷ some bitrate_mpeg2_layer2a3
      ∷ some bitrate_mpeg2_layer1
      ∷ [])
    ∷ none
    ∷ some (
        none
        ∷ some bitrate_mpeg2_layer2a3
        ∷ some bitrate_mpeg2_layer2a3
        ∷ some bitrate_mpeg2_layer1
        ∷ [])
    ∷ some (
        none
        ∷ some bitrate_mpeg1_layer3
        ∷ some bitrate_mpeg1_layer2
        ∷ some bitrate_mpeg1_layer1
        ∷ [])
    ∷ []

infixl 5 ◌>>=◌
abbrev ◌>>=◌ {ℓ κ} : {A : Type ℓ} {B : Type κ} → Option A → (A → Option B) → Option B
none >>= f = none
some a >>= f = f a

-- A null entry throws when it is read from.
entry {ℓ} : {A : Type ℓ} → List (Option A) → ℕ → Option A
entry xs n = elim (get_elem? xs n) [ none ↦ none | some o ↦ o ]

-- BITRATE_MAP[mpegID][layerID]
pub bitrate_table : ℕ → ℕ → Option (List ℕ)
unfolding entry
bitrate_table mpeg layer = do layers ← entry bitrate_map mpeg; entry layers layer

-- A quotient that the code keeps as a fraction.
pub record Ratio : Type 0 where
  pub num : ℕ
  pub den : ℕ

-- The parts of `stream_key`, which are joined by dashes behind "mp3".
pub record StreamKey : Type 0 where
  pub sampling_rate : ℕ
  pub bitrate : ℕ
  pub stereo : Bool

pub record Fields : Type 0 where
  pub mpeg_id : ℕ
  pub layer_id : ℕ
  pub crc16_used : Bool
  pub bitrate_index : ℕ
  pub sampling_rate_index : ℕ
  pub padding : Bool
  pub private_bit_set : Bool
  pub mode : ℕ
  pub mode_extension : ℕ
  pub copyrighted : Bool
  pub original : Bool
  pub emphasis : ℕ

pub record Header : Type 0 where
  pub fields : Fields
  pub channels : ℕ
  pub bitrate_kbps : ℕ
  pub sampling_rate_hz : ℕ
  pub samples_per_frame : ℕ
  pub bytes_per_slot : ℕ
  pub frame_size : ℕ
  pub frames_per_sec : Ratio
  pub stream_key : StreamKey

-- b.readUInt32BE(0)
pub read_uint32 : ℕ → ℕ → ℕ → ℕ → ℕ
read_uint32 a b c d = ((a * 256 + b) * 256 + c) * 256 + d

-- (header32 >> shift) & (size - 1), for a power of two.
abbrev pub bits : ℕ → ℕ → ℕ → ℕ
bits h low size = h / 2 ^ low % size

pub fields_of : ℕ → Fields
fields_of h = record {
  mpeg_id = bits h 19 4;
  layer_id = bits h 17 4;
  crc16_used = bits h 16 2 == 0;
  bitrate_index = bits h 12 16;
  sampling_rate_index = bits h 10 4;
  padding = not (bits h 9 2 == 0);
  private_bit_set = not (bits h 8 2 == 0);
  mode = bits h 6 4;
  mode_extension = bits h 4 4;
  copyrighted = not (bits h 3 2 == 0);
  original = bits h 2 2 == 0;
  emphasis = bits h 0 4;
}

-- The rate of the table, halved for MPEG 2 and halved twice for MPEG 2.5.
pub sampling_rate : ℕ → ℕ → ℕ
sampling_rate mpeg rate =
    if mpeg == mpeg2_id then rate / 2 else if mpeg == mpeg25_id then rate / 4 else rate

pub samples_per_frame : ℕ → ℕ → ℕ
samples_per_frame mpeg layer =
    if layer == layer1_id then 384 else if mpeg == mpeg1_id || layer == layer2_id then 1152 else 576

abbrev pub one_if : Bool → ℕ
one_if true = 1
one_if false = 0

-- ~~frameSizeRaw, for a sampling rate that is not 0.
pub frame_size : ℕ → ℕ → ℕ → ℕ → Bool → ℕ
unfolding samples_per_frame
frame_size mpeg layer kbps hz padding =
    if layer == layer1_id
    then (12 * (kbps * 1000) + one_if padding * (hz * 10)) * 4 / (hz * 10)
    else samples_per_frame mpeg layer / 8 * (kbps * 1000) / hz + one_if padding

-- The modes "Stereo" and "J-Stereo".
abbrev is_stereo : ℕ → Bool
is_stereo mode = ltb mode 2

pub header_of : Fields → ℕ → ℕ → Header
unfolding frame_size
header_of f kbps hz = record {
  fields = f;
  channels = if f.mode == mode_mono then 1 else 2;
  bitrate_kbps = kbps;
  sampling_rate_hz = hz;
  samples_per_frame = samples_per_frame f.mpeg_id f.layer_id;
  bytes_per_slot = if f.layer_id == layer1_id then 4 else 1;
  frame_size = frame_size f.mpeg_id f.layer_id kbps hz f.padding;
  frames_per_sec = record { num = hz; den = samples_per_frame f.mpeg_id f.layer_id };
  stream_key = record { sampling_rate = hz; bitrate = kbps; stereo = is_stereo f.mode };
}

-- A size of 0 throws.
checked : Header → Option Header
checked h = if h.sampling_rate_hz == 0 || h.frame_size == 0 then none else some h

unfoldable pub read_fields : Fields → Option Header
unfolding checked header_of bitrate_table sampling_rate
read_fields f = do
  table ← bitrate_table f.mpeg_id f.layer_id
  kbps ← get_elem? table f.bitrate_index
  rate ← get_elem? sampling_rates f.sampling_rate_index
  checked (header_of f kbps (sampling_rate f.mpeg_id rate))

unfoldable pub parse_frame : List ℕ → Option Header
unfolding fields_of read_uint32 read_fields
parse_frame (a ∷ b ∷ c ∷ d ∷ rest) =
    if a == 255 && leb 14 (b / 16) then read_fields (fields_of (read_uint32 a b c d)) else none
parse_frame bytes = none
