-- ===== src/Aac/Header/Decoding.antt =====
-- The fields are read from where ADTS puts them.
use stream_machine.Prelude.Lists.{get_elem?}
use stream_machine.Aac.Header.{
  Header, channel_counts, header_from, mpeg2, mpeg4, parse_frame, sample_frequencies,
}
use stream_machine.Prelude.Tests.{◌==◌, if◌then◌else◌}
use stream_machine.Prelude.{
  ◌%◌, ◌*◌, ◌+◌, ◌/◌, ◌<◌, List, [], some, ℕ, ◌∷◌, ◌≡◌, ◌^◌, ap, arith, refl, true,
}

-- What a header says, as numbers of the bits that ADTS gives it. The standard's profile and number
-- of blocks are one less than the object type and the number of frames.
pub record Adts : Type 0 where
  pub id : ℕ
  pub layer : ℕ
  pub no_crc : ℕ
  pub profile : ℕ
  pub frequency_index : ℕ
  pub private_bit : ℕ
  pub channels : ℕ
  pub flags : ℕ
  pub length : ℕ
  pub fullness : ℕ
  pub blocks : ℕ

pub record AreInRange (f : Adts) : Type 0 where
  pub id : f.id < 2
  pub layer : f.layer < 4
  pub no_crc : f.no_crc < 2
  pub profile : f.profile < 4
  pub frequency_index : f.frequency_index < 16
  pub private_bit : f.private_bit < 2
  pub channels : f.channels < 8
  pub flags : f.flags < 16
  pub length : f.length < 8192
  pub fullness : f.fullness < 2048
  pub blocks : f.blocks < 4

-- The seven bytes of a header. The flags are the four bits behind the channels.
abbrev pub layout : Adts → List ℕ
layout f =
    255
    ∷ (240 + f.id * 8 + f.layer * 2 + f.no_crc)
    ∷ (f.profile * 64 + f.frequency_index * 4 + f.private_bit * 2 + f.channels / 4)
    ∷ (f.channels % 4 * 64 + f.flags * 4 + f.length / 2048)
    ∷ (f.length / 8 % 256)
    ∷ (f.length % 8 * 32 + f.fullness / 64)
    ∷ (f.fullness % 64 * 4 + f.blocks)
    ∷ []

-- The code's fields are those that the standard means.
pub record Reads (f : Adts) (h : Header) : Type 0 where
  pub crc : h.crc ≡ (f.no_crc == 0)
  pub mpeg_type : h.mpeg_type ≡ (if f.id == 0 then mpeg4 else mpeg2)
  pub profile : h.profile ≡ f.profile + 1
  pub sample_freq : h.sample_freq ≡ get_elem? sample_frequencies f.frequency_index
  pub channels : h.channels ≡ get_elem? channel_counts f.channels
  pub frame_length : h.frame_length ≡ f.length
  pub buffer_fullness : h.buffer_fullness ≡ f.fullness
  pub number_of_frames : h.number_of_frames ≡ f.blocks + 1

-- The bytes that hold several fields, taken apart.
second :
    (i l c : ℕ)
    → i < 2
    → l < 4
    → c < 2
    → let b = 240 + i * 8 + l * 2 + c in (b / 16 ≡ 15) × (b % 2 ≡ c) × (b / 8 % 2 ≡ i)
second i l c h1 h2 h3 = (omega arith, omega arith, omega arith)

third :
    (p f v c : ℕ)
    → p < 4
    → f < 16
    → v < 2
    → c < 8
    → let b = p * 64 + f * 4 + v * 2 + c / 4 in (b / 64 ≡ p) × (b / 4 % 16 ≡ f) × (b % 2 ≡ c / 4)
third p f v c h1 h2 h3 h4 = (omega arith, omega arith, omega arith)

fourth :
    (c g n : ℕ)
    → c < 8
    → g < 16
    → n < 8192
    → let b = c % 4 * 64 + g * 4 + n / 2048 in (b / 64 ≡ c % 4) × (b % 4 ≡ n / 2048)
fourth c g n h1 h2 h3 = (omega arith, omega arith)

sixth :
    (n u : ℕ) → u < 2048 → let b = n % 8 * 32 + u / 64 in (b / 2 ^ 5 ≡ n % 8) × (b % 32 ≡ u / 64)
sixth n u h = (omega arith, omega arith)

seventh : (u k : ℕ) → k < 4 → let b = u % 64 * 4 + k in (b / 4 ≡ u % 64) × (b % 4 ≡ k)
seventh u k h = (omega arith, omega arith)

-- A header that is laid out by the standard, each number in the range of its bits, is accepted, and
-- the code reads its fields as the standard means them: the type, whether there is a CRC, the
-- profile, the frequency and the number of channels by the tables, the length of the frame, how full
-- the buffer is, and the number of frames.
pub parse_frame-layout :
    (f : Adts) → AreInRange f → (h : Header) × (parse_frame (layout f) ≡ some h) × Reads f h
unfolding parse_frame header_from
parse_frame-layout f r =
    let b1 = second f.id f.layer f.no_crc r.id r.layer r.no_crc in
    let b2 =
      third f.profile f.frequency_index f.private_bit f.channels r.profile r.frequency_index
        r.private_bit r.channels in
    let b3 = fourth f.channels f.flags f.length r.channels r.flags r.length in
    let b5 = sixth f.length f.fullness r.fullness in
    let b6 = seventh f.fullness f.blocks r.blocks in
    let sync : (240 + f.id * 8 + f.layer * 2 + f.no_crc) / 16 == 15 ≡ true = ground (arith, b1.0) in
    let config : f.channels / 4 * 4 + f.channels % 4 ≡ f.channels = omega arith in
    (
      header_from (240 + f.id * 8 + f.layer * 2 + f.no_crc)
          (f.profile * 64 + f.frequency_index * 4 + f.private_bit * 2 + f.channels / 4)
          (f.channels % 4 * 64 + f.flags * 4 + f.length / 2048) (f.length / 8 % 256)
          (f.length % 8 * 32 + f.fullness / 64) (f.fullness % 64 * 4 + f.blocks),
      rw sync refl,
      record {
        crc = ap (λ n. n == 0) b1.1;
        mpeg_type = ap (λ (n : ℕ). if n == 0 then mpeg4 else mpeg2) b1.2;
        profile = ap (λ n. n + 1) b2.0;
        sample_freq = ap (get_elem? sample_frequencies) b2.1;
        channels = rw (b2.2, b3.0, config) refl;
        frame_length = rw (b3.1, b5.0) (omega (arith, r.length));
        buffer_fullness = rw (b5.1, b6.0) (omega (arith, r.fullness));
        number_of_frames = ap (λ n. n + 1) b6.1;
      },
    )
