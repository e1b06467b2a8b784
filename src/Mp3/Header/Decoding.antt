-- ===== src/Mp3/Header/Decoding.antt =====
-- The fields are read from where the standard puts them; of one of them the meaning is turned round.
use stream_machine.Mp3.Header.{Fields, bits, read_uint32, fields_of}
use stream_machine.Prelude.{◌*◌, ◌+◌, ◌<◌, Bool, arith, false, not, refl, true, ℕ, ◌≡◌}
use stream_machine.Prelude.Tests.{◌==◌}

abbrev flag : Bool → ℕ
flag true = 1
flag false = 0

-- The second, third and fourth byte of a header with the fields, as the standard lays them out: a 0
-- for a header with a CRC, and a 1 for an original.
abbrev pub byte1 : Fields → ℕ
byte1 f = 224 + f.mpeg_id * 8 + f.layer_id * 2 + flag (not f.crc16_used)

abbrev pub byte2 : Fields → ℕ
byte2 f =
    f.bitrate_index * 16 + f.sampling_rate_index * 4 + flag f.padding * 2 + flag f.private_bit_set

abbrev pub byte3 : Fields → ℕ
byte3 f =
    f.mode * 64 + f.mode_extension * 16 + flag f.copyrighted * 8 + flag f.original * 4 + f.emphasis

-- The numbers fit their bits.
pub record AreInRange (f : Fields) : Type 0 where
  pub mpeg : f.mpeg_id < 4
  pub layer : f.layer_id < 4
  pub bitrate : f.bitrate_index < 16
  pub rate : f.sampling_rate_index < 4
  pub mode : f.mode < 4
  pub extension : f.mode_extension < 4
  pub emphasis : f.emphasis < 4

flag-bit : (b : Bool) → not (flag b == 0) ≡ b
flag-bit true = refl
flag-bit false = refl

flag-bit_not : (b : Bool) → (flag (not b) == 0) ≡ b
flag-bit_not true = refl
flag-bit_not false = refl

flag-bit_inverted : (b : Bool) → (flag b == 0) ≡ not b
flag-bit_inverted true = refl
flag-bit_inverted false = refl

flag-lt : (b : Bool) → flag b < 2
flag-lt true = omega arith
flag-lt false = omega arith

-- Packing numbers and reading them back, byte by byte.
high :
    (m l p b c : ℕ)
    → m < 4
    → l < 4
    → p < 2
    → b < 256
    → c < 256
    → let h = read_uint32 255 (224 + m * 8 + l * 2 + p) b c in
      (bits h 19 4 ≡ m) × (bits h 17 4 ≡ l) × (bits h 16 2 ≡ p)
unfolding read_uint32
high m l p b c h1 h2 h3 h4 h5 = (omega arith, omega arith, omega arith)

middle :
    (a i r p q c : ℕ)
    → i < 16
    → r < 4
    → p < 2
    → q < 2
    → c < 256
    → let h = read_uint32 255 a (i * 16 + r * 4 + p * 2 + q) c in
      (bits h 12 16 ≡ i) × (bits h 10 4 ≡ r) × (bits h 9 2 ≡ p) × (bits h 8 2 ≡ q)
unfolding read_uint32
middle a i r p q c h1 h2 h3 h4 h5 = (omega arith, omega arith, omega arith, omega arith)

low :
    (a b m x c o e : ℕ)
    → m < 4
    → x < 4
    → c < 2
    → o < 2
    → e < 4
    → let h = read_uint32 255 a b (m * 64 + x * 16 + c * 8 + o * 4 + e) in
      (bits h 6 4 ≡ m) × (bits h 4 4 ≡ x) × (bits h 3 2 ≡ c) × (bits h 2 2 ≡ o) × (bits h 0 4 ≡ e)
unfolding read_uint32
low a b m x c o e h1 h2 h3 h4 h5 = (omega arith, omega arith, omega arith, omega arith, omega arith)

-- The fields of a header, laid out in four bytes as the standard has it, are read back as they are,
-- but for the mark of an original, which is read as its opposite.
pub fields_of-bytes :
    (f : Fields)
    → AreInRange f
    → fields_of (read_uint32 255 (byte1 f) (byte2 f) (byte3 f))
      ≡ record f { original = not f.original }
unfolding fields_of
fields_of-bytes f v =
    let p = flag-lt (not f.crc16_used) in
    let q = flag-lt f.padding in
    let r = flag-lt f.private_bit_set in
    let s = flag-lt f.copyrighted in
    let t = flag-lt f.original in
    let (m, l, c) =
      high f.mpeg_id f.layer_id (flag (not f.crc16_used)) (byte2 f) (byte3 f) v.mpeg v.layer p
        (omega (arith, v.bitrate, v.rate)) (omega (arith, v.mode, v.extension, v.emphasis)) in
    let (i, a, d, x) =
      middle (byte1 f) f.bitrate_index f.sampling_rate_index (flag f.padding)
        (flag f.private_bit_set) (byte3 f) v.bitrate v.rate q r
        (omega (arith, v.mode, v.extension, v.emphasis)) in
    let (o, e, y, z, w) =
      low (byte1 f) (byte2 f) f.mode f.mode_extension (flag f.copyrighted) (flag f.original)
        f.emphasis v.mode v.extension s t v.emphasis in
    rw
      (
        m,
        l,
        c,
        i,
        a,
        d,
        x,
        o,
        e,
        y,
        z,
        w,
        flag-bit f.padding,
        flag-bit f.private_bit_set,
        flag-bit f.copyrighted,
        flag-bit_not f.crc16_used,
        flag-bit_inverted f.original,
      )
      refl
