-- ===== src/Mp3/Header/Size.antt =====
-- The sizes of frames.
use stream_machine.Prelude.Lists.{get_elem?}
use stream_machine.Mp3.Header.{
  bitrate_table, entry, frame_size, bitrate_mpeg1_layer1, bitrate_mpeg1_layer2,
  bitrate_mpeg1_layer3, bitrate_mpeg2_layer1, bitrate_mpeg2_layer2a3, samples_per_frame,
  sampling_rate, Fields, Header, checked, header_of, read_fields, sampling_rates,
}
use stream_machine.Prelude.{
  ◌*◌, ◌+◌, ◌/◌, List, [], arith, false, some, suc, sym, zero, ℕ, ◌∷◌, ◌≡◌, ◌≤◌, ◌<◌, Bool, subst,
  ◌≢◌, inl, inr, refl, ◌||◌,
}
use native.Mathlib.Nat.{div-div-eq-div-mul, le-div_iff_mul-le}
use stream_machine.Prelude.Tests.{◌==◌, some_eq, Bool-cases, Option-cases}

-- The size of a Layer I frame without padding: the code divides by ten times the sampling rate, and
-- gives a tenth of the standard's size, which is 48 times the bit rate over the sampling rate.
pub frame_size-layer1 :
    (mpeg kbps hz : ℕ) → frame_size mpeg 3 kbps hz false ≡ 48 * (kbps * 1000) / hz / 10
unfolding frame_size
frame_size-layer1 mpeg kbps hz =
    let same_bits : (12 * (kbps * 1000) + 0 * (hz * 10)) * 4 ≡ 48 * (kbps * 1000) = omega arith in
    rw same_bits (sym (div-div-eq-div-mul (48 * (kbps * 1000)) hz 10))

abbrev Between : ℕ → ℕ → List ℕ → Type 0
Between lo hi [] = Unit
Between lo hi (x ∷ xs) = (lo ≤ x) × (x ≤ hi) × Between lo hi xs

get_elem?-Between :
    (lo hi : ℕ) (xs : List ℕ) (i x : ℕ)
    → Between lo hi xs
    → get_elem? xs i ≡ some x
    → (lo ≤ x) × (x ≤ hi)
get_elem?-Between lo hi [] i x b h = cc
get_elem?-Between lo hi (y ∷ ys) zero x (p, q, b) h =
    let e : y ≡ x = some_eq h in (omega (arith, p, e), omega (arith, q, e))
get_elem?-Between lo hi (y ∷ ys) (suc i) x (p, q, b) h = get_elem?-Between lo hi ys i x b h

-- Each table begins with 0, and goes on between 8 and 448.
abbrev IsTable : List ℕ → Type 0
IsTable [] = ⊥
IsTable (x ∷ xs) = Between 8 448 xs

bitrate_mpeg1_layer1-IsTable : IsTable bitrate_mpeg1_layer1
bitrate_mpeg1_layer1-IsTable = ground arith

bitrate_mpeg1_layer2-IsTable : IsTable bitrate_mpeg1_layer2
bitrate_mpeg1_layer2-IsTable = ground arith

bitrate_mpeg1_layer3-IsTable : IsTable bitrate_mpeg1_layer3
bitrate_mpeg1_layer3-IsTable = ground arith

bitrate_mpeg2_layer1-IsTable : IsTable bitrate_mpeg2_layer1
bitrate_mpeg2_layer1-IsTable = ground arith

bitrate_mpeg2_layer2a3-IsTable : IsTable bitrate_mpeg2_layer2a3
bitrate_mpeg2_layer2a3-IsTable = ground arith

bitrate_table-IsTable :
    (mpeg layer : ℕ) (table : List ℕ) → bitrate_table mpeg layer ≡ some table → IsTable table
unfolding bitrate_table entry
bitrate_table-IsTable zero zero table h = cc
bitrate_table-IsTable zero (suc zero) table h =
    subst IsTable (some_eq h) bitrate_mpeg2_layer2a3-IsTable
bitrate_table-IsTable zero (suc (suc zero)) table h =
    subst IsTable (some_eq h) bitrate_mpeg2_layer2a3-IsTable
bitrate_table-IsTable zero (suc (suc (suc zero))) table h =
    subst IsTable (some_eq h) bitrate_mpeg2_layer1-IsTable
bitrate_table-IsTable zero (suc (suc (suc (suc layer)))) table h = cc
bitrate_table-IsTable (suc zero) layer table h = cc
bitrate_table-IsTable (suc (suc zero)) zero table h = cc
bitrate_table-IsTable (suc (suc zero)) (suc zero) table h =
    subst IsTable (some_eq h) bitrate_mpeg2_layer2a3-IsTable
bitrate_table-IsTable (suc (suc zero)) (suc (suc zero)) table h =
    subst IsTable (some_eq h) bitrate_mpeg2_layer2a3-IsTable
bitrate_table-IsTable (suc (suc zero)) (suc (suc (suc zero))) table h =
    subst IsTable (some_eq h) bitrate_mpeg2_layer1-IsTable
bitrate_table-IsTable (suc (suc zero)) (suc (suc (suc (suc layer)))) table h = cc
bitrate_table-IsTable (suc (suc (suc zero))) zero table h = cc
bitrate_table-IsTable (suc (suc (suc zero))) (suc zero) table h =
    subst IsTable (some_eq h) bitrate_mpeg1_layer3-IsTable
bitrate_table-IsTable (suc (suc (suc zero))) (suc (suc zero)) table h =
    subst IsTable (some_eq h) bitrate_mpeg1_layer2-IsTable
bitrate_table-IsTable (suc (suc (suc zero))) (suc (suc (suc zero))) table h =
    subst IsTable (some_eq h) bitrate_mpeg1_layer1-IsTable
bitrate_table-IsTable (suc (suc (suc zero))) (suc (suc (suc (suc layer)))) table h = cc
bitrate_table-IsTable (suc (suc (suc (suc mpeg)))) layer table h = cc

sampling_rate-le : (mpeg rate : ℕ) → rate ≤ 48000 → sampling_rate mpeg rate ≤ 48000
unfolding sampling_rate
sampling_rate-le mpeg rate h = ground arith

quotient-ge :
    (s kbps hz : ℕ) → 72 ≤ s → 8 ≤ kbps → 0 < hz → hz ≤ 48000 → 12 ≤ s * (kbps * 1000) / hz
quotient-ge s kbps hz a b c d =
    let least : 72 * (kbps * 1000) ≤ s * (kbps * 1000) = grind arith in
    (le-div_iff_mul-le c).1 (omega (arith, least, b, d))

frame_size-ge :
    (mpeg layer kbps hz : ℕ) (padding : Bool)
    → layer ≢ 3
    → 8 ≤ kbps
    → 0 < hz
    → hz ≤ 48000
    → 12 ≤ frame_size mpeg layer kbps hz padding
unfolding frame_size samples_per_frame
frame_size-ge mpeg layer kbps hz padding n h p q =
    let other : (layer == 3) ≡ false = ground arith in
    elim (Bool-cases (mpeg == 3 || layer == 2)) [
      | inl long ↦ rw (other, long) (omega (arith, quotient-ge 144 kbps hz (omega arith) h p q))
      | inr short ↦ rw (other, short) (omega (arith, quotient-ge 72 kbps hz (omega arith) h p q))
    ]

table_entry-ge :
    (table : List ℕ) (i kbps : ℕ) → IsTable table → i ≢ 0 → get_elem? table i ≡ some kbps → 8 ≤ kbps
table_entry-ge [] i kbps t n e = absurd t
table_entry-ge (x ∷ xs) zero kbps t n e = absurd (n refl)
table_entry-ge (x ∷ xs) (suc i) kbps t n e = (get_elem?-Between 8 448 xs i kbps t e).0

rate-le : (i rate : ℕ) → get_elem? sampling_rates i ≡ some rate → rate ≤ 48000
rate-le i rate e = (get_elem?-Between 0 48000 sampling_rates i rate (ground arith) e).1

checked-some : (h h' : Header) → checked h ≡ some h' → (h ≡ h') × (0 < h.sampling_rate_hz)
unfolding checked
checked-some h h' e = elim (Bool-cases (h.sampling_rate_hz == 0 || h.frame_size == 0)) [
  | inl bad ↦ absurd (let never = rw bad at e in cc)
  | inr good ↦ (some_eq (rw good at e), ground arith)
]

-- A header of Layer II or III that is accepted, with a bit rate other than 0, is of a frame of at
-- least 12 bytes, so that behind the 4 of the header the parser always wants some bytes.
pub read_fields-frame_size :
    (f : Fields) (h : Header)
    → read_fields f ≡ some h
    → f.layer_id ≢ 3
    → f.bitrate_index ≢ 0
    → 12 ≤ h.frame_size
unfolding read_fields header_of
read_fields-frame_size f h e n m = elim (Option-cases (bitrate_table f.mpeg_id f.layer_id)) [
  | inl no_table ↦ absurd (let never = rw no_table at e in cc)
  | inr (table, is_table) ↦ elim (Option-cases (get_elem? table f.bitrate_index)) [
    | inl no_rate ↦ absurd (let never = rw (is_table, no_rate) at e in cc)
    | inr (kbps, is_kbps) ↦ elim (Option-cases (get_elem? sampling_rates f.sampling_rate_index)) [
      | inl none_there ↦ absurd (let never = rw (is_table, is_kbps, none_there) at e in cc)
      | inr (rate, is_rate) ↦
          let (same_header, positive) =
            checked-some (header_of f kbps (sampling_rate f.mpeg_id rate)) h
              (rw (is_table, is_kbps, is_rate) at e) in
          let fast =
            table_entry-ge table f.bitrate_index kbps
              (bitrate_table-IsTable f.mpeg_id f.layer_id table is_table) m is_kbps in
          let slow = sampling_rate-le f.mpeg_id rate (rate-le f.sampling_rate_index rate is_rate) in
          subst (λ k. 12 ≤ k.frame_size) same_header
            (frame_size-ge f.mpeg_id f.layer_id kbps (sampling_rate f.mpeg_id rate) f.padding n fast
              positive slow)
    ]
  ]
]
