-- ===== src/Hls/Injector/Placement.antt =====
-- Where `inject` puts a chunk, and what stays true of the open segments.
use mathlib.Core.Option
use stream_machine.Prelude.{
  ◌%◌, ◌+◌, ◌++◌, ◌<◌, List, Option, [], none, refl, some, ℕ, ◌∷◌, ◌≡◌, ◌≤◌, ◌*◌, ◌/◌, arith, false,
  true, ◌∙◌,
}
use stream_machine.Rewind.Store.{Chunk}
use stream_machine.Hls.Injector.{
  Injector, Segment, create_segment, append_segment, covered_by, is_after, is_before,
  prepend_segment, covers, push_buffer, unshift_buffer,
}
use native.Mathlib.Nat.{
  div-mul-le_self, lt-div-mul-add, mul-mod_left, add-mod_right, div-lt_iff_lt-mul,
  le-div_iff_mul-le, mul-le-mul_right, div-add-mod',
}

-- The segment lies on the grid of its length, and has the chunks of its own time.
abbrev pub InSegment : ℕ → ℕ → List Chunk → Type 0
InSegment lo hi [] = Unit {0}
InSegment lo hi (c ∷ cs) = (lo ≤ c.ts) × (c.ts < hi) × InSegment lo hi cs

pub record IsSegment (n : ℕ) (s : Segment) : Type 0 where
  pub grid : s.ts % n ≡ 0
  pub long : s.end_ts ≡ s.ts + n
  pub inside : InSegment s.ts s.end_ts s.buffers

abbrev pub IsOpen : ℕ → Option Segment → Type 0
IsOpen n none = Unit {0}
IsOpen n (some s) = IsSegment n s

abbrev pub AllSegments : ℕ → List Segment → Type 0
AllSegments n [] = Unit {0}
AllSegments n (s ∷ ss) = IsSegment n s × AllSegments n ss

-- The first segment ends before the last one begins.
abbrev pub InOrder : Option Segment → Option Segment → Type 0
InOrder (some a) (some b) = a.end_ts ≤ b.ts
InOrder none b = Unit {0}
InOrder (some a) none = ⊥

pub record IsValid (j : Injector) : Type 0 where
  pub positive : 0 < j.segment_length
  pub first_open : IsOpen j.segment_length j.first_seg
  pub last_open : IsOpen j.segment_length j.last_seg
  pub in_order : InOrder j.first_seg j.last_seg

InSegment-append :
    (lo hi : ℕ) (cs : List Chunk) (c : Chunk)
    → InSegment lo hi cs
    → lo ≤ c.ts
    → c.ts < hi
    → InSegment lo hi (cs ++ c ∷ [])
InSegment-append lo hi [] c h p q = (p, q, tt)
InSegment-append lo hi (d ∷ ds) c h p q = (h.0, h.1, InSegment-append lo hi ds c h.2 p q)

-- On the grid of n: what is not after t is not after t's own place on the grid.
grid-le : (n m t : ℕ) → 0 < n → m % n ≡ 0 → m ≤ t → m ≤ t / n * n
grid-le n m t h g le =
    let whole : m / n * n ≡ m = omega (arith, div-add-mod' m n) in
    let quotients : m / n ≤ t / n = (le-div_iff_mul-le h).1 (omega (arith, whole)) in
    omega (arith, whole, mul-le-mul_right n quotients)

grid-lt : (n m t : ℕ) → 0 < n → m % n ≡ 0 → t < m → t / n * n + n ≤ m
grid-lt n m t h g lt =
    let whole : m / n * n ≡ m = omega (arith, div-add-mod' m n) in
    let quotients : t / n < m / n = (div-lt_iff_lt-mul h).1 (omega (arith, whole)) in
    omega (arith, whole, mul-le-mul_right n quotients)

create_segment-IsSegment : (n : ℕ) (c : Chunk) → 0 < n → IsSegment n (create_segment n c)
unfolding create_segment
create_segment-IsSegment n c h = record {
  grid = mul-mod_left (c.ts / n) n;
  long = refl;
  inside = (div-mul-le_self c.ts n, lt-div-mul-add h, tt);
}

create_segment-after :
    (n : ℕ) (s : Segment) (c : Chunk)
    → 0 < n
    → IsSegment n s
    → s.end_ts ≤ c.ts
    → s.end_ts ≤ (create_segment n c).ts
unfolding create_segment
create_segment-after n s c h v le =
    grid-le n s.end_ts c.ts h (rw v.long (add-mod_right s.ts n ∙ v.grid)) le

create_segment-before :
    (n : ℕ) (s : Segment) (c : Chunk)
    → 0 < n
    → IsSegment n s
    → c.ts < s.ts
    → (create_segment n c).end_ts ≤ s.ts
unfolding create_segment
create_segment-before n s c h v lt = grid-lt n s.ts c.ts h v.grid lt

pub append_segment-IsValid :
    (n : ℕ) (first last : Option Segment) (c : Chunk)
    → let j : Injector = record { segment_length = n; first_seg = first; last_seg = last } in
      IsValid j → is_after last c.ts ≡ true → IsValid (append_segment j (create_segment n c)).0
unfolding append_segment
append_segment-IsValid n none none c v after = record {
  positive = v.positive;
  first_open = tt;
  last_open = create_segment-IsSegment n c v.positive;
  in_order = tt;
}
append_segment-IsValid n none (some b) c v after = record {
  positive = v.positive;
  first_open = v.last_open;
  last_open = create_segment-IsSegment n c v.positive;
  in_order = create_segment-after n b c v.positive v.last_open (unfold is_after in ground arith);
}
append_segment-IsValid n (some a) none c v after = absurd v.in_order
append_segment-IsValid n (some a) (some b) c v after =
    let behind : b.end_ts ≤ c.ts = unfold is_after in ground arith in
    let later = create_segment-after n b c v.positive v.last_open behind in
    record {
      positive = v.positive;
      first_open = v.first_open;
      last_open = create_segment-IsSegment n c v.positive;
      in_order = omega (arith, v.in_order, v.last_open.long, later);
    }

pub prepend_segment-IsValid :
    (n : ℕ) (first last : Option Segment) (c : Chunk)
    → let j : Injector = record { segment_length = n; first_seg = first; last_seg = last } in
      IsValid j
      → is_after last c.ts ≡ false
      → covered_by last c.ts ≡ false
      → is_before first c.ts ≡ true
      → IsValid (prepend_segment j (create_segment n c)).0
unfolding prepend_segment
prepend_segment-IsValid n first none c v not_after not_last before =
    absurd (unfold is_after in ground arith)
prepend_segment-IsValid n none (some b) c v not_after not_last before = record {
  positive = v.positive;
  first_open = create_segment-IsSegment n c v.positive;
  last_open = v.last_open;
  in_order =
      create_segment-before n b c v.positive v.last_open
        (unfold is_after covered_by covers in ground arith);
}
prepend_segment-IsValid n (some a) (some b) c v not_after not_last before =
    let ahead : c.ts < a.ts = unfold is_before in ground arith in
    let earlier = create_segment-before n a c v.positive v.first_open ahead in
    record {
      positive = v.positive;
      first_open = create_segment-IsSegment n c v.positive;
      last_open = v.last_open;
      in_order = omega (arith, v.in_order, v.first_open.long, earlier);
    }

pub push_buffer-IsOpen :
    (n : ℕ) (o : Option Segment) (c : Chunk)
    → IsOpen n o
    → covered_by o c.ts ≡ true
    → IsOpen n (Option.map (λ s. push_buffer s c) o)
unfolding push_buffer
push_buffer-IsOpen n none c v h = tt
push_buffer-IsOpen n (some s) c v h =
    let inside : (s.ts ≤ c.ts) × (c.ts < s.end_ts) = unfold covered_by covers in ground arith in
    record {
      grid = v.grid;
      long = v.long;
      inside = InSegment-append s.ts s.end_ts s.buffers c v.inside inside.0 inside.1;
    }

pub unshift_buffer-IsOpen :
    (n : ℕ) (o : Option Segment) (c : Chunk)
    → IsOpen n o
    → covered_by o c.ts ≡ true
    → IsOpen n (Option.map (λ s. unshift_buffer s c) o)
unfolding unshift_buffer
unshift_buffer-IsOpen n none c v h = tt
unshift_buffer-IsOpen n (some s) c v h =
    let inside : (s.ts ≤ c.ts) × (c.ts < s.end_ts) = unfold covered_by covers in ground arith in
    record { grid = v.grid; long = v.long; inside = (inside.0, inside.1, v.inside) }
