-- ===== src/Hls/Injector/Flow.antt =====
-- What `inject` does with each chunk: the open segments stay well formed, and no chunk is lost
-- but one that falls between them.
use stream_machine.Hls.Injector.{
  Injector, Segment, append_segment, covered_by, covers, create_segment, inject, is_after,
  is_before, prepend_segment, push_buffer, to_list, unshift_buffer,
}
use stream_machine.Rewind.Store.{Chunk}
use stream_machine.Prelude.Tests.{Bool-cases}
use stream_machine.Hls.Injector.Placement.{
  AllSegments, InOrder, IsOpen, IsValid, append_segment-IsValid, prepend_segment-IsValid,
  push_buffer-IsOpen, unshift_buffer-IsOpen,
}
use stream_machine.Prelude.{
  ◌+◌, ◌<◌, List, Option, [], arith, false, inl, inr, none, refl, some, true, ℕ, ◌∷◌, ◌≡◌, ◌≤◌, ◌⊎◌,
  ◌++◌, Bool,
}
use mathlib.Core.Option

InOrder-map_last :
    (f : Segment → Segment) (a b : Option Segment)
    → ((s : Segment) → (f s).ts ≡ s.ts)
    → InOrder a b
    → InOrder a (Option.map f b)
InOrder-map_last f none b same h = tt
InOrder-map_last f (some a) none same h = h
InOrder-map_last f (some a) (some b) same h = omega (arith, same b)

InOrder-map_first :
    (f : Segment → Segment) (a b : Option Segment)
    → ((s : Segment) → (f s).end_ts ≡ s.end_ts)
    → InOrder a b
    → InOrder (Option.map f a) b
InOrder-map_first f none b same h = tt
InOrder-map_first f (some a) none same h = h
InOrder-map_first f (some a) (some b) same h = omega (arith, same a)

to_list-AllSegments : (n : ℕ) (o : Option Segment) → IsOpen n o → AllSegments n (to_list o)
to_list-AllSegments n none h = tt
to_list-AllSegments n (some s) h = (h, tt)

append_segment-AllSegments :
    (n : ℕ) (first last : Option Segment) (seg : Segment)
    → IsOpen n last
    → AllSegments n
        (append_segment (record { segment_length = n; first_seg = first; last_seg = last }) seg).1
unfolding append_segment
append_segment-AllSegments n none last seg h = tt
append_segment-AllSegments n (some a) last seg h = to_list-AllSegments n last h

-- A chunk leaves two open segments that are well formed as they were: on the grid of the segment
-- length, with the chunks of their own time, the first before the last; and each segment that is
-- pushed on is well formed too.
pub inject-IsValid :
    (j : Injector) (c : Chunk)
    → IsValid j
    → IsValid (inject j c).0 × AllSegments j.segment_length (inject j c).1
unfolding inject
inject-IsValid j c v = elim (Bool-cases (covered_by j.last_seg c.ts)) [
  | inl in_last ↦ rw in_last (
    record {
      positive = v.positive;
      first_open = v.first_open;
      last_open = push_buffer-IsOpen j.segment_length j.last_seg c v.last_open in_last;
      in_order =
          InOrder-map_last (λ s. push_buffer s c) j.first_seg j.last_seg
            (λ s. unfold push_buffer in refl) v.in_order;
    },
    tt,
  )
  | inr not_last ↦ elim (Bool-cases (covered_by j.first_seg c.ts)) [
    | inl in_first ↦
        rw (not_last, in_first)
          (
            record {
              positive = v.positive;
              first_open =
                  unshift_buffer-IsOpen j.segment_length j.first_seg c v.first_open in_first;
              last_open = v.last_open;
              in_order =
                  InOrder-map_first (λ s. unshift_buffer s c) j.first_seg j.last_seg
                    (λ s. unfold unshift_buffer in refl) v.in_order;
            },
            tt,
          )
    | inr not_first ↦ elim (Bool-cases (is_after j.last_seg c.ts)) [
      | inl after ↦
          rw (not_last, not_first, after)
            (
              append_segment-IsValid j.segment_length j.first_seg j.last_seg c v after,
              append_segment-AllSegments j.segment_length j.first_seg j.last_seg _ v.last_open,
            )
      | inr not_after ↦ elim (Bool-cases (is_before j.first_seg c.ts)) [
        | inl before ↦
            rw (not_last, not_first, not_after, before)
              (
                prepend_segment-IsValid j.segment_length j.first_seg j.last_seg c v not_after
                    not_last before,
                (unfold prepend_segment in
                    to_list-AllSegments j.segment_length j.first_seg v.first_open),
              )
        | inr inside ↦ rw (not_last, not_first, not_after, inside) (v, tt)
      ]
    ]
  ]
]

-- How many chunks have a property: in a list, in the open segments, and in segments that are pushed.
abbrev pub one_if : Bool → ℕ
one_if true = 1
one_if false = 0

abbrev pub tally : (Chunk → Bool) → List Chunk → ℕ
tally p [] = 0
tally p (c ∷ cs) = one_if (p c) + tally p cs

abbrev pub waiting : (Chunk → Bool) → Option Segment → ℕ
waiting p none = 0
waiting p (some s) = tally p s.buffers

abbrev pub held : (Chunk → Bool) → Injector → ℕ
held p j = waiting p j.first_seg + waiting p j.last_seg

abbrev pub carried : (Chunk → Bool) → List Segment → ℕ
carried p [] = 0
carried p (s ∷ ss) = tally p s.buffers + carried p ss

tally-append :
    (p : Chunk → Bool) (xs ys : List Chunk) → tally p (xs ++ ys) ≡ tally p xs + tally p ys
tally-append p [] ys = omega arith
tally-append p (x ∷ xs) ys = omega (arith, tally-append p xs ys)

-- The place between the open segments.
abbrev pub InGap : Injector → ℕ → Type 0
InGap j ts =
    (a : Segment) × (b : Segment) × (j.first_seg ≡ some a)
    × (j.last_seg ≡ some b)
    × (a.end_ts ≤ ts)
    × (ts < b.ts)

carried-to_list : (p : Chunk → Bool) (o : Option Segment) → carried p (to_list o) ≡ waiting p o
carried-to_list p none = refl
carried-to_list p (some s) = omega arith

waiting-push :
    (p : Chunk → Bool) (o : Option Segment) (c : Chunk)
    → covered_by o c.ts ≡ true
    → waiting p (Option.map (λ s. push_buffer s c) o) ≡ waiting p o + one_if (p c)
unfolding push_buffer
waiting-push p none c h = absurd (unfold covered_by in ground arith)
waiting-push p (some s) c h = omega (arith, tally-append p s.buffers (c ∷ []))

waiting-unshift :
    (p : Chunk → Bool) (o : Option Segment) (c : Chunk)
    → covered_by o c.ts ≡ true
    → waiting p (Option.map (λ s. unshift_buffer s c) o) ≡ waiting p o + one_if (p c)
unfolding unshift_buffer
waiting-unshift p none c h = absurd (unfold covered_by in ground arith)
waiting-unshift p (some s) c h = omega arith

held-append :
    (p : Chunk → Bool) (n : ℕ) (first last : Option Segment) (c : Chunk)
    → let r =
        append_segment
          (record { segment_length = n; first_seg = first; last_seg = last })
          (create_segment n c) in
      held p r.0 + carried p r.1 ≡ waiting p first + waiting p last + one_if (p c)
unfolding append_segment create_segment
held-append p n none last c = omega arith
held-append p n (some a) last c = omega (arith, carried-to_list p last)

held-prepend :
    (p : Chunk → Bool) (j : Injector) (c : Chunk)
    → let r = prepend_segment j (create_segment j.segment_length c) in
      held p r.0 + carried p r.1 ≡ held p j + one_if (p c)
unfolding prepend_segment create_segment
held-prepend p j c = omega (arith, carried-to_list p j.first_seg)

gap :
    (j : Injector) (ts : ℕ) (first last : Option Segment)
    → j.first_seg ≡ first
    → j.last_seg ≡ last
    → covered_by last ts ≡ false
    → covered_by first ts ≡ false
    → is_after last ts ≡ false
    → is_before first ts ≡ false
    → InGap j ts
unfolding covered_by covers is_after is_before
gap j ts none last ef el nl nf na nb = absurd (ground arith)
gap j ts (some a) none ef el nl nf na nb = absurd (ground arith)
gap j ts (some a) (some b) ef el nl nf na nb = (a, b, ef, el, ground arith, ground arith)

-- No chunk is lost or doubled. Unless the chunk falls between the end of the first segment and the
-- start of the last one, the chunks that wait and those that are pushed on are the chunks that waited
-- before and this one: of whatever property, there are as many as before, and one more if the chunk
-- has it. A chunk between the segments is dropped, and then nothing changes.
pub inject_conserves :
    (p : Chunk → Bool) (j : Injector) (c : Chunk)
    → (held p (inject j c).0 + carried p (inject j c).1 ≡ held p j + one_if (p c))
      ⊎ ((inject j c ≡ (j, [])) × InGap j c.ts)
unfolding inject
inject_conserves p j c = elim (Bool-cases (covered_by j.last_seg c.ts)) [
  | inl in_last ↦ rw in_last (inl (omega (arith, waiting-push p j.last_seg c in_last)))
  | inr not_last ↦ elim (Bool-cases (covered_by j.first_seg c.ts)) [
    | inl in_first ↦
        rw (not_last, in_first) (inl (omega (arith, waiting-unshift p j.first_seg c in_first)))
    | inr not_first ↦ elim (Bool-cases (is_after j.last_seg c.ts)) [
      | inl after ↦
          rw (not_last, not_first, after)
            (inl (held-append p j.segment_length j.first_seg j.last_seg c))
      | inr not_after ↦ elim (Bool-cases (is_before j.first_seg c.ts)) [
        | inl before ↦ rw (not_last, not_first, not_after, before) (inl (held-prepend p j c))
        | inr inside ↦
            rw (not_last, not_first, not_after, inside)
              (inr (
                refl,
                gap j c.ts j.first_seg j.last_seg refl refl not_last not_first not_after inside,
              ))
      ]
    ]
  ]
]
