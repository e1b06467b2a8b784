-- ===== src/Hls/Finalizer/Order.antt =====
-- The list of segments stays in order, and what expires is its front.
use stream_machine.Prelude.Lists.{last?}
use stream_machine.Hls.Injector.{Segment}
use stream_machine.Hls.Finalizer.{
  FinalSegment, Finalizer, append, choose_id, expire, expire_while, finish, indexed, measured,
  place, prepend, sort_by_ts, write,
}
use stream_machine.Rewind.Store.{Chunk}
use stream_machine.Prelude.Tests.{Bool-cases, Option-cases, leb, ltb, ltb→lt}
use stream_machine.Prelude.{
  ◌++◌, ◌<◌, Bool, List, [], ap, arith, false, inl, inr, refl, some, true, ℕ, ◌∷◌, ◌≡◌,
}

-- Every segment starts later than the one before it.
abbrev pub IsSorted : List FinalSegment → Type 0
IsSorted [] = Unit {0}
IsSorted (s ∷ []) = Unit {0}
IsSorted (s ∷ t ∷ ss) = (s.ts < t.ts) × IsSorted (t ∷ ss)

pub tail-IsSorted : (s : FinalSegment) (ss : List FinalSegment) → IsSorted (s ∷ ss) → IsSorted ss
tail-IsSorted s [] h = tt
tail-IsSorted s (t ∷ ts) h = h.1

pub IsSorted-before :
    (b : FinalSegment) (before after : List FinalSegment) (s : FinalSegment)
    → IsSorted (b ∷ before ++ s ∷ after)
    → b.ts < s.ts
IsSorted-before b [] after s h = h.0
IsSorted-before b (c ∷ cs) after s h = omega (arith, h.0, IsSorted-before c cs after s h.1)

append-IsSorted :
    (ss : List FinalSegment) (l seg : FinalSegment)
    → last? ss ≡ some l
    → l.ts < seg.ts
    → IsSorted ss
    → IsSorted (ss ++ seg ∷ [])
append-IsSorted [] l seg e h s = tt
append-IsSorted (x ∷ []) l seg e h s = (ground arith, tt)
append-IsSorted (x ∷ y ∷ ys) l seg e h s = (s.0, append-IsSorted (y ∷ ys) l seg e h s.1)

place-IsSorted :
    (u : ℕ) (f : Finalizer) (ss : List FinalSegment) (seg : FinalSegment)
    → f.segments ≡ ss
    → IsSorted ss
    → IsSorted (place u f ss seg).0.segments
unfolding place append prepend
place-IsSorted u f [] seg e h = rw e tt
place-IsSorted u f (fs ∷ rest) seg e h = elim (Option-cases (last? (fs ∷ rest))) [
  | inl gone ↦ rw (gone, place, e) h
  | inr (l, at_end) ↦ elim (Bool-cases (ltb l.ts seg.ts)) [
    | inl after ↦
        rw (at_end, place, after, e)
          (append-IsSorted (fs ∷ rest) l _ at_end (ltb→lt l.ts seg.ts after) h)
    | inr not_after ↦ elim (Bool-cases (ltb seg.ts fs.ts)) [
      | inl before ↦ rw (at_end, place, not_after, before, e) (ltb→lt seg.ts fs.ts before, h)
      | inr inside ↦ rw (at_end, place, not_after, inside, e) h
    ]
  ]
]

segments-choose_id :
    (f : Finalizer) (seg : Segment) (id : ℕ) (f' : Finalizer)
    → choose_id f seg ≡ some (id, f')
    → f'.segments ≡ f.segments
unfolding choose_id
segments-choose_id f seg id f' e = ground arith

finish-IsSorted :
    (u : ℕ) (f : Finalizer) (id : ℕ) (seg : Segment) (cs : List Chunk)
    → IsSorted f.segments
    → IsSorted (finish u f id seg cs).0.segments
unfolding finish
finish-IsSorted u f id seg [] h = h
finish-IsSorted u f id seg (c ∷ cs) h = elim (Option-cases (last? (c ∷ cs))) [
  | inl gone ↦ rw (gone, finish) h
  | inr (l, at_end) ↦
      rw (at_end, finish)
        (unfold indexed in place-IsSorted u f f.segments (measured u id seg (c ∷ cs) c l) refl h)
]

-- Whatever is written, the segments stay strictly in order of their start.
pub write-IsSorted :
    (u : ℕ) (f : Finalizer) (seg : Segment)
    → IsSorted f.segments
    → IsSorted (write u f seg).0.segments
unfolding write
write-IsSorted u f seg h = elim (Option-cases (choose_id f seg)) [
  | inl none_left ↦ rw (none_left, write) h
  | inr ((id, f'), chosen) ↦
      rw (chosen, write)
        (finish-IsSorted u f' id seg (sort_by_ts seg.buffers)
          (rw (segments-choose_id f seg id f' chosen) h))
]

-- Each start fails, or passes, the test.
abbrev pub AllStarts : (ℕ → Bool) → Bool → List FinalSegment → Type 0
AllStarts old b [] = Unit {0}
AllStarts old b (s ∷ ss) = (old s.ts ≡ b) × AllStarts old b ss

later_stay :
    (ts : ℕ) (s : FinalSegment) (ss : List FinalSegment)
    → IsSorted (s ∷ ss)
    → leb s.ts ts ≡ false
    → AllStarts (λ t. leb t ts) false (s ∷ ss)
later_stay ts s [] h e = (e, tt)
later_stay ts s (t ∷ ss) h e = (e, later_stay ts t ss h.1 (ground arith))

expire_while_split :
    (ts : ℕ) (ss : List FinalSegment)
    → IsSorted ss
    → let r = expire_while (λ t. leb t ts) ss in
      (r.1 ++ r.0 ≡ ss) × AllStarts (λ t. leb t ts) true r.1 × AllStarts (λ t. leb t ts) false r.0
unfolding expire_while
expire_while_split ts [] h = (refl, tt, tt)
expire_while_split ts (s ∷ ss) h = elim (Bool-cases (leb s.ts ts)) [
  | inl old ↦
      let (whole, gone, kept) = expire_while_split ts ss (tail-IsSorted s ss h) in
      rw old (ap (λ t. s ∷ t) whole, (old, gone), kept)
  | inr young ↦ rw young (refl, tt, later_stay ts s ss h young)
]

-- `expire` takes from the front of a list in order exactly the segments that start at or before
-- the timestamp, and keeps all the others.
pub expire_split :
    (f : Finalizer) (ts : ℕ)
    → IsSorted f.segments
    → let r = expire f ts in
      (r.1 ++ r.0.segments ≡ f.segments)
      × AllStarts (λ t. leb t ts) true r.1
      × AllStarts (λ t. leb t ts) false r.0.segments
unfolding expire
expire_split f ts h = expire_while_split ts f.segments h
