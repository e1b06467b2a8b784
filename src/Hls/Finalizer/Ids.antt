-- ===== src/Hls/Finalizer/Ids.antt =====
-- The ids of new segments follow one another, and the presentation timestamps stay in range.
use stream_machine.Hls.Injector.{Segment}
use stream_machine.Prelude.Lists.{last?}
use stream_machine.Hls.Injector.Placement.{InSegment}
use stream_machine.Hls.Finalizer.{
  FinalSegment, Finalizer, actual_start, append, insert_by_ts, place, sort_by_ts, choose_id, finish,
  indexed, is_new, lookup, max_pts, measured, next_pts, write,
}
use stream_machine.Rewind.Store.{Chunk}
use stream_machine.Prelude.Tests.{Bool-cases, leb, lt→ltb, if◌then◌else◌, ltb}
use stream_machine.Prelude.{
  ◌+◌, ◌++◌, ◌<◌, List, [], arith, inl, inr, refl, some, ℕ, ◌∷◌, ◌≡◌, ◌≤◌, ◌*◌, ◌/◌, ap, none, suc,
  true, ◌∙◌, ◌-◌,
}

-- The ids rise by one along the list, up to the one before the next to be given.
abbrev pub Consecutive : List FinalSegment → ℕ → Type 0
Consecutive [] seq = Unit {0}
Consecutive (s ∷ []) seq = s.id + 1 ≡ seq
Consecutive (s ∷ t ∷ ss) seq = (s.id + 1 ≡ t.id) × Consecutive (t ∷ ss) seq

Consecutive-append :
    (ss : List FinalSegment) (s : FinalSegment) (seq : ℕ)
    → Consecutive ss seq
    → s.id ≡ seq
    → Consecutive (ss ++ s ∷ []) (seq + 1)
Consecutive-append [] s seq h e = omega arith
Consecutive-append (x ∷ []) s seq h e = (omega arith, omega arith)
Consecutive-append (x ∷ y ∷ ys) s seq h e = (h.0, Consecutive-append (y ∷ ys) s seq h.1 e)

insert_by_ts-InSegment :
    (lo hi : ℕ) (c : Chunk) (cs : List Chunk)
    → InSegment lo hi (c ∷ cs)
    → InSegment lo hi (insert_by_ts c cs)
unfolding insert_by_ts
insert_by_ts-InSegment lo hi c [] h = h
insert_by_ts-InSegment lo hi c (d ∷ ds) (p, q, (p', q', h)) = elim (Bool-cases (leb c.ts d.ts)) [
  | inl le ↦ rw le (p, q, (p', q', h))
  | inr gt ↦ rw gt (p', q', insert_by_ts-InSegment lo hi c ds (p, q, h))
]

sort_by_ts-InSegment :
    (lo hi : ℕ) (cs : List Chunk) → InSegment lo hi cs → InSegment lo hi (sort_by_ts cs)
unfolding sort_by_ts
sort_by_ts-InSegment lo hi [] h = h
sort_by_ts-InSegment lo hi (c ∷ cs) (p, q, h) =
    insert_by_ts-InSegment lo hi c (sort_by_ts cs) (p, q, sort_by_ts-InSegment lo hi cs h)

insert_by_ts_cons :
    (c : Chunk) (cs : List Chunk) → (d : Chunk) × (ds : List Chunk) × (insert_by_ts c cs ≡ d ∷ ds)
unfolding insert_by_ts
insert_by_ts_cons c [] = (c, [], refl)
insert_by_ts_cons c (d ∷ ds) = elim (Bool-cases (leb c.ts d.ts)) [
  | inl le ↦ (c, d ∷ ds, rw le)
  | inr gt ↦ (d, insert_by_ts c ds, rw gt)
]

last?-some {ℓ} : {A : Type ℓ} (x : A) (xs : List A) → (l : A) × (last? (x ∷ xs) ≡ some l)
last?-some x [] = (x, refl)
last?-some x (y ∷ ys) = last?-some y ys

-- A start that is moved is moved to where the audio begins, never back.
actual_start-ge : (u ts ts_actual : ℕ) → ts ≤ ts_actual → ts ≤ actual_start u ts ts_actual
unfolding actual_start
actual_start-ge u ts ts_actual h = ground arith

place_after :
    (u : ℕ) (f : Finalizer) (ss : List FinalSegment) (seg : FinalSegment)
    → ((l : FinalSegment) → last? ss ≡ some l → l.ts < seg.ts)
    → place u f ss seg ≡ append u f seg
unfolding place
place_after u f [] seg h = refl
place_after u f (fs ∷ rest) seg h =
    let (l, at_end) = last?-some fs rest in
    let after = lt→ltb l.ts seg.ts (h l at_end) in rw (at_end, place, after)

append-Consecutive :
    (u : ℕ) (f : Finalizer) (seg : FinalSegment) (seq : ℕ)
    → Consecutive f.segments seq
    → seg.id ≡ seq
    → Consecutive (append u f seg).0.segments (seq + 1)
unfolding append
append-Consecutive u f seg seq h e = Consecutive-append f.segments _ seq h e

segment_seq-append :
    (u : ℕ) (f : Finalizer) (seg : FinalSegment) → (append u f seg).0.segment_seq ≡ f.segment_seq
unfolding append
segment_seq-append u f seg = refl

-- A segment of chunks of its own time that comes after the list, and has an id: it goes to the end.
finish-Consecutive :
    (u : ℕ) (f : Finalizer) (seg : Segment) (c : Chunk) (cs : List Chunk) (seq : ℕ)
    → InSegment seg.ts seg.end_ts (c ∷ cs)
    → ((l : FinalSegment) → last? f.segments ≡ some l → l.ts < seg.ts)
    → Consecutive f.segments seq
    → f.segment_seq ≡ seq + 1
    → Consecutive
        (finish u f seq seg (c ∷ cs)).0.segments
        (finish u f seq seg (c ∷ cs)).0.segment_seq
unfolding finish
finish-Consecutive u f seg c cs seq inside after h e =
    let (l, at_end) = last?-some c cs in
    let m = measured u seq seg (c ∷ cs) c l in
    let later : (k : FinalSegment) → last? f.segments ≡ some k → k.ts < m.ts =
      λ k p. unfold measured in omega (arith, after k p, actual_start-ge u seg.ts c.ts inside.0) in
    let placed = place_after u f f.segments m later in
    rw (at_end, finish, placed)
      (unfold indexed in
        rw (segment_seq-append u f m, e) (append-Consecutive u f m seq h (unfold measured in refl)))

is_new-after :
    (f : Finalizer) (ts : ℕ) (l : FinalSegment)
    → is_new (last? f.segments) f.first_segment ts ≡ true
    → last? f.segments ≡ some l
    → l.ts < ts
unfolding is_new
is_new-after f ts l h e = ground arith

choose_id-fresh :
    (f : Finalizer) (seg : Segment)
    → f.segment_map ≡ []
    → choose_id f seg ≡ (
        if is_new (last? f.segments) f.first_segment seg.ts
        then some (f.segment_seq, record f { segment_seq = f.segment_seq + 1 })
        else none)
unfolding choose_id lookup
choose_id-fresh f seg e =
    let missing : lookup seg.ts f.segment_map ≡ none = unfold lookup in ap (lookup seg.ts) e in
    rw (missing, choose_id)

-- With no map of old ids, writing a segment that has chunks, all of its own time, keeps the ids of
-- the list consecutive, ending just below the next id: no id is skipped, given twice or given to a
-- segment that is not listed.
pub write-Consecutive :
    (u : ℕ) (f : Finalizer) (seg : Segment) (c : Chunk) (cs : List Chunk)
    → f.segment_map ≡ []
    → seg.buffers ≡ c ∷ cs
    → InSegment seg.ts seg.end_ts seg.buffers
    → Consecutive f.segments f.segment_seq
    → Consecutive (write u f seg).0.segments (write u f seg).0.segment_seq
unfolding write
write-Consecutive u f seg c cs map_empty filled inside h =
    elim (Bool-cases (is_new (last? f.segments) f.first_segment seg.ts)) [
      | inr old ↦
          let chosen : choose_id f seg ≡ none = choose_id-fresh f seg map_empty ∙ (rw old) in
          rw (chosen, write) h
      | inl new ↦
          let f' = record f { segment_seq = f.segment_seq + 1 } in
          let chosen : choose_id f seg ≡ some (f.segment_seq, f') =
            choose_id-fresh f seg map_empty ∙ (rw new) in
          let (d, ds, sorted) = insert_by_ts_cons c (sort_by_ts cs) in
          let sorted' : sort_by_ts seg.buffers ≡ d ∷ ds =
            ap sort_by_ts filled ∙ (unfold sort_by_ts in sorted) in
          let inside' = sort_by_ts-InSegment seg.ts seg.end_ts seg.buffers inside in
          rw (chosen, write, sorted')
            (finish-Consecutive u f' seg d ds f.segment_seq (rw sorted' at inside')
              (λ l p. is_new-after f seg.ts l new p) h refl)
    ]

-- Half a unit more does not reach the next whole number.
round_le : (m x d : ℕ) → x ≤ m * suc d → (2 * x + suc d) / (2 * suc d) ≤ m
round_le m x d h =
    let q = (2 * x + suc d) / (2 * suc d) in
    elim (Bool-cases (leb q m)) [ inl le ↦ ground arith | inr gt ↦ grind arith ]

sum_le : (m w pts d : ℕ) → pts ≤ m → d ≤ m * w → pts * w + d ≤ 2 * m * w
sum_le m w pts d h k = grind arith

wrapped_le : (m sum : ℕ) → sum ≤ 2 * m → (if ltb m sum then sum - m else sum) ≤ m
wrapped_le m sum h = ground arith

-- From a presentation timestamp in range, a segment no longer than the whole range leads to one in
-- range: the wrap-around keeps it at most 2^33 - 1.
pub next_pts-le-max_pts :
    (u pts duration : ℕ)
    → pts ≤ max_pts
    → duration * 90 ≤ max_pts * suc u
    → next_pts u pts duration ≤ max_pts
unfolding next_pts
next_pts-le-max_pts u pts duration h k =
    wrapped_le max_pts _
      (round_le (2 * max_pts) _ u (sum_le max_pts (suc u) pts (duration * 90) h k))
