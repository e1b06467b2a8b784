-- ===== src/Hls/Finalizer.antt =====
-- js/src/streammachine/rewind/hls_segmenter.js, `HLSSegmenter.Finalizer`: segments get ids, their
-- place in the list and their presentation timestamps. Times are counted in a unit of which
-- `suc u` make a millisecond.
pub mod Order
pub mod Ids
pub mod Handoff
use stream_machine.Prelude.Lists.{last?, length}
use stream_machine.Hls.Injector.{Segment}
use stream_machine.Rewind.Store.{Chunk}
use stream_machine.Prelude.Tests.{◌==◌, if◌then◌else◌, leb, ltb}
use stream_machine.Prelude.Int.{◌+ℤ◌, ◌-ℤ◌, pos, ℤ}
use stream_machine.Prelude.{
  ◌*◌, ◌+◌, ◌++◌, ◌-◌, ◌/◌, Bool, List, Option, [], ◌^◌, false, none, some, suc, true, ◌||◌, ℕ, ◌∷◌,
}

-- A segment as the index shows it. `ts_end_actual`, which the code compares `end_ts` with, is
-- never set (it sets `end_ts_actual`), so that `end_ts` never changes.
pub record FinalSegment : Type 0 where
  pub id : ℕ
  pub ts : ℕ
  pub end_ts : ℕ
  pub ts_actual : ℕ
  pub end_ts_actual : ℕ
  pub data_length : ℕ
  pub duration : ℕ
  pub discontinuity_seq : ℤ
  pub pts : ℕ

pub record Finalizer : Type 0 where
  pub segments : List FinalSegment
  pub segment_idx : List (ℕ × FinalSegment)
  pub segment_seq : ℕ
  pub discontinuity_seq : ℤ
  pub discontinuity_seq_r : ℤ
  pub first_segment : Option ℕ
  pub segment_map : List (ℕ × ℕ)
  pub segment_pts : ℕ
  pub min_ts : Option ℕ

-- What `_write` does with a segment.
pub data Outcome : Type 0 where
  discarded : Outcome
  added : FinalSegment → Outcome
  threw : Outcome

abbrev pub max_pts : ℕ
max_pts = 2 ^ 33 - 1

-- An object with numbers for keys.
unfoldable pub lookup {ℓ} : {A : Type ℓ} → ℕ → List (ℕ × A) → Option A
lookup k [] = none
lookup k ((j, a) ∷ m) = if j == k then some a else lookup k m

pub remove {ℓ} : {A : Type ℓ} → ℕ → List (ℕ × A) → List (ℕ × A)
remove k [] = []
remove k ((j, a) ∷ m) = let rest = remove k m in if j == k then rest else (j, a) ∷ rest

-- The segment's start is before the least timestamp wanted.
is_below_min : Option ℕ → ℕ → Bool
is_below_min none end_ts = false
is_below_min (some m) end_ts = ltb end_ts m

-- A segment with no id of old gets one only if it goes to the end of the list.
is_new : Option FinalSegment → Option ℕ → ℕ → Bool
is_new none none ts = true
is_new none (some t) ts = t == 0 || ltb t ts
is_new (some l) first ts = ltb l.ts ts

-- The id of the segment, or `none` where it is discarded.
pub choose_id : Finalizer → Segment → Option (ℕ × Finalizer)
unfolding lookup is_below_min is_new
choose_id f seg = elim (lookup seg.ts f.segment_map) [
  | some id ↦ if is_below_min f.min_ts seg.end_ts then none else some (id, f)
  | none ↦
      if is_new (last? f.segments) f.first_segment seg.ts
      then some (f.segment_seq, record f { segment_seq = f.segment_seq + 1 })
      else none
]

-- _.sortBy(buffers, "ts"), which is stable.
insert_by_ts : Chunk → List Chunk → List Chunk
insert_by_ts c [] = c ∷ []
insert_by_ts c (d ∷ ds) = if leb c.ts d.ts then c ∷ d ∷ ds else d ∷ insert_by_ts c ds

pub sort_by_ts : List Chunk → List Chunk
unfolding insert_by_ts
sort_by_ts [] = []
sort_by_ts (c ∷ cs) = insert_by_ts c (sort_by_ts cs)

durations : List Chunk → ℕ
durations [] = 0
durations (c ∷ cs) = c.duration + durations cs

lengths : List Chunk → ℕ
lengths [] = 0
lengths (c ∷ cs) = length c.bytes + lengths cs

module _ (u : ℕ) where
  -- Math.round(pts + duration * 90), less the maximum if it is above.
  pub next_pts : ℕ → ℕ → ℕ
  next_pts pts duration =
      let sum = (2 * (pts * suc u + duration * 90) + suc u) / (2 * suc u) in
      if ltb max_pts sum then sum - max_pts else sum

  -- The timestamp of a segment in front of one with the given one. A segment of a day or more,
  -- for which the difference falls below zero, is not modelled.
  previous_pts : ℕ → ℕ → ℕ
  previous_pts pts duration =
      let start =
        if ltb (duration * 90) (pts * suc u) then pts * suc u else (max_pts + pts) * suc u in
      (2 * (start - duration * 90) + suc u) / (2 * suc u)

  -- segment.ts, or where the audio begins if that is more than three seconds away.
  actual_start : ℕ → ℕ → ℕ
  actual_start ts ts_actual =
      let away = if ltb ts ts_actual then ts_actual - ts else ts - ts_actual in
      if ltb (3000 * suc u) away then ts_actual else ts

  -- The segment with its measures, before its place is known; the two zeros stand for fields that
  -- are not set.
  measured : ℕ → Segment → List Chunk → Chunk → Chunk → FinalSegment
  unfolding durations lengths actual_start
  measured id seg sorted first_buf last_buf = record {
    id = id;
    ts = actual_start seg.ts first_buf.ts;
    end_ts = seg.end_ts;
    ts_actual = first_buf.ts;
    end_ts_actual = last_buf.ts + last_buf.duration;
    data_length = lengths sorted;
    duration = durations sorted;
    discontinuity_seq = pos 0;
    pts = 0;
  }

  follows : Option FinalSegment → FinalSegment → Bool
  follows none seg = true
  follows (some l) seg = seg.ts == l.end_ts

  append : Finalizer → FinalSegment → Finalizer × FinalSegment
  unfolding follows next_pts
  append f seg =
      let seq =
        if follows (last? f.segments) seg
        then f.discontinuity_seq
        else f.discontinuity_seq +ℤ pos 1 in
      let seg' = record seg { discontinuity_seq = seq; pts = f.segment_pts } in
      (
        record f {
          segments = f.segments ++ seg' ∷ [];
          discontinuity_seq = seq;
          segment_pts = next_pts f.segment_pts seg.duration;
        },
        seg',
      )

  prepend : Finalizer → FinalSegment → FinalSegment → Finalizer × FinalSegment
  unfolding previous_pts
  prepend f seg fs =
      let seq =
        if seg.end_ts == fs.ts then f.discontinuity_seq_r else f.discontinuity_seq_r -ℤ pos 1 in
      let seg' = record seg { discontinuity_seq = seq; pts = previous_pts fs.pts seg.duration } in
      (record f { segments = seg' ∷ f.segments; discontinuity_seq_r = seq }, seg')

  -- A segment that belongs neither behind nor before the list is not put into it.
  place : Finalizer → List FinalSegment → FinalSegment → Finalizer × FinalSegment
  unfolding append prepend
  place f [] seg = append f seg
  place f (fs ∷ rest) seg = elim (last? (fs ∷ rest)) [
    | none ↦ (f, seg)
    | some l ↦
        if ltb l.ts seg.ts
        then append f seg
        else if ltb seg.ts fs.ts
        then prepend f seg fs
        else (f, seg)
  ]

  -- this.segment_idx[segment.id] = segment
  indexed : Finalizer × FinalSegment → Finalizer × Outcome
  unfolding remove
  indexed (f, seg) =
      (record f { segment_idx = (seg.id, seg) ∷ remove seg.id f.segment_idx }, added seg)

  finish : Finalizer → ℕ → Segment → List Chunk → Finalizer × Outcome
  unfolding measured place indexed
  finish f id seg [] = (f, threw)
  finish f id seg (first_buf ∷ rest) = elim (last? (first_buf ∷ rest)) [
    | none ↦ (f, threw)
    | some last_buf ↦
        indexed (place f f.segments (measured id seg (first_buf ∷ rest) first_buf last_buf))
  ]

  -- `_write`.
  unfoldable pub write : Finalizer → Segment → Finalizer × Outcome
  unfolding choose_id finish sort_by_ts
  write f seg = elim (choose_id f seg) [
    | none ↦ (f, discarded)
    | some (id, f') ↦ finish f' id seg (sort_by_ts seg.buffers)
  ]

-- The loop of `expire`: what stays, and what is removed from the front.
expire_while : (ℕ → Bool) → List FinalSegment → List FinalSegment × List FinalSegment
expire_while old [] = ([], [])
expire_while old (s ∷ ss) =
    let rest = expire_while old ss in if old s.ts then (rest.0, s ∷ rest.1) else (s ∷ ss, [])

remove_ids : List FinalSegment → List (ℕ × FinalSegment) → List (ℕ × FinalSegment)
unfolding remove
remove_ids [] idx = idx
remove_ids (s ∷ ss) idx = remove_ids ss (remove s.id idx)

expire_by : (ℕ → Bool) → Finalizer → Finalizer × List FinalSegment
unfolding expire_while remove_ids
expire_by old f =
    let (kept, removed) = expire_while old f.segments in
    (record f { segments = kept; segment_idx = remove_ids removed f.segment_idx }, removed)

-- `expire`, with the segments of the "remove" events.
pub expire : Finalizer → ℕ → Finalizer × List FinalSegment
unfolding expire_by
expire f ts = expire_by (λ s. leb s ts) f

-- `setMinTS`: what is a millisecond older expires.
unfoldable pub set_min_ts : ℕ → Finalizer → ℕ → Finalizer × List FinalSegment
unfolding expire_by
set_min_ts u f ts = expire_by (λ s. leb (s + suc u) ts) (record f { min_ts = some ts })

-- What `dumpMap` hands to the one that takes over. A `nextSegment` that has gone through JSON is a
-- string for which Number gives NaN: that is falsy, and `none` here.
pub record SegmentMap : Type 0 where
  pub segment_map : List (ℕ × ℕ)
  pub segment_seq : ℕ
  pub segment_pts : ℕ
  pub discontinuity_seq : ℤ
  pub next_segment : Option ℕ

map_entries : List FinalSegment → List (ℕ × ℕ)
map_entries [] = []
map_entries (s ∷ ss) = (s.ts, s.id) ∷ map_entries ss

pub dump_map : Finalizer → SegmentMap
unfolding map_entries
dump_map f = record {
  segment_map = map_entries f.segments;
  segment_seq = f.segment_seq;
  segment_pts = f.segment_pts;
  discontinuity_seq = f.discontinuity_seq;
  next_segment = elim (last? f.segments) [ none ↦ none | some l ↦ some l.end_ts ];
}

-- The constructor. `segment_length` is in the unit of the times; a `segmentPTS` of 0 is falsy.
pub new_finalizer : ℕ → ℕ → Option SegmentMap → Finalizer
new_finalizer u segment_length none = record {
  segments = [];
  segment_idx = [];
  segment_seq = 0;
  discontinuity_seq = pos 0;
  discontinuity_seq_r = pos 0;
  first_segment = none;
  segment_map = [];
  segment_pts = 0;
  min_ts = none;
}
new_finalizer u segment_length (some m) = record {
  segments = [];
  segment_idx = [];
  segment_seq = m.segment_seq;
  discontinuity_seq = m.discontinuity_seq;
  discontinuity_seq_r = m.discontinuity_seq;
  first_segment = m.next_segment;
  segment_map = m.segment_map;
  segment_pts =
      if m.segment_pts == 0 then m.segment_seq * (segment_length * 90) / suc u else m.segment_pts;
  min_ts = none;
}
