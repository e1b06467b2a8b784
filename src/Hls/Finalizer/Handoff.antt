-- ===== src/Hls/Finalizer/Handoff.antt =====
-- What a new process makes of the map that the old one dumped.
use stream_machine.Hls.Injector.{Segment}
use stream_machine.Hls.Finalizer.Order.{IsSorted, IsSorted-before, tail-IsSorted}
use stream_machine.Hls.Finalizer.{
  FinalSegment, Finalizer, choose_id, dump_map, is_below_min, lookup, map_entries, new_finalizer,
}
use stream_machine.Prelude.Tests.{◌==◌}
use stream_machine.Prelude.{◌++◌, ◌<◌, List, [], arith, false, none, refl, some, ℕ, ◌∷◌, ◌≡◌}

lookup-map_entries :
    (before after : List FinalSegment) (s : FinalSegment)
    → IsSorted (before ++ s ∷ after)
    → lookup s.ts (map_entries (before ++ s ∷ after)) ≡ some s.id
unfolding lookup map_entries
lookup-map_entries [] after s h = ground arith
lookup-map_entries (b ∷ before) after s h =
    let earlier : b.ts < s.ts = IsSorted-before b before after s h in
    let apart : (b.ts == s.ts) ≡ false = ground arith in
    rw apart (lookup-map_entries before after s (tail-IsSorted b (before ++ s ∷ after) h))

choose_id-known :
    (f : Finalizer) (seg : Segment) (id : ℕ)
    → lookup seg.ts f.segment_map ≡ some id
    → f.min_ts ≡ none
    → choose_id f seg ≡ some (id, f)
unfolding choose_id is_below_min
choose_id-known f seg id found no_min = rw (found, choose_id, no_min)

-- Where the segments are in order, the process that takes the dumped map over gives a segment that
-- starts with a listed one the id of that, and its next new id is the one of the old process.
pub dump_map-choose_id :
    (u segment_length : ℕ) (f : Finalizer) (before after : List FinalSegment) (s : FinalSegment)
    (seg : Segment)
    → f.segments ≡ before ++ s ∷ after
    → IsSorted f.segments
    → seg.ts ≡ s.ts
    → let f' = new_finalizer u segment_length (some (dump_map f)) in
      (choose_id f' seg ≡ some (s.id, f')) × (f'.segment_seq ≡ f.segment_seq)
unfolding new_finalizer dump_map
dump_map-choose_id u n f before after s seg e h same =
    let f' = new_finalizer u n (some (dump_map f)) in
    let known : lookup seg.ts (map_entries f.segments) ≡ some s.id =
      rw (e, same) (lookup-map_entries before after s (rw e at h)) in
    (choose_id-known f' seg s.id known refl, refl)
