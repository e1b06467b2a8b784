-- ===== src/Hls/Tests.antt =====
-- Runs of the segmenter's definitions, and the theorems applied to them.
use stream_machine.Prelude.Tests.{◌==◌}
use stream_machine.Prelude.Int.{pos}
use stream_machine.Hls.Finalizer.Handoff.{dump_map-choose_id}
use stream_machine.Hls.Injector.{Injector, Segment, flush, inject, new_injector}
use stream_machine.Hls.Injector.Flow.{InGap, carried, held, inject-IsValid, inject_conserves}
use stream_machine.Hls.Finalizer.{
  FinalSegment, Finalizer, added, choose_id, dump_map, new_finalizer, set_min_ts, write,
}
use stream_machine.Hls.Finalizer.Ids.{Consecutive, write-Consecutive}
use stream_machine.Rewind.Store.{Chunk}
use stream_machine.Hls.Injector.Placement.{AllSegments, IsValid}
use stream_machine.Prelude.{◌*◌, ◌+◌, [], arith, none, refl, some, ℕ, ◌∷◌, ◌≡◌, ◌⊎◌, Bool}

abbrev audio_at : ℕ → Chunk
audio_at t = record { ts = t; duration = 4; bytes = t ∷ []; meta = none }

-- Segments of ten: one is open, and the next chunk begins another.
abbrev one_open : Injector
one_open = record {
  segment_length = 10;
  first_seg = none;
  last_seg = some (record { ts = 20; end_ts = 30; buffers = audio_at 20 ∷ audio_at 24 ∷ [] });
}

opens : (inject (inject (new_injector 10) (audio_at 20)).0 (audio_at 24)).0 ≡ one_open
unfolding inject new_injector
opens = refl

flushes_long_ones :
    flush (inject one_open (audio_at 28)).0
    ≡ record { ts = 20; end_ts = 30; buffers = audio_at 20 ∷ audio_at 24 ∷ audio_at 28 ∷ [] } ∷ []
unfolding inject flush
flushes_long_ones = refl

one_open-IsValid : IsValid one_open
one_open-IsValid = record {
  positive = omega arith;
  first_open = tt;
  last_open = record { grid = refl; long = refl; inside = ground arith };
  in_order = tt;
}

inject-IsValid_example :
    IsValid (inject one_open (audio_at 31)).0 × AllSegments 10 (inject one_open (audio_at 31)).1
inject-IsValid_example = inject-IsValid one_open (audio_at 31) one_open-IsValid

inject_conserves_example :
    let p : Chunk → Bool = λ c. c.ts == 31 in
    (held p (inject one_open (audio_at 31)).0 + carried p (inject one_open (audio_at 31)).1 ≡ 1)
    ⊎ ((inject one_open (audio_at 31) ≡ (one_open, [])) × InGap one_open 31)
inject_conserves_example = inject_conserves (λ c. c.ts == 31) one_open (audio_at 31)

abbrev listed : ℕ → ℕ → FinalSegment
listed id ts = record {
  id = id;
  ts = ts;
  end_ts = ts + 10;
  ts_actual = ts;
  end_ts_actual = ts + 10;
  data_length = 3;
  duration = 10;
  discontinuity_seq = pos 0;
  pts = 900 * id;
}

abbrev two_listed : Finalizer
two_listed = record {
  segments = listed 0 20 ∷ listed 1 30 ∷ [];
  segment_idx = (1, listed 1 30) ∷ (0, listed 0 20) ∷ [];
  segment_seq = 2;
  discontinuity_seq = pos 0;
  discontinuity_seq_r = pos 0;
  first_segment = none;
  segment_map = [];
  segment_pts = 1800;
  min_ts = none;
}

abbrev third : Segment
third = record { ts = 40; end_ts = 50; buffers = audio_at 45 ∷ audio_at 41 ∷ [] }

writes_behind :
    (write 0 two_listed third).1
    ≡ added (record {
      id = 2;
      ts = 40;
      end_ts = 50;
      ts_actual = 41;
      end_ts_actual = 49;
      data_length = 2;
      duration = 8;
      discontinuity_seq = pos 0;
      pts = 1800;
    })
unfolding write
writes_behind = refl

min_ts_expires : (set_min_ts 0 two_listed 25).1 ≡ listed 0 20 ∷ []
unfolding set_min_ts
min_ts_expires = refl

write-Consecutive_example :
    Consecutive (write 0 two_listed third).0.segments (write 0 two_listed third).0.segment_seq
write-Consecutive_example =
    write-Consecutive 0 two_listed third (audio_at 45) (audio_at 41 ∷ []) refl refl (ground arith)
      (refl, refl)

abbrev taken_over : Finalizer
taken_over = new_finalizer 0 10 (some (dump_map two_listed))

abbrev second : Segment
second = record { ts = 30; end_ts = 40; buffers = audio_at 33 ∷ [] }

dump_map-choose_id_example :
    (choose_id taken_over second ≡ some (1, taken_over)) × (taken_over.segment_seq ≡ 2)
dump_map-choose_id_example =
    dump_map-choose_id 0 10 two_listed (listed 0 20 ∷ []) [] (listed 1 30) second refl
      (omega arith, tt) refl
