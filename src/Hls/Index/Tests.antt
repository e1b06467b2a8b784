-- ===== src/Hls/Index/Tests.antt =====
-- Runs of the playlist's definitions, and the theorems applied to them.
use stream_machine.Hls.Index.Running.{playlist}
use stream_machine.Prelude.Lists.{get_elem?, length}
use stream_machine.Hls.Index.Faults.{
  few_segments-throw, fraction-stops_index, short_index-starts_late, load_each,
}
use stream_machine.Hls.Index.Windows.{IsReady}
use stream_machine.Hls.Finalizer.{FinalSegment, lookup}
use stream_machine.Hls.Index.{
  Entry, Head, HlsIndex, Text, Writer, head_at, index_for, listed, load_snapshot, new_index,
  new_writer, rebuild, rebuilt, run_index, run_on, threw, short_start,
}
use stream_machine.Hls.Index.Writing.{Complete, concat_pushed, new_writer-Complete, read_all}
use stream_machine.Hls.Index.Updates.{AreNew, Change, load_all, new_index-playlist, windows}
use stream_machine.Prelude.Int.{pos, ℤ}
use stream_machine.Prelude.{
  refl, some, arith, true, false, ◌*◌, ◌+◌, List, [], suc, zero, ℕ, ◌∷◌, ◌≡◌, inl, none,
}

abbrev text : Text
text = record {
  head_bytes = λ h. h.media_sequence ∷ [];
  entry_bytes = λ e. e.segment.id ∷ e.segment.duration ∷ [];
}

-- A segment of ten milliseconds with an id and a number of discontinuities.
abbrev segment : ℕ → ℤ → FinalSegment
segment id dseq = record {
  id = id;
  ts = 10 * id;
  end_ts = 10 * id + 10;
  ts_actual = 10 * id;
  end_ts_actual = 10 * id + 10;
  data_length = 3;
  duration = 10;
  discontinuity_seq = dseq;
  pts = 900 * id;
}

-- Four segments, and later two less and one more, behind a discontinuity.
abbrev changes : List Change
changes =
    (0, segment 0 (pos 0) ∷ segment 1 (pos 0) ∷ segment 2 (pos 0) ∷ segment 4 (pos 1) ∷ [])
    ∷ (1, segment 5 (pos 1) ∷ [])
    ∷ []

changes-AreNew : AreNew 0 changes
changes-AreNew = (5, ground arith, (6, ground arith, tt))

lists_two :
    (load_all text 10 new_index [] changes).index
    ≡ some (
        record { has_disc = true; segment = segment 4 (pos 1) }
        ∷ record { has_disc = false; segment = segment 5 (pos 1) }
        ∷ [])
unfolding load_snapshot run_index run_on rebuild rebuilt listed new_index lookup
lists_two = refl

new_index-playlist_example :
    (load_all text 10 new_index [] changes).index ≡ playlist (windows [] changes)
new_index-playlist_example = new_index-playlist text 10 refl changes changes-AreNew

abbrev many : ℕ → ℕ → List FinalSegment
many zero id = []
many (suc n) id = segment id (pos 0) ∷ many n (id + 1)

fraction-stops_index_example :
    let first = load_snapshot text new_index (some (many 21 0, 7)) in
    let last = load_each text first.0 (some (many 4 0, 10) ∷ none ∷ some (many 21 1, 7) ∷ []) in
    (first.1 ≡ false)
    × (last.running ≡ true)
    × (last.index ≡ new_index.index)
    × (last.header ≡ new_index.header)
    × (last.short_index ≡ new_index.short_index)
    × (last.short_header ≡ new_index.short_header)
unfolding new_index
fraction-stops_index_example =
    fraction-stops_index text new_index 7 (segment 0 (pos 0)) (segment 1 (pos 0))
      (segment 2 (pos 0)) (many 18 3) (some (many 4 0, 10) ∷ none ∷ some (many 21 1, 7) ∷ []) refl
      refl (ground arith) (ground arith)

abbrev with_header : HlsIndex
with_header = (load_snapshot text new_index (some (many 4 0, 10))).0

few_segments-throw_example :
    index_for text (load_snapshot text with_header (some (many 2 0, 10))).0 [] ≡ threw
unfolding load_snapshot run_index run_on rebuild rebuilt new_index head_at
few_segments-throw_example =
    few_segments-throw text with_header (head_at 10 (segment 2 (pos 0))) (many 2 0) 10 [] refl refl
      refl (ground arith)

new_index-IsReady : IsReady new_index (many 5 0) 5
unfolding new_index lookup
new_index-IsReady = record {
  connected = refl;
  at_rest = refl;
  rising = ground arith;
  agree = (inl refl, (inl refl, (inl refl, (inl refl, tt))));
  unknown = λ k h. refl;
}

short_index-starts_late_example :
    let y = (load_snapshot text new_index (some (many 5 0, 10))).0 in
    (h : Head) × (e : Entry) × (y.short_header ≡ some h)
    × (h.media_sequence ≡ 2)
    × (get_elem? y.short_index 0 ≡ some e)
    × (e.segment ≡ segment 4 (pos 0))
short_index-starts_late_example =
    short_index-starts_late text new_index 10 2 5 (segment 0 (pos 0)) (segment 1 (pos 0))
      (segment 2 (pos 0)) (segment 2 (pos 0)) (segment 4 (pos 0))
      (segment 3 (pos 0) ∷ segment 4 (pos 0) ∷ []) new_index-IsReady (unfold short_start in refl)
      refl refl

new_writer-Complete_example :
    (w : Writer) × (read_all
        (1 ∷ 9 ∷ [])
        (new_writer (7 ∷ []) ((1 ∷ []) ∷ (2 ∷ 3 ∷ []) ∷ []) 3 (0 ∷ []))
      ≡ some w)
    × Complete (7 ∷ []) ((1 ∷ []) ∷ (2 ∷ 3 ∷ []) ∷ []) (0 ∷ []) 3 w
    × (length (concat_pushed w.pushed) ≡ w.length_said)
new_writer-Complete_example =
    new_writer-Complete (7 ∷ []) ((1 ∷ []) ∷ (2 ∷ 3 ∷ []) ∷ []) (0 ∷ []) 3 (1 ∷ 9 ∷ [])
      (ground arith) (ground arith) refl
