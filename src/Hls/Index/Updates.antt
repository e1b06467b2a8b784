-- ===== src/Hls/Index/Updates.antt =====
-- The playlist of hls_index.js after a series of snapshots.
use stream_machine.Hls.Index.Running.{load_snapshot-Ran, playlist}
use stream_machine.Prelude.Lists.{drop}
use stream_machine.Hls.Index.Windows.{
  IsReady, IsRising, IsRising-le, append-AllAgree, append-IsRising, drop-AllAgree, drop-IsRising,
}
use stream_machine.Hls.Index.{HlsIndex, Text, load_snapshot, new_index}
use stream_machine.Hls.Finalizer.{FinalSegment, lookup}
use stream_machine.Prelude.{◌%◌, ◌++◌, List, [], arith, refl, some, ℕ, ◌∷◌, ◌≡◌}

-- A change of the segments: so many go at the front, and these come at the end.
abbrev pub Change : Type 0
Change = ℕ × List FinalSegment

abbrev pub changed_by : Change → List FinalSegment → List FinalSegment
changed_by (n, cs) ws = drop n ws ++ cs

abbrev pub windows : List FinalSegment → List Change → List FinalSegment
windows ws [] = ws
windows ws (c ∷ cs) = windows (changed_by c ws) cs

-- The segments that come have ids that rise through all the changes.
abbrev pub AreNew : ℕ → List Change → Type 0
AreNew next [] = Unit {0}
AreNew next ((n, cs) ∷ us) = (next' : ℕ) × IsRising next cs next' × AreNew next' us

module _ (text : Text) (d : ℕ) where
  -- A snapshot after each change.
  abbrev pub load_all : HlsIndex → List FinalSegment → List Change → HlsIndex
  load_all x ws [] = x
  load_all x ws (c ∷ cs) =
      load_all (load_snapshot text x (some (changed_by c ws, d))).0 (changed_by c ws) cs

module _ (text : Text) (d : ℕ) (whole : 120 % d ≡ 0) where
  change-IsReady :
      (x : HlsIndex) (ws : List FinalSegment) (next next' n : ℕ) (cs : List FinalSegment)
      → IsReady x ws next
      → IsRising next cs next'
      → IsReady x (changed_by (n, cs) ws) next'
  change-IsReady x ws next next' n cs v new = record {
    connected = v.connected;
    at_rest = v.at_rest;
    rising = append-IsRising 0 next next' (drop n ws) cs (drop-IsRising n 0 next ws v.rising) new;
    agree =
        append-AllAgree x.segment_idx next next' (drop n ws) cs
          (drop-AllAgree n x.segment_idx ws v.agree) v.unknown new;
    unknown = λ k h. v.unknown k (omega (arith, h, IsRising-le next next' cs new));
  }

  load_all-shows :
      (us : List Change) (x : HlsIndex) (ws : List FinalSegment) (next : ℕ)
      → IsReady x ws next
      → x.index ≡ playlist ws
      → AreNew next us
      → (load_all text d x ws us).index ≡ playlist (windows ws us)
  load_all-shows [] x ws next v shown new = shown
  load_all-shows ((n, cs) ∷ us) x ws next v shown (next', rises, new) =
      let ran =
        load_snapshot-Ran text d whole x (changed_by (n, cs) ws) next'
          (change-IsReady x ws next next' n cs v rises) in
      load_all-shows us _ (changed_by (n, cs) ws) next' ran.ready ran.shown new

  -- The playlist that a new index builds from the lines it keeps is the one that it would make anew.
  -- It gets snapshots of a list of segments from which some go at the front and to which others come
  -- at the end, with ids that rise; the length of a segment divides 120. Then after each of them the
  -- list has the lines of all segments but the first two, each with a discontinuity where the
  -- segment before it has another number; with fewer than three segments there is no list.
  pub new_index-playlist :
      (us : List Change)
      → AreNew 0 us
      → (load_all text d new_index [] us).index ≡ playlist (windows [] us)
  unfolding new_index
  new_index-playlist us new =
      load_all-shows us new_index [] 0
        (record {
          connected = refl;
          at_rest = refl;
          rising = omega arith;
          agree = tt;
          unknown = λ k h. (unfold lookup in refl);
        })
        refl new
