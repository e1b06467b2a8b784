-- ===== src/Hls/Index.antt =====
-- js/src/streammachine/rewind/hls_index.js: the playlist of a stream's segments, long and short. The
-- texts are the records `Head` and `Entry` of what is put into them; `Text` gives their bytes.
pub mod Fresh
pub mod Writing
pub mod Faults
pub mod Running
pub mod Windows
pub mod Updates
mod Tests
use stream_machine.Prelude.Int.{negsuc, pos, ℤ}
use stream_machine.Prelude.Lists.{drop, get_elem?, length}
use stream_machine.Prelude.Tests.{◌==◌, if◌then◌else◌, ltb}
use stream_machine.Prelude.{
  ◌%◌, ◌*◌, ◌+◌, ◌++◌, ◌-◌, ◌/◌, Bool, List, Option, [], false, map, none, not, some, suc, true,
  ◌||◌, ℕ, ◌∷◌,
}
use stream_machine.Hls.Finalizer.{FinalSegment, lookup}

-- The values in a head, and in the lines of a segment: whether a discontinuity is announced, and
-- the segment.
pub record Head : Type 0 where
  pub target_duration : ℕ
  pub media_sequence : ℕ
  pub discontinuity_sequence : ℤ

pub record Entry : Type 0 where
  pub has_disc : Bool
  pub segment : FinalSegment

-- The templates of the code, with the stream's key and format and the library's dates in them.
pub record Text : Type 0 where
  pub head_bytes : Head → List ℕ
  pub entry_bytes : Entry → List ℕ

-- `stream` is null after `disconnect`. `segment_idx` has the lines of the segments that were listed.
pub record HlsIndex : Type 0 where
  pub has_stream : Bool
  pub should_run : Bool
  pub running : Bool
  pub segment_idx : List (ℕ × Entry)
  pub segments : List FinalSegment
  pub segment_duration : ℕ
  pub header : Option Head
  pub index : Option (List Entry)
  pub index_length : ℕ
  pub short_header : Option Head
  pub short_index : List Entry
  pub short_length : ℕ

unfoldable pub new_index : HlsIndex
new_index = record {
  has_stream = true;
  should_run = false;
  running = false;
  segment_idx = [];
  segments = [];
  segment_duration = 0;
  header = none;
  index = none;
  index_length = 0;
  short_header = none;
  short_index = [];
  short_length = 0;
}

unfoldable pub disconnect : HlsIndex → HlsIndex
disconnect x = record x { has_stream = false }

same_seq : ℤ → ℤ → Bool
same_seq (pos a) (pos b) = a == b
same_seq (negsuc a) (negsuc b) = a == b
same_seq _ _ = false

-- A segment whose predecessor has the given number of discontinuities.
pub entry_after : ℤ → FinalSegment → Entry
unfolding same_seq
entry_after dseq s = record { has_disc = not (same_seq s.discontinuity_seq dseq); segment = s }

-- The lines that there are, or new ones; new ones are remembered.
known_or : Option Entry → Entry → Entry
known_or none e = e
known_or (some known) e = known

remember : Option Entry → ℕ → Entry → List (ℕ × Entry) → List (ℕ × Entry)
remember none id e idx = (id, e) ∷ idx
remember (some known) id e idx = idx

-- The loop over the segments to be listed. Lines that were made before are used again.
pub listed : List (ℕ × Entry) → ℤ → List FinalSegment → List Entry × List (ℕ × Entry)
unfolding entry_after known_or remember
listed idx dseq [] = ([], idx)
listed idx dseq (s ∷ ss) =
    let known = lookup s.id idx in
    let e = entry_after dseq s in
    let rest = listed (remember known s.id e idx) s.discontinuity_seq ss in
    (known_or known e ∷ rest.0, rest.1)

-- The lines of segments that are gone are forgotten.
pub has_segment : ℕ → List FinalSegment → Bool
has_segment id [] = false
has_segment id (s ∷ ss) = s.id == id || has_segment id ss

pub forget_gone : List FinalSegment → List (ℕ × Entry) → List (ℕ × Entry)
unfolding has_segment
forget_gone segs [] = []
forget_gone segs ((id, e) ∷ idx) =
    let rest = forget_gone segs idx in if has_segment id segs then (id, e) ∷ rest else rest

-- Where the short playlist starts: `length - 1 - 120 / duration`, and 2 at least. A fraction is no
-- index, and what is read there has no id: an exception (`none`).
pub short_start : ℕ → ℕ → Option ℕ
short_start n duration =
    if ltb (n * duration) (3 * duration + 120)
    then some 2
    else if 120 % duration == 0
    then some (n - 1 - 120 / duration)
    else none

head_at : ℕ → FinalSegment → Head
head_at duration s = record {
  target_duration = duration;
  media_sequence = s.id;
  discontinuity_sequence = s.discontinuity_seq;
}

module _ (text : Text) where
  total_length : List Entry → ℕ
  total_length [] = 0
  total_length (e ∷ es) = length (text.entry_bytes e) + total_length es

  -- A new playlist from three segments or more; the second comes before those that are listed, and
  -- the third is the first of them. The short one is announced with the segment `s`.
  pub rebuilt :
      HlsIndex → ℕ → FinalSegment → FinalSegment → FinalSegment → List FinalSegment → HlsIndex
  unfolding listed forget_gone head_at total_length
  rebuilt x start s s1 s2 ss =
      let (entries, idx) = listed x.segment_idx s1.discontinuity_seq (s2 ∷ ss) in
      record x {
        segment_idx = forget_gone x.segments idx;
        header = some (head_at x.segment_duration s2);
        index = some entries;
        index_length = total_length entries;
        short_header = some (head_at x.segment_duration s);
        short_index = drop start entries;
        short_length = total_length (drop start entries);
      }

  pub rebuild : HlsIndex → ℕ → FinalSegment → FinalSegment → List FinalSegment → Option HlsIndex
  unfolding rebuilt
  rebuild x start s1 s2 ss = elim (get_elem? x.segments start) [
    | none ↦ none
    | some s ↦ some (rebuilt x start s s1 s2 ss)
  ]

  -- With fewer than three segments there is no list; the header that there is stays, since the code
  -- writes to another field.
  pub run_on : HlsIndex → List FinalSegment → Option HlsIndex
  unfolding rebuild short_start
  run_on x (s0 ∷ s1 ∷ s2 ∷ ss) = elim (short_start (length x.segments) x.segment_duration) [
    | none ↦ none
    | some start ↦ rebuild x start s1 s2 ss
  ]
  run_on x _ = some (record x { index = none })

  -- The flag tells whether it returned without an exception. After one the index is still marked as
  -- running.
  pub finish_run : HlsIndex → Option HlsIndex → HlsIndex × Bool
  finish_run x none = (record x { running = true }, false)
  finish_run x (some x') = (x', true)

  -- `_runIndex`. (`_after` finds nothing to run again, since all of it happens at once.)
  unfoldable pub run_index : HlsIndex → HlsIndex × Bool
  unfolding run_on finish_run
  run_index x =
      if x.running || not x.has_stream
      then (x, true)
      else (let x' = record x { should_run = false } in finish_run x' (run_on x' x.segments))

  -- `loadSnapshot`. Without a snapshot nothing happens.
  unfoldable pub load_snapshot : HlsIndex → Option (List FinalSegment × ℕ) → HlsIndex × Bool
  unfolding run_index
  load_snapshot x none = (x, true)
  load_snapshot x (some (segs, duration)) =
      run_index (record x { segments = segs; segment_duration = duration; should_run = true })

-- A playlist that is being sent.
pub record Writer : Type 0 where
  pub header_bytes : List ℕ
  pub entries : List (List ℕ)
  pub session : List ℕ
  pub length_said : ℕ
  pub sent_header : Bool
  pub at_entry : ℕ
  pub pushed : List (List ℕ)
  pub ended : Bool

unfoldable pub new_writer : List ℕ → List (List ℕ) → ℕ → List ℕ → Writer
new_writer head entries total session = record {
  header_bytes = head;
  entries = entries;
  session = session;
  length_said = length head + total + length session * length entries;
  sent_header = false;
  at_entry = 0;
  pushed = [];
  ended = false;
}

-- The loop of `_read` over the entries that are left: what it sends, how many of them, and whether
-- they were all. There must be one, or it throws (`none`).
read_entries : ℕ → ℕ → List ℕ → List (List ℕ) → Option (List ℕ × ℕ × Bool)
read_entries size sent session [] = none
read_entries size sent session (e ∷ []) = some (e ++ session, 1, true)
read_entries size sent session (e ∷ f ∷ es) =
    let now = sent + length e + length session in
    let rest = read_entries size now session (f ∷ es) in
    if ltb size now then some (e ++ session, 1, false) else elim rest [
      | none ↦ none
      | some (bytes, n, all) ↦ some ((e ++ session) ++ bytes, suc n, all)
    ]

-- `_read`
unfoldable pub read : ℕ → Writer → Option Writer
unfolding read_entries
read size w =
    let head = if w.sent_header then [] else w.header_bytes in
    elim (read_entries size (length head) w.session (drop w.at_entry w.entries)) [
      | none ↦ none
      | some (bytes, n, all) ↦ some (record w {
        sent_header = true;
        at_entry = w.at_entry + n;
        pushed = w.pushed ++ (head ++ bytes) ∷ [];
        ended = w.ended || all;
      })
    ]

-- What `index` and `short_index` hand to the callback: nothing before there was a list, a writer,
-- or an exception, since `this.index` is null.
pub data Answer : Type 0 where
  nothing threw : Answer
  writer : Writer → Answer

module _ (text : Text) where
  -- `short_index`, with the session's text and its end of line.
  unfoldable pub short_index_for : HlsIndex → List ℕ → Answer
  unfolding new_writer
  short_index_for x session = elim x.short_header [
    | none ↦ nothing
    | some h ↦
        writer (
          new_writer (text.head_bytes h) (map text.entry_bytes x.short_index) x.short_length
            session)
  ]

  answer_for : Option Head → Option (List Entry) → ℕ → List ℕ → Answer
  unfolding new_writer
  answer_for none es total session = nothing
  answer_for (some h) none total session = threw
  answer_for (some h) (some es) total session =
      writer (new_writer (text.head_bytes h) (map text.entry_bytes es) total session)

  -- `index`
  unfoldable pub index_for : HlsIndex → List ℕ → Answer
  unfolding answer_for
  index_for x session = answer_for x.header x.index x.index_length session
