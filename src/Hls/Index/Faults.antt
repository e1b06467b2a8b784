-- ===== src/Hls/Index/Faults.antt =====
-- Where hls_index.js goes wrong.
use stream_machine.Prelude.Int.{ℤ}
use stream_machine.Prelude.Tests.{some_eq}
use stream_machine.Hls.Index.Fresh.{fresh, listed-fresh}
use stream_machine.Hls.Index.Windows.{IsReady, IsRising-Distinct}
use stream_machine.Hls.Index.Running.{
  run_index-outcome, run_on-none, taken, rebuild-some, run_on-some, short_start-none,
}
use stream_machine.Prelude.Lists.{length, drop, get_elem?}
use stream_machine.Hls.Index.{
  Head, HlsIndex, Text, index_for, load_snapshot, threw, answer_for, finish_run, run_index, run_on,
  short_start, Entry, entry_after, head_at, listed, rebuilt,
}
use stream_machine.Hls.Finalizer.{FinalSegment}
use stream_machine.Prelude.{
  ◌%◌, ◌*◌, ◌+◌, ◌<◌, List, Option, false, some, true, ℕ, ◌∷◌, ◌≡◌, ◌≤◌, [], arith, none, not, refl,
  subst, sym, ◌||◌, ◌∙◌, ap, suc, zero,
}

-- An index that is marked as running keeps its lists.
record Idle (x : HlsIndex) (x' : HlsIndex) : Type 0 where
  same_index : x'.index ≡ x.index
  same_header : x'.header ≡ x.header
  same_short : x'.short_index ≡ x.short_index
  same_short_header : x'.short_header ≡ x.short_header
  still_running : x'.running ≡ true

running-Idle :
    (text : Text) (x : HlsIndex) (snapshot : Option (List FinalSegment × ℕ))
    → x.running ≡ true
    → Idle x (load_snapshot text x snapshot).0
unfolding load_snapshot run_index
running-Idle text x none r = record {
  same_index = refl;
  same_header = refl;
  same_short = refl;
  same_short_header = refl;
  still_running = r;
}
running-Idle text x (some (ws, d)) r =
    let busy : (x.running || not x.has_stream) ≡ true = rw r refl in
    rw busy (record {
      same_index = refl;
      same_header = refl;
      same_short = refl;
      same_short_header = refl;
      still_running = r;
    })

-- One snapshot after the other, some of which are missing.
abbrev pub load_each : Text → HlsIndex → List (Option (List FinalSegment × ℕ)) → HlsIndex
load_each text x [] = x
load_each text x (snapshot ∷ more) = load_each text (load_snapshot text x snapshot).0 more

all_running-Idle :
    (text : Text) (x : HlsIndex) (later : List (Option (List FinalSegment × ℕ)))
    → x.running ≡ true
    → Idle x (load_each text x later)
all_running-Idle text x [] r = record {
  same_index = refl;
  same_header = refl;
  same_short = refl;
  same_short_header = refl;
  still_running = r;
}
all_running-Idle text x (snapshot ∷ more) r =
    let one = running-Idle text x snapshot r in
    let rest = all_running-Idle text (load_snapshot text x snapshot).0 more one.still_running in
    record {
      same_index = rest.same_index ∙ one.same_index;
      same_header = rest.same_header ∙ one.same_header;
      same_short = rest.same_short ∙ one.same_short;
      same_short_header = rest.same_short_header ∙ one.same_short_header;
      still_running = rest.still_running;
    }

-- A snapshot of at least three segments of a length that does not divide 120, and that take two
-- minutes and three segments or more, raises an exception in an index that is connected and at rest.
-- After that the index is marked as running for ever: however many snapshots follow, whatever they
-- are, neither of its lists and neither of its heads changes.
pub fraction-stops_index :
    (text : Text) (x : HlsIndex) (d : ℕ) (s0 s1 s2 : FinalSegment) (ss : List FinalSegment)
    (later : List (Option (List FinalSegment × ℕ)))
    → x.has_stream ≡ true
    → x.running ≡ false
    → 0 < 120 % d
    → 3 * d + 120 ≤ length (s0 ∷ s1 ∷ s2 ∷ ss) * d
    → let first = load_snapshot text x (some (s0 ∷ s1 ∷ s2 ∷ ss, d)) in
      let last = load_each text first.0 later in
      (first.1 ≡ false)
      × (last.running ≡ true)
      × (last.index ≡ x.index)
      × (last.header ≡ x.header)
      × (last.short_index ≡ x.short_index)
      × (last.short_header ≡ x.short_header)
fraction-stops_index text x d s0 s1 s2 ss later c r fraction long =
    let ws = s0 ∷ s1 ∷ s2 ∷ ss in
    let y : HlsIndex = record (taken text d x ws) { running = true } in
    let none_found : short_start (length ws) d ≡ none =
      short_start-none (length ws) d long fraction in
    let first : load_snapshot text x (some (ws, d)) ≡ (y, false) =
      run_index-outcome text d x ws none c r
        (run_on-none text d (taken text d x ws) s0 s1 s2 ss none_found)
      ∙ (unfold finish_run in refl) in
    let idle = all_running-Idle text y later refl in
    rw first (
      refl, idle.still_running, idle.same_index, idle.same_header, idle.same_short,
      idle.same_short_header,
    )

-- When a snapshot has fewer than three segments, and one before it had three or more so that there is
-- a header, the index is asked for in vain: it throws. The index is connected and at rest.
pub few_segments-throw :
    (text : Text) (x : HlsIndex) (h : Head) (ws : List FinalSegment) (d : ℕ) (session : List ℕ)
    → x.has_stream ≡ true
    → x.running ≡ false
    → x.header ≡ some h
    → length ws < 3
    → index_for text (load_snapshot text x (some (ws, d))).0 session ≡ threw
few_segments-throw text x h ws d session c r header few =
    let emptied : HlsIndex = record (taken text d x ws) { index = none } in
    rw (run_index-outcome text d x ws (some emptied) c r (few_segments ws few)) (
      unfold finish_run in
      unfold index_for in
      unfold answer_for in
      subst (λ o. answer_for text o none x.index_length session ≡ threw) (sym header) refl)
  where
    few_segments :
        (vs : List FinalSegment)
        → length vs < 3
        → run_on text (taken text d x ws) vs ≡ some (record (taken text d x ws) { index = none })
    few_segments [] k = unfold run_on in refl
    few_segments (a ∷ []) k = unfold run_on in refl
    few_segments (a ∷ b ∷ []) k = unfold run_on in refl
    few_segments (a ∷ b ∷ e ∷ es) k = absurd (omega arith)

get_elem?-fresh :
    (dseq : ℤ) (ss : List FinalSegment) (i : ℕ) (s : FinalSegment)
    → get_elem? ss i ≡ some s
    → (e : Entry) × (get_elem? (fresh dseq ss) i ≡ some e) × (e.segment ≡ s)
unfolding entry_after
get_elem?-fresh dseq [] i s e = cc
get_elem?-fresh dseq (t ∷ ts) zero s e = (entry_after dseq t, refl, some_eq e)
get_elem?-fresh dseq (t ∷ ts) (suc i) s e = get_elem?-fresh t.discontinuity_seq ts i s e

get_elem?-drop {ℓ} : {A : Type ℓ} (n : ℕ) (xs : List A) → get_elem? (drop n xs) 0 ≡ get_elem? xs n
get_elem?-drop zero xs = refl
get_elem?-drop (suc n) [] = refl
get_elem?-drop (suc n) (x ∷ xs) = get_elem?-drop n xs

-- The short playlist announces one segment and begins with another: when an index that is ready for
-- it gets a snapshot, and the short list is to start with the segment `a`, the head gives the id of
-- `a` as the sequence number of the first line, and that line is of the segment two places behind it.
pub short_index-starts_late :
    (text : Text) (x : HlsIndex) (d start next : ℕ) (s0 s1 s2 a b : FinalSegment)
    (ss : List FinalSegment)
    → IsReady x (s0 ∷ s1 ∷ s2 ∷ ss) next
    → short_start (length (s0 ∷ s1 ∷ s2 ∷ ss)) d ≡ some start
    → get_elem? (s0 ∷ s1 ∷ s2 ∷ ss) start ≡ some a
    → get_elem? (s2 ∷ ss) start ≡ some b
    → let y = (load_snapshot text x (some (s0 ∷ s1 ∷ s2 ∷ ss, d))).0 in
      (h : Head) × (e : Entry) × (y.short_header ≡ some h)
      × (h.media_sequence ≡ a.id)
      × (get_elem? y.short_index 0 ≡ some e)
      × (e.segment ≡ b)
unfolding rebuilt head_at finish_run
short_index-starts_late text x d start next s0 s1 s2 a b ss v found at behind =
    let ws = s0 ∷ s1 ∷ s2 ∷ ss in
    let y : HlsIndex = rebuilt text (taken text d x ws) start a s1 s2 ss in
    let ran =
      run_on-some text d (taken text d x ws) start s0 s1 s2 ss found
      ∙ rebuild-some text d (taken text d x ws) start a s1 s2 ss at in
    let loaded : load_snapshot text x (some (ws, d)) ≡ (y, true) =
      run_index-outcome text d x ws (some y) v.connected v.at_rest ran in
    let distinct = IsRising-Distinct 0 next ws v.rising in
    let (list, agrees) =
      listed-fresh x.segment_idx s1.discontinuity_seq (s2 ∷ ss) distinct.1.1 v.agree.1 in
    let (e, there, of_b) = get_elem?-fresh s1.discontinuity_seq (s2 ∷ ss) start b behind in
    rw loaded (
      head_at d a,
      e,
      refl,
      refl,
      get_elem?-drop start (listed x.segment_idx s1.discontinuity_seq (s2 ∷ ss)).0
          ∙ ap (λ es. get_elem? es start) list
          ∙ there,
      of_b,
    )
