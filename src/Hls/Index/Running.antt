-- ===== src/Hls/Index/Running.antt =====
-- One run of `_runIndex` of hls_index.js.
use stream_machine.Prelude.Int.{ℤ}
use stream_machine.Prelude.Lists.{length, get_elem?, get_elem?-some}
use stream_machine.Hls.Index.Windows.{IsReady, IsRising, IsRising-le, IsRising-Distinct}
use stream_machine.Hls.Finalizer.{FinalSegment}
use stream_machine.Hls.Index.{
  Entry, HlsIndex, Text, entry_after, forget_gone, has_segment, load_snapshot, rebuild, run_index,
  run_on, short_start, listed, rebuilt, finish_run,
}
use stream_machine.Hls.Index.Fresh.{
  Agrees, AgreesAt, forget_gone-kept, fresh, forget_gone-gone, listed-fresh, lookup-listed,
}
use stream_machine.Prelude.Tests.{◌==◌, Bool-cases, ltb}
use stream_machine.Prelude.{
  ◌%◌, ◌*◌, ◌+◌, ◌-◌, ◌/◌, ◌<◌, Bool, List, Option, [], arith, false, inl, inr, none, refl, some,
  subst, sym, true, ℕ, ◌∷◌, ◌≡◌, ◌≤◌, ◌⊎◌, ap, ◌∙◌, not, ◌||◌,
}

-- What the list shows: nothing of fewer than three segments, and else all but the first two.
abbrev pub playlist : List FinalSegment → Option (List Entry)
playlist (s0 ∷ s1 ∷ s2 ∷ ss) = some (fresh s1.discontinuity_seq (s2 ∷ ss))
playlist _ = none

short_start-some : (n d : ℕ) → 3 ≤ n → 120 % d ≡ 0 → (k : ℕ) × (short_start n d ≡ some k) × (k < n)
unfolding short_start
short_start-some n d h e = elim (Bool-cases (ltb (n * d) (3 * d + 120))) [
  | inl short ↦ (2, rw short refl, omega (arith, h))
  | inr long ↦
      let whole : (120 % d == 0) ≡ true = ground arith in
      (n - 1 - 120 / d, rw (long, whole) refl, omega (arith, h))
]

pub short_start-none : (n d : ℕ) → 3 * d + 120 ≤ n * d → 0 < 120 % d → short_start n d ≡ none
unfolding short_start
short_start-none n d long h =
    let not_short : ltb (n * d) (3 * d + 120) ≡ false = ground arith in
    let fraction : (120 % d == 0) ≡ false = ground arith in rw (not_short, fraction) refl

-- All the segments stand in the list.
abbrev AllIn : List FinalSegment → List FinalSegment → Type 0
AllIn segs [] = Unit {0}
AllIn segs (s ∷ ss) = (has_segment s.id segs ≡ true) × AllIn segs ss

cons-AllIn : (t : FinalSegment) (segs ss : List FinalSegment) → AllIn segs ss → AllIn (t ∷ segs) ss
unfolding has_segment
cons-AllIn t segs [] a = tt
cons-AllIn t segs (s ∷ ss) a = (ground (arith, a.0), cons-AllIn t segs ss a.1)

AllIn-refl : (ss : List FinalSegment) → AllIn ss ss
unfolding has_segment
AllIn-refl [] = tt
AllIn-refl (s ∷ ss) = (ground arith, cons-AllIn s ss ss (AllIn-refl ss))

forget-AgreesAt :
    (segs : List FinalSegment) (idx : List (ℕ × Entry)) (dseq : ℤ) (s : FinalSegment)
    → has_segment s.id segs ≡ true
    → AgreesAt idx dseq s
    → AgreesAt (forget_gone segs idx) dseq s
forget-AgreesAt segs idx dseq s here a =
    subst (λ o. (o ≡ none) ⊎ (o ≡ some (entry_after dseq s)))
      (sym (forget_gone-kept s.id segs idx here)) a

forget-Agrees :
    (segs : List FinalSegment) (idx : List (ℕ × Entry)) (dseq : ℤ) (ss : List FinalSegment)
    → AllIn segs ss
    → Agrees idx dseq ss
    → Agrees (forget_gone segs idx) dseq ss
forget-Agrees segs idx dseq [] i a = tt
forget-Agrees segs idx dseq (s ∷ ss) i a =
    (forget-AgreesAt segs idx dseq s i.0 a.0, forget-Agrees segs idx s.discontinuity_seq ss i.1 a.1)

not_there :
    (k low next : ℕ) (ws : List FinalSegment)
    → IsRising low ws next
    → next ≤ k
    → has_segment k ws ≡ false
unfolding has_segment
not_there k low next [] r h = refl
not_there k low next (s ∷ ss) r h =
    let below = IsRising-le (s.id + 1) next ss r.1 in
    let other : (s.id == k) ≡ false = ground (arith, below, h) in
    rw other (not_there k (s.id + 1) next ss r.1 h)

-- After a snapshot: the list is made anew, and the lines that are kept agree with it.
pub record Ran (ws : List FinalSegment) (next : ℕ) (out : HlsIndex × Bool) : Type 0 where
  pub fine : out.1 ≡ true
  pub shown : out.0.index ≡ playlist ws
  pub ready : IsReady out.0 ws next

module _ (text : Text) (d : ℕ) where
  -- The index with a snapshot taken.
  abbrev pub taken : HlsIndex → List FinalSegment → HlsIndex
  taken x ws = record x { segments = ws; segment_duration = d; should_run = false }

  rebuilt-Ran :
      (x : HlsIndex) (next start : ℕ) (s s0 s1 s2 : FinalSegment) (ss : List FinalSegment)
      → IsReady x (s0 ∷ s1 ∷ s2 ∷ ss) next
      → Ran
          (s0 ∷ s1 ∷ s2 ∷ ss)
          next
          (rebuilt text (taken x (s0 ∷ s1 ∷ s2 ∷ ss)) start s s1 s2 ss, true)
  unfolding rebuilt
  rebuilt-Ran x next start s s0 s1 s2 ss v =
      let ws = s0 ∷ s1 ∷ s2 ∷ ss in
      let distinct = IsRising-Distinct 0 next ws v.rising in
      let (list, agrees) =
        listed-fresh x.segment_idx s1.discontinuity_seq (s2 ∷ ss) distinct.1.1 v.agree.1 in
      let idx = (listed x.segment_idx s1.discontinuity_seq (s2 ∷ ss)).1 in
      let inside = AllIn-refl ws in
      let same_second =
        lookup-listed s1.id x.segment_idx s1.discontinuity_seq (s2 ∷ ss) distinct.1.0 in
      let second : AgreesAt idx s0.discontinuity_seq s1 =
        subst (λ o. (o ≡ none) ⊎ (o ≡ some (entry_after s0.discontinuity_seq s1))) (sym same_second)
          v.agree.0 in
      record {
        fine = refl;
        shown = ap some list;
        ready = record {
          connected = v.connected;
          at_rest = v.at_rest;
          rising = v.rising;
          agree = (
            forget-AgreesAt ws idx s0.discontinuity_seq s1 inside.1.0 second,
            forget-Agrees ws idx s1.discontinuity_seq (s2 ∷ ss) inside.1.1 agrees,
          );
          unknown = λ k h. forget_gone-gone k ws idx (not_there k 0 next ws v.rising h);
        };
      }

  pub rebuild-some :
      (x : HlsIndex) (start : ℕ) (s s1 s2 : FinalSegment) (ss : List FinalSegment)
      → get_elem? x.segments start ≡ some s
      → rebuild text x start s1 s2 ss ≡ some (rebuilt text x start s s1 s2 ss)
  unfolding rebuild
  rebuild-some x start s s1 s2 ss e = rw (e, rebuild) refl

  pub run_on-some :
      (x : HlsIndex) (start : ℕ) (s0 s1 s2 : FinalSegment) (ss : List FinalSegment)
      → short_start (length x.segments) x.segment_duration ≡ some start
      → run_on text x (s0 ∷ s1 ∷ s2 ∷ ss) ≡ rebuild text x start s1 s2 ss
  unfolding run_on
  run_on-some x start s0 s1 s2 ss e = rw (e, run_on) refl

  pub run_on-none :
      (x : HlsIndex) (s0 s1 s2 : FinalSegment) (ss : List FinalSegment)
      → short_start (length x.segments) x.segment_duration ≡ none
      → run_on text x (s0 ∷ s1 ∷ s2 ∷ ss) ≡ none
  unfolding run_on
  run_on-none x s0 s1 s2 ss e = rw (e, run_on) refl

  few-Ran :
      (x : HlsIndex) (ws : List FinalSegment) (next : ℕ)
      → IsReady x ws next
      → playlist ws ≡ none
      → Ran ws next (record (taken x ws) { index = none }, true)
  few-Ran x ws next v none_shown = record {
    fine = refl;
    shown = sym none_shown;
    ready = record {
      connected = v.connected;
      at_rest = v.at_rest;
      rising = v.rising;
      agree = v.agree;
      unknown = v.unknown;
    };
  }

  pub run_index-outcome :
      (x : HlsIndex) (ws : List FinalSegment) (o : Option HlsIndex)
      → x.has_stream ≡ true
      → x.running ≡ false
      → run_on text (taken x ws) ws ≡ o
      → load_snapshot text x (some (ws, d)) ≡ finish_run text (taken x ws) o
  unfolding load_snapshot run_index
  run_index-outcome x ws o c r e =
      let free : (x.running || not x.has_stream) ≡ false = rw (r, c) refl in
      rw free (ap (finish_run text (taken x ws)) e)

  pub load_snapshot-Ran :
      (whole : 120 % d ≡ 0) (x : HlsIndex) (ws : List FinalSegment) (next : ℕ)
      → IsReady x ws next
      → Ran ws next (load_snapshot text x (some (ws, d)))
  unfolding run_on finish_run
  load_snapshot-Ran whole x [] next v =
      rw
        (run_index-outcome x [] (some (record (taken x []) { index = none })) v.connected v.at_rest
          refl)
        (few-Ran x [] next v refl)
  load_snapshot-Ran whole x (s0 ∷ []) next v =
      let ws = s0 ∷ [] in
      rw
        (run_index-outcome x ws (some (record (taken x ws) { index = none })) v.connected v.at_rest
          refl)
        (few-Ran x ws next v refl)
  load_snapshot-Ran whole x (s0 ∷ s1 ∷ []) next v =
      let ws = s0 ∷ s1 ∷ [] in
      rw
        (run_index-outcome x ws (some (record (taken x ws) { index = none })) v.connected v.at_rest
          refl)
        (few-Ran x ws next v refl)
  load_snapshot-Ran whole x (s0 ∷ s1 ∷ s2 ∷ ss) next v =
      let ws = s0 ∷ s1 ∷ s2 ∷ ss in
      let (start, found, inside) = short_start-some (length ws) d (omega arith) whole in
      let (s, at) = get_elem?-some ws start inside in
      let ran =
        run_on-some (taken x ws) start s0 s1 s2 ss found
        ∙ rebuild-some (taken x ws) start s s1 s2 ss at in
      rw
        (run_index-outcome x ws (some (rebuilt text (taken x ws) start s s1 s2 ss)) v.connected
          v.at_rest ran)
        (rebuilt-Ran x next start s s0 s1 s2 ss v)
