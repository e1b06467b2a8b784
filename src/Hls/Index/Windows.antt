-- ===== src/Hls/Index/Windows.antt =====
-- The windows of segments that hls_index.js gets, one after the other.
use stream_machine.Prelude.Int.{ℤ}
use stream_machine.Prelude.Lists.{drop}
use stream_machine.Hls.Finalizer.{FinalSegment, lookup}
use stream_machine.Hls.Index.{Entry, HlsIndex}
use stream_machine.Hls.Index.Fresh.{Agrees, Distinct, HasId}
use stream_machine.Prelude.{
  ◌+◌, ◌++◌, ◌<◌, List, [], arith, false, inl, inr, none, suc, true, zero, ℕ, ◌∷◌, ◌≡◌, ◌≤◌,
}

-- The ids rise from `low` on, and all are below `next`.
abbrev pub IsRising : ℕ → List FinalSegment → ℕ → Type 0
IsRising low [] next = low ≤ next
IsRising low (s ∷ ss) next = (low ≤ s.id) × IsRising (s.id + 1) ss next

-- Every segment but the first agrees with the one before it.
abbrev pub AllAgree : List (ℕ × Entry) → List FinalSegment → Type 0
AllAgree idx [] = Unit {0}
AllAgree idx (s ∷ ss) = Agrees idx s.discontinuity_seq ss

-- No lines are known for an id from `next` on.
abbrev pub Unknown : List (ℕ × Entry) → ℕ → Type 0
Unknown idx next = (k : ℕ) → next ≤ k → lookup k idx ≡ none

pub IsRising-le : (low next : ℕ) (ws : List FinalSegment) → IsRising low ws next → low ≤ next
IsRising-le low next [] r = r
IsRising-le low next (s ∷ ss) r = omega (arith, r.0, IsRising-le (s.id + 1) next ss r.1)

weaken-IsRising :
    (low low' next : ℕ) (ws : List FinalSegment)
    → low' ≤ low
    → IsRising low ws next
    → IsRising low' ws next
weaken-IsRising low low' next [] h r = omega (arith, h, r)
weaken-IsRising low low' next (s ∷ ss) h r = (omega (arith, h, r.0), r.1)

pub drop-IsRising :
    (n low next : ℕ) (ws : List FinalSegment) → IsRising low ws next → IsRising low (drop n ws) next
drop-IsRising zero low next ws r = r
drop-IsRising (suc n) low next [] r = r
drop-IsRising (suc n) low next (s ∷ ss) r =
    weaken-IsRising (s.id + 1) low next (drop n ss) (omega (arith, r.0))
      (drop-IsRising n (s.id + 1) next ss r.1)

pub append-IsRising :
    (low next next' : ℕ) (ws cs : List FinalSegment)
    → IsRising low ws next
    → IsRising next cs next'
    → IsRising low (ws ++ cs) next'
append-IsRising low next next' [] cs r t = weaken-IsRising next low next' cs r t
append-IsRising low next next' (s ∷ ss) cs r t =
    (r.0, append-IsRising (s.id + 1) next next' ss cs r.1 t)

pub not_below :
    (k low next : ℕ) (ws : List FinalSegment) → k < low → IsRising low ws next → ¬ HasId k ws
not_below k low next [] h r i = i
not_below k low next (s ∷ ss) h r (inl e) = absurd (omega (arith, h, r.0, e))
not_below k low next (s ∷ ss) h r (inr i) =
    not_below k (s.id + 1) next ss (omega (arith, h, r.0)) r.1 i

pub IsRising-Distinct : (low next : ℕ) (ws : List FinalSegment) → IsRising low ws next → Distinct ws
IsRising-Distinct low next [] r = tt
IsRising-Distinct low next (s ∷ ss) r =
    (not_below s.id (s.id + 1) next ss (omega arith) r.1, IsRising-Distinct (s.id + 1) next ss r.1)

pub drop-AllAgree :
    (n : ℕ) (idx : List (ℕ × Entry)) (ws : List FinalSegment)
    → AllAgree idx ws
    → AllAgree idx (drop n ws)
drop-AllAgree zero idx ws a = a
drop-AllAgree (suc n) idx [] a = tt
drop-AllAgree (suc n) idx (s ∷ []) a = drop-AllAgree n idx [] tt
drop-AllAgree (suc n) idx (s ∷ t ∷ ts) a = drop-AllAgree n idx (t ∷ ts) a.1

Unknown-Agrees :
    (idx : List (ℕ × Entry)) (dseq : ℤ) (low next : ℕ) (cs : List FinalSegment)
    → Unknown idx low
    → IsRising low cs next
    → Agrees idx dseq cs
Unknown-Agrees idx dseq low next [] u r = tt
Unknown-Agrees idx dseq low next (s ∷ ss) u r = (
  inl (u s.id r.0),
  Unknown-Agrees idx s.discontinuity_seq (s.id + 1) next ss (λ k h. u k (omega (arith, h, r.0)))
      r.1,
)

append-Agrees :
    (idx : List (ℕ × Entry)) (dseq : ℤ) (low next : ℕ) (ws cs : List FinalSegment)
    → Agrees idx dseq ws
    → Unknown idx low
    → IsRising low cs next
    → Agrees idx dseq (ws ++ cs)
append-Agrees idx dseq low next [] cs a u r = Unknown-Agrees idx dseq low next cs u r
append-Agrees idx dseq low next (s ∷ ss) cs a u r =
    (a.0, append-Agrees idx s.discontinuity_seq low next ss cs a.1 u r)

pub append-AllAgree :
    (idx : List (ℕ × Entry)) (low next : ℕ) (ws cs : List FinalSegment)
    → AllAgree idx ws
    → Unknown idx low
    → IsRising low cs next
    → AllAgree idx (ws ++ cs)
append-AllAgree idx low next [] [] a u r = tt
append-AllAgree idx low next [] (c ∷ cs) a u r =
    Unknown-Agrees idx c.discontinuity_seq (c.id + 1) next cs (λ k h. u k (omega (arith, h, r.0)))
      r.1
append-AllAgree idx low next (s ∷ ss) cs a u r =
    append-Agrees idx s.discontinuity_seq low next ss cs a u r

-- The index before a snapshot of the window `ws` whose ids are below `next`.
pub record IsReady (x : HlsIndex) (ws : List FinalSegment) (next : ℕ) : Type 0 where
  pub connected : x.has_stream ≡ true
  pub at_rest : x.running ≡ false
  pub rising : IsRising 0 ws next
  pub agree : AllAgree x.segment_idx ws
  pub unknown : Unknown x.segment_idx next
