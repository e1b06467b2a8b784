-- ===== src/Hls/Index/Fresh.antt =====
-- The lines that hls_index.js keeps are those that it would make anew.
use stream_machine.Prelude.Int.{ℤ}
use stream_machine.Prelude.{
  List, [], arith, false, inl, inr, none, refl, some, sym, ℕ, ◌∷◌, ◌≡◌, ◌≢◌, ◌⊎◌, ap, true, ◌∙◌,
  Option, Bool, subst,
}
use stream_machine.Hls.Finalizer.{FinalSegment, lookup}
use stream_machine.Hls.Index.{
  Entry, entry_after, listed, forget_gone, has_segment, known_or, remember,
}
use stream_machine.Prelude.Tests.{◌==◌, Option-cases, Bool-cases, if◌then◌else◌}

-- The lines of segments, made anew.
abbrev pub fresh : ℤ → List FinalSegment → List Entry
fresh dseq [] = []
fresh dseq (s ∷ ss) = entry_after dseq s ∷ fresh s.discontinuity_seq ss

abbrev pub HasId : ℕ → List FinalSegment → Type 0
HasId k [] = ⊥
HasId k (s ∷ ss) = (s.id ≡ k) ⊎ HasId k ss

-- No two segments have the same id.
abbrev pub Distinct : List FinalSegment → Type 0
Distinct [] = Unit {0}
Distinct (s ∷ ss) = ¬ HasId s.id ss × Distinct ss

-- What is kept for a segment behind one with the given number is what would be made anew.
abbrev pub AgreesAt : List (ℕ × Entry) → ℤ → FinalSegment → Type 0
AgreesAt idx dseq s = (lookup s.id idx ≡ none) ⊎ (lookup s.id idx ≡ some (entry_after dseq s))

abbrev pub Agrees : List (ℕ × Entry) → ℤ → List FinalSegment → Type 0
Agrees idx dseq [] = Unit {0}
Agrees idx dseq (s ∷ ss) = AgreesAt idx dseq s × Agrees idx s.discontinuity_seq ss

lookup-other {ℓ} :
    {A : Type ℓ} (j k : ℕ) (a : A) (m : List (ℕ × A)) → j ≢ k → lookup k ((j, a) ∷ m) ≡ lookup k m
unfolding lookup
lookup-other j k a m n = let other : (j == k) ≡ false = ground arith in rw other refl

cons-Agrees :
    (idx : List (ℕ × Entry)) (k : ℕ) (e : Entry) (dseq : ℤ) (ss : List FinalSegment)
    → ¬ HasId k ss
    → Agrees idx dseq ss
    → Agrees ((k, e) ∷ idx) dseq ss
cons-Agrees idx k e dseq [] n a = tt
cons-Agrees idx k e dseq (s ∷ ss) n (here, rest) =
    let same = lookup-other k s.id e idx (λ p. n (inl (sym p))) in
    (rw same here, cons-Agrees idx k e s.discontinuity_seq ss (λ h. n (inr h)) rest)

lookup_self {ℓ} : {A : Type ℓ} (k : ℕ) (a : A) (m : List (ℕ × A)) → lookup k ((k, a) ∷ m) ≡ some a
unfolding lookup
lookup_self k a m = let this : (k == k) ≡ true = ground arith in rw this refl

-- One step of the loop, by what is known of the segment.
abbrev step :
    Option Entry
    → List (ℕ × Entry)
    → ℤ
    → FinalSegment
    → List FinalSegment
    → List Entry × List (ℕ × Entry)
step known idx dseq s ss =
    let rest = listed (remember known s.id (entry_after dseq s) idx) s.discontinuity_seq ss in
    (known_or known (entry_after dseq s) ∷ rest.0, rest.1)

listed-step :
    (idx : List (ℕ × Entry)) (dseq : ℤ) (s : FinalSegment) (ss : List FinalSegment)
    (known : Option Entry)
    → lookup s.id idx ≡ known
    → listed idx dseq (s ∷ ss) ≡ step known idx dseq s ss
unfolding listed
listed-step idx dseq s ss known e = ap (λ k. step k idx dseq s ss) e

pub lookup-listed :
    (k : ℕ) (idx : List (ℕ × Entry)) (dseq : ℤ) (ss : List FinalSegment)
    → ¬ HasId k ss
    → lookup k (listed idx dseq ss).1 ≡ lookup k idx
unfolding listed lookup
lookup-listed k idx dseq [] n = refl
lookup-listed k idx dseq (s ∷ ss) n = elim (Option-cases (lookup s.id idx)) [
  | inl new ↦
      ap (λ r. lookup k r.1) (listed-step idx dseq s ss none new)
      ∙ lookup-listed k ((s.id, entry_after dseq s) ∷ idx) s.discontinuity_seq ss (λ h. n (inr h))
      ∙ lookup-other s.id k (entry_after dseq s) idx (λ p. n (inl p))
  | inr (x, kept) ↦
      ap (λ r. lookup k r.1) (listed-step idx dseq s ss (some x) kept)
      ∙ lookup-listed k idx s.discontinuity_seq ss (λ h. n (inr h))
]

-- The list of lines is the new one, and so are the lines that are kept from now on.
pub listed-fresh :
    (idx : List (ℕ × Entry)) (dseq : ℤ) (ss : List FinalSegment)
    → Distinct ss
    → Agrees idx dseq ss
    → ((listed idx dseq ss).0 ≡ fresh dseq ss) × Agrees (listed idx dseq ss).1 dseq ss
unfolding listed
listed-fresh idx dseq [] d a = (refl, tt)
listed-fresh idx dseq (s ∷ ss) d (inl new, rest) =
    let e = entry_after dseq s in
    let idx' : List (ℕ × Entry) = (s.id, e) ∷ idx in
    let (list, agrees) =
      listed-fresh idx' s.discontinuity_seq ss d.1
        (cons-Agrees idx s.id e s.discontinuity_seq ss d.0 rest) in
    let here = lookup-listed s.id idx' s.discontinuity_seq ss d.0 ∙ lookup_self s.id e idx in
    let eq = listed-step idx dseq s ss none new in
    (
      ap (λ r. r.0) eq ∙ ap (λ es. e ∷ es) list,
      subst (λ (r : List Entry × List (ℕ × Entry)). Agrees r.1 dseq (s ∷ ss)) (sym eq)
          (inr here, agrees),
    )
listed-fresh idx dseq (s ∷ ss) d (inr kept, rest) =
    let e = entry_after dseq s in
    let (list, agrees) = listed-fresh idx s.discontinuity_seq ss d.1 rest in
    let here = lookup-listed s.id idx s.discontinuity_seq ss d.0 ∙ kept in
    let eq = listed-step idx dseq s ss (some e) kept in
    (
      ap (λ r. r.0) eq ∙ ap (λ es. e ∷ es) list,
      subst (λ (r : List Entry × List (ℕ × Entry)). Agrees r.1 dseq (s ∷ ss)) (sym eq)
          (inr here, agrees),
    )

has_segment-differs :
    (j k : ℕ) (segs : List FinalSegment) (b c : Bool)
    → has_segment j segs ≡ b
    → has_segment k segs ≡ c
    → b ≢ c
    → (j == k) ≡ false
has_segment-differs j k segs b c hj hk n = elim (Bool-cases (j == k)) [
  | inl same ↦
      let e : j ≡ k = ground arith in absurd (n (sym hj ∙ ap (λ i. has_segment i segs) e ∙ hk))
  | inr other ↦ other
]

-- Forgetting lines.
pub forget_gone-kept :
    (k : ℕ) (segs : List FinalSegment) (idx : List (ℕ × Entry))
    → has_segment k segs ≡ true
    → lookup k (forget_gone segs idx) ≡ lookup k idx
unfolding forget_gone lookup
forget_gone-kept k segs [] h = refl
forget_gone-kept k segs ((j, e) ∷ idx) h =
    let ih = forget_gone-kept k segs idx h in
    elim (Bool-cases (has_segment j segs)) [
      | inl there ↦ rw there (ap (λ o. if j == k then some e else o) ih)
      | inr gone ↦ rw (gone, has_segment-differs j k segs false true gone h (λ p. cc)) ih
    ]

pub forget_gone-gone :
    (k : ℕ) (segs : List FinalSegment) (idx : List (ℕ × Entry))
    → has_segment k segs ≡ false
    → lookup k (forget_gone segs idx) ≡ none
unfolding forget_gone lookup
forget_gone-gone k segs [] h = refl
forget_gone-gone k segs ((j, e) ∷ idx) h =
    let ih = forget_gone-gone k segs idx h in
    elim (Bool-cases (has_segment j segs)) [
      | inl there ↦ rw (there, has_segment-differs j k segs true false there h (λ p. cc)) ih
      | inr gone ↦ rw gone ih
    ]
