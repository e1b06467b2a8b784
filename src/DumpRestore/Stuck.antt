-- ===== src/DumpRestore/Stuck.antt =====
-- A dumper of dump_restore.js that is active and has no dump that could end.
use stream_machine.DumpRestore.Turns.{reports-after_of}
use stream_machine.DumpRestore.Loading.Apart.{reports, set_dumper-cases}
use stream_machine.DumpRestore.{
  DumpRestore, Dumper, Effect, Result, already_active, begin_dump, called_back, dump_next,
  dump_turn, load_complete, reported, set_dumper, told_loaded, after_of,
}
use stream_machine.Prelude.Tests.{◌==◌, Bool-cases}
use stream_machine.Prelude.{
  ◌++◌, List, Option, [], ap, arith, inl, inr, none, refl, some, subst, sym, true, ℕ, ◌∙◌, ◌∷◌, ◌≡◌,
  ◌≢◌, ◌⊎◌,
}

abbrev pub IsStuck : Dumper → Type 0
IsStuck d = (d.active ≡ true) × (d.job ≡ none)

-- Every report about the dumper is that it was active already.
abbrev pub AllBusy : ℕ → List Effect → Type 0
AllBusy i [] = Unit {0}
AllBusy i (reported j r ∷ es) = ((j ≢ i) ⊎ (r ≡ already_active)) × AllBusy i es
AllBusy i (e ∷ es) = AllBusy i es

pub append-AllBusy :
    (i : ℕ) (xs ys : List Effect) → AllBusy i xs → AllBusy i ys → AllBusy i (xs ++ ys)
append-AllBusy i [] ys a b = b
append-AllBusy i (reported j r ∷ xs) ys (first, a) b = (first, append-AllBusy i xs ys a b)
append-AllBusy i (called_back k ∷ xs) ys a b = append-AllBusy i xs ys a b
append-AllBusy i (told_loaded k ∷ xs) ys a b = append-AllBusy i xs ys a b
append-AllBusy i (load_complete m n ∷ xs) ys a b = append-AllBusy i xs ys a b

pub silent-AllBusy : (i : ℕ) (xs : List Effect) → reports xs ≡ [] → AllBusy i xs
silent-AllBusy i [] e = tt
silent-AllBusy i (reported j r ∷ xs) e = absurd (cc e)
silent-AllBusy i (called_back k ∷ xs) e = silent-AllBusy i xs e
silent-AllBusy i (told_loaded k ∷ xs) e = silent-AllBusy i xs e
silent-AllBusy i (load_complete m n ∷ xs) e = silent-AllBusy i xs e

-- A step after which the dumper is still stuck, and of which it has no other report.
abbrev pub StaysStuck : ℕ → DumpRestore × List Effect → Type 0
StaysStuck i out = IsStuck (out.0.dumpers i) × AllBusy i out.1

pub set_other :
    (i j : ℕ) (d : Dumper) (ds : ℕ → Dumper)
    → j ≢ i
    → IsStuck (ds i)
    → IsStuck (set_dumper j d ds i)
set_other i j d ds other stuck = elim (set_dumper-cases j d ds i) [
  | inl (_, this, _) ↦ absurd (other this)
  | inr (_, there) ↦ subst IsStuck (sym there) stuck
]

dump_turn-StaysStuck :
    (i j : ℕ) (q : List ℕ) (s : DumpRestore) (rest : DumpRestore × List Effect)
    (begun : Dumper × Option Result)
    → j ≢ i
    → IsStuck (s.dumpers i)
    → StaysStuck i rest
    → StaysStuck i (dump_turn j q s rest begun)
unfolding dump_turn
dump_turn-StaysStuck i j q s rest (d, none) other stuck after =
    (set_other i j d s.dumpers other stuck, tt)
dump_turn-StaysStuck i j q s rest (d, some r) other stuck after = (after.0, (inl other, after.1))

pub dump_next-StaysStuck :
    (i : ℕ) (q : List ℕ) (s : DumpRestore) → IsStuck (s.dumpers i) → StaysStuck i (dump_next q s)
unfolding dump_next dump_turn begin_dump
dump_next-StaysStuck i [] s stuck =
    (stuck, silent-AllBusy i (after_of s.after_dumps) (reports-after_of s.after_dumps))
dump_next-StaysStuck i (j ∷ q) s stuck =
    let rest = dump_next-StaysStuck i q s stuck in
    elim (Bool-cases (j == i)) [
      | inl this ↦
          let is_it : j ≡ i = ground (arith, this) in
          let busy : (s.dumpers j).active ≡ true = ap (λ k. (s.dumpers k).active) is_it ∙ stuck.0 in
          rw busy (rest.0, (inr refl, rest.1))
      | inr other ↦
          dump_turn-StaysStuck i j q s (dump_next q s) (begin_dump (s.dumpers j))
            (λ e. ground (arith, other, e)) stuck rest
    ]
