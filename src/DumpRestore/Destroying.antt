-- ===== src/DumpRestore/Destroying.antt =====
-- The streams that dump_restore.js knows, and what is left of them when one is destroyed.
use stream_machine.DumpRestore.Loading.Apart.{reports}
use stream_machine.DumpRestore.Runs.{new_dump_restore-in_turn}
use stream_machine.DumpRestore.Running.{destroys, react, react_all, triggers}
use mathlib.Core.List.{append-nil}
use stream_machine.DumpRestore.Turns.{IsWorking, the_one}
use stream_machine.DumpRestore.{
  DumpRestore, add_first, first_destroyed, new_dump_restore, new_stream, put_stream, remove_stream,
  no_streams, forget, snds,
}
use stream_machine.Prelude.Tests.{◌==◌, Bool-cases, if◌then◌else◌, some_eq}
use stream_machine.Prelude.{
  ◌++◌, List, Option, [], ap, arith, false, inl, inr, none, refl, some, sym, true, ℕ, ◌∙◌, ◌∷◌, ◌≡◌,
  ◌≢◌, Bool, ◌||◌,
}

abbrev pub find : ℕ → List (ℕ × ℕ) → Option ℕ
find key [] = none
find key ((k, i) ∷ m) = if k == key then some i else find key m

abbrev HasUnique : List (ℕ × ℕ) → Type 0
HasUnique [] = Unit {0}
HasUnique ((k, i) ∷ m) = (find k m ≡ none) × HasUnique m

find-put_stream : (key i : ℕ) (m : List (ℕ × ℕ)) → find key (put_stream key i m) ≡ some i
unfolding put_stream
find-put_stream key i [] = let same : (key == key) ≡ true = ground arith in rw same refl
find-put_stream key i ((k, j) ∷ m) = elim (Bool-cases (k == key)) [
  | inl this ↦ let same : (key == key) ≡ true = ground arith in rw (this, same) refl
  | inr other ↦ rw (other, other) (find-put_stream key i m)
]

find-put_stream_other :
    (key other i : ℕ) (m : List (ℕ × ℕ))
    → key ≢ other
    → find other (put_stream key i m) ≡ find other m
unfolding put_stream
find-put_stream_other key other i [] differs =
    let is_other : (key == other) ≡ false = ground (arith, differs) in rw is_other refl
find-put_stream_other key other i ((k, j) ∷ m) differs = elim (Bool-cases (k == key)) [
  | inl this ↦
      let is_other : (key == other) ≡ false = ground (arith, differs) in
      let so_is_k : (k == other) ≡ false = ground (arith, differs, this) in
      rw (this, is_other, so_is_k) refl
  | inr not_this ↦
      let rest = find-put_stream_other key other i m differs in
      rw not_this (ap (λ r. if k == other then some j else r) rest)
]

put_stream-HasUnique : (key i : ℕ) (m : List (ℕ × ℕ)) → HasUnique m → HasUnique (put_stream key i m)
unfolding put_stream
put_stream-HasUnique key i [] u = (refl, tt)
put_stream-HasUnique key i ((k, j) ∷ m) u = elim (Bool-cases (k == key)) [
  | inl this ↦
      let same : k ≡ key = ground (arith, this) in
      rw this (ap (λ n. find n m) (sym same) ∙ u.0, u.1)
  | inr not_this ↦ rw not_this (
    find-put_stream_other key k i m (λ e. ground (arith, not_this, e)) ∙ u.0,
    put_stream-HasUnique key i m u.1,
  )
]

find-remove_stream :
    (key : ℕ) (m : List (ℕ × ℕ)) → HasUnique m → find key (remove_stream key m) ≡ none
unfolding remove_stream
find-remove_stream key [] u = refl
find-remove_stream key ((k, j) ∷ m) u = elim (Bool-cases (k == key)) [
  | inl this ↦
      let same : k ≡ key = ground (arith, this) in rw this (ap (λ n. find n m) (sym same) ∙ u.0)
  | inr other ↦ rw (other, other) (find-remove_stream key m u.1)
]

find-remove_stream_other :
    (key other : ℕ) (m : List (ℕ × ℕ))
    → key ≢ other
    → find other (remove_stream key m) ≡ find other m
unfolding remove_stream
find-remove_stream_other key other [] differs = refl
find-remove_stream_other key other ((k, j) ∷ m) differs = elim (Bool-cases (k == key)) [
  | inl this ↦
      let so_is_k : (k == other) ≡ false = ground (arith, differs, this) in rw (this, so_is_k) refl
  | inr not_this ↦
      let rest = find-remove_stream_other key other m differs in
      rw not_this (ap (λ r. if k == other then some j else r) rest)
]

-- After the constructor's loop over the streams.
record IsFilled (last : ℕ) (s : DumpRestore) : Type 0 where
  unique : HasUnique s.streams
  last_known : s.last_key ≡ some last
  last_there : (i : ℕ) × (find last s.streams ≡ some i)

add_first-IsFilled :
    (ks : List ℕ) (last : ℕ) (s : DumpRestore)
    → HasUnique s.streams
    → IsFilled last (add_first (ks ++ last ∷ []) s)
unfolding add_first new_stream
add_first-IsFilled [] last s u = record {
  unique = put_stream-HasUnique last s.next_dumper s.streams u;
  last_known = refl;
  last_there = (s.next_dumper, find-put_stream last s.next_dumper s.streams);
}
add_first-IsFilled (k ∷ ks) last s u =
    add_first-IsFilled ks last (record (new_stream k s) { last_key = some k })
      (put_stream-HasUnique k s.next_dumper s.streams u)

first_destroyed-streams :
    (key last : ℕ) (s : DumpRestore)
    → s.last_key ≡ some last
    → (first_destroyed key s).streams ≡ remove_stream last s.streams
unfolding first_destroyed forget
first_destroyed-streams key last s known = ap (λ o. (forget o s).streams) known

-- A dumper for the key.
abbrev HasDumper : ℕ → DumpRestore → Type 0
HasDumper key s = (i : ℕ) × (find key s.streams ≡ some i)

put_stream-HasDumper :
    (key k i : ℕ) (s : DumpRestore)
    → HasDumper key s
    → (j : ℕ) × (find key (put_stream k i s.streams) ≡ some j)
put_stream-HasDumper key k i s (j, there) = elim (Bool-cases (k == key)) [
  | inl this ↦
      let same : k ≡ key = ground (arith, this) in
      (i, ap (λ n. find n (put_stream k i s.streams)) (sym same) ∙ find-put_stream k i s.streams)
  | inr other ↦ (j, find-put_stream_other k key i s.streams (λ e. ground (arith, other, e)) ∙ there)
]

add_first-HasDumper :
    (key : ℕ) (ks : List ℕ) (s : DumpRestore) → HasDumper key s → HasDumper key (add_first ks s)
unfolding add_first new_stream
add_first-HasDumper key [] s there = there
add_first-HasDumper key (k ∷ ks) s there =
    add_first-HasDumper key ks _ (put_stream-HasDumper key k s.next_dumper s there)

abbrev pub has_item : ℕ → List ℕ → Bool
has_item key [] = false
has_item key (k ∷ ks) = k == key || has_item key ks

has_item-HasDumper :
    (key last : ℕ) (ks : List ℕ) (s : DumpRestore)
    → has_item key ks ≡ true
    → HasDumper key (add_first (ks ++ last ∷ []) s)
unfolding add_first new_stream
has_item-HasDumper key last [] s h = absurd (cc h)
has_item-HasDumper key last (k ∷ ks) s h = elim (Bool-cases (k == key)) [
  | inl this ↦
      let same : k ≡ key = ground (arith, this) in
      let there : find key (put_stream k s.next_dumper s.streams) ≡ some s.next_dumper =
        ap (λ n. find n (put_stream k s.next_dumper s.streams)) (sym same)
        ∙ find-put_stream k s.next_dumper s.streams in
      add_first-HasDumper key (ks ++ last ∷ []) _ (s.next_dumper, there)
  | inr other ↦ has_item-HasDumper key last ks _ (rw other at h)
]

find-has_item : (key i : ℕ) (m : List (ℕ × ℕ)) → find key m ≡ some i → has_item i (snds m) ≡ true
unfolding snds
find-has_item key i [] e = absurd (cc e)
find-has_item key i ((k, j) ∷ m) e = elim (Bool-cases (k == key)) [
  | inl this ↦
      let same : j ≡ i = some_eq (rw this at e) in
      let found : (j == i) ≡ true = ground (arith, same) in rw found refl
  | inr other ↦ ground (arith, find-has_item key i m (rw other at e))
]

-- When one of the streams that were there at first is destroyed, and it is not the last of them, both
-- have a dumper before; then the last one has none, and the destroyed
-- one keeps its own and is dumped as before: when the dumps are triggered next, the dumps
-- that are reported, that is in progress and that wait are those of all the dumpers left, and the
-- one of the destroyed stream is among them.
pub first_destroyed-deletes_last :
    (ks : List ℕ) (last key : ℕ)
    → has_item key ks ≡ true
    → last ≢ key
    → let before = new_dump_restore (ks ++ last ∷ []) in
      let after = first_destroyed key before in
      let out = react_all before (destroys key ∷ triggers none ∷ []) in
      (i l : ℕ) × (current : Option ℕ) × (find key before.streams ≡ some i)
      × (find last before.streams ≡ some l)
      × (find key after.streams ≡ some i)
      × (find last after.streams ≡ none)
      × IsWorking out.0 current
      × (reports out.1 ++ (the_one current ++ out.0.queue) ≡ snds after.streams)
      × (has_item i (snds after.streams) ≡ true)
unfolding new_dump_restore react
first_destroyed-deletes_last ks last key first differs =
    let s = add_first (ks ++ last ∷ []) no_streams in
    let v = add_first-IsFilled ks last no_streams tt in
    let left = first_destroyed-streams key last s v.last_known in
    let (i, there) = has_item-HasDumper key last ks no_streams first in
    let kept : find key (first_destroyed key s).streams ≡ some i =
      ap (find key) left ∙ find-remove_stream_other last key s.streams differs ∙ there in
    let (current, working, turns) =
      new_dump_restore-in_turn (ks ++ last ∷ []) (destroys key ∷ triggers none ∷ []) in
    (
      i,
      v.last_there.0,
      current,
      there,
      v.last_there.1,
      kept,
      ap (find last) left ∙ find-remove_stream last s.streams v.unique,
      working,
      turns ∙ append-nil (snds (first_destroyed key s).streams),
      find-has_item key i (first_destroyed key s).streams kept,
    )
