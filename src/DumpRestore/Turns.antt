-- ===== src/DumpRestore/Turns.antt =====
-- The queue of dump_restore.js: each dumper that is queued gets its turn.
use mathlib.Core.List.{append-nil}
use stream_machine.DumpRestore.Files.{Owned, has_open, Went}
use stream_machine.DumpRestore.Loading.Apart.{IsApart, reports, set_dumper-cases}
use stream_machine.DumpRestore.{
  DumpRestore, Dumper, Effect, Job, Result, after_of, already_active, begin_dump, dump_next, snds,
  trigger_dumps, while_loading, opening, dump_turn, answered, set_dumper,
}
use stream_machine.Prelude.Tests.{◌==◌, Bool-cases, if◌then◌else◌}
use stream_machine.Prelude.{
  ◌++◌, Bool, List, Option, [], ap, false, inl, inr, none, not, refl, some, subst, sym, true, ℕ,
  ◌∙◌, ◌∷◌, ◌≡◌, ◌⊎◌, arith,
}

abbrev pub is_dumper : Option ℕ → ℕ → Bool
is_dumper none j = false
is_dumper (some i) j = i == j

abbrev pub is_there : Option ℕ → Bool
is_there none = false
is_there (some i) = true

abbrev pub the_one : Option ℕ → List ℕ
the_one none = []
the_one (some i) = i ∷ []

-- The dump that is in progress is the given one, and the queue waits for it.
pub record IsWorking (s : DumpRestore) (current : Option ℕ) : Type 0 where
  pub open_one : (j : ℕ) → has_open (s.dumpers j) ≡ is_dumper current j
  pub owned : (j : ℕ) → Owned (s.dumpers j)
  pub flag : s.working ≡ is_there current
  pub rest : (current ≡ none) → s.queue ≡ []

-- After a step: what was reported, what is in progress and what waits are, in order, those given.
pub record HasTurns (q : List ℕ) (out : DumpRestore × List Effect) : Type 0 where
  pub current : Option ℕ
  pub working : IsWorking out.0 current
  pub in_turn : reports out.1 ++ (the_one current ++ out.0.queue) ≡ q

begin_dump-cases :
    (d : Dumper)
    → Owned d
    → has_open d ≡ false
    → ((r : Result) × (begin_dump d ≡ (d, some r)))
      ⊎ ((d' : Dumper) × (begin_dump d ≡ (d', none)) × (has_open d' ≡ true) × Owned d')
unfolding begin_dump
begin_dump-cases d owned closed = elim (Bool-cases d.active) [
  | inl busy ↦ inl (already_active, rw busy refl)
  | inr idle ↦ elim (Bool-cases d.is_loading) [
    | inl loads ↦ inl (while_loading, rw (idle, loads) refl)
    | inr still ↦ inr (
      record d { active = true; job = some (record { stage = opening; called = false }) },
      rw (idle, still) refl,
      refl,
      inr refl,
    )
  ]
]

pub reports-after_of : (after : Option ℕ) → reports (after_of after) ≡ []
unfolding after_of
reports-after_of none = refl
reports-after_of (some k) = refl

dump_next-HasTurns :
    (q : List ℕ) (s : DumpRestore)
    → ((j : ℕ) → has_open (s.dumpers j) ≡ false)
    → ((j : ℕ) → Owned (s.dumpers j))
    → HasTurns q (dump_next q s)
unfolding dump_next dump_turn
dump_next-HasTurns [] s closed owned = record {
  current = none;
  working = record { open_one = closed; owned = owned; flag = refl; rest = λ e. refl };
  in_turn = rw (reports-after_of s.after_dumps) refl;
}
dump_next-HasTurns (i ∷ q) s closed owned =
    elim (begin_dump-cases (s.dumpers i) (owned i) (closed i)) [
      | inl (r, refused) ↦
          let v = dump_next-HasTurns q s closed owned in
          rw (refused, dump_next)
            (record {
              current = v.current;
              working = v.working;
              in_turn = ap (λ l. i ∷ l) v.in_turn;
            })
      | inr (d', begun, opened, mine) ↦
          rw (begun, dump_next)
            (record {
              current = some i;
              working = record {
                open_one = λ j. elim (set_dumper-cases i d' s.dumpers j) [
                  | inl (this, _, there) ↦ ap has_open there ∙ opened ∙ sym this
                  | inr (other, there) ↦ ap has_open there ∙ closed j ∙ sym other
                ];
                owned = λ j. elim (set_dumper-cases i d' s.dumpers j) [
                  | inl (_, _, there) ↦ subst Owned (sym there) mine
                  | inr (_, there) ↦ subst Owned (sym there) (owned j)
                ];
                flag = refl;
                rest = λ e. absurd (cc e);
              };
              in_turn = refl;
            })
    ]

pub trigger_dumps-HasTurns :
    (after : Option ℕ) (s : DumpRestore) (current : Option ℕ)
    → IsWorking s current
    → HasTurns (the_one current ++ (s.queue ++ snds s.streams)) (trigger_dumps after s)
unfolding trigger_dumps
trigger_dumps-HasTurns after s current v = go current v v.flag
  where
    queue : List ℕ
    queue = s.queue ++ snds s.streams

    started : DumpRestore × List Effect
    started = dump_next queue (record s { after_dumps = after })

    go :
        (c : Option ℕ)
        → IsWorking s c
        → s.working ≡ is_there c
        → HasTurns
            (the_one c ++ queue)
            (if s.working then (record s { queue = queue }, []) else started)
    go none u flag =
        let turns =
          dump_next-HasTurns queue (record s { after_dumps = after }) u.open_one u.owned in
        subst (λ b. HasTurns queue (if b then (record s { queue = queue }, []) else started))
          (sym flag) turns
    go (some i) u flag =
        subst (λ b. HasTurns (i ∷ queue) (if b then (record s { queue = queue }, []) else started))
          (sym flag)
          (record {
            current = some i;
            working = record {
              open_one = u.open_one;
              owned = u.owned;
              flag = flag;
              rest = λ e. absurd (cc e);
            };
            in_turn = refl;
          })

pub IsApart-HasTurns :
    (s : DumpRestore) (current : Option ℕ) (out : DumpRestore × List Effect)
    → IsWorking s current
    → IsApart s out
    → HasTurns (the_one current ++ (s.queue ++ [])) out
IsApart-HasTurns s current out v a = record {
  current = current;
  working = record {
    open_one = λ j. ap open_of (a.job_kept j) ∙ v.open_one j;
    owned = λ j. elim (v.owned j) [
      | inl ended ↦ inl (a.job_kept j ∙ ended)
      | inr active ↦ inr (a.active_kept j ∙ active)
    ];
    flag = a.working_kept ∙ v.flag;
    rest = λ e. a.queue_kept ∙ v.rest e;
  };
  in_turn = rw (a.silent, a.queue_kept) (ap (λ l. the_one current ++ l) (sym (append-nil s.queue)));
}
  where
    open_of : Option Job → Bool
    open_of none = false
    open_of (some j) = not j.called

pub set_dumper-Owned :
    (i : ℕ) (d : Dumper) (ds : ℕ → Dumper)
    → Owned d
    → ((j : ℕ) → Owned (ds j))
    → (j : ℕ) → Owned (set_dumper i d ds j)
set_dumper-Owned i d ds mine owned j = elim (set_dumper-cases i d ds j) [
  | inl (_, _, there) ↦ subst Owned (sym there) mine
  | inr (_, there) ↦ subst Owned (sym there) (owned j)
]

pub answered-HasTurns :
    (i : ℕ) (d : Dumper) (r : Option Result) (s : DumpRestore) (current : Option ℕ)
    → IsWorking s current
    → Went (s.dumpers i) (d, r)
    → HasTurns
        (the_one current ++ (s.queue ++ []))
        (answered i r (record s { dumpers = set_dumper i d s.dumpers }))
unfolding answered
answered-HasTurns i d none s current v (same, mine) = record {
  current = current;
  working = record {
    open_one = λ j. elim (set_dumper-cases i d s.dumpers j) [
      | inl (_, this, there) ↦
          ap has_open there ∙ same ∙ ap (λ k. has_open (s.dumpers k)) this ∙ v.open_one j
      | inr (_, there) ↦ ap has_open there ∙ v.open_one j
    ];
    owned = set_dumper-Owned i d s.dumpers mine v.owned;
    flag = v.flag;
    rest = v.rest;
  };
  in_turn = ap (λ l. the_one current ++ l) (sym (append-nil s.queue));
}
answered-HasTurns i d (some r) s none v (opened, closed, mine) = absurd (cc (opened, v.open_one i))
answered-HasTurns i d (some r) s (some c) v (opened, closed, mine) =
    let same : (c == i) ≡ true = sym (v.open_one i) ∙ opened in
    let c_is : c ≡ i = ground (arith, same) in
    let turns =
      dump_next-HasTurns s.queue (record s { dumpers = set_dumper i d s.dumpers })
        (λ j. elim (set_dumper-cases i d s.dumpers j) [
          | inl (_, _, there) ↦ ap has_open there ∙ closed
          | inr (other, there) ↦ ap has_open there ∙ v.open_one j ∙ ap (λ k. k == j) c_is ∙ other
        ])
        (set_dumper-Owned i d s.dumpers mine v.owned) in
    record {
      current = turns.current;
      working = turns.working;
      in_turn =
          ap (λ l. i ∷ l) turns.in_turn
          ∙ ap (λ k. k ∷ s.queue) (sym c_is)
          ∙ ap (λ l. c ∷ l) (sym (append-nil s.queue));
    }
