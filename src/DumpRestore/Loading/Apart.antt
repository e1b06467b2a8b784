-- ===== src/DumpRestore/Loading/Apart.antt =====
-- What does not touch the dumps of dump_restore.js: the loading, and streams that go.
use stream_machine.DumpRestore.Loading.{
  LoadEvent, buffer_loads, end_load, file_opens, load, load_event_at, load_next, on_load_event,
  once_loaded, read_fails, tell_all,
}
use stream_machine.DumpRestore.{
  DumpRestore, Dumper, Effect, Reading, called_back, filling, load_complete, no_reading, reported,
  set_dumper, snds, to_open, told_loaded, first_destroyed, forget,
}
use stream_machine.Prelude.Tests.{◌==◌, Bool-cases}
use stream_machine.Prelude.{
  ◌++◌, Bool, List, [], ap, arith, false, inl, inr, not, refl, true, ℕ, ◌∙◌, ◌∷◌, ◌≡◌, ◌⊎◌, Option,
  none, some,
}

-- The dumpers whose dumps are reported.
abbrev pub reports : List Effect → List ℕ
reports [] = []
reports (reported i r ∷ es) = i ∷ reports es
reports (e ∷ es) = reports es

pub reports-append : (xs ys : List Effect) → reports (xs ++ ys) ≡ reports xs ++ reports ys
reports-append [] ys = refl
reports-append (reported i r ∷ xs) ys = ap (λ l. i ∷ l) (reports-append xs ys)
reports-append (called_back k ∷ xs) ys = reports-append xs ys
reports-append (told_loaded k ∷ xs) ys = reports-append xs ys
reports-append (load_complete a b ∷ xs) ys = reports-append xs ys

pub record IsApart (s : DumpRestore) (out : DumpRestore × List Effect) : Type 0 where
  pub job_kept : (j : ℕ) → (out.0.dumpers j).job ≡ (s.dumpers j).job
  pub active_kept : (j : ℕ) → (out.0.dumpers j).active ≡ (s.dumpers j).active
  pub working_kept : out.0.working ≡ s.working
  pub queue_kept : out.0.queue ≡ s.queue
  pub silent : reports out.1 ≡ []

pub set_dumper-cases :
    (i : ℕ) (d : Dumper) (ds : ℕ → Dumper) (j : ℕ)
    → (((i == j) ≡ true) × (i ≡ j) × (set_dumper i d ds j ≡ d))
      ⊎ (((i == j) ≡ false) × (set_dumper i d ds j ≡ ds j))
unfolding set_dumper
set_dumper-cases i d ds j = elim (Bool-cases (i == j)) [
  | inl this ↦ inl (this, ground (arith, this), rw this refl)
  | inr other ↦ inr (other, rw other refl)
]

-- A dumper that keeps its job, and whether it is active, in place of another.
set_dumper-kept :
    {A : Type 0} (f : Dumper → A) (i : ℕ) (d : Dumper) (ds : ℕ → Dumper)
    → f d ≡ f (ds i)
    → (j : ℕ) → f (set_dumper i d ds j) ≡ f (ds j)
set_dumper-kept f i d ds same j = elim (set_dumper-cases i d ds j) [
  | inl (_, this, there) ↦ ap f there ∙ same ∙ ap (λ k. f (ds k)) this
  | inr (_, there) ↦ ap f there
]

load_next-IsApart : (q : List ℕ) (s : DumpRestore) → IsApart s (load_next q s)
unfolding load_next
load_next-IsApart [] s = record {
  job_kept = λ j. refl;
  active_kept = λ j. refl;
  working_kept = refl;
  queue_kept = refl;
  silent = refl;
}
load_next-IsApart (i ∷ q) s = record {
  job_kept = set_dumper-kept (λ d. d.job) i _ s.dumpers refl;
  active_kept = set_dumper-kept (λ d. d.active) i _ s.dumpers refl;
  working_kept = refl;
  queue_kept = refl;
  silent = refl;
}

tell_all-silent : (ks : List ℕ) → reports (tell_all ks) ≡ []
unfolding tell_all
tell_all-silent [] = refl
tell_all-silent (k ∷ ks) = tell_all-silent ks

end_load-IsApart :
    (i : ℕ) (d : Dumper) (status err : Bool) (s : DumpRestore)
    → d.job ≡ (s.dumpers i).job
    → d.active ≡ (s.dumpers i).active
    → IsApart s (end_load i d status err s)
unfolding end_load
end_load-IsApart i d status err s job active =
    let v = load_next-IsApart s.load_q _ in
    record {
      job_kept = λ j. v.job_kept j ∙ set_dumper-kept (λ d. d.job) i _ s.dumpers job j;
      active_kept = λ j. v.active_kept j ∙ set_dumper-kept (λ d. d.active) i _ s.dumpers active j;
      working_kept = v.working_kept;
      queue_kept = v.queue_kept;
      silent = reports-append (tell_all d.waiting) _ ∙ rw (tell_all-silent d.waiting) v.silent;
    }

nothing-IsApart : (s : DumpRestore) → IsApart s (s, [])
nothing-IsApart s = record {
  job_kept = λ j. refl;
  active_kept = λ j. refl;
  working_kept = refl;
  queue_kept = refl;
  silent = refl;
}

load_event_at-IsApart :
    (i : ℕ) (r : Reading) (e : LoadEvent) (s : DumpRestore)
    → IsApart s (load_event_at i (s.dumpers i) r e s)
unfolding load_event_at
load_event_at-IsApart i to_open file_opens s = record {
  job_kept = set_dumper-kept (λ d. d.job) i _ s.dumpers refl;
  active_kept = set_dumper-kept (λ d. d.active) i _ s.dumpers refl;
  working_kept = refl;
  queue_kept = refl;
  silent = refl;
}
load_event_at-IsApart i to_open (read_fails m) s =
    end_load-IsApart i (s.dumpers i) false (not m) s refl refl
load_event_at-IsApart i to_open buffer_loads s = nothing-IsApart s
load_event_at-IsApart i filling (read_fails m) s =
    end_load-IsApart i (s.dumpers i) false (not m) s refl refl
load_event_at-IsApart i filling buffer_loads s =
    end_load-IsApart i (record (s.dumpers i) { is_loading = false }) true false s refl refl
load_event_at-IsApart i filling file_opens s = nothing-IsApart s
load_event_at-IsApart i no_reading file_opens s = nothing-IsApart s
load_event_at-IsApart i no_reading buffer_loads s = nothing-IsApart s
load_event_at-IsApart i no_reading (read_fails m) s = nothing-IsApart s

pub on_load_event-IsApart :
    (i : ℕ) (e : LoadEvent) (s : DumpRestore) → IsApart s (on_load_event i e s)
unfolding on_load_event
on_load_event-IsApart i e s = load_event_at-IsApart i (s.dumpers i).reading e s

pub load-IsApart : (s : DumpRestore) → IsApart s (load s)
unfolding load
load-IsApart s =
    let v = load_next-IsApart (snds s.streams) (record s { success = 0; errors = 0 }) in
    record {
      job_kept = v.job_kept;
      active_kept = v.active_kept;
      working_kept = v.working_kept;
      queue_kept = v.queue_kept;
      silent = v.silent;
    }

pub once_loaded-IsApart : (i k : ℕ) (s : DumpRestore) → IsApart s (once_loaded i k s)
unfolding once_loaded
once_loaded-IsApart i k s = elim (Bool-cases (s.dumpers i).tried_load) [
  | inl tried ↦ rw tried (record {
    job_kept = λ j. refl;
    active_kept = λ j. refl;
    working_kept = refl;
    queue_kept = refl;
    silent = refl;
  })
  | inr waits ↦ rw waits (record {
    job_kept = set_dumper-kept (λ d. d.job) i _ s.dumpers refl;
    active_kept = set_dumper-kept (λ d. d.active) i _ s.dumpers refl;
    working_kept = refl;
    queue_kept = refl;
    silent = refl;
  })
]

forget-IsApart : (o : Option ℕ) (s : DumpRestore) → IsApart s (forget o s, [])
unfolding forget
forget-IsApart none s = nothing-IsApart s
forget-IsApart (some key) s = record {
  job_kept = λ j. refl;
  active_kept = λ j. refl;
  working_kept = refl;
  queue_kept = refl;
  silent = refl;
}

pub first_destroyed-IsApart : (key : ℕ) (s : DumpRestore) → IsApart s (first_destroyed key s, [])
unfolding first_destroyed
first_destroyed-IsApart key s = forget-IsApart s.last_key s
