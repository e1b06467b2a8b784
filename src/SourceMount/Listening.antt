-- ===== src/SourceMount/Listening.antt =====
-- The mount listens to its active source and to no other.
use stream_machine.Prelude.Lists.{length}
use stream_machine.SourceMount.{
  Callback, Source, SourceMount, Switch, Vitals, active_gone, add_source, alarm_rings, ask_vitals,
  disconnect_old, disconnect_source, find_uuid, first_is, first_is_fallback, has_changed, is_source,
  next_tick, on_disconnect, on_vitals, promote_source, promoting, remove_one, silent, switch_at,
  switch_to, use_source, vitals_arrive, vitals_each, vitals_func, without, Input, added, alarm_at,
  asked, data_passed, first_tick, left, new_mount, on_data, on_source_vitals, pass_data, promote,
  run, sends_data, sends_vitals, step, ticked, vitals_known,
}
use stream_machine.Prelude.Tests.{◌==◌, Bool-cases, Option-cases, if◌then◌else◌}
use stream_machine.Prelude.{
  ◌++◌, List, Option, String, [], arith, false, inl, inr, none, refl, some, true, ◌||◌, ℕ, ◌∷◌, ◌≡◌,
}

abbrev pub ids_of : Option Source → List ℕ
ids_of none = []
ids_of (some s) = s.id ∷ []

abbrev pub IsListening : SourceMount → Type 0
IsListening m = m.listening ≡ ids_of m.source

same_eq : (n k : ℕ) → n ≡ k → (n == k) ≡ true
same_eq n k h = ground arith

disconnect_old_lem :
    (cur old : Option Source) → has_changed cur old ≡ false → disconnect_old old (ids_of cur) ≡ []
unfolding disconnect_old disconnect_source remove_one has_changed
disconnect_old_lem none none h = refl
disconnect_old_lem none (some o) h = refl
disconnect_old_lem (some s) none h = cc
disconnect_old_lem (some s) (some o) h = ground arith

on_vitals-IsListening :
    (m : SourceMount) (n : ℕ) (sw : Switch) (v : Vitals)
    → IsListening m
    → IsListening (on_vitals m n sw v).0
unfolding on_vitals switch_to
on_vitals-IsListening m n sw v h = elim (Bool-cases (has_changed m.source sw.old_source)) [
  | inl changed ↦ rw changed h
  | inr stays ↦ rw (stays, h, disconnect_old_lem m.source sw.old_source stays) refl
]

vitals_arrive-IsListening :
    (m : SourceMount) (n : ℕ) (v : Vitals) → IsListening m → IsListening (vitals_arrive m n v).0
unfolding vitals_arrive
vitals_arrive-IsListening m n v h = elim (Option-cases (switch_at n m.switches)) [
  | inl absent ↦ rw (absent, vitals_arrive) h
  | inr (sw, present) ↦ elim (Bool-cases sw.waiting) [
    | inl waits ↦ rw (present, vitals_arrive, waits) (on_vitals-IsListening m n sw v h)
    | inr over ↦ rw (present, vitals_arrive, over) h
  ]
]

alarm_rings-IsListening :
    (m : SourceMount) (n : ℕ) → IsListening m → IsListening (alarm_rings m n).0
unfolding alarm_rings
alarm_rings-IsListening m n h = elim (Option-cases (switch_at n m.switches)) [
  | inl absent ↦ rw (absent, alarm_rings) h
  | inr (sw, present) ↦ elim (Bool-cases sw.alarm) [
    | inl armed ↦ rw (present, alarm_rings, armed) h
    | inr off ↦ rw (present, alarm_rings, off) h
  ]
]

use_source-IsListening :
    (m : SourceMount) (s : Source) (known : Option Vitals) (cb : Callback)
    → IsListening m
    → IsListening (use_source m s known cb).0
unfolding use_source
use_source-IsListening m s none cb h = h
use_source-IsListening m s (some v) cb h = vitals_arrive-IsListening _ (length m.switches) v h

add_source-IsListening :
    (m : SourceMount) (s : Source) (known : Option Vitals) (cb : Callback)
    → IsListening m
    → IsListening (add_source m s known cb).0
unfolding add_source
add_source-IsListening m s known cb h =
    let m' = record m { sources = m.sources ++ s ∷ [] } in
    elim (Bool-cases (first_is s m'.sources || first_is_fallback m'.sources)) [
      | inl takes_over ↦ rw takes_over (use_source-IsListening m' s known cb h)
      | inr waits ↦ rw waits h
    ]

gone : (o : Option Source) (s : Source) → is_source o s ≡ true → disconnect_source s (ids_of o) ≡ []
unfolding is_source disconnect_source remove_one
gone none s h = refl
gone (some t) s h = ground arith

active_gone-IsListening :
    (m : SourceMount) (s : Source) (ss : List Source) (known : ℕ → Option Vitals)
    → is_source m.source s ≡ true
    → IsListening m
    → IsListening (active_gone m s ss known).0
unfolding active_gone
active_gone-IsListening m s [] known e h = rw h (gone m.source s e)
active_gone-IsListening m s (t ∷ ts) known e h =
    use_source-IsListening (record m { sources = t ∷ ts }) t (known t.id) silent h

on_disconnect-IsListening :
    (m : SourceMount) (s : Source) (known : ℕ → Option Vitals)
    → IsListening m
    → IsListening (on_disconnect m s known).0
unfolding on_disconnect
on_disconnect-IsListening m s known h = elim (Bool-cases (is_source m.source s)) [
  | inl active ↦ rw active (active_gone-IsListening m s (without s m.sources) known active h)
  | inr inactive ↦ rw inactive h
]

promote_source-IsListening :
    (m : SourceMount) (uuid : String) (known : ℕ → Option Vitals) (k : ℕ)
    → IsListening m
    → IsListening (promote_source m uuid known k).0
unfolding promote_source
promote_source-IsListening m uuid known k h = elim (Option-cases (find_uuid uuid m.sources)) [
  | inl absent ↦ rw (absent, promote_source) h
  | inr (s, present) ↦ elim (Bool-cases (first_is s m.sources)) [
    | inl at_front ↦ rw (present, promote_source, at_front) h
    | inr behind ↦
        rw (present, promote_source, behind)
          (use_source-IsListening m s (known s.id) (promoting k uuid) h)
  ]
]

vitals_each-IsListening :
    (s : ℕ) (v : Vitals) (ks : List ℕ) (m : SourceMount)
    → IsListening m
    → IsListening (vitals_each s v ks m).0
unfolding vitals_each vitals_func
vitals_each-IsListening s v [] m h = h
vitals_each-IsListening s v (k ∷ ks) m h = elim (Bool-cases (k == s)) [
  | inl mine ↦ rw mine (vitals_each-IsListening s v ks (vitals_func m v).0 h)
  | inr other ↦ rw other (vitals_each-IsListening s v ks m h)
]

first_tick-IsListening :
    (m : SourceMount) (ts : List (Source × Vitals))
    → IsListening m
    → IsListening (first_tick m ts).0
unfolding first_tick vitals_func
first_tick-IsListening m [] h = h
first_tick-IsListening m ((s, v) ∷ rest) h = h

next_tick-IsListening : (m : SourceMount) → IsListening m → IsListening (next_tick m).0
unfolding next_tick
next_tick-IsListening m h = first_tick-IsListening m m.ticks h

ask_vitals-IsListening : (m : SourceMount) (k : ℕ) → IsListening m → IsListening (ask_vitals m k).0
unfolding ask_vitals
ask_vitals-IsListening m k h = elim (Option-cases m.vitals) [
  | inl unknown ↦ rw (unknown, ask_vitals) h
  | inr (v, known) ↦ rw (known, ask_vitals) h
]

step-IsListening : (m : SourceMount) (i : Input) → IsListening m → IsListening (step m i).0
unfolding step on_source_vitals
step-IsListening m (added s known cb) h = add_source-IsListening m s known cb h
step-IsListening m (left s known) h = on_disconnect-IsListening m s known h
step-IsListening m (promote uuid known k) h = promote_source-IsListening m uuid known k h
step-IsListening m (vitals_known n v) h = vitals_arrive-IsListening m n v h
step-IsListening m (alarm_at n) h = alarm_rings-IsListening m n h
step-IsListening m ticked h = next_tick-IsListening m h
step-IsListening m (asked k) h = ask_vitals-IsListening m k h
step-IsListening m (sends_vitals s v) h = vitals_each-IsListening s.id v m.listening m h
step-IsListening m (sends_data s chunk) h = h

pub run-IsListening : (is : List Input) (m : SourceMount) → IsListening m → IsListening (run m is)
unfolding run
run-IsListening [] m h = h
run-IsListening (i ∷ is) m h = run-IsListening is (step m i).0 (step-IsListening m i h)

only_active :
    (o : Option Source) (s : Source) (chunk : ℕ)
    → pass_data s.id chunk (ids_of o) ≡ (if is_source o s then data_passed chunk ∷ [] else [])
unfolding pass_data is_source
only_active none s chunk = refl
only_active (some t) s chunk = refl

-- Whatever has happened to the mount, and in which order (sources that come and go, switches
-- that wait for vitals, alarms, promotions), a chunk that a source sends is passed on exactly once
-- if that source is the active one, and never if it is not.
pub run-passes_active :
    (is : List Input) (s : Source) (chunk : ℕ)
    → let m = run new_mount is in
      (step m (sends_data s chunk)).1
      ≡ (if is_source m.source s then data_passed chunk ∷ [] else [])
unfolding step on_data new_mount
run-passes_active is s chunk =
    let m = run new_mount is in
    let listening : IsListening m = run-IsListening is new_mount refl in
    rw listening (only_active m.source s chunk)
