-- ===== src/SourceMount/Switching.antt =====
-- What a switch of the active source does, and whom it tells.
use stream_machine.Prelude.Lists.{length}
use stream_machine.SourceMount.{
  Source, SourceMount, Switch, Vitals, active_gone, alarm_rings, call, called, disconnected, done,
  failed_to_switch, find_uuid, first_is, has_changed, on_disconnect, on_vitals, promote_source,
  promoted, promoting, set_switch, source_changed, switch_at, switch_to, use_source, vitals_arrive,
  without, is_source,
}
use stream_machine.Prelude.{
  ◌++◌, List, Option, String, [], arith, false, none, refl, some, suc, true, zero, ℕ, ◌∷◌, ◌≡◌, ◌≢◌,
  ap,
}

switch_at-set_switch :
    (n : ℕ) (t s : Switch) (ss : List Switch)
    → switch_at n ss ≡ some s
    → switch_at n (set_switch n t ss) ≡ some t
unfolding switch_at set_switch
switch_at-set_switch n t s [] h = cc
switch_at-set_switch zero t s (x ∷ xs) h = refl
switch_at-set_switch (suc n) t s (x ∷ xs) h = switch_at-set_switch n t s xs h

switch_at-append : (ss : List Switch) (s : Switch) → switch_at (length ss) (ss ++ s ∷ []) ≡ some s
unfolding switch_at
switch_at-append [] s = refl
switch_at-append (x ∷ xs) s = switch_at-append xs s

not-has_changed_self : (o : Option Source) → has_changed o o ≡ false
unfolding has_changed
not-has_changed_self none = refl
not-has_changed_self (some s) = ground arith

-- When the vitals that a switch waits for arrive and the active source is still the one of the
-- call, the new source is the active one and listed first, the others keep their order, the
-- callback is told once, and the alarm stays silent.
pub vitals_arrive-switch_to :
    (m : SourceMount) (n : ℕ) (sw : Switch) (v : Vitals)
    → switch_at n m.switches ≡ some sw
    → sw.waiting ≡ true
    → has_changed m.source sw.old_source ≡ false
    → let r = vitals_arrive m n v in
      (r.0.source ≡ some sw.newsource)
      × (r.0.sources ≡ sw.newsource ∷ without sw.newsource m.sources)
      × (r.1 ≡ call sw.cb done)
      × (alarm_rings r.0 n ≡ (r.0, []))
unfolding vitals_arrive on_vitals switch_to
vitals_arrive-switch_to m n sw v present waits stays =
    let off = record sw { waiting = false; alarm = false } in
    let silenced : switch_at n (set_switch n off m.switches) ≡ some off =
      switch_at-set_switch n off sw m.switches present in
    rw (present, vitals_arrive, waits, stays)
      (refl, refl, refl, unfold alarm_rings in rw (silenced, alarm_rings) refl)

-- The callback of one switch can be told twice: that the source has changed and, as that leaves
-- the alarm set, that the switch has failed.
pub changed-calls_twice :
    (m : SourceMount) (n : ℕ) (sw : Switch) (v : Vitals)
    → switch_at n m.switches ≡ some sw
    → sw.waiting ≡ true
    → sw.alarm ≡ true
    → has_changed m.source sw.old_source ≡ true
    → let r = vitals_arrive m n v in
      r.1 ++ (alarm_rings r.0 n).1 ≡ call sw.cb source_changed ++ call sw.cb failed_to_switch
unfolding vitals_arrive on_vitals
changed-calls_twice m n sw v present waits armed changed =
    let heard = record sw { waiting = false } in
    let still : switch_at n (set_switch n heard m.switches) ≡ some heard =
      switch_at-set_switch n heard sw m.switches present in
    rw (present, vitals_arrive, waits, changed)
      (unfold alarm_rings in rw (still, alarm_rings, armed) refl)

-- Vitals that arrive after the alarm switch the source all the same: the callback is told that the
-- switch has failed, and then that it is done.
pub late_vitals-calls_twice :
    (m : SourceMount) (n : ℕ) (sw : Switch) (v : Vitals)
    → switch_at n m.switches ≡ some sw
    → sw.waiting ≡ true
    → sw.alarm ≡ true
    → has_changed m.source sw.old_source ≡ false
    → let r = alarm_rings m n in
      (r.1 ++ (vitals_arrive r.0 n v).1 ≡ call sw.cb failed_to_switch ++ call sw.cb done)
      × ((vitals_arrive r.0 n v).0.source ≡ some sw.newsource)
unfolding alarm_rings
late_vitals-calls_twice m n sw v present waits armed stays =
    let rung = record sw { alarm = false } in
    let still : switch_at n (set_switch n rung m.switches) ≡ some rung =
      switch_at-set_switch n rung sw m.switches present in
    rw (present, alarm_rings, armed)
      (unfold vitals_arrive on_vitals switch_to in
        rw (still, vitals_arrive, waits, stays) (refl, refl))

-- Promoting a listed source that is not first, and knows its vitals, makes it the active one and
-- the first at once, and tells the callback so.
pub promote_source-switches :
    (m : SourceMount) (uuid : String) (known : ℕ → Option Vitals) (k : ℕ) (s : Source) (v : Vitals)
    → find_uuid uuid m.sources ≡ some s
    → first_is s m.sources ≡ false
    → known s.id ≡ some v
    → let r = promote_source m uuid known k in
      (r.0.source ≡ some s)
      × (r.0.sources ≡ s ∷ without s m.sources)
      × (r.1 ≡ called k (promoted uuid) ∷ [])
unfolding promote_source use_source call
promote_source-switches m uuid known k s v found behind knows =
    let sw : Switch = record {
      newsource = s;
      old_source = m.source;
      cb = promoting k uuid;
      waiting = true;
      alarm = true;
    } in
    let m' = record m { switches = m.switches ++ sw ∷ [] } in
    let (active, listed, told, stilled) =
      vitals_arrive-switch_to m' (length m.switches) sw v (switch_at-append m.switches sw) refl
        (not-has_changed_self m.source) in
    rw (found, promote_source, behind, knows) (active, listed, told)

active_leaves :
    (m : SourceMount) (a b : Source) (known : ℕ → Option Vitals)
    → m.source ≡ some a
    → m.sources ≡ a ∷ b ∷ []
    → a.id ≢ b.id
    → known b.id ≡ none
    → let r = on_disconnect m a known in (r.0.sources ≡ b ∷ []) × (r.0.source ≡ some a)
unfolding on_disconnect active_gone use_source
active_leaves m a b known active listed apart waits =
    let is_active : is_source m.source a ≡ true = rw active (unfold is_source in ground arith) in
    let remains : without a m.sources ≡ b ∷ [] = rw listed (unfold without in ground arith) in
    rw (is_active, remains, waits) (refl, active)

inactive_leaves :
    (m : SourceMount) (a b : Source) (known : ℕ → Option Vitals)
    → m.source ≡ some a
    → m.sources ≡ b ∷ []
    → a.id ≢ b.id
    → let r = on_disconnect m b known in
      (r.0.sources ≡ []) × (r.0.source ≡ some a) × (r.1 ≡ disconnected false 0 (some a) ∷ [])
unfolding on_disconnect
inactive_leaves m a b known active listed apart =
    let is_inactive : is_source m.source b ≡ false = rw active (unfold is_source in ground arith) in
    let remains : without b m.sources ≡ [] = rw listed (unfold without in ground arith) in
    rw (is_inactive, remains) (refl, active, ap (λ s. disconnected false 0 s ∷ []) active)

-- If the active source leaves, the next one has no vitals yet, and that one leaves as well, no
-- source is left but the mount keeps the first as its active one, and tells its listeners that an
-- inactive source has left.
pub both_leave-keeps_source :
    (m : SourceMount) (a b : Source) (known : ℕ → Option Vitals)
    → m.source ≡ some a
    → m.sources ≡ a ∷ b ∷ []
    → a.id ≢ b.id
    → known b.id ≡ none
    → let r = on_disconnect m a known in
      let r' = on_disconnect r.0 b known in
      (r'.0.sources ≡ []) × (r'.0.source ≡ some a) × (r'.1 ≡ disconnected false 0 (some a) ∷ [])
both_leave-keeps_source m a b known active listed apart waits =
    let (listed', active') = active_leaves m a b known active listed apart waits in
    inactive_leaves (on_disconnect m a known).0 a b known active' listed' apart
