-- ===== src/SourceMount.antt =====
-- js/src/streammachine/master/source_mount.js: the sources of a mount, and which of them is active.
-- What a source knows of its vitals at the time of a call is an argument of the call; a switch
-- that has to wait for them goes on in `vitals_arrive`. The options, and `destroy`, which only calls
-- the sources' `disconnect`, are not modelled.
pub mod Listening
pub mod Switching
pub mod Tests
use stream_machine.Hls.Injector.Flow.{waiting}
use stream_machine.Prelude.Lists.{length}
use stream_machine.Prelude.{
  ◌++◌, Bool, List, Option, String, [], false, none, not, some, suc, true, zero, ◌||◌, ℕ, ◌∷◌,
}
use text.Mathlib.Text.{◌==◌ as str_eq}
use stream_machine.Prelude.Tests.{◌==◌, if◌then◌else◌}

-- A source is told from others by its id.
pub record Source : Type 0 where
  pub id : ℕ
  pub uuid : String
  pub is_fallback : Bool

pub record Vitals : Type 0 where
  pub stream_key : String
  pub emit_duration : ℕ

-- The callback of a switch: none, one with a number, or the one that `promoteSource` passes.
pub data Callback : Type 0 where
  silent : Callback
  plain : ℕ → Callback
  promoting : ℕ → String → Callback

pub data Result : Type 0 where
  done : Result
  already_active : String → Result
  promoted : String → Result
  failed_to_switch : Result
  source_changed : Result
  unknown_uuid : Result
  vitals_are : Vitals → Result

-- What is emitted, and the calls of callbacks.
pub data MountEvent : Type 0 where
  data_passed : ℕ → MountEvent
  disconnected : Bool → ℕ → Option Source → MountEvent
  source_added : Source → MountEvent
  source_active : Source → MountEvent
  vitals_emitted : Vitals → MountEvent
  called : ℕ → Result → MountEvent

-- A call of `useSource`: whether it waits for vitals, and whether its alarm is set.
pub record Switch : Type 0 where
  pub newsource : Source
  pub old_source : Option Source
  pub cb : Callback
  pub waiting : Bool
  pub alarm : Bool

-- `listening` has an id for each time that a source has the mount's listeners; `ticks` are the
-- functions that wait for the next tick, and `waiters` the callbacks that wait for vitals.
pub record SourceMount : Type 0 where
  pub sources : List Source
  pub source : Option Source
  pub vitals : Option Vitals
  pub emit_duration : Option ℕ
  pub listening : List ℕ
  pub switches : List Switch
  pub ticks : List (Source × Vitals)
  pub waiters : List ℕ

unfoldable pub new_mount : SourceMount
new_mount = record {
  sources = [];
  source = none;
  vitals = none;
  emit_duration = none;
  listening = [];
  switches = [];
  ticks = [];
  waiters = [];
}

abbrev pub same : Source → Source → Bool
same s t = s.id == t.id

-- _(sources).without(source)
pub without : Source → List Source → List Source
without s [] = []
without s (t ∷ ts) = let rest = without s ts in if same s t then rest else t ∷ rest

-- removeListener, which takes one away.
pub remove_one : ℕ → List ℕ → List ℕ
remove_one n [] = []
remove_one n (k ∷ ks) = let rest = remove_one n ks in if k == n then ks else k ∷ rest

-- `_disconnectSource`
disconnect_source : Source → List ℕ → List ℕ
unfolding remove_one
disconnect_source s ids = remove_one s.id ids

pub call : Callback → Result → List MountEvent
call silent r = []
call (plain k) r = called k r ∷ []
call (promoting k uuid) done = called k (promoted uuid) ∷ []
call (promoting k uuid) r = called k r ∷ []

unfoldable pub switch_at : ℕ → List Switch → Option Switch
switch_at n [] = none
switch_at zero (s ∷ ss) = some s
switch_at (suc n) (s ∷ ss) = switch_at n ss

set_switch : ℕ → Switch → List Switch → List Switch
set_switch n t [] = []
set_switch zero t (s ∷ ss) = t ∷ ss
set_switch (suc n) t (s ∷ ss) = s ∷ set_switch n t ss

-- this.source && old_source !== this.source
unfoldable pub has_changed : Option Source → Option Source → Bool
has_changed none old = false
has_changed (some s) none = true
has_changed (some s) (some o) = not (same s o)

disconnect_old : Option Source → List ℕ → List ℕ
unfolding disconnect_source
disconnect_old none ids = ids
disconnect_old (some s) ids = disconnect_source s ids

-- The new source takes over.
switch_to : SourceMount → ℕ → Switch → Vitals → SourceMount
unfolding disconnect_old without set_switch
switch_to m n sw v = record m {
  source = some sw.newsource;
  listening = disconnect_old sw.old_source m.listening ++ sw.newsource.id ∷ [];
  emit_duration = some v.emit_duration;
  ticks = m.ticks ++ (sw.newsource, v) ∷ [];
  sources = sw.newsource ∷ without sw.newsource m.sources;
  switches = set_switch n (record sw { waiting = false; alarm = false }) m.switches;
}

-- The callback of `newsource.vitals`.
on_vitals : SourceMount → ℕ → Switch → Vitals → SourceMount × List MountEvent
unfolding switch_to call has_changed set_switch
on_vitals m n sw v =
    if has_changed m.source sw.old_source
    then (
      record m { switches = set_switch n (record sw { waiting = false }) m.switches },
      call sw.cb source_changed,
    )
    else (switch_to m n sw v, call sw.cb done)

-- The vitals that the switch with the number waits for.
unfoldable pub vitals_arrive : SourceMount → ℕ → Vitals → SourceMount × List MountEvent
unfolding on_vitals switch_at
vitals_arrive m n v = elim (switch_at n m.switches) [
  | none ↦ (m, [])
  | some sw ↦ if sw.waiting then on_vitals m n sw v else (m, [])
]

-- Five seconds after the call of `useSource`.
pub alarm_rings : SourceMount → ℕ → SourceMount × List MountEvent
unfolding switch_at set_switch call
alarm_rings m n = elim (switch_at n m.switches) [
  | none ↦ (m, [])
  | some sw ↦
      if sw.alarm
      then (
        record m { switches = set_switch n (record sw { alarm = false }) m.switches },
        call sw.cb failed_to_switch,
      )
      else (m, [])
]

-- `useSource`, with what the new source knows of its vitals.
pub use_source : SourceMount → Source → Option Vitals → Callback → SourceMount × List MountEvent
unfolding vitals_arrive
use_source m newsource known cb =
    let sw : Switch = record {
      newsource = newsource;
      old_source = m.source;
      cb = cb;
      waiting = true;
      alarm = true;
    } in
    let m' = record m { switches = m.switches ++ sw ∷ [] } in
    elim known [ none ↦ (m', []) | some v ↦ vitals_arrive m' (length m.switches) v ]

first_is_fallback : List Source → Bool
first_is_fallback [] = false
first_is_fallback (s ∷ ss) = s.is_fallback

unfoldable pub first_is : Source → List Source → Bool
first_is s [] = false
first_is s (t ∷ ts) = same t s

-- `addSource`
unfoldable pub add_source :
    SourceMount → Source → Option Vitals → Callback → SourceMount × List MountEvent
unfolding use_source first_is_fallback first_is call
add_source m s known cb =
    let m' = record m { sources = m.sources ++ s ∷ [] } in
    if first_is s m'.sources || first_is_fallback m'.sources
    then use_source m' s known cb
    else (m', source_added s ∷ call cb done)

pub is_source : Option Source → Source → Bool
is_source none s = false
is_source (some t) s = same t s

-- The active source is gone: the first of the others takes over, or there is none.
active_gone :
    SourceMount → Source → List Source → (ℕ → Option Vitals) → SourceMount × List MountEvent
unfolding use_source disconnect_source
active_gone m s [] known = (
  record m { sources = []; source = none; listening = disconnect_source s m.listening },
  disconnected true 0 none ∷ [],
)
active_gone m s (t ∷ ts) known =
    let r = use_source (record m { sources = t ∷ ts }) t (known t.id) silent in
    (r.0, r.1 ++ disconnected true (length r.0.sources) r.0.source ∷ [])

-- The listener of a source's "disconnect".
pub on_disconnect : SourceMount → Source → (ℕ → Option Vitals) → SourceMount × List MountEvent
unfolding active_gone is_source without
on_disconnect m s known =
    if is_source m.source s then active_gone m s (without s m.sources) known else (
      record m { sources = without s m.sources },
      disconnected false (length (without s m.sources)) m.source ∷ [],
    )

unfoldable pub find_uuid : String → List Source → Option Source
find_uuid uuid [] = none
find_uuid uuid (s ∷ ss) = if str_eq s.uuid uuid then some s else find_uuid uuid ss

-- `promoteSource`
pub promote_source : SourceMount → String → (ℕ → Option Vitals) → ℕ → SourceMount × List MountEvent
unfolding find_uuid use_source first_is
promote_source m uuid known k = elim (find_uuid uuid m.sources) [
  | none ↦ (m, called k unknown_uuid ∷ [])
  | some s ↦
      if first_is s m.sources
      then (m, called k (already_active uuid) ∷ [])
      else use_source m s (known s.id) (promoting k uuid)
]

all_called : List ℕ → Result → List MountEvent
all_called [] r = []
all_called (k ∷ ks) r = called k r ∷ all_called ks r

-- `vitalsFunc`: with the callbacks that waited.
pub vitals_func : SourceMount → Vitals → SourceMount × List MountEvent
unfolding all_called
vitals_func m v = (
  record m { vitals = some v; waiters = [] },
  vitals_emitted v ∷ all_called m.waiters (vitals_are v),
)

-- `vitals`
pub ask_vitals : SourceMount → ℕ → SourceMount × List MountEvent
ask_vitals m k = elim m.vitals [
  | none ↦ (record m { waiters = m.waiters ++ k ∷ [] }, [])
  | some v ↦ (m, called k (vitals_are v) ∷ [])
]

first_tick : SourceMount → List (Source × Vitals) → SourceMount × List MountEvent
unfolding vitals_func
first_tick m [] = (m, [])
first_tick m ((s, v) ∷ rest) =
    let r = vitals_func (record m { ticks = rest }) v in (r.0, source_active s ∷ r.1)

-- The next tick after a switch.
pub next_tick : SourceMount → SourceMount × List MountEvent
unfolding first_tick
next_tick m = first_tick m m.ticks

-- A source emits "data": once for each time it has the mount's listener.
pub pass_data : ℕ → ℕ → List ℕ → List MountEvent
pass_data s chunk [] = []
pass_data s chunk (k ∷ ks) =
    let rest = pass_data s chunk ks in if k == s then data_passed chunk ∷ rest else rest

pub on_data : SourceMount → Source → ℕ → List MountEvent
unfolding pass_data
on_data m s chunk = pass_data s.id chunk m.listening

vitals_each : ℕ → Vitals → List ℕ → SourceMount → SourceMount × List MountEvent
unfolding vitals_func
vitals_each s v [] m = (m, [])
vitals_each s v (k ∷ ks) m =
    let r = vitals_func m v in
    let rest = vitals_each s v ks (if k == s then r.0 else m) in
    (rest.0, (if k == s then r.1 else []) ++ rest.1)

-- A source emits "vitals".
pub on_source_vitals : SourceMount → Source → Vitals → SourceMount × List MountEvent
unfolding vitals_each
on_source_vitals m s v = vitals_each s.id v m.listening m

-- What can happen to a mount.
pub data Input : Type 0 where
  added : Source → Option Vitals → Callback → Input
  left : Source → (ℕ → Option Vitals) → Input
  promote : String → (ℕ → Option Vitals) → ℕ → Input
  vitals_known : ℕ → Vitals → Input
  alarm_at : ℕ → Input
  ticked : Input
  asked : ℕ → Input
  sends_vitals : Source → Vitals → Input
  sends_data : Source → ℕ → Input

pub step : SourceMount → Input → SourceMount × List MountEvent
unfolding add_source on_disconnect promote_source vitals_arrive alarm_rings next_tick ask_vitals
    on_source_vitals on_data
step m (added s known cb) = add_source m s known cb
step m (left s known) = on_disconnect m s known
step m (promote uuid known k) = promote_source m uuid known k
step m (vitals_known n v) = vitals_arrive m n v
step m (alarm_at n) = alarm_rings m n
step m ticked = next_tick m
step m (asked k) = ask_vitals m k
step m (sends_vitals s v) = on_source_vitals m s v
step m (sends_data s chunk) = (m, on_data m s chunk)

pub run : SourceMount → List Input → SourceMount
unfolding step
run m [] = m
run m (i ∷ is) = run (step m i).0 is
