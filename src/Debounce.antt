-- ===== src/Debounce.antt =====
-- js/src/streammachine/util/debounce.js: a callback when there has been no ping for some time.
pub mod Silence
pub mod Tests
use stream_machine.Prelude.Tests.{if◌then◌else◌, leb, ltb}
use stream_machine.Prelude.{◌&&◌, ◌+◌, ◌-◌, Bool, List, [], false, true, ℕ, ◌∷◌}

-- `timeout`: null, a timer that waits until a time, or one that was cleared and is still truthy.
pub data Timeout : Type 0 where
  idle : Timeout
  pending : ℕ → Timeout
  stopped : Timeout

pub record Debounce : Type 0 where
  pub wait : ℕ
  pub last_ping : ℕ
  pub timeout : Timeout
  pub killed : Bool

-- The callback is called with the last ping, or is null and makes the call throw.
pub data Effect : Type 0 where
  quiet : Effect
  called_back : ℕ → Effect
  threw : Effect

-- `last` is null at first, and is read only after a ping has set it; 0 stands for that null.
unfoldable pub new_debounce : ℕ → Debounce
new_debounce wait = record { wait = wait; last_ping = 0; timeout = idle; killed = false }

-- `ping`
unfoldable pub ping : ℕ → Debounce → Debounce
ping now d = elim d.timeout [
  | idle ↦ record d { last_ping = now; timeout = pending (now + d.wait) }
  | pending due ↦ record d { last_ping = now }
  | stopped ↦ record d { last_ping = now }
]

-- `_t`: a clock that has gone back calls as well.
run_out : ℕ → Debounce → Debounce × Effect
run_out now d =
    if leb d.last_ping now && ltb (now - d.last_ping) d.wait
    then (record d { timeout = pending (now + (d.wait - (now - d.last_ping))) }, quiet)
    else (record d { timeout = idle }, if d.killed then threw else called_back d.last_ping)

-- The clock reaches a time.
unfoldable pub tick : ℕ → Debounce → Debounce × Effect
unfolding run_out
tick now d = elim d.timeout [
  | idle ↦ (d, quiet)
  | pending due ↦ if leb due now then run_out now d else (d, quiet)
  | stopped ↦ (d, quiet)
]

-- `kill`
unfoldable pub kill : Debounce → Debounce
kill d = elim d.timeout [
  | idle ↦ record d { killed = true }
  | pending due ↦ record d { timeout = stopped; killed = true }
  | stopped ↦ record d { killed = true }
]

pub pings : List ℕ → Debounce → Debounce
unfolding ping
pings [] d = d
pings (t ∷ ts) d = pings ts (ping t d)
