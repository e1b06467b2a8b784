-- ===== src/Debounce/Silence.antt =====
-- When the callback is called.
use stream_machine.Prelude.Tests.{leb, ltb, Bool-cases, if◌then◌else◌}
use stream_machine.Prelude.{
  List, [], false, refl, ℕ, ◌∷◌, ◌≡◌, ◌≤◌, ◌&&◌, ◌+◌, ◌-◌, ◌<◌, arith, true, inl, inr,
}
use stream_machine.Debounce.{
  Debounce, pending, ping, pings, called_back, new_debounce, quiet, run_out, tick,
}

-- The times do not go back, from the first to the second one given.
abbrev pub Rising : ℕ → List ℕ → ℕ → Type 0
Rising from [] end = from ≤ end
Rising from (t ∷ ts) end = (from ≤ t) × Rising t ts end

-- The last ping of a list, or the one before.
abbrev pub last_of : ℕ → List ℕ → ℕ
last_of l [] = l
last_of l (t ∷ ts) = last_of t ts

-- A live one whose timer is set.
abbrev waiting : ℕ → ℕ → ℕ → Debounce
waiting wait l due = record { wait = wait; last_ping = l; timeout = pending due; killed = false }

pings-waiting :
    (wait due : ℕ) (ts : List ℕ) (l : ℕ)
    → pings ts (waiting wait l due) ≡ waiting wait (last_of l ts) due
unfolding pings ping
pings-waiting wait due [] l = refl
pings-waiting wait due (t ∷ ts) l = pings-waiting wait due ts t

last_of-le : (l : ℕ) (ts : List ℕ) (end : ℕ) → Rising l ts end → last_of l ts ≤ end
last_of-le l [] end h = h
last_of-le l (t ∷ ts) end h = last_of-le t ts end h.1

tick-late :
    (wait l due now : ℕ)
    → due ≤ now
    → l + wait ≤ now
    → (tick now (waiting wait l due)).1 ≡ called_back l
unfolding tick run_out
tick-late wait l due now h k =
    let passed : leb due now ≡ true = ground arith in
    let silent : (leb l now && ltb (now - l) wait) ≡ false = ground arith in
    rw (passed, silent) refl

tick-early :
    (wait l due now : ℕ)
    → due ≤ now
    → l ≤ now
    → now < l + wait
    → tick now (waiting wait l due) ≡ (waiting wait l (now + (wait - (now - l))), quiet)
unfolding tick run_out
tick-early wait l due now h p k =
    let passed : leb due now ≡ true = ground arith in
    let busy : (leb l now && ltb (now - l) wait) ≡ true = ground arith in rw (passed, busy) refl

tick-late_done :
    (wait l due now now' : ℕ)
    → due ≤ now
    → l + wait ≤ now
    → (tick now' (tick now (waiting wait l due)).0).1 ≡ quiet
unfolding tick run_out
tick-late_done wait l due now now' h k =
    let passed : leb due now ≡ true = ground arith in
    let silent : (leb l now && ltb (now - l) wait) ≡ false = ground arith in
    rw (passed, silent) refl

-- After pings in the order of their times, the timer that the first of them has set calls back, with
-- the last ping, if the waiting time has passed since that; otherwise it waits on, and calls back as
-- soon as that time has passed. The two ticks call it once.
pub pings-silence :
    (wait t0 : ℕ) (ts : List ℕ) (now now' : ℕ)
    → Rising t0 ts now
    → t0 + wait ≤ now
    → last_of t0 ts + wait ≤ now'
    → let l = last_of t0 ts in
      let d = pings (t0 ∷ ts) (new_debounce wait) in
      ((tick now d).1 ≡ (if leb (l + wait) now then called_back l else quiet))
      × ((tick now' (tick now d).0).1 ≡ (if leb (l + wait) now then quiet else called_back l))
pings-silence wait t0 ts now now' rising h k =
    let l = last_of t0 ts in
    let due = t0 + wait in
    let state : pings (t0 ∷ ts) (new_debounce wait) ≡ waiting wait l due =
      unfold pings ping new_debounce in pings-waiting wait due ts t0 in
    let last_le = last_of-le t0 ts now rising in
    rw state (elim (Bool-cases (leb (l + wait) now)) [
      | inl late ↦
          let passed : l + wait ≤ now = ground arith in
          rw late (tick-late wait l due now h passed, tick-late_done wait l due now now' h passed)
      | inr early ↦
          let before : now < l + wait = ground arith in
          let again = tick-early wait l due now h last_le before in
          rw (early, again) (refl, tick-late wait l _ now' (omega (arith, last_le, before, k)) k)
    ])
