-- ===== src/Debounce/Tests.antt =====
-- Runs of the debounce's definitions, and the theorem applied to them.
use stream_machine.Debounce.{kill, new_debounce, ping, threw, tick}
use stream_machine.Prelude.{refl, ◌≡◌}

ping_after_kill : (tick 300 (ping 100 (kill (new_debounce 50)))).1 ≡ threw
unfolding ping tick kill new_debounce
ping_after_kill = refl
