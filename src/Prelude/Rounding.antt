-- ===== src/Prelude/Rounding.antt =====
-- Math.round of a quotient of whole numbers: to the nearest, and halves upwards.
use stream_machine.Prelude.{◌*◌, ◌+◌, ◌/◌, suc, ℕ}
use stream_machine.Prelude.Int.{negsuc, pos, sub_ℕ, ℤ}

-- Math.round(a / (d + 1)).
abbrev pub round_div : ℤ → ℕ → ℤ
round_div (pos a) d = pos ((2 * a + suc d) / (2 * suc d))
round_div (negsuc a) d = sub_ℕ 0 ((2 * suc a + d) / (2 * suc d))
