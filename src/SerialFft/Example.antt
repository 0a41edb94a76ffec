-- ===== src/SerialFft/Example.antt =====
-- The entries of the tables that a transform of four numbers reads, in the arithmetic of quarter turns.
use sql_code.Common.{ℕ, zero, suc, ◌<◌, refl, arith}
use sql_code.Common.Int.{pos, ◌-ℤ◌, ◌*ℤ◌}
use sql_code.Fourier.{get_wn}
use sql_code.Fourier.Example.{quarters}
use sql_code.SerialFft.{sin_tb, cos_tb, literal_tables}
use sql_code.SerialFft.Serial.{ExactTables}

two_least : (i : ℕ) → suc (suc i) < 2 → ⊥
two_least i lt = omega arith

pub quarters-ExactTables : ExactTables quarters 4 (literal_tables quarters (pos 0)) 2
unfolding sin_tb cos_tb get_wn ◌-ℤ◌ ◌*ℤ◌
quarters-ExactTables zero lt = refl
quarters-ExactTables (suc zero) lt = refl
quarters-ExactTables (suc (suc i)) lt = elim (two_least i lt) [ ]
