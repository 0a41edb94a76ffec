-- ===== src/Political/Tests.antt =====
-- A run of the collation, on a text and itself.
use sql_code.Common.Int.{pos, ◌-ℤ◌}
use sql_code.Common.{◌≡◌, refl}
use sql_code.Political.{political_collation}

test_same_text : political_collation 2147483647 5 0 (pos 0) (pos 0) 7 7 ≡ pos 1
unfolding political_collation ◌-ℤ◌
test_same_text = refl
