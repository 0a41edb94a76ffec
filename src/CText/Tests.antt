-- ===== src/CText/Tests.antt =====
-- Runs of the C string functions.
use sql_code.Common.Int.{pos, negsuc}
use sql_code.Common.{◌≡◌, refl}
use sql_code.CText.{codes, atoi, format_int, format_int_padded}

test_format :
    (format_int_padded 2 (pos 5) ≡ codes "05")
    × (format_int_padded 2 (negsuc 0) ≡ codes "-1")
    × (format_int (pos 1234) ≡ codes "1234")
    × (atoi (codes "1-") ≡ pos 1)
    × (atoi (codes " -42x") ≡ negsuc 41)
unfolding format_int_padded format_int atoi
test_format = (refl, refl, refl, refl, refl)
