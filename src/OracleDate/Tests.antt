-- ===== src/OracleDate/Tests.antt =====
-- Runs of the Oracle date code, over the search of `Search`.
use sql_code.Common.Int.{pos, negsuc, ◌≤ℤ◌}
use sql_code.Common.{◌≡◌, ◌≢◌, ◌⊎◌, ◌↔◌, refl, [], ◌++◌, none, some, length}
use sql_code.CText.{Bytes, codes}
use sql_code.OracleDate.{
  Date, get_date, compare_dates, copied, oracle_date_str_to_struct, iso_from_oracle_date,
  oracle_date_collation,
}
use sql_code.OracleDate.Regex.{DateText, one, two, print, IsDate}
use sql_code.OracleDate.Search.{pcre, pcre-Documented, search_from, match_here}
use sql_code.OracleDate.Parse.{month_number, meaning}
use sql_code.OracleDate.Iso.{iso_bytes, iso_from_oracle_date-print}
use sql_code.OracleDate.Order.{text_order, negate, compare_dates-IsOrder}
use sql_code.OracleDate.Collation.{oracle_date_collation-iso}
use sql_code.OracleDate.Functions.{
  validate_oradate, iso_from_oradate, int, text, invalid_format, validate_oradate-iso,
}

-- 01-APR-04 and 1-JAN-20, the first two digits of 1-JAN-2005
abbrev april : DateText
april = record { day = two b'0' b'1'; m1 = b'A'; m2 = b'P'; m3 = b'R'; y1 = b'0'; y2 = b'4' }

abbrev january : DateText
january = record { day = one b'1'; m1 = b'J'; m2 = b'A'; m3 = b'N'; y1 = b'2'; y2 = b'0' }

april-IsDate : IsDate april
april-IsDate = record {
  day_digits = (refl, refl);
  first_letter = refl;
  second_letter = refl;
  third_letter = refl;
  first_digit = refl;
  second_digit = refl;
}

january-IsDate : IsDate january
january-IsDate = record {
  day_digits = refl;
  first_letter = refl;
  second_letter = refl;
  third_letter = refl;
  first_digit = refl;
  second_digit = refl;
}

abbrev unset : Date
unset = record { month = pos 7; day = negsuc 3; year = pos 0 }

test_iso_bytes : iso_bytes april ≡ codes "2004-04-01"
unfolding sql_code.OracleDate.month_num sql_code.CText.strncmp_eq sql_code.CText.to_upper
test_iso_bytes = refl

compare_dates-IsOrder_example :
    ((compare_dates (meaning april) unset ≡ pos 0) ↔ (meaning april ≡ unset))
    × (compare_dates unset (meaning april) ≡ negate (compare_dates (meaning april) unset))
    × (compare_dates (meaning april) unset ≤ℤ pos 0
        → compare_dates unset (meaning january) ≤ℤ pos 0
        → compare_dates (meaning april) (meaning january) ≤ℤ pos 0)
compare_dates-IsOrder_example = compare_dates-IsOrder (meaning april) unset (meaning january)

oracle_date_collation-iso_example :
    oracle_date_collation pcre unset unset
      (length (print april ++ []))
      (print april ++ [])
      (length (print january ++ codes "05"))
      (print january ++ codes "05")
    ≡ some (text_order (iso_bytes april) (iso_bytes january))
oracle_date_collation-iso_example =
    oracle_date_collation-iso pcre pcre-Documented unset unset april january [] (codes "05")
      april-IsDate january-IsDate
      (iso_from_oracle_date-print pcre pcre-Documented april [] april-IsDate)
      (iso_from_oracle_date-print pcre pcre-Documented january (codes "05") january-IsDate)

no_date : get_date pcre (copied 3 (codes "n/a")) ≡ none
unfolding get_date search_from match_here
no_date = refl

abbrev date_in_text : Bytes
date_in_text = codes "on 01-APR-04"

validate_oradate-iso_example :
    ((t : DateText) × IsDate t
      × (get_date pcre date_in_text ≡ some (print t))
      × (month_number t ≢ negsuc 0)
      × (validate_oradate pcre 1 (some date_in_text) unset ≡ some (int 0))
      × (iso_from_oradate pcre 1 (some date_in_text) unset ≡ some (text (iso_bytes t))))
    ⊎ ((validate_oradate pcre 1 (some date_in_text) unset ≡ some invalid_format)
        × (iso_from_oradate pcre 1 (some date_in_text) unset ≡ some invalid_format))
validate_oradate-iso_example = validate_oradate-iso pcre pcre-Documented date_in_text unset
