-- ===== src/OracleDate/Iso.antt =====
-- What `iso_from_oracle_date` prints for a text that the pattern matches.
use sql_code.Common.Int.{ℤ, pos, negsuc, pos_part}
use sql_code.Common.{ℕ, ◌+◌, ◌/◌, ◌%◌, ◌≡◌, ◌<◌, ◌≤◌, ◌⊎◌, [], ◌∷◌, ◌++◌, some, arith, refl}
use sql_code.CText.{Bytes, format_int_padded, format_int_padded-two}
use sql_code.OracleDate.{Pcre, month_num, get_date, iso_from_oracle_date}
use sql_code.OracleDate.Regex.{DayText, one, two, DateText, print, IsDay, IsDate, Documented}
use sql_code.OracleDate.Parse.{
  day_number, year_number, month_number, date_fields-print, get_date-print,
}

-- Two decimal digits.
abbrev pub two_digits : ℕ → Bytes → Bytes
two_digits n rest = (b'0' + n / 10) ∷ (b'0' + n % 10) ∷ rest

abbrev pub month_bytes : ℤ → Bytes → Bytes
month_bytes (pos m) rest = two_digits m rest
month_bytes (negsuc m) rest = b'-' ∷ b'1' ∷ rest

-- The date 20yy-mm-dd; the month is "-1" where its name is unknown.
abbrev pub iso_bytes : DateText → Bytes
iso_bytes t =
    b'2'
    ∷ b'0'
    ∷ two_digits (year_number t)
        (b'-' ∷ month_bytes (month_number t) (b'-' ∷ two_digits (day_number t.day) []))

pub day_number-lt : (d : DayText) → IsDay d → day_number d < 100
day_number-lt (one d) h = ground arith
day_number-lt (two d e) h = ground arith

pub year_number-lt : (t : DateText) → IsDate t → year_number t < 100
year_number-lt t h = ground arith

-- A month is one of 1 to 12, or -1.
abbrev pub IsMonth : ℤ → Type 0
IsMonth m = (m ≡ negsuc 0) ⊎ ((m ≡ pos (pos_part m)) × (1 ≤ pos_part m) × (pos_part m ≤ 12))

pub month_num-IsMonth : (x : Bytes) → IsMonth (month_num x)
unfolding month_num
month_num-IsMonth x = ground arith

format-month :
    (m : ℤ) (rest : Bytes) → IsMonth m → format_int_padded 2 m ++ rest ≡ month_bytes m rest
format-month (pos m) rest h =
    let small : m < 100 = ground arith in rw (format_int_padded-two m small) refl
format-month (negsuc m) rest h =
    let minus_one : m ≡ 0 = ground arith in rw minus_one (unfold format_int_padded in refl)

pub iso_from_oracle_date-match :
    (p : Pcre) (s : Bytes) (t : DateText)
    → IsDate t
    → get_date p s ≡ some (print t)
    → iso_from_oracle_date p s ≡ some (some (iso_bytes t))
unfolding iso_from_oracle_date
iso_from_oracle_date-match p s t h e =
    rw (e, iso_from_oracle_date, date_fields-print t h)
      (rw
        (
          format_int_padded-two (year_number t) (year_number-lt t h),
          format_int_padded-two (day_number t.day) (day_number-lt t.day h.day_digits),
          format-month (month_number t) _ (month_num-IsMonth _),
        )
        refl)

-- A text that begins with a date is printed as 20yy-mm-dd with the two digits of the year that stand
-- in the pattern, whatever stands behind them.
pub iso_from_oracle_date-print :
    (p : Pcre)
    → Documented p
    → (t : DateText) (rest : Bytes) → IsDate t
    → iso_from_oracle_date p (print t ++ rest) ≡ some (some (iso_bytes t))
iso_from_oracle_date-print p doc t rest h =
    iso_from_oracle_date-match p _ t h (get_date-print p doc t rest h)
