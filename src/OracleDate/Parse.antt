-- ===== src/OracleDate/Parse.antt =====
-- What `oracle_date_str_to_struct` reads from a text.
use native.Mathlib.Nat.{sub-zero}
use sql_code.Common.Int.{ℤ, pos}
use sql_code.Common.{
  ℕ, ◌+◌, ◌-◌, ◌*◌, ◌≡◌, true, [], ◌∷◌, ◌++◌, some, take, drop, take-length-append, arith, refl,
  ◌∙◌, ap,
}
use sql_code.CText.{Bytes, is_digit, strchr, atoi, to_upper}
use sql_code.Util.{uppercase}
use sql_code.OracleDate.{Date, Pcre, date_fields, month_num, get_date, oracle_date_str_to_struct}
use sql_code.OracleDate.Regex.{
  DayText, one, two, DateText, month_year, day_bytes, print, is_letter, IsDay, IsDate, Documented,
}

abbrev pub digit : ℕ → ℕ
digit c = c - b'0'

abbrev pub day_number : DayText → ℕ
day_number (one d) = digit d
day_number (two d e) = digit d * 10 + digit e

abbrev pub year_number : DateText → ℕ
year_number t = digit t.y1 * 10 + digit t.y2

abbrev pub month_number : DateText → ℤ
month_number t = month_num (to_upper t.m1 ∷ to_upper t.m2 ∷ to_upper t.m3 ∷ [])

-- The date that a text stands for; an unknown month is -1.
abbrev pub meaning : DateText → Date
meaning t = record {
  month = month_number t;
  day = pos (day_number t.day);
  year = pos (year_number t);
}

atoi-two_digits :
    (d e : ℕ)
    → is_digit d ≡ true
    → is_digit e ≡ true
    → atoi (d ∷ e ∷ []) ≡ pos (digit d * 10 + digit e)
unfolding atoi
atoi-two_digits d e hd he = ground arith

atoi-digit_hyphen : (d : ℕ) → is_digit d ≡ true → atoi (d ∷ b'-' ∷ []) ≡ pos (digit d)
unfolding atoi
atoi-digit_hyphen d hd = ground arith

strchr-digit : (d : ℕ) (s : Bytes) → is_digit d ≡ true → strchr (d ∷ s) b'-' ≡ strchr s b'-'
unfolding strchr
strchr-digit d s h = ground arith

strchr-letter : (a : ℕ) (s : Bytes) → is_letter a ≡ true → strchr (a ∷ s) b'-' ≡ strchr s b'-'
unfolding strchr
strchr-letter a s h = ground arith

strchr-hyphen : (s : Bytes) → strchr (b'-' ∷ s) b'-' ≡ some (b'-' ∷ s)
unfolding strchr
strchr-hyphen s = refl

strchr-print : (t : DateText) → IsDate t → strchr (print t) b'-' ≡ some (month_year t)
strchr-print t h =
    elim t.day as (λ d. IsDay d → strchr (day_bytes d (month_year t)) b'-' ≡ some (month_year t)) [
      | one d ↦ λ hd. strchr-digit d _ hd ∙ strchr-hyphen _
      | two d e ↦ λ hd. strchr-digit d _ hd.0 ∙ strchr-digit e _ hd.1 ∙ strchr-hyphen _
    ]
      h.day_digits

strchr-month_year :
    (t : DateText) → IsDate t → strchr (drop 1 (month_year t)) b'-' ≡ some (b'-' ∷ t.y1 ∷ t.y2 ∷ [])
strchr-month_year t h =
    strchr-letter t.m1 _ h.first_letter
    ∙ strchr-letter t.m2 _ h.second_letter
    ∙ strchr-letter t.m3 _ h.third_letter
    ∙ strchr-hyphen _

atoi-day :
    (d : DayText) (rest : Bytes)
    → IsDay d
    → atoi (take 2 (day_bytes d (b'-' ∷ rest))) ≡ pos (day_number d)
atoi-day (one d) rest h = atoi-digit_hyphen d h
atoi-day (two d e) rest h = atoi-two_digits d e h.0 h.1

-- A text that the pattern matches has the three fields that it shows.
pub date_fields-print : (t : DateText) → IsDate t → date_fields (print t) ≡ some (meaning t)
unfolding date_fields uppercase
date_fields-print t h =
    rw
      (
        strchr-print t h,
        strchr-month_year t h,
        atoi-day t.day _ h.day_digits,
        atoi-two_digits t.y1 t.y2 h.first_digit h.second_digit,
      )
      refl

module _ (p : Pcre) (doc : Documented p) where
  -- A text that begins with a date gives that date, whatever stands behind it.
  pub get_date-print :
      (t : DateText) (rest : Bytes) → IsDate t → get_date p (print t ++ rest) ≡ some (print t)
  unfolding get_date
  get_date-print t rest h =
      rw (doc.compiled, doc.at_front t rest h, sub-zero)
        (ap some (take-length-append (print t) rest))

  pub oracle_date_str_to_struct-print :
      (t : DateText) (rest : Bytes) (d : Date)
      → IsDate t
      → oracle_date_str_to_struct p (print t ++ rest) d ≡ some (pos 0, meaning t)
  unfolding oracle_date_str_to_struct
  oracle_date_str_to_struct-print t rest d h =
      rw (get_date-print t rest h, oracle_date_str_to_struct, date_fields-print t h) refl
