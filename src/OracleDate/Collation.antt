-- ===== src/OracleDate/Collation.antt =====
-- `oracle_date_collation` on texts that begin with dates, and on texts with none.
use native.Mathlib.Nat.{sub-zero, suc-sub-suc}
use sql_code.Common.Int.{pos, negsuc}
use sql_code.Common.{
  ℕ, zero, suc, ◌-◌, ◌≡◌, ◌≤◌, [], ◌∷◌, ◌++◌, none, some, length, take, arith, refl, ◌∙◌, ap, ltb,
  if◌then◌else◌, length-append,
}
use sql_code.CText.{Bytes}
use sql_code.OracleDate.{
  Date, Pcre, get_date, iso_from_oracle_date, compare_dates, copied, oracle_date_str_to_struct,
  oracle_date_collation,
}
use sql_code.OracleDate.Regex.{one, two, DateText, day_bytes, month_year, print, IsDate, Documented}
use sql_code.OracleDate.Parse.{
  meaning, get_date-print, date_fields-print, oracle_date_str_to_struct-print,
}
use sql_code.OracleDate.Iso.{year_number-lt, iso_from_oracle_date-print}
use sql_code.OracleDate.Order.{text_order, compare_dates-iso_bytes, compare_dates-zero_iff}

take-append :
    (n : ℕ) (xs ys : Bytes) → length xs ≤ n → take n (xs ++ ys) ≡ xs ++ take (n - length xs) ys
take-append n [] ys h = rw sub-zero
take-append zero (x ∷ xs) ys h = absurd (omega arith)
take-append (suc n) (x ∷ xs) ys h = rw suc-sub-suc (ap (◌∷◌ x) (take-append n xs ys (omega arith)))

length-print : (t : DateText) → length (print t) ≤ 9
length-print t = elim t.day as (λ d. length (day_bytes d (month_year t)) ≤ 9) [
  | one d ↦ omega arith
  | two d e ↦ omega arith
]

-- The copy to `zDate1` keeps the date in front.
copied-print :
    (t : DateText) (rest : Bytes)
    → copied (length (print t ++ rest)) (print t ++ rest)
      ≡ print t
        ++ take
            ((if ltb 24 (length (print t ++ rest)) then 24 else length (print t ++ rest))
              - length (print t))
            rest
copied-print t rest =
    take-append _ (print t) rest (ground (arith, length-print t, length-append (print t) rest))

abbrev early : Date
early = record { month = pos 0; day = pos 0; year = negsuc 0 }

abbrev late : Date
late = record { month = pos 0; day = pos 0; year = pos 100 }

early-compare_dates : (u : DateText) → compare_dates early (meaning u) ≡ negsuc 0
unfolding compare_dates
early-compare_dates u = ground arith

late-compare_dates : (u : DateText) → IsDate u → compare_dates late (meaning u) ≡ pos 1
unfolding compare_dates
late-compare_dates u h = ground (arith, year_number-lt u h)

module _ (p : Pcre) (doc : Documented p) where
  -- The collation compares two texts that begin with dates as those dates; what the local variables
  -- held before, and what stands behind the dates, have no effect.
  oracle_date_collation-print :
      (d1 d2 : Date) (t u : DateText) (r s : Bytes)
      → IsDate t
      → IsDate u
      → oracle_date_collation p d1 d2
          (length (print t ++ r))
          (print t ++ r)
          (length (print u ++ s))
          (print u ++ s)
        ≡ some (compare_dates (meaning t) (meaning u))
  unfolding oracle_date_collation
  oracle_date_collation-print d1 d2 t u r s ht hu =
      rw
        (
          copied-print t r,
          copied-print u s,
          oracle_date_str_to_struct-print p doc t _ d1 ht,
          oracle_date_str_to_struct-print p doc u _ d2 hu,
        )
        refl

  -- The collation orders two texts that begin with dates as the bytes of their ISO forms, those that
  -- `iso_from_oracle_date` returns for the same texts, are ordered.
  pub oracle_date_collation-iso :
      (d1 d2 : Date) (t u : DateText) (r s : Bytes) {a b : Bytes}
      → IsDate t
      → IsDate u
      → iso_from_oracle_date p (print t ++ r) ≡ some (some a)
      → iso_from_oracle_date p (print u ++ s) ≡ some (some b)
      → oracle_date_collation p d1 d2
          (length (print t ++ r))
          (print t ++ r)
          (length (print u ++ s))
          (print u ++ s)
        ≡ some (text_order a b)
  oracle_date_collation-iso d1 d2 t u r s ht hu ea eb =
      oracle_date_collation-print d1 d2 t u r s ht hu
      ∙ cc (
        compare_dates-iso_bytes t u ht hu,
        iso_from_oracle_date-print p doc t r ht,
        iso_from_oracle_date-print p doc u s hu,
      )

  -- Two texts with one date in front are equal to the collation, so "1-JAN-2005" and "1-JAN-2006"
  -- are: only the first two digits of a year of four are read.
  pub oracle_date_collation_same_front :
      (d1 d2 : Date) (t : DateText) (r s : Bytes)
      → IsDate t
      → oracle_date_collation p d1 d2
          (length (print t ++ r))
          (print t ++ r)
          (length (print t ++ s))
          (print t ++ s)
        ≡ some (pos 0)
  oracle_date_collation_same_front d1 d2 t r s h =
      oracle_date_collation-print d1 d2 t t r s h h
      ∙ ap some ((compare_dates-zero_iff (meaning t) (meaning t)).1 refl)

  left_unset :
      (d1 d2 : Date) (len1 : ℕ) (arg1 : Bytes) (u : DateText) (s : Bytes)
      → IsDate u
      → get_date p (copied len1 arg1) ≡ none
      → oracle_date_collation p d1 d2 len1 arg1 (length (print u ++ s)) (print u ++ s)
        ≡ some (compare_dates d1 (meaning u))
  unfolding oracle_date_collation oracle_date_str_to_struct
  left_unset d1 d2 len1 arg1 u s h e =
      rw
        (
          oracle_date_str_to_struct,
          e,
          copied-print u s,
          oracle_date_str_to_struct,
          get_date-print p doc u _ h,
          date_fields-print u h,
        )
        refl

  -- On a text with no date in it the answer depends on what the local variable held before: against
  -- one and the same date the collation can say -1 and can say 1.
  oracle_date_collation_unset :
      (d2 : Date) (len1 : ℕ) (arg1 : Bytes) (u : DateText) (s : Bytes)
      → IsDate u
      → get_date p (copied len1 arg1) ≡ none
      → ((d1 : Date) × (oracle_date_collation p d1 d2 len1 arg1
              (length (print u ++ s))
              (print u ++ s)
            ≡ some (negsuc 0)))
        × ((d1 : Date) × (oracle_date_collation p d1 d2 len1 arg1
                (length (print u ++ s))
                (print u ++ s)
              ≡ some (pos 1)))
  oracle_date_collation_unset d2 len1 arg1 u s h e = (
    (early, left_unset early d2 len1 arg1 u s h e ∙ ap some (early-compare_dates u)),
    (late, left_unset late d2 len1 arg1 u s h e ∙ ap some (late-compare_dates u h)),
  )
