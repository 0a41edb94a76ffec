-- ===== src/OracleDate.antt =====
-- Oracle dates such as 01-APR-04:
-- The_Definitive_Guide_to_SQLITE/ch01/examples/capi_ext/oracle_date.c and the collation and the SQL
-- functions of capi_ext/collate.c.
-- The PCRE library is third-party code: `Pcre` is a parameter. Memory that `malloc` gives is a value,
-- and `malloc` does not fail. What the collation prints is left out.
pub mod Regex
pub mod Parse
pub mod Iso
pub mod Order
pub mod Collation
pub mod Functions
mod Search
mod Tests
use sql_code.Common.Int.{ℤ, pos, negsuc, ltb_ℤ}
use sql_code.Common.{
  ℕ, ◌+◌, ◌-◌, Bool, true, false, ◌++◌, [], ◌∷◌, Option, none, some, ltb, ◌==◌, if◌then◌else◌,
  length, take, drop,
}
use sql_code.CText.{Bytes, codes, strncmp_eq, strchr, atoi, format_int_padded}
use sql_code.Util.{uppercase}

-- The C struct `date`.
pub record Date : Type 0 where
  pub month : ℤ
  pub day : ℤ
  pub year : ℤ

-- `pcre_compile` with default options, and `pcre_exec` from offset 0: the two offsets that it writes
-- to `ovector`, or no match.
pub record Pcre : Type 1 where
  pub Re : Type 0
  pub compile : Bytes → Option Re
  pub exec : Re → Bytes → Option (ℕ × ℕ)

abbrev pub oracle_date_regex : Bytes
oracle_date_regex = codes "[0-9]{1,2}-[a-zA-Z]{3,3}-[0-9]{2,2}"

infixl 5 ◌>>=◌
abbrev pub ◌>>=◌ {ℓ κ} : {A : Type ℓ} {B : Type κ} → Option A → (A → Option B) → Option B
none >>= f = none
some a >>= f = f a

unfoldable pub month_num : Bytes → ℤ
month_num x =
    if strncmp_eq x (codes "JAN") 3
    then pos 1
    else if strncmp_eq x (codes "FEB") 3
    then pos 2
    else if strncmp_eq x (codes "MAR") 3
    then pos 3
    else if strncmp_eq x (codes "APR") 3
    then pos 4
    else if strncmp_eq x (codes "MAY") 3
    then pos 5
    else if strncmp_eq x (codes "JUN") 3
    then pos 6
    else if strncmp_eq x (codes "JUL") 3
    then pos 7
    else if strncmp_eq x (codes "AUG") 3
    then pos 8
    else if strncmp_eq x (codes "SEP") 3
    then pos 9
    else if strncmp_eq x (codes "OCT") 3
    then pos 10
    else if strncmp_eq x (codes "NOV") 3
    then pos 11
    else if strncmp_eq x (codes "DEC") 3
    then pos 12
    else negsuc 0

-- The three fields of a matched text; `none` where C would go on from a null pointer.
unfoldable pub date_fields : Bytes → Option Date
date_fields date = do
  start ← strchr date b'-'
  end ← strchr (drop 1 start) b'-'
  month ← uppercase (some (take 3 (drop 1 start)))
  some (record {
    month = month_num month;
    day = atoi (take 2 date);
    year = atoi (take 2 (drop 1 end));
  })

is_minus_one : ℤ → Bool
is_minus_one (pos n) = false
is_minus_one (negsuc n) = n == 0

-- The comparison at the end of `oracle_date_collation`.
unfoldable pub compare_dates : Date → Date → ℤ
compare_dates d1 d2 =
    if ltb_ℤ d1.year d2.year
    then negsuc 0
    else if ltb_ℤ d2.year d1.year
    then pos 1
    else if ltb_ℤ d1.month d2.month
    then negsuc 0
    else if ltb_ℤ d2.month d1.month
    then pos 1
    else if ltb_ℤ d1.day d2.day
    then negsuc 0
    else if ltb_ℤ d2.day d1.day
    then pos 1
    else pos 0

-- A text as it stands in `zDate1`: at most 24 bytes of the argument.
abbrev pub copied : ℕ → Bytes → Bytes
copied len arg = take (if ltb 24 len then 24 else len) arg

module _ (p : Pcre) where
  open p use {compile, exec}

  -- The first part of the text that the pattern matches, or NULL.
  unfoldable pub get_date : Bytes → Option Bytes
  get_date value = do
    re ← compile oracle_date_regex
    ovector ← exec re value
    some (take (ovector.1 - ovector.0) (drop ovector.0 value))

  -- The return code and what is then in `*d`; `none` is a fault. `d` is what was there before.
  unfoldable pub oracle_date_str_to_struct : Bytes → Date → Option (ℤ × Date)
  oracle_date_str_to_struct value d = elim (get_date value) [
    | none ↦ some (negsuc 0, d)
    | some date ↦ date_fields date >>= λ fields. some (pos 0, fields)
  ]

  -- `some none` is the NULL that the C function returns, `none` is a fault.
  unfoldable pub iso_from_oracle_date : Bytes → Option (Option Bytes)
  iso_from_oracle_date value = elim (get_date value) [
    | none ↦ some none
    | some date ↦ date_fields date >>= λ d. some (
        some (
          codes "20"
          ++ (format_int_padded 2 d.year
              ++ (b'-' ∷ (format_int_padded 2 d.month ++ (b'-' ∷ format_int_padded 2 d.day))))))
  ]

  -- `d` is the local variable, which C does not initialise.
  unfoldable pub is_valid_oracle_date : Bytes → Date → Option ℕ
  unfolding is_minus_one
  is_valid_oracle_date value d = elim (get_date value) [
    | none ↦ some 0
    | some x ↦ oracle_date_str_to_struct x d >>= λ result.
        some (if is_minus_one (result.1).month then 0 else 1)
  ]

  -- `d1` and `d2` are the uninitialised locals, whose values stay if a text is no date.
  unfoldable pub oracle_date_collation : Date → Date → ℕ → Bytes → ℕ → Bytes → Option ℤ
  unfolding compare_dates
  oracle_date_collation d1 d2 len1 arg1 len2 arg2 = do
    first ← oracle_date_str_to_struct (copied len1 arg1) d1
    second ← oracle_date_str_to_struct (copied len2 arg2) d2
    some (compare_dates first.1 second.1)
