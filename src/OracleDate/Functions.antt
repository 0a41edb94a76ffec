-- ===== src/OracleDate/Functions.antt =====
-- The SQL functions `iso_from_oradate` and `validate_oradate` of capi_ext/collate.c.
use sql_code.Common.Int.{ℤ, pos, negsuc}
use sql_code.Common.{
  ℕ, ◌≡◌, ◌≢◌, ◌⊎◌, inl, inr, false, not, [], Option, none, some, arith, refl, ◌∙◌, ap, ◌==◌,
  if◌then◌else◌, Option-cases, append-nil, Bool-cases, subst,
}
use sql_code.CText.{Bytes, codes}
use sql_code.OracleDate.{
  Date, Pcre, oracle_date_regex, is_minus_one, ◌>>=◌, get_date, oracle_date_str_to_struct,
  iso_from_oracle_date, is_valid_oracle_date,
}
use sql_code.OracleDate.Regex.{DateText, print, IsDate, Documented}
use sql_code.OracleDate.Parse.{month_number, meaning, oracle_date_str_to_struct-print}
use sql_code.OracleDate.Iso.{iso_bytes, iso_from_oracle_date-match}

-- What a SQL function hands back through its context.
pub data SqlResult : Type 0 where
  error : Bytes → SqlResult
  text : Bytes → SqlResult
  int : ℕ → SqlResult

abbrev pub invalid_format : SqlResult
invalid_format = error (codes "Invalid Oracle date format.")

module _ (p : Pcre) where
  -- `sqlite3_value_text` gives NULL for a SQL NULL, on which `get_date` calls `strlen`.
  value_is_valid : Option Bytes → Date → Option ℕ
  value_is_valid none d = elim (p.compile oracle_date_regex) [ none ↦ some 0 | some _ ↦ none ]
  value_is_valid (some value) d = is_valid_oracle_date p value d

  -- `none` is the fault of `strlen` on NULL.
  iso_text : Option Bytes → Option SqlResult
  iso_text none = none
  iso_text (some value) = elim (iso_from_oracle_date p value) [
    | none ↦ none
    | some none ↦ none
    | some (some iso_date) ↦ some (text iso_date)
  ]

  unfoldable pub iso_from_oradate : ℕ → Option Bytes → Date → Option SqlResult
  unfolding value_is_valid iso_text
  iso_from_oradate nargs value d =
      if not (nargs == 1)
      then some (error (codes "iso_from_oradate -- ERROR : Called with wrong number of functions."))
      else value_is_valid value d >>= λ valid.
          if not (valid == 1) then some invalid_format else iso_text value

  unfoldable pub validate_oradate : ℕ → Option Bytes → Date → Option SqlResult
  unfolding value_is_valid
  validate_oradate nargs value d =
      if not (nargs == 1)
      then some
          (error (codes "validate_oradate() -- ERROR : Called with wrong number of functions."))
      else value_is_valid value d >>= λ valid.
          if not (valid == 1) then some invalid_format else some (int 0)

iso_text-match :
    (p : Pcre) (s : Bytes) (t : DateText)
    → IsDate t
    → get_date p s ≡ some (print t)
    → iso_text p (some s) ≡ some (text (iso_bytes t))
unfolding iso_text
iso_text-match p s t date e = rw (iso_text, iso_from_oracle_date-match p s t date e) refl

minus_one-known : (m : ℤ) → m ≡ negsuc 0 → is_minus_one m ≡ false → ⊥
unfolding is_minus_one
minus_one-known (pos n) e f = cc
minus_one-known (negsuc n) e f = ground arith

module _ (p : Pcre) (doc : Documented p) where
  -- A match is a whole date.
  get_date-cases :
      (s : Bytes)
      → (get_date p s ≡ none) ⊎ ((t : DateText) × IsDate t × (get_date p s ≡ some (print t)))
  unfolding get_date
  get_date-cases s = elim (Option-cases (p.exec doc.re s)) [
    | inl e ↦ inl (rw (doc.compiled, e) refl)
    | inr ((start, end), e) ↦
        let (t, date, same) = doc.matches s start end e in
        inr (t, date, rw (doc.compiled, e) (ap some same))
  ]

  -- How the validity of a text is decided by the month that its match names.
  is_valid_oracle_date-match :
      (s : Bytes) (d : Date) (t : DateText)
      → IsDate t
      → get_date p s ≡ some (print t)
      → is_valid_oracle_date p s d ≡ some (if is_minus_one (month_number t) then 0 else 1)
  unfolding is_valid_oracle_date
  is_valid_oracle_date-match s d t date e =
      let again : oracle_date_str_to_struct p (print t) d ≡ some (pos 0, meaning t) =
        subst (λ x. oracle_date_str_to_struct p x d ≡ some (pos 0, meaning t))
          (append-nil (print t)) (oracle_date_str_to_struct-print p doc t [] d date) in
      rw (e, is_valid_oracle_date, again) refl

  -- On a text that is not NULL both functions end without a fault and agree: either the text has a
  -- first match whose month is known, `validate_oradate` returns 0 and `iso_from_oradate` that match's
  -- date as 20yy-mm-dd, or both raise the same error.
  pub validate_oradate-iso :
      (s : Bytes) (d : Date)
      → ((t : DateText) × IsDate t
          × (get_date p s ≡ some (print t))
          × (month_number t ≢ negsuc 0)
          × (validate_oradate p 1 (some s) d ≡ some (int 0))
          × (iso_from_oradate p 1 (some s) d ≡ some (text (iso_bytes t))))
        ⊎ ((validate_oradate p 1 (some s) d ≡ some invalid_format)
            × (iso_from_oradate p 1 (some s) d ≡ some invalid_format))
  unfolding validate_oradate iso_from_oradate
  validate_oradate-iso s d = elim (get_date-cases s) [
    | inl e ↦ inr (rejected (never e))
    | inr (t, date, e) ↦ elim (Bool-cases (is_minus_one (month_number t))) [
      | inl unknown ↦ inr (rejected (decided t date e ∙ rw unknown refl))
      | inr known ↦
          let valid : is_valid_oracle_date p s d ≡ some 1 = decided t date e ∙ rw known refl in
          inl (
            t,
            date,
            e,
            λ m. minus_one-known _ m known,
            rw (valid, validate_oradate) refl,
            rw (valid, iso_from_oradate) (iso_text-match p s t date e),
          )
    ]
  ]
    where
      never : get_date p s ≡ none → is_valid_oracle_date p s d ≡ some 0
      never e = unfold is_valid_oracle_date in rw (e, is_valid_oracle_date) refl

      decided :
          (t : DateText)
          → IsDate t
          → get_date p s ≡ some (print t)
          → is_valid_oracle_date p s d ≡ some (if is_minus_one (month_number t) then 0 else 1)
      decided t date e = is_valid_oracle_date-match s d t date e

      rejected :
          is_valid_oracle_date p s d ≡ some 0
          → (validate_oradate p 1 (some s) d ≡ some invalid_format)
            × (iso_from_oradate p 1 (some s) d ≡ some invalid_format)
      rejected e = (rw (e, validate_oradate) refl, rw (e, iso_from_oradate) refl)
