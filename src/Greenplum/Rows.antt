-- ===== src/Greenplum/Rows.antt =====
-- The rows that the set-returning functions give, call by call.
use sql_code.Common.{
  ℕ, suc, ◌≡◌, ◌<◌, refl, ap, ◌∙◌, true, List, [], ◌∷◌, none, some, arith, ltb, if◌then◌else◌,
}
use sql_code.CText.{Bytes, format_int}
use sql_code.Greenplum.{
  int32_words, to_int32, mul_int32, FuncCallContext, return_next, return_done, retcomposite_row,
  retcomposite_call, retcomposite,
}
use sql_code.Greenplum.Decimal.{printed-format_int}
use sql_code.Greenplum.Calls.{rows, from, rows-from_start, from_ext}

-- The number of rows asked for; one that is negative as an `int32` asks for none.
abbrev pub row_count : ℕ → ℕ
row_count calls = if ltb calls 2147483648 then calls else 0

abbrev context : ℕ → ℕ → FuncCallContext (Unit {0})
context calls i = record { call_cntr = i; max_calls = calls; user_fctx = tt }

retcomposite_call_next :
    (calls arg j : ℕ)
    → j < row_count calls
    → retcomposite_call (context calls j) arg
      ≡ return_next (retcomposite_row arg) (context calls (suc j))
unfolding retcomposite_call to_int32
retcomposite_call_next calls arg j h = ground arith

retcomposite_call_done :
    (calls arg : ℕ)
    → calls < int32_words
    → retcomposite_call (context calls (row_count calls)) arg ≡ return_done
unfolding retcomposite_call to_int32
retcomposite_call_done calls arg h = ground arith

mul_int32_one : (arg : ℕ) → arg < int32_words → mul_int32 1 arg ≡ arg
unfolding mul_int32
mul_int32_one arg h = omega arith

mul_int32-lt : (a b : ℕ) → mul_int32 a b < int32_words
unfolding mul_int32
mul_int32-lt a b = omega arith

printed_row : ℕ → List Bytes
printed_row arg =
    format_int (to_int32 arg)
    ∷ format_int (to_int32 (mul_int32 2 arg))
    ∷ format_int (to_int32 (mul_int32 3 arg))
    ∷ []

retcomposite_row-printed_row :
    (arg : ℕ) → arg < int32_words → retcomposite_row arg ≡ printed_row arg
unfolding printed_row
retcomposite_row-printed_row arg h =
    rw
      (
        mul_int32_one arg h,
        printed-format_int arg h,
        printed-format_int _ (mul_int32-lt 2 arg),
        printed-format_int _ (mul_int32-lt 3 arg),
      )
      refl

-- `retcomposite(n, v)` gives `n` rows, none if `n` is negative, of v, 2v and 3v in decimal digits,
-- which wrap around like `int32` but are not cut off by their buffers of 16 bytes.
pub retcomposite-rows :
    (calls arg fuel : ℕ)
    → calls < int32_words
    → arg < int32_words
    → row_count calls < fuel
    → rows (λ ctx. retcomposite true ctx calls arg) fuel none
      ≡ some (
          from
            (λ i.
              format_int (to_int32 arg)
              ∷ format_int (to_int32 (mul_int32 2 arg))
              ∷ format_int (to_int32 (mul_int32 3 arg))
              ∷ [])
            0
            (row_count calls))
unfolding retcomposite printed_row
retcomposite-rows calls arg fuel hc ha h =
    rows-from_start (λ ctx. retcomposite true ctx calls arg) (λ i. retcomposite_row arg)
      (context calls) (row_count calls) fuel refl (retcomposite_call_next calls arg)
      (retcomposite_call_done calls arg hc) h
    ∙ ap some (from_ext _ _ 0 (row_count calls) (λ j. retcomposite_row-printed_row arg ha))
