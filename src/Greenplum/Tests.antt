-- ===== src/Greenplum/Tests.antt =====
-- Runs of the PostgreSQL functions.
use sql_code.Common.Int.{pos, negsuc, ◌+ℤ◌, ◌≤ℤ◌}
use sql_code.Common.{ℕ, ◌≡◌, refl, [], ◌∷◌, ◌++◌, Option, none, some, true, arith, if◌then◌else◌}
use sql_code.CText.{Bytes, codes, strcmp_eq, format_int}
use sql_code.Greenplum.{
  to_int32, mul_int32, add_ab_null, ArrayType, returned, add_int32_array, c_overpaid, retcomposite,
}
use sql_code.Greenplum.Sums.{one_dimensional, add_int32_array-append}
use sql_code.Greenplum.Texts.{text, concat_text, concat_text-append}
use sql_code.Greenplum.Calls.{rows, from}
use sql_code.Greenplum.Rows.{retcomposite-rows}

abbrev some_null : ArrayType
some_null = record { ndim = 1; elements = some 4 ∷ none ∷ some 4294967295 ∷ [] }

test_add_int32_array : add_int32_array some_null ≡ returned (some 3)
unfolding add_int32_array
test_add_int32_array = refl

four : add_int32_array (one_dimensional (none ∷ some 4 ∷ [])) ≡ returned (some 4)
unfolding add_int32_array
four = refl

null_sum : add_int32_array (one_dimensional (none ∷ [])) ≡ returned none
unfolding add_int32_array
null_sum = refl

add_int32_array-append_example :
    add_int32_array (one_dimensional ((none ∷ some 4 ∷ []) ++ (none ∷ [])))
    ≡ returned (add_ab_null (some 4) none)
add_int32_array-append_example =
    add_int32_array-append (none ∷ some 4 ∷ []) (none ∷ []) four null_sum

low : negsuc 2147483647 ≤ℤ (to_int32 5 +ℤ to_int32 4294967294)
unfolding to_int32 ◌+ℤ◌
low = omega arith

high : (to_int32 5 +ℤ to_int32 4294967294) ≤ℤ pos 2147483647
unfolding to_int32 ◌+ℤ◌
high = omega arith

-- 5 and -2
retcomposite-rows_example :
    rows (λ ctx. retcomposite true ctx 2 7) 3 none
    ≡ some (
        from
          (λ i.
            format_int (to_int32 7)
            ∷ format_int (to_int32 (mul_int32 2 7))
            ∷ format_int (to_int32 (mul_int32 3 7))
            ∷ [])
          0
          2)
retcomposite-rows_example = retcomposite-rows 2 7 3 (omega arith) (omega arith) (omega arith)

abbrev arguments : Bytes → Option ℕ
arguments name =
    if strcmp_eq name (codes "a")
    then some 1
    else if strcmp_eq name (codes "b")
    then some 2
    else if strcmp_eq name (codes "salary")
    then some 3
    else none

test_c_overpaid : c_overpaid arguments 2 ≡ true
unfolding c_overpaid strcmp_eq
test_c_overpaid = refl

concat_text-append_example :
    concat_text (codes "????") (text (codes "ab")) (text (codes "cd"))
    ≡ some (text (codes "ab" ++ codes "cd"))
concat_text-append_example =
    concat_text-append (codes "????") (codes "ab") (codes "cd") refl (omega arith) (omega arith)
