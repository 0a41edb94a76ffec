-- ===== src/Greenplum/Decimal.antt =====
-- The length of a printed `int32`.
use sql_code.Common.{
  ℕ, zero, suc, ◌+◌, ◌-◌, ◌*◌, ◌/◌, ◌%◌, ◌≡◌, ◌<◌, ◌≤◌, refl, ap, [], ◌∷◌, arith, length, take,
}
use sql_code.CText.{Bytes, decimal, decimal_onto, format_int}
use sql_code.Greenplum.{int32_words, to_int32, printed}

-- A number below ten times a bound has at most one digit more.
abbrev below_digits : ℕ → ℕ
below_digits zero = 10
below_digits (suc k) = below_digits k * 10

length-decimal_onto :
    (k f n : ℕ) (out : Bytes)
    → n < below_digits k
    → length (decimal_onto f n out) ≤ length out + suc k
unfolding decimal_onto
length-decimal_onto zero zero n out h = omega arith
length-decimal_onto zero (suc f) n out h = ground arith
length-decimal_onto (suc k) zero n out h = omega arith
length-decimal_onto (suc k) (suc f) n out h =
    ground (arith, length-decimal_onto k f (n / 10) ((b'0' + n % 10) ∷ out) (omega arith))

length-decimal : (n : ℕ) → n < 10000000000 → length (decimal n) ≤ 10
unfolding decimal
length-decimal n h = length-decimal_onto 9 n n [] h

length-format_int : (w : ℕ) → w < int32_words → length (format_int (to_int32 w)) ≤ 11
unfolding to_int32 format_int
length-format_int w h = ground (arith, length-decimal w, length-decimal (4294967295 - w + 1))

take_all : (n : ℕ) (s : Bytes) → length s ≤ n → take n s ≡ s
take_all zero [] h = refl
take_all zero (c ∷ s) h = absurd (omega arith)
take_all (suc n) [] h = refl
take_all (suc n) (c ∷ s) h = ap (◌∷◌ c) (take_all n s (omega arith))

-- The 16 bytes that `retcomposite` gives to a printed `int32` are enough: nothing is cut off.
pub printed-format_int : (w : ℕ) → w < int32_words → printed w ≡ format_int (to_int32 w)
printed-format_int w h = take_all 15 _ (omega (arith, length-format_int w h))
