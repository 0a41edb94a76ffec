-- ===== src/CText.antt =====
-- C strings: what the examples use of <string.h>, <ctype.h>, <stdlib.h> and <stdio.h>. A `char*` is
-- the list of its bytes in front of the terminating zero, in the "C" locale.
pub mod Strtol
mod Tests
use Prim.Native.Char.{code}
use Prim.Native.String.{String}
use sql_code.Common.Int.{ℤ, pos, negsuc, sub_ℕ}
use sql_code.Common.{
  ℕ, zero, suc, ◌+◌, ◌-◌, ◌*◌, ◌/◌, ◌%◌, ◌<◌, ◌≡◌, ◌↔◌, refl, Bool, true, false, ◌&&◌, ◌||◌, List,
  [], ◌∷◌, ◌++◌, Option, none, some, arith, leb, ltb, ◌==◌, if◌then◌else◌, length, replicate,
}

abbrev pub Bytes : Type 0
Bytes = List ℕ

-- The bytes of an ASCII literal.
abbrev pub codes : String → Bytes
codes String.[] = []
codes (String.◌∷◌ c s) = code c ∷ codes s

abbrev pub within : ℕ → ℕ → ℕ → Bool
within lo hi c = leb lo c && leb c hi

unfoldable pub to_upper : ℕ → ℕ
to_upper c = if within b'a' b'z' c then c - 32 else c

unfoldable pub to_lower : ℕ → ℕ
to_lower c = if within b'A' b'Z' c then c + 32 else c

abbrev pub is_digit : ℕ → Bool
is_digit c = within b'0' b'9' c

abbrev pub is_space : ℕ → Bool
is_space c = c == b' ' || within 9 13 c

-- `strcmp(a, b) == 0`
unfoldable pub strcmp_eq : Bytes → Bytes → Bool
strcmp_eq [] [] = true
strcmp_eq (x ∷ a) (y ∷ b) = x == y && strcmp_eq a b
strcmp_eq _ _ = false

-- `strncmp(a, b, n) == 0`
unfoldable pub strncmp_eq : Bytes → Bytes → ℕ → Bool
strncmp_eq a b zero = true
strncmp_eq [] [] (suc n) = true
strncmp_eq (x ∷ a) (y ∷ b) (suc n) = x == y && strncmp_eq a b n
strncmp_eq _ _ (suc n) = false

-- `strchr(s, c)`: the rest of the text from the first `c` on, or NULL.
unfoldable pub strchr : Bytes → ℕ → Option Bytes
strchr [] c = none
strchr (x ∷ s) c = if x == c then some (x ∷ s) else strchr s c

-- The value of the digits in front, and what `strtol` in base ten makes of them.
unfoldable pub digits_value : ℕ → Bytes → ℕ
digits_value acc [] = acc
digits_value acc (c ∷ s) =
    let rest = digits_value (acc * 10 + (c - b'0')) s in if is_digit c then rest else acc

signed_value : Bytes → ℤ
signed_value [] = pos 0
signed_value (c ∷ s) =
    if c == b'-'
    then sub_ℕ 0 (digits_value 0 s)
    else if c == b'+'
    then pos (digits_value 0 s)
    else pos (digits_value 0 (c ∷ s))

-- `atoi`: leading white space, a sign, digits. No caller hands it more than two bytes, so the
-- overflow that C leaves undefined does not come up.
unfoldable pub atoi : Bytes → ℤ
unfolding signed_value digits_value
atoi [] = pos 0
atoi (c ∷ s) = let rest = atoi s in if is_space c then rest else signed_value (c ∷ s)

-- Decimal digits; the fuel is the number itself, which has no more digits than that.
unfoldable pub decimal_onto : ℕ → ℕ → Bytes → Bytes
decimal_onto zero n out = (b'0' + n % 10) ∷ out
decimal_onto (suc f) n out =
    let rest = decimal_onto f (n / 10) ((b'0' + n % 10) ∷ out) in
    if ltb n 10 then (b'0' + n % 10) ∷ out else rest

-- `%d` of a number that is not negative
unfoldable pub decimal : ℕ → Bytes
unfolding decimal_onto
decimal n = decimal_onto n n []

-- `%d`
unfoldable pub format_int : ℤ → Bytes
unfolding decimal
format_int (pos n) = decimal n
format_int (negsuc n) = b'-' ∷ decimal (n + 1)

-- `%0*i`: zeros stand behind the sign, and a longer number is not cut.
abbrev pub pad_zeros : ℕ → Bytes → Bytes
pad_zeros w s = replicate (w - length s) b'0' ++ s

unfoldable pub format_int_padded : ℕ → ℤ → Bytes
unfolding decimal
format_int_padded w (pos n) = pad_zeros w (decimal n)
format_int_padded w (negsuc n) = b'-' ∷ pad_zeros (w - 1) (decimal (n + 1))

-- `%-*s`: at least `w` bytes, filled up on the right.
abbrev pub pad_right : ℕ → Bytes → Bytes
pad_right w s = s ++ replicate (w - length s) b' '

-- Two digits print as two digits, whatever the fuel.
pub format_int_padded-two :
    (n : ℕ) → n < 100 → format_int_padded 2 (pos n) ≡ (b'0' + n / 10) ∷ (b'0' + n % 10) ∷ []
unfolding format_int_padded
format_int_padded-two zero h = refl
format_int_padded-two (suc zero) h = refl
format_int_padded-two (suc (suc n)) h = ground arith

-- `strncmp` over a whole prefix compares as list equality does.
pub strcmp_eq_iff : (a b : Bytes) → (strcmp_eq a b ≡ true) ↔ (a ≡ b)
unfolding strcmp_eq
strcmp_eq_iff (x ∷ a) (y ∷ b) = ground (arith, strcmp_eq_iff a b)
strcmp_eq_iff _ _ = ground arith

-- Upper case is a fixed point of `toupper`.
pub to_upper-to_upper : (c : ℕ) → to_upper (to_upper c) ≡ to_upper c
unfolding to_upper
to_upper-to_upper c = ground arith
