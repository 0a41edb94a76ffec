-- ===== src/Greenplum/Sums.antt =====
-- The sums of add_func.c.
use sql_code.Common.Int.{pos, negsuc, ◌+ℤ◌, ◌≤ℤ◌, +ℤ_parts, eq_of_parts}
use sql_code.Common.{
  for_up, suc, ℕ, ◌+◌, ◌%◌, ◌≡◌, ◌<◌, ◌≤◌, refl, ◌∙◌, Bool, true, false, ◌||◌, List, [], ◌∷◌, ◌++◌,
  Option, none, some, arith, if◌then◌else◌,
}
use sql_code.CText.{codes}
use sql_code.Greenplum.{
  int32_words, to_int32, add_ab, add_for, Total, nothing_yet, accumulate, total_or_null,
  add_ab_null, ArrayType, returned, raised, sum_elements, add_int32_array,
}

-- The plain sum of the elements that are not NULL, and whether there is one.
abbrev pub sum_present : List (Option ℕ) → ℕ
sum_present [] = 0
sum_present (none ∷ xs) = sum_present xs
sum_present (some x ∷ xs) = x + sum_present xs

abbrev pub any_present : List (Option ℕ) → Bool
any_present [] = false
any_present (none ∷ xs) = any_present xs
any_present (some x ∷ xs) = true

mod_step :
    (s x rest : ℕ) → ((s + x) % int32_words + rest) % int32_words ≡ (s + (x + rest)) % int32_words
mod_step s x rest = omega arith

sum_elements-sum :
    (xs : List (Option ℕ)) (t : Total)
    → t.sum < int32_words
    → (sum_elements t xs).sum ≡ (t.sum + sum_present xs) % int32_words
unfolding sum_elements
sum_elements-sum [] t h = omega arith
sum_elements-sum (none ∷ xs) t h = sum_elements-sum xs t h
sum_elements-sum (some x ∷ xs) t h =
    sum_elements-sum xs (accumulate t (some x)) (omega arith) ∙ mod_step t.sum x (sum_present xs)

sum_elements-not_null :
    (t : Total) (xs : List (Option ℕ))
    → (sum_elements t xs).not_null ≡ (t.not_null || any_present xs)
unfolding sum_elements
sum_elements-not_null t [] = ground arith
sum_elements-not_null t (none ∷ xs) = sum_elements-not_null t xs
sum_elements-not_null t (some x ∷ xs) =
    ground (arith, sum_elements-not_null (accumulate t (some x)) xs)

total : List (Option ℕ) → Option ℕ
total xs = if any_present xs then some (sum_present xs % int32_words) else none

sum_elements-total : (xs : List (Option ℕ)) → total_or_null (sum_elements nothing_yet xs) ≡ total xs
unfolding total
sum_elements-total xs =
    ground
      (arith, sum_elements-sum xs nothing_yet (omega arith), sum_elements-not_null nothing_yet xs)

-- An array of at most one dimension gives the sum of its elements that are not NULL, modulo 2^32, and
-- NULL if it has none; one of more dimensions is refused.
pub add_int32_array-total :
    (a : ArrayType)
    → (a.ndim ≤ 1
        → add_int32_array a
          ≡ returned (
              if any_present a.elements then some (sum_present a.elements % int32_words) else none))
      × (2 ≤ a.ndim → add_int32_array a ≡ raised (codes "1-dimensional array needed"))
unfolding add_int32_array total
add_int32_array-total a = (λ h. ground (arith, sum_elements-total a.elements), λ h. ground arith)

sum_present-append :
    (xs ys : List (Option ℕ)) → sum_present (xs ++ ys) ≡ sum_present xs + sum_present ys
sum_present-append [] ys = omega arith
sum_present-append (none ∷ xs) ys = sum_present-append xs ys
sum_present-append (some x ∷ xs) ys = omega (arith, sum_present-append xs ys)

any_present-append :
    (xs ys : List (Option ℕ)) → any_present (xs ++ ys) ≡ (any_present xs || any_present ys)
any_present-append [] ys = refl
any_present-append (none ∷ xs) ys = any_present-append xs ys
any_present-append (some x ∷ xs) ys = refl

none_present : (xs : List (Option ℕ)) → any_present xs ≡ false → sum_present xs ≡ 0
none_present [] h = refl
none_present (none ∷ xs) h = none_present xs h
none_present (some x ∷ xs) h = ground arith

abbrev pub one_dimensional : List (Option ℕ) → ArrayType
one_dimensional xs = record { ndim = 1; elements = xs }

-- The sum of a concatenation is `add_ab_null` of the sums of its parts: the two functions treat NULL
-- and overflow alike.
pub add_int32_array-append :
    (xs ys : List (Option ℕ)) {a b : Option ℕ}
    → add_int32_array (one_dimensional xs) ≡ returned a
    → add_int32_array (one_dimensional ys) ≡ returned b
    → add_int32_array (one_dimensional (xs ++ ys)) ≡ returned (add_ab_null a b)
unfolding add_int32_array add_ab_null accumulate total
add_int32_array-append xs ys ha hb = ground (
  arith,
  sum_elements-total xs,
  sum_elements-total ys,
  sum_elements-total (xs ++ ys),
  sum_present-append xs ys,
  any_present-append xs ys,
  none_present xs,
  none_present ys,
)

-- Where the sum of the two signed values is one of 32 bits, `add_ab` gives it.
pub add_ab-exact :
    (a b : ℕ)
    → a < int32_words
    → b < int32_words
    → negsuc 2147483647 ≤ℤ (to_int32 a +ℤ to_int32 b)
    → (to_int32 a +ℤ to_int32 b) ≤ℤ pos 2147483647
    → to_int32 (add_ab a b) ≡ to_int32 a +ℤ to_int32 b
unfolding add_ab to_int32
add_ab-exact a b ha hb lo hi = eq_of_parts _ _ (ground (arith, +ℤ_parts (to_int32 a) (to_int32 b)))

repeated : (c n s : ℕ) → for_up (suc n) (λ i t. c) s ≡ c
unfolding for_up
repeated c n s = refl

-- The repetitions of `add_for` come to one sum, whatever the variable held before.
pub add_for-add_ab : (a b res : ℕ) → add_for a b res ≡ add_ab a b
unfolding add_for for_up
add_for-add_ab a b res =
    repeated (add_ab a b) 9999
      (for_up 9999 (λ i outer. for_up 10000 (λ j inner. add_ab a b) outer) res)
