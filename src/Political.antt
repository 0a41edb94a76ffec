-- ===== src/Political.antt =====
-- The collation of The_Definitive_Guide_to_SQLITE/ch01/examples/capi_ext/political.c.
-- What `strcmp`, the clock, `sin` and `rand` give are arguments.
mod Tests
use sql_code.Common.Int.{ℤ, pos, negsuc, ◌-ℤ◌, ◌*ℤ◌, ltb_ℤ}
use sql_code.Common.{
  ℕ, ◌/◌, ◌≡◌, ◌≢◌, refl, ◌==◌, leb, Bool, true, false, if◌then◌else◌, Bool-cases, inl, inr, arith,
}

-- The opinion of a weekday; `sine` is `(int)sin(t->tm_hour*180)`.
unfoldable pub form_opinion : ℕ → ℤ → ℕ → ℕ → ℤ → ℤ
form_opinion tm_wday value l1 l2 sine =
    if tm_wday == 0
    then value
    else if tm_wday == 1
    then pos 0 -ℤ value
    else if tm_wday == 2
    then (if leb l2 l1 then negsuc 0 else pos 1)
    else if tm_wday == 3
    then negsuc 99
    else if tm_wday == 4
    then pos 100
    else if tm_wday == 5
    then pos 0
    else pos 2 *ℤ sine

-- `opinion = rand()-(RAND_MAX/2) > 0 ? -1:1` overwrites the opinion.
unfoldable pub change_on_a_whim : ℕ → ℕ → ℤ → ℤ
change_on_a_whim rand_max rand opinion =
    if ltb_ℤ (pos 0) (pos rand -ℤ pos (rand_max / 2)) then negsuc 0 else pos 1

unfoldable pub political_collation : ℕ → ℕ → ℕ → ℤ → ℤ → ℕ → ℕ → ℤ
unfolding form_opinion change_on_a_whim
political_collation rand_max rand tm_wday sine value l1 l2 =
    change_on_a_whim rand_max rand (form_opinion tm_wday value l1 l2 sine)

whim-ne-zero : (rand_max rand : ℕ) (opinion : ℤ) → change_on_a_whim rand_max rand opinion ≢ pos 0
unfolding change_on_a_whim
whim-ne-zero rand_max rand opinion e = ground arith

whim-same :
    (rand_max rand : ℕ) (a b : ℤ)
    → change_on_a_whim rand_max rand a ≡ change_on_a_whim rand_max rand b
unfolding change_on_a_whim
whim-same rand_max rand a b = refl

-- The day, the texts and their lengths have no effect on the collation, only the random number has,
-- and no two texts are equal to it, not even a text and itself.
political_collation-whim :
    (rand_max rand day1 day2 : ℕ) (sine1 sine2 value1 value2 : ℤ) (l1 l2 l3 l4 : ℕ)
    → (political_collation rand_max rand day1 sine1 value1 l1 l2
        ≡ political_collation rand_max rand day2 sine2 value2 l3 l4)
      × (political_collation rand_max rand day1 sine1 value1 l1 l2 ≢ pos 0)
unfolding political_collation
political_collation-whim rand_max rand day1 day2 sine1 sine2 value1 value2 l1 l2 l3 l4 = (
  whim-same rand_max rand (form_opinion day1 value1 l1 l2 sine1)
      (form_opinion day2 value2 l3 l4 sine2),
  whim-ne-zero rand_max rand (form_opinion day1 value1 l1 l2 sine1),
)
