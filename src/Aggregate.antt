-- ===== src/Aggregate.antt =====
-- The aggregate of The_Definitive_Guide_to_SQLITE/ch01/examples/capi_ext/aggregate.c.
-- An `int` is its word below 2^32, with wrap-around. The library calls `step` on the rows in turn and
-- then `finalize`; the memory that both are given is a parameter on the first row.
mod Tests
use sql_code.Common.{
  ℕ, suc, false, ◌≤◌, ◌+◌, ◌%◌, ◌≡◌, ◌<◌, ◌≢◌, refl, ◌∙◌, ap, arith, List, [], ◌∷◌, ◌++◌, ◌==◌,
  if◌then◌else◌,
}
use sql_code.CText.{Bytes, codes, format_int}
use sql_code.Greenplum.{to_int32, int32_words}

-- The field `x` of the aggregate's memory, and what has been printed.
pub record Sum : Type 0 where
  pub x : ℕ
  pub stdout : Bytes

-- `count` is what `sqlite3_aggregate_count` gives: the number of the row, from 1 on.
unfoldable pub step : ℕ → ℕ → Sum → Sum
step count value s =
    let total = ((if count == 1 then 0 else s.x) + value) % int32_words in
    record {
      x = total;
      stdout =
          s.stdout
          ++ (codes "step()     : value="
              ++ (format_int (to_int32 value)
                  ++ (codes ", total=" ++ (format_int (to_int32 total) ++ codes "\n"))));
    }

-- The result of the aggregate and what has been printed in the end.
unfoldable pub finalize : Sum → ℕ × Bytes
finalize s =
    (s.x, s.stdout ++ (codes "finalize() : total=" ++ (format_int (to_int32 s.x) ++ codes "\n\n")))

-- The calls on the rows from number `count` on.
unfoldable pub steps : ℕ → List ℕ → Sum → Sum
unfolding step
steps count [] s = s
steps count (v ∷ values) s = steps (suc count) values (step count v s)

abbrev pub sum_values : List ℕ → ℕ
sum_values [] = 0
sum_values (v ∷ values) = v + sum_values values

steps-sum :
    (values : List ℕ) (count : ℕ) (s : Sum)
    → 2 ≤ count
    → s.x < int32_words
    → (steps count values s).x ≡ (s.x + sum_values values) % int32_words
unfolding steps
steps-sum [] count s h lt = omega arith
steps-sum (v ∷ values) count s h lt =
    let later : (count == 1) ≡ false = ground arith in
    steps-sum values (suc count) (step count v s) (omega arith) (ground arith)
    ∙ (rw later (omega arith))

-- On one row and more, the result is the sum of the values modulo 2^32, whatever the memory held
-- before the first row.
pub finalize-steps :
    (v : ℕ) (values : List ℕ) (s : Sum)
    → (finalize (steps 1 (v ∷ values) s)).0 ≡ sum_values (v ∷ values) % int32_words
unfolding finalize steps step
finalize-steps v values s =
    steps-sum values 2 (step 1 v s) (omega arith) (omega arith) ∙ omega arith
