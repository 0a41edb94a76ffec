-- ===== src/ParallelFft/Tests.antt =====
-- Runs of the transform of fft_openmp.c.
use sql_code.Common.{
  ℕ, ◌+◌, ◌*◌, ◌/◌, ◌^◌, ◌==◌, ◌≡◌, refl, arith, List, [], ◌∷◌, if◌then◌else◌, for_up,
}
use sql_code.Common.Int.{ℤ, pos, negsuc, pos_part, ltb_ℤ, eq_of_parts, ◌+ℤ◌, ◌-ℤ◌, ◌*ℤ◌}
use sql_code.Fourier.{Complex}
use sql_code.Fourier.Example.{quarters, quarters-Exact}
use sql_code.ParallelFft.{Logarithm, cffti, step, cfft2}
use sql_code.ParallelFft.Step.{entry}
use sql_code.ParallelFft.Passes.{table_angle}
use sql_code.ParallelFft.Cfft2.{transformed, cfft2-transformed}
use sql_code.ParallelFft.RoundTrip.{cfft2_twice}
use sql_code.Fourier.Sums.{scale}
use sql_code.ParallelFft.Threads.{System, Run-Finished}
use sql_code.ParallelFft.Schedule.{Divides, threads_of_step, step_interleaved}

-- A rough logarithm, near enough for four numbers.
abbrev rough_log : Logarithm quarters
rough_log = record { lt = ltb_ℤ; log = λ a. pos ((pos_part a + 1) / 2); truncate = pos_part }

-- The numbers of `fft_main`.
abbrev main_x : ℕ → ℤ
main_x i =
    if i == 0
    then pos 1
    else if i == 2
    then pos 2
    else if i == 4
    then pos 4
    else if i == 6
    then pos 3
    else pos 0

abbrev no_table : ℕ → ℤ
no_table i = pos 0

abbrev complex : ℤ → ℤ → Complex ℤ
complex a b = record { real = a; imagin = b }

abbrev four_entries : (ℕ → ℤ) → List (Complex ℤ)
four_entries y =
    entry quarters y 0 0 ∷ entry quarters y 0 1 ∷ entry quarters y 0 2 ∷ entry quarters y 0 3 ∷ []

test_cfft2 :
    four_entries (cfft2 quarters rough_log 4 main_x no_table (cffti quarters 4 no_table) (pos 1)).1
    ≡ complex (pos 10) (pos 0)
      ∷ complex (negsuc 2) (negsuc 0)
      ∷ complex (pos 0) (pos 0)
      ∷ complex (negsuc 2) (pos 1)
      ∷ []
unfolding cfft2 cffti for_up ◌+ℤ◌ ◌-ℤ◌ ◌*ℤ◌
test_cfft2 = refl

table_counts : (n : ℕ) → table_angle quarters 4 n ≡ pos n
unfolding ◌*ℤ◌ ◌-ℤ◌
table_counts n = eq_of_parts _ (pos n) (ground arith)

cfft2-transformed_example :
    entry quarters
      (cfft2 quarters rough_log (2 ^ 2) main_x no_table (cffti quarters (2 ^ 2) no_table) (pos 1)).1
      0
      3
    ≡ transformed quarters rough_log (2 ^ 2) main_x (pos 1) 3
unfolding ◌-ℤ◌
cfft2-transformed_example =
    cfft2-transformed quarters rough_log 1 main_x no_table no_table (pos 1)
      (quarters-Exact (table_angle quarters 4) table_counts) refl 3 (omega arith)

-- Two threads with one iteration each.
abbrev two_threads : List (List ℕ)
two_threads = (1 ∷ []) ∷ (0 ∷ []) ∷ []

two_threads-Divides : Divides (4 / (2 * 1)) two_threads
two_threads-Divides j = ground arith

abbrev main_threads : System ℤ
main_threads = threads_of_step quarters rough_log 4 1 main_x 4 no_table no_table (pos 1) two_threads

step_interleaved_example :
    (Run-Finished main_threads).0.memory
    ≡ step quarters rough_log 4 1 main_x
        (0 * 2 + 0)
        4
        no_table
        (0 * 2 + 0)
        (1 * 2 + 0)
        no_table
        (pos 1)
step_interleaved_example =
    step_interleaved quarters rough_log 4 1 main_x 4 no_table no_table (pos 1) two_threads
      two_threads-Divides (Run-Finished main_threads).0 (Run-Finished main_threads).1
      (Run-Finished main_threads).2

cfft2_twice_example :
    entry quarters
      (cfft2 quarters rough_log
        (2 ^ 2)
        (cfft2 quarters rough_log
          (2 ^ 2)
          main_x
          no_table
          (cffti quarters (2 ^ 2) no_table)
          (pos 1)).1
        no_table
        (cffti quarters (2 ^ 2) no_table)
        (negsuc 0)).1
      0
      2
    ≡ scale quarters (pos (2 ^ 2)) (entry quarters main_x 0 2)
unfolding ◌-ℤ◌
cfft2_twice_example =
    cfft2_twice quarters rough_log 1 main_x no_table no_table no_table (pos 1) (negsuc 0)
      (quarters-Exact (table_angle quarters 4) table_counts) refl refl 2 (omega arith)
