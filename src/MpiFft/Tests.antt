-- ===== src/MpiFft/Tests.antt =====
-- Runs of fft_mpi.c.
use sql_code.Common.{ℕ, ◌+◌, ◌*◌, ◌≡◌, ◌<◌, refl, arith, Option, some, none, List, [], ◌∷◌, for_up}
use sql_code.Common.Int.{ℤ, pos, ◌+ℤ◌, ◌*ℤ◌, ◌-ℤ◌}
use sql_code.Fourier.{Complex, multy_complex}
use sql_code.Fourier.Exact.{Exact}
use sql_code.Fourier.Root.{angle, forward}
use sql_code.Fourier.Sums.{csum}
use sql_code.Fourier.Example.{quarters, quarter_angle, quarters-Exact}
use sql_code.MpiFft.{Evaluation, shuffle, evaluate, start_pos, stop_pos, mpi_transform}
use sql_code.MpiFft.Evaluate.{Evaluated, evaluate-Evaluated}
use sql_code.MpiFft.Transform.{mpi_transform-csum}

abbrev numbers : ℕ → Complex ℤ
numbers i = record { real = pos (i + 1); imagin = pos 0 }

abbrev blank : ℕ → Complex ℤ
blank i = record { real = pos 99; imagin = pos 99 }

abbrev exact_quarters : Exact quarters 4 (angle quarters 4)
exact_quarters = quarters-Exact (angle quarters 4) quarter_angle

-- The example of the comment on `shuffle`.
abbrev shuffled : ℕ → ℕ
shuffled = shuffle (λ i. 0) (λ i. i) 2 5

test_shuffle :
    shuffled 1 ∷ shuffled 2 ∷ shuffled 3 ∷ shuffled 4 ∷ shuffled 5 ∷ shuffled 6 ∷ []
    ≡ 1 ∷ 2 ∷ 4 ∷ 3 ∷ 5 ∷ 6 ∷ []
unfolding shuffle for_up
test_shuffle = refl

-- 2 + 3 x + 4 x^2 + 5 x^3 + 6 x^4 at 2 and at 3.
abbrev at_two_and_three : Option (Evaluation quarters) → List ℤ
at_two_and_three none = []
at_two_and_three (some s) = (s.y 1).real ∷ (s.y 2).real ∷ (s.y 3).real ∷ []

test_evaluate :
    at_two_and_three (evaluate quarters blank 3 numbers 1 5 numbers blank 1 2)
    ≡ pos 160 ∷ pos 668 ∷ pos 99 ∷ []
unfolding evaluate for_up ◌+ℤ◌ ◌-ℤ◌ ◌*ℤ◌
test_evaluate = refl

evaluate-Evaluated_example :
    (s : Evaluation quarters) × (evaluate quarters blank 3 numbers 1 5 numbers blank 1 2 ≡ some s)
    × Evaluated quarters numbers 1 5 numbers blank 1 2 s
evaluate-Evaluated_example =
    evaluate-Evaluated quarters 4 exact_quarters blank 1 2 (omega arith) (omega arith) 2 numbers 1 5
      numbers blank (omega arith) (omega arith) (omega arith)

-- The ranges of four processes that share eight places.
test_ranges :
    (let range = λ (rank : ℕ). start_pos 8 4 rank ∷ stop_pos 8 4 rank ∷ [] in
      range 0 ∷ range 1 ∷ range 2 ∷ range 3 ∷ [])
    ≡ (0 ∷ 1 ∷ []) ∷ (2 ∷ 3 ∷ []) ∷ (4 ∷ 5 ∷ []) ∷ (6 ∷ 7 ∷ []) ∷ []
unfolding start_pos stop_pos
test_ranges = refl

mpi_transform-csum_example :
    (d : ℕ → Complex ℤ) × (mpi_transform quarters
        (λ sent. sent)
        blank
        1
        numbers
        2
        (λ rank. blank)
        (λ rank. blank)
        3
      ≡ some d)
    × ((t : ℕ)
        → t < 2 * 2
        → d t
          ≡ csum quarters 2
              (λ k. multy_complex quarters (numbers k) (forward quarters 4 exact_quarters (t * k))))
mpi_transform-csum_example =
    mpi_transform-csum quarters 2 3 (λ sent. sent) blank 0 numbers (λ rank. blank) (λ rank. blank)
      exact_quarters (omega arith) (omega arith) (omega arith) (omega arith) (omega arith)
      (λ sent rank k. refl)
