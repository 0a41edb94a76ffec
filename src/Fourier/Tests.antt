-- ===== src/Fourier/Tests.antt =====
-- Runs of the Fourier transforms.
use sql_code.Common.{
  ◌==◌, if◌then◌else◌, ℕ, ◌+◌, ◌^◌, ◌≡◌, ◌<◌, refl, Option, some, none, arith, List, [], ◌∷◌,
  for_up,
}
use sql_code.Common.Int.{ℤ, pos, negsuc, ◌+ℤ◌, ◌-ℤ◌, ◌*ℤ◌}
use sql_code.Fourier.{Complex, fft_remap, dft, idft, fft}
use sql_code.Fourier.Example.{quarters, quarter_angle, quarters-Exact, quarters-div}
use sql_code.Fourier.Root.{angle}
use sql_code.Fourier.RoundTrip.{idft-fft}
use sql_code.Fourier.Dft.{fft-dft}
use sql_code.Fourier.Transform.{transform}
use sql_code.Fourier.Fft.{complexes, fft-transform}
use sql_code.Fourier.Remap.{Reversed, fft_remap-Reversed}

abbrev signal : ℕ → ℕ
signal i = i + 10

abbrev heap : ℕ → ℕ
heap i = 0

abbrev eight : Option (ℕ → ℕ) → List ℕ
eight none = []
eight (some s) = s 0 ∷ s 1 ∷ s 2 ∷ s 3 ∷ s 4 ∷ s 5 ∷ s 6 ∷ s 7 ∷ s 8 ∷ []

test_fft_remap :
    eight (fft_remap heap 4 signal 0 8) ≡ 10 ∷ 14 ∷ 12 ∷ 16 ∷ 11 ∷ 15 ∷ 13 ∷ 17 ∷ 18 ∷ []
unfolding fft_remap for_up
test_fft_remap = refl

fft_remap-Reversed_example :
    (s : ℕ → ℕ) × (fft_remap heap 4 signal 0 (2 ^ 3) ≡ some s) × Reversed signal 0 3 s
fft_remap-Reversed_example = fft_remap-Reversed heap 3 4 signal 0 (omega arith)

-- The numbers 1, 2, 3, 5.
abbrev four_numbers : ℕ → ℤ
four_numbers i = if i == 0 then pos 1 else if i == 1 then pos 2 else if i == 2 then pos 3 else pos 5

abbrev no_output : ℕ → Complex ℤ
no_output i = record { real = pos 0; imagin = pos 0 }

abbrev at_four : Option (ℕ → Complex ℤ) → List (Complex ℤ)
at_four none = []
at_four (some d) = d 0 ∷ d 1 ∷ d 2 ∷ d 3 ∷ []

abbrev complex : ℤ → ℤ → Complex ℤ
complex a b = record { real = a; imagin = b }

test_fft :
    at_four (fft quarters four_numbers 3 four_numbers no_output 4)
    ≡ complex (pos 11) (pos 0)
      ∷ complex (negsuc 1) (pos 3)
      ∷ complex (negsuc 2) (pos 0)
      ∷ complex (negsuc 1) (negsuc 2)
      ∷ []
unfolding fft fft_remap for_up ◌+ℤ◌ ◌-ℤ◌ ◌*ℤ◌
test_fft = refl

test_dft :
    at_four (some (dft quarters four_numbers no_output 4))
    ≡ complex (pos 11) (pos 0)
      ∷ complex (negsuc 1) (pos 3)
      ∷ complex (negsuc 2) (pos 0)
      ∷ complex (negsuc 1) (negsuc 2)
      ∷ []
unfolding dft for_up ◌+ℤ◌ ◌-ℤ◌ ◌*ℤ◌
test_dft = refl

fft-transform_example :
    (d : ℕ → Complex ℤ) × (fft quarters four_numbers 3 four_numbers no_output (2 ^ 2) ≡ some d)
    × ((t : ℕ)
        → t < 2 ^ 2
        → d t ≡ transform quarters (2 ^ 2) 1 2 (complexes quarters four_numbers) t)
fft-transform_example = fft-transform quarters four_numbers 3 2 four_numbers no_output (omega arith)

fft-dft_example :
    (d : ℕ → Complex ℤ) × (fft quarters four_numbers 3 four_numbers no_output (2 ^ 2) ≡ some d)
    × ((t : ℕ) → t < 2 ^ 2 → d t ≡ dft quarters four_numbers no_output (2 ^ 2) t)
fft-dft_example =
    fft-dft quarters four_numbers 3 2 four_numbers no_output no_output
      (quarters-Exact (angle quarters 4) quarter_angle) (omega arith)

idft-fft_example :
    (d : ℕ → Complex ℤ) × (fft quarters four_numbers 3 four_numbers no_output (2 ^ 2) ≡ some d)
    × ((t : ℕ)
        → t < 2 ^ 2
        → idft quarters (2 ^ 2) d no_output (2 ^ 2) t ≡ complexes quarters four_numbers t)
idft-fft_example =
    idft-fft quarters four_numbers 3 1 four_numbers no_output no_output
      (quarters-Exact (angle quarters 4) quarter_angle) quarters-div (omega arith)
