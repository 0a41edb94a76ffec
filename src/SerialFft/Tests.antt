-- ===== src/SerialFft/Tests.antt =====
-- Runs of fft.c.
use sql_code.Common.{
  for_up, ℕ, ◌+◌, ◌^◌, ◌≡◌, ◌<◌, ◌==◌, if◌then◌else◌, leb, ◌≤◌, true, refl, arith, some, [], ◌∷◌,
}
use sql_code.Common.Int.{ℤ, pos, ◌+ℤ◌}
use sql_code.Fourier.{Complex, dft, fft_remap}
use sql_code.Fourier.Fft.{complexes}
use sql_code.Fourier.Example.{
  quarters, quarter_angle, quarters-Exact, quarters-div, quarters-halves, quarters-angles,
}
use sql_code.Fourier.Root.{angle}
use sql_code.Fourier.Exact.{Exact}
use sql_code.SerialFft.Decimation.{decimated, serial_fft-decimated}
use sql_code.SerialFft.Ifft.{serial_ifft, serial_ifft-serial_fft}
use sql_code.SerialFft.Real.{serial_fft_real, serial_ifft_real}
use sql_code.SerialFft.RealFft.{serial_fft_real-serial_fft}
use sql_code.SerialFft.IfftReal.{serial_ifft_real-serial_fft}
use sql_code.SerialFft.Example.{quarters-ExactTables}
use sql_code.SerialFft.Serial.{serial_fft-dft}
use sql_code.SerialFft.{literal_tables, bit_reversal_sort, serial_fft}
use sql_code.SerialFft.Sorted.{bit_reversal_sort-fft_remap}

abbrev tens : ℕ → ℕ
tens i = i + 10

abbrev sorted_tens : ℕ → ℕ
sorted_tens = bit_reversal_sort 3 8 tens

test_sort :
    sorted_tens 0
      ∷ sorted_tens 1
      ∷ sorted_tens 2
      ∷ sorted_tens 3
      ∷ sorted_tens 4
      ∷ sorted_tens 5
      ∷ sorted_tens 6
      ∷ sorted_tens 7
      ∷ []
    ≡ 10 ∷ 14 ∷ 12 ∷ 16 ∷ 11 ∷ 15 ∷ 13 ∷ 17 ∷ []
unfolding bit_reversal_sort for_up
test_sort = refl

bit_reversal_sort-fft_remap_example :
    (s : ℕ → ℕ) × (fft_remap tens 4 tens 0 (2 ^ 3) ≡ some s)
    × ((a : ℕ) → a < 2 ^ 3 → bit_reversal_sort 3 (2 ^ 3) tens a ≡ s a)
bit_reversal_sort-fft_remap_example =
    bit_reversal_sort-fft_remap 2 3 (omega arith) tens tens 4 (omega arith)

-- The numbers 1, 2, 3, 5.
abbrev four_samples : ℕ → ℤ
four_samples i = if i == 0 then pos 1 else if i == 1 then pos 2 else if i == 2 then pos 3 else pos 5

abbrev empty_output : ℕ → Complex ℤ
empty_output i = record { real = pos 0; imagin = pos 0 }

serial_fft-dft_example :
    serial_fft quarters
      (literal_tables quarters (pos 0))
      33
      (2 ^ 2)
      (complexes quarters four_samples)
      3
    ≡ dft quarters four_samples empty_output (2 ^ 2) 3
serial_fft-dft_example =
    serial_fft-dft quarters (literal_tables quarters (pos 0)) 33 1 four_samples empty_output
      (quarters-Exact (angle quarters 4) quarter_angle) (omega arith) (omega arith)
      quarters-ExactTables 3 (omega arith)

-- The numbers 1 + 7i, 2 + 8i, 3 + 9i, 5 + 11i.
abbrev complex_samples : ℕ → Complex ℤ
complex_samples i = record { real = four_samples i; imagin = four_samples i +ℤ pos 6 }

abbrev exact_quarters : Exact quarters 4 (angle quarters 4)
exact_quarters = quarters-Exact (angle quarters 4) quarter_angle

serial_ifft-serial_fft_example :
    serial_ifft quarters
      (literal_tables quarters (pos 0))
      33
      (2 ^ 2)
      (serial_fft quarters (literal_tables quarters (pos 0)) 33 (2 ^ 2) complex_samples)
      3
    ≡ complex_samples 3
serial_ifft-serial_fft_example =
    serial_ifft-serial_fft quarters (literal_tables quarters (pos 0)) 33 1 complex_samples
      exact_quarters (omega arith) (omega arith) quarters-ExactTables quarters-div 3 (omega arith)

serial_fft_real-serial_fft_example :
    serial_fft_real quarters (literal_tables quarters (pos 0)) 33 (2 ^ 2) complex_samples 3
    ≡ serial_fft quarters
        (literal_tables quarters (pos 0))
        33
        (2 ^ 2)
        (complexes quarters (λ n. (complex_samples n).real))
        3
serial_fft_real-serial_fft_example =
    serial_fft_real-serial_fft quarters (literal_tables quarters (pos 0)) 33 0 complex_samples
      exact_quarters quarters-angles quarters-halves (omega arith) (omega arith)
      quarters-ExactTables 3 (omega arith)

-- The transform at the indices 0, 1 and 2, and something else at 3.
abbrev half_spectrum : ℕ → Complex ℤ
half_spectrum i =
    if leb i 2
    then serial_fft quarters (literal_tables quarters (pos 0)) 33 (2 ^ 2)
        (complexes quarters four_samples) i
    else record { real = pos 77; imagin = pos 78 }

half_spectrum-agrees :
    (n : ℕ)
    → n ≤ 2 ^ 1
    → half_spectrum n
      ≡ serial_fft quarters
          (literal_tables quarters (pos 0))
          33
          (2 ^ 2)
          (complexes quarters four_samples)
          n
half_spectrum-agrees n le = (let low : leb n 2 ≡ true = ground arith in rw low refl)

serial_ifft_real-serial_fft_example :
    serial_ifft_real quarters (literal_tables quarters (pos 0)) 33 (2 ^ 2) half_spectrum 3
    ≡ complexes quarters four_samples 3
serial_ifft_real-serial_fft_example =
    serial_ifft_real-serial_fft quarters (literal_tables quarters (pos 0)) 33 0 four_samples
      half_spectrum exact_quarters quarters-angles quarters-halves quarters-div (omega arith)
      (omega arith) quarters-ExactTables half_spectrum-agrees 3 (omega arith)

-- Eight numbers and the tables of the code.
serial_fft-decimated_example :
    serial_fft quarters (literal_tables quarters (pos 0)) 33 (2 ^ 3) complex_samples 5
    ≡ decimated quarters (literal_tables quarters (pos 0)) 3 complex_samples 5
serial_fft-decimated_example =
    serial_fft-decimated quarters (literal_tables quarters (pos 0)) 33 2 complex_samples
      (omega arith) (omega arith) 5 (omega arith)
