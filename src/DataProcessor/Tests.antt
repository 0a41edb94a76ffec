-- ===== src/DataProcessor/Tests.antt =====
-- Runs of the search for a peak.
use sql_code.Common.{
  ℕ, zero, suc, ◌+◌, ◌*◌, ◌<◌, ◌≡◌, refl, arith, [], ◌∷◌, leb, if◌then◌else◌, for_up, get_or,
}
use sql_code.Common.Int.{ℤ, pos, pos_part, ltb_ℤ, ◌-ℤ◌, ◌*ℤ◌, -ℤ_parts}
use sql_code.Fourier.{Complex, dft}
use sql_code.Fourier.Example.{quarters}
use sql_code.DataProcessor.{
  Floats, DataProcessor, magnitude, to_freq, get_peak_pos, start_of, data_processor_run,
}
use sql_code.DataProcessor.Peak.{Ordered, IsPeak, data_processor_run-IsPeak}

-- The root of a number, rounded down.
abbrev root : ℕ → ℕ
root zero = 0
root (suc n) = let r = root n in if leb ((r + 1) * (r + 1)) (suc n) then r + 1 else r

-- Numbers without a fraction, so that a ten-thousandth is 0.
abbrev whole_numbers : Floats
whole_numbers = record {
  double = quarters;
  sqrt = λ a. pos (root (pos_part a));
  less = ltb_ℤ;
  to_int = pos_part;
}

whole_numbers-Ordered : Ordered whole_numbers
whole_numbers-Ordered = record {
  not_less_trans = λ a b c h k. ground arith;
  self = λ a. ground (arith, -ℤ_parts a a, -ℤ_parts (pos 0) (pos 0));
  farther =
      λ a b c h. ground (arith, -ℤ_parts a b, -ℤ_parts c a, -ℤ_parts c b, -ℤ_parts (pos 0) (pos 0));
}

abbrev heights : ℕ → Complex ℤ
heights i = record { real = pos (get_or (20 ∷ 5 ∷ 9 ∷ 3 ∷ 30 ∷ []) i 0); imagin = pos 0 }

test_get_peak_pos : get_peak_pos whole_numbers heights 8 1 ≡ 2
unfolding get_peak_pos for_up ◌-ℤ◌
test_get_peak_pos = refl

abbrev no_values : ℕ → Complex ℤ
no_values i = record { real = pos 0; imagin = pos 0 }

-- The transform of the real parts.
abbrev real_transform : ℕ → (ℕ → Complex ℤ) → ℕ → Complex ℤ
real_transform n x = dft quarters (λ i. (x i).real) no_values n

abbrev four_heights : DataProcessor ℤ
four_heights = record { nfft = 4; sample_hz = pos 2000; cin = heights; cout = no_values }

data_processor_run-IsPeak_example :
    ((i : ℕ)
      → i < 4
      → (data_processor_run whole_numbers real_transform four_heights).dfft.cout i
        ≡ magnitude whole_numbers (to_freq whole_numbers 4 (real_transform 4 heights i)))
    × ((p : ℕ) × ((data_processor_run whole_numbers real_transform four_heights).frequence
          ≡ quarters.div (pos p *ℤ pos 2000) (pos 4))
        × IsPeak whole_numbers
            (λ i. ((data_processor_run whole_numbers real_transform four_heights).dfft.cout i).real)
            (start_of whole_numbers 4 (pos 500) (pos 2000))
            2
            p)
data_processor_run-IsPeak_example =
    data_processor_run-IsPeak whole_numbers real_transform four_heights whole_numbers-Ordered
