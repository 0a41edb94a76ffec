-- ===== src/DataProcessor.antt =====
-- Greenplum/functions/c/fourier_transform/kissfft/data_processor.c: the frequency at which a spectrum
-- has its peak. The arithmetic of `float`, `kiss_fft` of the library that stands beside it, `sqrt`, the
-- comparison and the conversion to `int` are parameters.
pub mod Peak
mod Tests
use sql_code.Common.{ℕ, zero, suc, ◌+◌, ◌-◌, ◌*◌, ◌/◌, Bool, if◌then◌else◌, for_up}
use sql_code.Fourier.{Double, Complex, store}

pub record Floats : Type 1 where
  pub double : Double
  pub sqrt : double.R → double.R
  -- `a < b`
  pub less : double.R → double.R → Bool
  -- The conversion of a number that is not negative to `int`.
  pub to_int : double.R → ℕ

-- `pos` and `maxdata` of `get_peak_pos`.
pub record Search (R : Type 0) : Type 0 where
  pub pos : ℕ
  pub maxdata : R

-- The fields of `struct data_processor` but for the state of the library.
pub record DataProcessor (R : Type 0) : Type 0 where
  pub nfft : ℕ
  pub sample_hz : R
  pub cin : ℕ → Complex R
  pub cout : ℕ → Complex R

-- What `data_processor_run` leaves, and returns.
pub record Ran (R : Type 0) : Type 0 where
  pub dfft : DataProcessor R
  pub frequence : R

module _ (F : Floats) where
  open F use {double, sqrt, less, to_int}
  open double use {R, of_ℕ, add, sub, mul, div}

  abbrev pub to_freq : ℕ → Complex R → Complex R
  to_freq n c =
      let nc = add (div (of_ℕ n) (of_ℕ 2)) (of_ℕ 1) in
      record { real = div c.real nc; imagin = div c.imagin nc }

  unfoldable pub convert_to_freq : ℕ → (ℕ → Complex R) → ℕ → Complex R
  convert_to_freq n cout = for_up n (λ k c. store c k (to_freq n (c k))) cout

  abbrev pub magnitude : Complex R → Complex R
  magnitude c = record {
    real = sqrt (add (mul c.real c.real) (mul c.imagin c.imagin));
    imagin = of_ℕ 0;
  }

  unfoldable pub complex_abs : ℕ → (ℕ → Complex R) → ℕ → Complex R
  complex_abs n cout = for_up n (λ k c. store c k (magnitude (c k))) cout

  -- `(a - b) > 0.0001`
  abbrev pub exceeds : R → R → Bool
  exceeds a b = less (div (of_ℕ 1) (of_ℕ 10000)) (sub a b)

  unfoldable pub peak_round : (ℕ → Complex R) → ℕ → Search R → Search R
  peak_round cout i s =
      if exceeds (cout i).real s.maxdata then record { pos = i; maxdata = (cout i).real } else s

  unfoldable pub get_peak_pos : (ℕ → Complex R) → ℕ → ℕ → ℕ
  unfolding peak_round
  get_peak_pos cout nfft start_pos =
      (for_up (nfft / 2 - start_pos) (λ k. peak_round cout (start_pos + k))
        (record { pos = 0; maxdata = of_ℕ 0 })).pos

  abbrev pub start_of : ℕ → R → R → ℕ
  start_of nfft start_hz sample_hz = to_int (div (mul start_hz (of_ℕ nfft)) sample_hz)

  unfoldable pub get_peak_frequence : (ℕ → Complex R) → ℕ → R → R → R
  unfolding get_peak_pos
  get_peak_frequence cout nfft start_hz sample_hz =
      div (mul (of_ℕ (get_peak_pos cout nfft (start_of nfft start_hz sample_hz))) sample_hz)
        (of_ℕ nfft)

  unfoldable pub data_processor_run :
      (ℕ → (ℕ → Complex R) → ℕ → Complex R) → DataProcessor R → Ran R
  unfolding convert_to_freq complex_abs get_peak_frequence
  data_processor_run kiss_fft dfft =
      let n = dfft.nfft in
      let cout = complex_abs n (convert_to_freq n (kiss_fft n dfft.cin)) in
      record {
        dfft = record dfft { cout = cout };
        frequence = get_peak_frequence cout n (of_ℕ 500) dfft.sample_hz;
      }
