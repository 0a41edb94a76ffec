-- ===== src/Fourier/RoundTrip.antt =====
-- `IDFT` undoes `DFT` and `FFT`, in exact arithmetic.
use native.Mathlib.Nat.{two-pow-succ}
use sql_code.Common.{ℕ, suc, ◌*◌, ◌^◌, ◌≡◌, ◌<◌, refl, ap, ap₂, ◌∙◌, arith, for_up, fun_ext, some}
use sql_code.Fourier.{
  Double, Complex, add_complex, multy_complex, get_wn, dft_at, dft, idft_at, idft, fft,
}
use sql_code.Fourier.Exact.{Exact}
use sql_code.Fourier.Sums.{complex_zero, csum, multy_comm}
use sql_code.Fourier.Root.{forward, backward, forward-Root, backward-Root, angle}
use sql_code.Fourier.Geometric.{csum_cong}
use sql_code.Fourier.Inverse.{forward-backward, inverse_sum}
use sql_code.Fourier.Fft.{complexes, copied_to}
use sql_code.Fourier.Dft.{dft_angle, dft_at-csum, fft-dft}

module _ (D : Double) (size_n : ℕ) (e : Exact D size_n (angle D size_n)) where
  open D use {R, of_ℕ, add, sub, mul, div, neg, cos, sin}

  -- The sums of `DFT` and `IDFT`, with the two roots.
  dft_at-backward :
      (src : ℕ → R) (k : ℕ)
      → dft_at D src size_n k
        ≡ csum D size_n (λ p. multy_complex D (complexes D src p) (backward D size_n e (k * p)))
  unfolding get_wn
  dft_at-backward src k =
      dft_at-csum D size_n e src k
      ∙ ap (csum D size_n) (
          fun_ext (λ p.
            ap (λ m. multy_complex D (complexes D src p) (backward D size_n e m))
              (let same : p * k * 1 ≡ k * p = omega arith in same)))

  abbrev divided : Complex R → Complex R
  divided s = record { real = div s.real (of_ℕ size_n); imagin = div s.imagin (of_ℕ size_n) }

  idft_at-forward :
      (src : ℕ → Complex R) (t : ℕ)
      → idft_at D size_n src size_n t
        ≡ divided (csum D size_n (λ n. multy_complex D (src n) (forward D size_n e (t * n))))
  unfolding idft_at add_complex multy_complex
  idft_at-forward src t =
      ap (λ f. divided (for_up size_n f (complex_zero D)))
        (fun_ext (λ n. fun_ext (λ c.
          ap
            (λ x. record {
              real = add c.real (sub (mul (src n).real (cos x)) (mul (src n).imagin (sin x)));
              imagin = add c.imagin (add (mul (src n).real (sin x)) (mul (src n).imagin (cos x)));
            })
            (dft_angle D size_n e t n
              ∙ ap (angle D size_n) (let same : n * t * 1 ≡ t * n = omega arith in same))
          ∙ ap
              (λ y. record {
                real = add c.real (
                    sub (mul (src n).real (cos (angle D size_n (t * n))))
                      (mul (src n).imagin (sin (angle D size_n (t * n)))));
                imagin = add c.imagin (add (mul (src n).real (sin (angle D size_n (t * n)))) y);
              })
              (e.mul_comm (src n).imagin (cos (angle D size_n (t * n)))))))

  module _ (h k : ℕ) (half : h * 2 ≡ size_n) (size : 2 ^ k ≡ size_n) where
    -- `IDFT` of what agrees with `DFT`.
    idft_at-dft_at :
        ((a : R) → div (mul (of_ℕ size_n) a) (of_ℕ size_n) ≡ a)
        → (src : ℕ → R) (d : ℕ → Complex R) (t : ℕ)
        → ((m : ℕ) → m < size_n → d m ≡ dft_at D src size_n m)
        → t < size_n
        → idft_at D size_n d size_n t ≡ complexes D src t
    idft_at-dft_at divides src d t agrees ht =
        idft_at-forward d t
        ∙ ap divided (
            csum_cong D size_n e size_n _ _ (λ n lt.
              ap (λ z. multy_complex D z (forward D size_n e (t * n)))
                (agrees n lt ∙ dft_at-backward src n))
            ∙ inverse_sum D size_n e (backward-Root D size_n e) (forward-Root D size_n e)
                (λ n. multy_comm D size_n e _ _ ∙ forward-backward D size_n e n) h half t ht k
                (complexes D src) size)
        ∙ ap₂ (λ x y. record { real = x; imagin = y }) (divides (src t)) (divides (of_ℕ 0))

-- In exact arithmetic, where dividing a product by the size gives the other factor, `IDFT` of what
-- `DFT` made of `2 ^ k` numbers, k at least 1 and the constant `SIZE` their count, gives each number
-- back, with 0 as imaginary part.
pub idft-dft :
    (D : Double) (k : ℕ) (src : ℕ → D.R) (dst other : ℕ → Complex D.R)
    → Exact D (2 ^ suc k) (angle D (2 ^ suc k))
    → ((a : D.R) → D.div (D.mul (D.of_ℕ (2 ^ suc k)) a) (D.of_ℕ (2 ^ suc k)) ≡ a)
    → (t : ℕ) → t < 2 ^ suc k
    → idft D (2 ^ suc k) (dft D src dst (2 ^ suc k)) other (2 ^ suc k) t ≡ complexes D src t
unfolding dft idft
idft-dft D k src dst other e divides t lt =
    let n = 2 ^ suc k in
    copied_to (idft_at D n (dft D src dst n) n) other n t lt
    ∙ idft_at-dft_at D n e (2 ^ k) (suc k) (omega (arith, two-pow-succ k)) refl divides src
        (dft D src dst n) t (λ m h. copied_to (dft_at D src n) dst n m h) lt

-- The same of what `FFT` makes of them: it ends, and `IDFT` of what it writes gives each number back.
pub idft-fft :
    (D : Double) (heap : ℕ → D.R) (fuel k : ℕ) (src : ℕ → D.R) (dst other : ℕ → Complex D.R)
    → Exact D (2 ^ suc k) (angle D (2 ^ suc k))
    → ((a : D.R) → D.div (D.mul (D.of_ℕ (2 ^ suc k)) a) (D.of_ℕ (2 ^ suc k)) ≡ a)
    → suc k < fuel
    → (d : ℕ → Complex D.R) × (fft D heap fuel src dst (2 ^ suc k) ≡ some d)
      × ((t : ℕ) → t < 2 ^ suc k → idft D (2 ^ suc k) d other (2 ^ suc k) t ≡ complexes D src t)
unfolding dft idft
idft-fft D heap fuel k src dst other e divides h =
    let n = 2 ^ suc k in
    let (d, run, values) = fft-dft D heap fuel (suc k) src dst dst e h in
    (
      d,
      run,
      λ t lt.
          copied_to (idft_at D n d n) other n t lt
          ∙ idft_at-dft_at D n e (2 ^ k) (suc k) (omega (arith, two-pow-succ k)) refl divides src d
              t (λ m below. values m below ∙ copied_to (dft_at D src n) dst n m below) lt,
    )
