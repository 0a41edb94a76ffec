-- ===== src/ParallelFft/RoundTrip.antt =====
-- `cfft2` backward undoes `cfft2` forward up to the size, in exact arithmetic.
use native.Mathlib.Nat.{two-pow-succ}
use sql_code.Common.{
  ℕ, suc, ◌+◌, ◌*◌, ◌^◌, ◌≡◌, ◌<◌, refl, sym, ap, ap₂, ◌∙◌, arith, Bool, true, false, not, fun_ext,
}
use sql_code.Fourier.{Double, multy_complex}
use sql_code.Fourier.Exact.{Exact}
use sql_code.Fourier.Sums.{csum, scale, multy_comm}
use sql_code.Fourier.Root.{forward, backward}
use sql_code.Fourier.Geometric.{csum_cong}
use sql_code.Fourier.Inverse.{forward-backward, complex_one, inverse_sum}
use sql_code.ParallelFft.{Logarithm, cffti, cfft2}
use sql_code.ParallelFft.Step.{entry}
use sql_code.ParallelFft.Passes.{table_angle, signed, signed-if, signed-Root}
use sql_code.ParallelFft.Cfft2.{transformed, cfft2-transformed}

module _ (D : Double) (n : ℕ) (e : Exact D n (table_angle D n)) where
  signed_cancel :
      (b : Bool) (i : ℕ)
      → multy_complex D (signed D n e b i) (signed D n e (not b) i) ≡ complex_one D n e
  signed_cancel true i =
      multy_comm D n e (backward D n e i) (forward D n e i) ∙ forward-backward D n e i
  signed_cancel false i = forward-backward D n e i

  transformed-signed :
      (L : Logarithm D) (x : ℕ → D.R) (sgn : D.R) (t : ℕ)
      → transformed D L n x sgn t
        ≡ csum D n
            (λ i. multy_complex D (entry D x 0 i) (signed D n e (L.lt sgn (D.of_ℕ 0)) (t * i)))
  transformed-signed L x sgn t = ap (csum D n) (
      fun_ext (λ i.
        ap₂ (multy_complex D)
          (ap₂ (λ p q. record { real = x p; imagin = x q })
            (let even : i * 2 ≡ 0 + (i * 2 + 0) = omega arith in even)
            (let odd : i * 2 + 1 ≡ 0 + (i * 2 + 1) = omega arith in odd))
          (sym (signed-if D n e (L.lt sgn (D.of_ℕ 0)) (t * i)))))

-- In exact arithmetic, on `2 ^ k` numbers with k at least 1 and one table of `cffti`, `cfft2` of what
-- `cfft2` with the opposite sign has made of `x` gives each entry of `x` times the size.
pub cfft2_twice :
    (D : Double) (L : Logarithm D) (k : ℕ) (x y z w : ℕ → D.R) (sgn opposite : D.R)
    → Exact D (2 ^ suc k) (table_angle D (2 ^ suc k))
    → L.truncate (D.div (L.log (D.of_ℕ (2 ^ suc k))) (L.log (D.div (D.of_ℕ 199) (D.of_ℕ 100))))
      ≡ suc k
    → L.lt opposite (D.of_ℕ 0) ≡ not (L.lt sgn (D.of_ℕ 0))
    → (t : ℕ) → t < 2 ^ suc k
    → entry D
        (cfft2 D L
          (2 ^ suc k)
          (cfft2 D L (2 ^ suc k) x y (cffti D (2 ^ suc k) w) sgn).1
          z
          (cffti D (2 ^ suc k) w)
          opposite).1
        0
        t
      ≡ scale D (D.of_ℕ (2 ^ suc k)) (entry D x 0 t)
cfft2_twice D L k x y z w sgn opposite e levels signs t lt =
    let n = 2 ^ suc k in
    let b = L.lt sgn (D.of_ℕ 0) in
    let once = (cfft2 D L n x y (cffti D n w) sgn).1 in
    cfft2-transformed D L k once z w opposite e levels t lt
    ∙ transformed-signed D n e L once opposite t
    ∙ ap (λ s. csum D n (λ i. multy_complex D (entry D once 0 i) (signed D n e s (t * i)))) signs
    ∙ csum_cong D n e n _ _ (λ i below.
      ap (λ v. multy_complex D v (signed D n e (not b) (t * i)))
        (cfft2-transformed D L k x y w sgn e levels i below ∙ transformed-signed D n e L x sgn i))
    ∙ inverse_sum D n e (signed-Root D n e b) (signed-Root D n e (not b)) (signed_cancel D n e b)
        (2 ^ k) (omega (arith, two-pow-succ k)) t lt (suc k) (entry D x 0) refl
