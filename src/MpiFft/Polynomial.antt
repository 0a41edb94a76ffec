-- ===== src/MpiFft/Polynomial.antt =====
-- Values of polynomials, in exact arithmetic.
use sql_code.Common.{
  ℕ, zero, suc, ◌+◌, ◌*◌, ◌/◌, ◌≡◌, ◌<◌, refl, sym, ap, ap₂, ◌∙◌, arith, fun_ext, for_up,
}
use sql_code.Fourier.{Double, Complex, add_complex, multy_complex}
use sql_code.Fourier.Exact.{Exact}
use sql_code.Fourier.Sums.{
  complex_zero, multy-add, multy-zero, multy_comm, multy_assoc, complex_assoc, complex_swap, csum,
  csum_one, multy-one, multy-csum,
}
use sql_code.Fourier.Geometric.{complex_add-zero, csum_append}
use sql_code.Fourier.Root.{forward, forward-Root}

module _ (D : Double) where
  -- The value at `x` of the polynomial with the `n` coefficients `g 0`, `g 1`, ...
  unfoldable pub polynomial : ℕ → (ℕ → Complex D.R) → Complex D.R → Complex D.R
  polynomial zero g x = complex_zero D
  polynomial (suc n) g x = add_complex D (g 0) (multy_complex D x (polynomial n (λ k. g (suc k)) x))

  module _ (size_n : ℕ) {turn : ℕ → D.R} (e : Exact D size_n turn) where
    pub times-add :
        (x a b : Complex D.R)
        → multy_complex D x (add_complex D a b)
          ≡ add_complex D (multy_complex D x a) (multy_complex D x b)
    times-add x a b =
        multy_comm D size_n e x (add_complex D a b)
        ∙ multy-add D size_n e a b x
        ∙ ap₂ (add_complex D) (multy_comm D size_n e a x) (multy_comm D size_n e b x)

    pub times-zero : (x : Complex D.R) → multy_complex D x (complex_zero D) ≡ complex_zero D
    times-zero x = multy_comm D size_n e x (complex_zero D) ∙ multy-zero D size_n e x

    -- g0 + x (g1 + x (p + x o)) = (g0 + x^2 p) + x (g1 + x^2 o)
    two_more :
        (x g0 g1 p o : Complex D.R)
        → add_complex D g0 (
            multy_complex D x
              (add_complex D g1 (multy_complex D x (add_complex D p (multy_complex D x o)))))
          ≡ add_complex D
              (add_complex D g0 (multy_complex D (multy_complex D x x) p))
              (multy_complex D x (add_complex D g1 (multy_complex D (multy_complex D x x) o)))
    two_more x g0 g1 p o =
        let square = multy_complex D x x in
        ap (add_complex D g0) (
          times-add x g1 _
          ∙ ap (add_complex D (multy_complex D x g1)) (
              ap (multy_complex D x) (
                times-add x p (multy_complex D x o)
                ∙ ap (add_complex D (multy_complex D x p)) (sym (multy_assoc D size_n e x x o)))
              ∙ times-add x (multy_complex D x p) (multy_complex D square o)
              ∙ ap (λ z. add_complex D z (multy_complex D x (multy_complex D square o)))
                  (sym (multy_assoc D size_n e x x p))))
        ∙ sym (complex_assoc D size_n e g0 (multy_complex D x g1) _)
        ∙ complex_swap D size_n e _ _ _ _
        ∙ ap (add_complex D (add_complex D g0 (multy_complex D square p)))
            (sym (times-add x g1 (multy_complex D square o)))

    -- The coefficients of even and of odd index, at the square.
    pub polynomial_split :
        (n : ℕ) (g : ℕ → Complex D.R) (x : Complex D.R)
        → polynomial n g x
          ≡ add_complex D
              (polynomial ((n + 1) / 2) (λ k. g (k * 2)) (multy_complex D x x))
              (multy_complex D x (polynomial (n / 2) (λ k. g (k * 2 + 1)) (multy_complex D x x)))
    unfolding polynomial
    polynomial_split zero g x = sym (
        ap (add_complex D (complex_zero D)) (times-zero x)
        ∙ complex_add-zero D size_n e (complex_zero D))
    polynomial_split (suc zero) g x = sym (
        ap (λ z. add_complex D z (multy_complex D x (complex_zero D)))
          (ap (add_complex D (g 0)) (times-zero (multy_complex D x x))
            ∙ complex_add-zero D size_n e (g 0)))
    polynomial_split (suc (suc n)) g x =
        let square = multy_complex D x x in
        ap
          (λ z. add_complex D (g 0) (multy_complex D x (add_complex D (g 1) (multy_complex D x z))))
          (polynomial_split n (λ k. g (suc (suc k))) x)
        ∙ two_more x (g 0) (g 1) _ _
        ∙ ap₂ (λ a b. add_complex D a (multy_complex D x b))
            (ap
                (λ f.
                  add_complex D (g 0) (multy_complex D square (polynomial ((n + 1) / 2) f square)))
                (fun_ext
                  (λ k. ap g (let next : suc (suc (k * 2)) ≡ suc k * 2 = omega arith in next)))
              ∙ ap (λ m. polynomial m (λ k. g (k * 2)) square)
                  (let more : suc ((n + 1) / 2) ≡ (suc (suc n) + 1) / 2 = omega arith in more))
            (ap (λ f. add_complex D (g 1) (multy_complex D square (polynomial (n / 2) f square)))
                (fun_ext (λ k.
                  ap g (let next : suc (suc (k * 2 + 1)) ≡ suc k * 2 + 1 = omega arith in next)))
              ∙ ap (λ m. polynomial m (λ k. g (k * 2 + 1)) square)
                  (let more : suc (n / 2) ≡ suc (suc n) / 2 = omega arith in more))

    -- The value depends on the coefficients below the number of them.
    pub polynomial_cong :
        (n : ℕ) (g h : ℕ → Complex D.R) (x : Complex D.R)
        → ((k : ℕ) → k < n → g k ≡ h k)
        → polynomial n g x ≡ polynomial n h x
    unfolding polynomial
    polynomial_cong zero g h x same = refl
    polynomial_cong (suc n) g h x same =
        ap₂ (λ a b. add_complex D a (multy_complex D x b)) (same 0 (omega arith))
          (polynomial_cong n (λ k. g (suc k)) (λ k. h (suc k)) x
            (λ k lt. same (suc k) (omega arith)))

    pub polynomial_one : (g : ℕ → Complex D.R) (x : Complex D.R) → polynomial 1 g x ≡ g 0
    unfolding polynomial
    polynomial_one g x = ap (add_complex D (g 0)) (times-zero x) ∙ complex_add-zero D size_n e (g 0)

    pub polynomial_two :
        (g : ℕ → Complex D.R) (x : Complex D.R)
        → polynomial 2 g x ≡ add_complex D (g 0) (multy_complex D (g 1) x)
    unfolding polynomial
    polynomial_two g x =
        ap (add_complex D (g 0)) (
          ap (multy_complex D x) (polynomial_one (λ k. g (suc k)) x)
          ∙ multy_comm D size_n e x (g 1))

    -- The value of a polynomial at a power of the root is a sum of the transform.
    pub polynomial-csum :
        (n t : ℕ) (g : ℕ → Complex D.R)
        → polynomial n g (forward D size_n e t)
          ≡ csum D n (λ k. multy_complex D (g k) (forward D size_n e (t * k)))
    unfolding polynomial for_up
    polynomial-csum zero t g = refl
    polynomial-csum (suc n) t g =
        let root = forward D size_n e in
        let powers = forward-Root D size_n e in
        ap₂ (add_complex D)
          (sym (
            csum_one D size_n e (λ k. multy_complex D (g k) (root (t * k)))
            ∙ ap (multy_complex D (g 0))
                (ap root (let none : t * 0 ≡ 0 = omega arith in none) ∙ powers.root-zero)
            ∙ multy-one D size_n e (g 0)))
          (ap (multy_complex D (root t)) (polynomial-csum n t (λ k. g (suc k)))
            ∙ multy_comm D size_n e (root t) _
            ∙ multy-csum D size_n e n _ (root t)
            ∙ ap (csum D n) (
                fun_ext (λ k.
                  multy_assoc D size_n e (g (suc k)) (root (t * k)) (root t)
                  ∙ ap₂ (multy_complex D) (ap g (let next : suc k ≡ 1 + k = omega arith in next)) (
                      sym (powers.root-add (t * k) t)
                      ∙ ap root (let next : t * k + t ≡ t * (1 + k) = omega arith in next)))))
        ∙ sym (csum_append D size_n e 1 n (λ k. multy_complex D (g k) (root (t * k))))
        ∙ ap (λ m. csum D m (λ k. multy_complex D (g k) (root (t * k))))
            (let next : 1 + n ≡ suc n = omega arith in next)
