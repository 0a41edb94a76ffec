-- ===== src/Fourier/Dft.antt =====
-- `FFT` computes the sums of `DFT`, in exact arithmetic.
use native.Mathlib.Nat.{two-pow-succ}
use sql_code.Common.{
  ℕ, zero, suc, ◌+◌, ◌-◌, ◌*◌, ◌^◌, ◌≡◌, ◌<◌, sym, ap, ap₂, ◌∙◌, arith, Bool-cases, inl, inr, ltb,
  for_up, fun_ext, some,
}
use sql_code.Fourier.{
  Double, Complex, add_complex, sub_complex, multy_complex, get_wn, dft_at, dft, fft,
}
use sql_code.Fourier.Exact.{Exact}
use sql_code.Fourier.Root.{Root, angle, get_wn-Root, root_turns, root_half_turn}
use sql_code.Fourier.Sums.{
  complex_zero, negate, csum, sub_complex-negate, multy-negate, multy-csum, multy_assoc, multy-one,
  multy-real, negate-csum, csum_split, csum_one,
}
use sql_code.Fourier.Transform.{transform, transform_zero, transform_low, transform_high}
use sql_code.Fourier.Fft.{complexes, copied_to, fft-transform}

module _ (D : Double) (size_n : ℕ) (e : Exact D size_n (angle D size_n)) where
  -- The power of the root of unity.
  abbrev pub wn : ℕ → Complex D.R
  wn n = get_wn D n size_n

  pub powers : Root D size_n wn
  powers = get_wn-Root D size_n e

  -- The terms of the sum of `DFT` at the frequency `t`, of the numbers `x` that stand `stride` apart.
  abbrev pub term : (ℕ → Complex D.R) → ℕ → ℕ → ℕ → Complex D.R
  term x stride t n = multy_complex D (x n) (wn (n * t * stride))

  module _ (x : ℕ → Complex D.R) (stride t n : ℕ) where
    even_term : term x stride t (n * 2) ≡ term (λ s. x (s * 2)) (stride * 2) t n
    even_term =
        ap (λ m. multy_complex D (x (n * 2)) (wn m))
          (let same : n * 2 * t * stride ≡ n * t * (stride * 2) = omega arith in same)

    odd_term :
        term x stride t (n * 2 + 1)
        ≡ multy_complex D (term (λ s. x (s * 2 + 1)) (stride * 2) t n) (wn (t * stride))
    odd_term =
        ap (multy_complex D (x (n * 2 + 1))) (
          ap wn (
            let parts : (n * 2 + 1) * t * stride ≡ n * t * (stride * 2) + t * stride =
              omega arith in
            parts)
          ∙ powers.root-add (n * t * (stride * 2)) (t * stride))
        ∙ sym (multy_assoc D size_n e (x (n * 2 + 1)) (wn (n * t * (stride * 2))) (wn (t * stride)))

    module _ (p : ℕ) (half : stride * p * 2 ≡ size_n) where
      -- Half of the frequencies further on, the terms of even index are the same and those of odd
      -- index are negated.
      even_term_later : term x stride (p + t) (n * 2) ≡ term x stride t (n * 2)
      even_term_later = ap (multy_complex D (x (n * 2))) (
          ap wn (
            let parts : n * 2 * (p + t) * stride
                ≡ n * 2 * t * stride + n * (stride * p + stride * p) =
              omega arith in
            parts)
          ∙ root_turns D size_n e powers (stride * p) half (n * 2 * t * stride) n)

      odd_term_later : term x stride (p + t) (n * 2 + 1) ≡ negate D (term x stride t (n * 2 + 1))
      odd_term_later =
          ap (multy_complex D (x (n * 2 + 1))) (
            ap wn (
              let parts : (n * 2 + 1) * (p + t) * stride
                  ≡ (n * 2 + 1) * t * stride + n * (stride * p + stride * p) + stride * p =
                omega arith in
              parts)
            ∙ root_half_turn D size_n e powers (stride * p) half
                ((n * 2 + 1) * t * stride + n * (stride * p + stride * p))
            ∙ ap (negate D)
                (root_turns D size_n e powers (stride * p) half ((n * 2 + 1) * t * stride) n))
          ∙ multy-negate D size_n e (x (n * 2 + 1)) (wn ((n * 2 + 1) * t * stride))

  -- The sums of even and of odd index make the sum at a frequency of the lower half,
  module _ (x : ℕ → Complex D.R) (stride t p : ℕ) where
    pub sum_low :
        csum D (p * 2) (term x stride t)
        ≡ add_complex D (csum D p (term (λ s. x (s * 2)) (stride * 2) t)) (
            multy_complex D (csum D p (term (λ s. x (s * 2 + 1)) (stride * 2) t)) (wn (t * stride)))
    sum_low =
        csum_split D size_n e p (term x stride t)
        ∙ ap₂ (λ f g. add_complex D (csum D p f) (csum D p g))
            (fun_ext (λ n. even_term x stride t n)) (fun_ext (λ n. odd_term x stride t n))
        ∙ ap (add_complex D (csum D p (term (λ s. x (s * 2)) (stride * 2) t))) (
            sym (
              multy-csum D size_n e p (term (λ s. x (s * 2 + 1)) (stride * 2) t) (wn (t * stride))))

    -- and at a frequency of the upper half.
    pub sum_high :
        stride * p * 2 ≡ size_n
        → csum D (p * 2) (term x stride (p + t))
          ≡ sub_complex D (csum D p (term (λ s. x (s * 2)) (stride * 2) t)) (
              multy_complex D
                (csum D p (term (λ s. x (s * 2 + 1)) (stride * 2) t))
                (wn (t * stride)))
    sum_high half =
        csum_split D size_n e p (term x stride (p + t))
        ∙ ap₂ (λ f g. add_complex D (csum D p f) (csum D p g))
            (fun_ext (λ n. even_term_later x stride t n p half ∙ even_term x stride t n))
            (fun_ext
              (λ n. odd_term_later x stride t n p half ∙ ap (negate D) (odd_term x stride t n)))
        ∙ ap (add_complex D (csum D p (term (λ s. x (s * 2)) (stride * 2) t))) (
            sym (negate-csum D size_n e p _)
            ∙ ap (negate D) (
                sym (
                  multy-csum D size_n e p (term (λ s. x (s * 2 + 1)) (stride * 2) t)
                    (wn (t * stride)))))
        ∙ sym (sub_complex-negate D size_n e _ _)

  pub transform-csum :
      (i stride t : ℕ) (x : ℕ → Complex D.R)
      → stride * 2 ^ i ≡ size_n
      → t < 2 ^ i
      → transform D size_n stride i x t ≡ csum D (2 ^ i) (term x stride t)
  transform-csum zero stride t x whole lt =
      transform_zero D size_n stride t x
      ∙ sym (multy-one D size_n e (x 0))
      ∙ sym (
          ap (multy_complex D (x 0))
            (ap wn (let none : 0 * t * stride ≡ 0 = omega arith in none) ∙ powers.root-zero))
      ∙ sym (csum_one D size_n e (term x stride t))
  transform-csum (suc i) stride t x whole lt =
      let twice : 2 ^ i * 2 ≡ 2 ^ suc i = omega (arith, two-pow-succ i) in
      let below : stride * 2 * 2 ^ i ≡ size_n =
        (let out : stride * 2 * 2 ^ i ≡ stride * (2 ^ i * 2) = omega arith in out)
        ∙ ap (λ m. stride * m) twice
        ∙ whole in
      let half : stride * 2 ^ i * 2 ≡ size_n =
        (let out : stride * 2 ^ i * 2 ≡ stride * (2 ^ i * 2) = omega arith in out)
        ∙ ap (λ m. stride * m) twice
        ∙ whole in
      let evens = λ (u : ℕ). transform-csum i (stride * 2) u (λ s. x (s * 2)) below in
      let odds = λ (u : ℕ). transform-csum i (stride * 2) u (λ s. x (s * 2 + 1)) below in
      elim (Bool-cases (ltb t (2 ^ i))) [
        | inl low ↦
            let lower : t < 2 ^ i = ground arith in
            transform_low D size_n stride i t x lower
            ∙ ap₂ (λ a b. add_complex D a (multy_complex D b (wn (t * stride)))) (evens t lower)
                (odds t lower)
            ∙ sym (sum_low x stride t (2 ^ i))
            ∙ ap (λ m. csum D m (term x stride t)) twice
        | inr high ↦
            let u = t - 2 ^ i in
            let split : 2 ^ i + u ≡ t = ground arith in
            let lower : u < 2 ^ i = ground (arith, twice) in
            ap (transform D size_n stride (suc i) x) (sym split)
            ∙ transform_high D size_n stride i u x
            ∙ ap₂ (λ a b. sub_complex D a (multy_complex D b (wn (u * stride)))) (evens u lower)
                (odds u lower)
            ∙ sym (sum_high x stride u (2 ^ i) half)
            ∙ ap₂ (λ m v. csum D m (term x stride v)) twice split
      ]

  -- The angle that `DFT` computes is that of a power of the root.
  module _ (m n : ℕ) where
    pub dft_angle :
        D.div (D.mul (D.mul (D.mul D.m_pi (D.of_ℕ 2)) (D.of_ℕ m)) (D.of_ℕ n)) (D.of_ℕ size_n)
        ≡ angle D size_n (n * m * 1)
    dft_angle =
        ap (λ x. D.div x (D.of_ℕ size_n))
          (e.mul_assoc (D.mul D.m_pi (D.of_ℕ 2)) (D.of_ℕ m) (D.of_ℕ n)
            ∙ ap₂ D.mul (e.mul_comm D.m_pi (D.of_ℕ 2)) (
                sym (e.of_ℕ-mul m n)
                ∙ ap D.of_ℕ (let same : m * n ≡ n * m * 1 = omega arith in same)))

  pub dft_at-csum :
      (src : ℕ → D.R) (m : ℕ) → dft_at D src size_n m ≡ csum D size_n (term (complexes D src) 1 m)
  unfolding dft_at add_complex get_wn
  dft_at-csum src m =
      ap (λ f. for_up size_n f (complex_zero D))
        (fun_ext (λ n. fun_ext (λ c.
          ap
            (λ x. record {
              real = D.add c.real (D.mul (src n) (D.cos x));
              imagin = D.add c.imagin (D.mul (src n) (D.neg (D.sin x)));
            })
            (dft_angle m n))))
      ∙ ap (csum D size_n) (fun_ext (λ n. sym (multy-real D size_n e (src n) (wn (n * m * 1)))))

-- In exact arithmetic `FFT` of `2 ^ k` numbers writes what `DFT` writes.
pub fft-dft :
    (D : Double) (heap : ℕ → D.R) (fuel k : ℕ) (src : ℕ → D.R) (dst other : ℕ → Complex D.R)
    → Exact D (2 ^ k) (angle D (2 ^ k))
    → k < fuel
    → (d : ℕ → Complex D.R) × (fft D heap fuel src dst (2 ^ k) ≡ some d)
      × ((t : ℕ) → t < 2 ^ k → d t ≡ dft D src other (2 ^ k) t)
unfolding dft
fft-dft D heap fuel k src dst other e h =
    let (d, run, values) = fft-transform D heap fuel k src dst h in
    (
      d,
      run,
      λ t lt.
          values t lt
          ∙ transform-csum D (2 ^ k) e k 1 t (complexes D src)
              (let whole : 1 * 2 ^ k ≡ 2 ^ k = omega arith in whole) lt
          ∙ sym (dft_at-csum D (2 ^ k) e src t)
          ∙ sym (copied_to (dft_at D src (2 ^ k)) other (2 ^ k) t lt),
    )
