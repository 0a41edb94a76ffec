-- ===== src/Fourier/Hartley.antt =====
-- Sums of the real and the imaginary part of a transform: transformed once more, and divided by the
-- size, they give the numbers back. In exact arithmetic.
use sql_code.Common.{
  ℕ, ◌-◌, ◌*◌, ◌^◌, ◌≡◌, ◌<◌, sym, ap, ap₂, ◌∙◌, arith, fun_ext, ◌==◌, Bool-cases, inl, inr,
}
use sql_code.Fourier.{Double, Complex, add_complex, multy_complex, get_wn}
use sql_code.Fourier.Exact.{Exact, neg-neg, neg-zero, add_swap, mul-zero, mul-neg}
use sql_code.Fourier.Sums.{csum, scale, multy-add, multy-csum, multy-real, multy_comm, multy_assoc}
use sql_code.Fourier.Geometric.{csum_add}
use sql_code.Fourier.Root.{angle, forward, backward, forward-Root, backward-Root}
use sql_code.Fourier.Inverse.{forward-backward, flipped, inverse_sum}
use sql_code.Fourier.Conjugate.{conjugate, conjugate-multy, conjugate-csum}
use sql_code.Fourier.Fft.{complexes}
use sql_code.Fourier.Dft.{term}

module _ (D : Double) (size_n : ℕ) (e : Exact D size_n (angle D size_n)) (h k : ℕ)
    (half : h * 2 ≡ size_n) (size : 2 ^ k ≡ size_n) where
  open D use {R, of_ℕ, add, sub, mul, neg, div}

  -- The sums of the transform.
  abbrev pub spectrum : (ℕ → Complex R) → ℕ → Complex R
  spectrum x n = csum D size_n (term D size_n e x 1 n)

  pub forward_sum :
      (x : ℕ → Complex R) (t : ℕ)
      → t < size_n
      → csum D size_n (λ n. multy_complex D (spectrum x n) (forward D size_n e (t * n)))
        ≡ scale D (of_ℕ size_n) (x t)
  unfolding get_wn
  forward_sum x t lt =
      ap (csum D size_n) (
        fun_ext (λ n.
          ap (λ z. multy_complex D z (forward D size_n e (t * n)))
            (ap (csum D size_n) (
              fun_ext (λ p.
                ap (λ m. multy_complex D (x p) (backward D size_n e m))
                  (let turns : p * n * 1 ≡ n * p = omega arith in turns))))))
      ∙ inverse_sum D size_n e (backward-Root D size_n e) (forward-Root D size_n e)
          (λ n. multy_comm D size_n e _ _ ∙ forward-backward D size_n e n) h half t lt k x size

  -- The transform of the conjugates of a transform.
  pub backward_conjugate_sum :
      (x : ℕ → Complex R) (t : ℕ)
      → t < size_n
      → csum D size_n (term D size_n e (λ n. conjugate D (spectrum x n)) 1 t)
        ≡ conjugate D (scale D (of_ℕ size_n) (x t))
  unfolding get_wn
  backward_conjugate_sum x t lt =
      ap (csum D size_n) (
        fun_ext (λ n.
          ap (λ m. multy_complex D (conjugate D (spectrum x n)) (backward D size_n e m))
            (let turns : n * t * 1 ≡ t * n = omega arith in turns)
          ∙ sym (conjugate-multy D size_n e (spectrum x n) (forward D size_n e (t * n)))))
      ∙ sym (conjugate-csum D size_n e size_n _)
      ∙ ap (conjugate D) (forward_sum x t lt)

  -- The index on the other side of 0.
  reflected :
      (t : ℕ)
      → t < size_n
      → (u : ℕ) × (u < size_n)
        × ((n : ℕ) → backward D size_n e (n * t * 1) ≡ forward D size_n e (u * n))
  reflected t lt = elim (Bool-cases (t == 0)) [
    | inl here ↦
        let zero : t ≡ 0 = ground arith in
        (
          0,
          omega arith,
          λ n.
              ap (backward D size_n e)
                (ap (λ s. n * s * 1) zero ∙ (let none : n * 0 * 1 ≡ 0 = omega arith in none))
              ∙ (backward-Root D size_n e).root-zero
              ∙ sym (forward-Root D size_n e).root-zero
              ∙ ap (forward D size_n e) (let none : 0 ≡ 0 * n = omega arith in none),
        )
    | inr behind ↦
        let u = size_n - t in
        (
          u,
          ground arith,
          λ n.
              ap (backward D size_n e) (
                (let turns : n * t * 1 ≡ t * n = omega arith in turns)
                ∙ ap (λ s. s * n) (let back : t ≡ size_n - u = omega arith in back))
              ∙ sym (
                  flipped D size_n e (forward-Root D size_n e) (backward-Root D size_n e)
                    (forward-backward D size_n e) h half u n (ground arith))
              ∙ ap (forward D size_n e) (let turns : n * u ≡ u * n = omega arith in turns),
        )
  ]

  abbrev plus : Complex R
  plus = record { real = of_ℕ 1; imagin = of_ℕ 1 }

  abbrev minus : Complex R
  minus = record { real = of_ℕ 1; imagin = neg (of_ℕ 1) }

  one_mul : (a : R) → mul (of_ℕ 1) a ≡ a
  one_mul a = e.mul_comm (of_ℕ 1) a ∙ e.mul-one a

  mul-minus : (a : R) → mul a (neg (of_ℕ 1)) ≡ neg a
  mul-minus a = mul-neg D size_n e a (of_ℕ 1) ∙ ap neg (e.mul-one a)

  multy_swap :
      (a b c : Complex R)
      → multy_complex D (multy_complex D a b) c ≡ multy_complex D (multy_complex D a c) b
  multy_swap a b c =
      multy_assoc D size_n e a b c
      ∙ ap (multy_complex D a) (multy_comm D size_n e b c)
      ∙ sym (multy_assoc D size_n e a c b)

  -- Twice the sum of the two parts of a number.
  twice_parts :
      (w : Complex R)
      → (let z : Complex R = record {
        real = add (add w.real w.imagin) (add w.real w.imagin);
        imagin = of_ℕ 0;
      } in
          z)
        ≡ add_complex D (multy_complex D w minus) (multy_complex D (conjugate D w) plus)
  unfolding add_complex multy_complex
  twice_parts w = sym (
      ap₂ (λ x y. record { real = x; imagin = y })
        (ap₂ add
          (ap₂ sub (e.mul-one w.real) (mul-minus w.imagin)
            ∙ e.sub-add-neg _ _
            ∙ ap (add w.real) (neg-neg D size_n e w.imagin))
          (ap₂ sub (e.mul-one w.real) (e.mul-one (neg w.imagin))
            ∙ e.sub-add-neg _ _
            ∙ ap (add w.real) (neg-neg D size_n e w.imagin)))
        (ap₂ add (ap₂ add (mul-minus w.real) (one_mul w.imagin))
            (ap₂ add (e.mul-one w.real) (one_mul (neg w.imagin)))
          ∙ add_swap D size_n e _ _ _ _
          ∙ ap₂ add (e.add_comm _ _ ∙ e.add-neg w.real) (e.add-neg w.imagin)
          ∙ e.zero-add (of_ℕ 0)))

  module _ (r : ℕ → R) where
    -- The real numbers that the loop of `ifft_real` makes of the transform of the numbers `r`.
    abbrev pub parts : ℕ → R
    parts n = (let z = spectrum (complexes D r) n in add z.real z.imagin)

    abbrev mixed : ℕ → Complex R
    mixed = spectrum (complexes D parts)

    module _ (t : ℕ) (lt : t < size_n) where
      abbrev there : R
      there = mul (of_ℕ size_n) (r (reflected t lt).0)

      abbrev here : R
      here = mul (of_ℕ size_n) (r t)

      spectrum_twice :
          csum D size_n (term D size_n e (spectrum (complexes D r)) 1 t)
          ≡ complexes D (λ n. there) 0
      unfolding get_wn
      spectrum_twice =
          let (u, below, same) = reflected t lt in
          ap (csum D size_n)
            (fun_ext (λ n. ap (multy_complex D (spectrum (complexes D r) n)) (same n)))
          ∙ forward_sum (complexes D r) u below
          ∙ ap (λ y. record { real = there; imagin = y }) (mul-zero D size_n e (of_ℕ size_n))

      spectrum-conjugate :
          csum D size_n (term D size_n e (λ n. conjugate D (spectrum (complexes D r) n)) 1 t)
          ≡ complexes D (λ n. here) 0
      spectrum-conjugate =
          backward_conjugate_sum (complexes D r) t lt
          ∙ ap (λ y. record { real = here; imagin = y })
              (ap neg (mul-zero D size_n e (of_ℕ size_n)) ∙ neg-zero D size_n e)

      mixed_twice :
          add_complex D (mixed t) (mixed t)
          ≡ record { real = add there here; imagin = add (neg there) here }
      unfolding add_complex
      mixed_twice =
          let w = λ (n : ℕ). get_wn D (n * t * 1) size_n in
          let xs = spectrum (complexes D r) in
          let c = complexes D parts in
          sym (csum_add D size_n e size_n (term D size_n e c 1 t) (term D size_n e c 1 t))
          ∙ ap (csum D size_n) (
              fun_ext (λ n.
                sym (multy-add D size_n e (c n) (c n) (w n))
                ∙ ap (λ z. multy_complex D z (w n))
                    (ap (λ y. record { real = add (parts n) (parts n); imagin = y })
                        (e.zero-add (of_ℕ 0))
                      ∙ twice_parts (xs n))
                ∙ multy-add D size_n e _ _ (w n)
                ∙ ap₂ (add_complex D) (multy_swap (xs n) minus (w n))
                    (multy_swap (conjugate D (xs n)) plus (w n))))
          ∙ csum_add D size_n e size_n _ _
          ∙ ap₂ (add_complex D)
              (sym (multy-csum D size_n e size_n (term D size_n e xs 1 t) minus)
                ∙ ap (λ z. multy_complex D z minus) spectrum_twice
                ∙ multy-real D size_n e there minus
                ∙ ap₂ (λ x y. record { real = x; imagin = y }) (e.mul-one there) (mul-minus there))
              (sym (
                  multy-csum D size_n e size_n (term D size_n e (λ n. conjugate D (xs n)) 1 t) plus)
                ∙ ap (λ z. multy_complex D z plus) spectrum-conjugate
                ∙ multy-real D size_n e here plus
                ∙ ap₂ (λ x y. record { real = x; imagin = y }) (e.mul-one here) (e.mul-one here))

      -- The two parts of the second transform add up to the number, times the size.
      pub mixed-parts :
          ((a : R) → div (add a a) (of_ℕ 2) ≡ a) → add (mixed t).real (mixed t).imagin ≡ here
      unfolding add_complex
      mixed-parts halves =
          let s = add (mixed t).real (mixed t).imagin in
          let doubled : add s s ≡ add here here =
            add_swap D size_n e _ _ _ _
            ∙ ap (λ z. add z.real z.imagin) mixed_twice
            ∙ add_swap D size_n e _ _ _ _
            ∙ ap (λ z. add z (add here here)) (e.add-neg there)
            ∙ e.zero-add (add here here) in
          sym (halves s) ∙ ap (λ z. div z (of_ℕ 2)) doubled ∙ halves here
