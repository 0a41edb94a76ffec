-- ===== src/Fourier/Inverse.antt =====
-- The transform with a root of unity undoes the one with its conjugate, in exact arithmetic.
use native.Mathlib.Nat.{add-mul, mul_comm, one-mul, mul-one}
use sql_code.Common.{
  ℕ, zero, suc, ◌+◌, ◌-◌, ◌*◌, ◌^◌, ◌≡◌, ◌≢◌, ◌<◌, refl, sym, ap, ap₂, ◌∙◌, arith, ltb, Bool-cases,
  inl, inr, for_up, fun_ext,
}
use sql_code.Fourier.{Double, Complex, add_complex, multy_complex}
use sql_code.Fourier.Exact.{Exact, neg-neg, mul-neg}
use sql_code.Fourier.Sums.{
  complex_zero, scale, csum, multy-csum, multy-real, multy_comm, multy_assoc, multy-one, multy-zero,
}
use sql_code.Fourier.Root.{Root, forward, backward, root_turns}
use sql_code.Fourier.Geometric.{csum_exchange, csum_single, geometric}

module _ (D : Double) (size_n : ℕ) {turn : ℕ → D.R} (e : Exact D size_n turn) where
  open D use {R, of_ℕ, add, sub, mul, neg, cos, sin}

  abbrev pub complex_one : Complex R
  complex_one = record { real = of_ℕ 1; imagin = of_ℕ 0 }

  -- The two roots are conjugate: their powers cancel.
  pub forward-backward :
      (a : ℕ) → multy_complex D (forward D size_n e a) (backward D size_n e a) ≡ complex_one
  unfolding multy_complex
  forward-backward a =
      let c = cos (turn a) in
      let s = sin (turn a) in
      ap₂ (λ x y. record { real = x; imagin = y })
        (ap (sub (mul c c)) (mul-neg D size_n e s s)
          ∙ e.sub-add-neg (mul c c) (neg (mul s s))
          ∙ ap (add (mul c c)) (neg-neg D size_n e (mul s s))
          ∙ e.squares a)
        (ap (λ x. add x (mul c s)) (mul-neg D size_n e c s)
          ∙ e.add_comm (neg (mul c s)) (mul c s)
          ∙ e.add-neg (mul c s))

  csum_ones : (n : ℕ) → csum D n (λ i. complex_one) ≡ record { real = of_ℕ n; imagin = of_ℕ 0 }
  unfolding for_up add_complex
  csum_ones zero = refl
  csum_ones (suc n) =
      ap (λ c. add_complex D c complex_one) (csum_ones n)
      ∙ ap₂ (λ x y. record { real = x; imagin = y }) (sym (e.of_ℕ-add n 1) ∙ ap of_ℕ (omega arith))
          (e.zero-add (of_ℕ 0))

  module _ {a b : ℕ → Complex R} (powers_a : Root D size_n a) (powers_b : Root D size_n b)
      (cancel : (n : ℕ) → multy_complex D (a n) (b n) ≡ complex_one) (h : ℕ)
      (half : h * 2 ≡ size_n) where
    whole_turns : (n : ℕ) → b (size_n * n) ≡ complex_one
    whole_turns n =
        ap b (
          ap (λ m. m * n) (sym half)
          ∙ (let turns : h * 2 * n ≡ 0 + n * (h + h) = omega arith in turns))
        ∙ root_turns D size_n e powers_b h half 0 n
        ∙ powers_b.root-zero

    -- A power of the one root is a power of the other.
    pub flipped : (p n : ℕ) → p < size_n → a (n * p) ≡ b ((size_n - p) * n)
    flipped p n lt =
        let rest = size_n - p in
        let parts : size_n * n ≡ n * p + rest * n =
          ap (λ m. m * n) (let both : size_n ≡ p + rest = omega arith in both)
          ∙ add-mul p rest n
          ∙ ap (λ m. m + rest * n) (mul_comm p n) in
        sym (multy-one D size_n e (a (n * p)))
        ∙ ap (multy_complex D (a (n * p)))
            (sym (whole_turns n) ∙ ap b parts ∙ powers_b.root-add (n * p) (rest * n))
        ∙ sym (multy_assoc D size_n e (a (n * p)) (b (n * p)) (b (rest * n)))
        ∙ ap (λ z. multy_complex D z (b (rest * n))) (cancel (n * p))
        ∙ multy_comm D size_n e complex_one (b (rest * n))
        ∙ multy-one D size_n e (b (rest * n))

    kernel :
        (p t n : ℕ)
        → p < size_n
        → multy_complex D (a (n * p)) (b (t * n)) ≡ b ((size_n - p + t) * n)
    kernel p t n lt =
        ap (λ z. multy_complex D z (b (t * n))) (flipped p n lt)
        ∙ sym (powers_b.root-add ((size_n - p) * n) (t * n))
        ∙ ap b (sym (add-mul (size_n - p) t n))

    module _ (t : ℕ) (ht : t < size_n) where
      -- The kernels add up to the size where the two indices agree, and to zero elsewhere.
      kernel_same :
          csum D size_n (λ n. multy_complex D (a (n * t)) (b (t * n)))
          ≡ record { real = of_ℕ size_n; imagin = of_ℕ 0 }
      kernel_same =
          ap (csum D size_n) (
            fun_ext (λ n.
              kernel t t n ht
              ∙ ap b (ap (λ d. d * n) (let all : size_n - t + t ≡ size_n = omega arith in all))
              ∙ whole_turns n))
          ∙ csum_ones size_n

      module _ (i : ℕ) (size : 2 ^ i ≡ size_n) (p : ℕ) (hp : p < size_n) (other : p ≢ t) where
        -- The steps of the powers, less a whole turn if they are longer.
        reduced :
            (r : ℕ) × (0 < r) × (r < size_n) × ((n : ℕ) → b ((size_n - p + t) * n) ≡ b (r * n * 1))
        reduced = elim (Bool-cases (ltb t p)) [
          | inl less ↦ (
            size_n - p + t,
            omega (arith, hp),
            ground arith,
            λ n. ap b (sym (mul-one ((size_n - p + t) * n))),
          )
          | inr more ↦
              let r = t - p in
              let split : size_n - p + t ≡ r + h * 2 = ground (arith, half) in
              (
                r,
                ground (arith, other),
                omega (arith, ht),
                λ n.
                    ap (λ d. b (d * n)) split
                    ∙ ap b (
                        let turns : (r + h * 2) * n ≡ r * n * 1 + n * (h + h) = omega arith in
                        turns)
                    ∙ root_turns D size_n e powers_b h half (r * n * 1) n,
              )
        ]

        kernel_other : csum D size_n (λ n. multy_complex D (a (n * p)) (b (t * n))) ≡ complex_zero D
        kernel_other =
            let (r, some, less, same) = reduced in
            ap (csum D size_n) (fun_ext (λ n. kernel p t n hp ∙ same n))
            ∙ ap (λ s. csum D s (λ n. b (r * n * 1))) (sym size)
            ∙ geometric D size_n e powers_b i 1 r (one-mul (2 ^ i) ∙ size) some
                (omega (arith, size))

      -- Transformed with the one root and then with the other, each entry comes back times the size.
      pub inverse_sum :
          (i : ℕ) (x : ℕ → Complex R)
          → 2 ^ i ≡ size_n
          → csum D size_n (λ k.
            multy_complex D (csum D size_n (λ p. multy_complex D (x p) (a (k * p)))) (b (t * k)))
            ≡ scale D (of_ℕ size_n) (x t)
      inverse_sum i x size =
          ap (csum D size_n) (
            fun_ext (λ k.
              multy-csum D size_n e size_n (λ p. multy_complex D (x p) (a (k * p))) (b (t * k))))
          ∙ csum_exchange D size_n e size_n size_n
              (λ k p. multy_complex D (multy_complex D (x p) (a (k * p))) (b (t * k)))
          ∙ ap (csum D size_n) (
              fun_ext (λ p.
                ap (csum D size_n) (
                  fun_ext (λ k.
                    multy_assoc D size_n e (x p) (a (k * p)) (b (t * k))
                    ∙ multy_comm D size_n e (x p) _))
                ∙ sym (
                    multy-csum D size_n e size_n (λ k. multy_complex D (a (k * p)) (b (t * k)))
                      (x p))))
          ∙ csum_single D size_n e size_n t
              (λ p.
                multy_complex D (csum D size_n (λ k. multy_complex D (a (k * p)) (b (t * k))))
                  (x p))
              ht
              (λ p hp other.
                ap (λ z. multy_complex D z (x p)) (kernel_other i size p hp other)
                ∙ multy-zero D size_n e (x p))
          ∙ ap (λ z. multy_complex D z (x t)) kernel_same
          ∙ multy-real D size_n e (of_ℕ size_n) (x t)
