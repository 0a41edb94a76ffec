-- ===== src/Fourier/Halves.antt =====
-- The transform of real numbers from one of half the size, in exact arithmetic: the numbers of even
-- index are the real parts, and those of odd index the imaginary parts.
use sql_code.Common.{ℕ, ◌-◌, ◌*◌, ◌≡◌, ◌<◌, sym, ap, ap₂, ◌∙◌, arith, fun_ext}
use sql_code.Fourier.{Double, Complex, add_complex, multy_complex, get_wn}
use sql_code.Fourier.Exact.{Exact, neg-neg, neg-zero, add-zero, mul-zero, zero-mul}
use sql_code.Fourier.Sums.{csum, multy-add, multy-csum, multy_comm, multy_assoc}
use sql_code.Fourier.Geometric.{csum_add}
use sql_code.Fourier.Root.{angle, forward, backward, forward-Root, backward-Root}
use sql_code.Fourier.Inverse.{forward-backward, flipped}
use sql_code.Fourier.Conjugate.{conjugate, conjugate-multy, conjugate-csum}
use sql_code.Fourier.Fft.{complexes}
use sql_code.Fourier.Dft.{term}

module _ (D : Double) (size_n : ℕ) (e : Exact D size_n (angle D size_n)) where
  open D use {R, of_ℕ, add, sub, mul, neg, div}

  abbrev pub imaginary_unit : Complex R
  imaginary_unit = record { real = of_ℕ 0; imagin = of_ℕ 1 }

  pub multy-unit :
      (w : Complex R)
      → multy_complex D w imaginary_unit ≡ record { real = neg w.imagin; imagin = w.real }
  unfolding multy_complex
  multy-unit w =
      ap₂ (λ x y. record { real = x; imagin = y })
        (ap₂ sub (mul-zero D size_n e w.real) (e.mul-one w.imagin)
          ∙ e.sub-add-neg (of_ℕ 0) w.imagin
          ∙ e.zero-add (neg w.imagin))
        (ap₂ add (e.mul-one w.real) (zero-mul D size_n e w.imagin) ∙ add-zero D size_n e w.real)

  -- The sum of real numbers at the frequency `t`, with every other power of the root.
  abbrev pub real_sum : ℕ → (ℕ → R) → ℕ → Complex R
  real_sum p r t = csum D p (term D size_n e (complexes D r) 2 t)

  -- The transform of the packed numbers.
  pub packed_sum :
      (p t : ℕ) (evens odds : ℕ → R)
      → csum D p (term D size_n e (λ n. record { real = evens n; imagin = odds n }) 2 t)
        ≡ add_complex D (real_sum p evens t) (multy_complex D (real_sum p odds t) imaginary_unit)
  unfolding add_complex
  packed_sum p t evens odds =
      let unit = imaginary_unit in
      let w = λ (n : ℕ). get_wn D (n * t * 2) size_n in
      let pack : (n : ℕ)
          → (let z : Complex R = record { real = evens n; imagin = odds n } in z)
            ≡ add_complex D (complexes D evens n) (multy_complex D (complexes D odds n) unit) =
        λ n. sym (
          ap (add_complex D (complexes D evens n)) (multy-unit (complexes D odds n))
          ∙ ap₂ (λ x y. record { real = x; imagin = y })
              (ap (add (evens n)) (neg-zero D size_n e) ∙ add-zero D size_n e (evens n))
              (e.zero-add (odds n))) in
      ap (csum D p) (
        fun_ext (λ n.
          ap (λ z. multy_complex D z (w n)) (pack n)
          ∙ multy-add D size_n e (complexes D evens n) (multy_complex D (complexes D odds n) unit)
              (w n)
          ∙ ap (add_complex D (multy_complex D (complexes D evens n) (w n))) (
              multy_assoc D size_n e (complexes D odds n) unit (w n)
              ∙ ap (multy_complex D (complexes D odds n)) (multy_comm D size_n e unit (w n))
              ∙ sym (multy_assoc D size_n e (complexes D odds n) (w n) unit))))
      ∙ csum_add D size_n e p _ _
      ∙ ap (add_complex D (real_sum p evens t))
          (sym (multy-csum D size_n e p (term D size_n e (complexes D odds) 2 t) unit))

  -- The sums of real numbers at two frequencies that add up to a whole turn are conjugate.
  pub conjugate-sum :
      (h : ℕ) (half : h * 2 ≡ size_n) (p stride t u : ℕ) (r : ℕ → R)
      → t * stride < size_n
      → size_n - t * stride ≡ u * stride
      → conjugate D (csum D p (term D size_n e (complexes D r) stride t))
        ≡ csum D p (term D size_n e (complexes D r) stride u)
  unfolding get_wn
  conjugate-sum h half p stride t u r lt left =
      conjugate-csum D size_n e p (term D size_n e (complexes D r) stride t)
      ∙ ap (csum D p) (
          fun_ext (λ n.
            conjugate-multy D size_n e (complexes D r n) (backward D size_n e (n * t * stride))
            ∙ ap₂ (multy_complex D)
                (ap (λ y. record { real = r n; imagin = y }) (neg-zero D size_n e))
                (ap (λ y. record { real = D.cos (angle D size_n (n * t * stride)); imagin = y })
                    (neg-neg D size_n e _)
                  ∙ ap (forward D size_n e)
                      (let turns : n * t * stride ≡ n * (t * stride) = omega arith in turns)
                  ∙ flipped D size_n e (forward-Root D size_n e) (backward-Root D size_n e)
                      (forward-backward D size_n e) h half (t * stride) n lt
                  ∙ ap (backward D size_n e) (
                      ap (λ d. d * n) left
                      ∙ (let turns : u * stride * n ≡ n * u * stride = omega arith in turns)))))
