-- ===== src/SerialFft/Parts.antt =====
-- What the loop of `fft_real` behind `fft` computes from two entries, in exact arithmetic.
use sql_code.Common.{ℕ, ◌≡◌, sym, ap, ap₂, ◌∙◌}
use sql_code.Fourier.{Double, Complex, add_complex, multy_complex}
use sql_code.Fourier.Exact.{Exact, neg-neg, neg-zero, add_swap, sub_swap, add-zero, neg-add}
use sql_code.Fourier.Root.{angle}
use sql_code.Fourier.Halves.{imaginary_unit, multy-unit}
use sql_code.Fourier.Conjugate.{conjugate}
use sql_code.SerialFft.Decompose.{even_of, odd_of}

module _ (D : Double) (size_n : ℕ) (e : Exact D size_n (angle D size_n))
    (halves : (a : D.R) → D.div (D.add a a) (D.of_ℕ 2) ≡ a) where
  open D use {R, of_ℕ, add, sub, neg, div}

  abbrev pub combined : Complex R → Complex R → Complex R
  combined v w = add_complex D v (multy_complex D w (imaginary_unit D size_n e))

  combined-parts :
      (v w : Complex R)
      → combined v w ≡ record { real = add v.real (neg w.imagin); imagin = add v.imagin w.real }
  unfolding add_complex
  combined-parts v w = ap (add_complex D v) (multy-unit D size_n e w)

  halved : (a b z : R) → z ≡ of_ℕ 0 → div (add (add a a) z) (of_ℕ 2) ≡ a
  halved a b z none =
      ap (λ s. div s (of_ℕ 2)) (ap (add (add a a)) none ∙ add-zero D size_n e (add a a)) ∙ halves a

  sub_self : (a : R) → sub a a ≡ of_ℕ 0
  sub_self a = e.sub-add-neg a a ∙ e.add-neg a

  sub-neg : (a b : R) → sub a (neg b) ≡ add a b
  sub-neg a b = e.sub-add-neg a (neg b) ∙ ap (add a) (neg-neg D size_n e b)

  module _ (v w : Complex R) where
    -- The other entry of the pair.
    abbrev partner : Complex R
    partner = combined (conjugate D v) (conjugate D w)

    pub even_of-combined : even_of D (combined v w) partner ≡ v
    even_of-combined =
        ap₂ (even_of D) (combined-parts v w) (combined-parts (conjugate D v) (conjugate D w))
        ∙ ap₂ (λ x y. record { real = x; imagin = y })
            (ap (λ s. div s (of_ℕ 2)) (add_swap D size_n e _ _ _ _)
              ∙ halved v.real v.real _ (e.add-neg (neg w.imagin)))
            (ap (λ s. div s (of_ℕ 2))
                (sub_swap D size_n e _ _ _ _
                  ∙ ap (λ s. add s (sub w.real w.real)) (sub-neg v.imagin v.imagin))
              ∙ halved v.imagin v.imagin _ (sub_self w.real))

    pub odd_of-combined : odd_of D (combined v w) partner ≡ w
    odd_of-combined =
        ap₂ (odd_of D) (combined-parts v w) (combined-parts (conjugate D v) (conjugate D w))
        ∙ ap₂ (λ x y. record { real = x; imagin = y })
            (ap (λ s. div s (of_ℕ 2))
                (add_swap D size_n e _ _ _ _
                  ∙ ap (λ s. add s (add w.real w.real)) (e.add-neg v.imagin)
                  ∙ e.add_comm _ _)
              ∙ halved w.real w.real _ (let z : of_ℕ 0 ≡ of_ℕ 0 = λ i. of_ℕ 0 in z))
            (ap (λ s. div s (of_ℕ 2))
                (ap neg (
                    sub_swap D size_n e _ _ _ _
                    ∙ ap₂ add (sub_self v.real) (sub-neg (neg w.imagin) (neg w.imagin))
                    ∙ e.zero-add _)
                  ∙ neg-add D size_n e (neg w.imagin) (neg w.imagin)
                  ∙ ap₂ add (neg-neg D size_n e w.imagin) (neg-neg D size_n e w.imagin))
              ∙ halves w.imagin)

  -- A number that is its own negative is 0.
  self_negative : (a : R) → neg a ≡ a → a ≡ of_ℕ 0
  self_negative a same =
      let of_zero : (z : R) → z ≡ of_ℕ 0 → div z (of_ℕ 2) ≡ of_ℕ 0 =
        λ z none. ap (λ s. div s (of_ℕ 2)) (none ∙ sym (e.zero-add (of_ℕ 0))) ∙ halves (of_ℕ 0) in
      sym (halves a) ∙ of_zero (add a a) (ap (add a) (sym same) ∙ e.add-neg a)

  module _ (v w : Complex R) (real_v : conjugate D v ≡ v) (real_w : conjugate D w ≡ w) where
    imagin_v : v.imagin ≡ of_ℕ 0
    imagin_v = self_negative v.imagin (ap (λ z. z.imagin) real_v)

    imagin_w : w.imagin ≡ of_ℕ 0
    imagin_w = self_negative w.imagin (ap (λ z. z.imagin) real_w)

    -- From two real numbers.
    pub real-combined :
        (let z : Complex R = record { real = (combined v w).real; imagin = of_ℕ 0 } in z) ≡ v
    real-combined =
        ap₂ (λ x y. record { real = x; imagin = y })
          (ap (λ z. z.real) (combined-parts v w)
            ∙ ap (add v.real) (ap neg imagin_w ∙ neg-zero D size_n e)
            ∙ add-zero D size_n e v.real)
          (sym imagin_v)

    pub imagin-combined :
        (let z : Complex R = record { real = (combined v w).imagin; imagin = of_ℕ 0 } in z) ≡ w
    imagin-combined =
        ap₂ (λ x y. record { real = x; imagin = y })
          (ap (λ z. z.imagin) (combined-parts v w)
            ∙ ap (λ s. add s w.real) imagin_v
            ∙ e.zero-add w.real)
          (sym imagin_w)
