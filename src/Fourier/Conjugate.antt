-- ===== src/Fourier/Conjugate.antt =====
-- Conjugates of complex numbers, in exact arithmetic.
use sql_code.Common.{ℕ, zero, suc, ◌≡◌, sym, ap, ap₂, ◌∙◌, for_up}
use sql_code.Fourier.{Double, Complex, add_complex, multy_complex}
use sql_code.Fourier.Exact.{Exact, mul-neg, neg-neg, neg-zero, neg-add}
use sql_code.Fourier.Sums.{csum}
use sql_code.Fourier.Root.{neg-mul-neg}

module _ (D : Double) where
  open D use {R, of_ℕ, add, sub, mul, neg}

  abbrev pub conjugate : Complex R → Complex R
  conjugate w = record { real = w.real; imagin = neg w.imagin }

  module _ (size_n : ℕ) {turn : ℕ → R} (e : Exact D size_n turn) where
    pub conjugate_twice : (w : Complex R) → conjugate (conjugate w) ≡ w
    conjugate_twice w = ap (λ y. record { real = w.real; imagin = y }) (neg-neg D size_n e w.imagin)

    pub conjugate-add :
        (v w : Complex R)
        → conjugate (add_complex D v w) ≡ add_complex D (conjugate v) (conjugate w)
    unfolding add_complex
    conjugate-add v w =
        ap (λ y. record { real = add v.real w.real; imagin = y })
          (neg-add D size_n e v.imagin w.imagin)

    pub conjugate-multy :
        (v w : Complex R)
        → conjugate (multy_complex D v w) ≡ multy_complex D (conjugate v) (conjugate w)
    unfolding multy_complex
    conjugate-multy v w =
        ap₂ (λ x y. record { real = x; imagin = y })
          (ap (sub (mul v.real w.real)) (sym (neg-mul-neg D size_n e v.imagin w.imagin)))
          (neg-add D size_n e _ _
            ∙ ap₂ add (sym (mul-neg D size_n e v.real w.imagin))
                (sym (mul-neg D size_n e w.real v.imagin)))

    pub conjugate-csum :
        (n : ℕ) (g : ℕ → Complex R) → conjugate (csum D n g) ≡ csum D n (λ i. conjugate (g i))
    unfolding for_up
    conjugate-csum zero g = ap (λ y. record { real = of_ℕ 0; imagin = y }) (neg-zero D size_n e)
    conjugate-csum (suc n) g =
        conjugate-add (csum D n g) (g n)
        ∙ ap (λ c. add_complex D c (conjugate (g n))) (conjugate-csum n g)
