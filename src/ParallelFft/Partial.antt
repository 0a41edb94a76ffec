-- ===== src/ParallelFft/Partial.antt =====
-- The sums that the passes of `cfft2` build up, in exact arithmetic.
use sql_code.Common.{ℕ, ◌+◌, ◌*◌, ◌≡◌, sym, ap, ap₂, ◌∙◌, arith, fun_ext}
use sql_code.Fourier.{Double, Complex, add_complex, sub_complex, multy_complex}
use sql_code.Fourier.Exact.{Exact}
use sql_code.Fourier.Sums.{
  negate, csum, sub_complex-negate, multy-csum, negate-csum, csum_split, multy_comm, multy_assoc,
  negate-multy, multy-negate, multy-add,
}
use sql_code.Fourier.Root.{Root, root_turns, root_half_turn}

module _ (D : Double) (size_n : ℕ) {turn : ℕ → D.R} (e : Exact D size_n turn)
    {root : ℕ → Complex D.R} (powers : Root D size_n root) (x : ℕ → Complex D.R) where
  -- The term of the transform of `x` at the frequency `k` for entry `i`.
  abbrev pub term : ℕ → ℕ → Complex D.R
  term k i = multy_complex D (x i) (root (k * i))

  -- The part of the sum at the frequency `k` with every `apart`-th entry from `j` on, `m` in all.
  abbrev pub partial : ℕ → ℕ → ℕ → ℕ → Complex D.R
  partial m apart j k = csum D m (λ p. term k (j + p * apart))

  -- One half of the entries each, they add up to the sum with all of them,
  pub partial_double :
      (m apart j k : ℕ)
      → partial (m * 2) apart j k
        ≡ add_complex D (partial m (apart * 2) j k) (partial m (apart * 2) (j + apart) k)
  partial_double m apart j k =
      csum_split D size_n e m (λ p. term k (j + p * apart))
      ∙ ap₂ (λ f g. add_complex D (csum D m f) (csum D m g))
          (fun_ext (λ p. ap (term k) (omega arith))) (fun_ext (λ p. ap (term k) (omega arith)))

  multy-assoc_negate :
      (a b c : Complex D.R)
      → multy_complex D a (multy_complex D b (negate D c))
        ≡ multy_complex D (negate D (multy_complex D a b)) c
  multy-assoc_negate a b c =
      ap (multy_complex D a) (multy-negate D size_n e b c)
      ∙ multy-negate D size_n e a (multy_complex D b c)
      ∙ ap (negate D) (sym (multy_assoc D size_n e a b c))
      ∙ sym (negate-multy D size_n e (multy_complex D a b) c)

  module _ (m apart j k : ℕ) (half : apart * m * 2 ≡ size_n) where
    term_later :
        (p : ℕ)
        → term (k + m) (j + p * (apart * 2))
          ≡ multy_complex D (term k (j + p * (apart * 2))) (root (j * m))
    term_later p =
        ap (multy_complex D (x (j + p * (apart * 2)))) (
          ap root (
            let parts : (k + m) * (j + p * (apart * 2))
                ≡ k * (j + p * (apart * 2)) + (j * m + p * (apart * m + apart * m)) =
              omega arith in
            parts)
          ∙ powers.root-add (k * (j + p * (apart * 2))) (j * m + p * (apart * m + apart * m))
          ∙ ap (multy_complex D (root (k * (j + p * (apart * 2)))))
              (root_turns D size_n e powers (apart * m) half (j * m) p))
        ∙ sym (
            multy_assoc D size_n e (x (j + p * (apart * 2))) (root (k * (j + p * (apart * 2))))
              (root (j * m)))

    term_half_later :
        (p : ℕ)
        → term (k + m) (j + apart + p * (apart * 2))
          ≡ multy_complex D (negate D (term k (j + apart + p * (apart * 2)))) (root (j * m))
    term_half_later p =
        ap (multy_complex D (x (j + apart + p * (apart * 2)))) (
          ap root (
            let parts : (k + m) * (j + apart + p * (apart * 2))
                ≡ k * (j + apart + p * (apart * 2))
                  + (j * m + p * (apart * m + apart * m) + apart * m) =
              omega arith in
            parts)
          ∙ powers.root-add (k * (j + apart + p * (apart * 2)))
              (j * m + p * (apart * m + apart * m) + apart * m)
          ∙ ap (multy_complex D (root (k * (j + apart + p * (apart * 2))))) (
              root_half_turn D size_n e powers (apart * m) half
                (j * m + p * (apart * m + apart * m))
              ∙ ap (negate D) (root_turns D size_n e powers (apart * m) half (j * m) p)))
        ∙ multy-assoc_negate (x (j + apart + p * (apart * 2)))
            (root (k * (j + apart + p * (apart * 2)))) (root (j * m))

    -- and m frequencies further on the difference is taken, times a power of the root.
    pub partial_later :
        partial (m * 2) apart j (k + m)
        ≡ multy_complex D
            (root (j * m))
            (sub_complex D (partial m (apart * 2) j k) (partial m (apart * 2) (j + apart) k))
    partial_later =
        partial_double m apart j (k + m)
        ∙ ap₂ (add_complex D)
            (ap (csum D m) (fun_ext term_later)
              ∙ sym (multy-csum D size_n e m (λ p. term k (j + p * (apart * 2))) (root (j * m))))
            (ap (csum D m) (fun_ext term_half_later)
              ∙ sym (
                  multy-csum D size_n e m (λ p. negate D (term k (j + apart + p * (apart * 2))))
                    (root (j * m)))
              ∙ ap (λ z. multy_complex D z (root (j * m)))
                  (sym (negate-csum D size_n e m (λ p. term k (j + apart + p * (apart * 2))))))
        ∙ sym (multy-add D size_n e _ _ _)
        ∙ ap (λ z. multy_complex D z (root (j * m))) (sym (sub_complex-negate D size_n e _ _))
        ∙ multy_comm D size_n e _ _
