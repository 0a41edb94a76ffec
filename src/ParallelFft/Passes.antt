-- ===== src/ParallelFft/Passes.antt =====
-- One pass of `cfft2`, in exact arithmetic.
use native.Mathlib.Nat.{mul-div_left, mul-le-mul_right, suc-mul, add-mul}
use sql_code.Common.{
  ℕ, suc, ◌+◌, ◌-◌, ◌*◌, ◌/◌, ◌≡◌, ◌<◌, ◌≤◌, refl, sym, ap, ap₂, ◌∙◌, arith, Bool, true, false,
  if◌then◌else◌, ltb, Bool-cases, inl, inr, for_up, for_up_inv, ◌==◌,
}
use sql_code.Fourier.{Double, Complex, store, add_complex, sub_complex, multy_complex}
use sql_code.Fourier.Exact.{Exact}
use sql_code.Fourier.Root.{Root, forward, backward, forward-Root, backward-Root}
use sql_code.ParallelFft.{Logarithm, ccopy, cffti, wjw_real, wjw_imag, step}
use sql_code.ParallelFft.Step.{entry, front, back, step-front, step-back}
use sql_code.ParallelFft.Partial.{partial, partial_double, partial_later}

-- The angle of `i` parts of a turn in `n` parts, as `cffti` computes it.
abbrev pub table_angle : (D : Double) → ℕ → ℕ → D.R
table_angle D n i = D.mul (D.div (D.mul (D.of_ℕ 2) D.m_pi) (D.of_ℕ n)) (D.of_ℕ i)

module _ (D : Double) where
  -- A loop that stores a complex number in each round.
  filled :
      (n : ℕ) (re im y : ℕ → D.R) (i : ℕ)
      → i < n
      → (for_up n (λ m z. store (store z (m * 2 + 0) (re m)) (m * 2 + 1) (im m)) y (i * 2 + 0)
          ≡ re i)
        × (for_up n (λ m z. store (store z (m * 2 + 0) (re m)) (m * 2 + 1) (im m)) y (i * 2 + 1)
            ≡ im i)
  filled n re im y =
      for_up_inv (λ m z. (i : ℕ) → i < m → (z (i * 2 + 0) ≡ re i) × (z (i * 2 + 1) ≡ im i))
        (λ m z. store (store z (m * 2 + 0) (re m)) (m * 2 + 1) (im m)) n y
        (λ m z below inv i lt. elim (Bool-cases (i == m)) [
          | inl same ↦
              let here : i ≡ m = ground arith in
              (ground (arith, here, ap re here), ground (arith, here, ap im here))
          | inr other ↦
              let (even, odd) = inv i (ground arith) in (ground (arith, even), ground (arith, odd))
        ])
        (λ i lt. absurd (omega arith))

  pub entry-ccopy : (n i : ℕ) (x y : ℕ → D.R) → i < n → entry D (ccopy D n x y) 0 i ≡ entry D x 0 i
  unfolding ccopy
  entry-ccopy n i x y h =
      let (even, odd) = filled n (λ m. x (m * 2 + 0)) (λ m. x (m * 2 + 1)) y i h in
      ap₂ (λ u v. record { real = u; imagin = v })
        (ap (ccopy D n x y) (omega arith) ∙ even ∙ ap x (omega arith))
        (ap (ccopy D n x y) (omega arith) ∙ odd ∙ ap x (omega arith))

  -- The table holds the cosine and the sine of each angle.
  pub record Table (n : ℕ) (w : ℕ → D.R) : Type 0 where
    pub cosines : (i : ℕ) → i < n / 2 → w (i * 2 + 0) ≡ D.cos (table_angle D n i)
    pub sines : (i : ℕ) → i < n / 2 → w (i * 2 + 1) ≡ D.sin (table_angle D n i)

  pub cffti-Table : (n : ℕ) (w : ℕ → D.R) → Table n (cffti D n w)
  unfolding cffti
  cffti-Table n w = record {
    cosines = λ i h.
        (filled (n / 2) (λ m. D.cos (table_angle D n m)) (λ m. D.sin (table_angle D n m)) w i h).0;
    sines = λ i h.
        (filled (n / 2) (λ m. D.cos (table_angle D n m)) (λ m. D.sin (table_angle D n m)) w i h).1;
  }

  module _ (size_n : ℕ) (e : Exact D size_n (table_angle D size_n)) where
    -- The root that `cfft2` takes, by the sign.
    abbrev pub signed : Bool → ℕ → Complex D.R
    signed true = backward D size_n e
    signed false = forward D size_n e

    pub signed-Root : (b : Bool) → Root D size_n (signed b)
    signed-Root true = backward-Root D size_n e
    signed-Root false = forward-Root D size_n e

    pub signed-if :
        (b : Bool) (i : ℕ)
        → signed b i ≡ record {
          real = D.cos (table_angle D size_n i);
          imagin =
              if b then D.neg (D.sin (table_angle D size_n i)) else D.sin (table_angle D size_n i);
        }
    signed-if true i = refl
    signed-if false i = refl

    module _ (L : Logarithm D) (w : ℕ → D.R) (table : Table size_n w) (sgn : D.R) where
      abbrev pub wjw : ℕ → ℕ → Complex D.R
      wjw mj j = record { real = wjw_real D L mj w j; imagin = wjw_imag D L mj w sgn j }

      by_sign :
          (b : Bool) (i : ℕ)
          → i < size_n / 2
          → record {
            real = w (i * 2 + 0);
            imagin = if b then D.neg (w (i * 2 + 1)) else w (i * 2 + 1);
          }
            ≡ signed b i
      by_sign true i h =
          ap₂ (λ x y. record { real = x; imagin = D.neg y }) (table.cosines i h) (table.sines i h)
      by_sign false i h =
          ap₂ (λ x y. record { real = x; imagin = y }) (table.cosines i h) (table.sines i h)

      wjw-signed :
          (mj j : ℕ) → j * mj < size_n / 2 → wjw mj j ≡ signed (L.lt sgn (D.of_ℕ 0)) (j * mj)
      unfolding wjw_real wjw_imag
      wjw-signed mj j h = by_sign (L.lt sgn (D.of_ℕ 0)) (j * mj) h

      front-add :
          (m : ℕ) (from : ℕ → D.R) (j k : ℕ)
          → front D L m from (size_n / 2 * 2 + 0) w sgn j k
            ≡ add_complex D
                (entry D from 0 (j * m + k))
                (entry D from (size_n / 2 * 2 + 0) (j * m + k))
      unfolding add_complex
      front-add m from j k = refl

      back-multy :
          (m : ℕ) (from : ℕ → D.R) (j k : ℕ)
          → back D L m from (size_n / 2 * 2 + 0) w sgn j k
            ≡ multy_complex D (wjw m j) (
                sub_complex D
                  (entry D from 0 (j * m + k))
                  (entry D from (size_n / 2 * 2 + 0) (j * m + k)))
      unfolding multy_complex sub_complex
      back-multy m from j k =
          ap₂ (λ x y. record { real = x; imagin = y }) refl
            (e.add_comm _ _ ∙ ap (D.add _) (e.mul_comm _ _))

      -- An array that holds the partial sums of `m` terms.
      abbrev pub Holds : (ℕ → Complex D.R) → ℕ → ℕ → (ℕ → D.R) → Type 0
      Holds x m apart a =
          (j k : ℕ)
          → j < apart
          → k < m
          → entry D a 0 (j * m + k)
            ≡ partial D size_n e (signed-Root (L.lt sgn (D.of_ℕ 0))) x m apart j k

      module _ (x : ℕ → Complex D.R) (m apart : ℕ) (from to : ℕ → D.R) (some_block : 0 < m)
          (whole : apart * 2 * m ≡ size_n) (before : Holds x m (apart * 2) from) where
        abbrev after_pass : ℕ → D.R
        after_pass =
            step D L size_n m from (0 * 2 + 0) (size_n / 2 * 2 + 0) to (0 * 2 + 0) (m * 2 + 0) w sgn

        abbrev power : Root D size_n (signed (L.lt sgn (D.of_ℕ 0)))
        power = signed-Root (L.lt sgn (D.of_ℕ 0))

        rounds : size_n / (2 * m) ≡ apart
        rounds =
            ap (λ s. s / (2 * m))
              (sym whole ∙ (let e : apart * 2 * m ≡ apart * (2 * m) = omega arith in e))
            ∙ mul-div_left apart (omega arith)

        second_half : (j k : ℕ) → size_n / 2 + (j * m + k) ≡ (j + apart) * m + k
        second_half j k =
            let half : size_n / 2 ≡ apart * m = omega (arith, whole) in
            omega (arith, half, add-mul j apart m)

        module _ (j k : ℕ) (hj : j < apart) (hk : k < m) where
          lower : entry D from 0 (j * m + k) ≡ partial D size_n e power x m (apart * 2) j k
          lower = before j k (omega arith) hk

          upper :
              entry D from (size_n / 2 * 2 + 0) (j * m + k)
              ≡ partial D size_n e power x m (apart * 2) (j + apart) k
          upper =
              ap₂ (λ u v. record { real = u; imagin = v })
                (ap from (omega (arith, second_half j k)))
                (ap from (omega (arith, second_half j k)))
              ∙ before (j + apart) k (omega arith) hk

          inside : j < size_n / (2 * m)
          inside = omega (arith, rounds)

          in_table : j * m < size_n / 2
          in_table =
              let whole_blocks : suc j * m ≤ apart * m = mul-le-mul_right m (omega arith) in
              omega (arith, whole, suc-mul j m)

          front_holds :
              entry D after_pass 0 (j * (2 * m) + k) ≡ partial D size_n e power x (m * 2) apart j k
          front_holds =
              step-front D L m from (size_n / 2 * 2 + 0) w sgn size_n to j k inside hk
              ∙ front-add m from j k
              ∙ ap₂ (add_complex D) lower upper
              ∙ sym (partial_double D size_n e power x m apart j k)

          back_holds :
              entry D after_pass 0 (j * (2 * m) + (k + m))
              ≡ partial D size_n e power x (m * 2) apart j (k + m)
          back_holds =
              step-back D L m from (size_n / 2 * 2 + 0) w sgn size_n to j k inside hk
              ∙ back-multy m from j k
              ∙ ap₂ (multy_complex D) (wjw-signed m j in_table) (ap₂ (sub_complex D) lower upper)
              ∙ sym (partial_later D size_n e power x m apart j k (omega (arith, whole)))

        pub pass-Holds : Holds x (m * 2) apart after_pass
        pass-Holds j k hj hk = elim (Bool-cases (ltb k m)) [
          | inl low ↦
              ap (entry D after_pass 0)
                (let e : j * (m * 2) + k ≡ j * (2 * m) + k = omega arith in e)
              ∙ front_holds j k hj (ground arith)
          | inr high ↦
              let back_index : k ≡ k - m + m = ground arith in
              ap (entry D after_pass 0) (omega (arith, back_index))
              ∙ back_holds j (k - m) hj (omega arith)
              ∙ ap (partial D size_n e power x (m * 2) apart j) (sym back_index)
        ]
