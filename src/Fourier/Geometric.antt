-- ===== src/Fourier/Geometric.antt =====
-- Sums that change places, and sums of the powers of a root of unity, in exact arithmetic.
use native.Mathlib.Nat.{two-pow-succ}
use sql_code.Common.{
  ℕ, zero, suc, ◌+◌, ◌*◌, ◌/◌, ◌%◌, ◌^◌, ◌≡◌, ◌≢◌, ◌<◌, refl, sym, ap, ap₂, ◌∙◌, arith, ◌==◌,
  Bool-cases, inl, inr, for_up, fun_ext,
}
use sql_code.Fourier.{Double, Complex, add_complex}
use sql_code.Fourier.Exact.{Exact, add-zero}
use sql_code.Fourier.Sums.{
  complex_zero, negate, csum, negate-csum, complex_swap, complex_assoc, complex_zero-add,
  add-negate,
}
use sql_code.Fourier.Root.{Root, root_turns, root_half_turn}

module _ (D : Double) (size_n : ℕ) {turn : ℕ → D.R} (e : Exact D size_n turn) where
  pub csum_add :
      (n : ℕ) (f g : ℕ → Complex D.R)
      → csum D n (λ i. add_complex D (f i) (g i)) ≡ add_complex D (csum D n f) (csum D n g)
  unfolding for_up
  csum_add zero f g = sym (complex_zero-add D size_n e (complex_zero D))
  csum_add (suc n) f g =
      ap (λ c. add_complex D c (add_complex D (f n) (g n))) (csum_add n f g)
      ∙ complex_swap D size_n e _ _ _ _

  csum_zero : (n : ℕ) → csum D n (λ i. complex_zero D) ≡ complex_zero D
  unfolding for_up
  csum_zero zero = refl
  csum_zero (suc n) =
      ap (λ c. add_complex D c (complex_zero D)) (csum_zero n)
      ∙ complex_zero-add D size_n e (complex_zero D)

  -- Two sums change places.
  pub csum_exchange :
      (m n : ℕ) (f : ℕ → ℕ → Complex D.R)
      → csum D m (λ i. csum D n (f i)) ≡ csum D n (λ j. csum D m (λ i. f i j))
  unfolding for_up
  csum_exchange zero n f = sym (csum_zero n)
  csum_exchange (suc m) n f =
      ap (λ c. add_complex D c (csum D n (f m))) (csum_exchange m n f)
      ∙ sym (csum_add n (λ j. csum D m (λ i. f i j)) (f m))

  pub csum_cong :
      (n : ℕ) (f g : ℕ → Complex D.R) → ((i : ℕ) → i < n → f i ≡ g i) → csum D n f ≡ csum D n g
  unfolding for_up
  csum_cong zero f g h = refl
  csum_cong (suc n) f g h =
      ap₂ (add_complex D) (csum_cong n f g (λ i lt. h i (omega arith))) (h n (omega arith))

  pub complex_add-zero : (a : Complex D.R) → add_complex D a (complex_zero D) ≡ a
  unfolding add_complex
  complex_add-zero a =
      ap₂ (λ x y. record { real = x; imagin = y }) (add-zero D size_n e a.real)
        (add-zero D size_n e a.imagin)

  -- A sum of which one term alone is not zero.
  pub csum_single :
      (n m : ℕ) (f : ℕ → Complex D.R)
      → m < n
      → ((i : ℕ) → i < n → i ≢ m → f i ≡ complex_zero D)
      → csum D n f ≡ f m
  unfolding for_up
  csum_single zero m f h others = absurd (omega arith)
  csum_single (suc n) m f h others = elim (Bool-cases (m == n)) [
    | inl last ↦
        let here : m ≡ n = ground arith in
        ap (λ c. add_complex D c (f n))
          (csum_cong n f (λ i. complex_zero D)
              (λ i lt. others i (omega arith) (λ same. absurd (omega (arith, same, here))))
            ∙ csum_zero n)
        ∙ complex_zero-add D size_n e (f n)
        ∙ ap f (sym here)
    | inr earlier ↦
        let below : m < n = ground arith in
        ap (add_complex D (csum D n f))
          (others n (omega arith) (λ same. absurd (omega (arith, same, below))))
        ∙ complex_add-zero (csum D n f)
        ∙ csum_single n m f below (λ i lt. others i (omega arith))
  ]

  pub csum_append :
      (m n : ℕ) (f : ℕ → Complex D.R)
      → csum D (m + n) f ≡ add_complex D (csum D m f) (csum D n (λ i. f (m + i)))
  unfolding for_up
  csum_append m zero f =
      ap (λ s. csum D s f) (let none : m + 0 ≡ m = omega arith in none)
      ∙ sym (complex_add-zero (csum D m f))
  csum_append m (suc n) f =
      ap (λ s. csum D s f) (let next : m + suc n ≡ suc (m + n) = omega arith in next)
      ∙ ap (λ c. add_complex D c (f (m + n))) (csum_append m n f)
      ∙ complex_assoc D size_n e _ _ _

  module _ {root : ℕ → Complex D.R} (powers : Root D size_n root) where
    module _ (p stride d : ℕ) (half : stride * p * 2 ≡ size_n) where
      odd_half : d % 2 ≡ 1 → csum D (p + p) (λ n. root (d * n * stride)) ≡ complex_zero D
      odd_half odd =
          csum_append p p (λ n. root (d * n * stride))
          ∙ ap (add_complex D (csum D p (λ n. root (d * n * stride)))) (
              ap (csum D p) (
                fun_ext (λ n.
                  let q = d / 2 in
                  let split : d ≡ q * 2 + 1 = omega (arith, odd) in
                  ap root (
                    let turns : (q * 2 + 1) * (p + n) * stride
                        ≡ (q * 2 + 1) * n * stride + q * (stride * p + stride * p) + stride * p =
                      omega arith in
                    ap (λ m. m * (p + n) * stride) split
                    ∙ turns
                    ∙ ap (λ m. m * n * stride + q * (stride * p + stride * p) + stride * p)
                        (sym split))
                  ∙ root_half_turn D size_n e powers (stride * p) half _
                  ∙ ap (negate D)
                      (root_turns D size_n e powers (stride * p) half (d * n * stride) q)))
              ∙ sym (negate-csum D size_n e p (λ n. root (d * n * stride))))
          ∙ add-negate D size_n e _

      even_half :
          d % 2 ≡ 0
          → csum D p (λ n. root (d / 2 * n * (stride * 2))) ≡ complex_zero D
          → csum D (p + p) (λ n. root (d * n * stride)) ≡ complex_zero D
      even_half even smaller =
          let q = d / 2 in
          let split : d ≡ q * 2 = omega (arith, even) in
          let first : csum D p (λ n. root (d * n * stride)) ≡ complex_zero D =
            ap (csum D p) (
              fun_ext (λ n. ap root (
                ap (λ m. m * n * stride) split
                ∙ (let same : q * 2 * n * stride ≡ q * n * (stride * 2) = omega arith in same))))
            ∙ smaller in
          csum_append p p (λ n. root (d * n * stride))
          ∙ ap₂ (add_complex D) first (
              ap (csum D p) (
                fun_ext (λ n.
                  ap root (
                    let turns : q * 2 * (p + n) * stride
                        ≡ q * 2 * n * stride + q * (stride * p + stride * p) =
                      omega arith in
                    ap (λ m. m * (p + n) * stride) split
                    ∙ turns
                    ∙ ap (λ m. m * n * stride + q * (stride * p + stride * p)) (sym split))
                  ∙ root_turns D size_n e powers (stride * p) half (d * n * stride) q))
              ∙ first)
          ∙ complex_zero-add D size_n e (complex_zero D)

    -- The powers of a root whose exponents run through a multiple of a whole turn in equal steps add
    -- up to zero.
    pub geometric :
        (i stride d : ℕ)
        → stride * 2 ^ i ≡ size_n
        → 0 < d
        → d < 2 ^ i
        → csum D (2 ^ i) (λ n. root (d * n * stride)) ≡ complex_zero D
    geometric zero stride d whole some less = absurd (omega arith)
    geometric (suc i) stride d whole some less =
        let twice : 2 ^ suc i ≡ 2 ^ i + 2 ^ i = omega (arith, two-pow-succ i) in
        let half : stride * 2 ^ i * 2 ≡ size_n =
          (let out : stride * 2 ^ i * 2 ≡ stride * (2 ^ i + 2 ^ i) = omega arith in out)
          ∙ ap (λ s. stride * s) (sym twice)
          ∙ whole in
        ap (λ s. csum D s (λ n. root (d * n * stride))) twice ∙ elim (Bool-cases (d % 2 == 0)) [
          | inl even ↦ even_half (2 ^ i) stride d half (ground arith) (
              geometric i (stride * 2) (d / 2)
                ((let out : stride * 2 * 2 ^ i ≡ stride * 2 ^ i * 2 = omega arith in out) ∙ half)
                (ground arith) (omega (arith, twice)))
          | inr odd ↦ odd_half (2 ^ i) stride d half (ground arith)
        ]
