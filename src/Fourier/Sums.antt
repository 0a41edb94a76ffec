-- ===== src/Fourier/Sums.antt =====
-- Sums of complex numbers, as the loops of `DFT` build them, in exact arithmetic.
use sql_code.Common.{ℕ, zero, suc, ◌+◌, ◌*◌, ◌≡◌, sym, ap, ap₂, ◌∙◌, arith, for_up}
use sql_code.Fourier.{Double, Complex, add_complex, sub_complex, multy_complex}
use sql_code.Fourier.Exact.{
  Exact, mul-zero, mul-neg, neg-mul, neg-zero, add_swap, neg-add, zero-mul, sub-zero, add-zero,
  add-mul, mul-sub, sub-mul, sub_sub_swap, sub_add_swap, sub_swap, mul_left_comm,
}

module _ (D : Double) where
  open D use {R, of_ℕ, add, sub, mul, neg}

  abbrev pub complex_zero : Complex R
  complex_zero = record { real = of_ℕ 0; imagin = of_ℕ 0 }

  -- A complex number times a real one.
  abbrev pub scale : R → Complex R → Complex R
  scale r w = record { real = mul r w.real; imagin = mul r w.imagin }

  abbrev pub negate : Complex R → Complex R
  negate w = record { real = neg w.real; imagin = neg w.imagin }

  -- The sum of `g 0` to `g (n - 1)`.
  abbrev pub csum : ℕ → (ℕ → Complex R) → Complex R
  csum n g = for_up n (λ i c. add_complex D c (g i)) complex_zero

  module _ (size_n : ℕ) {turn : ℕ → R} (e : Exact D size_n turn) where
    pub complex_swap :
        (a b c d : Complex R)
        → add_complex D (add_complex D a b) (add_complex D c d)
          ≡ add_complex D (add_complex D a c) (add_complex D b d)
    unfolding add_complex
    complex_swap a b c d =
        ap₂ (λ x y. record { real = x; imagin = y })
          (add_swap D size_n e a.real b.real c.real d.real)
          (add_swap D size_n e a.imagin b.imagin c.imagin d.imagin)

    pub complex_assoc :
        (a b c : Complex R)
        → add_complex D (add_complex D a b) c ≡ add_complex D a (add_complex D b c)
    unfolding add_complex
    complex_assoc a b c =
        ap₂ (λ x y. record { real = x; imagin = y }) (e.add_assoc a.real b.real c.real)
          (e.add_assoc a.imagin b.imagin c.imagin)

    pub complex_zero-add : (a : Complex R) → add_complex D complex_zero a ≡ a
    unfolding add_complex
    complex_zero-add a =
        ap₂ (λ x y. record { real = x; imagin = y }) (e.zero-add a.real) (e.zero-add a.imagin)

    pub csum_one : (g : ℕ → Complex R) → csum 1 g ≡ g 0
    unfolding for_up
    csum_one g = complex_zero-add (g 0)

    pub sub_complex-negate : (a b : Complex R) → sub_complex D a b ≡ add_complex D a (negate b)
    unfolding add_complex sub_complex
    sub_complex-negate a b =
        ap₂ (λ x y. record { real = x; imagin = y }) (e.sub-add-neg a.real b.real)
          (e.sub-add-neg a.imagin b.imagin)

    -- Products of complex numbers distribute over sums.
    pub multy-add :
        (a b w : Complex R)
        → multy_complex D (add_complex D a b) w
          ≡ add_complex D (multy_complex D a w) (multy_complex D b w)
    unfolding add_complex multy_complex
    multy-add a b w =
        ap₂ (λ x y. record { real = x; imagin = y })
          (ap₂ sub (add-mul D size_n e a.real b.real w.real)
              (add-mul D size_n e a.imagin b.imagin w.imagin)
            ∙ sub_swap D size_n e _ _ _ _)
          (ap₂ add (add-mul D size_n e a.real b.real w.imagin) (e.mul-add w.real a.imagin b.imagin)
            ∙ add_swap D size_n e _ _ _ _)

    pub multy-zero : (w : Complex R) → multy_complex D complex_zero w ≡ complex_zero
    unfolding multy_complex
    multy-zero w =
        let zero_mul : (r : R) → mul (of_ℕ 0) r ≡ of_ℕ 0 =
          λ r. e.mul_comm (of_ℕ 0) r ∙ mul-zero D size_n e r in
        ap₂ (λ x y. record { real = x; imagin = y })
          (ap₂ sub (zero_mul w.real) (zero_mul w.imagin)
            ∙ e.sub-add-neg (of_ℕ 0) (of_ℕ 0)
            ∙ e.add-neg (of_ℕ 0))
          (ap₂ add (zero_mul w.imagin) (mul-zero D size_n e w.real) ∙ e.zero-add (of_ℕ 0))

    pub multy-scale :
        (r : R) (v w : Complex R) → multy_complex D (scale r v) w ≡ scale r (multy_complex D v w)
    unfolding multy_complex
    multy-scale r v w =
        ap₂ (λ x y. record { real = x; imagin = y })
          (ap₂ sub (e.mul_assoc r v.real w.real) (e.mul_assoc r v.imagin w.imagin)
            ∙ sym (mul-sub D size_n e r _ _))
          (ap₂ add (e.mul_assoc r v.real w.imagin) (mul_left_comm D size_n e w.real r v.imagin)
            ∙ sym (e.mul-add r _ _))

    pub scale-negate : (r : R) (w : Complex R) → scale r (negate w) ≡ negate (scale r w)
    scale-negate r w =
        ap₂ (λ x y. record { real = x; imagin = y }) (mul-neg D size_n e r w.real)
          (mul-neg D size_n e r w.imagin)

    -- One times a number, and minus one times it.
    pub multy-one :
        (w : Complex R) → multy_complex D w (record { real = of_ℕ 1; imagin = of_ℕ 0 }) ≡ w
    unfolding multy_complex
    multy-one w =
        ap₂ (λ x y. record { real = x; imagin = y })
          (ap₂ sub (e.mul-one w.real) (mul-zero D size_n e w.imagin)
            ∙ e.sub-add-neg _ _
            ∙ ap (add w.real) (neg-zero D size_n e)
            ∙ (e.add_comm _ _ ∙ e.zero-add w.real))
          (ap₂ add (mul-zero D size_n e w.real) (e.mul_comm (of_ℕ 1) w.imagin ∙ e.mul-one w.imagin)
            ∙ e.zero-add w.imagin)

    pub multy-minus_one :
        (w : Complex R)
        → multy_complex D w (record { real = neg (of_ℕ 1); imagin = of_ℕ 0 }) ≡ negate w
    unfolding multy_complex
    multy-minus_one w =
        ap₂ (λ x y. record { real = x; imagin = y })
          (ap₂ sub (mul-neg D size_n e w.real (of_ℕ 1) ∙ ap neg (e.mul-one w.real))
              (mul-zero D size_n e w.imagin)
            ∙ e.sub-add-neg _ _
            ∙ ap (add (neg w.real)) (neg-zero D size_n e)
            ∙ (e.add_comm _ _ ∙ e.zero-add (neg w.real)))
          (ap₂ add (mul-zero D size_n e w.real) (
              neg-mul D size_n e (of_ℕ 1) w.imagin
              ∙ ap neg (e.mul_comm (of_ℕ 1) w.imagin ∙ e.mul-one w.imagin))
            ∙ e.zero-add (neg w.imagin))

    pub multy-real :
        (r : R) (w : Complex R)
        → multy_complex D (record { real = r; imagin = of_ℕ 0 }) w ≡ scale r w
    unfolding multy_complex
    multy-real r w =
        ap₂ (λ x y. record { real = x; imagin = y })
          (ap (sub (mul r w.real)) (zero-mul D size_n e w.imagin)
            ∙ sub-zero D size_n e (mul r w.real))
          (ap (add (mul r w.imagin)) (mul-zero D size_n e w.real)
            ∙ add-zero D size_n e (mul r w.imagin))

    pub multy-csum :
        (n : ℕ) (g : ℕ → Complex R) (w : Complex R)
        → multy_complex D (csum n g) w ≡ csum n (λ i. multy_complex D (g i) w)
    unfolding for_up
    multy-csum zero g w = multy-zero w
    multy-csum (suc n) g w =
        multy-add (csum n g) (g n) w
        ∙ ap (λ c. add_complex D c (multy_complex D (g n) w)) (multy-csum n g w)

    pub negate-csum : (n : ℕ) (g : ℕ → Complex R) → negate (csum n g) ≡ csum n (λ i. negate (g i))
    unfolding for_up add_complex
    negate-csum zero g =
        ap₂ (λ x y. record { real = x; imagin = y }) (neg-zero D size_n e) (neg-zero D size_n e)
    negate-csum (suc n) g =
        ap₂ (λ x y. record { real = x; imagin = y }) (neg-add D size_n e _ _)
          (neg-add D size_n e _ _)
        ∙ ap (λ c. add_complex D c (negate (g n))) (negate-csum n g)

    -- A sum is that of the terms of even index and that of the terms of odd index.
    pub csum_split :
        (n : ℕ) (g : ℕ → Complex R)
        → csum (n * 2) g ≡ add_complex D (csum n (λ i. g (i * 2))) (csum n (λ i. g (i * 2 + 1)))
    unfolding for_up
    csum_split zero g = sym (complex_zero-add complex_zero)
    csum_split (suc n) g =
        ap (λ m. csum m g) (let two_more : suc n * 2 ≡ suc (suc (n * 2)) = omega arith in two_more)
        ∙ ap (λ m. add_complex D (add_complex D (csum (n * 2) g) (g (n * 2))) (g m))
            (let next : suc (n * 2) ≡ n * 2 + 1 = omega arith in next)
        ∙ complex_assoc (csum (n * 2) g) (g (n * 2)) (g (n * 2 + 1))
        ∙ ap (λ c. add_complex D c (add_complex D (g (n * 2)) (g (n * 2 + 1)))) (csum_split n g)
        ∙ complex_swap _ _ _ _

    pub multy_comm : (a b : Complex R) → multy_complex D a b ≡ multy_complex D b a
    unfolding multy_complex
    multy_comm a b =
        ap₂ (λ x y. record { real = x; imagin = y })
          (ap₂ sub (e.mul_comm a.real b.real) (e.mul_comm a.imagin b.imagin)) (e.add_comm _ _)

    pub multy_assoc :
        (a b c : Complex R)
        → multy_complex D (multy_complex D a b) c ≡ multy_complex D a (multy_complex D b c)
    unfolding multy_complex
    multy_assoc a b c =
        ap₂ (λ x y. record { real = x; imagin = y })
          (ap₂ sub
              (sub-mul D size_n e _ _ c.real
                ∙ ap₂ sub (e.mul_assoc a.real b.real c.real) (
                    e.mul_assoc a.imagin b.imagin c.real
                    ∙ ap (mul a.imagin) (e.mul_comm b.imagin c.real)))
              (add-mul D size_n e _ _ c.imagin
                ∙ ap₂ add (e.mul_assoc a.real b.imagin c.imagin) (
                    e.mul_assoc b.real a.imagin c.imagin
                    ∙ mul_left_comm D size_n e b.real a.imagin c.imagin))
            ∙ sub_sub_swap D size_n e _ _ _ _
            ∙ sym (ap₂ sub (mul-sub D size_n e a.real _ _) (e.mul-add a.imagin _ _)))
          (ap₂ add
              (sub-mul D size_n e _ _ c.imagin
                ∙ ap₂ sub (e.mul_assoc a.real b.real c.imagin)
                    (e.mul_assoc a.imagin b.imagin c.imagin ∙ e.mul_comm a.imagin _))
              (e.mul-add c.real _ _
                ∙ ap₂ add (mul_left_comm D size_n e c.real a.real b.imagin) (
                    mul_left_comm D size_n e c.real b.real a.imagin
                    ∙ sym (e.mul_assoc b.real c.real a.imagin)))
            ∙ sub_add_swap D size_n e _ _ _ _
            ∙ sym (ap₂ add (e.mul-add a.real _ _) (sub-mul D size_n e _ _ a.imagin)))

    pub negate-multy :
        (a w : Complex R) → multy_complex D (negate a) w ≡ negate (multy_complex D a w)
    negate-multy a w =
        ap (λ z. multy_complex D z w) (sym (multy-minus_one a))
        ∙ multy_assoc a _ w
        ∙ ap (multy_complex D a) (multy_comm _ w)
        ∙ sym (multy_assoc a w _)
        ∙ multy-minus_one (multy_complex D a w)

    pub multy-negate :
        (a w : Complex R) → multy_complex D a (negate w) ≡ negate (multy_complex D a w)
    multy-negate a w = multy_comm a (negate w) ∙ negate-multy w a ∙ ap negate (multy_comm w a)

    pub add-negate : (a : Complex R) → add_complex D a (negate a) ≡ complex_zero
    unfolding add_complex
    add-negate a =
        ap₂ (λ x y. record { real = x; imagin = y }) (e.add-neg a.real) (e.add-neg a.imagin)
