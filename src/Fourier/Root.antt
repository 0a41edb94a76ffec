-- ===== src/Fourier/Root.antt =====
-- Roots of unity in exact arithmetic.
use sql_code.Common.{ℕ, zero, suc, ◌+◌, ◌*◌, ◌≡◌, sym, ap, ap₂, ◌∙◌, arith}
use sql_code.Fourier.{Double, Complex, multy_complex, get_wn}
use sql_code.Fourier.Exact.{Exact, mul-neg, neg-mul, neg-neg, neg-zero, neg-add}
use sql_code.Fourier.Sums.{negate, multy-minus_one}

-- The powers of a root of unity of order `size_n`.
pub record Root (D : Double) (size_n : ℕ) (root : ℕ → Complex D.R) : Type 0 where
  pub root-add : (m n : ℕ) → root (m + n) ≡ multy_complex D (root m) (root n)
  pub root-zero : root 0 ≡ record { real = D.of_ℕ 1; imagin = D.of_ℕ 0 }
  pub root_half :
      (h : ℕ) → h * 2 ≡ size_n → root h ≡ record { real = D.neg (D.of_ℕ 1); imagin = D.of_ℕ 0 }

module _ (D : Double) (size_n : ℕ) {turn : ℕ → D.R} (e : Exact D size_n turn) where
  open D use {R, of_ℕ, add, sub, mul, neg, cos, sin}

  -- The root with the angle, and the one with its negative.
  abbrev pub forward : ℕ → Complex R
  forward n = record { real = cos (turn n); imagin = sin (turn n) }

  abbrev pub backward : ℕ → Complex R
  backward n = record { real = cos (turn n); imagin = neg (sin (turn n)) }

  pub forward-Root : Root D size_n forward
  unfolding multy_complex
  forward-Root = record {
    root-add = λ m n.
        ap₂ (λ x y. record { real = x; imagin = y }) (e.cos-add m n)
          (e.sin-add m n
            ∙ e.add_comm _ _
            ∙ ap (add (mul (cos (turn m)) (sin (turn n))))
                (e.mul_comm (sin (turn m)) (cos (turn n))));
    root-zero = ap₂ (λ x y. record { real = x; imagin = y }) e.cos-zero e.sin-zero;
    root_half =
        λ h p. ap₂ (λ x y. record { real = x; imagin = y }) (e.cos_half h p) (e.sin_half h p);
  }

  pub neg-mul-neg : (a b : R) → mul (neg a) (neg b) ≡ mul a b
  neg-mul-neg a b =
      mul-neg D size_n e (neg a) b ∙ ap neg (neg-mul D size_n e a b) ∙ neg-neg D size_n e (mul a b)

  pub backward-Root : Root D size_n backward
  unfolding multy_complex
  backward-Root = record {
    root-add = λ m n.
        ap₂ (λ x y. record { real = x; imagin = y })
          (e.cos-add m n
            ∙ ap (sub (mul (cos (turn m)) (cos (turn n))))
                (sym (neg-mul-neg (sin (turn m)) (sin (turn n)))))
          (ap neg (e.sin-add m n)
            ∙ neg-add D size_n e _ _
            ∙ e.add_comm _ _
            ∙ ap₂ add (sym (mul-neg D size_n e (cos (turn m)) (sin (turn n)))) (
                ap neg (e.mul_comm (sin (turn m)) (cos (turn n)))
                ∙ sym (mul-neg D size_n e (cos (turn n)) (sin (turn m)))));
    root-zero =
        ap₂ (λ x y. record { real = x; imagin = y }) e.cos-zero
          (ap neg e.sin-zero ∙ neg-zero D size_n e);
    root_half = λ h p.
        ap₂ (λ x y. record { real = x; imagin = y }) (e.cos_half h p)
          (ap neg (e.sin_half h p) ∙ neg-zero D size_n e);
  }

  module _ {root : ℕ → Complex R} (powers : Root D size_n root) (h : ℕ)
      (half : h * 2 ≡ size_n) where
    -- Half a turn on, the power is negated, and whole turns on it is the same.
    pub root_half_turn : (a : ℕ) → root (a + h) ≡ negate D (root a)
    root_half_turn a =
        powers.root-add a h
        ∙ ap (multy_complex D (root a)) (powers.root_half h half)
        ∙ multy-minus_one D size_n e (root a)

    pub root_turns : (a n : ℕ) → root (a + n * (h + h)) ≡ root a
    root_turns a zero = ap root (let none_left : a + 0 * (h + h) ≡ a = omega arith in none_left)
    root_turns a (suc n) =
        ap root (let last : a + suc n * (h + h) ≡ a + n * (h + h) + h + h = omega arith in last)
        ∙ root_half_turn (a + n * (h + h) + h)
        ∙ ap (negate D) (root_half_turn (a + n * (h + h)))
        ∙ ap₂ (λ x y. record { real = x; imagin = y }) (neg-neg D size_n e _) (neg-neg D size_n e _)
        ∙ root_turns a n

-- The angle of `n` parts of a turn in `size_n` parts, as `getWN` computes it.
abbrev pub angle : (D : Double) → ℕ → ℕ → D.R
angle D size_n n = D.div (D.mul (D.mul (D.of_ℕ 2) D.m_pi) (D.of_ℕ n)) (D.of_ℕ size_n)

pub get_wn-Root :
    (D : Double) (size_n : ℕ)
    → Exact D size_n (angle D size_n)
    → Root D size_n (λ n. get_wn D n size_n)
unfolding get_wn
get_wn-Root D size_n e = backward-Root D size_n e
