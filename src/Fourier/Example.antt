-- ===== src/Fourier/Example.antt =====
-- Arithmetic in which the cosine and the sine at multiples of a quarter turn are exact: the integers,
-- with the quarter turn as 1 and so half a turn as 2.
use sql_code.Common.Int.{
  ℤ, pos, negsuc, pos_part, neg_part, -ℤ_parts, eq_of_parts, ◌+ℤ◌, ◌-ℤ◌, ◌*ℤ◌,
}
use sql_code.Common.Ring.{
  +ℤ_comm, +ℤ_assoc, *ℤ_comm, *ℤ-+ℤ, *ℤ_assoc, zero-+ℤ, +ℤ-negate, -ℤ_lem, *ℤ-one, pos-*ℤ, pos-+ℤ,
}
use sql_code.Common.{ℕ, ◌+◌, ◌*◌, ◌/◌, ◌%◌, ◌≡◌, ◌==◌, if◌then◌else◌, arith, sym, ap, ap₂, ◌∙◌}
use sql_code.Fourier.{Double}
use sql_code.Fourier.Exact.{Exact}
use sql_code.Fourier.Root.{angle}

-- The cosine of `n` quarter turns.
abbrev pub quarter_cos : ℕ → ℤ
quarter_cos n = if n % 4 == 0 then pos 1 else if n % 4 == 2 then negsuc 0 else pos 0

abbrev pub quarter_sin : ℕ → ℤ
quarter_sin n = if n % 4 == 1 then pos 1 else if n % 4 == 3 then negsuc 0 else pos 0

abbrev pub quarters : Double
quarters = record {
  R = ℤ;
  of_ℕ = pos;
  m_pi = pos 2;
  add = λ a b. a +ℤ b;
  sub = λ a b. a -ℤ b;
  mul = λ a b. a *ℤ b;
  div = λ a b. pos (pos_part a / pos_part b) -ℤ pos (neg_part a / pos_part b);
  neg = λ a. pos 0 -ℤ a;
  sin = λ a. quarter_sin (pos_part a);
  cos = λ a. quarter_cos (pos_part a);
}

-- A turn of four parts is measured in quarter turns.
pub quarter_angle : (n : ℕ) → angle quarters 4 n ≡ pos n
quarter_angle n =
    ap (λ a. pos (pos_part a / 4) -ℤ pos (neg_part a / 4))
      (ap (λ a. a *ℤ pos n) (sym (pos-*ℤ 2 2)) ∙ sym (pos-*ℤ 4 n))
    ∙ eq_of_parts _ (pos n) (omega (arith, -ℤ_parts (pos (4 * n / 4)) (pos (0 / 4))))

quarter_cos-add :
    (m n : ℕ)
    → quarter_cos (m + n) ≡ quarter_cos m *ℤ quarter_cos n -ℤ quarter_sin m *ℤ quarter_sin n
unfolding ◌-ℤ◌ ◌*ℤ◌
quarter_cos-add m n = ground arith

quarter_sin-add :
    (m n : ℕ)
    → quarter_sin (m + n) ≡ quarter_sin m *ℤ quarter_cos n +ℤ quarter_cos m *ℤ quarter_sin n
unfolding ◌+ℤ◌ ◌*ℤ◌
quarter_sin-add m n = ground arith

quarter_squares : (n : ℕ) → quarter_cos n *ℤ quarter_cos n +ℤ quarter_sin n *ℤ quarter_sin n ≡ pos 1
unfolding ◌+ℤ◌ ◌*ℤ◌
quarter_squares n = ground arith

half_cos : (h : ℕ) → h * 2 ≡ 4 → quarter_cos h ≡ pos 0 -ℤ pos 1
unfolding ◌-ℤ◌
half_cos h half = ground arith

half_sin : (h : ℕ) → h * 2 ≡ 4 → quarter_sin h ≡ pos 0
half_sin h half = ground arith

-- Whatever formula the angle is computed by, if it counts the quarter turns.
pub quarters-Exact : (turn : ℕ → ℤ) → ((n : ℕ) → turn n ≡ pos n) → Exact quarters 4 turn
quarters-Exact turn counts = record {
  add_comm = +ℤ_comm;
  add_assoc = +ℤ_assoc;
  zero-add = zero-+ℤ;
  add-neg = +ℤ-negate;
  sub-add-neg = -ℤ_lem;
  mul_comm = *ℤ_comm;
  mul_assoc = *ℤ_assoc;
  mul-one = *ℤ-one;
  mul-add = *ℤ-+ℤ;
  of_ℕ-mul = pos-*ℤ;
  of_ℕ-add = pos-+ℤ;
  squares = λ n.
      ap (λ a. quarters.cos a *ℤ quarters.cos a +ℤ quarters.sin a *ℤ quarters.sin a) (counts n)
      ∙ quarter_squares n;
  cos-add = λ m n.
      ap quarters.cos (counts (m + n))
      ∙ quarter_cos-add m n
      ∙ sym (
          ap₂ (λ a b. quarters.cos a *ℤ quarters.cos b -ℤ quarters.sin a *ℤ quarters.sin b)
            (counts m) (counts n));
  sin-add = λ m n.
      ap quarters.sin (counts (m + n))
      ∙ quarter_sin-add m n
      ∙ sym (
          ap₂ (λ a b. quarters.sin a *ℤ quarters.cos b +ℤ quarters.cos a *ℤ quarters.sin b)
            (counts m) (counts n));
  cos-zero = ap quarters.cos (counts 0);
  sin-zero = ap quarters.sin (counts 0);
  cos_half = λ h half. ap quarters.cos (counts h) ∙ half_cos h half;
  sin_half = λ h half. ap quarters.sin (counts h) ∙ half_sin h half;
}

-- Dividing by four, and by two.
pub quarters-div : (a : ℤ) → quarters.div (quarters.mul (pos 4) a) (pos 4) ≡ a
unfolding ◌-ℤ◌ ◌*ℤ◌
quarters-div a = ground arith

pub quarters-halves : (a : ℤ) → quarters.div (quarters.add a a) (pos 2) ≡ a
unfolding ◌-ℤ◌ ◌+ℤ◌
quarters-halves a = ground arith

-- A turn of two parts.
half_angle : (n : ℕ) → angle quarters 2 n ≡ pos (n * 2)
half_angle n =
    ap (λ a. pos (pos_part a / 2) -ℤ pos (neg_part a / 2))
      (ap (λ a. a *ℤ pos n) (sym (pos-*ℤ 2 2)) ∙ sym (pos-*ℤ 4 n))
    ∙ eq_of_parts _ (pos (n * 2)) (omega (arith, -ℤ_parts (pos (4 * n / 2)) (pos (0 / 2))))

pub quarters-angles : (n : ℕ) → angle quarters 2 n ≡ angle quarters 4 (n * 2)
quarters-angles n = half_angle n ∙ sym (quarter_angle (n * 2))
