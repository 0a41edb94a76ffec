-- ===== src/Fourier/Exact.antt =====
-- Exact arithmetic: the laws under which `FFT` computes the sums of `DFT`.
use sql_code.Common.{ℕ, ◌+◌, ◌*◌, ◌≡◌, sym, ap, ap₂, ◌∙◌}
use sql_code.Fourier.{Double}

-- The laws of a commutative ring, and of the cosine and the sine at `turn n`, which is `n` parts of a
-- turn in `size_n` parts: the addition theorems,
-- the sum of their squares, no turn and half a turn. The numbers of the real line obey them; those of the machine do
-- up to rounding.
pub record Exact (D : Double) (size_n : ℕ) (turn : ℕ → D.R) : Type 0 where
  pub add_comm : (a b : D.R) → D.add a b ≡ D.add b a
  pub add_assoc : (a b c : D.R) → D.add (D.add a b) c ≡ D.add a (D.add b c)
  pub zero-add : (a : D.R) → D.add (D.of_ℕ 0) a ≡ a
  pub add-neg : (a : D.R) → D.add a (D.neg a) ≡ D.of_ℕ 0
  pub sub-add-neg : (a b : D.R) → D.sub a b ≡ D.add a (D.neg b)
  pub mul_comm : (a b : D.R) → D.mul a b ≡ D.mul b a
  pub mul_assoc : (a b c : D.R) → D.mul (D.mul a b) c ≡ D.mul a (D.mul b c)
  pub mul-one : (a : D.R) → D.mul a (D.of_ℕ 1) ≡ a
  pub mul-add : (a b c : D.R) → D.mul a (D.add b c) ≡ D.add (D.mul a b) (D.mul a c)
  pub of_ℕ-mul : (m n : ℕ) → D.of_ℕ (m * n) ≡ D.mul (D.of_ℕ m) (D.of_ℕ n)
  pub of_ℕ-add : (m n : ℕ) → D.of_ℕ (m + n) ≡ D.add (D.of_ℕ m) (D.of_ℕ n)
  pub squares :
      (n : ℕ)
      → D.add (D.mul (D.cos (turn n)) (D.cos (turn n))) (D.mul (D.sin (turn n)) (D.sin (turn n)))
        ≡ D.of_ℕ 1
  pub cos-add :
      (m n : ℕ)
      → D.cos (turn (m + n))
        ≡ D.sub (D.mul (D.cos (turn m)) (D.cos (turn n))) (D.mul (D.sin (turn m)) (D.sin (turn n)))
  pub sin-add :
      (m n : ℕ)
      → D.sin (turn (m + n))
        ≡ D.add (D.mul (D.sin (turn m)) (D.cos (turn n))) (D.mul (D.cos (turn m)) (D.sin (turn n)))
  pub cos-zero : D.cos (turn 0) ≡ D.of_ℕ 1
  pub sin-zero : D.sin (turn 0) ≡ D.of_ℕ 0
  pub cos_half : (h : ℕ) → h * 2 ≡ size_n → D.cos (turn h) ≡ D.neg (D.of_ℕ 1)
  pub sin_half : (h : ℕ) → h * 2 ≡ size_n → D.sin (turn h) ≡ D.of_ℕ 0

module _ (D : Double) (size_n : ℕ) {turn : ℕ → D.R} (e : Exact D size_n turn) where
  open D use {R, of_ℕ, add, sub, mul, neg}

  pub add-zero : (a : R) → add a (of_ℕ 0) ≡ a
  add-zero a = e.add_comm a (of_ℕ 0) ∙ e.zero-add a

  -- What is added to give zero is the negative.
  eq-neg : (a b : R) → add a b ≡ of_ℕ 0 → b ≡ neg a
  eq-neg a b h =
      sym (e.zero-add b)
      ∙ ap (λ x. add x b) (sym (e.add_comm (neg a) a ∙ e.add-neg a))
      ∙ e.add_assoc (neg a) a b
      ∙ ap (add (neg a)) h
      ∙ add-zero (neg a)

  pub mul-zero : (a : R) → mul a (of_ℕ 0) ≡ of_ℕ 0
  mul-zero a =
      let z = mul a (of_ℕ 0) in
      let twice : add z z ≡ z =
        sym (e.mul-add a (of_ℕ 0) (of_ℕ 0)) ∙ ap (mul a) (e.zero-add (of_ℕ 0)) in
      sym (add-zero z)
      ∙ ap (add z) (sym (e.add-neg z))
      ∙ sym (e.add_assoc z z (neg z))
      ∙ ap (λ x. add x (neg z)) twice
      ∙ e.add-neg z

  pub mul-neg : (a b : R) → mul a (neg b) ≡ neg (mul a b)
  mul-neg a b =
      eq-neg (mul a b) (mul a (neg b))
        (sym (e.mul-add a b (neg b)) ∙ ap (mul a) (e.add-neg b) ∙ mul-zero a)

  pub neg-mul : (a b : R) → mul (neg a) b ≡ neg (mul a b)
  neg-mul a b = e.mul_comm (neg a) b ∙ mul-neg b a ∙ ap neg (e.mul_comm b a)

  pub neg-neg : (a : R) → neg (neg a) ≡ a
  neg-neg a = sym (eq-neg (neg a) a (e.add_comm (neg a) a ∙ e.add-neg a))

  pub neg-zero : neg (of_ℕ 0) ≡ of_ℕ 0
  neg-zero = sym (eq-neg (of_ℕ 0) (of_ℕ 0) (e.zero-add (of_ℕ 0)))

  -- The inner two of four change places.
  pub add_swap : (a b c d : R) → add (add a b) (add c d) ≡ add (add a c) (add b d)
  add_swap a b c d =
      e.add_assoc a b (add c d)
      ∙ ap (add a)
          (sym (e.add_assoc b c d) ∙ ap (λ x. add x d) (e.add_comm b c) ∙ e.add_assoc c b d)
      ∙ sym (e.add_assoc a c (add b d))

  pub neg-add : (a b : R) → neg (add a b) ≡ add (neg a) (neg b)
  neg-add a b = sym (
      eq-neg (add a b) (add (neg a) (neg b))
        (add_swap a b (neg a) (neg b) ∙ ap₂ add (e.add-neg a) (e.add-neg b) ∙ e.zero-add (of_ℕ 0)))

  pub add-mul : (a b c : R) → mul (add a b) c ≡ add (mul a c) (mul b c)
  add-mul a b c =
      e.mul_comm (add a b) c ∙ e.mul-add c a b ∙ ap₂ add (e.mul_comm c a) (e.mul_comm c b)

  pub mul-sub : (a b c : R) → mul a (sub b c) ≡ sub (mul a b) (mul a c)
  mul-sub a b c =
      ap (mul a) (e.sub-add-neg b c)
      ∙ e.mul-add a b (neg c)
      ∙ ap (add (mul a b)) (mul-neg a c)
      ∙ sym (e.sub-add-neg (mul a b) (mul a c))

  pub sub_swap : (a b c d : R) → sub (add a b) (add c d) ≡ add (sub a c) (sub b d)
  sub_swap a b c d =
      e.sub-add-neg (add a b) (add c d)
      ∙ ap (add (add a b)) (neg-add c d)
      ∙ add_swap a b (neg c) (neg d)
      ∙ ap₂ add (sym (e.sub-add-neg a c)) (sym (e.sub-add-neg b d))

  pub mul_left_comm : (a b c : R) → mul a (mul b c) ≡ mul b (mul a c)
  mul_left_comm a b c =
      sym (e.mul_assoc a b c) ∙ ap (λ x. mul x c) (e.mul_comm a b) ∙ e.mul_assoc b a c

  pub sub-mul : (a b c : R) → mul (sub a b) c ≡ sub (mul a c) (mul b c)
  sub-mul a b c = e.mul_comm (sub a b) c ∙ mul-sub c a b ∙ ap₂ sub (e.mul_comm c a) (e.mul_comm c b)

  pub sub_sub_swap : (a b c d : R) → sub (sub a b) (add c d) ≡ sub (sub a c) (add d b)
  sub_sub_swap a b c d =
      e.sub-add-neg (sub a b) (add c d)
      ∙ ap₂ add (e.sub-add-neg a b) (neg-add c d)
      ∙ add_swap a (neg b) (neg c) (neg d)
      ∙ ap₂ add (sym (e.sub-add-neg a c)) (e.add_comm (neg b) (neg d) ∙ sym (neg-add d b))
      ∙ sym (e.sub-add-neg (sub a c) (add d b))

  pub sub_add_swap : (a b c d : R) → add (sub a b) (add c d) ≡ add (add a c) (sub d b)
  sub_add_swap a b c d =
      ap (λ x. add x (add c d)) (e.sub-add-neg a b)
      ∙ add_swap a (neg b) c d
      ∙ ap (add (add a c)) (e.add_comm (neg b) d ∙ sym (e.sub-add-neg d b))

  pub zero-mul : (a : R) → mul (of_ℕ 0) a ≡ of_ℕ 0
  zero-mul a = e.mul_comm (of_ℕ 0) a ∙ mul-zero a

  pub sub-zero : (a : R) → sub a (of_ℕ 0) ≡ a
  sub-zero a = e.sub-add-neg a (of_ℕ 0) ∙ ap (add a) neg-zero ∙ add-zero a
