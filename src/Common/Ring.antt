-- ===== src/Common/Ring.antt =====
-- The signed integers are a commutative ring.
use Prim.Native.Nat.{ℕ, ◌+◌, ◌*◌}
use mathlib.Core.Path.{◌≡◌, ap}
use native.Mathlib.Omega.{arith}
use sql_code.Common.Int.{
  ℤ, pos, pos_part, neg_part, ◌+ℤ◌, ◌-ℤ◌, ◌*ℤ◌, +ℤ_parts, -ℤ_parts, eq_of_parts,
}

pub *ℤ_parts :
    (a b : ℤ)
    → pos_part (a *ℤ b) + (pos_part a * neg_part b + neg_part a * pos_part b)
      ≡ neg_part (a *ℤ b) + (pos_part a * pos_part b + neg_part a * neg_part b)
unfolding ◌*ℤ◌
*ℤ_parts a b = ground arith

pub +ℤ_comm : (a b : ℤ) → a +ℤ b ≡ b +ℤ a
+ℤ_comm a b = eq_of_parts (a +ℤ b) (b +ℤ a) (omega (arith, +ℤ_parts a b, +ℤ_parts b a))

pub +ℤ_assoc : (a b c : ℤ) → a +ℤ b +ℤ c ≡ a +ℤ (b +ℤ c)
+ℤ_assoc a b c =
    eq_of_parts (a +ℤ b +ℤ c) (a +ℤ (b +ℤ c))
      (omega (arith, +ℤ_parts (a +ℤ b) c, +ℤ_parts a b, +ℤ_parts a (b +ℤ c), +ℤ_parts b c))

pub *ℤ_comm : (a b : ℤ) → a *ℤ b ≡ b *ℤ a
*ℤ_comm a b = eq_of_parts (a *ℤ b) (b *ℤ a) (omega (arith, *ℤ_parts a b, *ℤ_parts b a))

pub *ℤ-+ℤ : (a b c : ℤ) → a *ℤ (b +ℤ c) ≡ a *ℤ b +ℤ a *ℤ c
*ℤ-+ℤ a b c = eq_of_parts (a *ℤ (b +ℤ c)) (a *ℤ b +ℤ a *ℤ c) (
    omega (
      arith,
      *ℤ_parts a (b +ℤ c),
      +ℤ_parts (a *ℤ b) (a *ℤ c),
      *ℤ_parts a b,
      *ℤ_parts a c,
      ap (λ t. pos_part a * t) (+ℤ_parts b c),
      ap (λ t. neg_part a * t) (+ℤ_parts b c),
    ))

pub *ℤ_assoc : (a b c : ℤ) → a *ℤ b *ℤ c ≡ a *ℤ (b *ℤ c)
*ℤ_assoc a b c = eq_of_parts (a *ℤ b *ℤ c) (a *ℤ (b *ℤ c)) (
    omega (
      arith,
      *ℤ_parts (a *ℤ b) c,
      *ℤ_parts a (b *ℤ c),
      ap (λ t. t * pos_part c) (*ℤ_parts a b),
      ap (λ t. t * neg_part c) (*ℤ_parts a b),
      ap (λ t. pos_part a * t) (*ℤ_parts b c),
      ap (λ t. neg_part a * t) (*ℤ_parts b c),
    ))

pub zero-+ℤ : (a : ℤ) → pos 0 +ℤ a ≡ a
zero-+ℤ a = eq_of_parts (pos 0 +ℤ a) a (omega (arith, +ℤ_parts (pos 0) a))

pub +ℤ-negate : (a : ℤ) → a +ℤ (pos 0 -ℤ a) ≡ pos 0
+ℤ-negate a =
    eq_of_parts (a +ℤ (pos 0 -ℤ a)) (pos 0)
      (omega (arith, +ℤ_parts a (pos 0 -ℤ a), -ℤ_parts (pos 0) a))

pub -ℤ_lem : (a b : ℤ) → a -ℤ b ≡ a +ℤ (pos 0 -ℤ b)
-ℤ_lem a b =
    eq_of_parts (a -ℤ b) (a +ℤ (pos 0 -ℤ b))
      (omega (arith, -ℤ_parts a b, +ℤ_parts a (pos 0 -ℤ b), -ℤ_parts (pos 0) b))

pub *ℤ-one : (a : ℤ) → a *ℤ pos 1 ≡ a
*ℤ-one a = eq_of_parts (a *ℤ pos 1) a (omega (arith, *ℤ_parts a (pos 1)))

pub pos-*ℤ : (m n : ℕ) → pos (m * n) ≡ pos m *ℤ pos n
pos-*ℤ m n = eq_of_parts (pos (m * n)) (pos m *ℤ pos n) (omega (arith, *ℤ_parts (pos m) (pos n)))

pub pos-+ℤ : (m n : ℕ) → pos (m + n) ≡ pos m +ℤ pos n
pos-+ℤ m n = eq_of_parts (pos (m + n)) (pos m +ℤ pos n) (omega (arith, +ℤ_parts (pos m) (pos n)))
