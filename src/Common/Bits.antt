-- ===== src/Common/Bits.antt =====
-- The binary digits of native numbers, and the operations on them.
use Prim.Native.Nat.{
  ℕ, zero, suc, ◌+◌, ◌*◌, ◌/◌, ◌%◌, ◌^◌, ◌≤◌, ◌<◌, min, max, bit_and, bit_or, digits, bitwise,
  bit_and-bitwise, bit_or-bitwise,
}
use mathlib.Core.Path.{◌≡◌, refl, sym, ap, ap₂, ◌∙◌}
use native.Mathlib.Omega.{arith}
use native.Mathlib.Nat.{div-div-eq-div-mul, two-pow-succ, pow-succ'}

-- What holds of every operation that goes through the digits.
module _ (z : ℕ → ℕ) (f : ℕ → ℕ → ℕ) (ends : (b : ℕ) → z b ≡ z (b / 2) * 2 + f 0 (b % 2)) where
  digits_enough : (n m a b : ℕ) → a ≤ n → a ≤ m → digits z f n a b ≡ digits z f m a b
  digits_enough zero zero a b p q = refl
  digits_enough zero (suc m) zero b p q = refl
  digits_enough (suc n) zero zero b p q = refl
  digits_enough (suc n) (suc m) zero b p q = refl
  digits_enough zero m (suc a) b p q = absurd (omega arith)
  digits_enough (suc n) zero (suc a) b p q = absurd (omega arith)
  digits_enough (suc n) (suc m) (suc a) b p q =
      ap (λ d. d * 2 + f (suc a % 2) (b % 2))
        (digits_enough n m (suc a / 2) (b / 2) (omega arith) (omega arith))

  bitwise_lowest : (a b : ℕ) → bitwise z f a b ≡ bitwise z f (a / 2) (b / 2) * 2 + f (a % 2) (b % 2)
  bitwise_lowest zero b = ends b
  bitwise_lowest (suc a) b =
      ap (λ d. d * 2 + f (suc a % 2) (b % 2))
        (digits_enough a (suc a / 2) (suc a / 2) (b / 2) (omega arith) (omega arith))

pub bit_and_lowest : (a b : ℕ) → bit_and a b ≡ bit_and (a / 2) (b / 2) * 2 + min (a % 2) (b % 2)
bit_and_lowest a b =
    bit_and-bitwise a b
    ∙ bitwise_lowest (λ d. 0) min (λ d. omega arith) a b
    ∙ ap (λ d. d * 2 + min (a % 2) (b % 2)) (sym (bit_and-bitwise (a / 2) (b / 2)))

pub bit_or_lowest : (a b : ℕ) → bit_or a b ≡ bit_or (a / 2) (b / 2) * 2 + max (a % 2) (b % 2)
bit_or_lowest a b =
    bit_or-bitwise a b
    ∙ bitwise_lowest (λ d. d) max (λ d. omega arith) a b
    ∙ ap (λ d. d * 2 + max (a % 2) (b % 2)) (sym (bit_or-bitwise (a / 2) (b / 2)))

-- The digit with the value 2 ^ i.
abbrev pub digit : ℕ → ℕ → ℕ
digit x i = x / 2 ^ i % 2

pub digit-suc : (x i : ℕ) → digit x (suc i) ≡ digit (x / 2) i
digit-suc x i =
    ap (λ y. y % 2) (ap (λ p. x / p) (pow-succ' 2 i) ∙ sym (div-div-eq-div-mul x 2 (2 ^ i)))

pub digit-bit_or : (i a b : ℕ) → digit (bit_or a b) i ≡ max (digit a i) (digit b i)
digit-bit_or zero a b = omega (arith, bit_or_lowest a b)
digit-bit_or (suc i) a b =
    let half : bit_or a b / 2 ≡ bit_or (a / 2) (b / 2) = omega (arith, bit_or_lowest a b) in
    digit-suc (bit_or a b) i
    ∙ ap (λ y. digit y i) half
    ∙ digit-bit_or i (a / 2) (b / 2)
    ∙ sym (ap₂ max (digit-suc a i) (digit-suc b i))

pub digit-shift : (x s i : ℕ) → digit (x / 2 ^ s) i ≡ digit x (s + i)
digit-shift x zero i =
    ap₂ (λ y j. y / 2 ^ j % 2) (let same : x / 1 ≡ x = omega arith in same) (omega arith)
digit-shift x (suc s) i =
    let next : suc s + i ≡ suc (s + i) = omega arith in
    ap (λ y. digit y i) (ap (λ p. x / p) (pow-succ' 2 s) ∙ sym (div-div-eq-div-mul x 2 (2 ^ s)))
    ∙ digit-shift (x / 2) s i
    ∙ sym (digit-suc x (s + i))
    ∙ ap (digit x) (sym next)

-- Numbers of `w` digits stay such.
pub bit_or-lt : (w a b : ℕ) → a < 2 ^ w → b < 2 ^ w → bit_or a b < 2 ^ w
bit_or-lt zero a b p q =
    let none : bit_or a b ≡ 0 =
      ap₂ bit_or (let first : a ≡ 0 = omega arith in first)
        (let second : b ≡ 0 = omega arith in second) in
    omega (arith, none)
bit_or-lt (suc w) a b p q = omega (
  arith,
  two-pow-succ w,
  bit_or_lowest a b,
  bit_or-lt w (a / 2) (b / 2) (omega (arith, two-pow-succ w)) (omega (arith, two-pow-succ w)),
)

bit_and_self_below : (n a : ℕ) → a ≤ n → bit_and a a ≡ a
bit_and_self_below n zero h = refl
bit_and_self_below zero (suc a) h = absurd (omega arith)
bit_and_self_below (suc n) (suc a) h =
    omega (arith, bit_and_lowest (suc a) (suc a), bit_and_self_below n (suc a / 2) (omega arith))

pub bit_and_self : (a : ℕ) → bit_and a a ≡ a
bit_and_self a = bit_and_self_below a a (omega arith)

bit_and-le_below : (n a b : ℕ) → a ≤ n → bit_and a b ≤ a
bit_and-le_below n zero b h = omega (arith, bit_and-bitwise 0 b)
bit_and-le_below zero (suc a) b h = absurd (omega arith)
bit_and-le_below (suc n) (suc a) b h =
    omega (arith, bit_and_lowest (suc a) b, bit_and-le_below n (suc a / 2) (b / 2) (omega arith))

pub bit_and-le : (a b : ℕ) → bit_and a b ≤ a
bit_and-le a b = bit_and-le_below a a b (omega arith)
