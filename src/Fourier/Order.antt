-- ===== src/Fourier/Order.antt =====
-- The bit reversal of the numbers below a power of two.
use native.Mathlib.Nat.{two-pow-succ}
use sql_code.Common.{
  ℕ, zero, suc, ◌+◌, ◌-◌, ◌*◌, ◌^◌, ◌≡◌, ◌<◌, refl, sym, ap, ◌∙◌, arith, ltb, if◌then◌else◌,
  Bool-cases, inl, inr, false,
}

-- Reverses the lowest `k` bits of `i`: the highest of them becomes the lowest.
unfoldable pub reverse_bits : ℕ → ℕ → ℕ
reverse_bits zero i = 0
reverse_bits (suc k) i =
    let low = reverse_bits k i in
    let high = reverse_bits k (i - 2 ^ k) in if ltb i (2 ^ k) then low * 2 else high * 2 + 1

pub reverse_bits_low : (k i : ℕ) → i < 2 ^ k → reverse_bits (suc k) i ≡ reverse_bits k i * 2
unfolding reverse_bits
reverse_bits_low k i h = ground arith

pub reverse_bits_high : (k i : ℕ) → reverse_bits (suc k) (2 ^ k + i) ≡ reverse_bits k i * 2 + 1
unfolding reverse_bits
reverse_bits_high k i =
    let back : 2 ^ k + i - 2 ^ k ≡ i = omega arith in
    let above : ltb (2 ^ k + i) (2 ^ k) ≡ false = ground arith in rw (above, back) refl

pub reverse_bits-lt : (k i : ℕ) → i < 2 ^ k → reverse_bits k i < 2 ^ k
unfolding reverse_bits
reverse_bits-lt zero i h = omega arith
reverse_bits-lt (suc k) i h =
    ground (arith, two-pow-succ k, reverse_bits-lt k i, reverse_bits-lt k (i - 2 ^ k))

-- The other end: the lowest bit becomes the highest.
reverse_bits_two : (reverse_bits 1 0 ≡ 0) × (reverse_bits 1 1 ≡ 1)
unfolding reverse_bits
reverse_bits_two = (refl, refl)

pub reverse_bits_zero : (i : ℕ) → reverse_bits 0 i ≡ 0
unfolding reverse_bits
reverse_bits_zero i = refl

pub reverse_bits_even : (k i : ℕ) → i < 2 ^ k → reverse_bits (suc k) (i * 2) ≡ reverse_bits k i
reverse_bits_even zero i h =
    let none : i * 2 ≡ 0 = omega arith in
    ap (reverse_bits 1) none ∙ reverse_bits_two.0 ∙ sym (reverse_bits_zero i)
reverse_bits_even (suc k) i h = elim (Bool-cases (ltb i (2 ^ k))) [
  | inl low ↦
      let below : i < 2 ^ k = ground arith in
      omega (
        arith,
        two-pow-succ k,
        reverse_bits_low (suc k) (i * 2) (omega (arith, two-pow-succ k)),
        reverse_bits_even k i below,
        reverse_bits_low k i below,
      )
  | inr high ↦
      let j = i - 2 ^ k in
      let whole : i ≡ 2 ^ k + j = ground arith in
      let twice : i * 2 ≡ 2 ^ suc k + (j * 2) = omega (arith, two-pow-succ k) in
      omega (
        arith,
        two-pow-succ k,
        ap (reverse_bits (suc (suc k))) twice,
        reverse_bits_high (suc k) (j * 2),
        reverse_bits_even k j (omega (arith, two-pow-succ k)),
        ap (reverse_bits (suc k)) whole,
        reverse_bits_high k j,
      )
]

pub reverse_bits_odd :
    (k i : ℕ) → i < 2 ^ k → reverse_bits (suc k) (i * 2 + 1) ≡ 2 ^ k + reverse_bits k i
reverse_bits_odd zero i h =
    let one : i * 2 + 1 ≡ 1 = omega arith in
    omega (arith, ap (reverse_bits 1) one, reverse_bits_two.1, reverse_bits_zero i)
reverse_bits_odd (suc k) i h = elim (Bool-cases (ltb i (2 ^ k))) [
  | inl low ↦
      let below : i < 2 ^ k = ground arith in
      omega (
        arith,
        two-pow-succ k,
        reverse_bits_low (suc k) (i * 2 + 1) (omega (arith, two-pow-succ k)),
        reverse_bits_odd k i below,
        reverse_bits_low k i below,
      )
  | inr high ↦
      let j = i - 2 ^ k in
      let whole : i ≡ 2 ^ k + j = ground arith in
      let twice : i * 2 + 1 ≡ 2 ^ suc k + (j * 2 + 1) = omega (arith, two-pow-succ k) in
      omega (
        arith,
        two-pow-succ k,
        ap (reverse_bits (suc (suc k))) twice,
        reverse_bits_high (suc k) (j * 2 + 1),
        reverse_bits_odd k j (omega (arith, two-pow-succ k)),
        ap (reverse_bits (suc k)) whole,
        reverse_bits_high k j,
      )
]

-- Reversing the bits twice gives the number back.
pub reverse_bits_twice : (k i : ℕ) → i < 2 ^ k → reverse_bits k (reverse_bits k i) ≡ i
reverse_bits_twice zero i h = omega (arith, reverse_bits_zero (reverse_bits 0 i))
reverse_bits_twice (suc k) i h = elim (Bool-cases (ltb i (2 ^ k))) [
  | inl low ↦
      let below : i < 2 ^ k = ground arith in
      ap (reverse_bits (suc k)) (reverse_bits_low k i below)
      ∙ reverse_bits_even k _ (reverse_bits-lt k i below)
      ∙ reverse_bits_twice k i below
  | inr high ↦
      let rest : i - 2 ^ k < 2 ^ k = ground (arith, two-pow-succ k) in
      let whole : i ≡ 2 ^ k + (i - 2 ^ k) = ground arith in
      ap (reverse_bits (suc k)) (ap (reverse_bits (suc k)) whole ∙ reverse_bits_high k (i - 2 ^ k))
      ∙ reverse_bits_odd k _ (reverse_bits-lt k (i - 2 ^ k) rest)
      ∙ ap (λ j. 2 ^ k + j) (reverse_bits_twice k (i - 2 ^ k) rest)
      ∙ sym whole
]
