-- ===== src/SerialFft/Carry.antt =====
-- Counting in the order of the reversed bits.
use native.Mathlib.Nat.{two-pow-succ, one-le-pow}
use sql_code.Common.{
  ℕ, zero, suc, ◌+◌, ◌-◌, ◌*◌, ◌/◌, ◌%◌, ◌^◌, ◌≡◌, ◌<◌, refl, sym, ap, ap₂, ◌∙◌, arith, leb, ◌==◌,
  true, false, Bool-cases, inl, inr,
}
use sql_code.Fourier.Order.{
  reverse_bits, reverse_bits-lt, reverse_bits_even, reverse_bits_odd, reverse_bits_zero,
}
use sql_code.SerialFft.{carried}

-- The carry that runs down from the highest bit counts in the order of the reversed bits.
pub carried-reverse_bits :
    (m fuel i : ℕ)
    → m < fuel
    → suc i < 2 ^ suc m
    → carried fuel (2 ^ m) (reverse_bits (suc m) i) ≡ reverse_bits (suc m) (suc i)
unfolding carried
carried-reverse_bits m zero i enough less = absurd (omega arith)
carried-reverse_bits zero (suc fuel) i enough less =
    let zero_bit : reverse_bits 1 i ≡ 0 =
      ap (reverse_bits 1) (let e : i ≡ 0 * 2 = omega arith in e)
      ∙ reverse_bits_even 0 0 (omega arith)
      ∙ reverse_bits_zero 0 in
    let one_bit : reverse_bits 1 (suc i) ≡ 1 =
      ap (reverse_bits 1) (let e : suc i ≡ 0 * 2 + 1 = omega arith in e)
      ∙ reverse_bits_odd 0 0 (omega arith)
      ∙ omega (arith, reverse_bits_zero 0) in
    rw (zero_bit, one_bit) refl
carried-reverse_bits (suc m) (suc fuel) i enough less = elim (Bool-cases (i % 2 == 0)) [
  | inl even ↦
      let q = i / 2 in
      let less_half : q < 2 ^ suc m = ground (arith, two-pow-succ (suc m)) in
      let now : reverse_bits (suc (suc m)) i ≡ reverse_bits (suc m) q =
        ap (reverse_bits (suc (suc m))) (let e : i ≡ q * 2 = ground arith in e)
        ∙ reverse_bits_even (suc m) q less_half in
      let next : reverse_bits (suc (suc m)) (suc i) ≡ 2 ^ suc m + reverse_bits (suc m) q =
        ap (reverse_bits (suc (suc m))) (let e : suc i ≡ q * 2 + 1 = ground arith in e)
        ∙ reverse_bits_odd (suc m) q less_half in
      let stops : leb (2 ^ suc m) (reverse_bits (suc (suc m)) i) ≡ false =
        ground (arith, now, reverse_bits-lt (suc m) q less_half) in
      rw stops (omega (arith, now, next))
  | inr odd ↦
      let q = i / 2 in
      let less_half : suc q < 2 ^ suc m = ground (arith, two-pow-succ (suc m)) in
      let now : reverse_bits (suc (suc m)) i ≡ 2 ^ suc m + reverse_bits (suc m) q =
        ap (reverse_bits (suc (suc m))) (let e : i ≡ q * 2 + 1 = ground arith in e)
        ∙ reverse_bits_odd (suc m) q (omega arith) in
      let next : reverse_bits (suc (suc m)) (suc i) ≡ reverse_bits (suc m) (suc q) =
        ap (reverse_bits (suc (suc m))) (let e : suc i ≡ suc q * 2 = ground arith in e)
        ∙ reverse_bits_even (suc m) (suc q) less_half in
      let goes_on : leb (2 ^ suc m) (reverse_bits (suc (suc m)) i) ≡ true = ground (arith, now) in
      let half : 2 ^ suc m / 2 ≡ 2 ^ m = omega (arith, two-pow-succ m) in
      let rest : reverse_bits (suc (suc m)) i - 2 ^ suc m ≡ reverse_bits (suc m) q =
        omega (arith, now) in
      rw goes_on (
        ap₂ (carried fuel) half rest
        ∙ carried-reverse_bits m fuel q (omega arith) less_half
        ∙ sym next)
]

pub reverse_bits-zero : (k : ℕ) → reverse_bits k 0 ≡ 0
reverse_bits-zero zero = reverse_bits_zero 0
reverse_bits-zero (suc k) =
    ap (reverse_bits (suc k)) (let e : 0 ≡ 0 * 2 = omega arith in e)
    ∙ reverse_bits_even k 0 (one-le-pow k 2 (omega arith))
    ∙ reverse_bits-zero k
