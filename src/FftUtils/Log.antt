-- ===== src/FftUtils/Log.antt =====
-- The count of ones and the logarithm of fft_utils.c.
use Prim.Native.Nat.{bit_and}
use native.Mathlib.Nat.{two-pow-succ, div-le_self, div-eq_of_lt, div-eq_of_lt-le, pow-le-pow_right}
use sql_code.Common.{
  ℕ, zero, suc, ◌+◌, ◌-◌, ◌*◌, ◌/◌, ◌%◌, ◌^◌, ◌≡◌, ◌<◌, ◌≤◌, refl, sym, ap, ap₂, ◌∙◌, arith, ◌==◌,
  ltb, Bool-cases, inl, inr, max, min, subst,
}
use sql_code.Common.Bits.{
  bit_and_lowest, bit_and_self, bit_and-le, bit_or-lt, digit, digit-suc, digit-bit_or, digit-shift,
}
use sql_code.FftUtils.{ones_32, smear, floor_log2_32}

-- The number of ones among the lowest `w` binary digits.
unfoldable pub popcount : ℕ → ℕ → ℕ
popcount zero x = 0
popcount (suc w) x = x % 2 + popcount w (x / 2)

popcount-zero : (w : ℕ) → popcount w 0 ≡ 0
unfolding popcount
popcount-zero zero = refl
popcount-zero (suc w) = omega (arith, popcount-zero w)

popcount-le : (w x : ℕ) → popcount w x ≤ w
unfolding popcount
popcount-le zero x = omega arith
popcount-le (suc w) x = omega (arith, popcount-le w (x / 2))

-- `n & (n - 1)` is n without its lowest one.
lowest_cleared : (w x : ℕ) → 0 < x → x < 2 ^ w → popcount w x ≡ suc (popcount w (bit_and x (x - 1)))
unfolding popcount
lowest_cleared zero x some less = absurd (omega arith)
lowest_cleared (suc w) x some less = elim (Bool-cases (x % 2 == 0)) [
  | inl even ↦
      let half : (x - 1) / 2 ≡ x / 2 - 1 = ground arith in
      let cleared : bit_and x (x - 1) ≡ bit_and (x / 2) (x / 2 - 1) * 2 =
        bit_and_lowest x (x - 1)
        ∙ ap₂ (λ y m. bit_and (x / 2) y * 2 + m) half
            (let clear : min (x % 2) ((x - 1) % 2) ≡ 0 = ground arith in clear)
        ∙ omega arith in
      let rest : bit_and x (x - 1) / 2 ≡ bit_and (x / 2) (x / 2 - 1) = omega (arith, cleared) in
      let below = lowest_cleared w (x / 2) (ground arith) (omega (arith, two-pow-succ w)) in
      ground (arith, below, cleared, ap (popcount w) rest)
  | inr odd ↦
      let half : (x - 1) / 2 ≡ x / 2 = ground arith in
      let cleared : bit_and x (x - 1) ≡ x / 2 * 2 =
        bit_and_lowest x (x - 1)
        ∙ ap₂ (λ y m. bit_and (x / 2) y * 2 + m) half
            (let clear : min (x % 2) ((x - 1) % 2) ≡ 0 = ground arith in clear)
        ∙ omega (arith, bit_and_self (x / 2)) in
      let rest : bit_and x (x - 1) / 2 ≡ x / 2 = omega (arith, cleared) in
      ground (arith, cleared, ap (popcount w) rest)
]

ones_32-enough : (fuel w x : ℕ) → popcount w x < fuel → x < 2 ^ w → ones_32 fuel x ≡ popcount w x
unfolding ones_32
ones_32-enough zero w x enough less = absurd (omega arith)
ones_32-enough (suc fuel) w x enough less = elim (Bool-cases (x == 0)) [
  | inl none ↦
      rw none (ground (arith, popcount-zero w, ap (popcount w) (let e : x ≡ 0 = ground arith in e)))
  | inr some ↦
      let cleared = lowest_cleared w x (ground arith) less in
      rw some (
        ap suc (
          ones_32-enough fuel w (bit_and x (x - 1)) (omega (arith, cleared))
            (omega (arith, bit_and-le x (x - 1))))
        ∙ sym cleared)
]

-- On a number of `w` binary digits `ones_32` ends, with fuel above `w`, and gives how many are 1.
pub ones_32-popcount : (fuel w x : ℕ) → w < fuel → x < 2 ^ w → ones_32 fuel x ≡ popcount w x
ones_32-popcount fuel w x enough less =
    ones_32-enough fuel w x (omega (arith, popcount-le w x)) less

-- The digits from `lowest` up to `r` are 1, and those above `r` are 0.
record TopOnes (r j x : ℕ) : Type 0 where
  ones : (i : ℕ) → i ≤ r → r < i + j → digit x i ≡ 1
  zeros : (i : ℕ) → r < i → digit x i ≡ 0

-- A shift by the number of the ones that there are doubles it.
smear-TopOnes : (r j x : ℕ) → TopOnes r j x → TopOnes r (j + j) (smear j x)
unfolding smear
smear-TopOnes r j x top = record {
  ones = λ i le lt.
      digit-bit_or i x (x / 2 ^ j)
      ∙ ap (max (digit x i)) (digit-shift x j i)
      ∙ elim (Bool-cases (ltb r (i + j))) [
        | inl there ↦ omega (arith, top.ones i le (ground arith))
        | inr above ↦ omega (arith, top.ones (j + i) (ground arith) (omega arith))
      ];
  zeros = λ i lt.
      digit-bit_or i x (x / 2 ^ j)
      ∙ ap₂ max (top.zeros i lt) (digit-shift x j i ∙ top.zeros (j + i) (omega arith));
}

module _ (r x : ℕ) (low : 2 ^ r ≤ x) (high : x < 2 ^ suc r) where
  top_digit : digit x r ≡ 1
  top_digit =
      let one : x / 2 ^ r ≡ 1 =
        div-eq_of_lt-le (2 ^ r) (omega arith) (omega (arith, two-pow-succ r)) in
      omega (arith, one)

  above_top : (i : ℕ) → r < i → digit x i ≡ 0
  above_top i lt =
      ap (λ y. y % 2)
        (div-eq_of_lt (
          let le : 2 ^ suc r ≤ 2 ^ i = pow-le-pow_right (omega arith) (omega arith) in
          omega (arith, le)))

  start-TopOnes : TopOnes r 1 x
  start-TopOnes = record {
    ones = λ i le lt. (let here : i ≡ r = omega arith in ap (digit x) here ∙ top_digit);
    zeros = above_top;
  }

smear-lt : (w j x : ℕ) → x < 2 ^ w → smear j x < 2 ^ w
unfolding smear
smear-lt w j x h = bit_or-lt w x (x / 2 ^ j) h (omega (arith, div-le_self x (2 ^ j)))

within : (r x : ℕ) → r < 32 → x < 2 ^ suc r → x < 2 ^ 32
within r x small high =
    (let le : 2 ^ suc r ≤ 2 ^ 32 = pow-le-pow_right (omega arith) {j = 32} (omega arith) in
      omega (arith, le))

-- The ones among digits of which the lowest `r` are 1.
popcount_ones :
    (w r y : ℕ)
    → r ≤ w
    → ((i : ℕ) → i < r → digit y i ≡ 1)
    → ((i : ℕ) → r ≤ i → digit y i ≡ 0)
    → popcount w y ≡ r
unfolding popcount
popcount_ones zero r y h ones zeros = omega arith
popcount_ones (suc w) zero y h ones zeros = omega (
  arith,
  zeros 0 (omega arith),
  popcount_ones w 0 (y / 2) (omega arith) (λ i lt. absurd (omega arith))
      (λ i le. sym (digit-suc y i) ∙ zeros (suc i) (omega arith)),
)
popcount_ones (suc w) (suc r) y h ones zeros = omega (
  arith,
  ones 0 (omega arith),
  popcount_ones w r (y / 2) (omega arith) (λ i lt. sym (digit-suc y i) ∙ ones (suc i) (omega arith))
      (λ i le. sym (digit-suc y i) ∙ zeros (suc i) (omega arith)),
)

pub floor_log2_32_lem :
    (fuel r x : ℕ) → r < 32 → 32 < fuel → 2 ^ r ≤ x → x < 2 ^ suc r → floor_log2_32 fuel x ≡ r
unfolding floor_log2_32
floor_log2_32_lem fuel r x small enough low high =
    let x1 = smear 1 x in
    let x2 = smear 2 x1 in
    let x4 = smear 4 x2 in
    let x8 = smear 8 x4 in
    let top = smear-TopOnes r 16 x8 (
      smear-TopOnes r 8 x4 (
        smear-TopOnes r 4 x2
          (smear-TopOnes r 2 x1 (smear-TopOnes r 1 x (start-TopOnes r x low high))))) in
    let word : smear 16 x8 < 2 ^ 32 = smear-lt 32 16 x8 (
      smear-lt 32 8 x4
        (smear-lt 32 4 x2 (smear-lt 32 2 x1 (smear-lt 32 1 x (within r x small high))))) in
    let halved : (i : ℕ) → digit (smear 16 x8 / 2) i ≡ digit (smear 16 x8) (suc i) =
      λ i. sym (digit-suc (smear 16 x8) i) in
    ones_32-popcount fuel 32 (smear 16 x8 / 2) enough (omega (arith, word))
    ∙ popcount_ones 32 r (smear 16 x8 / 2) (omega arith)
        (λ i lt. halved i ∙ top.ones (suc i) (omega arith) (omega arith))
        (λ i le. halved i ∙ top.zeros (suc i) (omega arith))

-- Every number below 2 ^ w but 0 has a highest digit.
highest : (w x : ℕ) → 0 < x → x < 2 ^ w → (r : ℕ) × (r < w) × (2 ^ r ≤ x) × (x < 2 ^ suc r)
highest zero x some less = absurd (omega arith)
highest (suc w) x some less = elim (Bool-cases (ltb x (2 ^ w))) [
  | inl low ↦ let (r, below, le, lt) = highest w x some (ground arith) in (r, omega arith, le, lt)
  | inr high ↦ (w, omega arith, ground arith, less)
]

-- On a `uint32_t` other than 0 `floor_log2_32` ends, with fuel above 32, and gives the logarithm: the
-- power of 2 with it as exponent is at most the number, and the next power is above it.
pub floor_log2_32-pow :
    (fuel x : ℕ)
    → 32 < fuel
    → 0 < x
    → x < 2 ^ 32
    → (2 ^ floor_log2_32 fuel x ≤ x) × (x < 2 ^ suc (floor_log2_32 fuel x))
floor_log2_32-pow fuel x enough some less =
    let (r, below, low, high) = highest 32 x some less in
    let same = floor_log2_32_lem fuel r x below enough low high in
    (subst (λ s. 2 ^ s ≤ x) (sym same) low, subst (λ s. x < 2 ^ suc s) (sym same) high)
