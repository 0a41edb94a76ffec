-- ===== src/SerialFft/Literals.antt =====
-- The literals of the tables of fft.c against the formulas for half an angle.
use sql_code.Common.{
  ℕ, zero, suc, ◌+◌, ◌*◌, ◌≡◌, ◌<◌, ◌≤◌, refl, arith, Bool, true, false, ◌&&◌, leb, ltb, get_or,
  Bool-cases, inl, inr, subst,
}
use sql_code.SerialFft.{sin_literals, cos_literals}

-- The entries for the angle π / 2 ^ (k + 1), in millionths.
abbrev pub sine : ℕ → ℕ
sine k = get_or sin_literals (k + 1) 0

abbrev pub cosine : ℕ → ℕ
cosine k = get_or cos_literals k 0

abbrev within : ℕ → ℕ → ℕ → Bool
within slack a b = leb a (b + slack) && leb b (a + slack)

-- Two numbers differ by no more than this.
abbrev pub Within : ℕ → ℕ → ℕ → Type 0
Within slack a b = (a ≤ b + slack) × (b ≤ a + slack)

-- The entries for half an angle and for the angle meet the formulas cos (2a) = 2 cos² a - 1 and
-- sin (2a) = 2 sin a cos a, up to 2.1 and 1.2 millionths.
abbrev pub HalfAngle : ℕ → Type 0
HalfAngle k =
    Within 2100000 (2 * (cosine (suc k) * cosine (suc k))) (1000000000000 + 1000000 * cosine k)
    × Within 1200000 (2 * (sine (suc k) * cosine (suc k))) (1000000 * sine k)

both : (a b : Bool) → (a && b) ≡ true → (a ≡ true) × (b ≡ true)
both true b h = (refl, h)
both false b h = absurd (ground arith)

abbrev half_angle : ℕ → Bool
half_angle k =
    within 2100000 (2 * (cosine (suc k) * cosine (suc k))) (1000000000000 + 1000000 * cosine k)
    && within 1200000 (2 * (sine (suc k) * cosine (suc k))) (1000000 * sine k)

abbrev all_below : (ℕ → Bool) → ℕ → Bool
all_below test zero = true
all_below test (suc n) = all_below test n && test n

all_below-at : (test : ℕ → Bool) (n k : ℕ) → all_below test n ≡ true → k < n → test k ≡ true
all_below-at test zero k all lt = absurd (omega arith)
all_below-at test (suc n) k all lt = elim (Bool-cases (ltb k n)) [
  | inl before ↦ all_below-at test n k (both _ _ all).0 (ground arith)
  | inr last ↦ (let here : n ≡ k = ground arith in subst (λ i. test i ≡ true) here (both _ _ all).1)
]

within-Within : (slack a b : ℕ) → within slack a b ≡ true → Within slack a b
within-Within slack a b h = (ground arith, ground arith)

half_angle-HalfAngle : (k : ℕ) → half_angle k ≡ true → HalfAngle k
half_angle-HalfAngle k h = (within-Within _ _ _ (both _ _ h).0, within-Within _ _ _ (both _ _ h).1)

-- The entries of both tables for a quarter of a turn are 0 and 1, and from there to the last entry,
-- each entry meets the formulas for half an angle with the one before it, up to 2.1 millionths for
-- the cosine and 1.2 for the sine.
pub literals-HalfAngle : (sine 0 ≡ 1000000) × (cosine 0 ≡ 0) × ((k : ℕ) → k < 19 → HalfAngle k)
literals-HalfAngle =
    (refl, refl, λ k lt. half_angle-HalfAngle k (all_below-at half_angle 19 k refl lt))
