-- ===== src/ParallelFft/Step.antt =====
-- The array that `step` leaves.
use native.Mathlib.Nat.{mul-add-div_right, div-eq_of_lt, mul-add-mod_self_right, mod-eq_of_lt}
use Prim.{tt}
use sql_code.Common.{
  ℕ, zero, suc, ◌+◌, ◌-◌, ◌*◌, ◌/◌, ◌%◌, ltb, ◌≡◌, ◌<◌, refl, sym, ap, ap₂, ◌∙◌, arith, true, false,
  if◌then◌else◌, for_up, List, [], ◌∷◌, fun_ext,
}
use sql_code.Fourier.{Double, Complex}
use sql_code.ParallelFft.{Logarithm, wjw_real, wjw_imag, step_inner, step_iteration, step}
use sql_code.ParallelFft.Stores.{
  Store, stored, occurs, AllOf, stores_up, for_up-stored, stores_up-AllOf, occurs-stores_up,
  stored-AllOf,
}

-- An index `j * (2 * mj) + r` splits back.
module _ (mj j r : ℕ) (h : r < 2 * mj) where
  index-div : (j * (2 * mj) + r) / (2 * mj) ≡ j
  index-div = mul-add-div_right (omega arith) j r ∙ ap (λ q. j + q) (div-eq_of_lt h) ∙ omega arith

  index-mod : (j * (2 * mj) + r) % (2 * mj) ≡ r
  index-mod = mul-add-mod_self_right j (2 * mj) r ∙ mod-eq_of_lt h

module _ (D : Double) where
  open D use {R, add, sub, mul}

  -- Entry `i` of the vector of complex numbers at the index `o` of an array.
  abbrev pub entry : (ℕ → R) → ℕ → ℕ → Complex R
  entry x o i = record { real = x (o + (i * 2 + 0)); imagin = x (o + (i * 2 + 1)) }

  module _ (L : Logarithm D) (mj : ℕ) (from : ℕ → R) (b : ℕ) (w : ℕ → R) (sgn : R) where
    -- What an iteration stores: the sum of two entries,
    abbrev pub front : ℕ → ℕ → Complex R
    front j k = record {
      real = add (from (0 * 2 + 0 + ((j * mj + k) * 2 + 0))) (from (b + ((j * mj + k) * 2 + 0)));
      imagin = add (from (0 * 2 + 0 + ((j * mj + k) * 2 + 1))) (from (b + ((j * mj + k) * 2 + 1)));
    }

    abbrev pub difference : ℕ → ℕ → Complex R
    difference j k = record {
      real = sub (from (0 * 2 + 0 + ((j * mj + k) * 2 + 0))) (from (b + ((j * mj + k) * 2 + 0)));
      imagin = sub (from (0 * 2 + 0 + ((j * mj + k) * 2 + 1))) (from (b + ((j * mj + k) * 2 + 1)));
    }

    -- and their difference times a power of the root.
    abbrev pub back : ℕ → ℕ → Complex R
    back j k =
        let wjw_0 = wjw_real D L mj w j in
        let wjw_1 = wjw_imag D L mj w sgn j in
        let amb = difference j k in
        record {
          real = sub (mul wjw_0 amb.real) (mul wjw_1 amb.imagin);
          imagin = add (mul wjw_1 amb.real) (mul wjw_0 amb.imagin);
        }

    -- The stores of the inner loop at `k`, in the order of the code.
    abbrev pub inner_stores : ℕ → ℕ → List (Store R)
    inner_stores j k =
        record { at = 0 * 2 + 0 + ((j * (2 * mj) + k) * 2 + 0); value = (front j k).real }
        ∷ record { at = 0 * 2 + 0 + ((j * (2 * mj) + k) * 2 + 1); value = (front j k).imagin }
        ∷ record { at = mj * 2 + 0 + ((j * (2 * mj) + k) * 2 + 0); value = (back j k).real }
        ∷ record { at = mj * 2 + 0 + ((j * (2 * mj) + k) * 2 + 1); value = (back j k).imagin }
        ∷ []

    abbrev pub iteration_stores : ℕ → List (Store R)
    iteration_stores j = stores_up mj (inner_stores j)

    -- What stands at an index after `step`.
    abbrev component : ℕ → Complex R → R
    component zero z = z.real
    component (suc q) z = z.imagin

    abbrev entry_after : ℕ → ℕ → Complex R
    entry_after j r = if ltb r mj then front j r else back j (r - mj)

    abbrev pub after : ℕ → R
    after i = component (i % 2) (entry_after (i / 2 / (2 * mj)) (i / 2 % (2 * mj)))

    pub step-stored :
        (n : ℕ) (to : ℕ → R)
        → step D L n mj from (0 * 2 + 0) b to (0 * 2 + 0) (mj * 2 + 0) w sgn
          ≡ stored (stores_up (n / (2 * mj)) iteration_stores) to
    unfolding step step_iteration step_inner
    step-stored n to =
        ap (λ f. for_up (n / (2 * mj)) f to)
          (fun_ext (λ j. fun_ext (λ a. for_up-stored mj (inner_stores j) a)))
        ∙ for_up-stored (n / (2 * mj)) iteration_stores to

    module _ (j r : ℕ) (h : r < 2 * mj) where
      after_real : after ((j * (2 * mj) + r) * 2) ≡ (entry_after j r).real
      after_real =
          let half : (j * (2 * mj) + r) * 2 / 2 ≡ j * (2 * mj) + r = omega arith in
          let even : (j * (2 * mj) + r) * 2 % 2 ≡ 0 = omega arith in
          rw (even, half, index-div mj j r h, index-mod mj j r h) refl

      after_imag : after ((j * (2 * mj) + r) * 2 + 1) ≡ (entry_after j r).imagin
      after_imag =
          let half : ((j * (2 * mj) + r) * 2 + 1) / 2 ≡ j * (2 * mj) + r = omega arith in
          let odd : ((j * (2 * mj) + r) * 2 + 1) % 2 ≡ 1 = omega arith in
          rw (odd, half, index-div mj j r h, index-mod mj j r h) refl

    module _ (j k : ℕ) (h : k < mj) where
      entry-front : entry_after j k ≡ front j k
      entry-front = (let low : ltb k mj ≡ true = ground arith in rw low refl)

      entry-back : entry_after j (k + mj) ≡ back j k
      entry-back =
          (let high : ltb (k + mj) mj ≡ false = ground arith in
            let less : k + mj - mj ≡ k = omega arith in rw (high, less) refl)

      inner_stores-AllOf : AllOf after (inner_stores j k)
      inner_stores-AllOf =
          let low : k < 2 * mj = omega arith in
          let high : k + mj < 2 * mj = omega arith in
          (
            sym (ap after (omega arith) ∙ after_real j k low ∙ ap (λ z. z.real) entry-front),
            (
              sym (ap after (omega arith) ∙ after_imag j k low ∙ ap (λ z. z.imagin) entry-front),
              (
                sym (
                    ap after (omega arith)
                    ∙ after_real j (k + mj) high
                    ∙ ap (λ z. z.real) entry-back),
                (
                  sym (
                      ap after (omega arith)
                      ∙ after_imag j (k + mj) high
                      ∙ ap (λ z. z.imagin) entry-back),
                  tt,
                ),
              ),
            ),
          )

    pub iteration_stores-AllOf : (j : ℕ) → AllOf after (iteration_stores j)
    iteration_stores-AllOf j =
        stores_up-AllOf after mj (inner_stores j) (λ k h. inner_stores-AllOf j k h)

    module _ (n : ℕ) (to : ℕ → R) (j : ℕ) (hj : j < n / (2 * mj)) where
      pub at_iteration :
          (i : ℕ)
          → occurs i (iteration_stores j) ≡ true
          → step D L n mj from (0 * 2 + 0) b to (0 * 2 + 0) (mj * 2 + 0) w sgn i ≡ after i
      at_iteration i o =
          ap (λ f. f i) (step-stored n to)
          ∙ stored-AllOf (stores_up (n / (2 * mj)) iteration_stores) to after i
              (stores_up-AllOf after (n / (2 * mj)) iteration_stores
                (λ m h. iteration_stores-AllOf m))
              (occurs-stores_up i (n / (2 * mj)) j iteration_stores hj o)

    module _ (n : ℕ) (to : ℕ → R) (j k : ℕ) (hj : j < n / (2 * mj)) (hk : k < mj) where
      at_store :
          (i : ℕ)
          → occurs i (inner_stores j k) ≡ true
          → step D L n mj from (0 * 2 + 0) b to (0 * 2 + 0) (mj * 2 + 0) w sgn i ≡ after i
      at_store i o = at_iteration n to j hj i (occurs-stores_up i mj k (inner_stores j) hk o)

      -- The entries that `step` leaves: in block `j` the sums, behind them the products.
      pub step-front :
          entry
            (step D L n mj from (0 * 2 + 0) b to (0 * 2 + 0) (mj * 2 + 0) w sgn)
            0
            (j * (2 * mj) + k)
          ≡ front j k
      step-front =
          let low : k < 2 * mj = omega arith in
          ap₂ (λ x y. record { real = x; imagin = y })
            (at_store (0 + ((j * (2 * mj) + k) * 2 + 0)) (ground arith)
              ∙ ap after (omega arith)
              ∙ after_real j k low)
            (at_store (0 + ((j * (2 * mj) + k) * 2 + 1)) (ground arith)
              ∙ ap after (omega arith)
              ∙ after_imag j k low)
          ∙ entry-front j k hk

      pub step-back :
          entry
            (step D L n mj from (0 * 2 + 0) b to (0 * 2 + 0) (mj * 2 + 0) w sgn)
            0
            (j * (2 * mj) + (k + mj))
          ≡ back j k
      step-back =
          let high : k + mj < 2 * mj = omega arith in
          ap₂ (λ x y. record { real = x; imagin = y })
            (at_store (0 + ((j * (2 * mj) + (k + mj)) * 2 + 0)) (ground arith)
              ∙ ap after (omega arith)
              ∙ after_real j (k + mj) high)
            (at_store (0 + ((j * (2 * mj) + (k + mj)) * 2 + 1)) (ground arith)
              ∙ ap after (omega arith)
              ∙ after_imag j (k + mj) high)
          ∙ entry-back j k hk
