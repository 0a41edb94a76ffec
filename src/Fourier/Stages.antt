-- ===== src/Fourier/Stages.antt =====
-- What one stage of `FFT` does to the blocks of its array.
use native.Mathlib.Nat.{mul-add-div_right, div-eq_of_lt, one-le-pow, suc-mul}
use sql_code.Common.{
  ℕ, zero, suc, ◌+◌, ◌-◌, ◌*◌, ◌/◌, ◌%◌, ◌^◌, ◌≡◌, ◌<◌, ◌≤◌, refl, ap, ap₂, ◌∙◌, arith, Bool-cases,
  inl, inr, ◌⊎◌, ◌≢◌, ◌==◌, true, false, for_up, for_up_inv,
}
use sql_code.Fourier.{
  Double, Complex, store, Stage, butterfly, add_complex, sub_complex, multy_complex, get_wn,
}

pub for_up-add :
    {S : Type 0} (body : ℕ → S → S) (a b : ℕ) (s : S)
    → for_up (a + b) body s ≡ for_up b (λ i. body (a + i)) (for_up a body s)
unfolding for_up
for_up-add body a zero s = (let whole : a + 0 ≡ a = omega arith in ap (λ n. for_up n body s) whole)
for_up-add body a (suc b) s =
    let whole : a + suc b ≡ suc (a + b) = omega arith in
    ap (λ n. for_up n body s) whole ∙ ap (body (a + b)) (for_up-add body a b s)

block_of : (i q r : ℕ) → r < 2 ^ i → (q * 2 ^ i + r) / 2 ^ i ≡ q
block_of i q r h =
    mul-add-div_right (omega (arith, one-le-pow i 2 (omega arith))) q r
    ∙ ap (λ x. q + x) (div-eq_of_lt h)
    ∙ omega arith

-- The loop's round at an index of a block `q` of `2 ^ i` elements.
module _ (D : Double) (size_n k i : ℕ) where
  abbrev pub step : ℕ
  step = 2 ^ (k - i - 1)

  -- A block of even number: `z` is reset.
  butterfly_even :
      (q r : ℕ) (s : Stage D)
      → q % 2 ≡ 0
      → r < 2 ^ i
      → butterfly D size_n k i (q * 2 ^ i + r) s ≡ record { z = 0; src_com = s.src_com }
  unfolding butterfly
  butterfly_even q r s even h = rw (butterfly, block_of i q r h, even) refl

  -- A block of odd number: the element is combined with the one a block before it.
  butterfly_odd :
      (q r : ℕ) (s : Stage D)
      → q % 2 ≡ 1
      → r < 2 ^ i
      → let j = q * 2 ^ i + r in
        let product = multy_complex D (s.src_com j) (get_wn D s.z size_n) in
        butterfly D size_n k i j s ≡ record {
          z = s.z + step;
          src_com =
              store
                (store
                  (store s.src_com j product)
                  (j - 2 ^ i)
                  (add_complex D (s.src_com (j - 2 ^ i)) product))
                j
                (sub_complex D (s.src_com (j - 2 ^ i)) product);
        }
  unfolding butterfly
  butterfly_odd q r s odd h = rw (butterfly, block_of i q r h, odd) refl

  -- Behind a whole block of even number nothing has changed and `z` is 0.
  pub even_block :
      (q n : ℕ) (s : Stage D)
      → q % 2 ≡ 0
      → suc n ≤ 2 ^ i
      → for_up (suc n) (λ r. butterfly D size_n k i (q * 2 ^ i + r)) s
        ≡ record { z = 0; src_com = s.src_com }
  unfolding for_up
  even_block q zero s even h = butterfly_even q 0 s even (omega arith)
  even_block q (suc n) s even h =
      ap (butterfly D size_n k i (q * 2 ^ i + suc n)) (even_block q n s even (omega arith))
      ∙ butterfly_even q (suc n) (record { z = 0; src_com = s.src_com }) even (omega arith)

  module _ (a : ℕ → Complex D.R) (p : ℕ) where
    -- The element behind, times its power of the root.
    abbrev pub twiddled : ℕ → Complex D.R
    twiddled t = multy_complex D (a (p + 2 ^ i + t)) (get_wn D (t * step) size_n)

    -- After `n` rounds of the block that begins at `p + 2 ^ i`.
    pub record Combining (n : ℕ) (s : Stage D) : Type 0 where
      pub counted : s.z ≡ n * step
      pub front : (t : ℕ) → t < n → s.src_com (p + t) ≡ add_complex D (a (p + t)) (twiddled t)
      pub back :
          (t : ℕ) → t < n → s.src_com (p + 2 ^ i + t) ≡ sub_complex D (a (p + t)) (twiddled t)
      pub front_rest : (t : ℕ) → n ≤ t → t < 2 ^ i → s.src_com (p + t) ≡ a (p + t)
      pub back_rest : (t : ℕ) → n ≤ t → s.src_com (p + 2 ^ i + t) ≡ a (p + 2 ^ i + t)
      pub before : (x : ℕ) → x < p → s.src_com x ≡ a x

    odd_round :
        (n : ℕ) (s t : Stage D) (product : Complex D.R)
        → n < 2 ^ i
        → Combining n s
        → product ≡ twiddled n
        → t.z ≡ s.z + step
        → t.src_com
          ≡ store
              (store
                (store s.src_com (p + 2 ^ i + n) product)
                (p + n)
                (add_complex D (a (p + n)) product))
              (p + 2 ^ i + n)
              (sub_complex D (a (p + n)) product)
        → Combining (suc n) t
    odd_round n s t product h c e ez ea = record {
      counted = omega (arith, suc-mul n step, c.counted);
      front = λ x lt. at_front x (Bool-cases (x == n)) lt;
      back = λ x lt. at_back x (Bool-cases (x == n)) lt;
      front_rest = λ x le lt.
          (ap (λ f. f (p + x)) ea
            ∙ others (p + x) (omega arith) (omega arith)
            ∙ c.front_rest x (omega arith) lt);
      back_rest = λ x le.
          (ap (λ f. f (p + 2 ^ i + x)) ea
            ∙ others (p + 2 ^ i + x) (omega arith) (omega arith)
            ∙ c.back_rest x (omega arith));
      before = λ x lt. (ap (λ f. f x) ea ∙ others x (omega arith) (omega arith) ∙ c.before x lt);
    }
      where
        sum : Complex D.R
        sum = add_complex D (a (p + n)) product

        difference : Complex D.R
        difference = sub_complex D (a (p + n)) product

        written : ℕ → Complex D.R
        written =
            store (store (store s.src_com (p + 2 ^ i + n) product) (p + n) sum) (p + 2 ^ i + n)
              difference

        others : (x : ℕ) → x ≢ p + 2 ^ i + n → x ≢ p + n → written x ≡ s.src_com x
        others x n1 n2 = ground arith

        at_sum : written (p + n) ≡ sum
        at_sum = ground (arith, one-le-pow i 2 (omega arith))

        at_difference : written (p + 2 ^ i + n) ≡ difference
        at_difference = ground arith

        at_front :
            (x : ℕ)
            → ((x == n) ≡ true) ⊎ ((x == n) ≡ false)
            → x < suc n
            → t.src_com (p + x) ≡ add_complex D (a (p + x)) (twiddled x)
        at_front x (inl same) lt =
            let here : x ≡ n = ground arith in
            rw here (ap (λ f. f (p + n)) ea ∙ at_sum ∙ ap (add_complex D (a (p + n))) e)
        at_front x (inr other) lt =
            let earlier : x < n = ground arith in
            ap (λ f. f (p + x)) ea ∙ others (p + x) (omega arith) (omega arith) ∙ c.front x earlier

        at_back :
            (x : ℕ)
            → ((x == n) ≡ true) ⊎ ((x == n) ≡ false)
            → x < suc n
            → t.src_com (p + 2 ^ i + x) ≡ sub_complex D (a (p + x)) (twiddled x)
        at_back x (inl same) lt =
            let here : x ≡ n = ground arith in
            rw here
              (ap (λ f. f (p + 2 ^ i + n)) ea ∙ at_difference ∙ ap (sub_complex D (a (p + n))) e)
        at_back x (inr other) lt =
            let earlier : x < n = ground arith in
            ap (λ f. f (p + 2 ^ i + x)) ea
            ∙ others (p + 2 ^ i + x) (omega arith) (omega arith)
            ∙ c.back x earlier

    pub odd_block :
        (q n : ℕ) (s : Stage D)
        → q % 2 ≡ 1
        → q * 2 ^ i ≡ p + 2 ^ i
        → s.z ≡ 0
        → s.src_com ≡ a
        → n ≤ 2 ^ i
        → Combining n (for_up n (λ r. butterfly D size_n k i (q * 2 ^ i + r)) s)
    odd_block q n s odd place start same h =
        for_up_inv Combining (λ r. butterfly D size_n k i (q * 2 ^ i + r)) n s
          (λ r t below c.
            let here : q * 2 ^ i + r ≡ p + 2 ^ i + r = omega arith in
            let there : q * 2 ^ i + r - 2 ^ i ≡ p + r = omega arith in
            let round = butterfly_odd q r t odd (omega arith) in
            odd_round r t _ (multy_complex D (t.src_com (q * 2 ^ i + r)) (get_wn D t.z size_n))
              (omega arith) c
              (ap₂ (λ v z. multy_complex D v (get_wn D z size_n))
                (ap t.src_com here ∙ c.back_rest r (omega arith)) c.counted)
              (ap (λ u. u.z) round)
              (ap (λ u. u.src_com) round
                ∙ rw (there, here, c.front_rest r (omega arith) (omega arith)) refl))
          (record {
            counted = rw start (omega arith);
            front = λ t lt. absurd (omega arith);
            back = λ t lt. absurd (omega arith);
            front_rest = λ t le lt. ap (λ f. f (p + t)) same;
            back_rest = λ t le. ap (λ f. f (p + 2 ^ i + t)) same;
            before = λ x lt. ap (λ f. f x) same;
          })
