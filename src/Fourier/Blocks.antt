-- ===== src/Fourier/Blocks.antt =====
-- One whole stage of `FFT`: a butterfly on each pair of neighbouring blocks.
use native.Mathlib.Nat.{one-le-pow, suc-mul, mul-le-mul_right}
use sql_code.Common.{
  ℕ, zero, suc, ◌+◌, ◌-◌, ◌*◌, ◌^◌, ◌≡◌, ◌<◌, ◌≤◌, refl, sym, ap, ap₂, ◌∙◌, arith, Bool-cases, inl,
  inr, ◌⊎◌, ltb, true, false, for_up, subst,
}
use sql_code.Fourier.{
  Double, Complex, Stage, butterfly, fft_stage, add_complex, sub_complex, multy_complex, get_wn,
}
use sql_code.Fourier.Stages.{step, for_up-add, even_block, odd_block, twiddled, Combining}

-- The pair of blocks number `b` begins here.
abbrev pub pair : ℕ → ℕ → ℕ
pair i b = b * 2 * 2 ^ i

pair-suc : (i b : ℕ) → pair i (suc b) ≡ pair i b + 2 ^ i + 2 ^ i
pair-suc i b =
    let twice : suc b * 2 ≡ suc (suc (b * 2)) = omega arith in
    ap (λ n. n * 2 ^ i) twice
    ∙ suc-mul (suc (b * 2)) (2 ^ i)
    ∙ ap (λ n. n + 2 ^ i) (suc-mul (b * 2) (2 ^ i))

pub pair-le : (i b m : ℕ) → b < m → pair i b + 2 ^ i + 2 ^ i ≤ pair i m
pair-le i b m h =
    let le : pair i (suc b) ≤ pair i m = mul-le-mul_right (2 ^ i) (omega arith) in
    omega (arith, pair-suc i b)

module _ (D : Double) (size_n k i : ℕ) (a : ℕ → Complex D.R) where
  -- After the loop over the first `m` pairs of blocks.
  pub record Combined (m : ℕ) (c : ℕ → Complex D.R) : Type 0 where
    pub front :
        (b t : ℕ)
        → b < m
        → t < 2 ^ i
        → c (pair i b + t) ≡ add_complex D (a (pair i b + t)) (twiddled D size_n k i a (pair i b) t)
    pub back :
        (b t : ℕ)
        → b < m
        → t < 2 ^ i
        → c (pair i b + 2 ^ i + t)
          ≡ sub_complex D (a (pair i b + t)) (twiddled D size_n k i a (pair i b) t)
    pub rest : (x : ℕ) → pair i m ≤ x → c x ≡ a x

  Combined-suc :
      (m : ℕ) (s t : Stage D)
      → Combined m s.src_com
      → Combining D size_n k i s.src_com (pair i m) (2 ^ i) t
      → Combined (suc m) t.src_com
  Combined-suc m s t done new = record {
    front = λ b x lt h. at_front b x (Bool-cases (ltb b m)) lt h;
    back = λ b x lt h. at_back b x (Bool-cases (ltb b m)) lt h;
    rest = λ x le.
        let there : x ≡ pair i m + 2 ^ i + (x - (pair i m + 2 ^ i)) = omega (arith, pair-suc i m) in
        ap t.src_com there
        ∙ new.back_rest (x - (pair i m + 2 ^ i)) (omega (arith, pair-suc i m))
        ∙ ap s.src_com (sym there)
        ∙ done.rest x (omega (arith, pair-suc i m));
  }
    where
      twiddled_same :
          (x : ℕ)
          → twiddled D size_n k i s.src_com (pair i m) x ≡ twiddled D size_n k i a (pair i m) x
      twiddled_same x =
          ap (λ v. multy_complex D v (get_wn D (x * step D size_n k i) size_n))
            (done.rest (pair i m + 2 ^ i + x) (omega arith))

      at_front :
          (b x : ℕ)
          → (ltb b m ≡ true) ⊎ (ltb b m ≡ false)
          → b < suc m
          → x < 2 ^ i
          → t.src_com (pair i b + x)
            ≡ add_complex D (a (pair i b + x)) (twiddled D size_n k i a (pair i b) x)
      at_front b x (inl low) lt h =
          let below : b < m = ground arith in
          new.before (pair i b + x) (omega (arith, pair-le i b m below)) ∙ done.front b x below h
      at_front b x (inr high) lt h =
          let last : b ≡ m = ground arith in
          rw last (
            new.front x h
            ∙ ap₂ (add_complex D) (done.rest (pair i m + x) (omega arith)) (twiddled_same x))

      at_back :
          (b x : ℕ)
          → (ltb b m ≡ true) ⊎ (ltb b m ≡ false)
          → b < suc m
          → x < 2 ^ i
          → t.src_com (pair i b + 2 ^ i + x)
            ≡ sub_complex D (a (pair i b + x)) (twiddled D size_n k i a (pair i b) x)
      at_back b x (inl low) lt h =
          let below : b < m = ground arith in
          new.before (pair i b + 2 ^ i + x) (omega (arith, pair-le i b m below))
          ∙ done.back b x below h
      at_back b x (inr high) lt h =
          let last : b ≡ m = ground arith in
          rw last (
            new.back x h
            ∙ ap₂ (sub_complex D) (done.rest (pair i m + x) (omega arith)) (twiddled_same x))

  start : Stage D
  start = record { z = 0; src_com = a }

  -- The loop over the next pair of blocks.
  next_pair :
      (m : ℕ) (s : Stage D)
      → Combining D size_n k i s.src_com (pair i m) (2 ^ i) (
          for_up
            (2 ^ i)
            (λ r. butterfly D size_n k i (pair i m + 2 ^ i + r))
            (for_up (2 ^ i) (λ r. butterfly D size_n k i (pair i m + r)) s))
  next_pair m s =
      let n = 2 ^ i - 1 in
      let whole : suc n ≡ 2 ^ i = omega (arith, one-le-pow i 2 (omega arith)) in
      let even : for_up (2 ^ i) (λ r. butterfly D size_n k i (pair i m + r)) s
          ≡ record { z = 0; src_com = s.src_com } =
        ap (λ x. for_up x (λ r. butterfly D size_n k i (pair i m + r)) s) (sym whole)
        ∙ even_block D size_n k i (m * 2) n s (omega arith) (omega arith) in
      let place : suc (m * 2) * 2 ^ i ≡ pair i m + 2 ^ i = suc-mul (m * 2) (2 ^ i) in
      subst
        (λ u.
          Combining D size_n k i s.src_com (pair i m) (2 ^ i)
            (for_up (2 ^ i) (λ r. butterfly D size_n k i (pair i m + 2 ^ i + r)) u))
        (sym even)
        (subst
          (λ x. Combining D size_n k i s.src_com (pair i m) (2 ^ i) (
            for_up (2 ^ i) (λ r. butterfly D size_n k i (x + r))
              (record { z = 0; src_com = s.src_com })))
          place
          (odd_block D size_n k i s.src_com (pair i m) (suc (m * 2)) (2 ^ i)
            (record { z = 0; src_com = s.src_com }) (omega arith) place refl refl (omega arith)))

  pairs-Combined : (m : ℕ) → Combined m (for_up (pair i m) (butterfly D size_n k i) start).src_com
  unfolding start for_up
  pairs-Combined zero = record {
    front = λ b t lt h. absurd (omega arith);
    back = λ b t lt h. absurd (omega arith);
    rest = λ x le.
        (let none : pair i 0 ≡ 0 = omega arith in
          ap (λ n. (for_up n (butterfly D size_n k i) start).src_com x) none);
  }
  pairs-Combined (suc m) =
      let body = butterfly D size_n k i in
      let whole =
        ap (λ n. for_up n body start) (pair-suc i m)
        ∙ for_up-add body (pair i m + 2 ^ i) (2 ^ i) start
        ∙ ap (for_up (2 ^ i) (λ r. body (pair i m + 2 ^ i + r)))
            (for_up-add body (pair i m) (2 ^ i) start) in
      subst (λ u. Combined (suc m) u.src_com) (sym whole)
        (Combined-suc m (for_up (pair i m) body start) _ (pairs-Combined m)
          (next_pair m (for_up (pair i m) body start)))

  -- A stage over `m` pairs of blocks.
  pub fft_stage-Combined : (m : ℕ) → size_n ≡ pair i m → Combined m (fft_stage D size_n k i a)
  unfolding fft_stage start
  fft_stage-Combined m e =
      subst (λ n. Combined m (for_up n (butterfly D size_n k i) start).src_com) (sym e)
        (pairs-Combined m)
