-- ===== src/ParallelFft/Rounds.antt =====
-- The passes of `cfft2`, one behind the other, in exact arithmetic.
use native.Mathlib.Nat.{two-pow-succ, one-le-pow, mul-le-mul_right}
use sql_code.Common.{
  ℕ, zero, suc, ◌+◌, ◌*◌, ◌/◌, ◌^◌, ◌≡◌, ◌<◌, ◌≤◌, refl, sym, ap, ap₂, ◌∙◌, arith, Bool, true,
  false, if◌then◌else◌, for_up, subst,
}
use sql_code.Fourier.{Double, Complex, multy_complex}
use sql_code.Fourier.Exact.{Exact}
use sql_code.Fourier.Sums.{csum_one, multy-one}
use sql_code.Fourier.Transform.{pow_split}
use sql_code.ParallelFft.{Logarithm, Pass, ccopy, step, toggled_step}
use sql_code.ParallelFft.Step.{entry}
use sql_code.ParallelFft.Partial.{term}
use sql_code.ParallelFft.Passes.{
  table_angle, entry-ccopy, Table, signed, signed-Root, Holds, pass-Holds,
}

module _ (D : Double) (size_n : ℕ) (e : Exact D size_n (table_angle D size_n)) (L : Logarithm D)
    (w : ℕ → D.R) (table : Table D size_n w) (sgn : D.R) (x : ℕ → Complex D.R) where
  -- The array that the last pass wrote.
  abbrev pub current : Pass D L → ℕ → D.R
  current p = if p.tgle then p.y else p.x

  abbrev pub Held : ℕ → ℕ → (ℕ → D.R) → Type 0
  Held m apart a = Holds D size_n e L w table sgn x m apart a

  abbrev term_at : ℕ → ℕ → Complex D.R
  term_at = term D size_n e (signed-Root D size_n e (L.lt sgn (D.of_ℕ 0))) x

  module _ (a : ℕ → D.R) (given : (i : ℕ) → x i ≡ entry D a 0 i) where
    start_Held : Held 1 size_n a
    start_Held j k hj hk =
        let none : k ≡ 0 = omega arith in
        ap (entry D a 0) (let place : j * 1 + k ≡ j = omega arith in place)
        ∙ sym (given j)
        ∙ sym (
            csum_one D size_n e (λ p. term_at k (j + p * size_n))
            ∙ ap₂ term_at none (let place : j + 0 * size_n ≡ j = omega arith in place)
            ∙ ap (multy_complex D (x j)) (
                ap (signed D size_n e (L.lt sgn (D.of_ℕ 0)))
                  (let place : 0 * j ≡ 0 = omega arith in place)
                ∙ (signed-Root D size_n e (L.lt sgn (D.of_ℕ 0))).root-zero)
            ∙ multy-one D size_n e (x j))

  -- One round doubles the sums and halves their number.
  pub round_Held :
      (m apart mj : ℕ) (tgle : Bool) (u v : ℕ → D.R)
      → 0 < m
      → mj * 2 ≡ m
      → apart * 2 * m ≡ size_n
      → Held m (apart * 2) (if tgle then v else u)
      → Held
          (m * 2)
          apart
          (current (toggled_step D L size_n w sgn (record { mj = mj; tgle = tgle; x = u; y = v })))
  unfolding toggled_step
  round_Held m apart mj true u v some here whole h =
      subst
        (λ q.
          Held (m * 2) apart
            (step D L size_n q v (0 * 2 + 0) (size_n / 2 * 2 + 0) u (0 * 2 + 0) (q * 2 + 0) w sgn))
        (sym here) (pass-Holds D size_n e L w table sgn x m apart v u some whole h)
  round_Held m apart mj false u v some here whole h =
      subst
        (λ q.
          Held (m * 2) apart
            (step D L size_n q u (0 * 2 + 0) (size_n / 2 * 2 + 0) v (0 * 2 + 0) (q * 2 + 0) w sgn))
        (sym here) (pass-Holds D size_n e L w table sgn x m apart u v some whole h)

  mj-toggled_step : (p : Pass D L) → (toggled_step D L size_n w sgn p).mj ≡ p.mj * 2
  unfolding toggled_step
  mj-toggled_step p = ground arith

  module _ (start : Pass D L) (one : start.mj ≡ 1) where
    abbrev pub rounds : ℕ → Pass D L
    rounds r = for_up r (λ j. toggled_step D L size_n w sgn) start

    mj-rounds : (r : ℕ) → (rounds r).mj ≡ 2 ^ r
    unfolding for_up
    mj-rounds zero = one
    mj-rounds (suc r) = mj-toggled_step (rounds r) ∙ omega (arith, mj-rounds r, two-pow-succ r)

    pub rounds-Held :
        (r q : ℕ)
        → 2 ^ (suc r + q) ≡ size_n
        → Held 2 (2 ^ (r + q)) (current start)
        → Held (2 ^ suc r) (2 ^ q) (current (rounds r))
    unfolding for_up
    rounds-Held zero q whole h =
        subst (λ s. Held 2 (2 ^ s) (current start)) (let none : 0 + q ≡ q = omega arith in none) h
    rounds-Held (suc r) q whole h =
        let before : Held (2 ^ suc r) (2 ^ suc q) (current (rounds r)) =
          rounds-Held r (suc q) (ap (λ s. 2 ^ s) (omega arith) ∙ whole)
            (subst (λ s. Held 2 (2 ^ s) (current start)) (omega arith) h) in
        subst (λ m. Held m (2 ^ q) (current (rounds (suc r)))) (omega (arith, two-pow-succ (suc r)))
          (round_Held (2 ^ suc r) (2 ^ q) (rounds r).mj (rounds r).tgle (rounds r).x (rounds r).y
            (one-le-pow (suc r) 2 (omega arith)) (omega (arith, mj-rounds r, two-pow-succ r))
            (sym (pow_split q (suc r)) ∙ ap (λ s. 2 ^ s) (omega arith) ∙ whole)
            (subst (λ a. Held (2 ^ suc r) a (current (rounds r))) (omega (arith, two-pow-succ q))
              before))

  entry-moved :
      (tgle : Bool) (u v : ℕ → D.R) (i : ℕ)
      → i < size_n
      → entry D (if tgle then ccopy D size_n v u else u) 0 i ≡ entry D (if tgle then v else u) 0 i
  entry-moved true u v i h = entry-ccopy D size_n i v u h
  entry-moved false u v i h = refl

  -- The last pass, on the array that the rounds left or its copy.
  pub last_Held :
      (h : ℕ) (p : Pass D L)
      → 0 < h
      → h * 2 ≡ size_n
      → Held h 2 (current p)
      → Held size_n 1 (
          step D L size_n
            (size_n / 2)
            (if p.tgle then ccopy D size_n p.y p.x else p.x)
            (0 * 2 + 0)
            (size_n / 2 * 2 + 0)
            p.y
            (0 * 2 + 0)
            (size_n / 2 * 2 + 0)
            w
            sgn)
  last_Held h p some whole held =
      let moved = if p.tgle then ccopy D size_n p.y p.x else p.x in
      let half : h ≡ size_n / 2 = omega (arith, whole) in
      let moved_Held : Held h (1 * 2) moved = λ j k hj hk.
        (let row : j * h ≤ 1 * h = mul-le-mul_right h (omega arith) in
          entry-moved p.tgle p.x p.y (j * h + k) (omega (arith, row, whole)))
        ∙ held j k hj hk in
      let done =
        pass-Holds D size_n e L w table sgn x h 1 moved p.y some (omega (arith, whole))
          moved_Held in
      subst
        (λ q. Held size_n 1 (
          step D L size_n q moved (0 * 2 + 0) (size_n / 2 * 2 + 0) p.y (0 * 2 + 0) (q * 2 + 0) w
            sgn))
        half
        (subst
          (λ m. Held m 1 (
            step D L size_n h moved (0 * 2 + 0) (size_n / 2 * 2 + 0) p.y (0 * 2 + 0) (h * 2 + 0) w
              sgn))
          whole done)

  -- The first pass.
  pub first_Held :
      (h : ℕ) (a y : ℕ → D.R)
      → h * 2 ≡ size_n
      → ((i : ℕ) → x i ≡ entry D a 0 i)
      → Held 2 h
          (step D L size_n 1 a (0 * 2 + 0) (size_n / 2 * 2 + 0) y (0 * 2 + 0) (1 * 2 + 0) w sgn)
  first_Held h a y whole given =
      pass-Holds D size_n e L w table sgn x 1 h a y (omega arith) (omega (arith, whole))
        (subst (λ m. Held 1 m a) (sym whole) (start_Held a given))
