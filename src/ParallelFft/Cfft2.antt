-- ===== src/ParallelFft/Cfft2.antt =====
-- `cfft2` is the discrete Fourier transform, in exact arithmetic.
use native.Mathlib.Nat.{two-pow-succ, one-le-pow}
use sql_code.Common.{
  ℕ, zero, suc, ◌+◌, ◌-◌, ◌*◌, ◌/◌, ◌^◌, ◌≡◌, ◌<◌, refl, sym, ap, ap₂, ◌∙◌, arith, true, false,
  if◌then◌else◌, ◌==◌, fun_ext, subst,
}
use sql_code.Fourier.{Double, Complex, multy_complex}
use sql_code.Fourier.Exact.{Exact}
use sql_code.Fourier.Sums.{csum}
use sql_code.ParallelFft.{Logarithm, Pass, cffti, step, cfft2}
use sql_code.ParallelFft.Step.{entry}
use sql_code.ParallelFft.Partial.{partial}
use sql_code.ParallelFft.Passes.{table_angle, Table, cffti-Table, signed, signed-if, signed-Root}
use sql_code.ParallelFft.Rounds.{current, Held, rounds, rounds-Held, last_Held, first_Held}

module _ (D : Double) (size_n : ℕ) (e : Exact D size_n (table_angle D size_n)) (L : Logarithm D)
    (w : ℕ → D.R) (table : Table D size_n w) (sgn : D.R) (x : ℕ → Complex D.R) where
  -- `cfft2` of two numbers, and of four and more.
  two_Held :
      (a y : ℕ → D.R)
      → size_n ≡ 2
      → ((i : ℕ) → x i ≡ entry D a 0 i)
      → Held D size_n e L w table sgn x size_n 1 (cfft2 D L size_n a y w sgn).1
  unfolding cfft2
  two_Held a y two given =
      let is_two : (size_n == 2) ≡ true = ground (arith, two) in
      rw is_two (
        subst
          (λ m.
            Held D size_n e L w table sgn x m 1 (
              step D L size_n 1 a (0 * 2 + 0) (size_n / 2 * 2 + 0) y (0 * 2 + 0) (1 * 2 + 0) w sgn))
          (sym two) (first_Held D size_n e L w table sgn x 1 a y (omega (arith, two)) given))

  more_Held :
      (k : ℕ) (a y : ℕ → D.R)
      → 2 ^ suc (suc k) ≡ size_n
      → L.truncate (D.div (L.log (D.of_ℕ size_n)) (L.log (D.div (D.of_ℕ 199) (D.of_ℕ 100))))
        ≡ suc (suc k)
      → ((i : ℕ) → x i ≡ entry D a 0 i)
      → Held D size_n e L w table sgn x size_n 1 (cfft2 D L size_n a y w sgn).1
  unfolding cfft2
  more_Held k a y whole levels given =
      let not_two : (size_n == 2) ≡ false =
        ground (arith, whole, two-pow-succ (suc k), two-pow-succ k, one-le-pow k 2 (omega arith)) in
      let count : suc (suc k) - 2 ≡ k = omega arith in
      let start : Pass D L = record {
        mj = 1;
        tgle = true;
        x = a;
        y = step D L size_n 1 a (0 * 2 + 0) (size_n / 2 * 2 + 0) y (0 * 2 + 0) (1 * 2 + 0) w sgn;
      } in
      let one_more : k + 1 ≡ suc k = omega arith in
      let sizes : 2 ^ (k + 1) * 2 ≡ 2 ^ suc (suc k) =
        ap (λ s. 2 ^ s * 2) one_more ∙ omega (arith, two-pow-succ (suc k)) in
      let first : Held D size_n e L w table sgn x 2 (2 ^ (k + 1))
          (current D size_n e L w table sgn x start) =
        first_Held D size_n e L w table sgn x (2 ^ (k + 1)) a y (sizes ∙ whole) given in
      rw (not_two, levels, count)
        (last_Held D size_n e L w table sgn x (2 ^ suc k)
          (rounds D size_n e L w table sgn x start refl k) (one-le-pow (suc k) 2 (omega arith))
          (omega (arith, two-pow-succ (suc k), whole))
          (rounds-Held D size_n e L w table sgn x start refl k 1
            (ap (λ s. 2 ^ s) (let next : suc k + 1 ≡ suc (suc k) = omega arith in next) ∙ whole)
            first))

  -- `cfft2` of `2 ^ k` numbers.
  whole_Held :
      (k : ℕ) (a y : ℕ → D.R)
      → 2 ^ suc k ≡ size_n
      → L.truncate (D.div (L.log (D.of_ℕ size_n)) (L.log (D.div (D.of_ℕ 199) (D.of_ℕ 100)))) ≡ suc k
      → ((i : ℕ) → x i ≡ entry D a 0 i)
      → (t : ℕ) → t < size_n
      → entry D (cfft2 D L size_n a y w sgn).1 0 t
        ≡ partial D size_n e (signed-Root D size_n e (L.lt sgn (D.of_ℕ 0))) x size_n 1 0 t
  whole_Held zero a y whole levels given t lt =
      ap (entry D (cfft2 D L size_n a y w sgn).1 0)
        (let place : t ≡ 0 * size_n + t = omega arith in place)
      ∙ two_Held a y (sym whole ∙ omega (arith, two-pow-succ 0)) given 0 t (omega arith) lt
  whole_Held (suc k) a y whole levels given t lt =
      ap (entry D (cfft2 D L size_n a y w sgn).1 0)
        (let place : t ≡ 0 * size_n + t = omega arith in place)
      ∙ more_Held k a y whole levels given 0 t (omega arith) lt

-- What `cfft2` computes at the frequency `t`: the sum of the entries of `x`, each times a power of the
-- root of unity, whose angle is negative if `sgn` is.
abbrev pub transformed : (D : Double) → Logarithm D → ℕ → (ℕ → D.R) → D.R → ℕ → Complex D.R
transformed D L n x sgn t = csum D n (λ i.
    multy_complex D (record { real = x (i * 2); imagin = x (i * 2 + 1) })
      (record {
        real = D.cos (table_angle D n (t * i));
        imagin =
            if L.lt sgn (D.of_ℕ 0)
            then D.neg (D.sin (table_angle D n (t * i)))
            else D.sin (table_angle D n (t * i));
      }))

pub cfft2-transformed :
    (D : Double) (L : Logarithm D) (k : ℕ) (x y w : ℕ → D.R) (sgn : D.R)
    → Exact D (2 ^ suc k) (table_angle D (2 ^ suc k))
    → L.truncate (D.div (L.log (D.of_ℕ (2 ^ suc k))) (L.log (D.div (D.of_ℕ 199) (D.of_ℕ 100))))
      ≡ suc k
    → (t : ℕ) → t < 2 ^ suc k
    → entry D (cfft2 D L (2 ^ suc k) x y (cffti D (2 ^ suc k) w) sgn).1 0 t
      ≡ transformed D L (2 ^ suc k) x sgn t
cfft2-transformed D L k x y w sgn e levels t lt =
    let n = 2 ^ suc k in
    let table = cffti-Table D n w in
    let b = L.lt sgn (D.of_ℕ 0) in
    whole_Held D n e L (cffti D n w) table sgn (entry D x 0) k x y refl levels (λ i. refl) t lt
    ∙ ap (csum D n) (
        fun_ext (λ i.
          ap₂ (λ v z. multy_complex D v z)
            (ap₂ (λ p q. record { real = x p; imagin = x q })
              (let even : 0 + ((0 + i * 1) * 2 + 0) ≡ i * 2 = omega arith in even)
              (let odd : 0 + ((0 + i * 1) * 2 + 1) ≡ i * 2 + 1 = omega arith in odd))
            (ap (signed D n e b) (let same : t * (0 + i * 1) ≡ t * i = omega arith in same)
              ∙ signed-if D n e b (t * i))))
