-- ===== src/ParallelFft.antt =====
-- The transform of Greenplum/functions/c/fourier_transform/fft_parallel/openmp/fft_openmp.c.
-- A vector of complex numbers is an array of `double`, the real part of entry i at i * 2 and the
-- imaginary part behind it. A pointer into an array is the array and an index. The iterations of an
-- `omp for` run here one behind the other; ParallelFft/Schedule is about all other orders.
pub mod Stores
pub mod Step
pub mod Threads
pub mod Schedule
pub mod Partial
pub mod Passes
pub mod Rounds
pub mod Cfft2
pub mod RoundTrip
mod Tests
use sql_code.Common.{ℕ, ◌+◌, ◌-◌, ◌*◌, ◌/◌, ◌==◌, Bool, true, false, if◌then◌else◌, for_up}
use sql_code.Fourier.{Double, store}

-- What the code uses of `double` besides the arithmetic: the order, `log`, and the conversion to `int`
-- of a number that is not negative.
pub record Logarithm (D : Double) : Type 0 where
  pub lt : D.R → D.R → Bool
  pub log : D.R → D.R
  pub truncate : D.R → ℕ

module _ (D : Double) where
  open D use {R, of_ℕ, m_pi, add, sub, mul, div, neg, sin, cos}

  unfoldable pub ccopy : ℕ → (ℕ → R) → (ℕ → R) → ℕ → R
  ccopy n x y =
      for_up n (λ i z. store (store z (i * 2 + 0) (x (i * 2 + 0))) (i * 2 + 1) (x (i * 2 + 1))) y

  -- The literal for pi is the value of `M_PI`.
  unfoldable pub cffti : ℕ → (ℕ → R) → ℕ → R
  cffti n w =
      let n2 = n / 2 in
      let aw = div (mul (of_ℕ 2) m_pi) (of_ℕ n) in
      for_up n2
        (λ i v.
          let arg = mul aw (of_ℕ i) in store (store v (i * 2 + 0) (cos arg)) (i * 2 + 1) (sin arg))
        w

  module _ (L : Logarithm D) where
    -- `wjw` of the iteration `j`.
    unfoldable pub wjw_real : ℕ → (ℕ → R) → ℕ → R
    wjw_real mj w j = let jw = j * mj in w (jw * 2 + 0)

    unfoldable pub wjw_imag : ℕ → (ℕ → R) → R → ℕ → R
    wjw_imag mj w sgn j =
        let jw = j * mj in if L.lt sgn (of_ℕ 0) then neg (w (jw * 2 + 1)) else w (jw * 2 + 1)

    -- The body of the inner loop at `k`, in the iteration `j`. The pointers `a` and `b` are indices of
    -- `from`, `c` and `d` of `to`.
    unfoldable pub step_inner : ℕ → (ℕ → R) → ℕ → ℕ → ℕ → ℕ → (ℕ → R) → R → ℕ → ℕ → (ℕ → R) → ℕ → R
    unfolding wjw_real wjw_imag
    step_inner mj from a b c d w sgn j k to =
        let mj2 = 2 * mj in
        let ja = j * mj in
        let jb = ja in
        let jc = j * mj2 in
        let jd = jc in
        let wjw_0 = wjw_real mj w j in
        let wjw_1 = wjw_imag mj w sgn j in
        let c_0 =
          store to (c + ((jc + k) * 2 + 0))
            (add (from (a + ((ja + k) * 2 + 0))) (from (b + ((jb + k) * 2 + 0)))) in
        let c_1 =
          store c_0 (c + ((jc + k) * 2 + 1))
            (add (from (a + ((ja + k) * 2 + 1))) (from (b + ((jb + k) * 2 + 1)))) in
        let ambr = sub (from (a + ((ja + k) * 2 + 0))) (from (b + ((jb + k) * 2 + 0))) in
        let ambu = sub (from (a + ((ja + k) * 2 + 1))) (from (b + ((jb + k) * 2 + 1))) in
        let d_0 = store c_1 (d + ((jd + k) * 2 + 0)) (sub (mul wjw_0 ambr) (mul wjw_1 ambu)) in
        store d_0 (d + ((jd + k) * 2 + 1)) (add (mul wjw_1 ambr) (mul wjw_0 ambu))

    unfoldable pub step_iteration : ℕ → (ℕ → R) → ℕ → ℕ → ℕ → ℕ → (ℕ → R) → R → ℕ → (ℕ → R) → ℕ → R
    unfolding step_inner
    step_iteration mj from a b c d w sgn j to = for_up mj (step_inner mj from a b c d w sgn j) to

    unfoldable pub step : ℕ → ℕ → (ℕ → R) → ℕ → ℕ → (ℕ → R) → ℕ → ℕ → (ℕ → R) → R → ℕ → R
    unfolding step_iteration
    step n mj from a b to c d w sgn =
        let mj2 = 2 * mj in let lj = n / mj2 in for_up lj (step_iteration mj from a b c d w sgn) to

    -- The local variables of `cfft2` and the two arrays.
    pub record Pass : Type 0 where
      pub mj : ℕ
      pub tgle : Bool
      pub x : ℕ → R
      pub y : ℕ → R

    -- One round of the loop of `cfft2`.
    unfoldable pub toggled_step : ℕ → (ℕ → R) → R → Pass → Pass
    unfolding step
    toggled_step n w sgn p =
        let mj = p.mj * 2 in
        if p.tgle
        then record {
          mj = mj;
          tgle = false;
          x = step n mj p.y (0 * 2 + 0) (n / 2 * 2 + 0) p.x (0 * 2 + 0) (mj * 2 + 0) w sgn;
          y = p.y;
        }
        else record {
          mj = mj;
          tgle = true;
          x = p.x;
          y = step n mj p.x (0 * 2 + 0) (n / 2 * 2 + 0) p.y (0 * 2 + 0) (mj * 2 + 0) w sgn;
        }

    -- `cfft2`, with the two arrays that it leaves, `x` and `y`. No round is made if m - 2 is negative.
    unfoldable pub cfft2 : ℕ → (ℕ → R) → (ℕ → R) → (ℕ → R) → R → (ℕ → R) × (ℕ → R)
    unfolding step toggled_step ccopy
    cfft2 n x y w sgn =
        let m = L.truncate (div (L.log (of_ℕ n)) (L.log (div (of_ℕ 199) (of_ℕ 100)))) in
        let first = step n 1 x (0 * 2 + 0) (n / 2 * 2 + 0) y (0 * 2 + 0) (1 * 2 + 0) w sgn in
        let p =
          for_up (m - 2) (λ j. toggled_step n w sgn)
            (record { mj = 1; tgle = true; x = x; y = first }) in
        let moved = if p.tgle then ccopy n p.y p.x else p.x in
        let mj = n / 2 in
        if n == 2
        then (x, first)
        else (moved, step n mj moved (0 * 2 + 0) (n / 2 * 2 + 0) p.y (0 * 2 + 0) (mj * 2 + 0) w sgn)
