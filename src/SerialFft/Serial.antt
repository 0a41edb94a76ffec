-- ===== src/SerialFft/Serial.antt =====
-- `fft` of fft.c computes the sums of `DFT` of rg.c, in exact arithmetic.
use native.Mathlib.Nat.{two-pow-succ, one-le-pow}
use sql_code.Common.{
  ℕ, zero, suc, ◌+◌, ◌-◌, ◌*◌, ◌/◌, ◌^◌, ◌≡◌, ◌<◌, refl, sym, ap, ◌∙◌, arith, ltb, true,
  if◌then◌else◌, for_up, subst, fun_ext, get_or,
}
use sql_code.Fourier.{Double, Complex, add_complex, sub_complex, multy_complex, get_wn, dft_at, dft}
use sql_code.Fourier.Exact.{Exact}
use sql_code.Fourier.Root.{angle}
use sql_code.Fourier.Blocks.{pair, Combined}
use sql_code.Fourier.Order.{reverse_bits}
use sql_code.Fourier.Transform.{transform, transform_zero, part, Level, Level-suc, pow_split}
use sql_code.Fourier.Fft.{complexes, whole_part, copied_to}
use sql_code.Fourier.Dft.{powers, term, transform-csum, dft_at-csum}
use sql_code.Fourier.Sums.{csum}
use sql_code.FftUtils.{floor_log2_32}
use sql_code.FftUtils.Log.{floor_log2_32_lem}
use sql_code.SerialFft.{
  TrigTables, Turning, turned, serial_round, serial_stage, serial_fft, bit_reversal_sort,
}
use sql_code.SerialFft.Sorted.{bit_reversal_sort-reverse_bits}
use sql_code.SerialFft.Stage.{Described}
use sql_code.SerialFft.Loops.{all_Described}

-- The entries of the tables that the transform of `size_n` numbers, the power of 2 with `k` as exponent,
-- reads are exact.
abbrev pub ExactTables : (D : Double) → ℕ → TrigTables D.R → ℕ → Type 0
ExactTables D size_n tb k =
    (i : ℕ)
    → i < k
    → record { real = get_or tb.cosines i tb.beyond; imagin = D.neg (get_or tb.sines i tb.beyond) }
      ≡ get_wn D (2 ^ (k - i - 1)) size_n

module _ (D : Double) (size_n : ℕ) (e : Exact D size_n (angle D size_n)) where
  turned-multy : (v u : Complex D.R) → turned D v u ≡ multy_complex D v u
  unfolding turned multy_complex
  turned-multy v u =
      ap
        (λ z. record {
          real = D.sub (D.mul v.real u.real) (D.mul v.imagin u.imagin);
          imagin = D.add (D.mul v.real u.imagin) z;
        })
        (e.mul_comm v.imagin u.real)

  module _ (k i m : ℕ) (a c : ℕ → Complex D.R) where
    Described-Combined :
        Described D i m a (λ t. get_wn D (t * 2 ^ (k - i - 1)) size_n) (λ b t. ltb t (2 ^ i)) c
        → Combined D size_n k i a m c
    Described-Combined r = record {
      front = λ b t hb ht.
          r.front b t hb ht
          ∙ ap
              (λ z.
                if z
                then add_complex D (a (pair i b + t))
                    (turned D (a (pair i b + 2 ^ i + t)) (get_wn D (t * 2 ^ (k - i - 1)) size_n))
                else a (pair i b + t))
              (let all : ltb t (2 ^ i) ≡ true = ground arith in all)
          ∙ ap (add_complex D (a (pair i b + t))) (turned-multy _ _);
      back = λ b t hb ht.
          r.back b t hb ht
          ∙ ap
              (λ z.
                if z
                then sub_complex D (a (pair i b + t))
                    (turned D (a (pair i b + 2 ^ i + t)) (get_wn D (t * 2 ^ (k - i - 1)) size_n))
                else a (pair i b + 2 ^ i + t))
              (let all : ltb t (2 ^ i) ≡ true = ground arith in all)
          ∙ ap (sub_complex D (a (pair i b + t))) (turned-multy _ _);
      rest = r.rest;
    }

  module _ (tb : TrigTables D.R) (fuel k : ℕ) (enough : 32 < fuel) (small : k < 32)
      (tables : ExactTables D size_n tb k) where
    abbrev table_root : ℕ → Complex D.R
    table_root j = record {
      real = get_or tb.cosines j tb.beyond;
      imagin = D.neg (get_or tb.sines j tb.beyond);
    }

    table_entry :
        (i : ℕ)
        → i < k
        → table_root (floor_log2_32 fuel (2 ^ suc i / 2)) ≡ get_wn D (2 ^ (k - i - 1)) size_n
    table_entry i hi =
        let half : 2 ^ suc i / 2 ≡ 2 ^ i = omega (arith, two-pow-succ i) in
        ap table_root (
          ap (floor_log2_32 fuel) half
          ∙ floor_log2_32_lem fuel i (2 ^ i) (omega arith) enough (omega arith)
              (omega (arith, two-pow-succ i, one-le-pow i 2 (omega arith))))
        ∙ tables i hi

    pub stage-Combined :
        (i m : ℕ) (a : ℕ → Complex D.R)
        → i < k
        → m * 2 ^ suc i ≡ size_n
        → 0 < m
        → Combined D size_n k i a m (serial_stage D tb fuel size_n (suc i) a)
    unfolding serial_stage
    stage-Combined i m a hi size some =
        let half : 2 ^ suc i / 2 ≡ 2 ^ i = omega (arith, two-pow-succ i) in
        let angle_step = 2 ^ (k - i - 1) in
        let root = table_root (floor_log2_32 fuel (2 ^ suc i / 2)) in
        let start : Turning D.R = record {
          u = record { real = D.of_ℕ 1; imagin = D.of_ℕ 0 };
          x = a;
        } in
        subst
          (λ h.
            Combined D size_n k i a m (for_up h (serial_round D size_n (2 ^ suc i) h root) start).x)
          (sym half)
          (Described-Combined k i m a _ (
            all_Described D i m a (λ t. get_wn D (t * angle_step) size_n) size_n size some root
              (ap (λ n. get_wn D n size_n) (let none : 0 * angle_step ≡ 0 = omega arith in none)
                ∙ (powers D size_n e).root-zero)
              (λ t.
                ap (λ n. get_wn D n size_n)
                  (let next : suc t * angle_step ≡ t * angle_step + angle_step = omega arith in
                    next)
                ∙ (powers D size_n e).root-add (t * angle_step) angle_step
                ∙ sym (turned-multy _ _)
                ∙ ap (turned D (get_wn D (t * angle_step) size_n)) (sym (table_entry i hi)))))

    serial-Level :
        (x : ℕ → Complex D.R) (n m : ℕ) (a : ℕ → Complex D.R)
        → size_n ≡ 2 ^ k
        → k ≡ m + n
        → Level D size_n x k 0 a
        → Level D size_n x m n (for_up n (λ l. serial_stage D tb fuel size_n (l + 1)) a)
    unfolding for_up
    serial-Level x zero m a whole split lev =
        (let same : k ≡ m = omega arith in subst (λ u. Level D size_n x u 0 a) same lev)
    serial-Level x (suc n) m a whole split lev =
        let b = for_up n (λ l. serial_stage D tb fuel size_n (l + 1)) a in
        let one_more : n + 1 ≡ suc n = omega arith in
        let levels : k ≡ suc m + n = omega arith in
        let size : 2 ^ m * 2 ^ suc n ≡ size_n =
          ap (λ q. 2 ^ m * q) (two-pow-succ n)
          ∙ (let out : 2 ^ m * (2 ^ n + 2 ^ n) ≡ 2 ^ m * 2 * 2 ^ n = omega arith in out)
          ∙ sym (pow_split m n)
          ∙ ap (λ q. 2 ^ q) (sym split)
          ∙ sym whole in
        Level-suc D size_n x k m n b (serial_stage D tb fuel size_n (n + 1) b) levels
          (serial-Level x n (suc m) a whole levels lev)
          (subst (λ l. Combined D size_n k n b (2 ^ m) (serial_stage D tb fuel size_n l b))
            (sym one_more)
            (stage-Combined n (2 ^ m) b (omega arith) size (one-le-pow m 2 (omega arith))))

    sorted-Level :
        (x : ℕ → Complex D.R) (j : ℕ)
        → k ≡ suc j
        → Level D size_n x k 0 (bit_reversal_sort fuel (2 ^ k) x)
    sorted-Level x j one_up b t hb ht =
        let size : 2 ^ k ≡ 2 ^ suc j = ap (λ q. 2 ^ q) one_up in
        ap (bit_reversal_sort fuel (2 ^ k) x) (let place : b * 2 ^ 0 + t ≡ b = omega arith in place)
        ∙ ap (λ q. bit_reversal_sort fuel (2 ^ q) x b) one_up
        ∙ bit_reversal_sort-reverse_bits j fuel (omega arith) x b (omega (arith, size))
        ∙ ap (λ q. x (reverse_bits q b)) (sym one_up)
        ∙ ap x (let index : reverse_bits k b ≡ reverse_bits k b + 0 * 2 ^ k = omega arith in index)
        ∙ sym (transform_zero D size_n (2 ^ k) t (part D size_n x k b))

module _ (D : Double) (tb : TrigTables D.R) (fuel j : ℕ)
    (e : Exact D (2 ^ suc j) (angle D (2 ^ suc j))) (enough : 32 < fuel) (fits : suc j < 22)
    (tables : ExactTables D (2 ^ suc j) tb (suc j)) where
  -- `fft` of complex numbers computes the sums of the discrete transform.
  pub serial_fft-csum :
      (x : ℕ → Complex D.R) (t : ℕ)
      → t < 2 ^ suc j
      → serial_fft D tb fuel (2 ^ suc j) x t ≡ csum D (2 ^ suc j) (term D (2 ^ suc j) e x 1 t)
  unfolding serial_fft
  serial_fft-csum x t lt =
      let small : suc j < 32 = omega arith in
      let k = suc j in
      let n = 2 ^ k in
      let sorted = bit_reversal_sort fuel n x in
      let stages = λ (s : ℕ). for_up s (λ l. serial_stage D tb fuel n (l + 1)) sorted in
      let count : floor_log2_32 fuel n ≡ k =
        floor_log2_32_lem fuel k n small enough (omega arith)
          (omega (arith, two-pow-succ k, one-le-pow k 2 (omega arith))) in
      ap (λ s. stages s t) count
      ∙ ap (stages k) (let place : t ≡ 0 * n + t = omega arith in place)
      ∙ serial-Level D n e tb fuel k enough small tables x k 0 sorted refl (omega arith)
          (sorted-Level D n e tb fuel k enough small tables x j refl) 0 t (omega arith) lt
      ∙ ap (λ f. transform D n 1 k f t) (fun_ext (λ i. whole_part D k x i))
      ∙ transform-csum D n e k 1 t x (let whole : 1 * n ≡ n = omega arith in whole) lt

-- In exact arithmetic, and with tables that hold the exact sines and cosines in the entries that
-- are read, in place of the literals of the code, `fft` of `2 ^ k` real numbers, k from 1 to 21
-- (for each of which the tables have an entry), leaves in the array what `DFT` of rg.c writes for
-- them; the helpers have fuel above 32.
pub serial_fft-dft :
    (D : Double) (tb : TrigTables D.R) (fuel j : ℕ) (r : ℕ → D.R) (dst : ℕ → Complex D.R)
    → (e : Exact D (2 ^ suc j) (angle D (2 ^ suc j))) → 32 < fuel
    → suc j < 22
    → ExactTables D (2 ^ suc j) tb (suc j)
    → (t : ℕ) → t < 2 ^ suc j
    → serial_fft D tb fuel (2 ^ suc j) (complexes D r) t ≡ dft D r dst (2 ^ suc j) t
unfolding dft
serial_fft-dft D tb fuel j r dst e enough fits tables t lt =
    let n = 2 ^ suc j in
    serial_fft-csum D tb fuel j e enough fits tables (complexes D r) t lt
    ∙ sym (dft_at-csum D n e r t)
    ∙ sym (copied_to (dft_at D r n) dst n t lt)
