-- ===== src/SerialFft.antt =====
-- The transform of Greenplum/functions/c/fourier_transform/fft_serial/fft.c. An array is a function
-- from its indices. A loop whose count is not known runs on fuel.
pub mod Carry
pub mod Rounds
pub mod Sorted
pub mod Stage
pub mod Loops
pub mod Serial
pub mod Ifft
pub mod Real
pub mod Pack
pub mod Decompose
pub mod Parts
pub mod HalfSize
pub mod RealFft
pub mod IfftReal
pub mod Decimation
pub mod Literals
pub mod Example
mod Tests
use sql_code.Common.{
  ℕ, zero, suc, ◌+◌, ◌-◌, ◌*◌, ◌/◌, ◌^◌, ◌==◌, leb, ltb, if◌then◌else◌, for_up, List, [], ◌∷◌, map,
  get_or,
}
use sql_code.Fourier.{Double, Complex, store, add_complex, sub_complex}
use sql_code.FftUtils.{floor_log2_32}

-- `while (k <= j) { j = j - k; k = k >> 1; }  j = j + k;`
unfoldable pub carried : ℕ → ℕ → ℕ → ℕ
carried zero k j = j + k
carried (suc fuel) k j = let rest = carried fuel (k / 2) (j - k) in if leb k j then rest else j + k

-- `j` and `x` in the loop that sorts.
pub record Sorting (A : Type 0) : Type 0 where
  pub j : ℕ
  pub x : ℕ → A

module _ {A : Type 0} where
  -- `x[i]` and `x[j]` change places, both their fields.
  unfoldable pub swap : (ℕ → A) → ℕ → ℕ → ℕ → A
  swap x i j = let t = x j in store (store x j (x i)) i t

  -- One round, for `i`; `l` is half the size.
  unfoldable pub sort_round : ℕ → ℕ → ℕ → Sorting A → Sorting A
  unfolding carried swap
  sort_round fuel l i s = record {
    j = carried fuel l s.j;
    x = if ltb i s.j then swap s.x i s.j else s.x;
  }

  -- The bit reversal sorting at the beginning of `fft`.
  unfoldable pub bit_reversal_sort : ℕ → ℕ → (ℕ → A) → ℕ → A
  unfolding sort_round
  bit_reversal_sort fuel size_n x =
      let l = size_n / 2 in
      (for_up (size_n - 2) (λ i. sort_round fuel l (i + 1)) (record { j = l; x = x })).x

-- `x[i].real = v` and `x[i].imag = v`.
abbrev pub set_real : {R : Type 0} → (ℕ → Complex R) → ℕ → R → ℕ → Complex R
set_real x i v = store x i (record { real = v; imagin = (x i).imagin })

abbrev pub set_imag : {R : Type 0} → (ℕ → Complex R) → ℕ → R → ℕ → Complex R
set_imag x i v = store x i (record { real = (x i).real; imagin = v })

-- `u` and `x` in the loops that follow.
pub record Turning (R : Type 0) : Type 0 where
  pub u : Complex R
  pub x : ℕ → Complex R

-- Two tables, and what stands behind them.
pub record TrigTables (R : Type 0) : Type 0 where
  pub sines : List R
  pub cosines : List R
  pub beyond : R

-- The literals of the two tables in millionths; behind the first of the cosines, which is -1.
abbrev pub sin_literals : List ℕ
sin_literals =
    0 ∷ 1000000 ∷ 707107 ∷ 382683 ∷ 195090 ∷ 98017 ∷ 49068 ∷ 24541 ∷ 12272 ∷ 6136 ∷ 3068 ∷ 1534
    ∷ 767 ∷ 383 ∷ 192 ∷ 96 ∷ 48 ∷ 24 ∷ 12 ∷ 6 ∷ 3 ∷ []

abbrev pub cos_literals : List ℕ
cos_literals =
    0 ∷ 707107 ∷ 923880 ∷ 980785 ∷ 995185 ∷ 998795 ∷ 999699 ∷ 999925 ∷ 999981 ∷ 999995 ∷ 999999
    ∷ 1000000 ∷ 1000000 ∷ 1000000 ∷ 1000000 ∷ 1000000 ∷ 1000000 ∷ 1000000 ∷ 1000000 ∷ 1000000 ∷ []

-- The functions take the tables as an argument; the arithmetic of `float` is the parameter.
module _ (D : Double) where
  open D use {R, of_ℕ, add, sub, mul, div, neg}

  -- The tables of the code, their literals as quotients by a million.
  abbrev millionths : ℕ → R
  millionths n = div (of_ℕ n) (of_ℕ 1000000)

  unfoldable pub sin_tb : List R
  sin_tb = map millionths sin_literals

  unfoldable pub cos_tb : List R
  cos_tb = neg (millionths 1000000) ∷ map millionths cos_literals

  abbrev pub literal_tables : R → TrigTables R
  literal_tables beyond = record { sines = sin_tb; cosines = cos_tb; beyond = beyond }

  -- The product as the code writes it.
  unfoldable pub turned : Complex R → Complex R → Complex R
  turned v u = record {
    real = sub (mul v.real u.real) (mul v.imagin u.imagin);
    imagin = add (mul v.real u.imagin) (mul v.imagin u.real);
  }

  -- The body of the innermost loop at `i`.
  unfoldable pub pair_butterfly : ℕ → Complex R → ℕ → (ℕ → Complex R) → ℕ → Complex R
  unfolding turned add_complex sub_complex
  pair_butterfly le2 u i x =
      let ip = i + le2 in
      let t = turned (x ip) u in
      let y = store x ip (sub_complex D (x i) t) in store y i (add_complex D (y i) t)

  -- The loop over `i` for one j, which is one more than `t`: i takes the values t, t + le, ... below
  -- the size.
  unfoldable pub sub_dft : ℕ → ℕ → ℕ → Complex R → ℕ → (ℕ → Complex R) → ℕ → Complex R
  unfolding pair_butterfly
  sub_dft size_n le le2 u t x =
      for_up ((size_n - t + (le - 1)) / le) (λ b. pair_butterfly le2 u (t + b * le)) x

  -- The round of the loop over j, which is one more than `t`.
  unfoldable pub serial_round : ℕ → ℕ → ℕ → Complex R → ℕ → Turning R → Turning R
  unfolding sub_dft turned
  serial_round size_n le le2 s t v = record {
    u = turned v.u s;
    x = sub_dft size_n le le2 v.u t v.x;
  }

  -- The round of the outer loop for `l`; an entry behind the tables is `tb`.
  unfoldable pub serial_stage : TrigTables R → ℕ → ℕ → ℕ → (ℕ → Complex R) → ℕ → Complex R
  unfolding serial_round
  serial_stage tb fuel size_n l x =
      let le = 2 ^ l in
      let le2 = le / 2 in
      let k = floor_log2_32 fuel le2 in
      let s : Complex R = record {
        real = get_or tb.cosines k tb.beyond;
        imagin = neg (get_or tb.sines k tb.beyond);
      } in
      let start : Turning R = record { u = record { real = of_ℕ 1; imagin = of_ℕ 0 }; x = x } in
      (for_up le2 (serial_round size_n le le2 s) start).x

  -- `fft`, with the array that it leaves.
  unfoldable pub serial_fft : TrigTables R → ℕ → ℕ → (ℕ → Complex R) → ℕ → Complex R
  unfolding bit_reversal_sort serial_stage floor_log2_32
  serial_fft tb fuel size_n x =
      let m = floor_log2_32 fuel size_n in
      for_up m (λ l. serial_stage tb fuel size_n (l + 1)) (bit_reversal_sort fuel size_n x)
