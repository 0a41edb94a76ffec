-- ===== src/Fourier.antt =====
-- The Fourier transforms of Greenplum/functions/c/rg_test/rg.c.
-- The arithmetic of `double` and the functions of <math.h> are the parameter `Double`. An array is a
-- function from its indices, and a write gives the changed function; what the code prints and the
-- clock are left out. Memory that `malloc` gives holds what the argument `heap` says.
pub mod Order
pub mod Remap
pub mod Stages
pub mod Blocks
pub mod Transform
pub mod Fft
pub mod Exact
pub mod Sums
pub mod Root
pub mod Geometric
pub mod Inverse
pub mod Conjugate
pub mod Halves
pub mod Hartley
pub mod RoundTrip
pub mod Dft
pub mod Example
mod Tests
use sql_code.Common.{
  ℕ, zero, suc, ◌+◌, ◌-◌, ◌*◌, ◌/◌, ◌%◌, ◌^◌, Option, none, some, ◌==◌, if◌then◌else◌, for_up,
}

pub record Double : Type 1 where
  pub R : Type 0
  pub of_ℕ : ℕ → R
  pub m_pi : R
  pub add : R → R → R
  pub sub : R → R → R
  pub mul : R → R → R
  pub div : R → R → R
  pub neg : R → R
  pub sin : R → R
  pub cos : R → R

pub record Complex (R : Type 0) : Type 0 where
  pub real : R
  pub imagin : R

-- `a[i] = v`
abbrev pub store : {A : Type 0} → (ℕ → A) → ℕ → A → ℕ → A
store a i v j = if i == j then v else a j

-- The loop that moves the elements of even index to the first half of `temp`, the others behind them.
unfoldable pub split : {A : Type 0} → (ℕ → A) → ℕ → ℕ → (ℕ → A) → ℕ → A
split src base size_n heap =
    for_up size_n
      (λ i temp.
        if i % 2 == 0
        then store temp (i / 2) (src (base + i))
        else store temp ((size_n + i) / 2) (src (base + i)))
      heap

-- The loop that copies `temp` back.
unfoldable pub copy_back : {A : Type 0} → (ℕ → A) → ℕ → ℕ → (ℕ → A) → ℕ → A
copy_back temp base size_n src = for_up size_n (λ i s. store s (base + i) (temp i)) src

-- `FFT_remap(src + base, size_n)` on fuel, of which the depth of the recursion is used up.
unfoldable pub fft_remap : {A : Type 0} → (ℕ → A) → ℕ → (ℕ → A) → ℕ → ℕ → Option (ℕ → A)
unfolding split copy_back
fft_remap heap zero src base size_n = none
fft_remap {A} heap (suc fuel) src base size_n =
    let half = size_n / 2 in
    let dealt = copy_back (split src base size_n heap) base size_n src in
    let first = fft_remap heap fuel dealt base half in
    let second : Option (ℕ → A) = elim first [
      | none ↦ none
      | some s ↦ fft_remap heap fuel s (base + half) half
    ] in
    if size_n == 1 then some src else second

-- The loop `while (k/=2) z++`, on fuel.
unfoldable pub count_halvings : ℕ → ℕ → ℕ
count_halvings zero k = 0
count_halvings (suc fuel) k =
    let rest = count_halvings fuel (k / 2) in if k / 2 == 0 then 0 else suc rest

module _ (D : Double) where
  open D use {R, of_ℕ, m_pi, add, sub, mul, div, neg, sin, cos}

  unfoldable pub add_complex : Complex R → Complex R → Complex R
  add_complex src1 src2 = record {
    real = add src1.real src2.real;
    imagin = add src1.imagin src2.imagin;
  }

  unfoldable pub sub_complex : Complex R → Complex R → Complex R
  sub_complex src1 src2 = record {
    real = sub src1.real src2.real;
    imagin = sub src1.imagin src2.imagin;
  }

  unfoldable pub multy_complex : Complex R → Complex R → Complex R
  multy_complex src1 src2 = record {
    real = sub (mul src1.real src2.real) (mul src1.imagin src2.imagin);
    imagin = add (mul src1.real src2.imagin) (mul src2.real src1.imagin);
  }

  unfoldable pub get_wn : ℕ → ℕ → Complex R
  get_wn n size_n =
      let x = div (mul (mul (of_ℕ 2) m_pi) (of_ℕ n)) (of_ℕ size_n) in
      record { real = cos x; imagin = neg (sin x) }

  -- The inner loop of `DFT` at one frequency.
  unfoldable pub dft_at : (ℕ → R) → ℕ → ℕ → Complex R
  dft_at src size m =
      for_up size
        (λ n c.
          let x = mul (mul (mul m_pi (of_ℕ 2)) (of_ℕ m)) (of_ℕ n) in
          record {
            real = add c.real (mul (src n) (cos (div x (of_ℕ size))));
            imagin = add c.imagin (mul (src n) (neg (sin (div x (of_ℕ size)))));
          })
        (record { real = of_ℕ 0; imagin = of_ℕ 0 })

  unfoldable pub dft : (ℕ → R) → (ℕ → Complex R) → ℕ → ℕ → Complex R
  unfolding dft_at
  dft src dst size = for_up size (λ m d. store d m (dft_at src size m)) dst

  -- The inner loop of `IDFT`, and the division by the constant `SIZE`, whatever the argument `size` is.
  unfoldable pub idft_at : ℕ → (ℕ → Complex R) → ℕ → ℕ → Complex R
  idft_at whole src size m =
      let sum : Complex R =
        for_up size
          (λ n c.
            let x = div (mul (mul (mul m_pi (of_ℕ 2)) (of_ℕ m)) (of_ℕ n)) (of_ℕ size) in
            record {
              real = add c.real (sub (mul (src n).real (cos x)) (mul (src n).imagin (sin x)));
              imagin = add c.imagin (add (mul (src n).real (sin x)) (mul (src n).imagin (cos x)));
            })
          (record { real = of_ℕ 0; imagin = of_ℕ 0 }) in
      record { real = div sum.real (of_ℕ whole); imagin = div sum.imagin (of_ℕ whole) }

  unfoldable pub idft : ℕ → (ℕ → Complex R) → (ℕ → Complex R) → ℕ → ℕ → Complex R
  unfolding idft_at
  idft whole src dst size = for_up size (λ m d. store d m (idft_at whole src size m)) dst

  -- `z` and `src_com` in the loops of `FFT`.
  pub record Stage : Type 0 where
    pub z : ℕ
    pub src_com : ℕ → Complex R

  -- One round of the inner loop at `j`, in stage `i` of `k`.
  unfoldable pub butterfly : ℕ → ℕ → ℕ → ℕ → Stage → Stage
  unfolding add_complex sub_complex multy_complex get_wn
  butterfly size_n k i j s =
      let product = multy_complex (s.src_com j) (get_wn s.z size_n) in
      let neighbour = j - 2 ^ i in
      let temp = s.src_com neighbour in
      let added = store (store s.src_com j product) neighbour (add_complex temp product) in
      if j / 2 ^ i % 2 == 1
      then record { z = s.z + 2 ^ (k - i - 1); src_com = store added j (sub_complex temp product) }
      else record { z = 0; src_com = s.src_com }

  unfoldable pub fft_stage : ℕ → ℕ → ℕ → (ℕ → Complex R) → ℕ → Complex R
  unfolding butterfly
  fft_stage size_n k i src_com =
      (for_up size_n (butterfly size_n k i) (record { z = 0; src_com = src_com })).src_com

  unfoldable pub fft_stages : ℕ → ℕ → (ℕ → Complex R) → ℕ → Complex R
  unfolding fft_stage
  fft_stages size_n k src_com = for_up k (fft_stage size_n k) src_com

  -- `FFT`; `none` is the call of `exit`, or that the fuel of `FFT_remap` did not last.
  -- `FFT` reorders `src` in place as well; what it leaves there is that of `fft_remap`, and no result here.
  unfoldable pub fft : (ℕ → R) → ℕ → (ℕ → R) → (ℕ → Complex R) → ℕ → Option (ℕ → Complex R)
  unfolding fft_stages count_halvings fft_remap
  fft heap fuel src dst size_n =
      let k = count_halvings fuel size_n in
      elim (fft_remap heap fuel src 0 size_n) [
        | none ↦ none
        | some s ↦
            let src_com : ℕ → Complex R = λ i. record { real = s i; imagin = of_ℕ 0 } in
            let done = fft_stages size_n k src_com in
            if size_n == 2 ^ k then some (for_up size_n (λ i d. store d i (done i)) dst) else none
      ]
