-- ===== src/Fourier/Transform.antt =====
-- The stages of `FFT` make the recursive transform from elements in the order of their reversed bits.
use native.Mathlib.Nat.{two-pow-succ, mul_assoc, add-mul, mul-add, one-mul}
use sql_code.Common.{
  ℕ, zero, suc, ◌+◌, ◌-◌, ◌*◌, ◌^◌, ◌≡◌, ◌<◌, refl, sym, ap, ap₂, ◌∙◌, arith, Bool-cases, inl, inr,
  ltb, true, false, if◌then◌else◌, for_up, subst, fun_ext,
}
use sql_code.Fourier.{Double, Complex, fft_stage, add_complex, sub_complex, multy_complex, get_wn}
use sql_code.Fourier.Order.{reverse_bits, reverse_bits_even, reverse_bits_odd}
use sql_code.Fourier.Stages.{twiddled}
use sql_code.Fourier.Blocks.{pair, Combined, fft_stage-Combined}

pub pow_twice : (s k : ℕ) → s * 2 ^ suc k ≡ s * 2 * 2 ^ k
pow_twice s k =
    let double : 2 ^ suc k ≡ 2 * 2 ^ k = omega (arith, two-pow-succ k) in
    ap (λ n. s * n) double ∙ sym (mul_assoc s 2 (2 ^ k))

pub pow_split : (m n : ℕ) → 2 ^ (m + suc n) ≡ 2 ^ m * 2 * 2 ^ n
pow_split m zero =
    let one_more : m + 1 ≡ suc m = omega arith in
    ap (λ e. 2 ^ e) one_more ∙ omega (arith, two-pow-succ m)
pow_split m (suc n) =
    let one_more : m + suc (suc n) ≡ suc (m + suc n) = omega arith in
    let doubled : 2 ^ m * 2 * 2 ^ suc n ≡ 2 ^ m * 2 * 2 ^ n + 2 ^ m * 2 * 2 ^ n =
      ap (λ e. 2 ^ m * 2 * e) (two-pow-succ n) ∙ mul-add (2 ^ m * 2) (2 ^ n) (2 ^ n) in
    ap (λ e. 2 ^ e) one_more ∙ omega (arith, two-pow-succ (m + suc n), pow_split m n, doubled)

pub pow_odd : (s k : ℕ) → (s * 2 + 1) * 2 ^ k ≡ s * 2 * 2 ^ k + 2 ^ k
pow_odd s k = add-mul (s * 2) 1 (2 ^ k) ∙ ap (λ n. s * 2 * 2 ^ k + n) (one-mul (2 ^ k))

module _ (D : Double) (size_n : ℕ) where
  -- The transform of `2 ^ i` numbers by decimation in time: the transforms of the elements of even and
  -- of odd index, the latter times a power of the root, are added for the lower half of the
  -- frequencies and subtracted for the upper half.
  unfoldable pub transform : ℕ → ℕ → (ℕ → Complex D.R) → ℕ → Complex D.R
  transform stride zero f t = f 0
  transform stride (suc i) f t =
      let evens = λ (u : ℕ). transform (stride * 2) i (λ s. f (s * 2)) u in
      let odds = λ (u : ℕ). transform (stride * 2) i (λ s. f (s * 2 + 1)) u in
      let turned = λ (u : ℕ). multy_complex D (odds u) (get_wn D (u * stride) size_n) in
      if ltb t (2 ^ i)
      then add_complex D (evens t) (turned t)
      else sub_complex D (evens (t - 2 ^ i)) (turned (t - 2 ^ i))

  pub transform_zero : (stride t : ℕ) (f : ℕ → Complex D.R) → transform stride 0 f t ≡ f 0
  unfolding transform
  transform_zero stride t f = refl

  pub transform_low :
      (stride i t : ℕ) (f : ℕ → Complex D.R)
      → t < 2 ^ i
      → transform stride (suc i) f t
        ≡ add_complex D (transform (stride * 2) i (λ s. f (s * 2)) t) (
            multy_complex D
              (transform (stride * 2) i (λ s. f (s * 2 + 1)) t)
              (get_wn D (t * stride) size_n))
  unfolding transform
  transform_low stride i t f h = (let low : ltb t (2 ^ i) ≡ true = ground arith in rw low refl)

  pub transform_high :
      (stride i t : ℕ) (f : ℕ → Complex D.R)
      → transform stride (suc i) f (2 ^ i + t)
        ≡ sub_complex D (transform (stride * 2) i (λ s. f (s * 2)) t) (
            multy_complex D
              (transform (stride * 2) i (λ s. f (s * 2 + 1)) t)
              (get_wn D (t * stride) size_n))
  unfolding transform
  transform_high stride i t f =
      let high : ltb (2 ^ i + t) (2 ^ i) ≡ false = ground arith in
      let back : 2 ^ i + t - 2 ^ i ≡ t = omega arith in rw (high, back) refl

  module _ (x : ℕ → Complex D.R) where
    -- The elements that block `b` of the level with `2 ^ m` blocks stems from.
    abbrev pub part : ℕ → ℕ → ℕ → Complex D.R
    part m b s = x (reverse_bits m b + s * 2 ^ m)

    -- Each block of `2 ^ i` elements is the transform of its part.
    abbrev pub Level : ℕ → ℕ → (ℕ → Complex D.R) → Type 0
    Level m i a =
        (b t : ℕ) → b < 2 ^ m → t < 2 ^ i → a (b * 2 ^ i + t) ≡ transform (2 ^ m) i (part m b) t

    pub part_even : (m b s : ℕ) → b < 2 ^ m → part (suc m) (b * 2) s ≡ part m b (s * 2)
    part_even m b s h = ap x (ap₂ (λ u v. u + v) (reverse_bits_even m b h) (pow_twice s m))

    pub part_odd : (m b s : ℕ) → b < 2 ^ m → part (suc m) (b * 2 + 1) s ≡ part m b (s * 2 + 1)
    part_odd m b s h = ap x (omega (arith, reverse_bits_odd m b h, pow_twice s m, pow_odd s m))

    module _ (k m i : ℕ) (a c : ℕ → Complex D.R) (levels : k ≡ suc m + i) where
      -- The level below, in the words of the transform.
      even_below :
          (b t : ℕ)
          → Level (suc m) i a
          → b < 2 ^ m
          → t < 2 ^ i
          → a (pair i b + t) ≡ transform (2 ^ m * 2) i (λ s. part m b (s * 2)) t
      even_below b t lev hb ht =
          lev (b * 2) t (omega (arith, two-pow-succ m)) ht
          ∙ ap₂ (λ stride f. transform stride i f t) (omega (arith, two-pow-succ m))
              (fun_ext (λ s. part_even m b s hb))

      odd_below :
          (b t : ℕ)
          → Level (suc m) i a
          → b < 2 ^ m
          → t < 2 ^ i
          → twiddled D size_n k i a (pair i b) t
            ≡ multy_complex D
                (transform (2 ^ m * 2) i (λ s. part m b (s * 2 + 1)) t)
                (get_wn D (t * 2 ^ m) size_n)
      odd_below b t lev hb ht =
          let place : pair i b + 2 ^ i + t ≡ (b * 2 + 1) * 2 ^ i + t = omega (arith, pow_odd b i) in
          let depth : k - i - 1 ≡ m = omega arith in
          ap₂ (λ v z. multy_complex D v (get_wn D z size_n))
            (ap a place
              ∙ lev (b * 2 + 1) t (omega (arith, two-pow-succ m)) ht
              ∙ ap₂ (λ stride f. transform stride i f t) (omega (arith, two-pow-succ m))
                  (fun_ext (λ s. part_odd m b s hb)))
            (ap (λ n. t * 2 ^ n) depth)

      -- A stage leads from one level to the next.
      pub Level-suc : Level (suc m) i a → Combined D size_n k i a (2 ^ m) c → Level m (suc i) c
      Level-suc lev done b t hb ht = elim (Bool-cases (ltb t (2 ^ i))) [
        | inl low ↦
            let below : t < 2 ^ i = ground arith in
            let place : b * 2 ^ suc i + t ≡ pair i b + t = omega (arith, pow_twice b i) in
            ap c place
            ∙ done.front b t hb below
            ∙ ap₂ (add_complex D) (even_below b t lev hb below) (odd_below b t lev hb below)
            ∙ sym (transform_low (2 ^ m) i t (part m b) below)
        | inr high ↦
            let u = t - 2 ^ i in
            let split : t ≡ 2 ^ i + u = ground arith in
            let below : u < 2 ^ i = ground (arith, two-pow-succ i) in
            let place : b * 2 ^ suc i + t ≡ pair i b + 2 ^ i + u = omega (arith, pow_twice b i) in
            ap c place
            ∙ done.back b u hb below
            ∙ ap₂ (sub_complex D) (even_below b u lev hb below) (odd_below b u lev hb below)
            ∙ sym (transform_high (2 ^ m) i u (part m b))
            ∙ ap (transform (2 ^ m) (suc i) (part m b)) (sym split)
      ]

    -- All stages, from the elements in the order of their reversed bits.
    pub stages-Level :
        (k n m : ℕ) (a : ℕ → Complex D.R)
        → size_n ≡ 2 ^ k
        → k ≡ m + n
        → Level k 0 a
        → Level m n (for_up n (fft_stage D size_n k) a)
    unfolding for_up
    stages-Level k zero m a e split lev =
        (let same : k ≡ m = omega arith in subst (λ u. Level u 0 a) same lev)
    stages-Level k (suc n) m a e split lev =
        let before = stages-Level k n (suc m) a e (omega arith) lev in
        let pairs : 2 ^ k ≡ pair n (2 ^ m) = ap (λ u. 2 ^ u) split ∙ pow_split m n in
        let levels : k ≡ suc m + n = omega arith in
        Level-suc k m n (for_up n (fft_stage D size_n k) a)
          (fft_stage D size_n k n (for_up n (fft_stage D size_n k) a)) levels before
          (fft_stage-Combined D size_n k n (for_up n (fft_stage D size_n k) a) (2 ^ m) (e ∙ pairs))
