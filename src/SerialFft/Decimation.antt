-- ===== src/SerialFft/Decimation.antt =====
-- What `fft` of fft.c computes in any arithmetic, whatever the tables hold.
use native.Mathlib.Nat.{two-pow-succ, one-le-pow}
use sql_code.Common.{
  ℕ, zero, suc, ◌+◌, ◌-◌, ◌*◌, ◌/◌, ◌^◌, ◌≡◌, ◌<◌, refl, sym, ap, ap₂, ◌∙◌, arith, ltb, true, false,
  if◌then◌else◌, for_up, subst, fun_ext, get_or, Bool-cases, inl, inr,
}
use sql_code.Fourier.{Double, Complex, add_complex, sub_complex}
use sql_code.Fourier.Blocks.{pair}
use sql_code.Fourier.Order.{reverse_bits}
use sql_code.Fourier.Transform.{part, part_even, part_odd, pow_twice, pow_odd, pow_split}
use sql_code.Fourier.Fft.{whole_part}
use sql_code.FftUtils.{floor_log2_32}
use sql_code.FftUtils.Log.{floor_log2_32_lem}
use sql_code.SerialFft.{
  TrigTables, Turning, turned, serial_round, serial_stage, serial_fft, bit_reversal_sort,
}
use sql_code.SerialFft.Sorted.{bit_reversal_sort-reverse_bits}
use sql_code.SerialFft.Stage.{Described}
use sql_code.SerialFft.Loops.{all_Described}

module _ (D : Double) (tb : TrigTables D.R) where
  -- The root that the tables hold for the stage that joins blocks of `2 ^ i` elements.
  abbrev pub table_root : ℕ → Complex D.R
  table_root i = record {
    real = get_or tb.cosines i tb.beyond;
    imagin = D.neg (get_or tb.sines i tb.beyond);
  }

  -- Its powers, by repeated multiplication.
  unfoldable pub power : ℕ → ℕ → Complex D.R
  unfolding turned
  power i zero = record { real = D.of_ℕ 1; imagin = D.of_ℕ 0 }
  power i (suc t) = turned D (power i t) (table_root i)

  -- The transform of `2 ^ i` numbers by decimation in time with these powers: the transforms of the
  -- elements of even and of odd index, the latter times a power, are added for the lower half of the
  -- frequencies and subtracted for the upper half.
  unfoldable pub decimated : ℕ → (ℕ → Complex D.R) → ℕ → Complex D.R
  unfolding power turned add_complex sub_complex
  decimated zero f t = f 0
  decimated (suc i) f t =
      let evens = λ (u : ℕ). decimated i (λ s. f (s * 2)) u in
      let odds = λ (u : ℕ). decimated i (λ s. f (s * 2 + 1)) u in
      let product = λ (u : ℕ). turned D (odds u) (power i u) in
      if ltb t (2 ^ i)
      then add_complex D (evens t) (product t)
      else sub_complex D (evens (t - 2 ^ i)) (product (t - 2 ^ i))

  abbrev product : ℕ → (ℕ → Complex D.R) → ℕ → Complex D.R
  product i f t = turned D (decimated i (λ s. f (s * 2 + 1)) t) (power i t)

  decimated_low :
      (i t : ℕ) (f : ℕ → Complex D.R)
      → t < 2 ^ i
      → decimated (suc i) f t ≡ add_complex D (decimated i (λ s. f (s * 2)) t) (product i f t)
  unfolding decimated
  decimated_low i t f h = (let low : ltb t (2 ^ i) ≡ true = ground arith in rw low refl)

  decimated_high :
      (i t : ℕ) (f : ℕ → Complex D.R)
      → decimated (suc i) f (2 ^ i + t)
        ≡ sub_complex D (decimated i (λ s. f (s * 2)) t) (product i f t)
  unfolding decimated
  decimated_high i t f =
      let high : ltb (2 ^ i + t) (2 ^ i) ≡ false = ground arith in
      let back : 2 ^ i + t - 2 ^ i ≡ t = omega arith in rw (high, back) refl

  module _ (size_n : ℕ) (x : ℕ → Complex D.R) where
    abbrev block : ℕ → ℕ → ℕ → Complex D.R
    block m b = part D size_n x m b

    -- Each block of `2 ^ i` elements is the transform of its part.
    abbrev Decimated : ℕ → ℕ → (ℕ → Complex D.R) → Type 0
    Decimated m i a =
        (b t : ℕ) → b < 2 ^ m → t < 2 ^ i → a (b * 2 ^ i + t) ≡ decimated i (block m b) t

    module _ (m i : ℕ) (a c : ℕ → Complex D.R) (lev : Decimated (suc m) i a)
        (made : Described D i (2 ^ m) a (power i) (λ b t. ltb t (2 ^ i)) c) (b t : ℕ)
        (hb : b < 2 ^ m) (ht : t < 2 ^ i) where
      inside : ltb t (2 ^ i) ≡ true
      inside = ground arith

      even_below : a (pair i b + t) ≡ decimated i (λ s. block m b (s * 2)) t
      even_below =
          lev (b * 2) t (omega (arith, two-pow-succ m)) ht
          ∙ ap (λ f. decimated i f t) (fun_ext (λ s. part_even D size_n x m b s hb))

      odd_below : a (pair i b + 2 ^ i + t) ≡ decimated i (λ s. block m b (s * 2 + 1)) t
      odd_below =
          ap a (
            let place : pair i b + 2 ^ i + t ≡ (b * 2 + 1) * 2 ^ i + t =
              omega (arith, pow_odd b i) in
            place)
          ∙ lev (b * 2 + 1) t (omega (arith, two-pow-succ m)) ht
          ∙ ap (λ f. decimated i f t) (fun_ext (λ s. part_odd D size_n x m b s hb))

      front_made : c (pair i b + t) ≡ decimated (suc i) (block m b) t
      front_made =
          made.front b t hb ht
          ∙ ap
              (λ z.
                if z
                then add_complex D (a (pair i b + t))
                    (turned D (a (pair i b + 2 ^ i + t)) (power i t))
                else a (pair i b + t))
              inside
          ∙ ap₂ (λ v w. add_complex D v (turned D w (power i t))) even_below odd_below
          ∙ sym (decimated_low i t (block m b) ht)

      back_made : c (pair i b + 2 ^ i + t) ≡ decimated (suc i) (block m b) (2 ^ i + t)
      back_made =
          made.back b t hb ht
          ∙ ap
              (λ z.
                if z
                then sub_complex D (a (pair i b + t))
                    (turned D (a (pair i b + 2 ^ i + t)) (power i t))
                else a (pair i b + 2 ^ i + t))
              inside
          ∙ ap₂ (λ v w. sub_complex D v (turned D w (power i t))) even_below odd_below
          ∙ sym (decimated_high i t (block m b))

    Decimated-suc :
        (m i : ℕ) (a c : ℕ → Complex D.R)
        → Decimated (suc m) i a
        → Described D i (2 ^ m) a (power i) (λ b t. ltb t (2 ^ i)) c
        → Decimated m (suc i) c
    Decimated-suc m i a c lev made b t hb ht = elim (Bool-cases (ltb t (2 ^ i))) [
      | inl low ↦
          let below : t < 2 ^ i = ground arith in
          ap c
            (let place : b * 2 ^ suc i + t ≡ pair i b + t = omega (arith, pow_twice b i) in place)
          ∙ front_made m i a c lev made b t hb below
      | inr high ↦
          let u = t - 2 ^ i in
          let split : 2 ^ i + u ≡ t = ground arith in
          let below : u < 2 ^ i = ground (arith, two-pow-succ i) in
          ap c (
            let place : b * 2 ^ suc i + t ≡ pair i b + 2 ^ i + u = omega (arith, pow_twice b i) in
            place)
          ∙ back_made m i a c lev made b u hb below
          ∙ ap (decimated (suc i) (block m b)) split
    ]

  module _ (fuel k : ℕ) (enough : 32 < fuel) (small : k < 32) (x : ℕ → Complex D.R) where
    abbrev size : ℕ
    size = 2 ^ k

    stage-Described :
        (i m : ℕ) (a : ℕ → Complex D.R)
        → i < k
        → m * 2 ^ suc i ≡ size
        → 0 < m
        → Described D i m a (power i) (λ b t. ltb t (2 ^ i)) (serial_stage D tb fuel size (suc i) a)
    unfolding serial_stage power
    stage-Described i m a hi whole some =
        let half : 2 ^ suc i / 2 ≡ 2 ^ i = omega (arith, two-pow-succ i) in
        let entry : floor_log2_32 fuel (2 ^ i) ≡ i =
          floor_log2_32_lem fuel i (2 ^ i) (omega arith) enough (omega arith)
            (omega (arith, two-pow-succ i, one-le-pow i 2 (omega arith))) in
        let start : Turning D.R = record {
          u = record { real = D.of_ℕ 1; imagin = D.of_ℕ 0 };
          x = a;
        } in
        subst
          (λ h.
            Described D i m a (power i) (λ b t. ltb t (2 ^ i))
              (for_up h (serial_round D size (2 ^ suc i) h (table_root (floor_log2_32 fuel h)))
                start).x)
          (sym half)
          (all_Described D i m a (power i) size whole some (table_root (floor_log2_32 fuel (2 ^ i)))
            refl (λ t. ap (λ n. turned D (power i t) (table_root n)) (sym entry)))

    stages-Decimated :
        (n m : ℕ) (a : ℕ → Complex D.R)
        → k ≡ m + n
        → Decimated size x k 0 a
        → Decimated size x m n (for_up n (λ l. serial_stage D tb fuel size (l + 1)) a)
    unfolding for_up
    stages-Decimated zero m a split lev =
        (let same : k ≡ m = omega arith in subst (λ u. Decimated size x u 0 a) same lev)
    stages-Decimated (suc n) m a split lev =
        let b = for_up n (λ l. serial_stage D tb fuel size (l + 1)) a in
        let one_more : n + 1 ≡ suc n = omega arith in
        let levels : k ≡ suc m + n = omega arith in
        let whole : 2 ^ m * 2 ^ suc n ≡ size =
          ap (λ q. 2 ^ m * q) (two-pow-succ n)
          ∙ (let out : 2 ^ m * (2 ^ n + 2 ^ n) ≡ 2 ^ m * 2 * 2 ^ n = omega arith in out)
          ∙ sym (pow_split m n)
          ∙ ap (λ q. 2 ^ q) (sym split) in
        Decimated-suc size x m n b (serial_stage D tb fuel size (n + 1) b)
          (stages-Decimated n (suc m) a levels lev)
          (subst
            (λ l.
              Described D n (2 ^ m) b (power n) (λ b t. ltb t (2 ^ n))
                (serial_stage D tb fuel size l b))
            (sym one_more)
            (stage-Described n (2 ^ m) b (omega arith) whole (one-le-pow m 2 (omega arith))))

    sorted-Decimated : (j : ℕ) → k ≡ suc j → Decimated size x k 0 (bit_reversal_sort fuel (2 ^ k) x)
    unfolding decimated
    sorted-Decimated j one_up b t hb ht =
        let same_size : 2 ^ k ≡ 2 ^ suc j = ap (λ q. 2 ^ q) one_up in
        ap (bit_reversal_sort fuel (2 ^ k) x) (let place : b * 2 ^ 0 + t ≡ b = omega arith in place)
        ∙ ap (λ q. bit_reversal_sort fuel (2 ^ q) x b) one_up
        ∙ bit_reversal_sort-reverse_bits j fuel (omega arith) x b (omega (arith, same_size))
        ∙ ap (λ q. x (reverse_bits q b)) (sym one_up)
        ∙ ap x (let index : reverse_bits k b ≡ reverse_bits k b + 0 * 2 ^ k = omega arith in index)

-- In any arithmetic and with any entries in the tables, those of the code included, `fft` of `2 ^ k`
-- complex numbers, k from 1 to 21 (for each of which the tables have an entry), leaves their recursive
-- transform by decimation in time, in which the factors are the powers, by repeated multiplication, of
-- the entries of the tables; the helpers have fuel above 32.
pub serial_fft-decimated :
    (D : Double) (tb : TrigTables D.R) (fuel j : ℕ) (x : ℕ → Complex D.R)
    → 32 < fuel
    → suc j < 22
    → (t : ℕ) → t < 2 ^ suc j
    → serial_fft D tb fuel (2 ^ suc j) x t ≡ decimated D tb (suc j) x t
unfolding serial_fft
serial_fft-decimated D tb fuel j x enough fits t lt =
    let k = suc j in
    let n = 2 ^ k in
    let small : k < 32 = omega arith in
    let sorted = bit_reversal_sort fuel n x in
    let stages = λ (s : ℕ). for_up s (λ l. serial_stage D tb fuel n (l + 1)) sorted in
    let count : floor_log2_32 fuel n ≡ k =
      floor_log2_32_lem fuel k n small enough (omega arith)
        (omega (arith, two-pow-succ k, one-le-pow k 2 (omega arith))) in
    ap (λ s. stages s t) count
    ∙ ap (stages k) (let place : t ≡ 0 * n + t = omega arith in place)
    ∙ stages-Decimated D tb fuel k enough small x k 0 sorted (omega arith)
        (sorted-Decimated D tb fuel k enough small x j refl) 0 t (omega arith) lt
    ∙ ap (λ f. decimated D tb k f t) (fun_ext (λ i. whole_part D k x i))
