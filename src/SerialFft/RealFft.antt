-- ===== src/SerialFft/RealFft.antt =====
-- `fft_real` computes what `fft` computes.
use native.Mathlib.Nat.{two-pow-succ, one-le-pow}
use sql_code.Common.{
  ℕ, suc, ◌+◌, ◌-◌, ◌*◌, ◌/◌, ◌^◌, ◌≡◌, ◌<◌, sym, ap, ap₂, ◌∙◌, arith, fun_ext, subst, for_up,
  Bool-cases, inl, inr, ltb,
}
use sql_code.Fourier.{Double, Complex, add_complex, sub_complex, multy_complex, get_wn}
use sql_code.Fourier.Exact.{Exact}
use sql_code.Fourier.Root.{angle, root_turns}
use sql_code.Fourier.Blocks.{pair, Combined}
use sql_code.Fourier.Stages.{twiddled}
use sql_code.Fourier.Sums.{csum}
use sql_code.Fourier.Geometric.{csum_cong}
use sql_code.Fourier.Conjugate.{conjugate}
use sql_code.Fourier.Fft.{complexes}
use sql_code.Fourier.Dft.{term, powers, sum_low, sum_high}
use sql_code.Fourier.Halves.{real_sum, packed_sum, conjugate-sum}
use sql_code.SerialFft.{TrigTables, serial_fft, serial_stage}
use sql_code.SerialFft.Real.{
  pack_round, decompose_round, set_self_paired, last_stage, serial_fft_real,
}
use sql_code.SerialFft.Pack.{packed, pack-packed}
use sql_code.SerialFft.Decompose.{even_of, odd_of, decomposed-halves}
use sql_code.SerialFft.Parts.{
  combined, even_of-combined, odd_of-combined, real-combined, imagin-combined,
}
use sql_code.SerialFft.HalfSize.{Exact-half, get_wn-half, ExactTables-half, last_stage-serial_stage}
use sql_code.SerialFft.Serial.{ExactTables, serial_fft-csum, stage-Combined}

module _ (D : Double) (tb : TrigTables D.R) (fuel j : ℕ) (x : ℕ → Complex D.R)
    (e : Exact D (2 ^ suc (suc j)) (angle D (2 ^ suc (suc j))))
    (angles : (n : ℕ) → angle D (2 ^ suc j) n ≡ angle D (2 ^ suc (suc j)) (n * 2))
    (halves : (a : D.R) → D.div (D.add a a) (D.of_ℕ 2) ≡ a) (enough : 32 < fuel)
    (fits : suc (suc j) < 22) (tables : ExactTables D (2 ^ suc (suc j)) tb (suc (suc j))) where
  abbrev size : ℕ
  size = 2 ^ suc (suc j)

  abbrev m : ℕ
  m = 2 ^ suc j

  abbrev q : ℕ
  q = 2 ^ j

  m-twice : m * 2 ≡ size
  m-twice = omega (arith, two-pow-succ (suc j))

  q-twice : q * 2 ≡ m
  q-twice = omega (arith, two-pow-succ j)

  -- The transforms of the real parts of even and of odd index.
  abbrev evens : ℕ → Complex D.R
  evens t = real_sum D size e m (λ n. (x (n * 2)).real) t

  abbrev odds : ℕ → Complex D.R
  odds t = real_sum D size e m (λ n. (x (n * 2 + 1)).real) t

  abbrev transformed : ℕ → Complex D.R
  transformed = serial_fft D tb fuel m (for_up m (pack_round D) x)

  transformed-combined :
      (t : ℕ) → t < m → transformed t ≡ combined D size e halves (evens t) (odds t)
  transformed-combined t lt =
      serial_fft-csum D tb fuel j (Exact-half D m size m-twice angles e) enough (omega arith)
        (ExactTables-half D m size m-twice angles tb (suc j) tables) (for_up m (pack_round D) x) t
        lt
      ∙ csum_cong D size e m _ (term D size e (packed D x) 2 t) (λ n below.
        ap₂ (multy_complex D) (pack-packed D x m n below) (
          get_wn-half D m size m-twice angles (n * t * 1)
          ∙ ap (λ p. get_wn D p size)
              (let turns : n * t * 1 * 2 ≡ n * t * 2 = omega arith in turns)))
      ∙ packed_sum D size e m t (λ n. (x (n * 2)).real) (λ n. (x (n * 2 + 1)).real)

  partner-sums :
      (r : ℕ → D.R) (t : ℕ)
      → t < m
      → conjugate D (real_sum D size e m r t) ≡ real_sum D size e m r (m - t)
  partner-sums r t lt =
      conjugate-sum D size e m m-twice m 2 t (m - t) r (omega (arith, m-twice))
        (omega (arith, m-twice))

  -- At no turn and at half a turn the sums are real.
  no_turn : (r : ℕ → D.R) → conjugate D (real_sum D size e m r 0) ≡ real_sum D size e m r 0
  no_turn r =
      partner-sums r 0 (omega (arith, one-le-pow (suc j) 2 (omega arith)))
      ∙ ap (real_sum D size e m r) (let whole : m - 0 ≡ m = omega arith in whole)
      ∙ ap (csum D m) (
          fun_ext (λ n. ap (multy_complex D (complexes D r n)) (
            ap (λ p. get_wn D p size)
              (let turns : n * m * 2 ≡ n * 0 * 2 + n * (m + m) = omega arith in turns)
            ∙ root_turns D size e (powers D size e) m m-twice (n * 0 * 2) n)))

  half_turn : (r : ℕ → D.R) → conjugate D (real_sum D size e m r q) ≡ real_sum D size e m r q
  half_turn r =
      partner-sums r q (omega (arith, q-twice, one-le-pow j 2 (omega arith)))
      ∙ ap (real_sum D size e m r) (let rest : m - q ≡ q = omega (arith, q-twice) in rest)

  pair-combined :
      (f : Complex D.R → Complex D.R → Complex D.R) (i : ℕ)
      → 0 < i
      → i < m
      → f (transformed i) (transformed (m - i))
        ≡ f
            (combined D size e halves (evens i) (odds i))
            (combined D size e halves (conjugate D (evens i)) (conjugate D (odds i)))
  pair-combined f i some lt = ap₂ f (transformed-combined i lt) (
      transformed-combined (m - i) (omega arith)
      ∙ ap₂ (combined D size e halves) (sym (partner-sums _ i lt)) (sym (partner-sums _ i lt)))

  abbrev separated : ℕ → Complex D.R
  separated =
      set_self_paired D (m * 2) m q (for_up (q - 1) (λ i. decompose_round D m (i + 1)) transformed)

  separated-sums : (t : ℕ) → t < m → (separated t ≡ evens t) × (separated (m + t) ≡ odds t)
  separated-sums =
      let positive : 0 < q = one-le-pow j 2 (omega arith) in
      let half : q < m = omega (arith, q-twice) in
      let at_zero = transformed-combined 0 (omega arith) in
      let at_half = transformed-combined q half in
      decomposed-halves D m q q-twice transformed evens odds
        (λ i some lt.
          pair-combined (even_of D) i some lt ∙ even_of-combined D size e halves (evens i) (odds i))
        (λ i some lt. partner-sums _ i lt)
        (λ i some lt.
          pair-combined (odd_of D) i some lt ∙ odd_of-combined D size e halves (evens i) (odds i))
        (λ i some lt. partner-sums _ i lt) positive
        (ap (λ z. record { real = z.real; imagin = D.of_ℕ 0 }) at_zero
          ∙ real-combined D size e halves (evens 0) (odds 0) (no_turn _) (no_turn _))
        (ap (λ z. record { real = z.imagin; imagin = D.of_ℕ 0 }) at_zero
          ∙ imagin-combined D size e halves (evens 0) (odds 0) (no_turn _) (no_turn _))
        (ap (λ z. record { real = z.real; imagin = D.of_ℕ 0 }) at_half
          ∙ real-combined D size e halves (evens q) (odds q) (half_turn _) (half_turn _))
        (ap (λ z. record { real = z.imagin; imagin = D.of_ℕ 0 }) at_half
          ∙ imagin-combined D size e halves (evens q) (odds q) (half_turn _) (half_turn _))

  abbrev whole : ℕ → Complex D.R
  whole = complexes D (λ n. (x n).real)

  stage : ℕ → Complex D.R
  stage = serial_stage D tb fuel size (suc (suc j)) separated

  stage-separated : Combined D size (suc (suc j)) (suc j) separated 1 stage
  unfolding stage
  stage-separated =
      stage-Combined D size e tb fuel (suc (suc j)) enough (omega arith) tables (suc j) 1 separated
        (omega arith) (let once : 1 * size ≡ size = omega arith in once) (omega arith)

  module _ (t : ℕ) (lt : t < m) where
    front_place : pair (suc j) 0 + t ≡ t
    front_place = omega arith

    back_place : pair (suc j) 0 + m + t ≡ m + t
    back_place = omega arith

    front_sum : separated (pair (suc j) 0 + t) ≡ evens t
    front_sum = ap separated front_place ∙ (separated-sums t lt).0

    product_sum :
        twiddled D size (suc (suc j)) (suc j) separated (pair (suc j) 0) t
        ≡ multy_complex D (odds t) (get_wn D (t * 1) size)
    product_sum =
        ap₂ (λ a p. multy_complex D a (get_wn D (t * 2 ^ p) size))
          (ap separated back_place ∙ (separated-sums t lt).1)
          (let none : suc (suc j) - suc j - 1 ≡ 0 = omega arith in none)

    stage_low : stage t ≡ csum D size (term D size e whole 1 t)
    stage_low =
        ap stage (sym front_place)
        ∙ stage-separated.front 0 t (omega arith) lt
        ∙ ap₂ (add_complex D) front_sum product_sum
        ∙ sym (sum_low D size e whole 1 t m)
        ∙ ap (λ n. csum D n (term D size e whole 1 t)) m-twice

    stage_high : stage (m + t) ≡ csum D size (term D size e whole 1 (m + t))
    stage_high =
        ap stage (sym back_place)
        ∙ stage-separated.back 0 t (omega arith) lt
        ∙ ap₂ (sub_complex D) front_sum product_sum
        ∙ sym (sum_high D size e whole 1 t m (omega (arith, m-twice)))
        ∙ ap (λ n. csum D n (term D size e whole 1 (m + t))) m-twice

  last_stage-sums :
      (t : ℕ)
      → t < size
      → last_stage D tb fuel m separated t ≡ csum D size (term D size e whole 1 t)
  unfolding stage
  last_stage-sums t lt =
      ap (λ a. a t) (last_stage-serial_stage D tb fuel (suc j) separated)
      ∙ elim (Bool-cases (ltb t m)) [
        | inl low ↦ stage_low t (ground arith)
        | inr high ↦
            let split : m + (t - m) ≡ t = ground arith in
            subst (λ s. stage s ≡ csum D size (term D size e whole 1 s)) split
              (stage_high (t - m) (ground (arith, m-twice)))
      ]

-- In exact arithmetic, where doubling a number or an angle is undone by halving it, and with tables
-- that hold the exact sines and cosines in the entries that are read, in place of the literals of
-- the code, `fft_real` of `2 ^ k` numbers, k from 2 to 21 (for each of which the tables have an
-- entry), leaves what `fft` leaves of the same numbers with 0 as imaginary parts, whatever
-- imaginary parts stood in the array; the helpers have fuel above 32.
pub serial_fft_real-serial_fft :
    (D : Double) (tb : TrigTables D.R) (fuel j : ℕ) (x : ℕ → Complex D.R)
    → Exact D (2 ^ suc (suc j)) (angle D (2 ^ suc (suc j)))
    → ((n : ℕ) → angle D (2 ^ suc j) n ≡ angle D (2 ^ suc (suc j)) (n * 2))
    → ((a : D.R) → D.div (D.add a a) (D.of_ℕ 2) ≡ a)
    → 32 < fuel
    → suc (suc j) < 22
    → ExactTables D (2 ^ suc (suc j)) tb (suc (suc j))
    → (t : ℕ) → t < 2 ^ suc (suc j)
    → serial_fft_real D tb fuel (2 ^ suc (suc j)) x t
      ≡ serial_fft D tb fuel (2 ^ suc (suc j)) (complexes D (λ n. (x n).real)) t
unfolding serial_fft_real
serial_fft_real-serial_fft D tb fuel j x e angles halves enough fits tables t lt =
    let n = 2 ^ suc (suc j) in
    let half : n / 2 ≡ 2 ^ suc j = omega (arith, two-pow-succ (suc j)) in
    let quarter : n / 4 ≡ 2 ^ j = omega (arith, two-pow-succ (suc j), two-pow-succ j) in
    let doubled : n ≡ 2 ^ suc j * 2 = omega (arith, two-pow-succ (suc j)) in
    let run = λ (h d s : ℕ). last_stage D tb fuel h (
      set_self_paired D s h d (
        for_up (d - 1) (λ i. decompose_round D h (i + 1))
          (serial_fft D tb fuel h (for_up h (pack_round D) x)))) in
    ap₂ (λ h d. run h d n t) half quarter
    ∙ ap (λ s. run (2 ^ suc j) (2 ^ j) s t) doubled
    ∙ last_stage-sums D tb fuel j x e angles halves enough fits tables t lt
    ∙ sym (
        serial_fft-csum D tb fuel (suc j) e enough fits tables (complexes D (λ n. (x n).real)) t lt)
