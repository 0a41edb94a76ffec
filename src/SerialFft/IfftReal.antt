-- ===== src/SerialFft/IfftReal.antt =====
-- `ifft_real` undoes `fft` on real numbers.
use native.Mathlib.Nat.{two-pow-succ, one-le-pow}
use sql_code.Common.{
  ℕ, suc, ◌+◌, ◌-◌, ◌*◌, ◌/◌, ◌^◌, ◌≡◌, ◌<◌, ◌≤◌, refl, sym, ap, ap₂, ◌∙◌, arith, fun_ext, for_up,
  for_up_inv, leb, ◌==◌, if◌then◌else◌, Bool-cases, inl, inr,
}
use sql_code.Fourier.{Double, Complex, store, multy_complex, get_wn}
use sql_code.Fourier.Exact.{Exact}
use sql_code.Fourier.Root.{angle}
use sql_code.Fourier.Sums.{csum}
use sql_code.Fourier.Geometric.{csum_cong}
use sql_code.Fourier.Conjugate.{conjugate}
use sql_code.Fourier.Fft.{complexes, in_place}
use sql_code.Fourier.Dft.{term}
use sql_code.Fourier.Halves.{conjugate-sum}
use sql_code.Fourier.Hartley.{spectrum, parts, mixed-parts}
use sql_code.SerialFft.{TrigTables, serial_fft}
use sql_code.SerialFft.Real.{
  mirror_round, add_parts_round, combine_round, serial_fft_real, serial_ifft_real,
}
use sql_code.SerialFft.RealFft.{serial_fft_real-serial_fft}
use sql_code.SerialFft.Serial.{ExactTables, serial_fft-csum}

module _ (D : Double) where
  open D use {R, of_ℕ, add, div, neg}

  -- The loop that makes the upper half symmetrical to the lower one, `h` being half the size.
  module _ (h : ℕ) (y : ℕ → Complex R) where
    record Mirrored (c : ℕ) (s : ℕ → Complex R) : Type 0 where
      lower : (t : ℕ) → t ≤ h → s t ≡ y t
      upper : (t : ℕ) → h < t → t < h + 1 + c → s t ≡ conjugate D (y (h * 2 - t))

    mirror_round-at :
        (k t : ℕ) (s : ℕ → Complex R)
        → h < k
        → k < h * 2
        → mirror_round D (h * 2) k s t ≡ (if k == t then conjugate D (s (h * 2 - k)) else s t)
    unfolding mirror_round
    mirror_round-at k t s above below = ground arith

    mirror_round-Mirrored :
        (c : ℕ) (s : ℕ → Complex R)
        → h + 1 + c < h * 2
        → Mirrored c s
        → Mirrored (suc c) (mirror_round D (h * 2) (h + 1 + c) s)
    mirror_round-Mirrored c s lt r =
        let at = λ (t : ℕ). mirror_round-at (h + 1 + c) t s (omega arith) lt in
        record {
          lower = λ t le. ground (arith, at t, r.lower t);
          upper = λ t above below. ground (arith, at t, r.upper t, r.lower (h * 2 - (h + 1 + c)));
        }

    mirrored :
        Mirrored
          (h * 2 - (h + 1))
          (for_up (h * 2 - (h + 1)) (λ i. mirror_round D (h * 2) (h + 1 + i)) y)
    mirrored =
        for_up_inv Mirrored (λ i. mirror_round D (h * 2) (h + 1 + i)) (h * 2 - (h + 1)) y
          (λ c s below. mirror_round-Mirrored c s (omega arith))
          (record { lower = λ t le. refl; upper = λ t above below. absurd (omega arith) })

  add_parts_rounds :
      (n t : ℕ) (x : ℕ → Complex R)
      → t < n
      → for_up n (add_parts_round D) x t
        ≡ record { real = add (x t).real (x t).imagin; imagin = (x t).imagin }
  unfolding add_parts_round
  add_parts_rounds n t x lt =
      in_place (λ z. record { real = add z.real z.imagin; imagin = z.imagin }) n t x lt

  abbrev combined_parts : ℕ → Complex R → Complex R
  combined_parts n z = record { real = div (add z.real z.imagin) (of_ℕ n); imagin = of_ℕ 0 }

  combine_round-store :
      (n k : ℕ) (x : ℕ → Complex R) → combine_round D n k x ≡ store x k (combined_parts n (x k))
  unfolding combine_round
  combine_round-store n k x = fun_ext (λ j. ground arith)

  combine_rounds :
      (n t : ℕ) (x : ℕ → Complex R)
      → t < n
      → for_up n (combine_round D n) x t ≡ combined_parts n (x t)
  combine_rounds n t x lt =
      ap (λ body. for_up n body x t) (fun_ext (λ k. fun_ext (λ y. combine_round-store n k y)))
      ∙ in_place (combined_parts n) n t x lt

module _ (D : Double) (tb : TrigTables D.R) (fuel j : ℕ) (r : ℕ → D.R) (y : ℕ → Complex D.R)
    (e : Exact D (2 ^ suc (suc j)) (angle D (2 ^ suc (suc j))))
    (angles : (n : ℕ) → angle D (2 ^ suc j) n ≡ angle D (2 ^ suc (suc j)) (n * 2))
    (halves : (a : D.R) → D.div (D.add a a) (D.of_ℕ 2) ≡ a) (enough : 32 < fuel)
    (fits : suc (suc j) < 22) (tables : ExactTables D (2 ^ suc (suc j)) tb (suc (suc j)))
    (agrees : (n : ℕ)
      → n ≤ 2 ^ suc j
      → y n ≡ serial_fft D tb fuel (2 ^ suc (suc j)) (complexes D r) n) where
  abbrev size : ℕ
  size = 2 ^ suc (suc j)

  abbrev h : ℕ
  h = 2 ^ suc j

  h-twice : h * 2 ≡ size
  h-twice = omega (arith, two-pow-succ (suc j))

  abbrev xs : ℕ → Complex D.R
  xs = spectrum D size e h (suc (suc j)) h-twice refl (complexes D r)

  abbrev sums : ℕ → D.R
  sums = parts D size e h (suc (suc j)) h-twice refl r

  abbrev symmetrical : ℕ → Complex D.R
  symmetrical = for_up (h * 2 - (h + 1)) (λ i. mirror_round D (h * 2) (h + 1 + i)) y

  lower-spectrum : (n : ℕ) → n ≤ h → y n ≡ xs n
  lower-spectrum n le =
      agrees n le
      ∙ serial_fft-csum D tb fuel (suc j) e enough fits tables (complexes D r) n
          (omega (arith, two-pow-succ (suc j), one-le-pow (suc j) 2 (omega arith)))

  symmetrical-spectrum : (n : ℕ) → n < size → symmetrical n ≡ xs n
  symmetrical-spectrum n lt = elim (Bool-cases (leb n h)) [
    | inl low ↦ (mirrored D h y).lower n (ground arith) ∙ lower-spectrum n (ground arith)
    | inr high ↦
        let above : h < n = ground arith in
        let u = h * 2 - n in
        (mirrored D h y).upper n above (omega (arith, h-twice))
        ∙ ap (conjugate D) (lower-spectrum u (omega (arith, h-twice)))
        ∙ conjugate-sum D size e h h-twice size 1 u n r (omega (arith, h-twice))
            (omega (arith, h-twice))
  ]

  abbrev mixed_input : ℕ → Complex D.R
  mixed_input = for_up size (add_parts_round D) symmetrical

  mixed_input-sums : (n : ℕ) → n < size → (mixed_input n).real ≡ sums n
  mixed_input-sums n lt =
      ap (λ z. z.real) (add_parts_rounds D size n symmetrical lt)
      ∙ ap (λ z. D.add z.real z.imagin) (symmetrical-spectrum n lt)

  transformed-mixed :
      (t : ℕ)
      → t < size
      → serial_fft_real D tb fuel size mixed_input t
        ≡ csum D size (term D size e (complexes D sums) 1 t)
  transformed-mixed t lt =
      serial_fft_real-serial_fft D tb fuel j mixed_input e angles halves enough fits tables t lt
      ∙ serial_fft-csum D tb fuel (suc j) e enough fits tables
          (complexes D (λ n. (mixed_input n).real)) t lt
      ∙ csum_cong D size e size _ _ (λ n below.
        ap
          (λ a.
            multy_complex D (record { real = a; imagin = D.of_ℕ 0 }) (get_wn D (n * t * 1) size))
          (mixed_input-sums n below))

-- In exact arithmetic, where doubling a number or an angle is undone by halving it and multiplying
-- by the size by dividing by it, and with tables that hold the exact sines and cosines in the
-- entries that are read, in place of the literals of the code: from the entries that `fft` of `2 ^
-- k` real numbers leaves at the indices up to half the size, whatever stands behind them,
-- `ifft_real` makes the real numbers again, with 0 as imaginary parts. k is from 2 to 21 (for each
-- of which the tables have an entry); the helpers have fuel above 32.
pub serial_ifft_real-serial_fft :
    (D : Double) (tb : TrigTables D.R) (fuel j : ℕ) (r : ℕ → D.R) (y : ℕ → Complex D.R)
    → Exact D (2 ^ suc (suc j)) (angle D (2 ^ suc (suc j)))
    → ((n : ℕ) → angle D (2 ^ suc j) n ≡ angle D (2 ^ suc (suc j)) (n * 2))
    → ((a : D.R) → D.div (D.add a a) (D.of_ℕ 2) ≡ a)
    → ((a : D.R) → D.div (D.mul (D.of_ℕ (2 ^ suc (suc j))) a) (D.of_ℕ (2 ^ suc (suc j))) ≡ a)
    → 32 < fuel
    → suc (suc j) < 22
    → ExactTables D (2 ^ suc (suc j)) tb (suc (suc j))
    → ((n : ℕ) → n ≤ 2 ^ suc j → y n ≡ serial_fft D tb fuel (2 ^ suc (suc j)) (complexes D r) n)
    → (t : ℕ) → t < 2 ^ suc (suc j)
    → serial_ifft_real D tb fuel (2 ^ suc (suc j)) y t ≡ complexes D r t
unfolding serial_ifft_real
serial_ifft_real-serial_fft D tb fuel j r y e angles halves divides enough fits tables agrees t lt =
    let n = 2 ^ suc (suc j) in
    let h = 2 ^ suc j in
    let half : n / 2 ≡ h = omega (arith, two-pow-succ (suc j)) in
    let twice : h * 2 ≡ n = omega (arith, two-pow-succ (suc j)) in
    let run = λ (s g : ℕ). for_up n (combine_round D n) (
      serial_fft_real D tb fuel n (
        for_up n (add_parts_round D)
          (for_up (s - (g + 1)) (λ i. mirror_round D s (g + 1 + i)) y))) in
    ap₂ (λ s g. run s g t) (sym twice) half
    ∙ combine_rounds D n t _ lt
    ∙ ap (combined_parts D n)
        (transformed-mixed D tb fuel j r y e angles halves enough fits tables agrees t lt)
    ∙ ap (λ s. record { real = D.div s (D.of_ℕ n); imagin = D.of_ℕ 0 })
        (mixed-parts D n e h (suc (suc j)) twice refl r t lt halves)
    ∙ ap (λ s. record { real = s; imagin = D.of_ℕ 0 }) (divides (r t))
