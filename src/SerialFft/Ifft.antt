-- ===== src/SerialFft/Ifft.antt =====
-- `ifft` of fft.c. The size is not 0: `k <= N - 1` would hold for ever.
use sql_code.Common.{ℕ, suc, ◌*◌, ◌^◌, ◌≡◌, ◌<◌, refl, ap, ap₂, ◌∙◌, arith, for_up, fun_ext}
use native.Mathlib.Nat.{two-pow-succ}
use sql_code.Fourier.{Double, Complex, store, multy_complex, get_wn}
use sql_code.Fourier.Exact.{Exact, neg-neg}
use sql_code.Fourier.Root.{angle}
use sql_code.Fourier.Sums.{scale}
use sql_code.Fourier.Geometric.{csum_cong}
use sql_code.Fourier.Conjugate.{conjugate}
use sql_code.Fourier.Hartley.{backward_conjugate_sum}
use sql_code.Fourier.Fft.{in_place}
use sql_code.SerialFft.{TrigTables, set_real, set_imag, serial_fft}
use sql_code.SerialFft.Serial.{ExactTables, serial_fft-csum}

module _ (D : Double) where
  open D use {R, of_ℕ, div, neg}

  -- `x[k].imag = -x[k].imag`
  unfoldable pub conj_round : ℕ → (ℕ → Complex R) → ℕ → Complex R
  conj_round k x = set_imag x k (neg (x k).imagin)

  -- A round of the last loop.
  unfoldable pub divide_round : ℕ → ℕ → (ℕ → Complex R) → ℕ → Complex R
  divide_round size_n k x =
      let y = set_real x k (div (x k).real (of_ℕ size_n)) in
      set_imag y k (div (neg (y k).imagin) (of_ℕ size_n))

  -- `ifft`, with the array that it leaves.
  unfoldable pub serial_ifft : TrigTables R → ℕ → ℕ → (ℕ → Complex R) → ℕ → Complex R
  unfolding conj_round divide_round serial_fft
  serial_ifft tb fuel size_n x =
      for_up size_n (divide_round size_n) (serial_fft D tb fuel size_n (for_up size_n conj_round x))

  abbrev divided_conj : ℕ → Complex R → Complex R
  divided_conj size_n w = record {
    real = div w.real (of_ℕ size_n);
    imagin = div (neg w.imagin) (of_ℕ size_n);
  }

  -- The loops change each entry below the size.
  conj_rounds : (n t : ℕ) (x : ℕ → Complex R) → t < n → for_up n conj_round x t ≡ conjugate D (x t)
  unfolding conj_round
  conj_rounds n t x lt = in_place (conjugate D) n t x lt

  divide_round-store :
      (n k : ℕ) (x : ℕ → Complex R) → divide_round n k x ≡ store x k (divided_conj n (x k))
  unfolding divide_round
  divide_round-store n k x = fun_ext (λ j. ground arith)

  divide_rounds :
      (n t : ℕ) (x : ℕ → Complex R) → t < n → for_up n (divide_round n) x t ≡ divided_conj n (x t)
  divide_rounds n t x lt =
      ap (λ body. for_up n body x t) (fun_ext (λ k. fun_ext (λ y. divide_round-store n k y)))
      ∙ in_place (divided_conj n) n t x lt

module _ (D : Double) (tb : TrigTables D.R) (fuel j : ℕ)
    (e : Exact D (2 ^ suc j) (angle D (2 ^ suc j))) (enough : 32 < fuel) (fits : suc j < 22)
    (tables : ExactTables D (2 ^ suc j) tb (suc j)) where
  abbrev size : ℕ
  size = 2 ^ suc j

  -- `fft` of the conjugates of a transform has the conjugates of the numbers, times the size.
  conjugate_sum :
      (x z : ℕ → Complex D.R) (t : ℕ)
      → ((n : ℕ) → n < size → z n ≡ conjugate D (serial_fft D tb fuel size x n))
      → t < size
      → serial_fft D tb fuel size z t ≡ conjugate D (scale D (D.of_ℕ size) (x t))
  conjugate_sum x z t same lt =
      let half : 2 ^ j * 2 ≡ size = omega (arith, two-pow-succ j) in
      let sums = serial_fft-csum D tb fuel j e enough fits tables in
      sums z t lt
      ∙ csum_cong D size e size _ _ (λ n below.
        ap (λ a. multy_complex D a (get_wn D (n * t * 1) size))
          (same n below ∙ ap (conjugate D) (sums x n below)))
      ∙ backward_conjugate_sum D size e (2 ^ j) (suc j) half refl x t lt

-- In exact arithmetic, where dividing a product by the size gives the other factor, and with tables
-- that hold the exact sines and cosines in the entries that are read, in place of the literals of
-- the code, `ifft` undoes `fft` on `2 ^ k` complex numbers, k from 1 to 21 (for each of which the
-- tables have an entry); the helpers have fuel above 32.
pub serial_ifft-serial_fft :
    (D : Double) (tb : TrigTables D.R) (fuel j : ℕ) (x : ℕ → Complex D.R)
    → Exact D (2 ^ suc j) (angle D (2 ^ suc j))
    → 32 < fuel
    → suc j < 22
    → ExactTables D (2 ^ suc j) tb (suc j)
    → ((a : D.R) → D.div (D.mul (D.of_ℕ (2 ^ suc j)) a) (D.of_ℕ (2 ^ suc j)) ≡ a)
    → (t : ℕ) → t < 2 ^ suc j
    → serial_ifft D tb fuel (2 ^ suc j) (serial_fft D tb fuel (2 ^ suc j) x) t ≡ x t
unfolding serial_ifft
serial_ifft-serial_fft D tb fuel j x e enough fits tables divides t lt =
    let n = 2 ^ suc j in
    let y = serial_fft D tb fuel n x in
    divide_rounds D n t (serial_fft D tb fuel n (for_up n (conj_round D) y)) lt
    ∙ ap (divided_conj D n) (
        conjugate_sum D tb fuel j e enough fits tables x (for_up n (conj_round D) y) t
          (λ m below. conj_rounds D n m y below) lt)
    ∙ ap₂ (λ a b. record { real = a; imagin = b }) (divides (x t).real)
        (ap (λ b. D.div b (D.of_ℕ n)) (neg-neg D n e _) ∙ divides (x t).imagin)
