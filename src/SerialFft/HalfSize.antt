-- ===== src/SerialFft/HalfSize.antt =====
-- The arithmetic and the tables for half the size, and the last loop of `fft_real` as a stage of `fft`.
use native.Mathlib.Nat.{two-pow-succ, add-mul}
use sql_code.Common.{
  ℕ, suc, ◌+◌, ◌-◌, ◌*◌, ◌/◌, ◌^◌, ◌≡◌, ◌<◌, sym, ap, ◌∙◌, arith, subst, fun_ext, get_or, for_up,
  for_up_cong,
}
use sql_code.Fourier.{Double, Complex, get_wn}
use sql_code.Fourier.Exact.{Exact}
use sql_code.Fourier.Root.{angle}
use sql_code.FftUtils.{floor_log2_32}
use sql_code.SerialFft.{
  TrigTables, Turning, turned, pair_butterfly, sub_dft, serial_round, serial_stage,
}
use sql_code.SerialFft.Loops.{rounds}
use sql_code.SerialFft.Real.{last_round, last_stage}
use sql_code.SerialFft.Serial.{ExactTables}

Exact-double :
    (D : Double) (m size_n : ℕ) (turn : ℕ → D.R)
    → m * 2 ≡ size_n
    → Exact D size_n turn
    → Exact D m (λ n. turn (n * 2))
Exact-double D m size_n turn twice e = record {
  add_comm = e.add_comm;
  add_assoc = e.add_assoc;
  zero-add = e.zero-add;
  add-neg = e.add-neg;
  sub-add-neg = e.sub-add-neg;
  mul_comm = e.mul_comm;
  mul_assoc = e.mul_assoc;
  mul-one = e.mul-one;
  mul-add = e.mul-add;
  of_ℕ-mul = e.of_ℕ-mul;
  of_ℕ-add = e.of_ℕ-add;
  squares = λ n. e.squares (n * 2);
  cos-add = λ a b. ap (λ n. D.cos (turn n)) (add-mul a b 2) ∙ e.cos-add (a * 2) (b * 2);
  sin-add = λ a b. ap (λ n. D.sin (turn n)) (add-mul a b 2) ∙ e.sin-add (a * 2) (b * 2);
  cos-zero = e.cos-zero;
  sin-zero = e.sin-zero;
  cos_half = λ h half. e.cos_half (h * 2) (ap (λ n. n * 2) half ∙ twice);
  sin_half = λ h half. e.sin_half (h * 2) (ap (λ n. n * 2) half ∙ twice);
}

module _ (D : Double) (m size_n : ℕ) (twice : m * 2 ≡ size_n)
    (angles : (n : ℕ) → angle D m n ≡ angle D size_n (n * 2)) where
  pub Exact-half : Exact D size_n (angle D size_n) → Exact D m (angle D m)
  Exact-half e =
      subst (λ turn. Exact D m turn) (sym (fun_ext angles))
        (Exact-double D m size_n (angle D size_n) twice e)

  pub get_wn-half : (n : ℕ) → get_wn D n m ≡ get_wn D (n * 2) size_n
  unfolding get_wn
  get_wn-half n = ap (λ a. record { real = D.cos a; imagin = D.neg (D.sin a) }) (angles n)

  pub ExactTables-half :
      (tb : TrigTables D.R) (k : ℕ) → ExactTables D size_n tb (suc k) → ExactTables D m tb k
  ExactTables-half tb k tables i lt =
      let before : suc k - i - 1 ≡ suc (k - i - 1) = omega arith in
      tables i (omega arith)
      ∙ ap (λ n. get_wn D n size_n)
          (ap (λ p. 2 ^ p) before ∙ omega (arith, two-pow-succ (k - i - 1)))
      ∙ sym (get_wn-half (2 ^ (k - i - 1)))

module _ (D : Double) (tb : TrigTables D.R) (fuel i : ℕ) where
  -- With half the size between the entries of a pair, the innermost loop of `fft` makes one round.
  sub_dft_once :
      (s : Complex D.R) (t : ℕ) (x : ℕ → Complex D.R)
      → t < 2 ^ i
      → sub_dft D (2 ^ suc i) (2 ^ suc i) (2 ^ i) s t x ≡ pair_butterfly D (2 ^ i) s t x
  unfolding sub_dft for_up
  sub_dft_once s t x lt =
      let le = 2 ^ suc i in
      ap (λ n. for_up n (λ b. pair_butterfly D (2 ^ i) s (t + b * le)) x)
        (rounds D i 1 x (λ n. s) le (let whole : 1 * le ≡ le = omega arith in whole) (omega arith) t
          lt)
      ∙ ap (λ n. pair_butterfly D (2 ^ i) s n x) (let first : t + 0 * le ≡ t = omega arith in first)

  table_root : ℕ → Complex D.R
  table_root h =
      let k = floor_log2_32 fuel h in
      record { real = get_or tb.cosines k tb.beyond; imagin = D.neg (get_or tb.sines k tb.beyond) }

  pub last_stage-serial_stage :
      (x : ℕ → Complex D.R)
      → last_stage D tb fuel (2 ^ i) x ≡ serial_stage D tb fuel (2 ^ suc i) (suc i) x
  unfolding last_stage serial_stage last_round serial_round table_root
  last_stage-serial_stage x =
      let n = 2 ^ suc i in
      let half : n / 2 ≡ 2 ^ i = omega (arith, two-pow-succ i) in
      let start : Turning D.R = record {
        u = record { real = D.of_ℕ 1; imagin = D.of_ℕ 0 };
        x = x;
      } in
      ap (λ v. v.x)
        (for_up_cong (2 ^ i) (last_round D (2 ^ i) (table_root (2 ^ i)))
          (serial_round D n n (2 ^ i) (table_root (2 ^ i))) start
          (λ t v lt.
            ap (λ y. record { u = turned D v.u (table_root (2 ^ i)); x = y })
              (sym (sub_dft_once v.u t v.x lt))))
      ∙ ap (λ h. (for_up h (serial_round D n n h (table_root h)) start).x) (sym half)
