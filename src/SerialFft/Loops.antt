-- ===== src/SerialFft/Loops.antt =====
-- The loops of one round of the outer loop of `fft` make all its butterflies.
use native.Mathlib.Nat.{two-pow-succ, one-le-pow, mul-add-div_right, div-eq_of_lt, mul-le-mul_right}
use sql_code.Common.{
  ℕ, suc, ◌+◌, ◌-◌, ◌*◌, ◌/◌, ◌^◌, ◌≡◌, ◌<◌, ◌≤◌, refl, sym, ap, ◌∙◌, arith, ltb, ◌==◌, ◌||◌, ◌&&◌,
  Bool, false, if◌then◌else◌, for_up, for_up_inv, subst,
}
use sql_code.Fourier.{Double, Complex, add_complex, sub_complex}
use sql_code.Fourier.Blocks.{pair}
use sql_code.SerialFft.{turned, pair_butterfly, sub_dft, serial_round}
use sql_code.SerialFft.Stage.{Described, butterfly_Described}

module _ (D : Double) (i m : ℕ) (a : ℕ → Complex D.R) (u : ℕ → Complex D.R) where
  Described-swap :
      (d e : ℕ → ℕ → Bool) (c : ℕ → Complex D.R)
      → ((b t : ℕ) → b < m → t < 2 ^ i → d b t ≡ e b t)
      → Described D i m a u d c
      → Described D i m a u e c
  Described-swap d e c same r = record {
    front = λ b t hb ht.
        r.front b t hb ht
        ∙ ap
            (λ z.
              if z
              then add_complex D (a (pair i b + t)) (turned D (a (pair i b + 2 ^ i + t)) (u t))
              else a (pair i b + t))
            (same b t hb ht);
    back = λ b t hb ht.
        r.back b t hb ht
        ∙ ap
            (λ z.
              if z
              then sub_complex D (a (pair i b + t)) (turned D (a (pair i b + 2 ^ i + t)) (u t))
              else a (pair i b + 2 ^ i + t))
            (same b t hb ht);
    rest = r.rest;
  }

  Described-none : Described D i m a u (λ b t. ltb t 0) a
  Described-none = record {
    front = λ b t hb ht. sym (
        ap
          (λ z.
            if z
            then add_complex D (a (pair i b + t)) (turned D (a (pair i b + 2 ^ i + t)) (u t))
            else a (pair i b + t))
          (let no : ltb t 0 ≡ false = ground arith in no));
    back = λ b t hb ht. sym (
        ap
          (λ z.
            if z
            then sub_complex D (a (pair i b + t)) (turned D (a (pair i b + 2 ^ i + t)) (u t))
            else a (pair i b + 2 ^ i + t))
          (let no : ltb t 0 ≡ false = ground arith in no));
    rest = λ x le. refl;
  }

  module _ (size_n : ℕ) (size : m * 2 ^ suc i ≡ size_n) (some : 0 < m) where
    pub rounds : (t : ℕ) → t < 2 ^ i → (size_n - t + (2 ^ suc i - 1)) / 2 ^ suc i ≡ m
    rounds t lt =
        let one : 1 * 2 ^ suc i ≤ m * 2 ^ suc i = mul-le-mul_right (2 ^ suc i) some in
        let split : size_n - t + (2 ^ suc i - 1) ≡ m * 2 ^ suc i + (2 ^ suc i - 1 - t) =
          omega (arith, one, two-pow-succ i, size) in
        ap (λ s. s / 2 ^ suc i) split
        ∙ mul-add-div_right (one-le-pow (suc i) 2 (omega arith)) m (2 ^ suc i - 1 - t)
        ∙ ap (λ q. m + q)
            (div-eq_of_lt
              (let less : 2 ^ suc i - 1 - t < 2 ^ suc i = omega (arith, two-pow-succ i) in less))
        ∙ omega arith

    sub_dft-Described :
        (t : ℕ) (c : ℕ → Complex D.R)
        → t < 2 ^ i
        → Described D i m a u (λ b s. ltb s t) c
        → Described D i m a u
            (λ b s. ltb s (suc t))
            (sub_dft D size_n (2 ^ suc i) (2 ^ i) (u t) t c)
    unfolding sub_dft
    sub_dft-Described t c lt r =
        subst
          (λ n.
            Described D i m a u (λ b s. ltb s (suc t))
              (for_up n (λ b. pair_butterfly D (2 ^ i) (u t) (t + b * 2 ^ suc i)) c))
          (sym (rounds t lt))
          (Described-swap (λ b s. ltb s t || (s == t && ltb b m)) (λ b s. ltb s (suc t)) _
            (λ b s hb hs. ground arith)
            (for_up_inv
              (λ n c. n ≤ m → Described D i m a u (λ b s. ltb s t || (s == t && ltb b n)) c)
              (λ b. pair_butterfly D (2 ^ i) (u t) (t + b * 2 ^ suc i)) m c
              (λ n v hn inv le.
                let index : t + n * 2 ^ suc i ≡ pair i n + t =
                  ap (λ q. t + n * q) (two-pow-succ i) ∙ omega arith in
                subst
                  (λ q.
                    Described D i m a u (λ b s. ltb s t || (s == t && ltb b (suc n)))
                      (pair_butterfly D (2 ^ i) (u t) q v))
                  (sym index)
                  (Described-swap _ _ _ (λ b s hb hs. ground arith)
                    (butterfly_Described D i m a u n t lt v (λ b s. ltb s t || (s == t && ltb b n))
                      hn (ground arith) (inv (omega arith)))))
              (λ le. Described-swap _ _ _ (λ b s hb hs. ground arith) r) (omega arith)))

    -- All rounds of the loop over j.
    pub all_Described :
        (s : Complex D.R)
        → u 0 ≡ record { real = D.of_ℕ 1; imagin = D.of_ℕ 0 }
        → ((t : ℕ) → u (suc t) ≡ turned D (u t) s)
        → Described D i m a u
            (λ b t. ltb t (2 ^ i))
            (for_up
              (2 ^ i)
              (serial_round D size_n (2 ^ suc i) (2 ^ i) s)
              (record { u = record { real = D.of_ℕ 1; imagin = D.of_ℕ 0 }; x = a })).x
    unfolding serial_round
    all_Described s first next =
        (for_up_inv (λ n v. (v.u ≡ u n) × Described D i m a u (λ b t. ltb t n) v.x)
          (serial_round D size_n (2 ^ suc i) (2 ^ i) s) (2 ^ i)
          (record { u = record { real = D.of_ℕ 1; imagin = D.of_ℕ 0 }; x = a })
          (λ n v hn inv. (
            ap (λ z. turned D z s) inv.0 ∙ sym (next n),
            subst
                (λ z.
                  Described D i m a u (λ b t. ltb t (suc n))
                    (sub_dft D size_n (2 ^ suc i) (2 ^ i) z n v.x))
                (sym inv.0) (sub_dft-Described n v.x hn inv.1),
          ))
          (sym first, Described-none)).1
