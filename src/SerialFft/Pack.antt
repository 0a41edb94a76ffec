-- ===== src/SerialFft/Pack.antt =====
-- The loop of `fft_real` that separates the numbers of even and of odd index.
use sql_code.Common.{
  ℕ, suc, ◌+◌, ◌*◌, ◌≡◌, ◌<◌, ◌≤◌, arith, for_up, for_up_inv, ◌==◌, if◌then◌else◌, refl,
}
use sql_code.Fourier.{Double, Complex}
use sql_code.SerialFft.Real.{pack_round}

module _ (D : Double) (x : ℕ → Complex D.R) where
  abbrev pub packed : ℕ → Complex D.R
  packed t = record { real = (x (t * 2)).real; imagin = (x (t * 2 + 1)).real }

  -- Each round finds the numbers that it reads as they were.
  record Packed (c : ℕ) (s : ℕ → Complex D.R) : Type 0 where
    before : (t : ℕ) → t < c → s t ≡ packed t
    behind : (t : ℕ) → c ≤ t → s t ≡ x t

  pack_round-at :
      (c t : ℕ) (s : ℕ → Complex D.R)
      → pack_round D c s t ≡ (
          if c == t then record { real = (s (c * 2)).real; imagin = (s (c * 2 + 1)).real } else s t)
  unfolding pack_round
  pack_round-at c t s = ground arith

  pack_round-Packed : (c : ℕ) (s : ℕ → Complex D.R) → Packed c s → Packed (suc c) (pack_round D c s)
  pack_round-Packed c s p = record {
    before = λ t lt.
        ground (arith, pack_round-at c t s, p.before t, p.behind (c * 2), p.behind (c * 2 + 1));
    behind = λ t le. ground (arith, pack_round-at c t s, p.behind t);
  }

  pub pack-packed : (n t : ℕ) → t < n → for_up n (pack_round D) x t ≡ packed t
  pack-packed n t lt =
      let done : Packed n (for_up n (pack_round D) x) =
        for_up_inv Packed (pack_round D) n x (λ c s below. pack_round-Packed c s)
          (record { before = λ i no_one. absurd (omega arith); behind = λ i le. refl }) in
      done.before t lt
