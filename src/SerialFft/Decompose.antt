-- ===== src/SerialFft/Decompose.antt =====
-- The loop of `fft_real` behind `fft`.
use sql_code.Common.{
  ℕ, suc, ◌+◌, ◌-◌, ◌*◌, ◌≡◌, ◌<◌, ap, ap₂, ◌∙◌, arith, for_up, for_up_inv, ltb, leb, ◌==◌,
  if◌then◌else◌, refl, ◌&&◌, ◌||◌, true, false, Bool,
}
use sql_code.Fourier.{Double, Complex}
use sql_code.Fourier.Conjugate.{conjugate}
use sql_code.SerialFft.Real.{decompose_at, decompose_round, set_self_paired}

module _ (D : Double) where
  open D use {R, of_ℕ, add, sub, div, neg}

  -- What the loop computes from two entries.
  abbrev pub even_of : Complex R → Complex R → Complex R
  even_of v w = record {
    real = div (add v.real w.real) (of_ℕ 2);
    imagin = div (sub v.imagin w.imagin) (of_ℕ 2);
  }

  abbrev pub odd_of : Complex R → Complex R → Complex R
  odd_of v w = record {
    real = div (add v.imagin w.imagin) (of_ℕ 2);
    imagin = div (neg (sub v.real w.real)) (of_ℕ 2);
  }

  module _ (i j k l : ℕ) (ji : (j == i) ≡ false) (ki : (k == i) ≡ false) (li : (l == i) ≡ false)
      (kj : (k == j) ≡ false) (lj : (l == j) ≡ false) (lk : (l == k) ≡ false) where
    decompose_at-lem :
        (x : ℕ → Complex R) (t : ℕ)
        → decompose_at D i j k l x t ≡ (
            if j == t
            then conjugate D (even_of (x i) (x j))
            else if i == t
            then even_of (x i) (x j)
            else if l == t
            then conjugate D (odd_of (x i) (x j))
            else if k == t
            then odd_of (x i) (x j)
            else x t)
    unfolding decompose_at
    decompose_at-lem x t =
        let ii : (i == i) ≡ true = ground arith in
        let jj : (j == j) ≡ true = ground arith in
        let kk : (k == k) ≡ true = ground arith in
        let ll : (l == l) ≡ true = ground arith in
        let ij : (i == j) ≡ false = ground arith in
        let kl : (k == l) ≡ false = ground arith in
        simp (ii, jj, kk, ll, ij, kl, ji, ki, li, kj, lj, lk) (ground arith)

  -- The statements behind the loop, on four indices that differ: 0, a quarter `q` of the size, half of
  -- it and three quarters.
  module _ (m q : ℕ) (some : 0 < q) (twice : q * 2 ≡ m) where
    set_self_paired-at :
        (x : ℕ → Complex R) (t : ℕ)
        → set_self_paired D (m * 2) m q x t ≡ (
            if 0 == t
            then record { real = (x 0).real; imagin = of_ℕ 0 }
            else if q == t
            then record { real = (x q).real; imagin = of_ℕ 0 }
            else if m == t
            then record { real = (x 0).imagin; imagin = of_ℕ 0 }
            else if m * 2 - q == t
            then record { real = (x q).imagin; imagin = of_ℕ 0 }
            else x t)
    unfolding set_self_paired
    set_self_paired-at x t =
        let z = m * 2 - q in
        let zz : (z == z) ≡ true = ground arith in
        let mm : (m == m) ≡ true = ground arith in
        let zo : (z == 0) ≡ false = ground arith in
        let mo : (m == 0) ≡ false = ground arith in
        let qo : (q == 0) ≡ false = ground arith in
        let zq : (z == q) ≡ false = ground arith in
        let mq : (m == q) ≡ false = ground arith in
        let zm : (z == m) ≡ false = ground arith in
        let mz : (m == z) ≡ false = ground arith in
        simp (zz, mm, zo, mo, qo, zq, mq, zm, mz) (ground arith)

  -- The array behind the loop and the statements that follow it, where `evens` and `odds` are what
  -- the loop computes from each pair of entries, and one is the conjugate of its partner.
  module _ (m q : ℕ) (twice : q * 2 ≡ m) (y evens odds : ℕ → Complex R)
      (even_from : (i : ℕ) → 0 < i → i < m → even_of (y i) (y (m - i)) ≡ evens i)
      (even_partner : (i : ℕ) → 0 < i → i < m → conjugate D (evens i) ≡ evens (m - i))
      (odd_from : (i : ℕ) → 0 < i → i < m → odd_of (y i) (y (m - i)) ≡ odds i)
      (odd_partner : (i : ℕ) → 0 < i → i < m → conjugate D (odds i) ≡ odds (m - i)) where
    -- The entries that `c` rounds have replaced.
    abbrev inside : ℕ → ℕ → Bool
    inside c t = ltb 0 t && (leb t c || leb m (t + c))

    record Decomposed (c : ℕ) (s : ℕ → Complex R) : Type 0 where
      rest : (t : ℕ) → t < m → inside c t ≡ false → s t ≡ y t
      even : (t : ℕ) → t < m → inside c t ≡ true → s t ≡ evens t
      odd : (t : ℕ) → t < m → inside c t ≡ true → s (m + t) ≡ odds t

    decompose_round-at :
        (c t : ℕ) (s : ℕ → Complex R)
        → c + 1 < q
        → Decomposed c s
        → decompose_round D m (c + 1) s t ≡ (
            if m - (c + 1) == t
            then evens (m - (c + 1))
            else if c + 1 == t
            then evens (c + 1)
            else if m - (c + 1) + m == t
            then odds (m - (c + 1))
            else if c + 1 + m == t
            then odds (c + 1)
            else s t)
    unfolding decompose_round
    decompose_round-at c t s lt d =
        let i = c + 1 in
        let j = m - i in
        let si : s i ≡ y i = d.rest i (omega arith) (ground arith) in
        let sj : s j ≡ y j = d.rest j (omega arith) (ground arith) in
        let e : even_of (s i) (s j) ≡ evens i =
          ap₂ even_of si sj ∙ even_from i (omega arith) (omega arith) in
        let o : odd_of (s i) (s j) ≡ odds i =
          ap₂ odd_of si sj ∙ odd_from i (omega arith) (omega arith) in
        let ce = ap (conjugate D) e ∙ even_partner i (omega arith) (omega arith) in
        let co = ap (conjugate D) o ∙ odd_partner i (omega arith) (omega arith) in
        decompose_at-lem i j (i + m) (j + m) (ground arith) (ground arith) (ground arith)
          (ground arith) (ground arith) (ground arith) s t
        ∙ ap₂
            (λ a b.
              if j == t
              then a
              else if i == t
              then b
              else if j + m == t
              then conjugate D (odd_of (s i) (s j))
              else if i + m == t
              then odd_of (s i) (s j)
              else s t)
            ce e
        ∙ ap₂
            (λ a b.
              if j == t
              then evens j
              else if i == t
              then evens i
              else if j + m == t
              then a
              else if i + m == t
              then b
              else s t)
            co o

    decompose_round-Decomposed :
        (c : ℕ) (s : ℕ → Complex R)
        → c + 1 < q
        → Decomposed c s
        → Decomposed (suc c) (decompose_round D m (c + 1) s)
    decompose_round-Decomposed c s lt d = record {
      rest = λ t below out. ground (arith, decompose_round-at c t s lt d, d.rest t);
      even = λ t below ins. ground (arith, decompose_round-at c t s lt d, d.even t);
      odd = λ t below ins. ground (arith, decompose_round-at c (m + t) s lt d, d.odd t);
    }

    decomposed : Decomposed (q - 1) (for_up (q - 1) (λ i. decompose_round D m (i + 1)) y)
    decomposed =
        for_up_inv Decomposed (λ i. decompose_round D m (i + 1)) (q - 1) y
          (λ c s below. decompose_round-Decomposed c s (omega arith))
          (record {
            rest = λ t below out. refl;
            even = λ t below ins. ground arith;
            odd = λ t below ins. ground arith;
          })

    pub decomposed-halves :
        0 < q
        → record { real = (y 0).real; imagin = of_ℕ 0 } ≡ evens 0
        → record { real = (y 0).imagin; imagin = of_ℕ 0 } ≡ odds 0
        → record { real = (y q).real; imagin = of_ℕ 0 } ≡ evens q
        → record { real = (y q).imagin; imagin = of_ℕ 0 } ≡ odds q
        → (t : ℕ) → t < m
        → (set_self_paired D (m * 2) m q (for_up (q - 1) (λ i. decompose_round D m (i + 1)) y) t
            ≡ evens t)
          × (set_self_paired D
                (m * 2)
                m
                q
                (for_up (q - 1) (λ i. decompose_round D m (i + 1)) y)
                (m + t)
              ≡ odds t)
    decomposed-halves some e0 o0 eq oq t lt =
        let s = for_up (q - 1) (λ i. decompose_round D m (i + 1)) y in
        let s0 : s 0 ≡ y 0 = decomposed.rest 0 (omega arith) (ground arith) in
        let sq : s q ≡ y q = decomposed.rest q (omega arith) (ground arith) in
        (
          ground (arith, set_self_paired-at m q some twice s t, decomposed.even t, s0, sq),
          ground (arith, set_self_paired-at m q some twice s (m + t), decomposed.odd t, s0, sq),
        )
