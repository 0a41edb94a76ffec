-- ===== src/Fourier/Remap.antt =====
-- `FFT_remap` puts its elements in the order of the reversed bits of their indices.
use native.Mathlib.Nat.{two-pow-succ}
use sql_code.Common.{
  ℕ, zero, suc, ◌+◌, ◌-◌, ◌*◌, ◌/◌, ◌%◌, ◌^◌, ◌≡◌, ◌<◌, ◌≤◌, inl, inr, refl, sym, ap, ◌∙◌, some,
  arith, ◌==◌, ltb, if◌then◌else◌, for_up_inv, Bool-cases, false,
}
use sql_code.Fourier.{store, split, copy_back, fft_remap}
use sql_code.Fourier.Order.{
  reverse_bits, reverse_bits_low, reverse_bits_high, reverse_bits-lt, reverse_bits_twice,
}

module _ {A : Type 0} where
  -- `temp` after `i` rounds, on twice `h` elements.
  record Splitting (src : ℕ → A) (base h i : ℕ) (temp : ℕ → A) : Type 0 where
    evens : (j : ℕ) → j * 2 < i → temp j ≡ src (base + j * 2)
    odds : (j : ℕ) → j * 2 + 1 < i → temp (h + j) ≡ src (base + (j * 2 + 1))

  split-Splitting :
      (src : ℕ → A) (base h : ℕ) (heap : ℕ → A)
      → Splitting src base h (h * 2) (split src base (h * 2) heap)
  unfolding split
  split-Splitting src base h heap =
      for_up_inv (Splitting src base h)
        (λ i temp.
          if i % 2 == 0
          then store temp (i / 2) (src (base + i))
          else store temp ((h * 2 + i) / 2) (src (base + i)))
        (h * 2) heap
        (λ i temp below inv. record {
          evens = λ j lt. ground (arith, inv.evens j);
          odds = λ j lt. ground (arith, inv.odds j);
        })
        (record { evens = λ j below. absurd (omega arith); odds = λ j below. absurd (omega arith) })

  -- The copy writes its own elements and no others.
  record Copying (src temp : ℕ → A) (base i : ℕ) (s : ℕ → A) : Type 0 where
    inside : (j : ℕ) → j < i → s (base + j) ≡ temp j
    before : (j : ℕ) → j < base → s j ≡ src j
    behind : (j : ℕ) → base + i ≤ j → s j ≡ src j

  copy_back-Copying :
      (src temp : ℕ → A) (base n : ℕ) → Copying src temp base n (copy_back temp base n src)
  unfolding copy_back
  copy_back-Copying src temp base n =
      for_up_inv (Copying src temp base) (λ i s. store s (base + i) (temp i)) n src
        (λ i s below inv. record {
          inside = λ j lt. ground (arith, inv.inside j);
          before = λ j lt. ground (arith, inv.before j);
          behind = λ j le. ground (arith, inv.behind j);
        })
        (record {
          inside = λ j lt. absurd (omega arith);
          before = λ j lt. refl;
          behind = λ j le. refl;
        })

  -- What the whole of `FFT_remap` leaves of `src` at `2 ^ k` elements.
  pub record Reversed (src : ℕ → A) (base k : ℕ) (s : ℕ → A) : Type 0 where
    pub inside : (i : ℕ) → i < 2 ^ k → s (base + i) ≡ src (base + reverse_bits k i)
    pub before : (j : ℕ) → j < base → s j ≡ src j
    pub behind : (j : ℕ) → base + 2 ^ k ≤ j → s j ≡ src j

  -- One element stays where it is.
  Reversed-refl : (src : ℕ → A) (base : ℕ) → Reversed src base 0 src
  unfolding reverse_bits
  Reversed-refl src base = record {
    inside = λ i lt. (let zeroth : base + i ≡ base + 0 = omega arith in ap src zeroth);
    before = λ j lt. refl;
    behind = λ j le. refl;
  }

  -- Two halves in order make a whole.
  Reversed-halves :
      (src : ℕ → A) (base k : ℕ) (heap s t : ℕ → A)
      → let n = 2 ^ k * 2 in
        Reversed (copy_back (split src base n heap) base n src) base k s
        → Reversed s (base + 2 ^ k) k t
        → Reversed src base (suc k) t
  Reversed-halves src base k heap s t first second = record {
    inside = λ i lt. elim (Bool-cases (ltb i (2 ^ k))) [
      | inl low ↦
          let below : i < 2 ^ k = ground arith in
          let r = reverse_bits k i in
          let small : r < 2 ^ k = reverse_bits-lt k i below in
          second.before (base + i) (omega arith)
          ∙ first.inside i below
          ∙ copied.inside r (omega arith)
          ∙ parts.evens r (omega arith)
          ∙ ap (λ x. src (base + x)) (sym (reverse_bits_low k i below))
      | inr high ↦
          let j = i - 2 ^ k in
          let whole : i ≡ 2 ^ k + j = ground arith in
          let below : j < 2 ^ k = ground (arith, two-pow-succ k) in
          let r = reverse_bits k j in
          let small : r < 2 ^ k = reverse_bits-lt k j below in
          let there : base + i ≡ base + 2 ^ k + j = omega arith in
          let here : base + 2 ^ k + r ≡ base + (2 ^ k + r) = omega arith in
          ap t there
          ∙ second.inside j below
          ∙ first.behind (base + 2 ^ k + r) (omega arith)
          ∙ ap (copy_back temp base n src) here
          ∙ copied.inside (2 ^ k + r) (omega arith)
          ∙ parts.odds r (omega arith)
          ∙ ap (λ x. src (base + x))
              (sym (reverse_bits_high k j) ∙ ap (reverse_bits (suc k)) (sym whole))
    ];
    before = λ j lt. second.before j (omega arith) ∙ first.before j lt ∙ copied.before j lt;
    behind = λ j le.
        (second.behind j (omega (arith, two-pow-succ k))
          ∙ first.behind j (omega (arith, two-pow-succ k))
          ∙ copied.behind j (omega (arith, two-pow-succ k)));
  }
    where
      n : ℕ
      n = 2 ^ k * 2

      temp : ℕ → A
      temp = split src base n heap

      copied : Copying src temp base n (copy_back temp base n src)
      copied = copy_back-Copying src temp base n

      parts : Splitting src base (2 ^ k) n temp
      parts = split-Splitting src base (2 ^ k) heap

  remap_step :
      (heap : ℕ → A) (fuel k : ℕ) (src s t : ℕ → A) (base : ℕ)
      → fft_remap heap fuel
          (copy_back (split src base (2 ^ k * 2) heap) base (2 ^ k * 2) src)
          base
          (2 ^ k)
        ≡ some s
      → fft_remap heap fuel s (base + 2 ^ k) (2 ^ k) ≡ some t
      → fft_remap heap (suc fuel) src base (2 ^ k * 2) ≡ some t
  unfolding fft_remap
  remap_step heap fuel k src s t base first second =
      let half : 2 ^ k * 2 / 2 ≡ 2 ^ k = omega arith in
      let many : (2 ^ k * 2 == 1) ≡ false = ground arith in
      rw (fft_remap, half, many, first) (rw half second)

  remap_one :
      (heap : ℕ → A) (fuel : ℕ) (src : ℕ → A) (base : ℕ)
      → fft_remap heap (suc fuel) src base 1 ≡ some src
  unfolding fft_remap
  remap_one heap fuel src base = refl

  -- On `2 ^ k` elements `FFT_remap` ends, with fuel for one call more than `k` deep, and puts at each
  -- index the element whose index has its `k` bits reversed; outside of them nothing changes.
  pub fft_remap-Reversed :
      (heap : ℕ → A) (k fuel : ℕ) (src : ℕ → A) (base : ℕ)
      → k < fuel
      → (s : ℕ → A) × (fft_remap heap fuel src base (2 ^ k) ≡ some s) × Reversed src base k s
  fft_remap-Reversed heap k zero src base h = absurd (omega arith)
  fft_remap-Reversed heap zero (suc fuel) src base h =
      (src, remap_one heap fuel src base, Reversed-refl src base)
  fft_remap-Reversed heap (suc k) (suc fuel) src base h =
      let n = 2 ^ k * 2 in
      let (s, e, first) =
        fft_remap-Reversed heap k fuel (copy_back (split src base n heap) base n src) base
          (omega arith) in
      let (t, f, second) = fft_remap-Reversed heap k fuel s (base + 2 ^ k) (omega arith) in
      let size : 2 ^ suc k ≡ n = omega (arith, two-pow-succ k) in
      (
        t,
        ap (fft_remap heap (suc fuel) src base) size ∙ remap_step heap fuel k src s t base e f,
        Reversed-halves src base k heap s t first second,
      )

  -- `FFT_remap` of `2 ^ k` elements twice gives the elements back where they were.
  pub fft_remap_twice :
      (heap : ℕ → A) (k fuel : ℕ) (src : ℕ → A) (base : ℕ)
      → k < fuel
      → (s : ℕ → A) × (t : ℕ → A) × (fft_remap heap fuel src base (2 ^ k) ≡ some s)
        × (fft_remap heap fuel s base (2 ^ k) ≡ some t)
        × ((i : ℕ) → i < 2 ^ k → t (base + i) ≡ src (base + i))
  fft_remap_twice heap k fuel src base h =
      let (s, e, first) = fft_remap-Reversed heap k fuel src base h in
      let (t, f, second) = fft_remap-Reversed heap k fuel s base h in
      (
        s,
        t,
        e,
        f,
        λ i lt.
            second.inside i lt
            ∙ first.inside (reverse_bits k i) (reverse_bits-lt k i lt)
            ∙ ap (λ x. src (base + x)) (reverse_bits_twice k i lt),
      )
