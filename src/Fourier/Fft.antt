-- ===== src/Fourier/Fft.antt =====
-- `FFT` is the recursive transform of its input.
use native.Mathlib.Nat.{two-pow-succ, one-le-pow}
use sql_code.Common.{
  ℕ, zero, suc, ◌+◌, ◌*◌, ◌/◌, ◌^◌, ◌≡◌, ◌<◌, refl, sym, ap, ◌∙◌, arith, ◌==◌, true, false, for_up,
  ltb, if◌then◌else◌, for_up_inv, fun_ext, some,
}
use sql_code.Fourier.{Double, Complex, store, fft_remap, fft_stages, count_halvings, fft}
use sql_code.Fourier.Order.{reverse_bits, reverse_bits_zero}
use sql_code.Fourier.Remap.{Reversed, fft_remap-Reversed}
use sql_code.Fourier.Transform.{transform, transform_zero, part, Level, stages-Level}

count_halvings-pow : (k fuel : ℕ) → k < fuel → count_halvings fuel (2 ^ k) ≡ k
unfolding count_halvings
count_halvings-pow k zero h = absurd (omega arith)
count_halvings-pow zero (suc fuel) h = refl
count_halvings-pow (suc k) (suc fuel) h =
    let half : 2 ^ suc k / 2 ≡ 2 ^ k = omega (arith, two-pow-succ k) in
    let many : (2 ^ k == 0) ≡ false = ground (arith, one-le-pow k 2 (omega arith)) in
    rw (half, many, count_halvings-pow k fuel (omega arith)) refl

-- The last loop of `FFT` copies what it should.
pub copied_to :
    {A : Type 0} (from dst : ℕ → A) (n t : ℕ)
    → t < n
    → for_up n (λ i d. store d i (from i)) dst t ≡ from t
copied_to from dst n t h =
    for_up_inv (λ i d. (j : ℕ) → j < i → d j ≡ from j) (λ i d. store d i (from i)) n dst
      (λ i d below inv j lt. ground (arith, inv j)) (λ j lt. absurd (omega arith)) t h

-- A loop that changes each entry in its place.
in_place_all :
    {A : Type 0} (f : A → A) (n t : ℕ) (x : ℕ → A)
    → for_up n (λ k y. store y k (f (y k))) x t ≡ (if ltb t n then f (x t) else x t)
unfolding for_up
in_place_all f zero t x = ground arith
in_place_all f (suc n) t x = ground (arith, in_place_all f n t x, in_place_all f n n x)

pub in_place :
    {A : Type 0} (f : A → A) (n t : ℕ) (x : ℕ → A)
    → t < n
    → for_up n (λ k y. store y k (f (y k))) x t ≡ f (x t)
in_place f n t x lt = ground (arith, in_place_all f n t x)

module _ (D : Double) where
  -- The real numbers as complex ones.
  abbrev pub complexes : (ℕ → D.R) → ℕ → Complex D.R
  complexes src i = record { real = src i; imagin = D.of_ℕ 0 }

  -- The order in which `FFT_remap` leaves the elements is that of the first level.
  remapped-Level :
      (k : ℕ) (src s : ℕ → D.R)
      → Reversed src 0 k s
      → Level D (2 ^ k) (complexes src) k 0 (complexes s)
  remapped-Level k src s reversed b t hb ht =
      let place : b * 2 ^ 0 + t ≡ 0 + b = omega arith in
      let index : 0 + reverse_bits k b ≡ reverse_bits k b + 0 * 2 ^ k = omega arith in
      ap (complexes s) place
      ∙ ap (λ v. record { real = v; imagin = D.of_ℕ 0 }) (reversed.inside b hb)
      ∙ ap (complexes src) index
      ∙ sym (transform_zero D (2 ^ k) (2 ^ k) t (part D (2 ^ k) (complexes src) k b))

  pub whole_part : (k : ℕ) (x : ℕ → Complex D.R) (n : ℕ) → part D (2 ^ k) x 0 0 n ≡ x n
  whole_part k x n =
      ap x
        (let index : reverse_bits 0 0 + n * 2 ^ 0 ≡ n = omega (arith, reverse_bits_zero 0) in index)

  fft_lem :
      (heap : ℕ → D.R) (fuel k : ℕ) (src s : ℕ → D.R) (dst : ℕ → Complex D.R)
      → count_halvings fuel (2 ^ k) ≡ k
      → fft_remap heap fuel src 0 (2 ^ k) ≡ some s
      → fft D heap fuel src dst (2 ^ k)
        ≡ some (for_up (2 ^ k) (λ i d. store d i (fft_stages D (2 ^ k) k (complexes s) i)) dst)
  unfolding fft
  fft_lem heap fuel k src s dst halvings mapped =
      let same : (2 ^ k == 2 ^ k) ≡ true = ground arith in rw (mapped, fft, halvings, same) refl

  -- On `2 ^ k` numbers `FFT` ends and writes their recursive transform, whatever the arithmetic of
  -- `double` is and whatever `dst` and the allocated memory held.
  pub fft-transform :
      (heap : ℕ → D.R) (fuel k : ℕ) (src : ℕ → D.R) (dst : ℕ → Complex D.R)
      → k < fuel
      → (d : ℕ → Complex D.R) × (fft D heap fuel src dst (2 ^ k) ≡ some d)
        × ((t : ℕ) → t < 2 ^ k → d t ≡ transform D (2 ^ k) 1 k (complexes src) t)
  unfolding fft_stages
  fft-transform heap fuel k src dst h =
      let (s, mapped, reversed) = fft_remap-Reversed heap k fuel src 0 h in
      let done =
        stages-Level D (2 ^ k) (complexes src) k k 0 (complexes s) refl (omega arith)
          (remapped-Level k src s reversed) in
      (
        _,
        fft_lem heap fuel k src s dst (count_halvings-pow k fuel h) mapped,
        λ t lt.
            (copied_to (fft_stages D (2 ^ k) k (complexes s)) dst (2 ^ k) t lt
              ∙ ap (fft_stages D (2 ^ k) k (complexes s))
                  (let place : t ≡ 0 * 2 ^ k + t = omega arith in place)
              ∙ done 0 t (omega arith) lt
              ∙ ap (λ f. transform D (2 ^ k) 1 k f t)
                  (fun_ext (λ n. whole_part k (complexes src) n))),
      )
