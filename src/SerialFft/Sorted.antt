-- ===== src/SerialFft/Sorted.antt =====
-- The sorting at the beginning of `fft` puts the elements in the order of their reversed bits.
use native.Mathlib.Nat.{two-pow-succ, one-le-pow}
use sql_code.Common.{
  ℕ, suc, ◌+◌, ◌-◌, ◌*◌, ◌/◌, ◌^◌, ◌≡◌, ◌<◌, sym, ap, ap₂, ◌∙◌, arith, leb, ltb, ◌==◌, ◌||◌,
  if◌then◌else◌, Bool-cases, inl, inr, for_up_inv, some,
}
use sql_code.Fourier.{fft_remap}
use sql_code.Fourier.Remap.{fft_remap-Reversed}
use sql_code.Fourier.Order.{reverse_bits, reverse_bits-lt, reverse_bits_twice, reverse_bits_odd}
use sql_code.SerialFft.{carried, Sorting, swap, sort_round, bit_reversal_sort}
use sql_code.SerialFft.Carry.{carried-reverse_bits, reverse_bits-zero}
use sql_code.SerialFft.Rounds.{sorted_up_to, sorted_done, sorted_not_yet, round_sorted}

module _ {A : Type 0} (m fuel : ℕ) (enough : m < fuel) (x : ℕ → A) where
  -- Behind the rounds up to `n`.
  record Rounds (n : ℕ) (s : Sorting A) : Type 0 where
    next : s.j ≡ reverse_bits (suc m) (suc n)
    so_far : (a : ℕ) → a < 2 ^ suc m → s.x a ≡ sorted_up_to (suc m) x n a

  Rounds-start : Rounds 0 (record { j = 2 ^ suc m / 2; x = x })
  Rounds-start = record {
    next = sym (
        ap (reverse_bits (suc m)) (let e : 1 ≡ 0 * 2 + 1 = omega arith in e)
        ∙ reverse_bits_odd m 0 (one-le-pow m 2 (omega arith))
        ∙ omega (arith, reverse_bits-zero m, two-pow-succ m));
    so_far = λ a lt. elim (Bool-cases (leb a 0 || leb (reverse_bits (suc m) a) 0)) [
      | inr not_yet ↦ sym (sorted_not_yet (suc m) x 0 a not_yet)
      | inl done ↦
          let back = reverse_bits_twice (suc m) a lt in
          let none = reverse_bits-zero (suc m) in
          let nothing : a ≡ 0 = elim (Bool-cases (a == 0)) [
            | inl e ↦ ground arith
            | inr e ↦
                sym back
                ∙ ap (reverse_bits (suc m)) (let r : reverse_bits (suc m) a ≡ 0 = ground arith in r)
                ∙ none
          ] in
          ap x (nothing ∙ sym none ∙ ap (reverse_bits (suc m)) (sym nothing))
          ∙ sym (sorted_done (suc m) x 0 a done)
    ];
  }

  Rounds-suc :
      (n : ℕ) (s : Sorting A)
      → n < 2 ^ suc m - 2
      → Rounds n s
      → Rounds (suc n) (sort_round fuel (2 ^ suc m / 2) (n + 1) s)
  unfolding sort_round
  Rounds-suc n s below r =
      let one_more : n + 1 ≡ suc n = omega arith in
      let half : 2 ^ suc m / 2 ≡ 2 ^ m = omega (arith, two-pow-succ m) in
      record {
        next =
            ap₂ (carried fuel) half r.next
            ∙ carried-reverse_bits m fuel (suc n) enough (omega (arith, below));
        so_far = λ a lt.
            ap₂ (λ i j. (if ltb i j then swap s.x i j else s.x) a) one_more r.next
            ∙ round_sorted (suc m) x n s.x (omega (arith, below)) r.so_far a lt;
      }

  all_sorted :
      (a : ℕ)
      → a < 2 ^ suc m
      → sorted_up_to (suc m) x (2 ^ suc m - 2) a ≡ x (reverse_bits (suc m) a)
  all_sorted a lt =
      elim (Bool-cases (leb a (2 ^ suc m - 2) || leb (reverse_bits (suc m) a) (2 ^ suc m - 2))) [
        | inl done ↦ sorted_done (suc m) x (2 ^ suc m - 2) a done
        | inr last ↦
            sorted_not_yet (suc m) x (2 ^ suc m - 2) a last
            ∙ ap x (ground (arith, reverse_bits-lt (suc m) a lt))
      ]

  -- On `2 ^ k` elements, k at least 1, the sorting puts at each index the element whose index has its
  -- k bits reversed; its inner loop ends, with fuel for k rounds.
  pub bit_reversal_sort-reverse_bits :
      (a : ℕ) → a < 2 ^ suc m → bit_reversal_sort fuel (2 ^ suc m) x a ≡ x (reverse_bits (suc m) a)
  unfolding bit_reversal_sort
  bit_reversal_sort-reverse_bits a lt =
      let end =
        for_up_inv Rounds (λ i. sort_round fuel (2 ^ suc m / 2) (i + 1)) (2 ^ suc m - 2)
          (record { j = 2 ^ suc m / 2; x = x }) Rounds-suc Rounds-start in
      end.so_far a lt ∙ all_sorted a lt

  -- It is what `FFT_remap` makes of the same elements.
  pub bit_reversal_sort-fft_remap :
      (heap : ℕ → A) (depth : ℕ)
      → suc m < depth
      → (s : ℕ → A) × (fft_remap heap depth x 0 (2 ^ suc m) ≡ some s)
        × ((a : ℕ) → a < 2 ^ suc m → bit_reversal_sort fuel (2 ^ suc m) x a ≡ s a)
  bit_reversal_sort-fft_remap heap depth deep =
      let (s, run, reversed) = fft_remap-Reversed heap (suc m) depth x 0 deep in
      (
        s,
        run,
        λ a lt.
            bit_reversal_sort-reverse_bits a lt
            ∙ ap x (let e : reverse_bits (suc m) a ≡ 0 + reverse_bits (suc m) a = omega arith in e)
            ∙ sym (reversed.inside a lt)
            ∙ ap s (let e : 0 + a ≡ a = omega arith in e),
      )
