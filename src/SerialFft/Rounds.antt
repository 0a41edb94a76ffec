-- ===== src/SerialFft/Rounds.antt =====
-- One round of the sorting at the beginning of `fft`.
use sql_code.Common.{
  ℕ, suc, ◌^◌, ◌≡◌, ◌≢◌, ◌<◌, ◌≤◌, refl, sym, ap, ◌∙◌, arith, leb, ltb, ◌==◌, ◌||◌, true, false,
  if◌then◌else◌, Bool-cases, inl, inr,
}
use sql_code.Fourier.Order.{reverse_bits, reverse_bits-lt, reverse_bits_twice}
use sql_code.SerialFft.{swap}

module _ {A : Type 0} (k : ℕ) (x : ℕ → A) where
  -- The array when the elements up to `n` have been put into their places.
  abbrev pub sorted_up_to : ℕ → ℕ → A
  sorted_up_to n a = if leb a n || leb (reverse_bits k a) n then x (reverse_bits k a) else x a

  pub sorted_done :
      (n a : ℕ)
      → (leb a n || leb (reverse_bits k a) n) ≡ true
      → sorted_up_to n a ≡ x (reverse_bits k a)
  sorted_done n a h = rw h refl

  pub sorted_not_yet :
      (n a : ℕ) → (leb a n || leb (reverse_bits k a) n) ≡ false → sorted_up_to n a ≡ x a
  sorted_not_yet n a h = rw h refl

  module _ (n : ℕ) (y : ℕ → A) (below : suc n < 2 ^ k)
      (inv : (b : ℕ) → b < 2 ^ k → y b ≡ sorted_up_to n b) where
    abbrev partner : ℕ
    partner = reverse_bits k (suc n)

    -- An index that neither is the round's nor its partner is as it was.
    others :
        (a : ℕ) → a < 2 ^ k → a ≢ suc n → a ≢ partner → sorted_up_to n a ≡ sorted_up_to (suc n) a
    others a lt other not_partner =
        let apart : reverse_bits k a ≢ suc n =
          λ e. not_partner (sym (reverse_bits_twice k a lt) ∙ ap (reverse_bits k) e) in
        let same : (leb a n || leb (reverse_bits k a) n)
            ≡ (leb a (suc n) || leb (reverse_bits k a) (suc n)) =
          ground (arith, other, apart) in
        ap (λ b. if b then x (reverse_bits k a) else x a) same

    -- The two that change places,
    exchanged :
        suc n < partner
        → (y partner ≡ sorted_up_to (suc n) (suc n)) × (y (suc n) ≡ sorted_up_to (suc n) partner)
    exchanged above =
        let back : reverse_bits k partner ≡ suc n = reverse_bits_twice k (suc n) below in
        (
          inv partner (reverse_bits-lt k (suc n) below)
              ∙ sorted_not_yet n partner (ground (arith, back))
              ∙ sym (sorted_done (suc n) (suc n) (ground arith)),
          inv (suc n) below
              ∙ sorted_not_yet n (suc n) (ground arith)
              ∙ ap x (sym back)
              ∙ sym (sorted_done (suc n) partner (ground (arith, back))),
        )

    -- and an index that has its place already.
    settled : partner ≤ suc n → y (suc n) ≡ sorted_up_to (suc n) (suc n)
    settled le = elim (Bool-cases (partner == suc n)) [
      | inl fixed ↦
          inv (suc n) below
          ∙ sorted_not_yet n (suc n) (ground arith)
          ∙ ap x (let e : suc n ≡ partner = ground arith in e)
          ∙ sym (sorted_done (suc n) (suc n) (ground arith))
      | inr earlier ↦
          inv (suc n) below
          ∙ sorted_done n (suc n) (ground arith)
          ∙ sym (sorted_done (suc n) (suc n) (ground arith))
    ]

    settled_partner :
        (a : ℕ) → a < 2 ^ k → a ≡ partner → a < suc n → sorted_up_to n a ≡ sorted_up_to (suc n) a
    settled_partner a lt e less =
        sorted_done n a (ground arith) ∙ sym (sorted_done (suc n) a (ground arith))

    pub round_sorted :
        (a : ℕ)
        → a < 2 ^ k
        → (if ltb (suc n) partner then swap y (suc n) partner else y) a ≡ sorted_up_to (suc n) a
    unfolding swap
    round_sorted a lt = elim (Bool-cases (ltb (suc n) partner)) [
      | inl above ↦
          ap (λ b. (if b then swap y (suc n) partner else y) a) above
          ∙ elim (Bool-cases (suc n == a)) [
            | inl here ↦
                let e : suc n ≡ a = ground arith in
                ap (λ b. if b then y partner else (if partner == a then y (suc n) else y a)) here
                ∙ (exchanged (ground arith)).0
                ∙ ap (sorted_up_to (suc n)) e
            | inr elsewhere ↦
                ap (λ b. if b then y partner else (if partner == a then y (suc n) else y a))
                  elsewhere
                ∙ elim (Bool-cases (partner == a)) [
                  | inl there ↦
                      let e : partner ≡ a = ground arith in
                      ap (λ b. if b then y (suc n) else y a) there
                      ∙ (exchanged (ground arith)).1
                      ∙ ap (sorted_up_to (suc n)) e
                  | inr nowhere ↦
                      ap (λ b. if b then y (suc n) else y a) nowhere
                      ∙ inv a lt
                      ∙ others a lt (λ e. absurd (ground (arith, e)))
                          (λ e. absurd (ground (arith, e)))
                ]
          ]
      | inr not_above ↦
          ap (λ b. (if b then swap y (suc n) partner else y) a) not_above
          ∙ elim (Bool-cases (a == suc n)) [
            | inl here ↦
                let e : a ≡ suc n = ground arith in
                ap y e ∙ settled (ground arith) ∙ ap (sorted_up_to (suc n)) (sym e)
            | inr elsewhere ↦ inv a lt ∙ elim (Bool-cases (a == partner)) [
              | inl there ↦ settled_partner a lt (ground arith) (ground arith)
              | inr nowhere ↦
                  others a lt (λ e. absurd (ground (arith, e))) (λ e. absurd (ground (arith, e)))
            ]
          ]
    ]
