-- ===== src/MpiFft/Shuffle.antt =====
-- `shuffle` puts the elements of even position in front of those of odd position.
use sql_code.Common.{
  ℕ, zero, suc, ◌+◌, ◌-◌, ◌*◌, ◌/◌, ◌≡◌, ◌<◌, ◌≤◌, ◌⊎◌, inl, inr, refl, ap, ◌∙◌, arith, for_up,
  ◌==◌, Bool-cases, true, false,
}
use sql_code.Fourier.{store}
use sql_code.MpiFft.{copied_range, shuffle_round, shuffle}

module _ {A : Type 0} where
  -- Writes to successive cells.
  abbrev pub stores : (ℕ → A) → ℕ → ℕ → (ℕ → A) → ℕ → A
  stores v first n a = for_up n (λ k b. store b (first + k) (v k)) a

  pub stores_inside :
      (v : ℕ → A) (first n : ℕ) (a : ℕ → A) (k : ℕ) → k < n → stores v first n a (first + k) ≡ v k
  unfolding for_up
  stores_inside v first zero a k lt = absurd (omega arith)
  stores_inside v first (suc n) a k lt = elim (Bool-cases (n == k)) [
    | inl last ↦
        let same : n ≡ k = ground arith in
        let hit : (first + n == first + k) ≡ true = ground arith in rw hit (ap v same)
    | inr earlier ↦
        let miss : (first + n == first + k) ≡ false = ground arith in
        rw miss (stores_inside v first n a k (ground arith))
  ]

  pub stores_outside :
      (v : ℕ → A) (first n : ℕ) (a : ℕ → A) (t : ℕ)
      → (t < first) ⊎ (first + n ≤ t)
      → stores v first n a t ≡ a t
  unfolding for_up
  stores_outside v first zero a t out = refl
  stores_outside v first (suc n) a t out =
      let miss : (first + n == t) ≡ false = ground arith in
      rw miss (stores_outside v first n a t (omega arith))

  rounds-stores :
      (temp : ℕ → A) (i j n : ℕ) (f : ℕ → A)
      → for_up n (λ k. shuffle_round temp (i + k * 2)) (record { j = j; f = f })
        ≡ record { j = j + n; f = stores (λ k. temp (i + k * 2)) j n f }
  unfolding for_up shuffle_round
  rounds-stores temp i j zero f =
      ap (λ m. record { j = m; f = f }) (let none : j ≡ j + 0 = omega arith in none)
  rounds-stores temp i j (suc n) f =
      ap (shuffle_round temp (i + n * 2)) (rounds-stores temp i j n f)
      ∙ ap (λ m. record { j = m; f = stores (λ k. temp (i + k * 2)) j (suc n) f })
          (let next : j + n + 1 ≡ j + suc n = omega arith in next)

  module _ (heap f : ℕ → A) (b e : ℕ) (some : b ≤ e) where
    abbrev temp : ℕ → A
    temp = copied_range f b e heap

    abbrev front_size : ℕ
    front_size = (e + 2 - b) / 2

    abbrev back_size : ℕ
    back_size = (e + 1 - b) / 2

    abbrev front_part : ℕ → A
    front_part = stores (λ k. temp (b + k * 2)) b front_size f

    temp-same : (k : ℕ) → k < e + 1 - b → temp (b + k) ≡ f (b + k)
    temp-same k lt = stores_inside (λ n. f (b + n)) b (e + 1 - b) heap k lt

    shuffle-stores :
        shuffle heap f b e
        ≡ stores (λ k. temp (b + 1 + k * 2)) (b + front_size) back_size front_part
    unfolding shuffle
    shuffle-stores =
        ap (λ s. (for_up back_size (λ n. shuffle_round temp (b + 1 + n * 2)) s).f)
          (rounds-stores temp b b front_size f)
        ∙ ap (λ s. s.f) (rounds-stores temp (b + 1) (b + front_size) back_size front_part)

    pub shuffle_front : (k : ℕ) → k < front_size → shuffle heap f b e (b + k) ≡ f (b + k * 2)
    shuffle_front k lt =
        ap (λ a. a (b + k)) shuffle-stores
        ∙ stores_outside _ (b + front_size) back_size front_part (b + k) (omega arith)
        ∙ stores_inside (λ n. temp (b + n * 2)) b front_size f k lt
        ∙ temp-same (k * 2) (omega arith)

    pub shuffle_back :
        (k : ℕ) → k < back_size → shuffle heap f b e (b + front_size + k) ≡ f (b + (k * 2 + 1))
    shuffle_back k lt =
        let place : b + 1 + k * 2 ≡ b + (k * 2 + 1) = omega arith in
        ap (λ a. a (b + front_size + k)) shuffle-stores
        ∙ stores_inside (λ n. temp (b + 1 + n * 2)) (b + front_size) back_size front_part k lt
        ∙ ap temp place
        ∙ temp-same (k * 2 + 1) (omega arith)

    pub shuffle_outside : (t : ℕ) → (t < b) ⊎ (e < t) → shuffle heap f b e t ≡ f t
    shuffle_outside t out =
        ap (λ a. a t) shuffle-stores
        ∙ stores_outside _ (b + front_size) back_size front_part t (omega arith)
        ∙ stores_outside _ b front_size f t (omega arith)
