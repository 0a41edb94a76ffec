-- ===== src/MpiFft/Gather.antt =====
-- The ranges of the processes, and the array into which the process 0 gathers what they send.
use native.Mathlib.Nat.{mod-add-div, mod-lt, mul-le-mul_right, div-add-mod'}
use sql_code.Common.{
  ℕ, zero, suc, ◌+◌, ◌-◌, ◌*◌, ◌/◌, ◌%◌, ◌≡◌, ◌<◌, ◌≤◌, ◌⊎◌, inl, inr, refl, ap, ◌∙◌, arith, ltb,
  ◌==◌, Bool-cases, for_up,
}
use sql_code.MpiFft.{start_pos, stop_pos, gathered}
use sql_code.MpiFft.Shuffle.{stores, stores_inside, stores_outside}

-- The ranges, `average` being the number of places for each process and `more` what is left over for
-- the process 0.
module _ (w_length size : ℕ) (some_process : 0 < size) (enough : size ≤ w_length) where
  abbrev average : ℕ
  average = w_length / size

  abbrev more : ℕ
  more = w_length % size

  whole : more + size * average ≡ w_length
  whole = mod-add-div w_length size

  average_positive : 0 < average
  average_positive = elim (Bool-cases (average == 0)) [
    | inl none ↦
        let zero_each : average ≡ 0 = ground arith in
        let nothing : size * average ≡ 0 = ap (λ a. size * a) zero_each ∙ omega arith in
        absurd (omega (arith, whole, nothing, mod-lt w_length some_process))
    | inr each ↦ ground arith
  ]

  -- A process ends behind the places of those before it.
  below : (rank : ℕ) → rank < size → rank * average + average ≤ size * average
  below rank lt =
      let step : suc rank * average ≤ size * average = mul-le-mul_right average lt in
      omega (arith, step)

  pub range_positive : (rank : ℕ) → start_pos w_length size rank ≤ stop_pos w_length size rank
  unfolding start_pos stop_pos
  range_positive rank = ground (arith, average_positive)

  pub stop-lt : (rank : ℕ) → rank < size → stop_pos w_length size rank < w_length
  unfolding stop_pos
  stop-lt rank lt = ground (arith, average_positive, whole, below rank lt, below 0 some_process)

  other_process : (t u : ℕ) → more + average ≤ t → u ≡ t - more → 0 < u / average
  other_process t u behind same = elim (Bool-cases (u / average == 0)) [
    | inl none ↦
        let zero_th : u / average ≡ 0 = ground arith in
        let nothing : u / average * average ≡ 0 = ap (λ i. i * average) zero_th ∙ omega arith in
        absurd
          (omega (arith, div-add-mod' u average, nothing, mod-lt u average_positive, behind, same))
    | inr positive ↦ ground arith
  ]

  process_below : (t u : ℕ) → t < w_length → u ≡ t - more → 0 < u → u / average < size
  process_below t u lt same later = elim (Bool-cases (ltb (u / average) size)) [
    | inl low ↦ ground arith
    | inr high ↦
        let le : size ≤ u / average = ground arith in
        absurd (
          omega
            (arith, div-add-mod' u average, mul-le-mul_right average le, whole, lt, same, later))
  ]

  module _ {A : Type 0} (received : ℕ → ℕ → A) (s : ℕ → A) where
    rounds : ℕ → ℕ → A
    rounds c = for_up c (λ k a. stores (received (k + 1)) (more + (k + 1) * average) average a) s

    gathered-rounds : gathered received w_length size s ≡ rounds (size - 1)
    unfolding gathered rounds
    gathered-rounds = refl

    rounds_first : (c t : ℕ) → t < more + average → rounds c t ≡ s t
    unfolding rounds for_up
    rounds_first zero t lt = refl
    rounds_first (suc c) t lt =
        stores_outside (received (c + 1)) (more + (c + 1) * average) average (rounds c) t (
          inl (
            let step : 1 * average ≤ (c + 1) * average = mul-le-mul_right average (omega arith) in
            omega (arith, step)))
        ∙ rounds_first c t lt

    rounds_at :
        (c i k : ℕ) → 0 < i → i ≤ c → k < average → rounds c (more + i * average + k) ≡ received i k
    unfolding rounds for_up
    rounds_at zero i k pos le lt = absurd (omega arith)
    rounds_at (suc c) i k pos le lt = elim (Bool-cases (i == c + 1)) [
      | inl last ↦
          let same : c + 1 ≡ i = ground arith in
          ap
            (λ n.
              stores (received n) (more + n * average) average (rounds c) (more + i * average + k))
            same
          ∙ stores_inside (received i) (more + i * average) average (rounds c) k lt
      | inr earlier ↦
          let step : suc i * average ≤ (c + 1) * average =
            mul-le-mul_right average (ground arith) in
          stores_outside (received (c + 1)) (more + (c + 1) * average) average (rounds c)
            (more + i * average + k) (inl (omega (arith, step)))
          ∙ rounds_at c i k pos (ground arith) lt
    ]

    -- Each place lies in the range of the process 0, or is one of those of another process.
    pub gathered_places :
        (t : ℕ)
        → t < w_length
        → ((t ≤ stop_pos w_length size 0) × (gathered received w_length size s t ≡ s t))
          ⊎ ((i : ℕ) × (k : ℕ) × (0 < i)
              × (i < size)
              × (start_pos w_length size i + k ≤ stop_pos w_length size i)
              × (start_pos w_length size i + k ≡ t)
              × (gathered received w_length size s t ≡ received i k))
    unfolding start_pos stop_pos
    gathered_places t lt = elim (Bool-cases (ltb t (more + average))) [
      | inl first ↦ inl (
        omega (arith, average_positive, (let l : t < more + average = ground arith in l)),
        ap (λ a. a t) gathered-rounds ∙ rounds_first (size - 1) t (ground arith),
      )
      | inr later ↦
          let u = t - more in
          let i = u / average in
          let k = u % average in
          let behind : more + average ≤ t = ground arith in
          let split : i * average + k ≡ u = div-add-mod' u average in
          let small : k < average = mod-lt u average_positive in
          let positive : 0 < i = other_process t u behind refl in
          let low : i < size =
            process_below t u lt refl (omega (arith, behind, average_positive)) in
          inr (
            i,
            k,
            positive,
            low,
            ground (arith, small),
            ground (arith, split, behind),
            ap (gathered received w_length size s)
                  (let place : t ≡ more + i * average + k = omega (arith, split, behind) in place)
                ∙ ap (λ a. a (more + i * average + k)) gathered-rounds
                ∙ rounds_at (size - 1) i k positive (omega (arith, low)) small,
          )
    ]
