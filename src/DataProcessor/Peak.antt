-- ===== src/DataProcessor/Peak.antt =====
-- The peak that `get_peak_pos` finds.
use sql_code.Common.{
  ℕ, suc, ◌+◌, ◌-◌, ◌/◌, ◌≡◌, ◌<◌, ◌≤◌, ◌⊎◌, inl, inr, refl, ap, ◌∙◌, subst, arith, true, false,
  Bool-cases, ltb, for_up_inv,
}
use sql_code.Fourier.{Complex}
use sql_code.Fourier.Fft.{in_place}
use sql_code.DataProcessor.{
  Floats, Search, DataProcessor, to_freq, convert_to_freq, magnitude, complex_abs, exceeds,
  peak_round, get_peak_pos, start_of, data_processor_run,
}

module _ (F : Floats) where
  open F use {double, less}
  open double use {R, of_ℕ, sub, mul, div}

  -- What is assumed of the comparison, which holds of numbers.
  pub record Ordered : Type 0 where
    pub not_less_trans : (a b c : R) → less a b ≡ false → less b c ≡ false → less a c ≡ false
    pub self : (a : R) → exceeds F a a ≡ false
    pub farther : (a b c : R) → exceeds F a b ≡ true → less (sub c b) (sub c a) ≡ false

  -- Of the values at the places from `from` on and below `to`, none exceeds this one.
  abbrev pub NoneExceeds : (ℕ → R) → ℕ → ℕ → R → Type 0
  NoneExceeds v from to m = (i : ℕ) → from ≤ i → i < to → exceeds F (v i) m ≡ false

  -- The place of a peak among these values, or 0 if all are next to zero or below.
  abbrev pub IsPeak : (ℕ → R) → ℕ → ℕ → ℕ → Type 0
  IsPeak v from to p =
      ((p ≡ 0) × NoneExceeds v from to (of_ℕ 0))
      ⊎ ((from ≤ p) × (p < to) × NoneExceeds v from to (v p))

  module _ (ordered : Ordered) (c : ℕ → Complex R) (from : ℕ) where
    abbrev value : ℕ → R
    value i = (c i).real

    abbrev Searched : ℕ → Search R → Type 0
    Searched k s =
        NoneExceeds value from (from + k) s.maxdata
        × (((s.pos ≡ 0) × (s.maxdata ≡ of_ℕ 0))
            ⊎ ((from ≤ s.pos) × (s.pos < from + k) × (s.maxdata ≡ value s.pos)))

    lower : (m w x : R) → exceeds F x m ≡ true → exceeds F w m ≡ false → exceeds F w x ≡ false
    lower m w x above below =
        ordered.not_less_trans _ (sub w m) _ below (ordered.farther x m w above)

    one_more :
        (k : ℕ) (m : R)
        → NoneExceeds value from (from + k) m
        → exceeds F (value (from + k)) m ≡ false
        → NoneExceeds value from (from + suc k) m
    one_more k m none_above last i le lt = elim (Bool-cases (ltb i (from + k))) [
      | inl before ↦ none_above i le (ground arith)
      | inr behind ↦
          let here : from + k ≡ i = ground arith in
          subst (λ j. exceeds F (value j) m ≡ false) here last
    ]

    peak_round-Searched :
        (k : ℕ) (s : Search R) → Searched k s → Searched (suc k) (peak_round F c (from + k) s)
    unfolding peak_round
    peak_round-Searched k s (none_above, found) =
        elim (Bool-cases (exceeds F (value (from + k)) s.maxdata)) [
          | inl above ↦ rw above (
            one_more k _ (λ i le lt. lower s.maxdata (value i) _ above (none_above i le lt))
                (ordered.self _),
            inr (omega arith, omega arith, refl),
          )
          | inr below ↦ rw below (
            one_more k _ none_above below,
            elim found [
              | inl nothing ↦ inl nothing
              | inr (le, lt, held) ↦ inr (le, omega arith, held)
            ],
          )
        ]

    get_peak_pos-IsPeak : (nfft : ℕ) → IsPeak value from (nfft / 2) (get_peak_pos F c nfft from)
    unfolding get_peak_pos
    get_peak_pos-IsPeak nfft =
        let to = nfft / 2 in
        let start : Search R = record { pos = 0; maxdata = of_ℕ 0 } in
        let (none_above, found) =
          for_up_inv Searched (λ k. peak_round F c (from + k)) (to - from) start
            (λ k s lt searched. peak_round-Searched k s searched)
            ((λ i le lt. absurd (omega arith)), inl (refl, refl)) in
        elim found [
          | inl (at_zero, nothing) ↦ inl (
            at_zero,
            λ i le lt.
                subst (λ m. exceeds F (value i) m ≡ false) nothing (none_above i le (omega arith)),
          )
          | inr (le, lt, held) ↦ inr (
            le,
            omega arith,
            λ i le lt.
                subst (λ m. exceeds F (value i) m ≡ false) held (none_above i le (omega arith)),
          )
        ]

  -- `data_processor_run` replaces what `kiss_fft` computes by the absolute values, each divided by half
  -- the length and one. The frequency that it returns is that of a place in the first half, from 500 Hz on,
  -- whose value no other there exceeds by more than a ten-thousandth, or 0 if none exceeds 0 so; under
  -- laws of the comparison that hold of numbers.
  pub data_processor_run-IsPeak :
      (kiss_fft : ℕ → (ℕ → Complex R) → ℕ → Complex R) (dfft : DataProcessor R)
      → Ordered
      → ((i : ℕ)
          → i < dfft.nfft
          → (data_processor_run F kiss_fft dfft).dfft.cout i
            ≡ magnitude F (to_freq F dfft.nfft (kiss_fft dfft.nfft dfft.cin i)))
        × ((p : ℕ) × ((data_processor_run F kiss_fft dfft).frequence
              ≡ div (mul (of_ℕ p) dfft.sample_hz) (of_ℕ dfft.nfft))
            × IsPeak
                (λ i. ((data_processor_run F kiss_fft dfft).dfft.cout i).real)
                (start_of F dfft.nfft (of_ℕ 500) dfft.sample_hz)
                (dfft.nfft / 2)
                p)
  unfolding data_processor_run convert_to_freq complex_abs
  data_processor_run-IsPeak kiss_fft dfft ordered =
      let n = dfft.nfft in
      let spectrum = kiss_fft n dfft.cin in
      let freq = convert_to_freq F n spectrum in
      (
        (λ i lt.
            in_place (magnitude F) n i freq lt
            ∙ ap (magnitude F) (in_place (to_freq F n) n i spectrum lt)),
        (
          _,
          refl,
          get_peak_pos-IsPeak ordered (complex_abs F n freq)
              (start_of F n (of_ℕ 500) dfft.sample_hz) n,
        ),
      )
