-- ===== src/FftUtils.antt =====
-- The helpers of Greenplum/functions/c/fourier_transform/fft_serial/fft_utils.c. In `dsp_max_min_val`
-- a value is a `float`, of which only the comparison `less` is used; `shrt_min` and `shrt_max` are the
-- two constants as `float`. A `uint32_t` is a number below 2^32, and a shift to the right is a
-- division by a power of 2.
pub mod Log
mod Tests
use Prim.Native.Nat.{bit_and, bit_or}
use sql_code.Common.{
  ℕ, zero, suc, ◌-◌, ◌/◌, ◌^◌, ◌==◌, ◌≡◌, ◌⊎◌, inl, inr, refl, sym, ap, ◌∙◌, arith, List, [], ◌∷◌,
  Bool, true, false, some, get_elem?, if◌then◌else◌, Bool-cases,
}

-- `ones_32`, on fuel; `n - 1` is only computed where n is not 0.
unfoldable pub ones_32 : ℕ → ℕ → ℕ
ones_32 zero n = 0
ones_32 (suc fuel) n = let rest = ones_32 fuel (bit_and n (n - 1)) in if n == 0 then 0 else suc rest

-- `x |= (x >> s)`
unfoldable pub smear : ℕ → ℕ → ℕ
smear s x = bit_or x (x / 2 ^ s)

unfoldable pub floor_log2_32 : ℕ → ℕ → ℕ
unfolding smear ones_32
floor_log2_32 fuel x =
    let smeared = smear 16 (smear 8 (smear 4 (smear 2 (smear 1 x)))) in ones_32 fuel (smeared / 2)

-- `*max` and `*min`.
pub record Extremes (V : Type 0) : Type 0 where
  pub max : V
  pub min : V

module _ {V : Type 0} (less : V → V → Bool) where
  -- One round of the loop: a value above the maximum is not compared with the minimum.
  unfoldable pub observe : Extremes V → V → Extremes V
  observe e x =
      if less e.max x
      then record { max = x; min = e.min }
      else if less x e.min
      then record { max = e.max; min = x }
      else e

  unfoldable pub scan : List V → Extremes V → Extremes V
  unfolding observe
  scan [] e = e
  scan (x ∷ xs) e = scan xs (observe e x)

  unfoldable pub dsp_max_min_val : V → V → List V → Extremes V
  unfolding scan
  dsp_max_min_val shrt_min shrt_max xs = scan xs (record { max = shrt_min; min = shrt_max })

  -- The values rise, from one above `m` on.
  abbrev pub IsRising : V → List V → Type 0
  IsRising m [] = Unit {0}
  IsRising m (x ∷ xs) = (less m x ≡ true) × IsRising x xs

  observe_above :
      (e : Extremes V) (x : V) → less e.max x ≡ true → observe e x ≡ record { max = x; min = e.min }
  unfolding observe
  observe_above e x h = rw h refl

  observe_below : (e : Extremes V) (x : V) → less e.max x ≡ false → (observe e x).max ≡ e.max
  unfolding observe
  observe_below e x h = ground arith

  scan_rising : (xs : List V) (e : Extremes V) → IsRising e.max xs → (scan xs e).min ≡ e.min
  unfolding scan
  scan_rising [] e h = refl
  scan_rising (x ∷ xs) e h =
      ap (λ d. (scan xs d).min) (observe_above e x h.0)
      ∙ scan_rising xs (record { max = x; min = e.min }) h.1

  -- On values that rise from one above `SHRT_MIN` on, the minimum that the code gives is `SHRT_MAX`,
  -- whatever the values are.
  pub dsp_max_min_val_rising :
      (shrt_min shrt_max : V) (xs : List V)
      → IsRising shrt_min xs
      → (dsp_max_min_val shrt_min shrt_max xs).min ≡ shrt_max
  unfolding dsp_max_min_val
  dsp_max_min_val_rising shrt_min shrt_max xs h =
      scan_rising xs (record { max = shrt_min; min = shrt_max }) h

  -- What is assumed of the comparison, which holds of numbers.
  pub record Ordered : Type 0 where
    pub asymmetric : (a b : V) → less a b ≡ true → less b a ≡ false
    pub not_less_trans : (a b c : V) → less a b ≡ false → less b c ≡ false → less a c ≡ false

  module _ (ordered : Ordered) where
    not_less_refl : (a : V) → less a a ≡ false
    not_less_refl a = elim (Bool-cases (less a a)) [ inl e ↦ ordered.asymmetric a a e | inr e ↦ e ]

    observe_max :
        (e : Extremes V) (x : V)
        → (less (observe e x).max e.max ≡ false) × (less (observe e x).max x ≡ false)
    observe_max e x = elim (Bool-cases (less e.max x)) [
      | inl above ↦
          let now = ap (λ d. d.max) (observe_above e x above) in
          (
            ap (λ m. less m e.max) now ∙ ordered.asymmetric e.max x above,
            ap (λ m. less m x) now ∙ not_less_refl x,
          )
      | inr below ↦
          let now = observe_below e x below in
          (ap (λ m. less m e.max) now ∙ not_less_refl e.max, ap (λ m. less m x) now ∙ below)
    ]

    scan_max : (xs : List V) (e : Extremes V) → less (scan xs e).max e.max ≡ false
    unfolding scan
    scan_max [] e = not_less_refl e.max
    scan_max (x ∷ xs) e =
        ordered.not_less_trans _ (observe e x).max e.max (scan_max xs (observe e x))
          (observe_max e x).0

    scan_above :
        (xs : List V) (e : Extremes V) (i : ℕ) {x : V}
        → get_elem? xs i ≡ some x
        → less (scan xs e).max x ≡ false
    unfolding scan
    scan_above [] e i h = cc
    scan_above (y ∷ xs) e zero {x} h =
        ordered.not_less_trans _ (observe e y).max x (scan_max xs (observe e y))
          (cc ((observe_max e y).1))
    scan_above (y ∷ xs) e (suc i) h = scan_above xs (observe e y) i h

    scan_attained :
        (xs : List V) (e : Extremes V)
        → ((scan xs e).max ≡ e.max) ⊎ ((i : ℕ) × (get_elem? xs i ≡ some (scan xs e).max))
    unfolding scan
    scan_attained [] e = inl refl
    scan_attained (x ∷ xs) e = elim (scan_attained xs (observe e x)) [
      | inr (i, h) ↦ inr (suc i, h)
      | inl same ↦ elim (Bool-cases (less e.max x)) [
        | inl above ↦ inr (0, ap some (sym (same ∙ ap (λ d. d.max) (observe_above e x above))))
        | inr below ↦ inl (same ∙ observe_below e x below)
      ]
    ]

    -- The maximum is below no value of the signal, and it is a value of the signal or `SHRT_MIN`.
    pub dsp_max_min_val-max :
        (shrt_min shrt_max : V) (xs : List V)
        → ((i : ℕ) (x : V)
            → get_elem? xs i ≡ some x
            → less (dsp_max_min_val shrt_min shrt_max xs).max x ≡ false)
          × (((dsp_max_min_val shrt_min shrt_max xs).max ≡ shrt_min)
              ⊎ ((i : ℕ) × (get_elem? xs i ≡ some (dsp_max_min_val shrt_min shrt_max xs).max)))
    unfolding dsp_max_min_val
    dsp_max_min_val-max shrt_min shrt_max xs = (
      λ i x h. scan_above xs (record { max = shrt_min; min = shrt_max }) i h,
      scan_attained xs (record { max = shrt_min; min = shrt_max }),
    )
