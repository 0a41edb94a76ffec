-- ===== src/MpiFft/Evaluate.antt =====
-- `evaluate` computes values of a polynomial.
use native.Mathlib.Nat.{two-pow-succ}
use sql_code.Common.{
  leb, ℕ, zero, suc, ◌+◌, ◌-◌, ◌*◌, ◌/◌, ◌^◌, ◌≡◌, ◌<◌, ◌≤◌, ◌⊎◌, inl, inr, refl, sym, ap, ap₂, ◌∙◌,
  arith, some, ltb, ◌==◌, ◌||◌, true, false, Bool-cases,
}
use sql_code.Fourier.{Double, Complex, add_complex, multy_complex}
use sql_code.Fourier.Exact.{Exact}
use sql_code.MpiFft.{comp_add, comp_multiply, filled, shuffle, Evaluation, evaluate, max_n}
use sql_code.MpiFft.Shuffle.{
  stores_inside, stores_outside, shuffle_front, shuffle_back, shuffle_outside,
}
use sql_code.MpiFft.Polynomial.{
  polynomial, polynomial_split, polynomial_cong, polynomial_one, polynomial_two,
}

module _ (D : Double) where
  comp_add-add : (a b : Complex D.R) → comp_add D a b ≡ add_complex D a b
  unfolding comp_add add_complex
  comp_add-add a b = refl

  comp_multiply-multy : (a b : Complex D.R) → comp_multiply D a b ≡ multy_complex D a b
  unfolding comp_multiply multy_complex
  comp_multiply-multy a b = refl

  filled_inside :
      (value : ℕ → Complex D.R) (l r : ℕ) (y : ℕ → Complex D.R) (i : ℕ)
      → l ≤ i
      → i ≤ r
      → filled D value l r y i ≡ value i
  filled_inside value l r y i lo hi =
      let place : l + (i - l) ≡ i = omega arith in
      ap (filled D value l r y) (sym place)
      ∙ stores_inside (λ n. value (l + n)) l (r + 1 - l) y (i - l) (omega arith)
      ∙ ap value place

  filled_outside :
      (value : ℕ → Complex D.R) (l r : ℕ) (y : ℕ → Complex D.R) (i : ℕ)
      → l ≤ r
      → (i < l) ⊎ (r < i)
      → filled D value l r y i ≡ y i
  filled_outside value l r y i range out =
      stores_outside (λ n. value (l + n)) l (r + 1 - l) y i (omega arith)

  -- What `evaluate` leaves: the values of the polynomial that stands between `b` and `e`, at the
  -- places from `l` to `r`; all else in `y`, and the rest of `f`, as it was.
  pub record Evaluated (f : ℕ → Complex D.R) (b e : ℕ) (x y : ℕ → Complex D.R) (l r : ℕ)
      (s : Evaluation D) : Type 0 where
    pub values : (i : ℕ) → l ≤ i → i ≤ r → s.y i ≡ polynomial D (e + 1 - b) (λ k. f (b + k)) (x i)
    pub rest : (i : ℕ) → (i < l) ⊎ (r < i) → s.y i ≡ y i
    pub outside : (t : ℕ) → (t < b) ⊎ (e < t) → s.f t ≡ f t

  module _ (size_n : ℕ) {turn : ℕ → D.R} (ex : Exact D size_n turn) (heap : ℕ → Complex D.R)
      (fuel : ℕ) (f : ℕ → Complex D.R) (b e : ℕ) (x y : ℕ → Complex D.R) (l r : ℕ)
      (range : l ≤ r) where
    abbrev Done : ℕ → Type 0
    Done fuel =
        (s : Evaluation D) × (evaluate D heap (suc fuel) f b e x y l r ≡ some s)
        × Evaluated f b e x y l r s

    evaluate_one : b ≡ e → Done fuel
    unfolding evaluate
    evaluate_one same =
        let forward : (ltb e b || ltb r l) ≡ false = ground arith in
        let hit : (b == e) ≡ true = ground arith in
        (
          record { f = f; y = filled D (λ i. f b) l r y },
          rw (forward, hit) refl,
          record {
            values = λ i lo hi.
                filled_inside (λ i. f b) l r y i lo hi
                ∙ ap f (let here : b ≡ b + 0 = omega arith in here)
                ∙ sym (polynomial_one D size_n ex (λ k. f (b + k)) (x i))
                ∙ ap (λ n. polynomial D n (λ k. f (b + k)) (x i))
                    (let one : 1 ≡ e + 1 - b = omega (arith, same) in one);
            rest = λ i out. filled_outside (λ i. f b) l r y i range out;
            outside = λ t out. refl;
          },
        )

    evaluate_two : b + 1 ≡ e → Done fuel
    unfolding evaluate
    evaluate_two next =
        let forward : (ltb e b || ltb r l) ≡ false = ground arith in
        let miss : (b == e) ≡ false = ground arith in
        let hit : (b + 1 == e) ≡ true = ground arith in
        let value = λ (i : ℕ). comp_add D (f b) (comp_multiply D (f e) (x i)) in
        (
          record { f = f; y = filled D value l r y },
          rw (forward, miss, hit) refl,
          record {
            values = λ i lo hi.
                filled_inside value l r y i lo hi
                ∙ comp_add-add _ _
                ∙ ap₂ (add_complex D) (ap f (let here : b ≡ b + 0 = omega arith in here))
                    (comp_multiply-multy _ _ ∙ ap (λ a. multy_complex D (f a) (x i)) (sym next))
                ∙ sym (polynomial_two D size_n ex (λ k. f (b + k)) (x i))
                ∙ ap (λ n. polynomial D n (λ k. f (b + k)) (x i))
                    (let two : 2 ≡ e + 1 - b = omega (arith, next) in two);
            rest = λ i out. filled_outside value l r y i range out;
            outside = λ t out. refl;
          },
        )

    evaluate_cases : b ≤ e → (b + 1 < e → Done fuel) → Done fuel
    evaluate_cases forward longer = elim (Bool-cases (b == e)) [
      | inl one ↦ evaluate_one (ground arith)
      | inr more ↦ elim (Bool-cases (b + 1 == e)) [
        | inl two ↦ evaluate_two (ground arith)
        | inr far ↦ longer (ground arith)
      ]
    ]

    module _ (longer : b + 1 < e) where
      abbrev mid : ℕ
      mid = (b + e) / 2

      abbrev mixed : ℕ → Complex D.R
      mixed = shuffle heap f b e

      abbrev squares : ℕ → Complex D.R
      squares = filled D (λ i. comp_multiply D (x i) (x i)) l r heap

      abbrev joined : Evaluation D → Evaluation D → Evaluation D
      joined s1 s2 = record {
        f = s2.f;
        y = filled D (λ i. comp_add D (s1.y i) (comp_multiply D (x i) (s2.y i))) l r y;
      }

      evaluate_halves :
          (g : ℕ) (s1 s2 : Evaluation D)
          → e < 2 * max_n
          → r < 2 * max_n
          → evaluate D heap g mixed b mid squares heap l r ≡ some s1
          → evaluate D heap g s1.f (mid + 1) e squares heap l r ≡ some s2
          → evaluate D heap (suc g) f b e x y l r ≡ some (joined s1 s2)
      unfolding evaluate
      evaluate_halves g s1 s2 room place e1 e2 =
          let forward : (ltb e b || ltb r l) ≡ false = ground arith in
          let miss : (b == e) ≡ false = ground arith in
          let miss_next : (b + 1 == e) ≡ false = ground arith in
          let inside : (leb (2 * max_n) e || leb (2 * max_n) r) ≡ false = ground arith in
          rw (forward, miss, miss_next, inside, e1, e2) refl

      module _ (s1 s2 : Evaluation D) (v1 : Evaluated mixed b mid squares heap l r s1)
          (v2 : Evaluated s1.f (mid + 1) e squares heap l r s2) where
        even_values :
            (i : ℕ)
            → l ≤ i
            → i ≤ r
            → s1.y i
              ≡ polynomial D
                  ((e + 1 - b + 1) / 2)
                  (λ k. f (b + k * 2))
                  (multy_complex D (x i) (x i))
        even_values i lo hi =
            v1.values i lo hi
            ∙ ap₂ (λ n z. polynomial D n (λ k. mixed (b + k)) z)
                (let count : mid + 1 - b ≡ (e + 1 - b + 1) / 2 = omega arith in count)
                (filled_inside (λ i. comp_multiply D (x i) (x i)) l r heap i lo hi
                  ∙ comp_multiply-multy (x i) (x i))
            ∙ polynomial_cong D size_n ex _ _ _ _
                (λ k lt. shuffle_front heap f b e (omega arith) k (omega arith))

        odd_values :
            (i : ℕ)
            → l ≤ i
            → i ≤ r
            → s2.y i
              ≡ polynomial D
                  ((e + 1 - b) / 2)
                  (λ k. f (b + (k * 2 + 1)))
                  (multy_complex D (x i) (x i))
        odd_values i lo hi =
            v2.values i lo hi
            ∙ ap₂ (λ n z. polynomial D n (λ k. s1.f (mid + 1 + k)) z)
                (let count : e + 1 - (mid + 1) ≡ (e + 1 - b) / 2 = omega arith in count)
                (filled_inside (λ i. comp_multiply D (x i) (x i)) l r heap i lo hi
                  ∙ comp_multiply-multy (x i) (x i))
            ∙ polynomial_cong D size_n ex _ _ _ _ (λ k lt.
              v1.outside (mid + 1 + k) (inr (omega arith))
              ∙ ap mixed (let place : mid + 1 + k ≡ b + (e + 2 - b) / 2 + k = omega arith in place)
              ∙ shuffle_back heap f b e (omega arith) k (omega arith))

        joined-Evaluated : Evaluated f b e x y l r (joined s1 s2)
        joined-Evaluated = record {
          values = λ i lo hi.
              filled_inside (λ i. comp_add D (s1.y i) (comp_multiply D (x i) (s2.y i))) l r y i lo
                hi
              ∙ comp_add-add _ _
              ∙ ap₂ (add_complex D) (even_values i lo hi)
                  (comp_multiply-multy _ _ ∙ ap (multy_complex D (x i)) (odd_values i lo hi))
              ∙ sym (polynomial_split D size_n ex (e + 1 - b) (λ k. f (b + k)) (x i));
          rest = λ i out.
              filled_outside (λ i. comp_add D (s1.y i) (comp_multiply D (x i) (s2.y i))) l r y i
                range out;
          outside = λ t out.
              v2.outside t (omega arith)
              ∙ v1.outside t (omega arith)
              ∙ shuffle_outside heap f b e (omega arith) t out;
        }

  module _ (size_n : ℕ) {turn : ℕ → D.R} (ex : Exact D size_n turn) (heap : ℕ → Complex D.R)
      (l r : ℕ) (range : l ≤ r) (place : r < 2 * max_n) where
    -- In exact arithmetic `evaluate` ends on any range of coefficients that is not empty, with fuel
    -- for the halvings of the length, and on any range of places that is not empty, both within the
    -- 8192 elements of the local arrays: there `y` holds the values, at the numbers in `x`, of the
    -- polynomial with these coefficients, and elsewhere what it held; outside of the range of
    -- coefficients `f` is unchanged.
    pub evaluate-Evaluated :
        (fuel : ℕ) (f : ℕ → Complex D.R) (b e : ℕ) (x y : ℕ → Complex D.R)
        → b ≤ e
        → e < 2 * max_n
        → e + 1 - b ≤ 2 ^ suc fuel
        → (s : Evaluation D) × (evaluate D heap (suc fuel) f b e x y l r ≡ some s)
          × Evaluated f b e x y l r s
    evaluate-Evaluated zero f b e x y forward room short =
        evaluate_cases size_n ex heap zero f b e x y l r range forward
          (λ longer. absurd (omega (arith, short, longer)))
    evaluate-Evaluated (suc fuel) f b e x y forward room short =
        evaluate_cases size_n ex heap (suc fuel) f b e x y l r range forward (λ longer.
          let mid = (b + e) / 2 in
          let mixed = shuffle heap f b e in
          let xs = filled D (λ i. comp_multiply D (x i) (x i)) l r heap in
          let (s1, e1, v1) =
            evaluate-Evaluated fuel mixed b mid xs heap (omega arith) (omega arith)
              (omega (arith, two-pow-succ (suc fuel))) in
          let (s2, e2, v2) =
            evaluate-Evaluated fuel s1.f (mid + 1) e xs heap (omega arith) (omega arith)
              (omega (arith, two-pow-succ (suc fuel))) in
          (
            joined size_n ex heap fuel f b e x y l r range longer s1 s2,
            evaluate_halves size_n ex heap fuel f b e x y l r range longer (suc fuel) s1 s2 room
                place e1 e2,
            joined-Evaluated size_n ex heap fuel f b e x y l r range longer s1 s2 v1 v2,
          ))
