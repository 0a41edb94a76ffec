-- ===== src/SerialFft/Stage.antt =====
-- One round of the outer loop of `fft`: a butterfly on each pair, in the order of the inner loops.
use native.Mathlib.Nat.{one-le-pow}
use sql_code.Common.{
  ℕ, ◌+◌, ◌^◌, ◌≡◌, ◌<◌, ◌≤◌, ◌⊎◌, refl, sym, ap, ap₂, ◌∙◌, arith, ltb, ◌==◌, ◌||◌, ◌&&◌, Bool,
  true, false, if◌then◌else◌, Bool-cases, inl, inr,
}
use sql_code.Fourier.{Double, Complex, add_complex, sub_complex}
use sql_code.Fourier.Blocks.{pair, pair-le}
use sql_code.SerialFft.{turned, pair_butterfly}

module _ (D : Double) (i m : ℕ) (a : ℕ → Complex D.R) (u : ℕ → Complex D.R) where
  abbrev product : ℕ → ℕ → Complex D.R
  product b t = turned D (a (pair i b + 2 ^ i + t)) (u t)

  -- The butterflies that `d` names have been done, the others have not.
  pub record Described (d : ℕ → ℕ → Bool) (c : ℕ → Complex D.R) : Type 0 where
    pub front :
        (b t : ℕ)
        → b < m
        → t < 2 ^ i
        → c (pair i b + t)
          ≡ (if d b t then add_complex D (a (pair i b + t)) (product b t) else a (pair i b + t))
    pub back :
        (b t : ℕ)
        → b < m
        → t < 2 ^ i
        → c (pair i b + 2 ^ i + t) ≡ (
            if d b t
            then sub_complex D (a (pair i b + t)) (product b t)
            else a (pair i b + 2 ^ i + t))
    pub rest : (x : ℕ) → pair i m ≤ x → c x ≡ a x

  -- Two pairs of blocks are one pair, or one is behind the other.
  ordered :
      (b n : ℕ)
      → (b ≡ n) ⊎ ((pair i b + 2 ^ i + 2 ^ i ≤ pair i n) ⊎ (pair i n + 2 ^ i + 2 ^ i ≤ pair i b))
  ordered b n = elim (Bool-cases (ltb b n)) [
    | inl less ↦ inr (inl (pair-le i b n (ground arith)))
    | inr not_less ↦ elim (Bool-cases (ltb n b)) [
      | inl more ↦ inr (inr (pair-le i n b (ground arith)))
      | inr same ↦ inl (ground arith)
    ]
  ]

  module _ (b t n s : ℕ) (ht : t < 2 ^ i) (hs : s < 2 ^ i) where
    -- Two butterflies share no cell.
    front_apart : ((b == n && t == s) ≡ false) → (pair i n + s == pair i b + t) ≡ false
    front_apart h = elim (ordered b n) [
      | inl e ↦ ground (arith, e, ap (pair i) e)
      | inr (inl less) ↦ ground arith
      | inr (inr more) ↦ ground arith
    ]

    crossed : (pair i n + s == pair i b + 2 ^ i + t) ≡ false
    crossed = elim (ordered b n) [
      | inl e ↦ ground (arith, ap (pair i) e)
      | inr (inl less) ↦ ground arith
      | inr (inr more) ↦ ground arith
    ]

    crossed_back : (pair i n + s + 2 ^ i == pair i b + t) ≡ false
    crossed_back = elim (ordered b n) [
      | inl e ↦ ground (arith, ap (pair i) e)
      | inr (inl less) ↦ ground arith
      | inr (inr more) ↦ ground arith
    ]

    back_apart :
        ((b == n && t == s) ≡ false) → (pair i n + s + 2 ^ i == pair i b + 2 ^ i + t) ≡ false
    back_apart h = ground (arith, front_apart h)

  module _ (n s : ℕ) (hs : s < 2 ^ i) (c : ℕ → Complex D.R) where
    abbrev place : ℕ
    place = pair i n + s

    abbrev behind : ℕ → Complex D.R
    behind = pair_butterfly D (2 ^ i) (u s) place c

    at_place : behind place ≡ add_complex D (c place) (turned D (c (place + 2 ^ i)) (u s))
    unfolding pair_butterfly
    at_place =
        let here : (place == place) ≡ true = ground arith in
        let other : (place + 2 ^ i == place) ≡ false =
          ground (arith, one-le-pow i 2 (omega arith)) in
        rw (here, other) refl

    at_partner :
        behind (place + 2 ^ i) ≡ sub_complex D (c place) (turned D (c (place + 2 ^ i)) (u s))
    unfolding pair_butterfly
    at_partner =
        let other : (place == place + 2 ^ i) ≡ false =
          ground (arith, one-le-pow i 2 (omega arith)) in
        let here : (place + 2 ^ i == place + 2 ^ i) ≡ true = ground arith in rw (other, here) refl

    elsewhere : (x : ℕ) → (place == x) ≡ false → (place + 2 ^ i == x) ≡ false → behind x ≡ c x
    unfolding pair_butterfly
    elsewhere x h k = rw (h, k) refl

    module _ (d : ℕ → ℕ → Bool) (hn : n < m) (fresh : d n s ≡ false) (r : Described d c) where
      abbrev also : ℕ → ℕ → Bool
      also b t = d b t || (b == n && t == s)

      before_front : c place ≡ a place
      before_front =
          r.front n s hn hs
          ∙ ap (λ z. if z then add_complex D (a place) (product n s) else a place) fresh

      before_back : c (place + 2 ^ i) ≡ a (pair i n + 2 ^ i + s)
      before_back =
          ap c (let e : place + 2 ^ i ≡ pair i n + 2 ^ i + s = omega arith in e)
          ∙ r.back n s hn hs
          ∙ ap (λ z. if z then sub_complex D (a place) (product n s) else a (pair i n + 2 ^ i + s))
              fresh

      pub butterfly_Described : Described also behind
      butterfly_Described = record {
        front = λ b t hb ht. elim (Bool-cases (b == n && t == s)) [
          | inl hit ↦
              let e : b ≡ n = ground arith in
              let f : t ≡ s = ground arith in
              let test : also b t ≡ true = ground arith in
              ap₂ (λ b t. behind (pair i b + t)) e f
              ∙ at_place
              ∙ ap₂ (λ v w. add_complex D v (turned D w (u s))) before_front before_back
              ∙ sym (ap₂ (λ b t. add_complex D (a (pair i b + t)) (product b t)) e f)
              ∙ sym (
                  ap
                    (λ z.
                      if z
                      then add_complex D (a (pair i b + t)) (product b t)
                      else a (pair i b + t))
                    test)
          | inr miss ↦
              let test : d b t ≡ also b t = ground arith in
              elsewhere (pair i b + t) (front_apart b t n s ht hs miss) (crossed_back b t n s ht hs)
              ∙ r.front b t hb ht
              ∙ ap
                  (λ z.
                    if z then add_complex D (a (pair i b + t)) (product b t) else a (pair i b + t))
                  test
        ];
        back = λ b t hb ht. elim (Bool-cases (b == n && t == s)) [
          | inl hit ↦
              let e : b ≡ n = ground arith in
              let f : t ≡ s = ground arith in
              let test : also b t ≡ true = ground arith in
              ap₂ (λ b t. behind (pair i b + 2 ^ i + t)) e f
              ∙ ap behind (let g : pair i n + 2 ^ i + s ≡ place + 2 ^ i = omega arith in g)
              ∙ at_partner
              ∙ ap₂ (λ v w. sub_complex D v (turned D w (u s))) before_front before_back
              ∙ sym (ap₂ (λ b t. sub_complex D (a (pair i b + t)) (product b t)) e f)
              ∙ sym (
                  ap
                    (λ z.
                      if z
                      then sub_complex D (a (pair i b + t)) (product b t)
                      else a (pair i b + 2 ^ i + t))
                    test)
          | inr miss ↦
              let test : d b t ≡ also b t = ground arith in
              elsewhere (pair i b + 2 ^ i + t) (crossed b t n s ht hs)
                (back_apart b t n s ht hs miss)
              ∙ r.back b t hb ht
              ∙ ap
                  (λ z.
                    if z
                    then sub_complex D (a (pair i b + t)) (product b t)
                    else a (pair i b + 2 ^ i + t))
                  test
        ];
        rest = λ x le.
            (let far : pair i n + 2 ^ i + 2 ^ i ≤ pair i m = pair-le i n m hn in
              elsewhere x (ground arith) (ground arith) ∙ r.rest x le);
      }
