-- ===== src/Greenplum/Calls.antt =====
-- Successive calls of a set-returning function.
use sql_code.Common.{
  ℕ, zero, suc, ◌+◌, ◌≡◌, ◌<◌, ◌≤◌, refl, ap₂, ◌∙◌, List, [], ◌∷◌, Option, none, some, arith,
}
use sql_code.Greenplum.{FuncCallContext, SrfCall, return_next, return_done, error}

-- The rows of successive calls, from what the server holds of the function, `none` before the first
-- call; `none` as the answer means that an error was raised or that the fuel did not last.
unfoldable pub rows {ℓ} :
    {A R : Type ℓ}
    → (Option (FuncCallContext A) → SrfCall A R)
    → ℕ
    → Option (FuncCallContext A)
    → Option (List R)
rows call zero ctx = none
rows call (suc fuel) ctx = elim (call ctx) [
  | return_next r ctx' ↦
      let later = rows call fuel (some ctx') in elim later [ none ↦ none | some rs ↦ some (r ∷ rs) ]
  | return_done ↦ some []
  | error m ↦ none
]

-- `f i`, `f (i + 1)`, ..., `n` of them.
abbrev pub from {ℓ} : {R : Type ℓ} → (ℕ → R) → ℕ → ℕ → List R
from f i zero = []
from f i (suc n) = f i ∷ from f (suc i) n

module _ {ℓ} {A R : Type ℓ} (call : Option (FuncCallContext A) → SrfCall A R) (f : ℕ → R)
    (ctx : ℕ → FuncCallContext A) where
  -- A function that gives row `i` at its call `i` up to a bound gives those rows.
  rows-from :
      (n fuel i : ℕ)
      → ((j : ℕ) → i ≤ j → j < i + n → call (some (ctx j)) ≡ return_next (f j) (ctx (suc j)))
      → call (some (ctx (i + n))) ≡ return_done
      → n < fuel
      → rows call fuel (some (ctx i)) ≡ some (from f i n)
  unfolding rows
  rows-from n zero i each end h = absurd (omega arith)
  rows-from zero (suc fuel) i each end h =
      let here : i + 0 ≡ i = omega arith in rw (rw here at end, rows) refl
  rows-from (suc n) (suc fuel) i each end h =
      let there : i + suc n ≡ suc i + n = omega arith in
      rw
        (
          each i (omega arith) (omega arith),
          rows,
          rows-from n fuel (suc i) (λ j lo hi. each j (omega arith) (omega arith)) (rw there at end)
              (omega arith),
        )
        refl

  rows_at_first :
      (fuel : ℕ)
      → call none ≡ call (some (ctx 0))
      → rows call fuel none ≡ rows call fuel (some (ctx 0))
  unfolding rows
  rows_at_first zero e = refl
  rows_at_first (suc fuel) e = rw (e, rows) refl

  -- The same from the first call on.
  pub rows-from_start :
      (n fuel : ℕ)
      → call none ≡ call (some (ctx 0))
      → ((j : ℕ) → j < n → call (some (ctx j)) ≡ return_next (f j) (ctx (suc j)))
      → call (some (ctx n)) ≡ return_done
      → n < fuel
      → rows call fuel none ≡ some (from f 0 n)
  rows-from_start n fuel first each end h =
      let whole : 0 + n ≡ n = omega arith in
      rows_at_first fuel first
      ∙ rows-from n fuel 0 (λ j lo hi. each j (omega arith)) (rw whole end) h

pub from_ext {ℓ} :
    {R : Type ℓ} (f g : ℕ → R) (i n : ℕ) → ((j : ℕ) → f j ≡ g j) → from f i n ≡ from g i n
from_ext f g i zero e = refl
from_ext f g i (suc n) e = ap₂ ◌∷◌ (e i) (from_ext f g (suc i) n e)
