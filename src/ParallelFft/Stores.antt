-- ===== src/ParallelFft/Stores.antt =====
-- An array after a list of stores.
use Prim.{Unit, tt}
use sql_code.Common.{
  ℕ, zero, suc, ◌==◌, ◌≡◌, ◌<◌, refl, sym, ap, ◌∙◌, arith, Bool, true, false, for_up, List, [], ◌∷◌,
  ◌++◌, ◌||◌, Bool-cases, inl, inr,
}
use sql_code.Fourier.{store}

pub record Store (R : Type 0) : Type 0 where
  pub at : ℕ
  pub value : R

module _ {R : Type 0} where
  abbrev pub stored : List (Store R) → (ℕ → R) → ℕ → R
  stored [] a = a
  stored (s ∷ ss) a = stored ss (store a s.at s.value)

  abbrev pub occurs : ℕ → List (Store R) → Bool
  occurs i [] = false
  occurs i (s ∷ ss) = i == s.at || occurs i ss

  -- Each store gives its cell the value that `v` has there.
  abbrev pub AllOf : (ℕ → R) → List (Store R) → Type 0
  AllOf v [] = Unit
  AllOf v (s ∷ ss) = (s.value ≡ v s.at) × AllOf v ss

  stored-append :
      (ss ts : List (Store R)) (a : ℕ → R) → stored (ss ++ ts) a ≡ stored ts (stored ss a)
  stored-append [] ts a = refl
  stored-append (s ∷ ss) ts a = stored-append ss ts (store a s.at s.value)

  pub occurs-append :
      (i : ℕ) (ss ts : List (Store R)) → occurs i (ss ++ ts) ≡ (occurs i ss || occurs i ts)
  occurs-append i [] ts = refl
  occurs-append i (s ∷ ss) ts = ground (arith, occurs-append i ss ts)

  pub AllOf-append :
      (v : ℕ → R) (ss ts : List (Store R)) → AllOf v ss → AllOf v ts → AllOf v (ss ++ ts)
  AllOf-append v [] ts all rest = rest
  AllOf-append v (s ∷ ss) ts (here, all) rest = (here, AllOf-append v ss ts all rest)

  pub store_at :
      (a v : ℕ → R) (s : Store R) (i : ℕ)
      → s.value ≡ v s.at
      → i ≡ s.at
      → store a s.at s.value i ≡ v i
  store_at a v s i h e = ground (arith, e, h, ap v e)

  pub store_else :
      (a : ℕ → R) (s : Store R) (i : ℕ) → (i == s.at) ≡ false → store a s.at s.value i ≡ a i
  store_else a s i h = ground arith

  -- Where no store is made the array is as it was.
  pub stored_else :
      (ss : List (Store R)) (a : ℕ → R) (i : ℕ) → occurs i ss ≡ false → stored ss a i ≡ a i
  stored_else [] a i h = refl
  stored_else (s ∷ ss) a i h = elim (Bool-cases (i == s.at)) [
    | inl here ↦ absurd (let both : occurs i (s ∷ ss) ≡ true = rw here refl in ground arith)
    | inr there ↦
        stored_else ss (store a s.at s.value) i (sym (ap (λ b. b || occurs i ss) there) ∙ h)
        ∙ store_else a s i there
  ]

  -- Where one is made the array has the value of `v`.
  pub stored-AllOf :
      (ss : List (Store R)) (a v : ℕ → R) (i : ℕ)
      → AllOf v ss
      → occurs i ss ≡ true
      → stored ss a i ≡ v i
  stored-AllOf [] a v i all h = absurd (ground arith)
  stored-AllOf (s ∷ ss) a v i (first, all) h = elim (Bool-cases (occurs i ss)) [
    | inl later ↦ stored-AllOf ss (store a s.at s.value) v i all later
    | inr last ↦ elim (Bool-cases (i == s.at)) [
      | inl here ↦
          stored_else ss (store a s.at s.value) i last ∙ store_at a v s i first (ground arith)
      | inr there ↦ absurd (ground arith)
    ]
  ]

  -- The stores of `n` rounds of a loop.
  abbrev pub stores_up : ℕ → (ℕ → List (Store R)) → List (Store R)
  stores_up zero f = []
  stores_up (suc n) f = stores_up n f ++ f n

  pub for_up-stored :
      (n : ℕ) (f : ℕ → List (Store R)) (a : ℕ → R)
      → for_up n (λ k b. stored (f k) b) a ≡ stored (stores_up n f) a
  unfolding for_up
  for_up-stored zero f a = refl
  for_up-stored (suc n) f a =
      ap (stored (f n)) (for_up-stored n f a) ∙ sym (stored-append (stores_up n f) (f n) a)

  pub stores_up-AllOf :
      (v : ℕ → R) (n : ℕ) (f : ℕ → List (Store R))
      → ((k : ℕ) → k < n → AllOf v (f k))
      → AllOf v (stores_up n f)
  stores_up-AllOf v zero f all = tt
  stores_up-AllOf v (suc n) f all =
      AllOf-append v (stores_up n f) (f n) (stores_up-AllOf v n f (λ k h. all k (omega arith)))
        (all n (omega arith))

  pub occurs-stores_up :
      (i n k : ℕ) (f : ℕ → List (Store R))
      → k < n
      → occurs i (f k) ≡ true
      → occurs i (stores_up n f) ≡ true
  occurs-stores_up i zero k f h o = absurd (omega arith)
  occurs-stores_up i (suc n) k f h o = elim (Bool-cases (k == n)) [
    | inl same ↦
        occurs-append i (stores_up n f) (f n)
        ∙ ground (arith, ap (λ m. occurs i (f m)) (let e : k ≡ n = ground arith in e))
    | inr other ↦
        occurs-append i (stores_up n f) (f n)
        ∙ ground (arith, occurs-stores_up i n k f (ground arith) o)
  ]

  -- What occurs in no round occurs nowhere.
  pub stores_up_without :
      (i n : ℕ) (f : ℕ → List (Store R))
      → ((k : ℕ) → k < n → occurs i (f k) ≡ false)
      → occurs i (stores_up n f) ≡ false
  stores_up_without i zero f h = refl
  stores_up_without i (suc n) f h =
      occurs-append i (stores_up n f) (f n)
      ∙ ground (arith, stores_up_without i n f (λ k lt. h k (omega arith)), h n (omega arith))

  pub AllOf-swap :
      (u v : ℕ → R) (ss : List (Store R))
      → AllOf u ss
      → ((i : ℕ) → occurs i ss ≡ true → v i ≡ u i)
      → AllOf v ss
  AllOf-swap u v [] all h = tt
  AllOf-swap u v (s ∷ ss) (here, all) h =
      (here ∙ sym (h s.at (ground arith)), AllOf-swap u v ss all (λ i o. h i (ground (arith, o))))
