-- ===== src/ParallelFft/Schedule.antt =====
-- `step` with its iterations divided among threads, and their stores interleaved in any order.
use Prim.{tt}
use sql_code.Common.{
  ℕ, ◌+◌, ◌*◌, ◌/◌, ◌==◌, ltb, ◌≡◌, sym, ap, ◌∙◌, arith, Bool, true, false, ◌||◌, Bool-cases, inl,
  inr, List, [], ◌∷◌, ◌++◌, map, fun_ext,
}
use sql_code.Fourier.{Double}
use sql_code.ParallelFft.{Logarithm, step}
use sql_code.ParallelFft.Stores.{
  Store, occurs, occurs-append, AllOf, AllOf-append, AllOf-swap, stored_else, stores_up,
  stores_up_without,
}
use sql_code.ParallelFft.Threads.{
  System, Run, Finished, pending, AllThreads, Agrees, Run-Agrees, Finished-Agrees,
}
use sql_code.ParallelFft.Step.{
  iteration_stores, iteration_stores-AllOf, step-stored, at_iteration, after,
}

-- Whether an iteration is among those of a thread.
abbrev pub has_iteration : ℕ → List ℕ → Bool
has_iteration j [] = false
has_iteration j (x ∷ xs) = j == x || has_iteration j xs

-- Whether it is among those of some thread.
abbrev pub assigned : ℕ → List (List ℕ) → Bool
assigned j [] = false
assigned j (t ∷ ts) = has_iteration j t || assigned j ts

-- The threads have the iterations of the loop, each of them and no other.
abbrev pub Divides : ℕ → List (List ℕ) → Type 0
Divides lj division = (j : ℕ) → assigned j division ≡ ltb j lj

module _ {R : Type 0} (f : ℕ → List (Store R)) where
  abbrev pub all_stores : List ℕ → List (Store R)
  all_stores [] = []
  all_stores (j ∷ js) = f j ++ all_stores js

  occurs-all_stores :
      (i j : ℕ) (js : List ℕ)
      → has_iteration j js ≡ true
      → occurs i (f j) ≡ true
      → occurs i (all_stores js) ≡ true
  occurs-all_stores i j [] h o = absurd (ground arith)
  occurs-all_stores i j (x ∷ xs) h o = elim (Bool-cases (j == x)) [
    | inl same ↦
        occurs-append i (f x) (all_stores xs)
        ∙ ground (arith, ap (λ m. occurs i (f m)) (let e : j ≡ x = ground arith in e))
    | inr other ↦
        occurs-append i (f x) (all_stores xs)
        ∙ ground (arith, occurs-all_stores i j xs (ground arith) o)
  ]

  occurs-pending :
      (i j : ℕ) (division : List (List ℕ))
      → assigned j division ≡ true
      → occurs i (f j) ≡ true
      → pending i (map all_stores division) ≡ true
  occurs-pending i j [] h o = absurd (ground arith)
  occurs-pending i j (t ∷ ts) h o = elim (Bool-cases (has_iteration j t)) [
    | inl here ↦ ground (arith, occurs-all_stores i j t here o)
    | inr other ↦ ground (arith, occurs-pending i j ts (ground arith) o)
  ]

  AllOf-all_stores :
      (v : ℕ → R) (js : List ℕ)
      → ((j : ℕ) → has_iteration j js ≡ true → AllOf v (f j))
      → AllOf v (all_stores js)
  AllOf-all_stores v [] h = tt
  AllOf-all_stores v (x ∷ xs) h =
      AllOf-append v (f x) (all_stores xs) (h x (ground arith))
        (AllOf-all_stores v xs (λ j o. h j (ground (arith, o))))

  AllThreads-map :
      (v : ℕ → R) (division : List (List ℕ))
      → ((j : ℕ) → assigned j division ≡ true → AllOf v (f j))
      → AllThreads v (map all_stores division)
  AllThreads-map v [] h = tt
  AllThreads-map v (t ∷ ts) h = (
    AllOf-all_stores v t (λ j o. h j (ground (arith, o))),
    AllThreads-map v ts (λ j o. h j (ground (arith, o))),
  )

module _ (D : Double) (L : Logarithm D) (n mj : ℕ) (from : ℕ → D.R) (b : ℕ) (to w : ℕ → D.R)
    (sgn : D.R) (division : List (List ℕ)) where
  -- The threads of `step` before their first store.
  abbrev pub threads_of_step : System D.R
  threads_of_step = record {
    threads = map (all_stores (iteration_stores D L mj from b w sgn)) division;
    memory = to;
  }

  abbrev left_by_step : ℕ → D.R
  left_by_step = step D L n mj from (0 * 2 + 0) b to (0 * 2 + 0) (mj * 2 + 0) w sgn

  module _ (divides : Divides (n / (2 * mj)) division) where
    start-Agrees : Agrees left_by_step threads_of_step
    start-Agrees = record {
      left = AllThreads-map (iteration_stores D L mj from b w sgn) left_by_step division (λ j o.
          AllOf-swap (after D L mj from b w sgn) left_by_step
            (iteration_stores D L mj from b w sgn j) (iteration_stores-AllOf D L mj from b w sgn j)
            (λ i h. at_iteration D L mj from b w sgn n to j (ground (arith, divides j)) i h));
      written = λ i none_left. sym (
          ap (λ a. a i) (step-stored D L mj from b w sgn n to)
          ∙ stored_else (stores_up (n / (2 * mj)) (iteration_stores D L mj from b w sgn)) to i (
              stores_up_without i (n / (2 * mj)) (iteration_stores D L mj from b w sgn) (λ j lt.
                elim (Bool-cases (occurs i (iteration_stores D L mj from b w sgn j))) [
                  | inl o ↦ absurd (
                      ground (
                        arith,
                        none_left,
                        occurs-pending (iteration_stores D L mj from b w sgn) i j division
                            (divides j ∙ ground arith) o,
                      ))
                  | inr none ↦ none
                ])));
    }

    -- The iterations of `step` can be divided among any number of threads in any way, and the stores of
    -- the threads can be interleaved in any order: when no thread has a store left, the array is what
    -- `step` leaves.
    pub step_interleaved :
        (s : System D.R)
        → Run threads_of_step s
        → Finished s.threads
        → s.memory ≡ step D L n mj from (0 * 2 + 0) b to (0 * 2 + 0) (mj * 2 + 0) w sgn
    step_interleaved s run finished =
        fun_ext (λ i.
          Finished-Agrees left_by_step s finished (Run-Agrees left_by_step run start-Agrees) i)
