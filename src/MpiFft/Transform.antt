-- ===== src/MpiFft/Transform.antt =====
-- All processes together compute the transform.
use sql_code.Common.{
  ℕ, zero, suc, ◌+◌, ◌-◌, ◌*◌, ◌^◌, ◌≡◌, ◌<◌, ◌≤◌, inl, inr, refl, ap, ap₂, ◌∙◌, arith, some, ltb,
  ◌==◌, ◌||◌, false, Bool-cases, fun_ext,
}
use sql_code.Fourier.{Double, Complex, store, multy_complex}
use sql_code.Fourier.Exact.{Exact}
use sql_code.Fourier.Sums.{csum}
use sql_code.Fourier.Root.{angle, forward}
use sql_code.MpiFft.{
  Evaluation, unit_roots, start_pos, stop_pos, partial_result, gathered, all_parts, mpi_transform,
  max_n,
}
use sql_code.MpiFft.Polynomial.{polynomial, polynomial-csum}
use sql_code.MpiFft.Gather.{range_positive, stop-lt, gathered_places}
use sql_code.MpiFft.Evaluate.{evaluate-Evaluated}
use sql_code.Fourier.Fft.{copied_to}

module _ (D : Double) (n size : ℕ) (e : Exact D (2 * n) (angle D (2 * n))) (numbers : 0 < n)
    (some_process : 0 < size) (enough : size ≤ 2 * n) (room : n ≤ max_n) where
  abbrev w_length : ℕ
  w_length = 2 * n

  unit_roots-forward :
      (w : ℕ → Complex D.R) (t : ℕ)
      → t < w_length
      → unit_roots D w_length w t ≡ forward D w_length e t
  unfolding unit_roots
  unit_roots-forward w t lt =
      copied_to _ w w_length t lt
      ∙ ap (λ x. record { real = D.cos x; imagin = D.sin x })
          (ap (λ x. D.div x (D.of_ℕ w_length))
            (ap (λ x. D.mul x D.m_pi) (e.of_ℕ-mul t 2)
              ∙ e.mul_assoc (D.of_ℕ t) (D.of_ℕ 2) D.m_pi
              ∙ e.mul_comm (D.of_ℕ t) (D.mul (D.of_ℕ 2) D.m_pi)))

  abbrev transformed : (ℕ → Complex D.R) → ℕ → Complex D.R
  transformed p t = csum D n (λ k. multy_complex D (p k) (forward D w_length e (t * k)))

  module _ (heap : ℕ → Complex D.R) (fuel : ℕ) (short : n ≤ 2 ^ suc fuel)
      (p : ℕ → Complex D.R) where
    place : (rank : ℕ) → rank < size → stop_pos w_length size rank < 2 * max_n
    place rank lt = omega (arith, stop-lt w_length size some_process enough rank lt)

    partial_result-transformed :
        (w s : ℕ → Complex D.R) (rank : ℕ)
        → rank < size
        → (r : Evaluation D) × (partial_result D heap (suc fuel) p n w s size rank ≡ some r)
          × ((t : ℕ)
              → start_pos w_length size rank ≤ t
              → t ≤ stop_pos w_length size rank
              → r.y t ≡ transformed p t)
    unfolding partial_result
    partial_result-transformed w s rank lt =
        let (r, run, done) =
          evaluate-Evaluated D w_length e heap (start_pos w_length size rank)
            (stop_pos w_length size rank) (range_positive w_length size some_process enough rank)
            (place rank lt) fuel p 0 (n - 1) (unit_roots D w_length w) s (omega arith) (omega arith)
            (omega (arith, short)) in
        (
          r,
          run,
          λ t lo hi.
              done.values t lo hi
              ∙ ap₂ (λ m x. polynomial D m (λ k. p (0 + k)) x)
                  (let all : n - 1 + 1 - 0 ≡ n = omega arith in all)
                  (unit_roots-forward w t
                    (omega (arith, stop-lt w_length size some_process enough rank lt)))
              ∙ ap (λ f. polynomial D n f (forward D w_length e t))
                  (fun_ext (λ k. ap p (let same : 0 + k ≡ k = omega arith in same)))
              ∙ polynomial-csum D w_length e n t p,
        )

    all_parts-transformed :
        (w s : ℕ → ℕ → Complex D.R) (count : ℕ)
        → count ≤ size
        → (parts : ℕ → ℕ → Complex D.R) × (all_parts D heap (suc fuel) p n w s size count
            ≡ some parts)
          × ((rank t : ℕ)
              → rank < count
              → start_pos w_length size rank ≤ t
              → t ≤ stop_pos w_length size rank
              → parts rank t ≡ transformed p t)
    unfolding all_parts
    all_parts-transformed w s zero le = (s, refl, λ rank t lt lo hi. absurd (omega arith))
    all_parts-transformed w s (suc count) le =
        let (parts, run, done) = all_parts-transformed w s count (omega arith) in
        let (r, last, value) =
          partial_result-transformed (w count) (parts count) count (omega arith) in
        (
          store parts count r.y,
          rw (run, last) refl,
          λ rank t lt lo hi. elim (Bool-cases (count == rank)) [
            | inl here ↦
                let same : count ≡ rank = ground arith in
                rw here (
                  value t (omega (arith, lo, ap (start_pos w_length size) same))
                    (omega (arith, hi, ap (stop_pos w_length size) same)))
            | inr there ↦ rw there (done rank t (ground arith) lo hi)
          ],
        )

start_zero : (w_length size t : ℕ) → start_pos w_length size 0 ≤ t
unfolding start_pos
start_zero w_length size t = omega arith

-- In exact arithmetic, with any number of processes from 1 to twice the number `n` of the numbers `p`,
-- of which there are at most 4096, and if MPI delivers what is sent: no process stops with an error, and the array that the process 0
-- sends to all of them holds, at each of the 2n places, the sum of the n numbers with the powers of
-- the 2n-th root of unity, whatever the arrays held before. The recursion has fuel for the halvings
-- of `n`.
pub mpi_transform-csum :
    (D : Double) (n size : ℕ) (deliver : (ℕ → ℕ → Complex D.R) → ℕ → ℕ → Complex D.R)
    (heap : ℕ → Complex D.R) (fuel : ℕ) (p : ℕ → Complex D.R) (w s : ℕ → ℕ → Complex D.R)
    → (e : Exact D (2 * n) (angle D (2 * n))) → 0 < n
    → 0 < size
    → size ≤ 2 * n
    → n ≤ max_n
    → n ≤ 2 ^ suc fuel
    → ((sent : ℕ → ℕ → Complex D.R) (rank k : ℕ) → deliver sent rank k ≡ sent rank k)
    → (d : ℕ → Complex D.R) × (mpi_transform D deliver heap (suc fuel) p n w s size ≡ some d)
      × ((t : ℕ)
          → t < 2 * n
          → d t ≡ csum D n (λ k. multy_complex D (p k) (forward D (2 * n) e (t * k))))
unfolding mpi_transform
mpi_transform-csum D n size deliver heap fuel p w s e numbers some_process enough room short
      delivers =
    let (parts, run, done) =
      all_parts-transformed D n size e numbers some_process enough room heap fuel short p w s size
        (omega arith) in
    let few : (ltb max_n n || ltb (2 * n) size) ≡ false = ground arith in
    let sent = λ (rank k : ℕ). parts rank (start_pos (2 * n) size rank + k) in
    (
      gathered (deliver sent) (2 * n) size (parts 0),
      rw (few, run) refl,
      λ t lt.
          elim (gathered_places (2 * n) size some_process enough (deliver sent) (parts 0) t lt) [
            | inl (own, same) ↦ same ∙ done 0 t some_process (start_zero (2 * n) size t) own
            | inr (i, k, positive, low, inside, place, same) ↦
                same
                ∙ delivers sent i k
                ∙ done i (start_pos (2 * n) size i + k) low (omega arith) inside
                ∙ ap (transformed D n size e numbers some_process enough room p) place
          ],
    )
