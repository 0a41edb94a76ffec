-- ===== src/MpiFft.antt =====
-- The transform of Greenplum/functions/c/fourier_transform/fft_parallel/mpi/fft_mpi.c. The arithmetic of
-- `double` is the parameter of Fourier, and an array is a function from its indices; a local array
-- that C does not initialise holds what the argument `heap` says. A `complex_t` is a pair of its two
-- numbers. `exit` and a write behind an array are `none`. What the code prints and measures is left out.
pub mod Shuffle
pub mod Polynomial
pub mod Evaluate
pub mod Gather
pub mod Transform
mod Tests
use sql_code.Common.{
  ℕ, zero, suc, ◌+◌, ◌-◌, ◌*◌, ◌/◌, ◌%◌, Option, none, some, ◌==◌, ltb, leb, ◌||◌, if◌then◌else◌,
  for_up,
}
use sql_code.Fourier.{Double, Complex, store}

-- The number of elements that `p` has; `s`, `w` and the local arrays have twice as many.
abbrev pub max_n : ℕ
max_n = 4096

-- `j` and `f` in `shuffle`.
pub record Shuffling (A : Type 0) : Type 0 where
  pub j : ℕ
  pub f : ℕ → A

-- The loop that copies `f` from `first` to `last` into `temp`.
abbrev pub copied_range : {A : Type 0} → (ℕ → A) → ℕ → ℕ → (ℕ → A) → ℕ → A
copied_range f first last temp =
    for_up (last + 1 - first) (λ n t. store t (first + n) (f (first + n))) temp

-- One round of either loop that follows, for `i`: `f[j] = temp[i]; j++;`
unfoldable pub shuffle_round : {A : Type 0} → (ℕ → A) → ℕ → Shuffling A → Shuffling A
shuffle_round temp i s = record { j = s.j + 1; f = store s.f s.j (temp i) }

-- `shuffle`, where `temp` has room for the range, which its caller checks here.
unfoldable pub shuffle : {A : Type 0} → (ℕ → A) → (ℕ → A) → ℕ → ℕ → ℕ → A
unfolding shuffle_round
shuffle heap f begin_pos end_pos =
    let temp = copied_range f begin_pos end_pos heap in
    let first =
      for_up ((end_pos + 2 - begin_pos) / 2) (λ n. shuffle_round temp (begin_pos + n * 2))
        (record { j = begin_pos; f = f }) in
    (for_up ((end_pos + 1 - begin_pos) / 2) (λ n. shuffle_round temp (begin_pos + 1 + n * 2))
      first).f

module _ (D : Double) where
  open D use {R, of_ℕ, m_pi, add, sub, mul, div, sin, cos}

  unfoldable pub comp_add : Complex R → Complex R → Complex R
  comp_add c1 c2 = record { real = add c1.real c2.real; imagin = add c1.imagin c2.imagin }

  unfoldable pub comp_multiply : Complex R → Complex R → Complex R
  comp_multiply c1 c2 = record {
    real = sub (mul c1.real c2.real) (mul c1.imagin c2.imagin);
    imagin = add (mul c1.real c2.imagin) (mul c2.real c1.imagin);
  }

  -- A loop that writes `value i` to `y[i]` from `left` to `right`.
  abbrev pub filled : (ℕ → Complex R) → ℕ → ℕ → (ℕ → Complex R) → ℕ → Complex R
  filled value left right y =
      for_up (right + 1 - left) (λ n a. store a (left + n) (value (left + n))) y

  -- `f` and `y`, which `evaluate` changes.
  pub record Evaluation : Type 0 where
    pub f : ℕ → Complex R
    pub y : ℕ → Complex R

  -- `evaluate` on fuel, of which the depth of the recursion is used up. A range that goes beyond the
  -- local arrays, of `shuffle` or its own, is a fault.
  unfoldable pub evaluate :
      (ℕ → Complex R)
      → ℕ
      → (ℕ → Complex R)
      → ℕ
      → ℕ
      → (ℕ → Complex R)
      → (ℕ → Complex R)
      → ℕ
      → ℕ
      → Option Evaluation
  unfolding comp_add comp_multiply shuffle
  evaluate heap zero f begin_pos end_pos x y left_pos right_pos = none
  evaluate heap (suc fuel) f begin_pos end_pos x y left_pos right_pos =
      let mid_pos = (begin_pos + end_pos) / 2 in
      let temp_x = filled (λ i. comp_multiply (x i) (x i)) left_pos right_pos heap in
      let recursive : Option Evaluation =
        elim (evaluate heap fuel (shuffle heap f begin_pos end_pos) begin_pos mid_pos temp_x heap
          left_pos right_pos) [
            | none ↦ none
            | some s1 ↦
                elim (evaluate heap fuel s1.f (mid_pos + 1) end_pos temp_x heap left_pos
                  right_pos) [
                    | none ↦ none
                    | some s2 ↦ some (record {
                      f = s2.f;
                      y =
                          filled (λ i. comp_add (s1.y i) (comp_multiply (x i) (s2.y i))) left_pos
                            right_pos y;
                    })
                  ]
          ] in
      if ltb end_pos begin_pos || ltb right_pos left_pos
      then none
      else if begin_pos == end_pos
      then some (record { f = f; y = filled (λ i. f begin_pos) left_pos right_pos y })
      else if begin_pos + 1 == end_pos
      then some (record {
        f = f;
        y =
            filled (λ i. comp_add (f begin_pos) (comp_multiply (f end_pos) (x i))) left_pos
              right_pos y;
      })
      else if leb (2 * max_n) end_pos || leb (2 * max_n) right_pos
      then none
      else recursive

  -- The array `w` of the powers of the root.
  unfoldable pub unit_roots : ℕ → (ℕ → Complex R) → ℕ → Complex R
  unit_roots w_length w =
      for_up w_length
        (λ i a. store a i (record {
          real = cos (div (mul (of_ℕ (i * 2)) m_pi) (of_ℕ w_length));
          imagin = sin (div (mul (of_ℕ (i * 2)) m_pi) (of_ℕ w_length));
        }))
        w

-- The range of the process `rank` of `size` processes.
unfoldable pub start_pos : ℕ → ℕ → ℕ → ℕ
start_pos w_length size rank = if rank == 0 then 0 else w_length % size + rank * (w_length / size)

unfoldable pub stop_pos : ℕ → ℕ → ℕ → ℕ
stop_pos w_length size rank =
    if rank == 0
    then w_length % size + w_length / size - 1
    else w_length % size + rank * (w_length / size) + w_length / size - 1

-- What a process computes of the numbers `p` that it has, in the globals `w` and `s`.
unfoldable pub partial_result :
    (D : Double)
    → (ℕ → Complex D.R)
    → ℕ
    → (ℕ → Complex D.R)
    → ℕ
    → (ℕ → Complex D.R)
    → (ℕ → Complex D.R)
    → ℕ
    → ℕ
    → Option (Evaluation D)
unfolding evaluate unit_roots start_pos stop_pos
partial_result D heap fuel p variable_num w s size rank =
    let w_length = 2 * variable_num in
    evaluate D heap fuel p 0 (variable_num - 1) (unit_roots D w_length w) s
      (start_pos w_length size rank) (stop_pos w_length size rank)

-- The process 0 receives the parts of the others, in the order of their ranks: `received i n` is the
-- n-th number of the message of the process i, as MPI_Recv stores it.
unfoldable pub gathered : {A : Type 0} → (ℕ → ℕ → A) → ℕ → ℕ → (ℕ → A) → ℕ → A
gathered received w_length size s =
    let average = w_length / size in
    for_up (size - 1)
      (λ k a.
        for_up average
          (λ n b. store b (w_length % size + (k + 1) * average + n) (received (k + 1) n)) a)
      s

-- The array `s` of each process with a rank below `count`; `w` and `s` are what the globals of the
-- processes held.
unfoldable pub all_parts :
    (D : Double)
    → (ℕ → Complex D.R)
    → ℕ
    → (ℕ → Complex D.R)
    → ℕ
    → (ℕ → ℕ → Complex D.R)
    → (ℕ → ℕ → Complex D.R)
    → ℕ
    → ℕ
    → Option (ℕ → ℕ → Complex D.R)
unfolding partial_result
all_parts D heap fuel p variable_num w s size zero = some s
all_parts D heap fuel p variable_num w s size (suc rank) =
    elim (all_parts D heap fuel p variable_num w s size rank) [
      | none ↦ none
      | some parts ↦
          elim (partial_result D heap fuel p variable_num (w rank) (parts rank) size rank) [
            | none ↦ none
            | some r ↦ some (store parts rank r.y)
          ]
    ]

-- The transform from the numbers `p` of the process 0 on, which all processes receive, to the array
-- `s` that it sends to all of them. `deliver` gives, for what the processes send to it, what
-- MPI_Recv stores. The code sets `variable_num` to 4. More numbers than `p` has elements are a fault.
unfoldable pub mpi_transform :
    (D : Double)
    → ((ℕ → ℕ → Complex D.R) → ℕ → ℕ → Complex D.R)
    → (ℕ → Complex D.R)
    → ℕ
    → (ℕ → Complex D.R)
    → ℕ
    → (ℕ → ℕ → Complex D.R)
    → (ℕ → ℕ → Complex D.R)
    → ℕ
    → Option (ℕ → Complex D.R)
unfolding all_parts gathered start_pos
mpi_transform D deliver heap fuel p variable_num w s size =
    let w_length = 2 * variable_num in
    if ltb max_n variable_num || ltb w_length size
    then none
    else elim (all_parts D heap fuel p variable_num w s size size) [
      | none ↦ none
      | some parts ↦
          let sent = λ (rank n : ℕ). parts rank (start_pos w_length size rank + n) in
          some (gathered (deliver sent) w_length size (parts 0))
    ]
