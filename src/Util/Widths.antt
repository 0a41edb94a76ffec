-- ===== src/Util/Widths.antt =====
-- The column widths of `print_sql_result` in common/util.c.
use sql_code.Common.{
  ℕ, zero, suc, ◌+◌, ◌-◌, ◌≡◌, ◌≢◌, ◌≤◌, ◌<◌, refl, ◌∙◌, List, [], ◌∷◌, ◌++◌, Option, none, some,
  arith, ltb, ◌==◌, if◌then◌else◌, length, get_or, set, replicate, for_up, for_up_inv, max,
  length-append, length-replicate, length-set,
}
use sql_code.CText.{Bytes, pad_right}
use sql_code.Util.{Table, cell, widen, widen_row, column_widths, print_rule, print_row, shown}

-- The length of the text in a cell; a NULL takes no room.
abbrev pub cell_length : Table → ℕ → ℕ → ℕ
cell_length t i j = elim (cell t i j) [ none ↦ 0 | some s ↦ length s ]

-- The longest text in column `j` among the first `n` rows.
abbrev pub longest : Table → ℕ → ℕ → ℕ
longest t zero j = 0
longest t (suc n) j = max (longest t n j) (cell_length t n j)

get_or-set :
    (xs : List ℕ) (i j v : ℕ)
    → i < length xs
    → get_or (set xs i v) j 0 ≡ (if i == j then v else get_or xs j 0)
get_or-set [] i j v h = absurd (omega arith)
get_or-set (x ∷ xs) zero zero v h = refl
get_or-set (x ∷ xs) zero (suc j) v h = ground arith
get_or-set (x ∷ xs) (suc i) zero v h = ground arith
get_or-set (x ∷ xs) (suc i) (suc j) v h = ground (arith, get_or-set xs i j v)

get_or-replicate : (n j : ℕ) → get_or (replicate {A = ℕ} n 0) j 0 ≡ 0
get_or-replicate zero j = refl
get_or-replicate (suc n) zero = refl
get_or-replicate (suc n) (suc j) = get_or-replicate n j

-- One cell raises the width of its own column at most.
widen_lem :
    (o : Option Bytes) (k j : ℕ) (widths : List ℕ)
    → k < length widths
    → get_or (widen o k widths) j 0 ≡ (
        if k == j
        then max (get_or widths j 0) (elim o [ none ↦ 0 | some s ↦ length s ])
        else get_or widths j 0)
unfolding widen
widen_lem none k j widths h = ground arith
widen_lem (some s) k j widths h = ground (arith, get_or-set widths k j (length s))

length-widen :
    (o : Option Bytes) (k : ℕ) (widths : List ℕ) → length (widen o k widths) ≡ length widths
unfolding widen
length-widen none k widths = refl
length-widen (some s) k widths = ground (arith, length-set widths k (length s))

-- What a row of the first loop leaves: the columns behind the bound are untouched.
record RowInv (t : Table) (i : ℕ) (before : List ℕ) (n : ℕ) (widths : List ℕ) : Type 0 where
  same_length : length widths ≡ length before
  entry :
      (j : ℕ)
      → get_or widths j 0
        ≡ (if ltb j n then max (get_or before j 0) (cell_length t i j) else get_or before j 0)

widen_row-RowInv :
    (t : Table) (i : ℕ) (widths : List ℕ)
    → length widths ≡ t.ncols
    → RowInv t i widths t.ncols (widen_row t i widths)
unfolding widen_row
widen_row-RowInv t i widths e =
    for_up_inv (RowInv t i widths) (λ j. widen (cell t i j) j) t.ncols widths
      (λ k ws below inv. record {
        same_length = length-widen (cell t i k) k ws ∙ inv.same_length;
        entry = λ j. ground (
          arith,
          inv.entry j,
          inv.entry k,
          widen_lem (cell t i k) k j ws (omega (arith, inv.same_length)),
        );
      })
      (record { same_length = refl; entry = λ j. ground arith })

record TableInv (t : Table) (n : ℕ) (widths : List ℕ) : Type 0 where
  all_columns : length widths ≡ t.ncols
  entries : (j : ℕ) → j < t.ncols → get_or widths j 0 ≡ longest t n j

column_widths-TableInv : (t : Table) → TableInv t (suc t.nrows) (column_widths t)
unfolding column_widths
column_widths-TableInv t =
    for_up_inv (TableInv t) (widen_row t) (suc t.nrows) (replicate t.ncols 0)
      (λ i ws below inv.
        let row = widen_row-RowInv t i ws inv.all_columns in
        record {
          all_columns = row.same_length ∙ inv.all_columns;
          entries = λ j h. ground (arith, row.entry j, inv.entries j h);
        })
      (record {
        all_columns = length-replicate t.ncols 0;
        entries = λ j h. get_or-replicate t.ncols j;
      })

-- Each column is as wide as its longest text in the row of names and the `nrows` rows, and there
-- is a width for each column and no more.
pub column_widths-longest :
    (t : Table)
    → (length (column_widths t) ≡ t.ncols)
      × ((j : ℕ) → j < t.ncols → get_or (column_widths t) j 0 ≡ longest t (suc t.nrows) j)
column_widths-longest t = let inv = column_widths-TableInv t in (inv.all_columns, inv.entries)

cell_length-le-longest : (t : Table) (n i j : ℕ) → i < n → cell_length t i j ≤ longest t n j
cell_length-le-longest t zero i j h = absurd (omega arith)
cell_length-le-longest t (suc n) i j h = ground (arith, cell_length-le-longest t n i j)

-- The room that the first `n` columns take on a line.
abbrev pub line_room : List ℕ → ℕ → ℕ
line_room widths zero = 0
line_room widths (suc n) = line_room widths n + (get_or widths n 0 + 1)

length-pad_right : (w : ℕ) (s : Bytes) → length s ≤ w → length (pad_right w s) ≡ w
length-pad_right w s h = omega (
  arith,
  length-append {A = ℕ} s (replicate (w - length s) b' '),
  length-replicate {A = ℕ} (w - length s) b' ',
)

length_dashes :
    (n : ℕ) (out : Bytes) → length (for_up n (λ _ p. p ++ (b'-' ∷ [])) out) ≡ length out + n
unfolding for_up
length_dashes zero out = omega arith
length_dashes (suc n) out = omega (
  arith,
  length-append {A = ℕ} (for_up n (λ _ p. p ++ (b'-' ∷ [])) out) (b'-' ∷ []),
  length_dashes n out,
)

-- A loop whose every round fills up one column fills up the line.
length-columns :
    (widths : List ℕ) (body : ℕ → Bytes → Bytes) (n : ℕ) (out : Bytes)
    → ((k : ℕ) (o : Bytes) → k < n → length (body k o) ≡ length o + (get_or widths k 0 + 1))
    → length (for_up n body out) ≡ length out + line_room widths n
length-columns widths body n out each =
    for_up_inv (λ k o. length o ≡ length out + line_room widths k) body n out
      (λ k o below e. omega (arith, each k o below)) (omega arith)

length-print_rule :
    (widths : List ℕ) (ncols : ℕ) (out : Bytes)
    → length (print_rule widths ncols out) ≡ length out + line_room widths ncols + 1
unfolding print_rule
length-print_rule widths ncols out = omega (
  arith,
  length-append {A = ℕ} _ (b'\n' ∷ []),
  length-columns widths
      (λ k o. for_up (get_or widths k 0) (λ _ p. p ++ (b'-' ∷ [])) o ++ (b' ' ∷ [])) ncols out
      (λ k o below. omega (
        arith,
        length-append {A = ℕ} (for_up (get_or widths k 0) (λ _ p. p ++ (b'-' ∷ [])) o) (b' ' ∷ []),
        length_dashes (get_or widths k 0) o,
      )),
)

length-filled :
    (null_text : Bytes) (o : Option Bytes)
    → o ≢ none
    → length (shown null_text o) ≡ elim o [ none ↦ 0 | some s ↦ length s ]
length-filled null_text none filled = absurd (filled refl)
length-filled null_text (some s) filled = refl

-- Texts that are not NULL fill up their column exactly.
length-shown :
    (null_text : Bytes) (t : Table) (i j : ℕ)
    → i < suc t.nrows
    → j < t.ncols
    → cell t i j ≢ none
    → length (pad_right (get_or (column_widths t) j 0 + 1) (shown null_text (cell t i j)))
      ≡ get_or (column_widths t) j 0 + 1
length-shown null_text t i j row column filled = length-pad_right _ (shown null_text (cell t i j)) (
    omega (
      arith,
      length-filled null_text (cell t i j) filled,
      (column_widths-longest t).1 j column,
      cell_length-le-longest t (suc t.nrows) i j row,
    ))

length-print_row :
    (null_text : Bytes) (t : Table) (i : ℕ) (out : Bytes)
    → i < suc t.nrows
    → ((j : ℕ) → j < t.ncols → cell t i j ≢ none)
    → length (print_row null_text t (column_widths t) i out)
      ≡ length out + line_room (column_widths t) t.ncols + 1
unfolding print_row
length-print_row null_text t i out row filled = omega (
  arith,
  length-append {A = ℕ} _ (b'\n' ∷ []),
  length-columns (column_widths t)
      (λ j o. o ++ pad_right (get_or (column_widths t) j 0 + 1) (shown null_text (cell t i j)))
      t.ncols out
      (λ j o below. omega (
        arith,
        length-append {A = ℕ} o
            (pad_right (get_or (column_widths t) j 0 + 1) (shown null_text (cell t i j))),
        length-shown null_text t i j row below (filled j below),
      )),
)

-- Every printed row with no NULL is as long as the line of dashes, wherever it is printed.
pub print_row-aligned :
    (null_text : Bytes) (t : Table) (i : ℕ) (out : Bytes)
    → i ≤ t.nrows
    → ((j : ℕ) → j < t.ncols → cell t i j ≢ none)
    → length (print_row null_text t (column_widths t) i out)
      ≡ length (print_rule (column_widths t) t.ncols out)
print_row-aligned null_text t i out row filled = omega (
  arith,
  length-print_row null_text t i out (omega arith) filled,
  length-print_rule (column_widths t) t.ncols out,
)
