-- ===== src/Spi/Transform.antt =====
-- The numbers that `fft_main` reads from a table, and their transform.
use native.Mathlib.Nat.{pow-le-pow_right}
use sql_code.SerialFft.{TrigTables}
use sql_code.Common.{
  ℕ, zero, suc, ◌+◌, ◌*◌, ◌%◌, ◌^◌, ◌≡◌, ◌<◌, ◌≤◌, sym, ap, ap₂, ◌∙◌, arith, [], ◌∷◌, Option, some,
  none, true, for_up_inv, take, get_or, ltb, refl, if◌then◌else◌,
}
use sql_code.CText.{Bytes}
use sql_code.Greenplum.{int32_words}
use sql_code.Fourier.{Double, Complex, store, dft, dft_at, multy_complex, get_wn}
use sql_code.Fourier.Exact.{Exact}
use sql_code.Fourier.Root.{angle}
use sql_code.Fourier.Geometric.{csum_cong}
use sql_code.Fourier.Dft.{term, dft_at-csum}
use sql_code.Fourier.Fft.{complexes, copied_to}
use sql_code.SerialFft.Serial.{ExactTables, serial_fft-csum}
use sql_code.SerialFft.Real.{serial_fft_real}
use sql_code.SerialFft.RealFft.{serial_fft_real-serial_fft}
use sql_code.Spi.{
  TupTable, SpiExec, Reading, is_positive, table_if, row_text, read_round, read_rows, fft_main,
}
use sql_code.Spi.RowText.{row_line, row_text-row_line}

-- The table has one column, from whose texts `sscanf` reads these numbers.
pub record Reads (D : Double) (scan : Bytes → Option D.R) (t : TupTable) (n : ℕ) (numbers : ℕ → D.R)
    : Type 0 where
  pub texts : ℕ → Bytes
  pub one_column : 1 ≡ t.natts
  pub values : (i : ℕ) → i < n → t.value i 1 ≡ some (texts i)
  pub scans : (i : ℕ) → i < n → scan (take 9 (row_line (texts i ∷ []))) ≡ some (numbers i)

module _ (D : Double) (scan : Bytes → Option D.R) (t : TupTable) (n : ℕ) (numbers : ℕ → D.R)
    (reads : Reads D scan t n numbers) where
  module _ (i : ℕ) (lt : i < n) where
    first_value :
        (k : ℕ) → k < t.natts → t.value i (k + 1) ≡ some (get_or (reads.texts i ∷ []) k [])
    first_value zero below = reads.values i lt
    first_value (suc k) below = absurd (omega (arith, reads.one_column))

  row_text-take : (i : ℕ) → i < n → row_text 10 t i ≡ some (take 9 (row_line (reads.texts i ∷ [])))
  row_text-take i lt =
      row_text-row_line 9 t i (reads.texts i ∷ []) reads.one_column (first_value i lt)

  abbrev read_number : ℕ → Reading D.R → Reading D.R
  read_number i s = record {
    r = numbers i;
    x = store s.x i (record { real = numbers i; imagin = D.of_ℕ 0 });
  }

  read_round-number :
      (i : ℕ) (s : Reading D.R) → i < n → n ≤ 128 → read_round D scan t i s ≡ some (read_number i s)
  unfolding read_round
  read_round-number i s lt fits =
      let into : D.R → Option (Reading D.R) = λ r.
        if ltb i 128
        then some (record { r = r; x = store s.x i (record { real = r; imagin = D.of_ℕ 0 }) })
        else none in
      let scanned : Option D.R → Option (Reading D.R) =
        λ o. into (elim o [ none ↦ s.r | some v ↦ v ]) in
      let shown : Option Bytes → Option (Reading D.R) =
        λ o. elim o [ none ↦ none | some buf ↦ scanned (scan buf) ] in
      let inside : ltb i 128 ≡ true = ground arith in
      ap shown (row_text-take i lt) ∙ ap scanned (reads.scans i lt) ∙ rw inside refl

  abbrev HoldsNumbers : ℕ → Option (Reading D.R) → Type 0
  HoldsNumbers k acc =
      k ≤ n → (s : Reading D.R) × (acc ≡ some s) × ((i : ℕ) → i < k → s.x i ≡ complexes D numbers i)

  round : ℕ → Option (Reading D.R) → Option (Reading D.R)
  round j acc = elim acc [ none ↦ none | some s ↦ read_round D scan t j s ]

  stored :
      (k : ℕ) (s : Reading D.R)
      → ((i : ℕ) → i < k → s.x i ≡ complexes D numbers i)
      → (i : ℕ) → i < suc k
      → store s.x k (complexes D numbers k) i ≡ complexes D numbers i
  stored k s held i lt = ground (arith, held i)

  round-HoldsNumbers :
      (k : ℕ) (acc : Option (Reading D.R))
      → n ≤ 128
      → k < n
      → HoldsNumbers k acc
      → HoldsNumbers (suc k) (round k acc)
  unfolding round
  round-HoldsNumbers k acc fits lt inv le =
      let (s, read, held) = inv (omega arith) in
      (read_number k s, ap (round k) read ∙ read_round-number k s lt fits, stored k s held)

  read_rows-numbers : (s : Reading D.R) → n ≤ 128 → HoldsNumbers n (read_rows D scan t n s)
  unfolding read_rows round
  read_rows-numbers s fits =
      for_up_inv HoldsNumbers round n (some s)
        (λ k acc lt inv. round-HoldsNumbers k acc fits lt inv)
        (λ le. (s, refl, (λ i lt. absurd (omega arith))))

-- `fft_real` of these numbers leaves what `DFT` of rg.c writes for them.
serial_fft_real-dft :
    (D : Double) (tb : TrigTables D.R) (fuel j : ℕ) (x : ℕ → Complex D.R) (numbers : ℕ → D.R)
    (dst : ℕ → Complex D.R)
    → ((i : ℕ) → i < 2 ^ suc (suc j) → x i ≡ complexes D numbers i)
    → Exact D (2 ^ suc (suc j)) (angle D (2 ^ suc (suc j)))
    → ((n : ℕ) → angle D (2 ^ suc j) n ≡ angle D (2 ^ suc (suc j)) (n * 2))
    → ((a : D.R) → D.div (D.add a a) (D.of_ℕ 2) ≡ a)
    → 32 < fuel
    → suc (suc j) < 22
    → ExactTables D (2 ^ suc (suc j)) tb (suc (suc j))
    → (i : ℕ) → i < 2 ^ suc (suc j)
    → serial_fft_real D tb fuel (2 ^ suc (suc j)) x i ≡ dft D numbers dst (2 ^ suc (suc j)) i
unfolding dft
serial_fft_real-dft D tb fuel j x numbers dst held e angles halves enough fits tables i lt =
    let n = 2 ^ suc (suc j) in
    serial_fft_real-serial_fft D tb fuel j x e angles halves enough fits tables i lt
    ∙ serial_fft-csum D tb fuel (suc j) e enough fits tables (complexes D (λ k. (x k).real)) i lt
    ∙ csum_cong D n e n _ (term D n e (complexes D numbers) 1 i) (λ k below.
      ap
        (λ z.
          multy_complex D (record { real = z.real; imagin = D.of_ℕ 0 }) (get_wn D (k * i * 1) n))
        (held k below))
    ∙ sym (dft_at-csum D n e numbers i)
    ∙ sym (copied_to (dft_at D numbers n) dst n i lt)

-- If the query has succeeded and its table has one column and `2 ^ k` rows, k from 2 to 7 (`x` has
-- 128 elements), from whose texts, cut off behind 8 characters, `sscanf` reads the numbers, then
-- `fft_main` leaves in `x` what `DFT` of rg.c writes for these numbers, whatever stood in `x`; in
-- exact arithmetic, where doubling a number or an angle is undone by halving it, with tables that
-- hold the exact sines and cosines in the entries that are read, in place of the literals of the
-- code, and with fuel above 32 for the helpers.
pub fft_main-dft :
    (D : Double) (scan : Bytes → Option D.R) (tb : TrigTables D.R) (fuel j : ℕ) (r : SpiExec)
    (s : Reading D.R) (t : TupTable) (numbers : ℕ → D.R) (dst : ℕ → Complex D.R)
    → is_positive r.ret ≡ true
    → r.tuptable ≡ some t
    → r.processed ≡ 2 ^ suc (suc j)
    → suc (suc j) ≤ 7
    → Reads D scan t (2 ^ suc (suc j)) numbers
    → Exact D (2 ^ suc (suc j)) (angle D (2 ^ suc (suc j)))
    → ((n : ℕ) → angle D (2 ^ suc j) n ≡ angle D (2 ^ suc (suc j)) (n * 2))
    → ((a : D.R) → D.div (D.add a a) (D.of_ℕ 2) ≡ a)
    → 32 < fuel
    → ExactTables D (2 ^ suc (suc j)) tb (suc (suc j))
    → (d : ℕ → Complex D.R) × (fft_main D scan tb fuel r s ≡ some d)
      × ((i : ℕ) → i < 2 ^ suc (suc j) → d i ≡ dft D numbers dst (2 ^ suc (suc j)) i)
unfolding fft_main
fft_main-dft D scan tb fuel j r s t numbers dst succeeded table all small reads e angles halves
      enough tables =
    let n = 2 ^ suc (suc j) in
    let fits : n ≤ 128 = pow-le-pow_right {n = 2} (omega arith) small in
    let (s', read, held) = read_rows-numbers D scan t n numbers reads s fits (omega arith) in
    let size : n % int32_words ≡ n = omega arith in
    let transformed : ℕ → Option (Reading D.R) → Option (ℕ → Complex D.R) = λ m o. elim o [
      | none ↦ none
      | some s' ↦ some (serial_fft_real D tb fuel (m % int32_words) s'.x)
    ] in
    let run : Option TupTable → ℕ → Option (ℕ → Complex D.R) = λ o m. elim o [
      | none ↦ some (serial_fft_real D tb fuel (m % int32_words) s.x)
      | some t ↦ transformed m (read_rows D scan t m s)
    ] in
    (
      serial_fft_real D tb fuel n s'.x,
      ap₂ run (ap₂ table_if table succeeded) all
          ∙ ap (transformed n) read
          ∙ ap (λ m. some (serial_fft_real D tb fuel m s'.x)) size,
      λ i lt.
          serial_fft_real-dft D tb fuel j s'.x numbers dst held e angles halves enough (omega arith)
            tables i lt,
    )
