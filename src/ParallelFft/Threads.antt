-- ===== src/ParallelFft/Threads.antt =====
-- Threads that make their stores to one array, interleaved in any order.
use Prim.{Unit, tt}
use sql_code.Common.{
  ℕ, zero, suc, ◌+◌, ◌==◌, ◌≡◌, refl, sym, ap, ◌∙◌, arith, Bool, false, ◌||◌, Bool-cases, inl, inr,
  ◌⊎◌, List, [], ◌∷◌, length, get_elem?, set, some, subst,
}
use sql_code.Fourier.{store}
use sql_code.ParallelFft.Stores.{Store, occurs, AllOf, store_at, store_else}

-- The stores that are left to each thread, and the array.
pub record System (R : Type 0) : Type 0 where
  pub threads : List (List (Store R))
  pub memory : ℕ → R

module _ {R : Type 0} where
  -- Some thread makes its next store.
  pub data Move (s : System R) : System R → Type 0 where
    pick :
        (t : ℕ) (next : Store R) (rest : List (Store R))
        → get_elem? s.threads t ≡ some (next ∷ rest)
        → Move s
            (record { threads = set s.threads t rest; memory = store s.memory next.at next.value })

  pub data Run (start : System R) : System R → Type 0 where
    stay : Run start start
    later : {s t : System R} → Run start s → Move s t → Run start t

  -- No thread has a store left.
  abbrev pub Finished : List (List (Store R)) → Type 0
  Finished [] = Unit
  Finished ([] ∷ ts) = Finished ts
  Finished ((s ∷ ss) ∷ ts) = ⊥

  abbrev pub pending : ℕ → List (List (Store R)) → Bool
  pending i [] = false
  pending i (t ∷ ts) = occurs i t || pending i ts

  abbrev pub AllThreads : (ℕ → R) → List (List (Store R)) → Type 0
  AllThreads v [] = Unit
  AllThreads v (t ∷ ts) = AllOf v t × AllThreads v ts

  Finished-pending : (i : ℕ) (ts : List (List (Store R))) → Finished ts → pending i ts ≡ false
  Finished-pending i [] f = refl
  Finished-pending i ([] ∷ ts) f = Finished-pending i ts f
  Finished-pending i ((s ∷ ss) ∷ ts) f = elim f [ ]

  module _ (next : Store R) (rest : List (Store R)) where
    pending-set :
        (i : ℕ) (ts : List (List (Store R))) (t : ℕ)
        → get_elem? ts t ≡ some (next ∷ rest)
        → pending i ts ≡ (i == next.at || pending i (set ts t rest))
    pending-set i [] t e = absurd (ground arith)
    pending-set i (x ∷ ts) zero e =
        let same : x ≡ next ∷ rest = ground (arith, e) in
        subst (λ l. pending i (l ∷ ts) ≡ (i == next.at || pending i (rest ∷ ts))) (sym same)
          (ground arith)
    pending-set i (x ∷ ts) (suc t) e = ground (arith, pending-set i ts t e)

    AllThreads-set :
        (v : ℕ → R) (ts : List (List (Store R))) (t : ℕ)
        → get_elem? ts t ≡ some (next ∷ rest)
        → AllThreads v ts
        → (next.value ≡ v next.at) × AllThreads v (set ts t rest)
    AllThreads-set v [] t e all = absurd (ground arith)
    AllThreads-set v (x ∷ ts) zero e (all, others) =
        let same : x ≡ next ∷ rest = ground (arith, e) in
        let (here, after) = subst (AllOf v) same all in (here, (after, others))
    AllThreads-set v (x ∷ ts) (suc t) e (all, others) =
        let (here, after) = AllThreads-set v ts t e others in (here, (all, after))

  -- Every store that is left is right, and so is every cell that no store is left for.
  pub record Agrees (v : ℕ → R) (s : System R) : Type 0 where
    pub left : AllThreads v s.threads
    pub written : (i : ℕ) → pending i s.threads ≡ false → s.memory i ≡ v i

  Move-Agrees : (v : ℕ → R) (s t : System R) → Move s t → Agrees v s → Agrees v t
  Move-Agrees v s t (Move.pick n next rest e) a =
      let (here, after) = AllThreads-set next rest v s.threads n e a.left in
      let before = λ (i : ℕ). pending-set next rest i s.threads n e in
      record {
        left = after;
        written = λ i none_left. elim (Bool-cases (i == next.at)) [
          | inl now ↦ store_at s.memory v next i here (ground arith)
          | inr other ↦
              store_else s.memory next i other
              ∙ a.written i
                  (before i ∙ ap (λ b. b || pending i (set s.threads n rest)) other ∙ none_left)
        ];
      }

  pub Run-Agrees : (v : ℕ → R) {s t : System R} → Run s t → Agrees v s → Agrees v t
  Run-Agrees v Run.stay a = a
  Run-Agrees v (Run.later r m) a = Move-Agrees v _ _ m (Run-Agrees v r a)

  pub Finished-Agrees :
      (v : ℕ → R) (s : System R) → Finished s.threads → Agrees v s → (i : ℕ) → s.memory i ≡ v i
  Finished-Agrees v s f a i = a.written i (Finished-pending i s.threads f)

  -- The number of stores that are left.
  abbrev pub remaining : List (List (Store R)) → ℕ
  remaining [] = 0
  remaining (t ∷ ts) = length t + remaining ts

  remaining-set :
      (next : Store R) (rest : List (Store R)) (ts : List (List (Store R))) (t : ℕ)
      → get_elem? ts t ≡ some (next ∷ rest)
      → remaining ts ≡ suc (remaining (set ts t rest))
  remaining-set next rest [] t e = absurd (ground arith)
  remaining-set next rest (x ∷ ts) zero e =
      let same : x ≡ next ∷ rest = ground (arith, e) in
      ap (λ l. length l + remaining ts) same ∙ omega arith
  remaining-set next rest (x ∷ ts) (suc t) e = omega (arith, remaining-set next rest ts t e)

  -- Either all threads are finished or one of them can go on.
  Finished-or-next :
      (ts : List (List (Store R)))
      → Finished ts
        ⊎ ((t : ℕ) × (next : Store R) × (rest : List (Store R)) × (get_elem? ts t
              ≡ some (next ∷ rest)))
  Finished-or-next [] = inl tt
  Finished-or-next ((s ∷ ss) ∷ ts) = inr (0, s, ss, refl)
  Finished-or-next ([] ∷ ts) = elim (Finished-or-next ts) [
    | inl f ↦ inl f
    | inr (t, next, rest, e) ↦ inr (suc t, next, rest, e)
  ]

  completed :
      (n : ℕ) (start s : System R)
      → remaining s.threads ≡ n
      → Run start s
      → (t : System R) × Run start t × Finished t.threads
  completed zero start s e r = elim (Finished-or-next s.threads) [
    | inl f ↦ (s, r, f)
    | inr (t, next, rest, at) ↦ absurd (omega (arith, remaining-set next rest s.threads t at))
  ]
  completed (suc n) start s e r = elim (Finished-or-next s.threads) [
    | inl f ↦ (s, r, f)
    | inr (t, next, rest, at) ↦
        completed n start
          (record { threads = set s.threads t rest; memory = store s.memory next.at next.value })
          (omega (arith, remaining-set next rest s.threads t at))
          (Run.later r (Move.pick t next rest at))
  ]

  -- Every run can be completed.
  pub Run-Finished : (s : System R) → (t : System R) × Run s t × Finished t.threads
  Run-Finished s = completed (remaining s.threads) s s refl Run.stay
