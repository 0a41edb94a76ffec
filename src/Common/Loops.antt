-- ===== src/Common/Loops.antt =====
-- The counted loop `for (i = 0; i < n; i++) s = body(i, s)`. The last round stands outermost, so an
-- induction on the count follows the loop's own order.
use Prim.Native.Nat.{ℕ, zero, suc, ◌<◌}
use mathlib.Core.Path.{◌≡◌, refl, ap, ◌∙◌}
use native.Mathlib.Omega.{arith}

unfoldable pub for_up {ℓ} : {S : Type ℓ} → ℕ → (ℕ → S → S) → S → S
for_up zero body s = s
for_up (suc n) body s = body n (for_up n body s)

-- An invariant that each round below the bound carries on holds at the end.
pub for_up_inv {ℓ κ} :
    {S : Type ℓ} (P : ℕ → S → Type κ) (body : ℕ → S → S) (n : ℕ) (s : S)
    → ((i : ℕ) (t : S) → i < n → P i t → P (suc i) (body i t))
    → P zero s
    → P n (for_up n body s)
unfolding for_up
for_up_inv P body zero s keep start = start
for_up_inv P body (suc n) s keep start =
    keep n _ (omega arith) (for_up_inv P body n s (λ i t h. keep i t (omega arith)) start)

-- Bodies that agree below the bound.
pub for_up_cong {ℓ} :
    {S : Type ℓ} (n : ℕ) (f g : ℕ → S → S) (s : S)
    → ((i : ℕ) (t : S) → i < n → f i t ≡ g i t)
    → for_up n f s ≡ for_up n g s
unfolding for_up
for_up_cong zero f g s same = refl
for_up_cong (suc n) f g s same =
    same n (for_up n f s) (omega arith)
    ∙ ap (g n) (for_up_cong n f g s (λ i t lt. same i t (omega arith)))
