-- ===== src/Greenplum.antt =====
-- The PostgreSQL functions of Greenplum/functions/c: add_func.c, 35.9.9.c and 35.9.7.c, and `add_for`
-- of rg_test/rg.c.
-- An `int32` is its word, a number below 2^32, and its value as a signed number is `to_int32`.
-- Sums and products wrap around, as they do when the functions are compiled with `-fwrapv` like the
-- server; without it, as in the commands of ReadMe.md, C leaves a signed overflow undefined. A `Datum` with its null flag is
-- an option, and a row argument is a function from the names of its columns.
pub mod Sums
pub mod Calls
pub mod Rows
pub mod Decimal
pub mod Texts
mod Tests
use sql_code.Common.Int.{ℤ, pos, negsuc, ltb_ℤ}
use sql_code.Common.{
  for_up, ℕ, ◌+◌, ◌-◌, ◌*◌, ◌%◌, Bool, true, false, List, [], ◌∷◌, Option, none, some, ltb,
  if◌then◌else◌, take,
}
use sql_code.CText.{Bytes, codes, format_int}

abbrev pub int32_words : ℕ
int32_words = 4294967296

unfoldable pub to_int32 : ℕ → ℤ
to_int32 w = if ltb w 2147483648 then pos w else negsuc (4294967295 - w)

unfoldable pub add_ab : ℕ → ℕ → ℕ
add_ab a b = (a + b) % int32_words

-- `add_for` of rg_test/rg.c; `res` is the local variable before the loops.
unfoldable pub add_for : ℕ → ℕ → ℕ → ℕ
unfolding add_ab
add_for a b res = for_up 10000 (λ i outer. for_up 10000 (λ j inner. add_ab a b) outer) res

unfoldable pub mul_int32 : ℕ → ℕ → ℕ
mul_int32 a b = (a * b) % int32_words

-- The locals `sum` and `not_null`.
pub record Total : Type 0 where
  pub sum : ℕ
  pub not_null : Bool

abbrev pub nothing_yet : Total
nothing_yet = record { sum = 0; not_null = false }

-- What both functions do with an argument or an element.
unfoldable pub accumulate : Total → Option ℕ → Total
accumulate t none = t
accumulate t (some x) = record { sum = (t.sum + x) % int32_words; not_null = true }

abbrev pub total_or_null : Total → Option ℕ
total_or_null t = if t.not_null then some t.sum else none

unfoldable pub add_ab_null : Option ℕ → Option ℕ → Option ℕ
unfolding accumulate
add_ab_null a b = total_or_null (accumulate (accumulate nothing_yet a) b)

-- An array argument: its number of dimensions, and its elements as `deconstruct_array` gives them.
pub record ArrayType : Type 0 where
  pub ndim : ℕ
  pub elements : List (Option ℕ)

-- A function's result, or the error that `ereport` raises.
pub data Raised {ℓ} (A : Type ℓ) : Type ℓ where
  returned : A → Raised A
  raised : Bytes → Raised A

-- The loop over the elements.
unfoldable pub sum_elements : Total → List (Option ℕ) → Total
unfolding accumulate
sum_elements t [] = t
sum_elements t (x ∷ xs) = sum_elements (accumulate t x) xs

unfoldable pub add_int32_array : ArrayType → Raised (Option ℕ)
unfolding sum_elements
add_int32_array a =
    if ltb 1 a.ndim
    then raised (codes "1-dimensional array needed")
    else returned (total_or_null (sum_elements nothing_yet a.elements))

unfoldable pub c_overpaid : (Bytes → Option ℕ) → ℕ → Bool
unfolding to_int32
c_overpaid t limit = elim (t (codes "salary")) [
  | none ↦ false
  | some salary ↦ ltb_ℤ (to_int32 limit) (to_int32 salary)
]

-- The context that a set-returning function keeps between its calls, with its own data `user_fctx`.
pub record FuncCallContext {ℓ} (A : Type ℓ) : Type ℓ where
  pub call_cntr : ℕ
  pub max_calls : ℕ
  pub user_fctx : A

-- What one call does: `SRF_RETURN_NEXT`, which counts the call, `SRF_RETURN_DONE`, or an error.
pub data SrfCall {ℓ} (A R : Type ℓ) : Type ℓ where
  return_next : R → FuncCallContext A → SrfCall A R
  return_done : SrfCall A R
  error : Bytes → SrfCall A R

abbrev pub counted {ℓ} : {A : Type ℓ} → FuncCallContext A → FuncCallContext A
counted ctx = record ctx { call_cntr = (ctx.call_cntr + 1) % int32_words }

abbrev pub not_composite : Bytes
not_composite = codes "function returning record called in context that cannot accept type record"

-- `snprintf(value, 16, "%d", w)`: at most 15 bytes are kept.
abbrev pub printed : ℕ → Bytes
printed w = take 15 (format_int (to_int32 w))

abbrev pub retcomposite_row : ℕ → List Bytes
retcomposite_row arg =
    printed (mul_int32 1 arg) ∷ printed (mul_int32 2 arg) ∷ printed (mul_int32 3 arg) ∷ []

-- The part of `retcomposite` that every call runs.
unfoldable pub retcomposite_call : FuncCallContext (Unit {0}) → ℕ → SrfCall (Unit {0}) (List Bytes)
unfolding to_int32 mul_int32
retcomposite_call ctx arg =
    if ltb_ℤ (to_int32 ctx.call_cntr) (to_int32 ctx.max_calls)
    then return_next (retcomposite_row arg) (counted ctx)
    else return_done

-- `none` is the first call; `composite` is whether the caller takes a composite type.
unfoldable pub retcomposite :
    Bool → Option (FuncCallContext (Unit {0})) → ℕ → ℕ → SrfCall (Unit {0}) (List Bytes)
unfolding retcomposite_call
retcomposite composite none calls arg =
    if composite
    then retcomposite_call (record { call_cntr = 0; max_calls = calls; user_fctx = tt }) arg
    else error not_composite
retcomposite composite (some ctx) calls arg = retcomposite_call ctx arg
