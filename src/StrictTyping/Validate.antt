-- ===== src/StrictTyping/Validate.antt =====
-- The SQL functions `validate_int` and `validate_double` of capi_ext/strict_typing.c. A value is its
-- text, NULL for a SQL NULL; where `strtod` stops reading is the argument `strtod_end`.
use sql_code.Common.{
  ◌≡◌, ◌⊎◌, inl, inr, subst, refl, sym, arith, [], ◌∷◌, Option, none, some, true, false, Bool,
  if◌then◌else◌,
}
use sql_code.CText.{Bytes}
use sql_code.CText.Strtol.{strtol_end, IntText, strtol_end_iff}
use sql_code.Sqlite.{Sqlite}
use sql_code.StrictTyping.{World, reported, result_int}

-- `*tmp != '\0'`
abbrev stopped_early : Bytes → Bool
stopped_early [] = false
stopped_early (c ∷ s) = true

stopped_early-cases :
    (t : Bytes) → ((t ≡ []) × (stopped_early t ≡ false)) ⊎ ((t ≡ [] → ⊥) × (stopped_early t ≡ true))
stopped_early-cases [] = inl (refl, refl)
stopped_early-cases (c ∷ s) = inr (λ e. absurd (ground (arith, e)), refl)

module _ (S : Sqlite) where
  open S use {Db}

  unfoldable pub validate_int_udf : World Db → Option Bytes → World Db
  unfolding strtol_end
  validate_int_udf w none = reported S w (result_int 0)
  validate_int_udf w (some value) =
      if stopped_early (strtol_end value)
      then reported S w (result_int 0)
      else reported S w (result_int 1)

  unfoldable pub validate_double_udf : (Bytes → Bytes) → World Db → Option Bytes → World Db
  validate_double_udf strtod_end w none = reported S w (result_int 0)
  validate_double_udf strtod_end w (some value) =
      if stopped_early (strtod_end value)
      then reported S w (result_int 0)
      else reported S w (result_int 1)

  -- `validate_int` gives one result: 1 for the text of an integer constant of C, with white space and
  -- a sign in front or none, and for the empty text; 0 for every other text and for NULL.
  pub validate_int_udf-IntText :
      (w : World Db) (value : Option Bytes)
      → ((s : Bytes) × (value ≡ some s)
          × ((s ≡ []) ⊎ IntText s)
          × (validate_int_udf w value ≡ reported S w (result_int 1)))
        ⊎ (((s : Bytes) → value ≡ some s → (s ≡ []) ⊎ IntText s → ⊥)
            × (validate_int_udf w value ≡ reported S w (result_int 0)))
  unfolding validate_int_udf
  validate_int_udf-IntText w none = inr (λ s e h. absurd (ground (arith, e)), refl)
  validate_int_udf-IntText w (some value) = elim (stopped_early-cases (strtol_end value)) [
    | inl (ended, test) ↦ inl (value, refl, (strtol_end_iff value).0 ended, rw test refl)
    | inr (stopped, test) ↦ inr (
      λ s e h. stopped (
          (strtol_end_iff value).1 (
            subst (λ t. (t ≡ []) ⊎ IntText t)
              (sym (let same : value ≡ s = ground (arith, e) in same)) h)),
      rw test refl,
    )
  ]
