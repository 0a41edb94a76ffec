-- ===== src/Util/Case.antt =====
-- `uppercase` and `lowercase` of common/util.c.
use mathlib.Core.Option
use mathlib.Core.Option.{some-injective}
use sql_code.Common.{
  ℕ, ◌≡◌, ◌≢◌, refl, sym, ap, ◌∙◌, Bool, true, false, ◌||◌, Option, none, some, [], ◌∷◌, map, arith,
}
use sql_code.CText.{Bytes, to_upper, to_lower, to_upper-to_upper, within}
use sql_code.Util.{convert_bytes, convert_string, uppercase, lowercase}

convert_bytes-map : (fn : ℕ → ℕ) (s : Bytes) → convert_bytes fn s ≡ map to_upper s
unfolding convert_bytes
convert_bytes-map fn [] = refl
convert_bytes-map fn (c ∷ s) = ap (λ t. to_upper c ∷ t) (convert_bytes-map fn s)

-- `convert_string` upper-cases each byte of its text and keeps NULL, whatever conversion it is
-- given.
pub convert_string-map :
    (value : Option Bytes) (fn : ℕ → ℕ) → convert_string value fn ≡ Option.map (map to_upper) value
unfolding convert_string
convert_string-map none fn = refl
convert_string-map (some s) fn = ap some (convert_bytes-map fn s)

map-to_upper_idem : (s : Bytes) → map to_upper (map to_upper s) ≡ map to_upper s
map-to_upper_idem [] = refl
map-to_upper_idem (c ∷ s) = cc (to_upper-to_upper c, map-to_upper_idem s)

-- Upper-casing twice is upper-casing once.
pub uppercase_idem : (value : Option Bytes) → uppercase (uppercase value) ≡ uppercase value
unfolding uppercase convert_string
uppercase_idem none = refl
uppercase_idem (some s) = simp convert_bytes-map (ap some (map-to_upper_idem s))

-- Some byte is a letter.
abbrev pub has_letter : Bytes → Bool
has_letter [] = false
has_letter (c ∷ s) = (within b'a' b'z' c || within b'A' b'Z' c) || has_letter s

to_upper-ne-to_lower :
    (c : ℕ) → (within b'a' b'z' c || within b'A' b'Z' c) ≡ true → to_upper c ≢ to_lower c
unfolding to_upper to_lower
to_upper-ne-to_lower c h e = ground arith

map-to_upper-ne-map-to_lower : (s : Bytes) → has_letter s ≡ true → map to_upper s ≢ map to_lower s
map-to_upper-ne-map-to_lower [] h e = cc
map-to_upper-ne-map-to_lower (c ∷ s) h e =
    ground (arith, to_upper-ne-to_lower c, map-to_upper-ne-map-to_lower s)

-- `lowercase` does not convert to lower case a text that holds a letter: it returns what
-- `uppercase` returns, and that is not the text in lower case.
pub lowercase_fails :
    (s : Bytes)
    → has_letter s ≡ true
    → (lowercase (some s) ≡ uppercase (some s)) × (lowercase (some s) ≢ some (map to_lower s))
unfolding lowercase uppercase convert_string
lowercase_fails s h = (
  cc (convert_bytes-map to_lower s, convert_bytes-map to_upper s),
  λ e. map-to_upper-ne-map-to_lower s h (sym (convert_bytes-map to_lower s) ∙ some-injective _ _ e),
)
