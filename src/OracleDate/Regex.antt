-- ===== src/OracleDate/Regex.antt =====
-- The texts that the pattern `[0-9]{1,2}-[a-zA-Z]{3,3}-[0-9]{2,2}` describes, and what PCRE documents
-- of a search for it: the leftmost match, with repetitions as long as they can be.
use sql_code.Common.{ℕ, ◌-◌, ◌≡◌, Bool, true, ◌||◌, [], ◌∷◌, ◌++◌, some, length, take, drop}
use sql_code.CText.{Bytes, within, is_digit}
use sql_code.OracleDate.{Pcre, oracle_date_regex}

abbrev pub is_letter : ℕ → Bool
is_letter c = within b'a' b'z' c || within b'A' b'Z' c

-- A day of one digit or of two.
pub data DayText : Type 0 where
  one : ℕ → DayText
  two : ℕ → ℕ → DayText

-- The bytes of a date: its day, the letters of its month, the two digits of its year.
pub record DateText : Type 0 where
  pub day : DayText
  pub m1 : ℕ
  pub m2 : ℕ
  pub m3 : ℕ
  pub y1 : ℕ
  pub y2 : ℕ

abbrev pub month_year : DateText → Bytes
month_year t = b'-' ∷ t.m1 ∷ t.m2 ∷ t.m3 ∷ b'-' ∷ t.y1 ∷ t.y2 ∷ []

abbrev pub day_bytes : DayText → Bytes → Bytes
day_bytes (one d) rest = d ∷ rest
day_bytes (two d e) rest = d ∷ e ∷ rest

abbrev pub print : DateText → Bytes
print t = day_bytes t.day (month_year t)

abbrev pub IsDay : DayText → Type 0
IsDay (one d) = is_digit d ≡ true
IsDay (two d e) = (is_digit d ≡ true) × (is_digit e ≡ true)

-- The pattern matches all of `print t`.
pub record IsDate (t : DateText) : Type 0 where
  pub day_digits : IsDay t.day
  pub first_letter : is_letter t.m1 ≡ true
  pub second_letter : is_letter t.m2 ≡ true
  pub third_letter : is_letter t.m3 ≡ true
  pub first_digit : is_digit t.y1 ≡ true
  pub second_digit : is_digit t.y2 ≡ true

-- What the examples rely on. `at_front` holds since a text that starts with a date has no earlier
-- match, and at the front the hyphens leave the repetitions no choice.
pub record Documented (p : Pcre) : Type 0 where
  pub re : p.Re
  pub compiled : p.compile oracle_date_regex ≡ some re
  pub at_front :
      (t : DateText) (rest : Bytes)
      → IsDate t
      → p.exec re (print t ++ rest) ≡ some (0, length (print t))
  pub matches :
      (s : Bytes) (start end : ℕ)
      → p.exec re s ≡ some (start, end)
      → (t : DateText) × IsDate t × (take (end - start) (drop start s) ≡ print t)
