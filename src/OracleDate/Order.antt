-- ===== src/OracleDate/Order.antt =====
-- The comparison of dates in `oracle_date_collation`, as an order.
use native.Mathlib.Nat.{add-zero}
use sql_code.Common.Int.{ℤ, pos, negsuc, pos_part, neg_part, sub_ℕ, ◌≤ℤ◌, ltb_ℤ}
use sql_code.Common.{
  ℕ, ◌+◌, ◌≡◌, ◌<◌, ◌⊎◌, ◌↔◌, inl, inr, [], ◌∷◌, arith, refl, sym, ◌∙◌, ap, ltb, if◌then◌else◌,
}
use sql_code.CText.{Bytes}
use sql_code.OracleDate.{Date, compare_dates}
use sql_code.OracleDate.Regex.{DateText, IsDate}
use sql_code.OracleDate.Parse.{day_number, year_number, month_number, meaning}
use sql_code.OracleDate.Iso.{
  two_digits, month_bytes, iso_bytes, day_number-lt, year_number-lt, IsMonth, month_num-IsMonth,
}

-- The order of two texts by their bytes, as -1, 0 or 1.
unfoldable pub text_order : Bytes → Bytes → ℤ
text_order [] [] = pos 0
text_order [] (y ∷ b) = negsuc 0
text_order (x ∷ a) [] = pos 1
text_order (x ∷ a) (y ∷ b) =
    let rest = text_order a b in if ltb x y then negsuc 0 else if ltb y x then pos 1 else rest

-- First by two numbers, then by what `rest` says.
abbrev number_order : ℕ → ℕ → ℤ → ℤ
number_order a b rest = if ltb a b then negsuc 0 else if ltb b a then pos 1 else rest

text_order-two_digits :
    (a b : ℕ) (s t : Bytes)
    → a < 100
    → b < 100
    → text_order (two_digits a s) (two_digits b t) ≡ number_order a b (text_order s t)
unfolding text_order
text_order-two_digits a b s t ha hb = ground arith

text_order-same : (c : ℕ) (s t : Bytes) → text_order (c ∷ s) (c ∷ t) ≡ text_order s t
unfolding text_order
text_order-same c s t = ground arith

abbrev month_order : ℤ → ℤ → ℤ → ℤ
month_order a b rest = if ltb_ℤ a b then negsuc 0 else if ltb_ℤ b a then pos 1 else rest

text_order-month_bytes :
    (a b : ℤ) (s t : Bytes)
    → IsMonth a
    → IsMonth b
    → text_order (month_bytes a s) (month_bytes b t) ≡ month_order a b (text_order s t)
unfolding text_order
text_order-month_bytes (pos a) (pos b) s t ha hb = ground arith
text_order-month_bytes (pos a) (negsuc b) s t ha hb = ground arith
text_order-month_bytes (negsuc a) (pos b) s t ha hb = ground arith
text_order-month_bytes (negsuc a) (negsuc b) s t ha hb = ground arith

text_order_empty : text_order [] [] ≡ pos 0
unfolding text_order
text_order_empty = refl

-- Dates compare as the texts of their ISO forms do.
pub compare_dates-iso_bytes :
    (t u : DateText)
    → IsDate t
    → IsDate u
    → compare_dates (meaning t) (meaning u) ≡ text_order (iso_bytes t) (iso_bytes u)
unfolding compare_dates
compare_dates-iso_bytes t u ht hu = sym (
    text_order-same b'2' _ _
    ∙ text_order-same b'0' _ _
    ∙ text_order-two_digits (year_number t) (year_number u) _ _ (year_number-lt t ht)
        (year_number-lt u hu)
    ∙ ap (number_order (year_number t) (year_number u)) (
        text_order-same b'-' _ _
        ∙ text_order-month_bytes (month_number t) (month_number u) _ _ (month_num-IsMonth _)
            (month_num-IsMonth _)
        ∙ ap (month_order (month_number t) (month_number u)) (
            text_order-same b'-' _ _
            ∙ text_order-two_digits (day_number t.day) (day_number u.day) [] []
                (day_number-lt _ ht.day_digits) (day_number-lt _ hu.day_digits)
            ∙ ap (number_order (day_number t.day) (day_number u.day)) text_order_empty))
    ∙ numbers)
  where
    numbers :
        number_order (year_number t) (year_number u) (
          month_order
            (month_number t)
            (month_number u)
            (number_order (day_number t.day) (day_number u.day) (pos 0)))
        ≡ compare_dates (meaning t) (meaning u)
    numbers = simp add-zero

abbrev pub negate : ℤ → ℤ
negate a = sub_ℕ (neg_part a) (pos_part a)

-- `Date` with its fields equal is one value.
pub compare_dates-zero_iff : (a b : Date) → (compare_dates a b ≡ pos 0) ↔ (a ≡ b)
unfolding compare_dates
compare_dates-zero_iff a b = ground arith

compare_dates-negate : (a b : Date) → compare_dates b a ≡ negate (compare_dates a b)
unfolding compare_dates
compare_dates-negate a b = ground arith

abbrev Before : ℤ → ℤ → Type 0
Before a b = pos_part a + neg_part b < pos_part b + neg_part a

abbrev Same : ℤ → ℤ → Type 0
Same a b = pos_part a + neg_part b ≡ pos_part b + neg_part a

-- Year before month before day.
abbrev NotAfter : Date → Date → Type 0
NotAfter a b =
    Before a.year b.year
    ⊎ (Same a.year b.year × (Before a.month b.month ⊎ (Same a.month b.month × (a.day ≤ℤ b.day))))

compare_dates-NotAfter : (a b : Date) → compare_dates a b ≤ℤ pos 0 → NotAfter a b
unfolding compare_dates
compare_dates-NotAfter a b h = ground arith

NotAfter-compare_dates : (a b : Date) → NotAfter a b → compare_dates a b ≤ℤ pos 0
unfolding compare_dates
NotAfter-compare_dates a b (inl y) = ground arith
NotAfter-compare_dates a b (inr (y, inl m)) = ground arith
NotAfter-compare_dates a b (inr (y, inr (m, d))) = ground arith

NotAfter-trans : (a b c : Date) → NotAfter a b → NotAfter b c → NotAfter a c
NotAfter-trans a b c (inl y) (inl z) = inl (omega arith)
NotAfter-trans a b c (inl y) (inr (z, k)) = inl (omega arith)
NotAfter-trans a b c (inr (y, h)) (inl z) = inl (omega arith)
NotAfter-trans a b c (inr (y, inl m)) (inr (z, inl n)) = inr (omega arith, inl (omega arith))
NotAfter-trans a b c (inr (y, inl m)) (inr (z, inr (n, k))) = inr (omega arith, inl (omega arith))
NotAfter-trans a b c (inr (y, inr (m, h))) (inr (z, inl n)) = inr (omega arith, inl (omega arith))
NotAfter-trans a b c (inr (y, inr (m, h))) (inr (z, inr (n, k))) =
    inr (omega arith, inr (omega arith, omega arith))

compare_dates-trans :
    (a b c : Date)
    → compare_dates a b ≤ℤ pos 0
    → compare_dates b c ≤ℤ pos 0
    → compare_dates a c ≤ℤ pos 0
compare_dates-trans a b c h k =
    NotAfter-compare_dates a c
      (NotAfter-trans a b c (compare_dates-NotAfter a b h) (compare_dates-NotAfter b c k))

-- What SQLite asks of a collation, on the comparison of two dates: equal only if the dates are,
-- reversed by a swap, and transitive. It holds of every three dates, uninitialised ones included.
pub compare_dates-IsOrder :
    (a b c : Date)
    → ((compare_dates a b ≡ pos 0) ↔ (a ≡ b))
      × (compare_dates b a ≡ negate (compare_dates a b))
      × (compare_dates a b ≤ℤ pos 0 → compare_dates b c ≤ℤ pos 0 → compare_dates a c ≤ℤ pos 0)
compare_dates-IsOrder a b c =
    (compare_dates-zero_iff a b, compare_dates-negate a b, compare_dates-trans a b c)
