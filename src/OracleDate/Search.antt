-- ===== src/OracleDate/Search.antt =====
-- A search for the Oracle date pattern that meets what is assumed of PCRE, for the runs of the code.
use native.Mathlib.Nat.{sub-zero}
use sql_code.Common.{
  ℕ, suc, ◌+◌, ◌-◌, ◌≡◌, ◌≤◌, inl, inr, Bool, false, ◌&&◌, [], ◌∷◌, ◌++◌, Option, none, some, arith,
  refl, ◌==◌, if◌then◌else◌, length, take, drop, Bool-cases, Option-cases,
}
use sql_code.CText.{Bytes, is_digit}
use sql_code.OracleDate.{Pcre}
use sql_code.OracleDate.Regex.{is_letter, DayText, one, two, DateText, print, IsDate, Documented}

is_tail : Bytes → Bool
is_tail (h ∷ a ∷ b ∷ c ∷ k ∷ y ∷ z ∷ rest) =
    h == b'-'
    && (is_letter a && (is_letter b && (is_letter c && (k == b'-' && (is_digit y && is_digit z)))))
is_tail _ = false

unfoldable pub match_here : Bytes → Option ℕ
unfolding is_tail
match_here (d ∷ e ∷ s) =
    if is_digit d && is_tail (e ∷ s)
    then some 8
    else if is_digit d && (is_digit e && is_tail s)
    then some 9
    else none
match_here _ = none

unfoldable pub search_from : ℕ → Bytes → Option (ℕ × ℕ)
unfolding match_here
search_from i [] = none
search_from i (c ∷ s) =
    let later = search_from (i + 1) s in
    elim (match_here (c ∷ s)) [ some n ↦ some (i, i + n) | none ↦ later ]

abbrev pub pcre : Pcre
pcre = record { Re = Unit {0}; compile = λ pattern. some tt; exec = λ re s. search_from 0 s }

at_front_day :
    (d : DayText) (m1 m2 m3 y1 y2 : ℕ) (rest : Bytes)
    → let t : DateText = record { day = d; m1 = m1; m2 = m2; m3 = m3; y1 = y1; y2 = y2 } in
      IsDate t → search_from 0 (print t ++ rest) ≡ some (0, length (print t))
unfolding search_from
at_front_day (one d) m1 m2 m3 y1 y2 rest h = ground arith
at_front_day (two d e) m1 m2 m3 y1 y2 rest h = ground arith

-- A match at the front is a date.
IsFront : Bytes → ℕ → Type 0
IsFront s n = (t : DateText) × IsDate t × (take n s ≡ print t)

match_here-IsFront : (s : Bytes) (n : ℕ) → match_here s ≡ some n → IsFront s n
unfolding match_here IsFront
match_here-IsFront (d ∷ h ∷ a ∷ b ∷ c ∷ k ∷ y ∷ z ∷ []) n e =
    (record { day = one d; m1 = a; m2 = b; m3 = c; y1 = y; y2 = z }, ground arith, ground arith)
match_here-IsFront (d ∷ e ∷ h ∷ a ∷ b ∷ c ∷ k ∷ y ∷ z ∷ rest) n q =
    elim (Bool-cases (is_digit d && is_tail (e ∷ h ∷ a ∷ b ∷ c ∷ k ∷ y ∷ z ∷ rest))) [
      | inl short ↦ (
        record { day = one d; m1 = h; m2 = a; m3 = b; y1 = k; y2 = y },
        ground arith,
        ground arith,
      )
      | inr long ↦ (
        record { day = two d e; m1 = a; m2 = b; m3 = c; y1 = y; y2 = z },
        ground arith,
        ground arith,
      )
    ]
match_here-IsFront _ n e = ground arith

search_from-IsFront :
    (s : Bytes) (i start end : ℕ)
    → search_from i s ≡ some (start, end)
    → (i ≤ start) × IsFront (drop (start - i) s) (end - start)
unfolding search_from
search_from-IsFront [] i start end e = cc
search_from-IsFront (c ∷ s) i start end e = elim (Option-cases (match_here (c ∷ s))) [
  | inl missed ↦
      let (le, front) = search_from-IsFront s (i + 1) start end (rw (missed, search_from) at e) in
      (omega arith, (let e' : start - i ≡ suc (start - (i + 1)) = omega arith in rw e' front))
  | inr (n, found) ↦
      let here : ◌≡◌ {A = Option (ℕ × ℕ)} (some (i, i + n)) (some (start, end)) =
        rw (found, search_from) at e in
      let none_before : start - i ≡ 0 = ground arith in
      let whole : end - start ≡ n = ground arith in
      (ground arith, rw (none_before, whole) (match_here-IsFront (c ∷ s) n found))
]

pub pcre-Documented : Documented pcre
pcre-Documented = record {
  re = tt;
  compiled = refl;
  at_front = λ t rest h. at_front_day t.day t.m1 t.m2 t.m3 t.y1 t.y2 rest h;
  matches = λ s start end e. pcre_matches s start end e;
}
  where
    pcre_matches :
        (s : Bytes) (start end : ℕ)
        → search_from 0 s ≡ some (start, end)
        → (t : DateText) × IsDate t × (take (end - start) (drop start s) ≡ print t)
    pcre_matches s start end e =
        unfold IsFront in rw sub-zero at (search_from-IsFront s 0 start end e).1
