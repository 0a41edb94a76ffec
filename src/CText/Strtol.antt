-- ===== src/CText/Strtol.antt =====
-- Where `strtol` in base 0 stops reading, and the texts that it reads to their end.
use sql_code.Common.{
  ℕ, ◌≡◌, ◌↔◌, ◌⊎◌, Option-cases, refl, sym, ap, ◌∙◌, arith, Bool, true, false, ◌&&◌, ◌||◌,
  Bool-cases, inl, inr, [], ◌∷◌, Option, none, some, ◌==◌, if◌then◌else◌,
}
use sql_code.CText.{Bytes, within, is_digit, is_space}

abbrev pub is_octal : ℕ → Bool
is_octal c = within b'0' b'7' c

abbrev pub is_hex : ℕ → Bool
is_hex c = is_digit c || within b'a' b'f' c || within b'A' b'F' c

abbrev pub is_x : ℕ → Bool
is_x c = c == b'x' || c == b'X'

unfoldable pub skip_while : (ℕ → Bool) → Bytes → Bytes
skip_while p [] = []
skip_while p (c ∷ s) = let rest = skip_while p s in if p c then rest else c ∷ s

-- Behind `0x`, if a digit follows.
abbrev after_hex : Bytes → Option Bytes
after_hex (x ∷ d ∷ s) = if is_x x && is_hex d then some (skip_while is_hex s) else none
after_hex _ = none

-- What stands behind the digits; `none` if there are none.
abbrev after_digits : Bytes → Option Bytes
after_digits [] = none
after_digits (c ∷ s) =
    if c == b'0'
    then elim (after_hex s) [ some r ↦ some r | none ↦ some (skip_while is_octal s) ]
    else if is_digit c
    then some (skip_while is_digit s)
    else none

abbrev strip_sign : Bytes → Bytes
strip_sign [] = []
strip_sign (c ∷ s) = if c == b'+' || c == b'-' then s else c ∷ s

abbrev pub after_number : Bytes → Option Bytes
after_number s = after_digits (strip_sign (skip_while is_space s))

-- `*endptr` of `strtol(s, endptr, 0)`: the start of the text if there is no number.
unfoldable pub strtol_end : Bytes → Bytes
unfolding skip_while
strtol_end s = elim (after_number s) [ none ↦ s | some r ↦ r ]

abbrev pub every : (ℕ → Bool) → Bytes → Bool
every p [] = true
every p (c ∷ s) = p c && every p s

-- The integer constants of C: decimal, octal and hexadecimal,
pub data Constant : Bytes → Type 0 where
  decimal :
      (c : ℕ) (ds : Bytes)
      → within b'1' b'9' c ≡ true
      → every is_digit ds ≡ true
      → Constant (c ∷ ds)
  octal : (z : ℕ) (ds : Bytes) → (z == b'0') ≡ true → every is_octal ds ≡ true → Constant (z ∷ ds)
  hexadecimal :
      (z x d : ℕ) (ds : Bytes)
      → (z == b'0') ≡ true
      → is_x x ≡ true
      → is_hex d ≡ true
      → every is_hex ds ≡ true
      → Constant (z ∷ x ∷ d ∷ ds)

-- with a sign or none,
pub data Signed : Bytes → Type 0 where
  unsigned : {s : Bytes} → Constant s → Signed s
  sign : (c : ℕ) {s : Bytes} → (c == b'+' || c == b'-') ≡ true → Constant s → Signed (c ∷ s)

-- and white space in front.
pub data IntText : Bytes → Type 0 where
  number : {s : Bytes} → Signed s → IntText s
  space : (c : ℕ) {s : Bytes} → is_space c ≡ true → IntText s → IntText (c ∷ s)

skip_while-every : (p : ℕ → Bool) (s : Bytes) → every p s ≡ true → skip_while p s ≡ []
unfolding skip_while
skip_while-every p [] h = refl
skip_while-every p (c ∷ s) h = ground (arith, skip_while-every p s)

every-skip_while : (p : ℕ → Bool) (s : Bytes) → skip_while p s ≡ [] → every p s ≡ true
unfolding skip_while
every-skip_while p [] h = refl
every-skip_while p (c ∷ s) h = ground (arith, every-skip_while p s)

after_hex-octal : (s : Bytes) → every is_octal s ≡ true → after_hex s ≡ none
after_hex-octal [] h = refl
after_hex-octal (x ∷ []) h = refl
after_hex-octal (x ∷ d ∷ s) h = (let other : is_x x ≡ false = ground arith in rw other refl)

after_digits-Constant : (s : Bytes) → Constant s → after_digits s ≡ some []
after_digits-Constant s (Constant.decimal c ds h k) = ground (arith, skip_while-every is_digit ds k)
after_digits-Constant s (Constant.octal z ds h k) =
    rw (h, after_hex-octal ds k, skip_while-every is_octal ds k) refl
after_digits-Constant s (Constant.hexadecimal z x d ds h hx hd k) =
    rw (h, hx, hd, skip_while-every is_hex ds k) refl

Constant-sign : (s : Bytes) → Constant s → strip_sign s ≡ s
Constant-sign s (Constant.decimal c ds h k) = ground arith
Constant-sign s (Constant.octal z ds h k) = ground arith
Constant-sign s (Constant.hexadecimal z x d ds h hx hd k) = ground arith

Constant-space : (s : Bytes) → Constant s → skip_while is_space s ≡ s
unfolding skip_while
Constant-space s (Constant.decimal c ds h k) = ground arith
Constant-space s (Constant.octal z ds h k) = ground arith
Constant-space s (Constant.hexadecimal z x d ds h hx hd k) = ground arith

after_number-IntText : (s : Bytes) → IntText s → after_number s ≡ some []
unfolding skip_while
after_number-IntText s (IntText.number (Signed.unsigned c)) =
    rw (Constant-space s c, Constant-sign s c) (after_digits-Constant s c)
after_number-IntText s (IntText.number (Signed.sign b {s = t} h c)) =
    let no_space : is_space b ≡ false = ground arith in rw (no_space, h) (after_digits-Constant t c)
after_number-IntText s (IntText.space b {s = t} h r) = rw h (after_number-IntText t r)

Constant-zero_digit :
    (z : ℕ) (s : Bytes) → (z == b'0') ≡ true → after_digits (z ∷ s) ≡ some [] → Constant (z ∷ s)
Constant-zero_digit z [] e h = Constant.octal z [] e refl
Constant-zero_digit z (x ∷ []) e h =
    Constant.octal z (x ∷ []) e (every-skip_while is_octal (x ∷ []) (ground (arith, e)))
Constant-zero_digit z (x ∷ d ∷ s) e h = elim (Bool-cases (is_x x && is_hex d)) [
  | inl hit ↦
      Constant.hexadecimal z x d s e (ground arith) (ground arith)
        (every-skip_while is_hex s (ground (arith, e, hit)))
  | inr miss ↦
      Constant.octal z (x ∷ d ∷ s) e
        (every-skip_while is_octal (x ∷ d ∷ s) (ground (arith, e, miss)))
]

Constant-after_digits : (s : Bytes) → after_digits s ≡ some [] → Constant s
Constant-after_digits [] h = absurd (ground arith)
Constant-after_digits (c ∷ s) h = elim (Bool-cases (c == b'0')) [
  | inl zero_digit ↦ Constant-zero_digit c s zero_digit h
  | inr other ↦ Constant.decimal c s (ground arith) (every-skip_while is_digit s (ground arith))
]

Signed-after_digits : (s : Bytes) → after_digits (strip_sign s) ≡ some [] → Signed s
Signed-after_digits [] h = absurd (ground arith)
Signed-after_digits (c ∷ s) h = elim (Bool-cases (c == b'+' || c == b'-')) [
  | inl hit ↦
      Signed.sign c hit
        (Constant-after_digits s (ap after_digits (sym (ap (λ b. if b then s else c ∷ s) hit)) ∙ h))
  | inr miss ↦ Signed.unsigned (
      Constant-after_digits (c ∷ s)
        (ap after_digits (sym (ap (λ b. if b then s else c ∷ s) miss)) ∙ h))
]

IntText-after_number : (s : Bytes) → after_number s ≡ some [] → IntText s
unfolding skip_while
IntText-after_number [] h = absurd (ground arith)
IntText-after_number (c ∷ s) h = elim (Bool-cases (is_space c)) [
  | inl hit ↦ IntText.space c hit (
      IntText-after_number s (
        ap (λ b. after_digits (strip_sign (if b then skip_while is_space s else c ∷ s))) (sym hit)
        ∙ h))
  | inr miss ↦ IntText.number (
      Signed-after_digits (c ∷ s) (
        ap (λ b. after_digits (strip_sign (if b then skip_while is_space s else c ∷ s))) (sym miss)
        ∙ h))
]

-- `strtol` reads a text to its end if and only if it is empty or the text of an integer.
pub strtol_end_iff : (s : Bytes) → (strtol_end s ≡ []) ↔ ((s ≡ []) ⊎ IntText s)
unfolding strtol_end
strtol_end_iff s = (
  λ h. elim (Option-cases (after_number s)) [
    | inl none_there ↦ inl (sym (ap (λ o. elim o [ none ↦ s | some r ↦ r ]) none_there) ∙ h)
    | inr (r, there) ↦ inr (
        IntText-after_number s
          (there ∙ ap some (sym (ap (λ o. elim o [ none ↦ s | some r ↦ r ]) there) ∙ h)))
  ],
  λ e. elim e [
    | inl empty ↦ ap (λ t. elim (after_number t) [ none ↦ t | some r ↦ r ]) empty
    | inr text ↦ ap (λ o. elim o [ none ↦ s | some r ↦ r ]) (after_number-IntText s text)
  ],
)
