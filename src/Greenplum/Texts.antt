-- ===== src/Greenplum/Texts.antt =====
-- The functions on `text` of v1.c: Greenplum/functions/c/v1.c.
-- A `text` is its size in bytes, header included, and its data. Memory that `palloc` gives holds the
-- bytes of the argument `heap`; the error that it raises for more than `max_alloc_size` is `none`. A
-- text that is given as an argument is not larger than that.
use sql_code.Common.{
  Option, none, some, ltb, if◌then◌else◌, length-drop, ℕ, zero, suc, ◌+◌, ◌-◌, ◌%◌, ◌≡◌, ◌≤◌, refl,
  ap, ap₂, arith, [], ◌∷◌, ◌++◌, length, take, drop, take-length-append, append-nil, length-append,
}
use sql_code.CText.{Bytes}
use sql_code.Greenplum.{int32_words}

pub record Text : Type 0 where
  pub varsize : ℕ
  pub vardata : Bytes

abbrev pub varhdrsz : ℕ
varhdrsz = 4

-- `memcpy(dst + off, src, n)` inside of both.
abbrev pub memcpy : Bytes → ℕ → Bytes → ℕ → Bytes
memcpy dst off src n = take off dst ++ (take n src ++ drop (off + n) dst)

unfoldable pub add_one : ℕ → ℕ
add_one arg = (arg + 1) % int32_words

unfoldable pub copytext : Bytes → Text → Text
copytext heap t = record {
  varsize = t.varsize;
  vardata = memcpy heap 0 t.vardata (t.varsize - varhdrsz);
}

-- MaxAllocSize, the most that `palloc` gives; a negative `int32` is more as a `Size`, like its word.
abbrev pub max_alloc_size : ℕ
max_alloc_size = 1073741823

unfoldable pub concat_text : Bytes → Text → Text → Option Text
concat_text heap arg1 arg2 =
    let new_text_size = (arg1.varsize + arg2.varsize - varhdrsz) % int32_words in
    let first = memcpy heap 0 arg1.vardata (arg1.varsize - varhdrsz) in
    if ltb max_alloc_size new_text_size
    then none
    else some (record {
      varsize = new_text_size;
      vardata = memcpy first (arg1.varsize - varhdrsz) arg2.vardata (arg2.varsize - varhdrsz);
    })

-- A text whose size says how much data there is.
abbrev pub text : Bytes → Text
text bytes = record { varsize = length bytes + varhdrsz; vardata = bytes }

take_whole : (xs : Bytes) → take (length xs) xs ≡ xs
take_whole [] = refl
take_whole (x ∷ xs) = ap (◌∷◌ x) (take_whole xs)

drop_all : (n : ℕ) (xs : Bytes) → length xs ≤ n → drop n xs ≡ []
drop_all zero [] h = refl
drop_all zero (x ∷ xs) h = absurd (omega arith)
drop_all (suc n) [] h = refl
drop_all (suc n) (x ∷ xs) h = drop_all n xs (omega arith)

data_size : (xs : Bytes) → (text xs).varsize - varhdrsz ≡ length xs
data_size xs = omega arith

-- `concat_text` of texts that are no larger than `max_alloc_size` gives the text of the data of both,
-- in the memory that it asks for, if that is not larger either, and else raises an error.
pub concat_text-append :
    (heap a b : Bytes)
    → length heap ≡ length a + length b
    → length a + 4 ≤ max_alloc_size
    → length b + 4 ≤ max_alloc_size
    → concat_text heap (text a) (text b)
      ≡ (if ltb max_alloc_size (length a + length b + 4) then none else some (text (a ++ b)))
unfolding concat_text
concat_text-append heap a b h small1 small2 =
    let size : (length a + 4 + (length b + 4) - 4) % int32_words ≡ length a + length b + 4 =
      omega arith in
    rw size (
      ap (λ t. if ltb max_alloc_size (length a + length b + 4) then none else some t)
        (ap₂ (λ n d. record { varsize = n; vardata = d }) (omega (arith, length-append {A = ℕ} a b))
          (rw (data_size a, data_size b, take_whole a, take_whole b) second)))
  where
    tail : Bytes
    tail = drop (0 + length a) heap

    rest : drop (length a + length b) (a ++ tail) ≡ []
    rest =
        drop_all (length a + length b) (a ++ tail)
          (omega (arith, length-append {A = ℕ} a tail, length-drop {A = ℕ} (0 + length a) heap))

    second : take (length a) (a ++ tail) ++ (b ++ drop (length a + length b) (a ++ tail)) ≡ a ++ b
    second = rw (take-length-append a tail, rest, append-nil b) refl
