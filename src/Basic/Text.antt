-- ===== src/Basic/Text.antt =====
-- The functions of `str` that the string functions of src/basic/interpreter.rs call.
pub mod Numbers
use ralph_os.Base.{
  ℕ, zero, suc, ◌+◌, ◌-◌, ◌*◌, ◌^◌, Bool, true, false, ◌&&◌, ◌||◌, Option, none, some, List, [],
  ◌∷◌, ◌++◌, ltb, leb, ◌==◌, if◌then◌else◌, length, All,
}
use mathlib.Core.List.{reverse}
use ralph_os.Base.Int.{ℤ, pos, negsuc, negated}
use ralph_os.Basic.Lexer.{is_digit, value_from, word_eq}
use ralph_os.Basic.Utf8.{encode_char, encode}

-- `len`
unfoldable pub byte_len : List ℕ → ℕ
byte_len s = length (encode s)

-- `bytes().next().unwrap_or(0)`
abbrev pub head_or_zero : List ℕ → ℕ
head_or_zero [] = 0
head_or_zero (b ∷ bs) = b

unfoldable pub is_prefix : List ℕ → List ℕ → Bool
is_prefix [] ys = true
is_prefix (x ∷ xs) [] = false
is_prefix (x ∷ xs) (y ∷ ys) = (x == y) && is_prefix xs ys

-- `find`: the byte offset of the first place, counted from `offset`.
unfoldable pub find_from : ℕ → (haystack needle : List ℕ) → Option ℕ
unfolding is_prefix
find_from offset [] needle = if is_prefix needle [] then some offset else none
find_from offset (c ∷ cs) needle =
    let later = find_from (offset + length (encode_char c)) cs needle in
    if is_prefix needle (c ∷ cs) then some offset else later

-- `char::is_whitespace`
unfoldable pub is_whitespace : ℕ → Bool
is_whitespace c =
    (leb 9 c && leb c 13)
    || ((c == 32)
        || ((c == 0x85)
            || ((c == 0xA0)
                || ((c == 0x1680)
                    || ((leb 0x2000 c && leb c 0x200A)
                        || ((c == 0x2028)
                            || ((c == 0x2029)
                                || ((c == 0x202F) || ((c == 0x205F) || (c == 0x3000))))))))))

unfoldable pub trim_start : List ℕ → List ℕ
trim_start [] = []
trim_start (c ∷ cs) = if is_whitespace c then trim_start cs else c ∷ cs

unfoldable pub trim : List ℕ → List ℕ
unfolding trim_start
trim s = reverse (trim_start (reverse (trim_start s)))

abbrev pub all_digits : List ℕ → Bool
all_digits [] = true
all_digits (c ∷ cs) = is_digit c && all_digits cs

-- The digits behind a sign: at least one, and none else.
abbrev pub parse_digits : List ℕ → Option ℕ
parse_digits [] = none
parse_digits (c ∷ cs) = if all_digits (c ∷ cs) then some (value_from 0 (c ∷ cs)) else none

abbrev pub below : ℕ → Option ℕ → Option ℕ
below bound none = none
below bound (some n) = if ltb n bound then some n else none

-- `parse::<i64>`
unfoldable pub parse_int : List ℕ → Option ℤ
unfolding value_from
parse_int [] = none
parse_int (c ∷ cs) =
    if c == 45
    then (elim (below (2 ^ 63 + 1) (parse_digits cs)) [ some n ↦ some (negated n) | none ↦ none ])
    else (elim (below (2 ^ 63) (parse_digits (if c == 43 then cs else c ∷ cs))) [
      | some n ↦ some (pos n)
      | none ↦ none
    ])
