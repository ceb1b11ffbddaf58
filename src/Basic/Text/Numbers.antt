-- ===== src/Basic/Text/Numbers.antt =====
-- VAL reads what STR$ writes.
use mathlib.Core.Path.{subst}
use mathlib.Core.List.{reverse, reverse-append, reverse-reverse}
use ralph_os.Base.{
  ℕ, suc, ◌+◌, ◌^◌, ◌≤◌, ◌<◌, ◌≡◌, refl, ap, ◌∙◌, sym, true, false, some, List, [], ◌∷◌, arith,
  ◌==◌, All, All-append, length,
}
use ralph_os.Base.Int.{ℤ, pos, negsuc, IsI64}
use ralph_os.Basic.Lexer.{is_digit, value_from}
use ralph_os.Basic.Lexer.Words.{AreDigits, digits-AreDigits, digits-positive, digits-value_from}
use ralph_os.Basic.Text.{
  is_whitespace, trim_start, trim, all_digits, parse_digits, below, parse_int,
}
use ralph_os.Basic.Format.{decimal}
use ralph_os.Basic.Value.{format_int}

-- A character that is no blank.
abbrev IsSolid : ℕ → Type 0
IsSolid c = is_whitespace c ≡ false

digit-IsSolid : (c : ℕ) → is_digit c ≡ true → IsSolid c
unfolding is_whitespace
digit-IsSolid c h = ground (arith, h)

trim_start-solid : (s : List ℕ) → All IsSolid s → trim_start s ≡ s
unfolding trim_start
trim_start-solid [] h = refl
trim_start-solid (c ∷ s) (now, h) = rw now refl

trim-solid : (s : List ℕ) → All IsSolid s → All IsSolid (reverse s) → trim s ≡ s
unfolding trim
trim-solid s h r = rw (trim_start-solid s h, trim_start-solid (reverse s) r) (reverse-reverse s)

All-reverse {κ} : (P : ℕ → Type κ) (s : List ℕ) → All P s → All P (reverse s)
All-reverse P [] h = h
All-reverse P (c ∷ s) (now, h) =
    subst (All P) (sym (reverse-append (c ∷ []) s))
      (All-append P (reverse s) (c ∷ []) (All-reverse P s h) (now, tt))

solid : (s : List ℕ) → AreDigits s → All IsSolid s
solid [] h = tt
solid (c ∷ s) (now, h) = (digit-IsSolid c now, solid s h)

all_digits_lem : (s : List ℕ) → AreDigits s → all_digits s ≡ true
all_digits_lem [] h = refl
all_digits_lem (c ∷ s) (now, h) = rw (now, all_digits_lem s h) refl

parse_digits_lem :
    (s : List ℕ) → AreDigits s → 0 < length s → parse_digits s ≡ some (value_from 0 s)
parse_digits_lem [] h lt = absurd (omega arith)
parse_digits_lem (c ∷ s) (now, h) lt = rw (now, all_digits_lem s h) refl

below_lem : (bound n : ℕ) → n < bound → below bound (some n) ≡ some n
below_lem bound n h = ground arith

-- A number that is not negative.
parse_unsigned :
    (s : List ℕ) (n : ℕ)
    → AreDigits s
    → 0 < length s
    → value_from 0 s ≡ n
    → n < 2 ^ 63
    → parse_int s ≡ some (pos n)
unfolding parse_int
parse_unsigned [] n h lt e small = absurd (omega arith)
parse_unsigned (c ∷ s) n h lt e small =
    let minus : (c == 45) ≡ false = ground (arith, h.0) in
    let plus : (c == 43) ≡ false = ground (arith, h.0) in
    rw (minus, plus) (rw (parse_digits_lem (c ∷ s) h lt, e, below_lem (2 ^ 63) n small) refl)

parse_negative :
    (s : List ℕ) (n : ℕ)
    → AreDigits s
    → 0 < length s
    → value_from 0 s ≡ suc n
    → n < 2 ^ 63
    → parse_int (45 ∷ s) ≡ some (negsuc n)
unfolding parse_int
parse_negative s n h lt e small =
    rw (parse_digits_lem s h lt, e, below_lem (2 ^ 63 + 1) (suc n) (omega arith)) refl

pub decimal-AreDigits : (n : ℕ) → AreDigits (decimal n [])
unfolding decimal
decimal-AreDigits n = digits-AreDigits 19 n [] tt

decimal-positive : (n : ℕ) → 0 < length (decimal n [])
unfolding decimal
decimal-positive n = digits-positive 18 n

value_from-decimal : (n : ℕ) → n ≤ 2 ^ 63 → value_from 0 (decimal n []) ≡ n
unfolding decimal
value_from-decimal n h = digits-value_from 19 n [] (omega arith) ∙ (unfold value_from in refl)

-- Whatever 64-bit integer STR$ writes, the least one included, VAL reads it.
pub parse_int-format_int : (n : ℤ) → IsI64 n → parse_int (trim (format_int n [])) ≡ some n
unfolding format_int
parse_int-format_int (pos n) h =
    let s = solid (decimal n []) (decimal-AreDigits n) in
    ap parse_int (trim-solid (decimal n []) s (All-reverse IsSolid (decimal n []) s))
    ∙ parse_unsigned (decimal n []) n (decimal-AreDigits n) (decimal-positive n)
        (value_from-decimal n (omega arith)) h
parse_int-format_int (negsuc n) h =
    let s : All IsSolid (45 ∷ decimal (suc n) []) =
      (unfold is_whitespace in refl, solid (decimal (suc n) []) (decimal-AreDigits (suc n))) in
    ap parse_int
      (trim-solid (45 ∷ decimal (suc n) []) s (All-reverse IsSolid (45 ∷ decimal (suc n) []) s))
    ∙ parse_negative (decimal (suc n) []) n (decimal-AreDigits (suc n)) (decimal-positive (suc n))
        (value_from-decimal (suc n) (omega arith)) h
