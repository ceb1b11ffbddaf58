-- ===== src/Basic/Lexer/Words.antt =====
-- What is written is read back.
use mathlib.Core.List.{append_assoc}
use ralph_os.Base.{
  ℕ, zero, suc, ◌+◌, ◌/◌, ◌%◌, ◌^◌, ◌≤◌, ◌<◌, ◌≡◌, inl, inr, refl, ap, ◌∙◌, Bool, true, false, ◌||◌,
  none, List, [], ◌∷◌, ◌++◌, arith, map, ◌==◌, Bool-cases, length, All,
}
use ralph_os.Basic.Lexer.{
  Token, integer, string_lit, identifier, eof, is_digit, is_word, to_upper, string_from, take_while,
  value_from, parse_i64, word_eq, keywords, find_word, keyword_or_name, read_string, read_number,
  read_identifier_or_keyword, symbol, token_at, next_token,
}
use ralph_os.Basic.Lexer.Print.{
  digits, power_of_ten, print_token, print_tokens, Stops, IsPlain, IsCapital, IsName, IsPrintable,
}

take_while-append :
    (p : ℕ → Bool) (l rest : List ℕ)
    → All (λ x. p x ≡ true) l
    → Stops p rest
    → take_while p (l ++ rest) ≡ (l, rest)
unfolding take_while
take_while-append p [] [] h e = refl
take_while-append p [] (c ∷ cs) h e = rw e refl
take_while-append p (x ∷ l) rest (now, h) e = rw (now, take_while-append p l rest h e) refl

string_from-append : (s cs : List ℕ) → All IsPlain s → string_from (s ++ (34 ∷ cs)) ≡ (s, cs)
unfolding string_from
string_from-append [] cs h = refl
string_from-append (c ∷ s) cs (now, h) = rw (now.0, now.1, now.2, string_from-append s cs h) refl

pub digits-value_from :
    (fuel n : ℕ) (l : List ℕ)
    → n < power_of_ten fuel
    → value_from 0 (digits fuel n l) ≡ value_from n l
unfolding digits value_from
digits-value_from zero n l h = ap (λ m. value_from m l) (omega arith)
digits-value_from (suc fuel) n l h = elim (Bool-cases (n / 10 == 0)) [
  | inl e ↦ rw e (ap (λ m. value_from m l) (ground (arith, e)))
  | inr e ↦ rw e (
      digits-value_from fuel (n / 10) ((48 + n % 10) ∷ l) (omega arith)
      ∙ ap (λ m. value_from m l) (omega arith))
]

abbrev pub AreDigits : List ℕ → Type 0
AreDigits l = All (λ c. is_digit c ≡ true) l

pub digits-AreDigits : (fuel n : ℕ) (l : List ℕ) → AreDigits l → AreDigits (digits fuel n l)
unfolding digits
digits-AreDigits zero n l h = h
digits-AreDigits (suc fuel) n l h =
    let d : AreDigits ((48 + n % 10) ∷ l) = (ground arith, h) in
    elim (Bool-cases (n / 10 == 0)) [
      | inl e ↦ rw e d
      | inr e ↦ rw e (digits-AreDigits fuel (n / 10) ((48 + n % 10) ∷ l) d)
    ]

length-digits : (fuel n : ℕ) (l : List ℕ) → length l ≤ length (digits fuel n l)
unfolding digits
length-digits zero n l = omega arith
length-digits (suc fuel) n l = ground (arith, length-digits fuel (n / 10) ((48 + n % 10) ∷ l))

pub digits-positive : (fuel n : ℕ) → 0 < length (digits (suc fuel) n [])
unfolding digits
digits-positive fuel n = ground (arith, length-digits fuel (n / 10) ((48 + n % 10) ∷ []))

read_number-digits :
    (l rest : List ℕ)
    → AreDigits l
    → Stops is_digit rest
    → read_number (l ++ rest) ≡ (integer (parse_i64 l), rest)
unfolding read_number
read_number-digits l rest h stop = rw (read_number, take_while-append is_digit l rest h stop) refl

next_token-digits :
    (l rest : List ℕ)
    → AreDigits l
    → 0 < length l
    → Stops is_digit rest
    → next_token (l ++ rest) ≡ (integer (parse_i64 l), rest)
unfolding next_token token_at
next_token-digits [] rest h pos stop = absurd (omega arith)
next_token-digits (c ∷ l) rest (now, h) pos stop =
    let blank : ((c == 32) || (c == 9)) ≡ false = ground (arith, now) in
    let line : (c == 10) ≡ false = ground (arith, now) in
    let return : (c == 13) ≡ false = ground (arith, now) in
    let quote : (c == 34) ≡ false = ground (arith, now) in
    rw (next_token, blank, line, return, quote, now, read_number-digits (c ∷ l) rest (now, h) stop)
      refl

pub next_token-integer :
    (n : ℕ) (rest : List ℕ)
    → n < 2 ^ 63
    → Stops is_digit rest
    → next_token (digits 19 n [] ++ rest) ≡ (integer n, rest)
next_token-integer n rest small stop =
    let same : value_from 0 (digits 19 n []) ≡ n =
      digits-value_from 19 n [] (omega arith) ∙ (unfold value_from in refl) in
    let whole : parse_i64 (digits 19 n []) ≡ n = unfold parse_i64 in ground (arith, same) in
    next_token-digits (digits 19 n []) rest (digits-AreDigits 19 n [] tt) (digits-positive 18 n)
      stop
    ∙ ap (λ m. (integer m, rest)) whole

pub next_token-string :
    (s rest : List ℕ) → All IsPlain s → next_token (34 ∷ (s ++ (34 ∷ rest))) ≡ (string_lit s, rest)
unfolding next_token token_at read_string
next_token-string s rest h = rw (next_token, string_from-append s rest h) refl

to_upper-map : (s : List ℕ) → All IsCapital s → map to_upper s ≡ s
to_upper-map [] h = refl
to_upper-map (c ∷ s) (now, h) = rw (now.1, to_upper-map s h) refl

words_of : (s : List ℕ) → All IsCapital s → All (λ c. is_word c ≡ true) s
words_of [] h = tt
words_of (c ∷ s) (now, h) = (now.0, words_of s h)

read-name :
    (s rest : List ℕ)
    → All IsCapital s
    → find_word s keywords ≡ none
    → Stops is_word rest
    → read_identifier_or_keyword (s ++ rest) ≡ (identifier s, rest)
unfolding read_identifier_or_keyword keyword_or_name
read-name s rest capital free stop =
    let named : keyword_or_name s ≡ identifier s = rw (keyword_or_name, free) refl in
    ap (λ r. (keyword_or_name (map to_upper r.0), r.1))
      (take_while-append is_word s rest (words_of s capital) stop)
    ∙ ap (λ w. (keyword_or_name w, rest)) (to_upper-map s capital)
    ∙ ap (λ t. (t, rest)) named

pub next_token-name :
    (s rest : List ℕ)
    → IsName s
    → Stops is_word rest
    → next_token (s ++ rest) ≡ (identifier s, rest)
unfolding next_token token_at
next_token-name [] rest h stop = absurd h
next_token-name (c ∷ s) rest (letter, capital, free) stop =
    let blank : ((c == 32) || (c == 9)) ≡ false = ground (arith, letter) in
    let line : (c == 10) ≡ false = ground (arith, letter) in
    let return : (c == 13) ≡ false = ground (arith, letter) in
    let quote : (c == 34) ≡ false = ground (arith, letter) in
    let digit : is_digit c ≡ false = ground (arith, letter) in
    rw
      (
        next_token,
        blank,
        line,
        return,
        quote,
        digit,
        letter,
        read-name (c ∷ s) rest capital free stop,
      )
      refl

-- One token of each kind, with a blank behind it.
next_token-print_token :
    (t : Token) (cs : List ℕ)
    → IsPrintable t
    → next_token (print_token t ++ (32 ∷ cs)) ≡ (t, 32 ∷ cs)
unfolding print_token next_token token_at read_identifier_or_keyword keyword_or_name find_word
    word_eq take_while symbol
next_token-print_token (integer n) cs h = next_token-integer n (32 ∷ cs) h refl
next_token-print_token (string_lit s) cs h =
    ap (λ l. next_token (34 ∷ l)) (append_assoc s (34 ∷ []) (32 ∷ cs))
    ∙ next_token-string s (32 ∷ cs) h
next_token-print_token (identifier s) cs h = next_token-name s (32 ∷ cs) h refl
next_token-print_token eof cs h = absurd h
next_token-print_token _ cs h = refl

-- The lexer answers these tokens one after the other, and then the end.
unfoldable pub Reads : List Token → List ℕ → Type 0
Reads [] cs = next_token cs ≡ (eof, [])
Reads (t ∷ ts) cs = (rest : List ℕ) × (next_token cs ≡ (t, rest)) × Reads ts rest

Reads-blank : (ts : List Token) (cs : List ℕ) → Reads ts cs → Reads ts (32 ∷ cs)
unfolding Reads next_token
Reads-blank [] cs h = h
Reads-blank (t ∷ ts) cs h = h

-- Tokens that are written with a blank behind each, where integers are below 2^63, strings hold no
-- quote and no end of line, names are capitals, digits, _ and $ after a letter and no keyword, and
-- none is the end: the lexer answers exactly these tokens one after the other, and then the end.
pub Reads-print_tokens : (ts : List Token) → All IsPrintable ts → Reads ts (print_tokens ts)
unfolding Reads print_tokens
Reads-print_tokens [] h = unfold next_token in refl
Reads-print_tokens (t ∷ ts) (now, h) = (
  32 ∷ print_tokens ts,
  next_token-print_token t (print_tokens ts) now,
  Reads-blank ts (print_tokens ts) (Reads-print_tokens ts h),
)
