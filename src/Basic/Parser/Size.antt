-- ===== src/Basic/Parser/Size.antt =====
-- What a token takes of the input.
use ralph_os.Base.{
  ℕ, suc, ◌+◌, ◌≤◌, ◌≡◌, inl, inr, refl, Bool, true, false, ◌||◌, Option, none, some, List, [], ◌∷◌,
  arith, if◌then◌else◌, length, ◌==◌, Bool-cases, if_both,
}
use ralph_os.Basic.Lexer.{
  Token, string_from, take_while, is_digit, is_alphabetic, is_word, read_string, read_number,
  read_identifier_or_keyword, after_return, after_less, after_greater, symbol, token_at, next_token,
}
use ralph_os.Basic.Parser.{Parser, P, parser_of}

-- 0 at the end, else 1
abbrev pub live : Token → ℕ
live Token.eof = 0
live _ = 1

-- What is left: the characters, and the current token.
unfoldable pub size : Parser → ℕ
size p = length p.lexer + live p.current

length-string_from : (cs : List ℕ) → length (string_from cs).1 ≤ length cs
unfolding string_from
length-string_from [] = omega arith
length-string_from (c ∷ cs) = ground (arith, length-string_from cs)

length-take_while : (p : ℕ → Bool) (cs : List ℕ) → length (take_while p cs).1 ≤ length cs
unfolding take_while
length-take_while p [] = omega arith
length-take_while p (c ∷ cs) = elim (Bool-cases (p c)) [
  | inl e ↦ rw e (omega (arith, length-take_while p cs))
  | inr e ↦ rw e (omega arith)
]

length-take_while_lt :
    (p : ℕ → Bool) (c : ℕ) (cs : List ℕ) → p c ≡ true → length (take_while p (c ∷ cs)).1 ≤ length cs
unfolding take_while
length-take_while_lt p c cs e = rw e (length-take_while p cs)

live_le : (t : Token) → live t ≤ 1
live_le Token.eof = omega arith
live_le _ = omega arith

-- A token and what is behind it take no more than `n` characters.
abbrev Fits : ℕ → Token × List ℕ → Type 0
Fits n r = length r.1 + live r.0 ≤ n

fits : (n : ℕ) (r : Token × List ℕ) → length r.1 ≤ n → Fits (suc n) r
fits n r h = omega (arith, live_le r.0)

Fits-read_identifier_or_keyword :
    (c : ℕ) (cs : List ℕ)
    → is_alphabetic c ≡ true
    → Fits (suc (length cs)) (read_identifier_or_keyword (c ∷ cs))
unfolding read_identifier_or_keyword
Fits-read_identifier_or_keyword c cs e =
    fits (length cs) (read_identifier_or_keyword (c ∷ cs))
      (length-take_while_lt is_word c cs (ground (arith, e)))

Fits-read_number :
    (c : ℕ) (cs : List ℕ) → is_digit c ≡ true → Fits (suc (length cs)) (read_number (c ∷ cs))
unfolding read_number
Fits-read_number c cs e =
    fits (length cs) (read_number (c ∷ cs)) (length-take_while_lt is_digit c cs e)

Fits-read_string : (cs : List ℕ) → Fits (suc (length cs)) (read_string cs)
unfolding read_string
Fits-read_string cs = fits (length cs) (read_string cs) (length-string_from cs)

length-after_return : (cs : List ℕ) → length (after_return cs) ≤ length cs
length-after_return [] = omega arith
length-after_return (c ∷ cs) = ground arith

length-after_less : (cs : List ℕ) → length (after_less cs).1 ≤ length cs
length-after_less [] = omega arith
length-after_less (c ∷ cs) = ground arith

length-after_greater : (cs : List ℕ) → length (after_greater cs).1 ≤ length cs
length-after_greater [] = omega arith
length-after_greater (c ∷ cs) = ground arith

Fits-symbol :
    (s : Option Token) (cs : List ℕ) (again : Token × List ℕ)
    → Fits (suc (length cs)) again
    → Fits (suc (length cs)) (elim s [ some t ↦ (t, cs) | none ↦ again ])
Fits-symbol none cs again h = h
Fits-symbol (some t) cs again h = fits (length cs) (t, cs) (omega arith)

-- A branch whose test may be used.
if_case {ℓ κ} :
    {A : Type ℓ} (P : A → Type κ) (b : Bool) {x y : A}
    → (b ≡ true → P x)
    → P y
    → P (if b then x else y)
if_case P true p q = p refl
if_case P false p q = q

Fits-token_at :
    (c : ℕ) (cs : List ℕ) (again : Token × List ℕ)
    → Fits (suc (length cs)) again
    → Fits (suc (length cs)) (token_at c cs again)
unfolding token_at
Fits-token_at c cs again h =
    let n = length cs in
    let Q : Token × List ℕ → Type 0 = Fits (suc n) in
    if_both Q (c == 10) (fits n (Token.newline, cs) (omega arith)) (
      if_both Q (c == 13) (fits n (Token.newline, after_return cs) (length-after_return cs)) (
        if_both Q (c == 34) (Fits-read_string cs) (
          if_case Q (is_digit c) (Fits-read_number c cs) (
            if_case Q (is_alphabetic c) (Fits-read_identifier_or_keyword c cs) (
              if_both Q (c == 60) (fits n (after_less cs) (length-after_less cs)) (
                if_both Q (c == 62) (fits n (after_greater cs) (length-after_greater cs))
                  (Fits-symbol (symbol c) cs again h)))))))

Fits-next_token : (cs : List ℕ) → Fits (length cs) (next_token cs)
unfolding next_token
Fits-next_token [] = omega arith
Fits-next_token (c ∷ cs) =
    let again : Fits (suc (length cs)) (next_token cs) = omega (arith, Fits-next_token cs) in
    if_both (Fits (suc (length cs))) ((c == 32) || (c == 9)) again
      (Fits-token_at c cs (next_token cs) again)

pub size-parser_of : (cs : List ℕ) → size (parser_of cs) ≤ length cs
unfolding size parser_of
size-parser_of cs = Fits-next_token cs
