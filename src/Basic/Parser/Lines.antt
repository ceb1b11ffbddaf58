-- ===== src/Basic/Parser/Lines.antt =====
-- Lines of a program: enough fuel, and progress.
use ralph_os.Base.{
  ℕ, zero, suc, ◌≤◌, ◌<◌, ◌≡◌, inl, inr, refl, false, Option, none, some, arith, Bool-cases,
  Option-cases, if_both,
}
use ralph_os.Basic.Lexer.{Token}
use ralph_os.Basic.Syntax.{Statement, ParseError}
use ralph_os.Basic.Parser.{Parser, Parsed, ok, failed, bind, is_newline, is_eof, integer_of}
use ralph_os.Basic.Parser.Size.{live, size}
use ralph_os.Basic.Parser.Fuel.{Bounded, value, error, Bounded-bind, Safe, advance-Safe}
use ralph_os.Basic.Parser.Statements.{
  parse_statement, line_number, skip_newline, numbered_line, skip_newlines, parse_line,
}
use ralph_os.Basic.Parser.Total.{newline-live, shorter, Bounded-next, statement_at-Bounded}

skip_newline-Safe : (k : ℕ) → Safe k skip_newline
unfolding skip_newline
skip_newline-Safe k p h = if_both (Bounded k) (is_newline p.current) (advance-Safe k p h) (value h)

line_number-Safe : (k : ℕ) → Safe k line_number
unfolding line_number
line_number-Safe k p h = elim (Option-cases (integer_of p.current)) [
  | inl e ↦ rw (e, line_number) (value h)
  | inr (n, e) ↦ rw (e, line_number) (Bounded-bind (advance-Safe k p h) λ _ p h. value h)
]

-- A statement takes its first token.
parse_statement-Bounded :
    (fuel k : ℕ) (p : Parser) → k < fuel → size p ≤ suc k → Bounded k (parse_statement fuel p)
unfolding parse_statement size
parse_statement-Bounded fuel k p lt h = statement_at-Bounded fuel k lt p.current p h

numbered_line-Bounded :
    (fuel k : ℕ) (p : Parser) → k < fuel → size p ≤ suc k → Bounded k (numbered_line fuel p)
unfolding numbered_line
numbered_line-Bounded fuel k p lt h = Bounded-bind (line_number-Safe (suc k) p h) λ _ p h.
    Bounded-bind (parse_statement-Bounded fuel k p lt h)
      λ _ p h. Bounded-bind (skip_newline-Safe k p h) λ _ p h. value h

skip_newlines-Safe : (rounds k : ℕ) → k < rounds → Safe k (skip_newlines rounds)
unfolding skip_newlines
skip_newlines-Safe zero k lt p h = absurd (omega arith)
skip_newlines-Safe (suc rounds) k lt p h = elim (Bool-cases (is_newline p.current)) [
  | inl c ↦
      rw (c, skip_newlines)
        (Bounded-next k (λ _. skip_newlines rounds) p (shorter k p h (newline-live p.current c))
          (λ j b. skip_newlines-Safe rounds j (omega arith)))
  | inr c ↦ rw (c, skip_newlines) (value h)
]

-- What a line leaves: less than was there, or the end was reached, or there is an error.
pub data Returns (k : ℕ) : Parsed (Option (Option ℕ × Statement) × Parser) → Type 0 where
  ended : {p : Parser} → Returns k (ok (none, p))
  one : {l : Option ℕ × Statement} {p : Parser} → size p < k → Returns k (ok (some l, p))
  refused : {e : ParseError} → Returns k (failed e)

Returns-bind {ℓ} :
    {A : Type ℓ} {k l : ℕ} {r : Parsed (A × Parser)}
    {f : A → Parser → Parsed (Option (Option ℕ × Statement) × Parser)}
    → Bounded k r
    → ((a : A) (p : Parser) → size p ≤ k → Returns l (f a p))
    → Returns l (bind r f)
Returns-bind (value {a} {p} h) g = g a p h
Returns-bind error g = refused

not_eof-live : (t : Token) → is_eof t ≡ false → live t ≡ 1
not_eof-live Token.eof e = cc
not_eof-live _ e = refl

line-Returns :
    (fuel k : ℕ) (p : Parser)
    → k < fuel
    → size p ≤ k
    → is_eof p.current ≡ false
    → Returns k (bind (numbered_line fuel p) λ l p'. ok (some l, p'))
line-Returns fuel zero p lt h e = absurd (unfold size in omega (arith, not_eof-live p.current e))
line-Returns fuel (suc k) p lt h e =
    Returns-bind (numbered_line-Bounded fuel k p (omega arith) h) λ l p h. one (omega arith)

-- Given more fuel than there is input, a line of a program is read, or its end, or it is refused: the
-- fuel does not run out; and whenever a line was read, there is less input left.
pub parse_line-Returns :
    (fuel : ℕ) (p : Parser) → size p < fuel → Returns (size p) (parse_line fuel p)
unfolding parse_line
parse_line-Returns fuel p lt =
    Returns-bind (skip_newlines-Safe fuel (size p) lt p (omega arith)) λ _ p' h.
      elim (Bool-cases (is_eof p'.current)) [
        | inl e ↦ rw e ended
        | inr e ↦ rw e (line-Returns fuel (size p) p' lt h e)
      ]
