-- ===== src/Basic/Parser/Total.antt =====
-- The statements' fuel.
use ralph_os.Base.{
  ℕ, zero, suc, ◌+◌, ◌≤◌, ◌<◌, ◌≡◌, inl, inr, refl, true, ◌||◌, List, [], ◌∷◌, ◌++◌, arith, length,
  Bool-cases, if_both,
}
use ralph_os.Basic.Lexer.{Token, skip_to_eol}
use ralph_os.Basic.Syntax.{Name, Expr}
use ralph_os.Basic.Parser.{
  Parser, bind, P, ◌>>◌, parser_of, advance, is_newline, is_eof, is_lparen, is_comma, is_semicolon,
  is_step, string_of, take_token,
}
use ralph_os.Basic.Parser.Size.{live, size, size-parser_of}
use ralph_os.Basic.Parser.Fuel.{
  Bounded, value, error, Bounded-mono, Bounded-bind, if_at, Safe, Begins, advance-Begins,
  advance-Safe, expect-Safe, take_token-Safe, parse_expression-Safe,
}
use ralph_os.Basic.Parser.Statements.{
  skip_line, print_items, spawn_arguments, parse_print, parse_let, parse_if, parse_goto, parse_step,
  parse_for, parse_next, parse_sleep, parse_spawn, parse_gosub, parse_dim, parse_send, parse_close,
  parse_assignment, statement_at,
}

length-skip_to_eol : (cs : List ℕ) → length (skip_to_eol cs) ≤ length cs
unfolding skip_to_eol
length-skip_to_eol [] = omega arith
length-skip_to_eol (c ∷ cs) = ground (arith, length-skip_to_eol cs)

skip_line-Safe : (k : ℕ) → Safe k skip_line
unfolding skip_line
skip_line-Safe k p h =
    value {p = parser_of (skip_to_eol p.lexer)} (
      unfold size in
      omega (arith, size-parser_of (skip_to_eol p.lexer), length-skip_to_eol p.lexer))

-- A token that is asked for, and is not the end, is there to be taken.
semicolon-live : (t : Token) → is_semicolon t ≡ true → live t ≡ 1
semicolon-live Token.eof e = cc
semicolon-live _ e = refl

comma-live : (t : Token) → is_comma t ≡ true → live t ≡ 1
comma-live Token.eof e = cc
comma-live _ e = refl

pub newline-live : (t : Token) → is_newline t ≡ true → live t ≡ 1
newline-live Token.eof e = cc
newline-live _ e = refl

-- When a token of the kind is there, the step behind it has less left than `k`.
pub shorter : (k : ℕ) (p : Parser) → size p ≤ k → live p.current ≡ 1 → suc (length p.lexer) ≤ k
unfolding size
shorter k p h e = omega arith

-- A step behind the current token, and what goes on with less.
module _ {ℓ κ} {A : Type ℓ} {B : Type κ} where
  Bounded-next_mono :
      (k : ℕ) (m : P A) (f : A → P B) (p : Parser)
      → suc (length p.lexer) ≤ k
      → ((j : ℕ) → Begins j m)
      → ((a : A) (j : ℕ) → j < k → Safe j (f a))
      → Bounded k (bind (m p) f)
  Bounded-next_mono zero m f p s begins safe = absurd (omega arith)
  Bounded-next_mono (suc k) m f p s begins safe =
      Bounded-bind (begins k p (omega arith))
        (λ a p h. Bounded-mono {j = k} (omega arith) (safe a k (omega arith) p h))

pub Bounded-next {κ} :
    {B : Type κ} (k : ℕ) (f : Unit {0} → P B) (p : Parser)
    → suc (length p.lexer) ≤ k
    → ((j : ℕ) → j < k → Safe j (f tt))
    → Bounded k (bind (advance p) f)
Bounded-next k f p s safe =
    Bounded-next_mono k advance f p s (λ j. advance-Begins j) (λ _ j b. safe j b)

print_items-Safe :
    (rounds fuel k : ℕ) (done : List Expr)
    → k < rounds
    → k < fuel
    → Safe k (print_items rounds fuel done)
unfolding print_items
print_items-Safe zero fuel k done lt lf p h = absurd (omega arith)
print_items-Safe (suc rounds) fuel k done lt lf p h =
    if_both (Bounded k) (is_newline p.current || is_eof p.current) (value h) (
      Bounded-bind (parse_expression-Safe fuel k lf p h) (λ e p h.
        elim (Bool-cases (is_semicolon p.current)) [
          | inl s ↦ rw s (
              Bounded-next k (λ _. print_items rounds fuel (done ++ (e ∷ []))) p
                (shorter k p h (semicolon-live p.current s))
                (λ j b.
                  print_items-Safe rounds fuel j (done ++ (e ∷ [])) (omega arith) (omega arith)))
          | inr s ↦ rw s (value h)
        ]))

spawn_arguments-Safe :
    (rounds k : ℕ) (done : List (List ℕ)) → k < rounds → Safe k (spawn_arguments rounds done)
unfolding spawn_arguments
spawn_arguments-Safe zero k done lt p h = absurd (omega arith)
spawn_arguments-Safe (suc rounds) k done lt p h = elim (Bool-cases (is_comma p.current)) [
  | inl c ↦
      rw (c, spawn_arguments)
        (Bounded-next_mono k (do advance; take_token string_of "SPAWN arguments must be strings")
          (λ s. spawn_arguments rounds (done ++ (s ∷ []))) p
          (shorter k p h (comma-live p.current c))
          (λ j p b. Bounded-bind (advance-Begins j p b) λ _ p b. take_token-Safe j _ _ p b)
          (λ s j b. spawn_arguments-Safe rounds j (done ++ (s ∷ [])) (omega arith)))
  | inr c ↦ rw (c, spawn_arguments) (value h)
]

module _ (fuel k : ℕ) (lt : k < fuel) where
  parse_print-Begins : Begins k (parse_print fuel)
  unfolding parse_print
  parse_print-Begins p h =
      Bounded-bind (advance-Begins k p h)
        λ _ p h. Bounded-bind (print_items-Safe fuel fuel k [] lt lt p h) λ _ p h. value h

  parse_let-Begins : Begins k (parse_let fuel)
  unfolding parse_let
  parse_let-Begins p h = Bounded-bind (advance-Begins k p h) λ _ p h.
      Bounded-bind (take_token-Safe k _ _ p h) λ _ p h.
        Bounded-bind (expect-Safe k _ _ p h)
          λ _ p h. Bounded-bind (parse_expression-Safe fuel k lt p h) λ _ p h. value h

  parse_if-Begins : Begins k (parse_if fuel)
  unfolding parse_if
  parse_if-Begins p h = Bounded-bind (advance-Begins k p h) λ _ p h.
      Bounded-bind (parse_expression-Safe fuel k lt p h) λ _ p h.
        Bounded-bind (expect-Safe k _ _ p h)
          λ _ p h. Bounded-bind (take_token-Safe k _ _ p h) λ _ p h. value h

  parse_goto-Begins : Begins k (parse_goto fuel)
  unfolding parse_goto
  parse_goto-Begins p h =
      Bounded-bind (advance-Begins k p h)
        λ _ p h. Bounded-bind (take_token-Safe k _ _ p h) λ _ p h. value h

  parse_step-Safe : Safe k (parse_step fuel)
  unfolding parse_step
  parse_step-Safe p h =
      if_at _ _ (is_step p.current)
        (Bounded-bind (advance-Safe k p h) λ _ p h. parse_expression-Safe fuel k lt p h) (value h)

  parse_for-Begins : Begins k (parse_for fuel)
  unfolding parse_for
  parse_for-Begins p h = Bounded-bind (advance-Begins k p h) λ _ p h.
      Bounded-bind (take_token-Safe k _ _ p h) λ _ p h.
        Bounded-bind (expect-Safe k _ _ p h) λ _ p h.
          Bounded-bind (parse_expression-Safe fuel k lt p h) λ _ p h.
            Bounded-bind (expect-Safe k _ _ p h) λ _ p h.
              Bounded-bind (parse_expression-Safe fuel k lt p h)
                λ _ p h. Bounded-bind (parse_step-Safe p h) λ _ p h. value h

  parse_next-Begins : Begins k (parse_next fuel)
  unfolding parse_next
  parse_next-Begins p h =
      Bounded-bind (advance-Begins k p h)
        λ _ p h. Bounded-bind (take_token-Safe k _ _ p h) λ _ p h. value h

  parse_sleep-Begins : Begins k (parse_sleep fuel)
  unfolding parse_sleep
  parse_sleep-Begins p h =
      Bounded-bind (advance-Begins k p h)
        λ _ p h. Bounded-bind (parse_expression-Safe fuel k lt p h) λ _ p h. value h

  parse_spawn-Begins : Begins k (parse_spawn fuel)
  unfolding parse_spawn
  parse_spawn-Begins p h = Bounded-bind (advance-Begins k p h) λ _ p h.
      Bounded-bind (take_token-Safe k _ _ p h)
        λ _ p h. Bounded-bind (spawn_arguments-Safe fuel k [] lt p h) λ _ p h. value h

  parse_gosub-Begins : Begins k (parse_gosub fuel)
  unfolding parse_gosub
  parse_gosub-Begins p h =
      Bounded-bind (advance-Begins k p h)
        λ _ p h. Bounded-bind (take_token-Safe k _ _ p h) λ _ p h. value h

  parse_dim-Begins : Begins k (parse_dim fuel)
  unfolding parse_dim
  parse_dim-Begins p h = Bounded-bind (advance-Begins k p h) λ _ p h.
      Bounded-bind (take_token-Safe k _ _ p h) λ _ p h.
        Bounded-bind (expect-Safe k _ _ p h) λ _ p h.
          Bounded-bind (parse_expression-Safe fuel k lt p h)
            λ _ p h. Bounded-bind (expect-Safe k _ _ p h) λ _ p h. value h

  parse_send-Begins : Begins k (parse_send fuel)
  unfolding parse_send
  parse_send-Begins p h = Bounded-bind (advance-Begins k p h) λ _ p h.
      Bounded-bind (parse_expression-Safe fuel k lt p h) λ _ p h.
        Bounded-bind (expect-Safe k _ _ p h)
          λ _ p h. Bounded-bind (parse_expression-Safe fuel k lt p h) λ _ p h. value h

  parse_close-Begins : Begins k (parse_close fuel)
  unfolding parse_close
  parse_close-Begins p h =
      Bounded-bind (advance-Begins k p h)
        λ _ p h. Bounded-bind (parse_expression-Safe fuel k lt p h) λ _ p h. value h

  parse_assignment-Begins : (name : Name) → Begins k (parse_assignment fuel name)
  unfolding parse_assignment
  parse_assignment-Begins name p h = Bounded-bind (advance-Begins k p h) λ _ p h.
      if_at _ _ (is_lparen p.current)
        (Bounded-bind (advance-Safe k p h) λ _ p h.
          Bounded-bind (parse_expression-Safe fuel k lt p h) λ _ p h.
            Bounded-bind (expect-Safe k _ _ p h) λ _ p h.
              Bounded-bind (expect-Safe k _ _ p h)
                λ _ p h. Bounded-bind (parse_expression-Safe fuel k lt p h) λ _ p h. value h)
        (Bounded-bind (expect-Safe k _ _ p h)
          λ _ p h. Bounded-bind (parse_expression-Safe fuel k lt p h) λ _ p h. value h)

  pub statement_at-Bounded :
      (t : Token) (p : Parser) → length p.lexer + live t ≤ suc k → Bounded k (statement_at fuel t p)
  unfolding statement_at
  statement_at-Bounded Token.print p h = parse_print-Begins p (omega arith)
  statement_at-Bounded Token.let_ p h = parse_let-Begins p (omega arith)
  statement_at-Bounded Token.if_ p h = parse_if-Begins p (omega arith)
  statement_at-Bounded Token.goto p h = parse_goto-Begins p (omega arith)
  statement_at-Bounded Token.for_ p h = parse_for-Begins p (omega arith)
  statement_at-Bounded Token.next p h = parse_next-Begins p (omega arith)
  statement_at-Bounded Token.sleep p h = parse_sleep-Begins p (omega arith)
  statement_at-Bounded Token.spawn p h = parse_spawn-Begins p (omega arith)
  statement_at-Bounded Token.gosub p h = parse_gosub-Begins p (omega arith)
  statement_at-Bounded Token.return_ p h =
      Bounded-bind (advance-Begins k p (omega arith)) λ _ p h. value h
  statement_at-Bounded Token.dim p h = parse_dim-Begins p (omega arith)
  statement_at-Bounded Token.send p h = parse_send-Begins p (omega arith)
  statement_at-Bounded Token.close p h = parse_close-Begins p (omega arith)
  statement_at-Bounded Token.rem p h =
      Bounded-bind (advance-Begins k p (omega arith))
        λ _ p h. Bounded-bind (skip_line-Safe k p h) λ _ p h. value h
  statement_at-Bounded Token.end_ p h =
      Bounded-bind (advance-Begins k p (omega arith)) λ _ p h. value h
  statement_at-Bounded (Token.identifier name) p h = parse_assignment-Begins name p (omega arith)
  statement_at-Bounded _ p h = error
