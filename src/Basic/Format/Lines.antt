-- ===== src/Basic/Format/Lines.antt =====
-- A line of a program is read back from its listing.
use mathlib.Core.List.{append-nil, append_assoc}
use ralph_os.Base.{
  ℕ, zero, suc, ◌^◌, ◌<◌, ◌≡◌, refl, ap, ◌∙◌, Bool, true, false, ◌||◌, some, List, [], ◌∷◌, ◌++◌,
  arith, All, inl, inr, Bool-cases,
}
use ralph_os.Basic.Lexer.{Token}
use ralph_os.Basic.Syntax.{Expr, Statement, expected_value}
use ralph_os.Basic.Format.{
  decimal, format_expr, format_more, format_items, format_arguments, format_statement, format_line,
}
use ralph_os.Basic.Format.Needs.{IsFlat, all_nodes, IsListable, statement_nodes}
use ralph_os.Basic.Format.Tokens.{at, parser_of-name, parser_of-decimal, parser_of-blank}
use ralph_os.Basic.Format.Expressions.{parse_expression-reads}
use ralph_os.Basic.Format.Keywords.{
  blank, Word-print, Word-let, Word-if, Word-goto, Word-for, Word-next, Word-sleep, Word-spawn,
  Word-gosub, Word-dim, Word-send, Word-close, Ends-end, Ends-return, parser_of-semicolon,
  parser_of-newline, follows-newline, follows-semicolon,
}
use ralph_os.Basic.Format.Commands.{
  next-reads, sleep-reads, close-reads, dim-reads, send-reads, assignment-reads, spawn-reads,
}
use ralph_os.Basic.Format.Statements.{
  small, let-reads, if-reads, goto-reads, gosub-reads, for-reads,
}
use ralph_os.Basic.Parser.{
  Parser, ok, failed, P, parser_of, advance, is_newline, is_eof, is_minus, parse_primary,
  primary_at, parse_unary, parse_multiplicative, parse_additive, parse_comparison, parse_expression,
}
use ralph_os.Basic.Parser.Statements.{
  print_items, parse_print, statement_at, parse_statement, line_number, skip_newline, numbered_line,
  skip_newlines, parse_line,
}

abbrev is_end : Token → Bool
is_end t = is_newline t || is_eof t

primary-end :
    (expression : P Expr) (t : Token) (p : Parser)
    → is_end t ≡ true
    → (is_minus t ≡ false) × (primary_at expression t p ≡ failed (expected_value t))
unfolding primary_at
primary-end expression Token.newline p h = (refl, refl)
primary-end expression Token.eof p h = (refl, refl)
primary-end expression _ p h = cc

expression_refused :
    (f : ℕ) (p : Parser)
    → is_end p.current ≡ true
    → parse_expression (suc f) p ≡ failed (expected_value p.current)
unfolding parse_expression parse_comparison parse_additive parse_multiplicative parse_unary
    parse_primary
expression_refused f p h =
    let refused = primary-end (parse_expression f) p.current p h in rw (refused.0, refused.1) refl

-- No expression begins at the end of a line.
expression-end :
    (f : ℕ) (p : Parser) (e : Expr) (q : Parser)
    → parse_expression f p ≡ ok (e, q)
    → is_end p.current ≡ false
expression-end zero p e q h = unfold parse_expression in cc
expression-end (suc f) p e q h = elim (Bool-cases (is_end p.current)) [
  | inl c ↦ cc (expression_refused f p c)
  | inr c ↦ c
]

module _ (fuel : ℕ) (rest : List ℕ) where
  items-read :
      (rounds : ℕ) (done es : List Expr)
      → All IsFlat es
      → all_nodes es < rounds
      → all_nodes es < fuel
      → print_items rounds fuel done (parser_of (format_items es (10 ∷ rest)))
        ≡ ok (done ++ es, at Token.newline rest)
  unfolding print_items format_items format_more advance
  items-read zero done es h lt lf = absurd (omega arith)
  items-read (suc rounds) done [] h lt lf = simp (parser_of-newline rest, append-nil) refl
  items-read (suc rounds) done (e ∷ []) (h, _) lt lf =
      let read = parse_expression-reads fuel e (10 ∷ rest) (omega arith) h (follows-newline rest) in
      let begins =
        expression-end fuel (parser_of (format_expr e (10 ∷ rest))) e (parser_of (10 ∷ rest))
          read in
      rw (begins, read, parser_of-newline rest) refl
  items-read (suc rounds) done (e ∷ d ∷ es) (h, hs) lt lf =
      let more = format_expr d (format_more es (10 ∷ rest)) in
      let read =
        parse_expression-reads fuel e (59 ∷ (32 ∷ more)) (omega arith) h
          (follows-semicolon (32 ∷ more)) in
      let begins =
        expression-end fuel (parser_of (format_expr e (59 ∷ (32 ∷ more)))) e
          (parser_of (59 ∷ (32 ∷ more))) read in
      rw (begins, read, parser_of-semicolon (32 ∷ more), parser_of-blank more)
        (items-read rounds (done ++ (e ∷ [])) (d ∷ es) hs (omega arith) (omega arith)
          ∙ ap (λ l. ok (l, at Token.newline rest)) (append_assoc done (e ∷ []) (d ∷ es)))

  print-reads :
      (es : List Expr)
      → All IsFlat es
      → all_nodes es < fuel
      → parse_print fuel (at Token.print (32 ∷ format_items es (10 ∷ rest)))
        ≡ ok (Statement.print es, at Token.newline rest)
  unfolding parse_print advance
  print-reads es h lt =
      rw (parser_of-blank (format_items es (10 ∷ rest)), items-read fuel [] es h lt lt) refl

-- A listed statement, at the end of its line, is read back.
pub statement-reads :
    (fuel : ℕ) (rest : List ℕ) (s : Statement)
    → IsListable s
    → statement_nodes s < fuel
    → parse_statement fuel (parser_of (format_statement s (10 ∷ rest)))
      ≡ ok (s, at Token.newline rest)
unfolding parse_statement format_statement statement_at
statement-reads fuel rest (Statement.print es) h lt =
    rw (Word-print (format_items es (10 ∷ rest))) (print-reads fuel rest es h lt)
statement-reads fuel rest (Statement.assign var value) (hv, he) lt =
    rw (Word-let (var ++ (32 ∷ (61 ∷ (32 ∷ format_expr value (10 ∷ rest))))))
      (let-reads fuel rest var value hv he lt)
statement-reads fuel rest (Statement.if_then condition line) (hc, hl) lt =
    rw (Word-if (format_expr condition (blank "THEN" (decimal line (10 ∷ rest)))))
      (if-reads fuel rest condition line hc hl lt)
statement-reads fuel rest (Statement.goto line) h lt =
    rw (Word-goto (decimal line (10 ∷ rest))) (goto-reads fuel rest line h)
statement-reads fuel rest (Statement.for_to var start end step) (hv, ha, hb, hc) lt =
    rw
      (Word-for (
        var
        ++ (32
            ∷ (61
                ∷ (32
                    ∷ format_expr start (
                        blank "TO"
                          (format_expr end (blank "STEP" (format_expr step (10 ∷ rest))))))))))
      (for-reads fuel rest var start end step hv ha hb hc lt)
statement-reads fuel rest (Statement.next var) h lt =
    rw (Word-next (var ++ (10 ∷ rest))) (next-reads fuel rest var h)
statement-reads fuel rest (Statement.sleep e) h lt =
    rw (Word-sleep (format_expr e (10 ∷ rest))) (sleep-reads fuel rest e h lt)
statement-reads fuel rest Statement.rem h lt = absurd h
statement-reads fuel rest Statement.end_program h lt =
    rw (Ends-end rest) (unfold advance in rw (parser_of-newline rest) refl)
statement-reads fuel rest (Statement.spawn name args) (hn, ha) lt =
    rw (Word-spawn (34 ∷ (name ++ (34 ∷ format_arguments args (10 ∷ rest)))))
      (spawn-reads fuel rest name args hn ha lt)
statement-reads fuel rest (Statement.gosub line) h lt =
    rw (Word-gosub (decimal line (10 ∷ rest))) (gosub-reads fuel rest line h)
statement-reads fuel rest Statement.return_back h lt =
    rw (Ends-return rest) (unfold advance in rw (parser_of-newline rest) refl)
statement-reads fuel rest (Statement.dim name size) (hn, he) lt =
    rw (Word-dim (name ++ (40 ∷ format_expr size (41 ∷ (10 ∷ rest)))))
      (dim-reads fuel rest name size hn he lt)
statement-reads fuel rest (Statement.array_assign name index value) (hn, hi, hv) lt =
    let tail = 40 ∷ format_expr index (41 ∷ (32 ∷ (61 ∷ (32 ∷ format_expr value (10 ∷ rest))))) in
    rw (parser_of-name name tail hn refl) (assignment-reads fuel rest name index value hi hv lt)
statement-reads fuel rest (Statement.send sock text) (hs, ht) lt =
    rw (Word-send (format_expr sock (44 ∷ (32 ∷ format_expr text (10 ∷ rest)))))
      (send-reads fuel rest sock text hs ht lt)
statement-reads fuel rest (Statement.net_close sock) h lt =
    rw (Word-close (format_expr sock (10 ∷ rest))) (close-reads fuel rest sock h lt)

-- What LIST writes of a line whose number is a u32, whose statement is no REM and has no expression
-- that needs parentheses, and whose literals and names can be read, is read as that number and that
-- statement by parse_line with more fuel than the statement has parts; the parser stands behind it.
pub parse_line-format_line :
    (fuel number : ℕ) (s : Statement) (rest : List ℕ)
    → number < 2 ^ 32
    → IsListable s
    → statement_nodes s < fuel
    → parse_line fuel (parser_of (format_line number s rest))
      ≡ ok (some (some number, s), parser_of rest)
unfolding parse_line skip_newlines numbered_line line_number skip_newline advance format_line
parse_line-format_line zero number s rest hn h lt = absurd (omega arith)
parse_line-format_line (suc fuel) number s rest hn h lt =
    rw (parser_of-decimal number (32 ∷ format_statement s (10 ∷ rest)) (omega arith) refl) (
      rw
        (
          parser_of-blank (format_statement s (10 ∷ rest)),
          statement-reads (suc fuel) rest s h lt,
          small number hn,
        )
        refl)
