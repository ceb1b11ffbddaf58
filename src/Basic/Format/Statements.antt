-- ===== src/Basic/Format/Statements.antt =====
-- Statements are read back from their listings: assignments and what guides control.
use ralph_os.Base.{ℕ, ◌+◌, ◌%◌, ◌^◌, ◌<◌, ◌≡◌, refl, List, ◌∷◌, ◌++◌, arith}
use ralph_os.Basic.Lexer.{Token}
use ralph_os.Basic.Lexer.Print.{IsName}
use ralph_os.Basic.Syntax.{Name, Expr, Statement}
use ralph_os.Basic.Format.{decimal, format_expr}
use ralph_os.Basic.Format.Needs.{IsFlat, nodes}
use ralph_os.Basic.Format.Tokens.{at, parser_of-name, parser_of-decimal, parser_of-blank}
use ralph_os.Basic.Format.Expressions.{parse_expression-reads}
use ralph_os.Basic.Parser.{Parser, ok, advance, expect, take_token}
use ralph_os.Basic.Parser.Statements.{
  parse_let, parse_if, parse_goto, parse_step, parse_for, parse_gosub,
}
use ralph_os.Basic.Format.Keywords.{
  blank, Word-then, Word-to, Word-step, parser_of-eq, parser_of-newline, follows-newline,
  follows-then, follows-to, follows-step,
}

pub small : (n : ℕ) → n < 2 ^ 32 → n % 2 ^ 32 ≡ n
small n h = omega arith

module _ (fuel : ℕ) (rest : List ℕ) where
  abbrev pub End : Parser
  End = at Token.newline rest

  abbrev pub eol : List ℕ
  eol = 10 ∷ rest

  pub let-reads :
      (var : Name) (e : Expr)
      → IsName var
      → IsFlat e
      → nodes e < fuel
      → parse_let fuel (at Token.let_ (32 ∷ (var ++ (32 ∷ (61 ∷ (32 ∷ format_expr e eol))))))
        ≡ ok (Statement.assign var e, End)
  unfolding parse_let advance take_token expect
  let-reads var e h0 h1 h2 =
      simp
        (
          parser_of-blank,
          parser_of-name var (32 ∷ (61 ∷ (32 ∷ format_expr e eol))) h0 refl,
          parser_of-eq,
          parse_expression-reads fuel e eol h2 h1 (follows-newline rest),
          parser_of-newline rest,
        )
        refl

  pub if-reads :
      (e : Expr) (line : ℕ)
      → IsFlat e
      → line < 2 ^ 32
      → nodes e < fuel
      → parse_if fuel (at Token.if_ (32 ∷ format_expr e (blank "THEN" (decimal line eol))))
        ≡ ok (Statement.if_then e line, End)
  unfolding parse_if advance take_token expect
  if-reads e line h0 h1 h2 =
      simp
        (
          parser_of-blank,
          parse_expression-reads fuel e (blank "THEN" (decimal line eol)) h2 h0
              (follows-then (decimal line eol)),
          Word-then,
          parser_of-decimal line eol (omega arith) refl,
          small line h1,
          parser_of-newline rest,
        )
        refl

  pub goto-reads :
      (line : ℕ)
      → line < 2 ^ 32
      → parse_goto fuel (at Token.goto (32 ∷ decimal line eol)) ≡ ok (Statement.goto line, End)
  unfolding parse_goto advance take_token
  goto-reads line h0 =
      simp
        (
          parser_of-blank,
          parser_of-decimal line eol (omega arith) refl,
          small line h0,
          parser_of-newline rest,
        )
        refl

  pub gosub-reads :
      (line : ℕ)
      → line < 2 ^ 32
      → parse_gosub fuel (at Token.gosub (32 ∷ decimal line eol)) ≡ ok (Statement.gosub line, End)
  unfolding parse_gosub advance take_token
  gosub-reads line h0 =
      simp
        (
          parser_of-blank,
          parser_of-decimal line eol (omega arith) refl,
          small line h0,
          parser_of-newline rest,
        )
        refl

  pub for-reads :
      (var : Name) (a b c : Expr)
      → IsName var
      → IsFlat a
      → IsFlat b
      → IsFlat c
      → nodes a + nodes b + nodes c < fuel
      → parse_for fuel (
          at Token.for_ (
            32
            ∷ (var
                ++ (32
                    ∷ (61
                        ∷ (32
                            ∷ format_expr a (
                                blank "TO" (format_expr b (blank "STEP" (format_expr c eol))))))))))
        ≡ ok (Statement.for_to var a b c, End)
  unfolding parse_for parse_step advance take_token expect
  for-reads var a b c h0 h1 h2 h3 h4 =
      simp
        (
          parser_of-blank,
          parser_of-name var
              (32
                ∷ (61
                    ∷ (32
                        ∷ format_expr a
                            (blank "TO" (format_expr b (blank "STEP" (format_expr c eol)))))))
              h0 refl,
          parser_of-eq,
          parse_expression-reads fuel a
              (blank "TO" (format_expr b (blank "STEP" (format_expr c eol)))) (omega arith) h1
              (follows-to (format_expr b (blank "STEP" (format_expr c eol)))),
          Word-to,
          parse_expression-reads fuel b (blank "STEP" (format_expr c eol)) (omega arith) h2
              (follows-step (format_expr c eol)),
          Word-step,
          parse_expression-reads fuel c eol (omega arith) h3 (follows-newline rest),
          parser_of-newline rest,
        )
        refl
