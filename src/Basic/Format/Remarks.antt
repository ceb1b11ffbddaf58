-- ===== src/Basic/Format/Remarks.antt =====
-- A REM with nothing behind it.
use ralph_os.Base.{
  ℕ, suc, ◌^◌, ◌<◌, ◌≡◌, ◌||◌, refl, false, some, List, [], ◌∷◌, ◌++◌, arith, ◌==◌, All,
}
use ralph_os.Base.Text.{codes}
use ralph_os.Basic.Lexer.{
  Token, next_token, token_at, read_identifier_or_keyword, keyword_or_name, find_word, word_eq,
  take_while, skip_to_eol,
}
use ralph_os.Basic.Syntax.{Statement}
use ralph_os.Basic.Format.{decimal}
use ralph_os.Basic.Format.Tokens.{parser_of-decimal, parser_of-blank}
use ralph_os.Basic.Format.Keywords.{Ends, parser_of-newline}
use ralph_os.Basic.Format.Statements.{small}
use ralph_os.Basic.Parser.{ok, parser_of, advance}
use ralph_os.Basic.Parser.Statements.{
  skip_line, statement_at, parse_statement, line_number, skip_newline, numbered_line, skip_newlines,
  parse_line,
}

-- No character ends the line.
abbrev pub IsInLine : ℕ → Type 0
IsInLine c = ((c == 10) || (c == 13)) ≡ false

Ends-rem : Ends "REM" Token.rem
unfolding parser_of next_token token_at read_identifier_or_keyword keyword_or_name find_word word_eq
    take_while
Ends-rem rest = refl

skip_to_eol-append :
    (line rest : List ℕ) → All IsInLine line → skip_to_eol (line ++ (10 ∷ rest)) ≡ 10 ∷ rest
unfolding skip_to_eol
skip_to_eol-append [] rest h = refl
skip_to_eol-append (c ∷ line) rest (now, h) = rw now (skip_to_eol-append line rest h)

-- Whatever the line below a numbered REM is that ends behind the keyword: parse_line answers the REM,
-- and the parser stands behind that next line, which is not read.
pub parse_line-bare_rem :
    (fuel number : ℕ) (line rest : List ℕ)
    → number < 2 ^ 32
    → All IsInLine line
    → parse_line
        (suc fuel)
        (parser_of (decimal number (codes " REM" ++ (10 ∷ (line ++ (10 ∷ rest))))))
      ≡ ok (some (some number, Statement.rem), parser_of rest)
unfolding parse_line skip_newlines numbered_line line_number parse_statement statement_at skip_line
    skip_newline advance
parse_line-bare_rem fuel number line rest hn h =
    let remark = codes "REM" ++ (10 ∷ (line ++ (10 ∷ rest))) in
    rw (parser_of-decimal number (32 ∷ remark) (omega arith) refl) (
      simp
        (
          parser_of-blank remark,
          Ends-rem (line ++ (10 ∷ rest)),
          parser_of-newline (line ++ (10 ∷ rest)),
          skip_to_eol-append line rest h,
          parser_of-newline rest,
          small number hn,
        )
        refl)
