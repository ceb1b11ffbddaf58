-- ===== src/Basic/Lexer/Examples.antt =====
-- A line of a program.
use ralph_os.Base.{◌≡◌, refl, List, [], ◌∷◌, arith}
use ralph_os.Basic.Lexer.{
  Token, print, plus, semicolon, integer, string_lit, identifier, newline, find_word, word_eq,
  skip_to_eol,
}
use ralph_os.Basic.Lexer.Print.{print_tokens, print_token, digits}
use ralph_os.Basic.Lexer.Words.{Reads, Reads-print_tokens}

-- `PRINT "HI" ; X + 42`
abbrev line : List Token
line =
    print
    ∷ string_lit (72 ∷ 73 ∷ [])
    ∷ semicolon
    ∷ identifier (88 ∷ [])
    ∷ plus
    ∷ integer 42
    ∷ newline
    ∷ []

print_tokens_test :
    print_tokens line
    ≡ 80 ∷ 82 ∷ 73 ∷ 78 ∷ 84 ∷ 32 ∷ 34 ∷ 72 ∷ 73 ∷ 34 ∷ 32 ∷ 59 ∷ 32 ∷ 88 ∷ 32 ∷ 43 ∷ 32 ∷ 52 ∷ 50
      ∷ 32 ∷ 10 ∷ 32 ∷ []
unfolding print_tokens print_token digits
print_tokens_test = refl

Reads-print_tokens_example : Reads line (print_tokens line)
unfolding find_word word_eq
Reads-print_tokens_example = Reads-print_tokens line (
  tt,
  (
    ((refl, refl, refl), ((refl, refl, refl), tt)),
    (tt, ((refl, ((refl, refl), tt), refl), (tt, (omega arith, (tt, tt))))),
  ),
)

skip_to_eol_test : skip_to_eol (65 ∷ 66 ∷ 10 ∷ 67 ∷ []) ≡ 10 ∷ 67 ∷ []
unfolding skip_to_eol
skip_to_eol_test = refl
