-- ===== src/Basic/Format/Keywords.antt =====
-- Keywords and separators of statements, and what follows an expression.
use Prim.Native.String.{String}
use ralph_os.Base.{ℕ, ◌≡◌, refl, List, ◌∷◌, ◌++◌}
use ralph_os.Base.Text.{codes}
use ralph_os.Basic.Lexer.{
  Token, next_token, token_at, symbol, read_identifier_or_keyword, keyword_or_name, find_word,
  word_eq, take_while,
}
use ralph_os.Basic.Format.Tokens.{at, parser_of-blank, FollowsAll}
use ralph_os.Basic.Parser.{parser_of}

-- A keyword in front of a blank, or of the end of the line.
abbrev pub Word : String → Token → Type 0
Word word t = (rest : List ℕ) → parser_of (codes word ++ (32 ∷ rest)) ≡ at t (32 ∷ rest)

abbrev pub Ends : String → Token → Type 0
Ends word t = (rest : List ℕ) → parser_of (codes word ++ (10 ∷ rest)) ≡ at t (10 ∷ rest)

pub Word-print : Word "PRINT" Token.print
unfolding parser_of next_token token_at read_identifier_or_keyword keyword_or_name find_word word_eq
    take_while
Word-print rest = refl

pub Word-let : Word "LET" Token.let_
unfolding parser_of next_token token_at read_identifier_or_keyword keyword_or_name find_word word_eq
    take_while
Word-let rest = refl

pub Word-if : Word "IF" Token.if_
unfolding parser_of next_token token_at read_identifier_or_keyword keyword_or_name find_word word_eq
    take_while
Word-if rest = refl

pub Word-then : Word "THEN" Token.then_
unfolding parser_of next_token token_at read_identifier_or_keyword keyword_or_name find_word word_eq
    take_while
Word-then rest = refl

pub Word-goto : Word "GOTO" Token.goto
unfolding parser_of next_token token_at read_identifier_or_keyword keyword_or_name find_word word_eq
    take_while
Word-goto rest = refl

pub Word-for : Word "FOR" Token.for_
unfolding parser_of next_token token_at read_identifier_or_keyword keyword_or_name find_word word_eq
    take_while
Word-for rest = refl

pub Word-to : Word "TO" Token.to
unfolding parser_of next_token token_at read_identifier_or_keyword keyword_or_name find_word word_eq
    take_while
Word-to rest = refl

pub Word-step : Word "STEP" Token.step
unfolding parser_of next_token token_at read_identifier_or_keyword keyword_or_name find_word word_eq
    take_while
Word-step rest = refl

pub Word-next : Word "NEXT" Token.next
unfolding parser_of next_token token_at read_identifier_or_keyword keyword_or_name find_word word_eq
    take_while
Word-next rest = refl

pub Word-sleep : Word "SLEEP" Token.sleep
unfolding parser_of next_token token_at read_identifier_or_keyword keyword_or_name find_word word_eq
    take_while
Word-sleep rest = refl

pub Word-spawn : Word "SPAWN" Token.spawn
unfolding parser_of next_token token_at read_identifier_or_keyword keyword_or_name find_word word_eq
    take_while
Word-spawn rest = refl

pub Word-gosub : Word "GOSUB" Token.gosub
unfolding parser_of next_token token_at read_identifier_or_keyword keyword_or_name find_word word_eq
    take_while
Word-gosub rest = refl

pub Word-dim : Word "DIM" Token.dim
unfolding parser_of next_token token_at read_identifier_or_keyword keyword_or_name find_word word_eq
    take_while
Word-dim rest = refl

pub Word-send : Word "SEND" Token.send
unfolding parser_of next_token token_at read_identifier_or_keyword keyword_or_name find_word word_eq
    take_while
Word-send rest = refl

pub Word-close : Word "CLOSE" Token.close
unfolding parser_of next_token token_at read_identifier_or_keyword keyword_or_name find_word word_eq
    take_while
Word-close rest = refl

pub Ends-end : Ends "END" Token.end_
unfolding parser_of next_token token_at read_identifier_or_keyword keyword_or_name find_word word_eq
    take_while
Ends-end rest = refl

pub Ends-return : Ends "RETURN" Token.return_
unfolding parser_of next_token token_at read_identifier_or_keyword keyword_or_name find_word word_eq
    take_while
Ends-return rest = refl

pub parser_of-eq : (rest : List ℕ) → parser_of (61 ∷ rest) ≡ at Token.eq rest
unfolding parser_of next_token token_at symbol
parser_of-eq rest = refl

pub parser_of-semicolon : (rest : List ℕ) → parser_of (59 ∷ rest) ≡ at Token.semicolon rest
unfolding parser_of next_token token_at symbol
parser_of-semicolon rest = refl

pub parser_of-newline : (rest : List ℕ) → parser_of (10 ∷ rest) ≡ at Token.newline rest
unfolding parser_of next_token token_at
parser_of-newline rest = refl

-- What follows an expression in a statement.
pub follows-newline : (rest : List ℕ) → FollowsAll (10 ∷ rest)
follows-newline rest = simp parser_of-newline ((refl, refl), refl, refl, refl)

pub follows-semicolon : (rest : List ℕ) → FollowsAll (59 ∷ rest)
follows-semicolon rest = simp parser_of-semicolon ((refl, refl), refl, refl, refl)

abbrev pub blank : String → List ℕ → List ℕ
blank word rest = 32 ∷ (codes word ++ (32 ∷ rest))

pub follows-then : (rest : List ℕ) → FollowsAll (blank "THEN" rest)
follows-then rest = simp (parser_of-blank, Word-then) ((refl, refl), refl, refl, refl)

pub follows-to : (rest : List ℕ) → FollowsAll (blank "TO" rest)
follows-to rest = simp (parser_of-blank, Word-to) ((refl, refl), refl, refl, refl)

pub follows-step : (rest : List ℕ) → FollowsAll (blank "STEP" rest)
follows-step rest = simp (parser_of-blank, Word-step) ((refl, refl), refl, refl, refl)
