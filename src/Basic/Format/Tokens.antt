-- ===== src/Basic/Format/Tokens.antt =====
-- Reading the tokens that a listing is made of.
use Prim.Native.String.{String}
use ralph_os.Base.{
  ℕ, zero, suc, ◌+◌, ◌/◌, ◌%◌, ◌^◌, ◌<◌, ◌≡◌, refl, ap, ◌∙◌, sym, false, Option, none, List, [],
  ◌∷◌, ◌++◌, arith, All, inl, inr, Bool-cases, ◌==◌,
}
use ralph_os.Base.Text.{codes}
use ralph_os.Basic.Lexer.{
  Token, is_digit, is_word, next_token, token_at, take_while, symbol, read_identifier_or_keyword,
  keyword_or_name, find_word, word_eq,
}
use ralph_os.Basic.Lexer.Print.{digits, Stops, IsPlain, IsName}
use ralph_os.Basic.Lexer.Words.{next_token-integer, next_token-string, next_token-name}
use ralph_os.Basic.Syntax.{BinaryOp}
use ralph_os.Basic.Format.{decimal}
use ralph_os.Basic.Parser.{
  Parser, parser_of, is_lparen, comparison_op, additive_op, multiplicative_op,
}

-- The parser at a token with these characters behind it.
abbrev pub at : Token → List ℕ → Parser
at t rest = record { lexer = rest; current = t }

pub parser_of-name :
    (s rest : List ℕ)
    → IsName s
    → Stops is_word rest
    → parser_of (s ++ rest) ≡ at (Token.identifier s) rest
unfolding parser_of
parser_of-name s rest h stop = ap (λ r. at r.0 r.1) (next_token-name s rest h stop)

pub parser_of-string :
    (s rest : List ℕ)
    → All IsPlain s
    → parser_of (34 ∷ (s ++ (34 ∷ rest))) ≡ at (Token.string_lit s) rest
unfolding parser_of
parser_of-string s rest h = ap (λ r. at r.0 r.1) (next_token-string s rest h)

digits-append : (f n : ℕ) (l r : List ℕ) → digits f n l ++ r ≡ digits f n (l ++ r)
unfolding digits
digits-append zero n l r = refl
digits-append (suc f) n l r = elim (Bool-cases (n / 10 == 0)) [
  | inl e ↦ rw e refl
  | inr e ↦ rw e (digits-append f (n / 10) ((48 + n % 10) ∷ l) r)
]

word-digit : (rest : List ℕ) → Stops is_word rest → Stops is_digit rest
word-digit [] h = tt
word-digit (c ∷ cs) h = ground (arith, h)

pub parser_of-decimal :
    (n : ℕ) (rest : List ℕ)
    → n < 2 ^ 63
    → Stops is_word rest
    → parser_of (decimal n rest) ≡ at (Token.integer n) rest
unfolding parser_of decimal
parser_of-decimal n rest small stop =
    ap (λ l. at (next_token l).0 (next_token l).1) (sym (digits-append 19 n [] rest))
    ∙ ap (λ r. at r.0 r.1) (next_token-integer n rest small (word-digit rest stop))

-- What may follow an expression: no character of a word, and no parenthesis that makes a name the
-- name of an array; and no operator of a level.
abbrev pub Follows : List ℕ → Type 0
Follows rest = Stops is_word rest × (is_lparen (parser_of rest).current ≡ false)

abbrev pub NoOp : (Token → Option BinaryOp) → List ℕ → Type 0
NoOp op_of rest = op_of (parser_of rest).current ≡ none

abbrev pub FollowsAll : List ℕ → Type 0
FollowsAll rest =
    Follows rest × NoOp multiplicative_op rest × NoOp additive_op rest × NoOp comparison_op rest

-- A single character that is a token.
pub parser_of-lparen : (rest : List ℕ) → parser_of (40 ∷ rest) ≡ at Token.lparen rest
unfolding parser_of next_token token_at symbol
parser_of-lparen rest = refl

pub parser_of-rparen : (rest : List ℕ) → parser_of (41 ∷ rest) ≡ at Token.rparen rest
unfolding parser_of next_token token_at symbol
parser_of-rparen rest = refl

pub parser_of-comma : (rest : List ℕ) → parser_of (44 ∷ rest) ≡ at Token.comma rest
unfolding parser_of next_token token_at symbol
parser_of-comma rest = refl

pub parser_of-blank : (rest : List ℕ) → parser_of (32 ∷ rest) ≡ parser_of rest
unfolding parser_of next_token
parser_of-blank rest = refl

pub FollowsAll-rparen : (rest : List ℕ) → FollowsAll (41 ∷ rest)
FollowsAll-rparen rest = simp parser_of-rparen ((refl, refl), refl, refl, refl)

pub FollowsAll-comma : (rest : List ℕ) → FollowsAll (44 ∷ rest)
FollowsAll-comma rest = simp parser_of-comma ((refl, refl), refl, refl, refl)

-- A keyword in front of a parenthesis is the token.
abbrev pub Opens : String → Token → Type 0
Opens word t = (rest : List ℕ) → parser_of (codes word ++ (40 ∷ rest)) ≡ at t (40 ∷ rest)

pub Opens-mem : Opens "MEM" Token.mem
unfolding parser_of next_token token_at read_identifier_or_keyword keyword_or_name find_word word_eq
    take_while
Opens-mem rest = refl

pub Opens-chr : Opens "CHR$" Token.chr
unfolding parser_of next_token token_at read_identifier_or_keyword keyword_or_name find_word word_eq
    take_while
Opens-chr rest = refl

pub Opens-asc : Opens "ASC" Token.asc
unfolding parser_of next_token token_at read_identifier_or_keyword keyword_or_name find_word word_eq
    take_while
Opens-asc rest = refl

pub Opens-len : Opens "LEN" Token.len
unfolding parser_of next_token token_at read_identifier_or_keyword keyword_or_name find_word word_eq
    take_while
Opens-len rest = refl

pub Opens-mid : Opens "MID$" Token.mid
unfolding parser_of next_token token_at read_identifier_or_keyword keyword_or_name find_word word_eq
    take_while
Opens-mid rest = refl

pub Opens-left : Opens "LEFT$" Token.left
unfolding parser_of next_token token_at read_identifier_or_keyword keyword_or_name find_word word_eq
    take_while
Opens-left rest = refl

pub Opens-instr : Opens "INSTR" Token.instr
unfolding parser_of next_token token_at read_identifier_or_keyword keyword_or_name find_word word_eq
    take_while
Opens-instr rest = refl

pub Opens-str : Opens "STR$" Token.str
unfolding parser_of next_token token_at read_identifier_or_keyword keyword_or_name find_word word_eq
    take_while
Opens-str rest = refl

pub Opens-val : Opens "VAL" Token.val
unfolding parser_of next_token token_at read_identifier_or_keyword keyword_or_name find_word word_eq
    take_while
Opens-val rest = refl

pub Opens-listen : Opens "LISTEN" Token.net_listen
unfolding parser_of next_token token_at read_identifier_or_keyword keyword_or_name find_word word_eq
    take_while
Opens-listen rest = refl

pub Opens-accept : Opens "ACCEPT" Token.accept
unfolding parser_of next_token token_at read_identifier_or_keyword keyword_or_name find_word word_eq
    take_while
Opens-accept rest = refl

pub Opens-recv : Opens "RECV$" Token.recv
unfolding parser_of next_token token_at read_identifier_or_keyword keyword_or_name find_word word_eq
    take_while
Opens-recv rest = refl

pub Opens-sockstate : Opens "SOCKSTATE" Token.sockstate
unfolding parser_of next_token token_at read_identifier_or_keyword keyword_or_name find_word word_eq
    take_while
Opens-sockstate rest = refl

pub Opens-socket : Opens "SOCKET" Token.socket
unfolding parser_of next_token token_at read_identifier_or_keyword keyword_or_name find_word word_eq
    take_while
Opens-socket rest = refl
