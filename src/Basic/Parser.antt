-- ===== src/Basic/Parser.antt =====
-- src/basic/parser.rs. A parsing function takes the parser's state to its result and the state
-- behind it. What a call leaves of the input is no structural part of it, so that recursive calls
-- and loops take fuel.
pub mod Statements
pub mod Size
pub mod Fuel
pub mod Total
pub mod Lines
use Prim.Native.String.{String}
use ralph_os.Base.{
  ℕ, zero, suc, ◌+◌, Bool, true, false, Option, none, some, List, [], ◌∷◌, if◌then◌else◌, length,
}
use ralph_os.Basic.Lexer.{Token, next_token, skip_to_eol}
use ralph_os.Basic.Syntax.{
  Name, BinaryOp, Expr, Statement, ParseError, message, unexpected_token, expected_value, as_u32,
}

-- The characters behind the current token, and that token.
pub record Parser : Type 0 where
  pub lexer : List ℕ
  pub current : Token

pub data Parsed {ℓ} (A : Type ℓ) : Type ℓ where
  ok : A → Parsed A
  failed : ParseError → Parsed A
  out_of_fuel : Parsed A

abbrev pub bind {ℓ κ} :
    {A : Type ℓ} {B : Type κ} → Parsed (A × Parser) → (A → Parser → Parsed B) → Parsed B
bind (ok (a, p)) f = f a p
bind (failed e) f = failed e
bind out_of_fuel f = out_of_fuel

abbrev pub P {ℓ} : Type ℓ → Type ℓ
P A = Parser → Parsed (A × Parser)

abbrev pub pure {ℓ} : {A : Type ℓ} → A → P A
pure a p = ok (a, p)

abbrev pub fail {ℓ} : {A : Type ℓ} → ParseError → P A
fail e p = failed e

infixl 1 ◌>>=◌ ◌>>◌
abbrev pub ◌>>=◌ {ℓ κ} : {A : Type ℓ} {B : Type κ} → P A → (A → P B) → P B
m >>= f = λ p. bind (m p) f

abbrev pub ◌>>◌ {ℓ κ} : {A : Type ℓ} {B : Type κ} → P A → P B → P B
m >> k = m >>= λ _. k

-- The parser in front of a text.
unfoldable pub parser_of : List ℕ → Parser
parser_of cs = let (t, rest) = next_token cs in record { lexer = rest; current = t }

unfoldable pub advance : P (Unit {0})
advance p = ok (tt, parser_of p.lexer)

-- `self.current == …`, for the tokens that the parser asks for
abbrev pub is_newline : Token → Bool
is_newline Token.newline = true
is_newline _ = false

abbrev pub is_eof : Token → Bool
is_eof Token.eof = true
is_eof _ = false

abbrev pub is_lparen : Token → Bool
is_lparen Token.lparen = true
is_lparen _ = false

abbrev pub is_rparen : Token → Bool
is_rparen Token.rparen = true
is_rparen _ = false

abbrev pub is_comma : Token → Bool
is_comma Token.comma = true
is_comma _ = false

abbrev pub is_semicolon : Token → Bool
is_semicolon Token.semicolon = true
is_semicolon _ = false

abbrev pub is_eq : Token → Bool
is_eq Token.eq = true
is_eq _ = false

abbrev pub is_minus : Token → Bool
is_minus Token.minus = true
is_minus _ = false

abbrev pub is_then : Token → Bool
is_then Token.then_ = true
is_then _ = false

abbrev pub is_to : Token → Bool
is_to Token.to = true
is_to _ = false

abbrev pub is_step : Token → Bool
is_step Token.step = true
is_step _ = false

abbrev pub current_is : (Token → Bool) → P Bool
current_is test p = ok (test p.current, p)

-- `if self.current != … { return Err(…) } self.advance()`
unfoldable pub expect : (Token → Bool) → String → P (Unit {0})
expect test text p = if test p.current then advance p else failed (message text)

abbrev pub integer_of : Token → Option ℕ
integer_of (Token.integer n) = some n
integer_of _ = none

abbrev pub identifier_of : Token → Option Name
identifier_of (Token.identifier s) = some s
identifier_of _ = none

abbrev pub string_of : Token → Option (List ℕ)
string_of (Token.string_lit s) = some s
string_of _ = none

-- The value of the current token, which is passed; or an error, if it is of another kind.
unfoldable pub take_token : {A : Type 0} → (Token → Option A) → String → P A
take_token read text p = elim (read p.current) [
  | some a ↦ (do advance; pure a) p
  | none ↦ failed (message text)
]

-- The operators of the three loops.
abbrev pub comparison_op : Token → Option BinaryOp
comparison_op Token.eq = some BinaryOp.eq
comparison_op Token.ne = some BinaryOp.ne
comparison_op Token.lt = some BinaryOp.lt
comparison_op Token.gt = some BinaryOp.gt
comparison_op Token.le = some BinaryOp.le
comparison_op Token.ge = some BinaryOp.ge
comparison_op _ = none

abbrev pub additive_op : Token → Option BinaryOp
additive_op Token.plus = some BinaryOp.add
additive_op Token.minus = some BinaryOp.sub
additive_op _ = none

abbrev pub multiplicative_op : Token → Option BinaryOp
multiplicative_op Token.star = some BinaryOp.mul
multiplicative_op Token.slash = some BinaryOp.div
multiplicative_op _ = none

-- While an operator of the level stands there, another operand is joined from the left.
unfoldable pub binary_loop : ℕ → (Token → Option BinaryOp) → P Expr → Expr → P Expr
binary_loop zero op_of operand l p = out_of_fuel
binary_loop (suc f) op_of operand l p = elim (op_of p.current) [
  | none ↦ ok (l, p)
  | some op ↦
      bind ((do advance; operand) p)
        λ right p'. binary_loop f op_of operand (Expr.binary_op l op right) p'
]

-- `expression` is the recursive call.
module _ (expression : P Expr) where
  unfoldable pub one_argument : String → String → (Expr → Expr) → P Expr
  one_argument opening closing make = do
    advance
    expect is_lparen opening
    arg ← expression
    expect is_rparen closing
    pure (make arg)

  unfoldable pub two_arguments : String → String → String → (Expr → Expr → Expr) → P Expr
  two_arguments opening between closing make = do
    advance
    expect is_lparen opening
    first ← expression
    expect is_comma between
    second ← expression
    expect is_rparen closing
    pure (make first second)

  unfoldable pub three_arguments : P Expr
  three_arguments = do
    advance
    expect is_lparen "Expected '(' after MID$"
    s ← expression
    expect is_comma "Expected ',' in MID$"
    start ← expression
    expect is_comma "Expected ',' in MID$"
    len ← expression
    expect is_rparen "Expected ')' after MID$"
    pure (Expr.mid s start len)

  -- A variable, or the element of an array.
  unfoldable pub name_or_element : Name → P Expr
  name_or_element name = do
    advance
    indexed ← current_is is_lparen
    let element : P Expr = do
      advance
      index ← expression
      expect is_rparen "Expected ')' after array index"
      pure (Expr.array_access name index)
    if indexed then element else pure (Expr.variable name)

  unfoldable pub primary_at : Token → P Expr
  primary_at (Token.integer n) = do advance; pure (Expr.integer n)
  primary_at (Token.string_lit s) = do advance; pure (Expr.string_lit s)
  primary_at (Token.identifier name) = name_or_element name
  primary_at Token.mem = one_argument "Expected '(' after MEM" "Expected ')'" Expr.mem
  primary_at Token.chr = one_argument "Expected '(' after CHR$" "Expected ')'" Expr.chr
  primary_at Token.asc = one_argument "Expected '(' after ASC" "Expected ')'" Expr.asc
  primary_at Token.len = one_argument "Expected '(' after LEN" "Expected ')'" Expr.len
  primary_at Token.mid = three_arguments
  primary_at Token.left =
      two_arguments "Expected '(' after LEFT$" "Expected ',' in LEFT$" "Expected ')' after LEFT$"
        Expr.left
  primary_at Token.instr =
      two_arguments "Expected '(' after INSTR" "Expected ',' in INSTR" "Expected ')' after INSTR"
        Expr.instr
  primary_at Token.str = one_argument "Expected '(' after STR$" "Expected ')' after STR$" Expr.str
  primary_at Token.val = one_argument "Expected '(' after VAL" "Expected ')' after VAL" Expr.val
  primary_at Token.socket = do
    advance
    expect is_lparen "Expected '(' after SOCKET"
    expect is_rparen "Expected ')' after SOCKET"
    pure Expr.socket
  primary_at Token.net_listen =
      two_arguments "Expected '(' after LISTEN" "Expected ',' in LISTEN" "Expected ')' after LISTEN"
        Expr.listen
  primary_at Token.accept =
      one_argument "Expected '(' after ACCEPT" "Expected ')' after ACCEPT" Expr.accept
  primary_at Token.recv =
      one_argument "Expected '(' after RECV$" "Expected ')' after RECV$" Expr.recv
  primary_at Token.sockstate =
      one_argument "Expected '(' after SOCKSTATE" "Expected ')' after SOCKSTATE" Expr.sockstate
  primary_at Token.lparen = do advance; e ← expression; expect is_rparen "Expected ')'"; pure e
  primary_at t = fail (expected_value t)

  unfoldable pub parse_primary : P Expr
  parse_primary p = primary_at p.current p

  unfoldable pub parse_unary : P Expr
  parse_unary p =
      let negated : P Expr = (do advance; e ← parse_primary; pure (Expr.negate e)) in
      if is_minus p.current then negated p else parse_primary p

  unfoldable pub parse_multiplicative : ℕ → P Expr
  parse_multiplicative f = do left ← parse_unary; binary_loop f multiplicative_op parse_unary left

  unfoldable pub parse_additive : ℕ → P Expr
  parse_additive f = do
    left ← parse_multiplicative f
    binary_loop f additive_op (parse_multiplicative f) left

  unfoldable pub parse_comparison : ℕ → P Expr
  parse_comparison f = do
    left ← parse_additive f
    binary_loop f comparison_op (parse_additive f) left

-- The fuel bounds the nesting, and the rounds of each loop.
unfoldable pub parse_expression : ℕ → P Expr
parse_expression zero p = out_of_fuel
parse_expression (suc f) p = parse_comparison (parse_expression f) (suc f) p
