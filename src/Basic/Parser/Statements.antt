-- ===== src/Basic/Parser/Statements.antt =====
-- The statements and the lines of src/basic/parser.rs. The fuel is that of the expressions and of the
-- loops.
use ralph_os.Base.{ℕ, zero, suc, ◌||◌, Option, none, some, List, [], ◌∷◌, ◌++◌, if◌then◌else◌}
use ralph_os.Basic.Lexer.{Token, skip_to_eol}
use ralph_os.Basic.Syntax.{Name, Expr, Statement, unexpected_token, as_u32}
use ralph_os.Basic.Parser.{
  ok, out_of_fuel, bind, P, pure, fail, ◌>>=◌, ◌>>◌, parser_of, advance, is_newline, is_eof,
  is_lparen, is_rparen, is_comma, is_semicolon, is_eq, is_then, is_to, is_step, current_is, expect,
  integer_of, identifier_of, string_of, take_token, parse_expression,
}

-- The current token behind the rest of the line.
unfoldable pub skip_line : P (Unit {0})
skip_line p = ok (tt, parser_of (skip_to_eol p.lexer))

-- The loop over the items of PRINT, behind `done`.
unfoldable pub print_items : ℕ → ℕ → List Expr → P (List Expr)
print_items zero fuel done p = out_of_fuel
print_items (suc rounds) fuel done p =
    let item : P Expr = parse_expression fuel in
    let more = bind (item p) λ e p'.
      let again = bind (advance p') λ _ p''. print_items rounds fuel (done ++ (e ∷ [])) p'' in
      if is_semicolon p'.current then again else ok (done ++ (e ∷ []), p') in
    if is_newline p.current || is_eof p.current then ok (done, p) else more

-- The loop over the arguments of SPAWN.
unfoldable pub spawn_arguments : ℕ → List (List ℕ) → P (List (List ℕ))
spawn_arguments zero done p = out_of_fuel
spawn_arguments (suc rounds) done p =
    let argument : P (List ℕ) = (do
      advance
      take_token string_of "SPAWN arguments must be strings") in
    let more = bind (argument p) λ s p'. spawn_arguments rounds (done ++ (s ∷ [])) p' in
    if is_comma p.current then more else ok (done, p)

-- The number in front of a line.
unfoldable pub line_number : P (Option ℕ)
line_number p = elim (integer_of p.current) [
  | some n ↦ (do advance; pure (some (as_u32 n))) p
  | none ↦ ok (none, p)
]

unfoldable pub skip_newline : P (Unit {0})
skip_newline p = if is_newline p.current then advance p else ok (tt, p)

module _ (fuel : ℕ) where
  unfoldable pub parse_print : P Statement
  parse_print = do advance; exprs ← print_items fuel fuel []; pure (Statement.print exprs)

  unfoldable pub parse_let : P Statement
  parse_let = do
    advance
    var ← take_token identifier_of "Expected variable name"
    expect is_eq "Expected '='"
    value ← parse_expression fuel
    pure (Statement.assign var value)

  unfoldable pub parse_if : P Statement
  parse_if = do
    advance
    condition ← parse_expression fuel
    expect is_then "Expected THEN"
    line ← take_token integer_of "Expected line number after THEN"
    pure (Statement.if_then condition (as_u32 line))

  unfoldable pub parse_goto : P Statement
  parse_goto = do
    advance
    line ← take_token integer_of "Expected line number"
    pure (Statement.goto (as_u32 line))

  unfoldable pub parse_step : P Expr
  parse_step = do
    stepped ← current_is is_step
    let given : P Expr = do advance; parse_expression fuel
    if stepped then given else pure (Expr.integer 1)

  unfoldable pub parse_for : P Statement
  parse_for = do
    advance
    var ← take_token identifier_of "Expected variable name"
    expect is_eq "Expected '='"
    start ← parse_expression fuel
    expect is_to "Expected TO"
    end ← parse_expression fuel
    step ← parse_step
    pure (Statement.for_to var start end step)

  unfoldable pub parse_next : P Statement
  parse_next = do
    advance
    var ← take_token identifier_of "Expected variable name"
    pure (Statement.next var)

  unfoldable pub parse_sleep : P Statement
  parse_sleep = do advance; ms ← parse_expression fuel; pure (Statement.sleep ms)

  unfoldable pub parse_spawn : P Statement
  parse_spawn = do
    advance
    name ← take_token string_of "SPAWN requires a program name string"
    args ← spawn_arguments fuel []
    pure (Statement.spawn name args)

  unfoldable pub parse_gosub : P Statement
  parse_gosub = do
    advance
    line ← take_token integer_of "Expected line number after GOSUB"
    pure (Statement.gosub (as_u32 line))

  unfoldable pub parse_dim : P Statement
  parse_dim = do
    advance
    name ← take_token identifier_of "Expected array name after DIM"
    expect is_lparen "Expected '(' after array name"
    size ← parse_expression fuel
    expect is_rparen "Expected ')' after array size"
    pure (Statement.dim name size)

  unfoldable pub parse_send : P Statement
  parse_send = do
    advance
    sock ← parse_expression fuel
    expect is_comma "Expected ',' after socket in SEND"
    text ← parse_expression fuel
    pure (Statement.send sock text)

  unfoldable pub parse_close : P Statement
  parse_close = do advance; sock ← parse_expression fuel; pure (Statement.net_close sock)

  -- An assignment without LET, to an array's element or to a variable.
  unfoldable pub parse_assignment : Name → P Statement
  parse_assignment var = do
    advance
    indexed ← current_is is_lparen
    let element : P Statement = do
      advance
      index ← parse_expression fuel
      expect is_rparen "Expected ')' after array index"
      expect is_eq "Expected '=' after array element"
      value ← parse_expression fuel
      pure (Statement.array_assign var index value)
    let simple : P Statement = do
      expect is_eq "Expected '='"
      value ← parse_expression fuel
      pure (Statement.assign var value)
    if indexed then element else simple

  unfoldable pub statement_at : Token → P Statement
  statement_at Token.print = parse_print
  statement_at Token.let_ = parse_let
  statement_at Token.if_ = parse_if
  statement_at Token.goto = parse_goto
  statement_at Token.for_ = parse_for
  statement_at Token.next = parse_next
  statement_at Token.sleep = parse_sleep
  statement_at Token.spawn = parse_spawn
  statement_at Token.gosub = parse_gosub
  statement_at Token.return_ = do advance; pure Statement.return_back
  statement_at Token.dim = parse_dim
  statement_at Token.send = parse_send
  statement_at Token.close = parse_close
  statement_at Token.rem = do advance; skip_line; pure Statement.rem
  statement_at Token.end_ = do advance; pure Statement.end_program
  statement_at (Token.identifier name) = parse_assignment name
  statement_at t = fail (unexpected_token t)

  unfoldable pub parse_statement : P Statement
  parse_statement p = statement_at p.current p

  unfoldable pub numbered_line : P (Option ℕ × Statement)
  numbered_line = do number ← line_number; stmt ← parse_statement; skip_newline; pure (number, stmt)

unfoldable pub skip_newlines : ℕ → P (Unit {0})
skip_newlines zero p = out_of_fuel
skip_newlines (suc rounds) p =
    let again = bind (advance p) λ _ p'. skip_newlines rounds p' in
    if is_newline p.current then again else ok (tt, p)

-- `none` is the end of the input.
unfoldable pub parse_line : ℕ → P (Option (Option ℕ × Statement))
parse_line fuel = do
  skip_newlines fuel
  ended ← current_is is_eof
  let line : P (Option (Option ℕ × Statement)) = do l ← numbered_line fuel; pure (some l)
  if ended then pure none else line
