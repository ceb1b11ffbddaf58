-- ===== src/Basic/Syntax.antt =====
-- Expressions and statements, the types of src/basic/parser.rs.
use Prim.Native.String.{String}
use ralph_os.Base.{ℕ, ◌%◌, ◌^◌, List}
use ralph_os.Basic.Lexer.{Token}

-- The characters of a variable's, an array's or a program's name.
abbrev pub Name : Type 0
Name = List ℕ

pub data BinaryOp : Type 0 where
  add sub mul div eq ne lt gt le ge : BinaryOp

-- `Integer` holds what can be read: no literal is negative.
pub data Expr : Type 0 where
  integer : ℕ → Expr
  string_lit : List ℕ → Expr
  variable : Name → Expr
  binary_op : Expr → BinaryOp → Expr → Expr
  negate mem chr asc len : Expr → Expr
  mid : Expr → Expr → Expr → Expr
  left instr : Expr → Expr → Expr
  str val : Expr → Expr
  socket : Expr
  listen : Expr → Expr → Expr
  accept recv sockstate : Expr → Expr
  array_access : Name → Expr → Expr

-- Line numbers are `u32`. Assignments are `Let` in the source, SEND's text is its `data`.
pub data Statement : Type 0 where
  print : List Expr → Statement
  assign : Name → Expr → Statement
  if_then : Expr → ℕ → Statement
  goto : ℕ → Statement
  for_to : Name → Expr → Expr → Expr → Statement
  next : Name → Statement
  sleep : Expr → Statement
  rem end_program : Statement
  spawn : Name → List (List ℕ) → Statement
  gosub : ℕ → Statement
  return_back : Statement
  dim : Name → Expr → Statement
  array_assign : Name → Expr → Expr → Statement
  send : Expr → Expr → Statement
  net_close : Expr → Statement

-- The texts of the errors. Those that show a token are the last two.
pub data ParseError : Type 0 where
  message : String → ParseError
  unexpected_token expected_value : Token → ParseError

-- `n as u32`
abbrev pub as_u32 : ℕ → ℕ
as_u32 n = n % 2 ^ 32
