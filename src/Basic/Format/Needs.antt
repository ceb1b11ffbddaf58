-- ===== src/Basic/Format/Needs.antt =====
-- The expressions and statements whose listing says what they are.
use ralph_os.Base.{ℕ, List, [], ◌∷◌, length, ◌+◌, ◌^◌, ◌≤◌, ◌<◌, ◌≡◌, All}
use ralph_os.Basic.Lexer.Print.{IsPlain, IsName}
use ralph_os.Basic.Syntax.{BinaryOp, Expr, Statement}

-- How tightly an operator binds, and an expression that is written down.
abbrev pub op_rank : BinaryOp → ℕ
op_rank BinaryOp.add = 1
op_rank BinaryOp.sub = 1
op_rank BinaryOp.mul = 2
op_rank BinaryOp.div = 2
op_rank _ = 0

abbrev pub rank : Expr → ℕ
rank (Expr.binary_op l op r) = op_rank op
rank (Expr.negate e) = 3
rank _ = 4

-- Nothing in the expression needs parentheses, and its literals and names can be read.
abbrev pub IsFlat : Expr → Type 0
IsFlat (Expr.integer n) = n < 2 ^ 63
IsFlat (Expr.string_lit s) = All IsPlain s
IsFlat (Expr.variable name) = IsName name
IsFlat (Expr.binary_op l op r) = IsFlat l × IsFlat r × (op_rank op ≤ rank l) × (op_rank op < rank r)
IsFlat (Expr.negate e) = IsFlat e × (rank e ≡ 4)
IsFlat (Expr.mem e) = IsFlat e
IsFlat (Expr.chr e) = IsFlat e
IsFlat (Expr.asc e) = IsFlat e
IsFlat (Expr.len e) = IsFlat e
IsFlat (Expr.mid a b c) = IsFlat a × IsFlat b × IsFlat c
IsFlat (Expr.left a b) = IsFlat a × IsFlat b
IsFlat (Expr.instr a b) = IsFlat a × IsFlat b
IsFlat (Expr.str e) = IsFlat e
IsFlat (Expr.val e) = IsFlat e
IsFlat Expr.socket = Unit {0}
IsFlat (Expr.listen a b) = IsFlat a × IsFlat b
IsFlat (Expr.accept e) = IsFlat e
IsFlat (Expr.recv e) = IsFlat e
IsFlat (Expr.sockstate e) = IsFlat e
IsFlat (Expr.array_access name index) = IsName name × IsFlat index

abbrev pub nodes : Expr → ℕ
nodes (Expr.binary_op l op r) = nodes l + nodes r + 1
nodes (Expr.negate e) = nodes e + 1
nodes (Expr.mem e) = nodes e + 1
nodes (Expr.chr e) = nodes e + 1
nodes (Expr.asc e) = nodes e + 1
nodes (Expr.len e) = nodes e + 1
nodes (Expr.mid a b c) = nodes a + nodes b + nodes c + 1
nodes (Expr.left a b) = nodes a + nodes b + 1
nodes (Expr.instr a b) = nodes a + nodes b + 1
nodes (Expr.str e) = nodes e + 1
nodes (Expr.val e) = nodes e + 1
nodes (Expr.listen a b) = nodes a + nodes b + 1
nodes (Expr.accept e) = nodes e + 1
nodes (Expr.recv e) = nodes e + 1
nodes (Expr.sockstate e) = nodes e + 1
nodes (Expr.array_access name index) = nodes index + 1
nodes _ = 1

abbrev pub all_nodes : List Expr → ℕ
all_nodes [] = 0
all_nodes (e ∷ es) = nodes e + all_nodes es + 1

-- A statement other than REM whose parts can be read.
abbrev pub IsListable : Statement → Type 0
IsListable (Statement.print es) = All IsFlat es
IsListable (Statement.assign var value) = IsName var × IsFlat value
IsListable (Statement.if_then condition line) = IsFlat condition × (line < 2 ^ 32)
IsListable (Statement.goto line) = line < 2 ^ 32
IsListable (Statement.for_to var start end step) =
    IsName var × IsFlat start × IsFlat end × IsFlat step
IsListable (Statement.next var) = IsName var
IsListable (Statement.sleep e) = IsFlat e
IsListable Statement.rem = ⊥
IsListable Statement.end_program = Unit {0}
IsListable (Statement.spawn name args) = All IsPlain name × All (All IsPlain) args
IsListable (Statement.gosub line) = line < 2 ^ 32
IsListable Statement.return_back = Unit {0}
IsListable (Statement.dim name size) = IsName name × IsFlat size
IsListable (Statement.array_assign name index value) = IsName name × IsFlat index × IsFlat value
IsListable (Statement.send sock text) = IsFlat sock × IsFlat text
IsListable (Statement.net_close sock) = IsFlat sock

abbrev pub statement_nodes : Statement → ℕ
statement_nodes (Statement.print es) = all_nodes es
statement_nodes (Statement.assign var value) = nodes value
statement_nodes (Statement.if_then condition line) = nodes condition
statement_nodes (Statement.for_to var start end step) = nodes start + nodes end + nodes step
statement_nodes (Statement.sleep e) = nodes e
statement_nodes (Statement.spawn name args) = length args
statement_nodes (Statement.dim name size) = nodes size
statement_nodes (Statement.array_assign name index value) = nodes index + nodes value
statement_nodes (Statement.send sock text) = nodes sock + nodes text
statement_nodes (Statement.net_close sock) = nodes sock
statement_nodes _ = 0
