-- ===== src/Basic/Format.antt =====
-- format_statement and format_expr of src/basic/interpreter.rs. A text is written in front of `rest`.
pub mod Needs
pub mod Tokens
pub mod Primary
pub mod Unary
pub mod Levels
pub mod Expressions
pub mod Keywords
pub mod Statements
pub mod Commands
pub mod Lines
pub mod Length
pub mod Remarks
use ralph_os.Base.{ℕ, List, [], ◌∷◌, ◌++◌}
use ralph_os.Base.Text.{codes}
use ralph_os.Basic.Lexer.Print.{digits}
use ralph_os.Basic.Syntax.{Name, BinaryOp, Expr, Statement}

-- `{}` of an integer that is not negative, below 2^63
unfoldable pub decimal : ℕ → List ℕ → List ℕ
decimal n rest = digits 19 n rest

-- `" {} "` of an operator
unfoldable pub format_op : BinaryOp → List ℕ → List ℕ
format_op BinaryOp.add rest = codes " + " ++ rest
format_op BinaryOp.sub rest = codes " - " ++ rest
format_op BinaryOp.mul rest = codes " * " ++ rest
format_op BinaryOp.div rest = codes " / " ++ rest
format_op BinaryOp.eq rest = codes " = " ++ rest
format_op BinaryOp.ne rest = codes " <> " ++ rest
format_op BinaryOp.lt rest = codes " < " ++ rest
format_op BinaryOp.gt rest = codes " > " ++ rest
format_op BinaryOp.le rest = codes " <= " ++ rest
format_op BinaryOp.ge rest = codes " >= " ++ rest

abbrev quoted : List ℕ → List ℕ → List ℕ
quoted s rest = 34 ∷ (s ++ (34 ∷ rest))

abbrev close : List ℕ → List ℕ
close rest = codes ")" ++ rest

unfoldable pub format_expr : Expr → List ℕ → List ℕ
format_expr (Expr.integer n) rest = decimal n rest
format_expr (Expr.string_lit s) rest = quoted s rest
format_expr (Expr.variable name) rest = name ++ rest
format_expr (Expr.binary_op l op r) rest = format_expr l (format_op op (format_expr r rest))
format_expr (Expr.negate e) rest = codes "-" ++ format_expr e rest
format_expr (Expr.mem e) rest = codes "MEM(" ++ format_expr e (close rest)
format_expr (Expr.chr e) rest = codes "CHR$(" ++ format_expr e (close rest)
format_expr (Expr.asc e) rest = codes "ASC(" ++ format_expr e (close rest)
format_expr (Expr.len e) rest = codes "LEN(" ++ format_expr e (close rest)
format_expr (Expr.mid s start count) rest =
    codes "MID$("
    ++ format_expr s
        (codes ", " ++ format_expr start (codes ", " ++ format_expr count (close rest)))
format_expr (Expr.left s n) rest =
    codes "LEFT$(" ++ format_expr s (codes ", " ++ format_expr n (close rest))
format_expr (Expr.instr h n) rest =
    codes "INSTR(" ++ format_expr h (codes ", " ++ format_expr n (close rest))
format_expr (Expr.str e) rest = codes "STR$(" ++ format_expr e (close rest)
format_expr (Expr.val e) rest = codes "VAL(" ++ format_expr e (close rest)
format_expr Expr.socket rest = codes "SOCKET()" ++ rest
format_expr (Expr.listen sock port) rest =
    codes "LISTEN(" ++ format_expr sock (codes ", " ++ format_expr port (close rest))
format_expr (Expr.accept e) rest = codes "ACCEPT(" ++ format_expr e (close rest)
format_expr (Expr.recv e) rest = codes "RECV$(" ++ format_expr e (close rest)
format_expr (Expr.sockstate e) rest = codes "SOCKSTATE(" ++ format_expr e (close rest)
format_expr (Expr.array_access name index) rest =
    name ++ (codes "(" ++ format_expr index (close rest))

-- The items of PRINT behind the first.
unfoldable pub format_more : List Expr → List ℕ → List ℕ
format_more [] rest = rest
format_more (e ∷ es) rest = codes "; " ++ format_expr e (format_more es rest)

unfoldable pub format_items : List Expr → List ℕ → List ℕ
format_items [] rest = rest
format_items (e ∷ es) rest = format_expr e (format_more es rest)

unfoldable pub format_arguments : List (List ℕ) → List ℕ → List ℕ
format_arguments [] rest = rest
format_arguments (s ∷ ss) rest = codes ", " ++ quoted s (format_arguments ss rest)

unfoldable pub format_statement : Statement → List ℕ → List ℕ
format_statement (Statement.print es) rest = codes "PRINT " ++ format_items es rest
format_statement (Statement.assign var value) rest =
    codes "LET " ++ (var ++ (codes " = " ++ format_expr value rest))
format_statement (Statement.if_then condition line) rest =
    codes "IF " ++ format_expr condition (codes " THEN " ++ decimal line rest)
format_statement (Statement.goto line) rest = codes "GOTO " ++ decimal line rest
format_statement (Statement.for_to var start end step) rest =
    codes "FOR "
    ++ (var
        ++ (codes " = "
            ++ format_expr start
                (codes " TO " ++ format_expr end (codes " STEP " ++ format_expr step rest))))
format_statement (Statement.next var) rest = codes "NEXT " ++ (var ++ rest)
format_statement (Statement.sleep e) rest = codes "SLEEP " ++ format_expr e rest
format_statement Statement.rem rest = codes "REM" ++ rest
format_statement Statement.end_program rest = codes "END" ++ rest
format_statement (Statement.spawn name args) rest =
    codes "SPAWN " ++ quoted name (format_arguments args rest)
format_statement (Statement.gosub line) rest = codes "GOSUB " ++ decimal line rest
format_statement Statement.return_back rest = codes "RETURN" ++ rest
format_statement (Statement.dim name size) rest =
    codes "DIM " ++ (name ++ (codes "(" ++ format_expr size (close rest)))
format_statement (Statement.array_assign name index value) rest =
    name ++ (codes "(" ++ format_expr index (codes ") = " ++ format_expr value rest))
format_statement (Statement.send sock text) rest =
    codes "SEND " ++ format_expr sock (codes ", " ++ format_expr text rest)
format_statement (Statement.net_close sock) rest = codes "CLOSE " ++ format_expr sock rest

-- A line of LIST: the number, the statement and the end of the line.
unfoldable pub format_line : ℕ → Statement → List ℕ → List ℕ
format_line number s rest = decimal number (32 ∷ format_statement s (10 ∷ rest))
