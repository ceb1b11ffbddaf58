-- ===== src/Basic/Format/Length.antt =====
-- A listing is at least as long as what it lists has parts.
use ralph_os.Base.{
  ℕ, zero, suc, ◌+◌, ◌/◌, ◌%◌, ◌≤◌, ◌<◌, List, [], ◌∷◌, ◌++◌, arith, length, length-append, All,
}
use ralph_os.Base.Text.{codes}
use ralph_os.Basic.Lexer.Print.{digits, IsName}
use ralph_os.Basic.Syntax.{Name, BinaryOp, Expr, Statement}
use ralph_os.Basic.Format.{
  decimal, format_op, format_expr, format_more, format_items, format_arguments, format_statement,
  format_line,
}
use ralph_os.Basic.Format.Needs.{IsFlat, nodes, all_nodes, IsListable, statement_nodes}

length-digits : (f n : ℕ) (l : List ℕ) → length l ≤ length (digits f n l)
unfolding digits
length-digits zero n l = omega arith
length-digits (suc f) n l = ground (arith, length-digits f (n / 10) ((48 + n % 10) ∷ l))

length-decimal : (n : ℕ) (rest : List ℕ) → length rest + 1 ≤ length (decimal n rest)
unfolding decimal digits
length-decimal n rest = ground (arith, length-digits 18 (n / 10) ((48 + n % 10) ∷ rest))

length-name : (name : Name) → IsName name → 0 < length name
length-name [] h = absurd h
length-name (c ∷ cs) h = omega arith

length-format_op : (op : BinaryOp) (rest : List ℕ) → length rest + 1 ≤ length (format_op op rest)
unfolding format_op
length-format_op BinaryOp.add rest = omega arith
length-format_op _ rest = omega arith

length-expr :
    (e : Expr) (rest : List ℕ) → IsFlat e → nodes e + length rest ≤ length (format_expr e rest)
unfolding format_expr
length-expr (Expr.integer n) rest h = omega (arith, length-decimal n rest)
length-expr (Expr.string_lit s) rest h = omega (arith, length-append s (34 ∷ rest))
length-expr (Expr.variable name) rest h = omega (arith, length-append name rest, length-name name h)
length-expr (Expr.binary_op l op r) rest h = omega (
  arith,
  length-expr l (format_op op (format_expr r rest)) h.0,
  length-format_op op (format_expr r rest),
  length-expr r rest h.1,
)
length-expr (Expr.negate e) rest h = omega (arith, length-expr e rest h.0)
length-expr (Expr.mid a b c) rest (ha, hb, hc) =
    let third = format_expr c (41 ∷ rest) in
    let second = format_expr b (44 ∷ (32 ∷ third)) in
    omega (
      arith,
      length-expr a (44 ∷ (32 ∷ second)) ha,
      length-expr b (44 ∷ (32 ∷ third)) hb,
      length-expr c (41 ∷ rest) hc,
    )
length-expr (Expr.left a b) rest (ha, hb) =
    omega (
      arith,
      length-expr a (44 ∷ (32 ∷ format_expr b (41 ∷ rest))) ha,
      length-expr b (41 ∷ rest) hb,
    )
length-expr (Expr.instr a b) rest (ha, hb) =
    omega (
      arith,
      length-expr a (44 ∷ (32 ∷ format_expr b (41 ∷ rest))) ha,
      length-expr b (41 ∷ rest) hb,
    )
length-expr (Expr.listen a b) rest (ha, hb) =
    omega (
      arith,
      length-expr a (44 ∷ (32 ∷ format_expr b (41 ∷ rest))) ha,
      length-expr b (41 ∷ rest) hb,
    )
length-expr (Expr.array_access name index) rest (hn, h) = omega (
  arith,
  length-append name (40 ∷ format_expr index (41 ∷ rest)),
  length-expr index (41 ∷ rest) h,
)
length-expr Expr.socket rest h = omega arith
length-expr (Expr.mem e) rest h = omega (arith, length-expr e (41 ∷ rest) h)
length-expr (Expr.chr e) rest h = omega (arith, length-expr e (41 ∷ rest) h)
length-expr (Expr.asc e) rest h = omega (arith, length-expr e (41 ∷ rest) h)
length-expr (Expr.len e) rest h = omega (arith, length-expr e (41 ∷ rest) h)
length-expr (Expr.str e) rest h = omega (arith, length-expr e (41 ∷ rest) h)
length-expr (Expr.val e) rest h = omega (arith, length-expr e (41 ∷ rest) h)
length-expr (Expr.accept e) rest h = omega (arith, length-expr e (41 ∷ rest) h)
length-expr (Expr.recv e) rest h = omega (arith, length-expr e (41 ∷ rest) h)
length-expr (Expr.sockstate e) rest h = omega (arith, length-expr e (41 ∷ rest) h)

length-more :
    (es : List Expr) (rest : List ℕ)
    → All IsFlat es
    → all_nodes es + length rest ≤ length (format_more es rest)
unfolding format_more
length-more [] rest h = omega arith
length-more (e ∷ es) rest (he, h) =
    omega (arith, length-expr e (format_more es rest) he, length-more es rest h)

length-items :
    (es : List Expr) (rest : List ℕ)
    → All IsFlat es
    → all_nodes es + length rest ≤ length (format_items es rest) + 1
unfolding format_items
length-items [] rest h = omega arith
length-items (e ∷ es) rest (he, h) =
    omega (arith, length-expr e (format_more es rest) he, length-more es rest h)

length-arguments :
    (ss : List (List ℕ)) (rest : List ℕ)
    → length ss + length rest ≤ length (format_arguments ss rest)
unfolding format_arguments
length-arguments [] rest = omega arith
length-arguments (s ∷ ss) rest =
    omega (arith, length-append s (34 ∷ format_arguments ss rest), length-arguments ss rest)

length-statement :
    (s : Statement) (rest : List ℕ)
    → IsListable s
    → statement_nodes s + length rest ≤ length (format_statement s rest)
unfolding format_statement
length-statement (Statement.print es) rest h = omega (arith, length-items es rest h)
length-statement (Statement.assign var e) rest (hv, h) =
    omega (arith, length-append var (32 ∷ (61 ∷ (32 ∷ format_expr e rest))), length-expr e rest h)
length-statement (Statement.if_then e line) rest (h, _) =
    let tail = codes " THEN " ++ decimal line rest in
    omega (arith, length-expr e tail h, length-decimal line rest)
length-statement (Statement.goto line) rest h = omega (arith, length-decimal line rest)
length-statement (Statement.for_to var a b c) rest (hv, ha, hb, hc) =
    let third = codes " STEP " ++ format_expr c rest in
    let second = codes " TO " ++ format_expr b third in
    omega (
      arith,
      length-append var (32 ∷ (61 ∷ (32 ∷ format_expr a second))),
      length-expr a second ha,
      length-expr b third hb,
      length-expr c rest hc,
    )
length-statement (Statement.next var) rest h = omega (arith, length-append var rest)
length-statement (Statement.sleep e) rest h = omega (arith, length-expr e rest h)
length-statement Statement.rem rest h = absurd h
length-statement Statement.end_program rest h = omega arith
length-statement (Statement.spawn name args) rest h =
    omega (arith, length-append name (34 ∷ format_arguments args rest), length-arguments args rest)
length-statement (Statement.gosub line) rest h = omega (arith, length-decimal line rest)
length-statement Statement.return_back rest h = omega arith
length-statement (Statement.dim name e) rest (hn, h) =
    omega (arith, length-append name (40 ∷ format_expr e (41 ∷ rest)), length-expr e (41 ∷ rest) h)
length-statement (Statement.array_assign name a b) rest (hn, ha, hb) =
    let tail = codes ") = " ++ format_expr b rest in
    omega (
      arith,
      length-append name (40 ∷ format_expr a tail),
      length-expr a tail ha,
      length-expr b rest hb,
    )
length-statement (Statement.send a b) rest (ha, hb) =
    omega (arith, length-expr a (44 ∷ (32 ∷ format_expr b rest)) ha, length-expr b rest hb)
length-statement (Statement.net_close e) rest h = omega (arith, length-expr e rest h)

pub length-line :
    (n : ℕ) (s : Statement) (rest : List ℕ)
    → IsListable s
    → statement_nodes s + length rest + 3 ≤ length (format_line n s rest)
unfolding format_line
length-line n s rest h = omega (
  arith,
  length-decimal n (32 ∷ format_statement s (10 ∷ rest)),
  length-statement s (10 ∷ rest) h,
)
