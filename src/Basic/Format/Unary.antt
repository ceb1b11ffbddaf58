-- ===== src/Basic/Format/Unary.antt =====
-- Reading what an expression is listed as.
use ralph_os.Base.{ℕ, ◌≤◌, ◌<◌, ◌≡◌, refl, false, List, ◌∷◌, arith}
use ralph_os.Basic.Lexer.{Token, next_token, token_at, symbol}
use ralph_os.Basic.Syntax.{BinaryOp, Expr}
use ralph_os.Basic.Format.{format_expr}
use ralph_os.Basic.Format.Needs.{op_rank, IsFlat, rank, nodes}
use ralph_os.Basic.Format.Tokens.{
  at, parser_of-name, parser_of-string, parser_of-decimal, Follows, Opens-mem, Opens-chr, Opens-asc,
  Opens-len, Opens-mid, Opens-left, Opens-instr, Opens-str, Opens-val, Opens-listen, Opens-accept,
  Opens-recv, Opens-sockstate, Opens-socket,
}
use ralph_os.Basic.Format.Primary.{Reads, ReadsBelow, primary-reads}
use ralph_os.Basic.Parser.{P, parser_of, advance, is_minus, parse_unary}

pub op_rank-le : (op : BinaryOp) → op_rank op ≤ 2
op_rank-le BinaryOp.add = omega arith
op_rank-le _ = omega arith

-- No primary expression begins with a minus.
not_minus :
    (e : Expr) (rest : List ℕ)
    → rank e ≡ 4
    → IsFlat e
    → Follows rest
    → is_minus (parser_of (format_expr e rest)).current ≡ false
unfolding format_expr
not_minus (Expr.integer k) rest r h follows = rw (parser_of-decimal k rest h follows.0) refl
not_minus (Expr.string_lit s) rest r h follows = rw (parser_of-string s rest h) refl
not_minus (Expr.variable name) rest r h follows = rw (parser_of-name name rest h follows.0) refl
not_minus (Expr.binary_op l op r) rest rk h follows = absurd (omega (arith, op_rank-le op))
not_minus (Expr.negate e) rest r h follows = absurd (omega arith)
not_minus (Expr.mem x) rest r h follows = rw (Opens-mem (format_expr x (41 ∷ rest))) refl
not_minus (Expr.chr x) rest r h follows = rw (Opens-chr (format_expr x (41 ∷ rest))) refl
not_minus (Expr.asc x) rest r h follows = rw (Opens-asc (format_expr x (41 ∷ rest))) refl
not_minus (Expr.len x) rest r h follows = rw (Opens-len (format_expr x (41 ∷ rest))) refl
not_minus (Expr.mid x y z) rest r h follows =
    rw
      (Opens-mid
        (format_expr x (44 ∷ (32 ∷ format_expr y (44 ∷ (32 ∷ format_expr z (41 ∷ rest)))))))
      refl
not_minus (Expr.left x y) rest r h follows =
    rw (Opens-left (format_expr x (44 ∷ (32 ∷ format_expr y (41 ∷ rest))))) refl
not_minus (Expr.instr x y) rest r h follows =
    rw (Opens-instr (format_expr x (44 ∷ (32 ∷ format_expr y (41 ∷ rest))))) refl
not_minus (Expr.str x) rest r h follows = rw (Opens-str (format_expr x (41 ∷ rest))) refl
not_minus (Expr.val x) rest r h follows = rw (Opens-val (format_expr x (41 ∷ rest))) refl
not_minus (Expr.listen x y) rest r h follows =
    rw (Opens-listen (format_expr x (44 ∷ (32 ∷ format_expr y (41 ∷ rest))))) refl
not_minus (Expr.accept x) rest r h follows = rw (Opens-accept (format_expr x (41 ∷ rest))) refl
not_minus (Expr.recv x) rest r h follows = rw (Opens-recv (format_expr x (41 ∷ rest))) refl
not_minus (Expr.sockstate x) rest r h follows =
    rw (Opens-sockstate (format_expr x (41 ∷ rest))) refl
not_minus Expr.socket rest r h follows = rw (Opens-socket (41 ∷ rest)) refl
not_minus (Expr.array_access name x) rest r (hn, h) follows =
    rw (parser_of-name name (40 ∷ format_expr x (41 ∷ rest)) hn refl) refl

parser_of-minus : (rest : List ℕ) → parser_of (45 ∷ rest) ≡ at Token.minus rest
unfolding parser_of next_token token_at symbol
parser_of-minus rest = refl

module _ (expression : P Expr) (n : ℕ) (ih : ReadsBelow n expression) where
  primary_unary :
      (e : Expr) (rest : List ℕ)
      → nodes e ≤ n
      → rank e ≡ 4
      → IsFlat e
      → Follows rest
      → Reads (parse_unary expression) e rest
  unfolding parse_unary
  primary_unary e rest le r h follows =
      rw (not_minus e rest r h follows) (primary-reads expression n ih e rest le r h follows)

  pub unary-reads :
      (e : Expr) (rest : List ℕ)
      → nodes e ≤ n
      → 2 < rank e
      → IsFlat e
      → Follows rest
      → Reads (parse_unary expression) e rest
  unfolding parse_unary
  unary-reads (Expr.negate x) rest le r (h, primary) follows =
      unfold format_expr advance in
      simp (parser_of-minus, primary-reads expression n ih x rest (omega arith) primary h follows)
        refl
  unary-reads (Expr.binary_op l op r) rest le rk h follows = absurd (omega (arith, op_rank-le op))
  unary-reads (Expr.integer x) rest le r h follows =
      primary_unary (Expr.integer x) rest le refl h follows
  unary-reads (Expr.string_lit x) rest le r h follows =
      primary_unary (Expr.string_lit x) rest le refl h follows
  unary-reads (Expr.variable x) rest le r h follows =
      primary_unary (Expr.variable x) rest le refl h follows
  unary-reads (Expr.mem x) rest le r h follows = primary_unary (Expr.mem x) rest le refl h follows
  unary-reads (Expr.chr x) rest le r h follows = primary_unary (Expr.chr x) rest le refl h follows
  unary-reads (Expr.asc x) rest le r h follows = primary_unary (Expr.asc x) rest le refl h follows
  unary-reads (Expr.len x) rest le r h follows = primary_unary (Expr.len x) rest le refl h follows
  unary-reads (Expr.mid x y z) rest le r h follows =
      primary_unary (Expr.mid x y z) rest le refl h follows
  unary-reads (Expr.left x y) rest le r h follows =
      primary_unary (Expr.left x y) rest le refl h follows
  unary-reads (Expr.instr x y) rest le r h follows =
      primary_unary (Expr.instr x y) rest le refl h follows
  unary-reads (Expr.str x) rest le r h follows = primary_unary (Expr.str x) rest le refl h follows
  unary-reads (Expr.val x) rest le r h follows = primary_unary (Expr.val x) rest le refl h follows
  unary-reads (Expr.listen x y) rest le r h follows =
      primary_unary (Expr.listen x y) rest le refl h follows
  unary-reads (Expr.accept x) rest le r h follows =
      primary_unary (Expr.accept x) rest le refl h follows
  unary-reads (Expr.recv x) rest le r h follows = primary_unary (Expr.recv x) rest le refl h follows
  unary-reads (Expr.sockstate x) rest le r h follows =
      primary_unary (Expr.sockstate x) rest le refl h follows
  unary-reads Expr.socket rest le r h follows = primary_unary Expr.socket rest le refl h follows
  unary-reads (Expr.array_access name x) rest le r h follows =
      primary_unary (Expr.array_access name x) rest le refl h follows
