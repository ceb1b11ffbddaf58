-- ===== src/Basic/Format/Primary.antt =====
-- Reading what a primary expression is listed as.
use Prim.Native.String.{String}
use ralph_os.Base.{ℕ, ◌≤◌, ◌<◌, ◌≡◌, refl, List, ◌∷◌, arith}
use ralph_os.Basic.Lexer.{Token}
use ralph_os.Basic.Syntax.{Name, BinaryOp, Expr}
use ralph_os.Basic.Format.{format_expr}
use ralph_os.Basic.Format.Needs.{op_rank, IsFlat, rank, nodes}
use ralph_os.Basic.Parser.{
  ok, P, parser_of, advance, expect, one_argument, two_arguments, three_arguments, name_or_element,
  primary_at, parse_primary,
}
use ralph_os.Basic.Format.Tokens.{
  Follows, FollowsAll, FollowsAll-comma, FollowsAll-rparen, Opens-accept, Opens-asc, Opens-chr,
  Opens-instr, Opens-left, Opens-len, Opens-listen, Opens-mem, Opens-mid, Opens-recv, Opens-socket,
  Opens-sockstate, Opens-str, Opens-val, at, parser_of-blank, parser_of-comma, parser_of-decimal,
  parser_of-lparen, parser_of-name, parser_of-rparen, parser_of-string,
}

-- `e` is read off the front of its text.
abbrev pub Reads : P Expr → Expr → List ℕ → Type 0
Reads m e rest = m (parser_of (format_expr e rest)) ≡ ok (e, parser_of rest)

module _ (expression : P Expr) where
  one_argument-reads :
      (x : Expr) (a b : String) (make : Expr → Expr) (t : Token) (rest : List ℕ)
      → Reads expression x (41 ∷ rest)
      → one_argument expression a b make (at t (40 ∷ format_expr x (41 ∷ rest)))
        ≡ ok (make x, parser_of rest)
  unfolding one_argument advance expect
  one_argument-reads x a b make t rest h = simp (parser_of-lparen, h, parser_of-rparen)

  two_arguments-reads :
      (x y : Expr) (a b c : String) (make : Expr → Expr → Expr) (t : Token) (rest : List ℕ)
      → Reads expression x (44 ∷ (32 ∷ format_expr y (41 ∷ rest)))
      → Reads expression y (41 ∷ rest)
      → two_arguments expression a b c make
          (at t (40 ∷ format_expr x (44 ∷ (32 ∷ format_expr y (41 ∷ rest)))))
        ≡ ok (make x y, parser_of rest)
  unfolding two_arguments advance expect
  two_arguments-reads x y a b c make t rest h g =
      simp (parser_of-lparen, h, parser_of-comma, parser_of-blank, g, parser_of-rparen)

  three_arguments-reads :
      (x y z : Expr) (t : Token) (rest : List ℕ)
      → Reads expression x (44 ∷ (32 ∷ format_expr y (44 ∷ (32 ∷ format_expr z (41 ∷ rest)))))
      → Reads expression y (44 ∷ (32 ∷ format_expr z (41 ∷ rest)))
      → Reads expression z (41 ∷ rest)
      → three_arguments expression (
          at t (
            40 ∷ format_expr x (44 ∷ (32 ∷ format_expr y (44 ∷ (32 ∷ format_expr z (41 ∷ rest)))))))
        ≡ ok (Expr.mid x y z, parser_of rest)
  unfolding three_arguments advance expect
  three_arguments-reads x y z t rest h g k =
      simp (parser_of-lparen, h, parser_of-comma, parser_of-blank, g, k, parser_of-rparen)

  element-reads :
      (name : Name) (x : Expr) (t : Token) (rest : List ℕ)
      → Reads expression x (41 ∷ rest)
      → name_or_element expression name (at t (40 ∷ format_expr x (41 ∷ rest)))
        ≡ ok (Expr.array_access name x, parser_of rest)
  unfolding name_or_element advance expect
  element-reads name x t rest h = simp (parser_of-lparen, h, parser_of-rparen)

  variable-reads :
      (name : Name) (t : Token) (rest : List ℕ)
      → Follows rest
      → name_or_element expression name (at t rest) ≡ ok (Expr.variable name, parser_of rest)
  unfolding name_or_element advance
  variable-reads name t rest h = rw (h.1) refl

op_rank-ne_4 : (op : BinaryOp) → op_rank op ≡ 4 → ⊥
op_rank-ne_4 BinaryOp.add h = omega arith
op_rank-ne_4 _ h = omega arith

abbrev pub ReadsBelow : ℕ → P Expr → Type 0
ReadsBelow n expression =
    (x : Expr) (rest : List ℕ) → nodes x < n → IsFlat x → FollowsAll rest → Reads expression x rest

module _ (expression : P Expr) (n : ℕ) (ih : ReadsBelow n expression) where
  -- The arguments of a call, in front of the parenthesis or of a comma.
  last : (x : Expr) (rest : List ℕ) → nodes x < n → IsFlat x → Reads expression x (41 ∷ rest)
  last x rest lt h = ih x (41 ∷ rest) lt h (FollowsAll-rparen rest)

  inner : (x : Expr) (rest : List ℕ) → nodes x < n → IsFlat x → Reads expression x (44 ∷ rest)
  inner x rest lt h = ih x (44 ∷ rest) lt h (FollowsAll-comma rest)

  pub primary-reads :
      (e : Expr) (rest : List ℕ)
      → nodes e ≤ n
      → rank e ≡ 4
      → IsFlat e
      → Follows rest
      → Reads (parse_primary expression) e rest
  unfolding format_expr parse_primary primary_at advance expect
  primary-reads (Expr.integer k) rest le r h follows =
      simp (parser_of-decimal k rest h follows.0) refl
  primary-reads (Expr.string_lit s) rest le r h follows = simp (parser_of-string s rest h) refl
  primary-reads (Expr.variable name) rest le r h follows =
      rw (parser_of-name name rest h follows.0)
        (variable-reads expression name (Token.identifier name) rest follows)
  primary-reads (Expr.binary_op l op r) rest le rk h follows = absurd (op_rank-ne_4 op rk)
  primary-reads (Expr.negate e) rest le r h follows = absurd (omega arith)
  primary-reads (Expr.mem x) rest le r h follows =
      rw (Opens-mem (format_expr x (41 ∷ rest)))
        (one_argument-reads expression x _ _ Expr.mem Token.mem rest (last x rest (omega arith) h))
  primary-reads (Expr.chr x) rest le r h follows =
      rw (Opens-chr (format_expr x (41 ∷ rest)))
        (one_argument-reads expression x _ _ Expr.chr Token.chr rest (last x rest (omega arith) h))
  primary-reads (Expr.asc x) rest le r h follows =
      rw (Opens-asc (format_expr x (41 ∷ rest)))
        (one_argument-reads expression x _ _ Expr.asc Token.asc rest (last x rest (omega arith) h))
  primary-reads (Expr.len x) rest le r h follows =
      rw (Opens-len (format_expr x (41 ∷ rest)))
        (one_argument-reads expression x _ _ Expr.len Token.len rest (last x rest (omega arith) h))
  primary-reads (Expr.mid x y z) rest le r (hx, hy, hz) follows =
      let tail = 32 ∷ format_expr z (41 ∷ rest) in
      rw (Opens-mid (format_expr x (44 ∷ (32 ∷ format_expr y (44 ∷ tail))))) (
        three_arguments-reads expression x y z Token.mid rest
          (inner x (32 ∷ format_expr y (44 ∷ tail)) (omega arith) hx)
          (inner y tail (omega arith) hy) (last z rest (omega arith) hz))
  primary-reads (Expr.left x y) rest le r (hx, hy) follows =
      rw (Opens-left (format_expr x (44 ∷ (32 ∷ format_expr y (41 ∷ rest))))) (
        two_arguments-reads expression x y _ _ _ Expr.left Token.left rest
          (inner x (32 ∷ format_expr y (41 ∷ rest)) (omega arith) hx)
          (last y rest (omega arith) hy))
  primary-reads (Expr.instr x y) rest le r (hx, hy) follows =
      rw (Opens-instr (format_expr x (44 ∷ (32 ∷ format_expr y (41 ∷ rest))))) (
        two_arguments-reads expression x y _ _ _ Expr.instr Token.instr rest
          (inner x (32 ∷ format_expr y (41 ∷ rest)) (omega arith) hx)
          (last y rest (omega arith) hy))
  primary-reads (Expr.str x) rest le r h follows =
      rw (Opens-str (format_expr x (41 ∷ rest)))
        (one_argument-reads expression x _ _ Expr.str Token.str rest (last x rest (omega arith) h))
  primary-reads (Expr.val x) rest le r h follows =
      rw (Opens-val (format_expr x (41 ∷ rest)))
        (one_argument-reads expression x _ _ Expr.val Token.val rest (last x rest (omega arith) h))
  primary-reads (Expr.listen x y) rest le r (hx, hy) follows =
      rw (Opens-listen (format_expr x (44 ∷ (32 ∷ format_expr y (41 ∷ rest))))) (
        two_arguments-reads expression x y _ _ _ Expr.listen Token.net_listen rest
          (inner x (32 ∷ format_expr y (41 ∷ rest)) (omega arith) hx)
          (last y rest (omega arith) hy))
  primary-reads (Expr.accept x) rest le r h follows =
      rw (Opens-accept (format_expr x (41 ∷ rest))) (
        one_argument-reads expression x _ _ Expr.accept Token.accept rest
          (last x rest (omega arith) h))
  primary-reads (Expr.recv x) rest le r h follows =
      rw (Opens-recv (format_expr x (41 ∷ rest))) (
        one_argument-reads expression x _ _ Expr.recv Token.recv rest (last x rest (omega arith) h))
  primary-reads (Expr.sockstate x) rest le r h follows =
      rw (Opens-sockstate (format_expr x (41 ∷ rest))) (
        one_argument-reads expression x _ _ Expr.sockstate Token.sockstate rest
          (last x rest (omega arith) h))
  primary-reads Expr.socket rest le r h follows =
      rw (Opens-socket (41 ∷ rest)) (simp (parser_of-lparen, parser_of-rparen) refl)
  primary-reads (Expr.array_access name x) rest le r (hn, h) follows =
      rw (parser_of-name name (40 ∷ format_expr x (41 ∷ rest)) hn refl)
        (element-reads expression name x (Token.identifier name) rest (last x rest (omega arith) h))
