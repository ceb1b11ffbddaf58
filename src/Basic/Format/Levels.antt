-- ===== src/Basic/Format/Levels.antt =====
-- One level of operators.
use ralph_os.Base.{
  ℕ, suc, ◌+◌, ◌-◌, ◌≤◌, ◌<◌, ◌≡◌, refl, ap, ◌∙◌, false, Option, some, List, ◌∷◌, arith,
  if◌then◌else◌, inl, inr, Bool-cases, ◌==◌,
}
use ralph_os.Basic.Lexer.{Token, is_word, next_token, token_at, symbol}
use ralph_os.Basic.Lexer.Print.{Stops}
use ralph_os.Basic.Syntax.{BinaryOp, Expr}
use ralph_os.Basic.Format.{format_op, format_expr}
use ralph_os.Basic.Format.Needs.{op_rank, IsFlat, rank, nodes}
use ralph_os.Basic.Format.Tokens.{at, parser_of-blank, Follows, NoOp}
use ralph_os.Basic.Format.Primary.{Reads}
use ralph_os.Basic.Parser.{ok, P, ◌>>=◌, parser_of, advance, is_lparen, binary_loop}

abbrev pub op_token : BinaryOp → Token
op_token BinaryOp.add = Token.plus
op_token BinaryOp.sub = Token.minus
op_token BinaryOp.mul = Token.star
op_token BinaryOp.div = Token.slash
op_token BinaryOp.eq = Token.eq
op_token BinaryOp.ne = Token.ne
op_token BinaryOp.lt = Token.lt
op_token BinaryOp.gt = Token.gt
op_token BinaryOp.le = Token.le
op_token BinaryOp.ge = Token.ge

pub parser_of-format_op :
    (op : BinaryOp) (rest : List ℕ) → parser_of (format_op op rest) ≡ at (op_token op) (32 ∷ rest)
unfolding format_op parser_of next_token token_at symbol
parser_of-format_op BinaryOp.add rest = refl
parser_of-format_op _ rest = refl

-- The text of an operator begins with a blank.
pub blank_op : (op : BinaryOp) (rest : List ℕ) → Follows (format_op op rest)
blank_op op rest = (first op, rw (parser_of-format_op op rest) (no_paren op))
  where
    first : (op : BinaryOp) → Stops is_word (format_op op rest)
    first BinaryOp.add = unfold format_op in refl
    first _ = unfold format_op in refl

    no_paren : (op : BinaryOp) → is_lparen (op_token op) ≡ false
    no_paren BinaryOp.add = refl
    no_paren _ = refl

-- How many operators of the level stand in a row.
abbrev spine : ℕ → Expr → ℕ
spine level (Expr.binary_op l op r) =
    let rest = spine level l in if op_rank op == level then suc rest else 0
spine level _ = 0

spine-le-nodes : (level : ℕ) (e : Expr) → spine level e ≤ nodes e
spine-le-nodes level (Expr.binary_op l op r) = ground (arith, spine-le-nodes level l)
spine-le-nodes level _ = omega arith

-- The level reads its operators, and an operand reads what binds more tightly, in front of `Tight`.
pub record IsLevel (level n : ℕ) (op_of : Token → Option BinaryOp) (operand : P Expr)
    (Tight : List ℕ → Type 0) : Type 0 where
  pub low : level < 3
  pub reads_op : (op : BinaryOp) → op_rank op ≡ level → op_of (op_token op) ≡ some op
  pub tight : (op : BinaryOp) (rest : List ℕ) → op_rank op ≡ level → Tight (format_op op rest)
  pub reads_operand :
      (e : Expr) (rest : List ℕ)
      → nodes e ≤ n
      → level < rank e
      → IsFlat e
      → Tight rest
      → Reads operand e rest

module _ (level n : ℕ) (op_of : Token → Option BinaryOp) (operand : P Expr)
    (Tight : List ℕ → Type 0) (is_level : IsLevel level n op_of operand Tight) where
  open is_level use {low, reads_op, tight, reads_operand}

  abbrev pub level_of : ℕ → P Expr
  level_of f = do l ← operand; binary_loop f op_of operand l

  -- An operand on its own.
  single :
      (e : Expr) (rest : List ℕ) (f g : ℕ)
      → f ≡ g
      → nodes e ≤ n
      → level < rank e
      → IsFlat e
      → Tight rest
      → level_of f (parser_of (format_expr e rest)) ≡ binary_loop g op_of operand e (parser_of rest)
  single e rest f g same le lt h t =
      rw (reads_operand e rest le lt h t)
        (ap (λ k. binary_loop k op_of operand e (parser_of rest)) same)

  -- Behind the left side, the operator and the right side.
  joined :
      (l : Expr) (op : BinaryOp) (r : Expr) (rest : List ℕ) (g : ℕ)
      → nodes r ≤ n
      → op_rank op ≡ level
      → op_rank op < rank r
      → IsFlat r
      → Tight rest
      → binary_loop (suc g) op_of operand l (parser_of (format_op op (format_expr r rest)))
        ≡ binary_loop g op_of operand (Expr.binary_op l op r) (parser_of rest)
  unfolding binary_loop advance
  joined l op r rest g le same lt h t = rw (parser_of-format_op op (format_expr r rest)) (
      rw (reads_op op same, binary_loop)
        (rw (parser_of-blank (format_expr r rest), reads_operand r rest le (omega arith) h t) refl))

  loop-reads :
      (e : Expr) (rest : List ℕ) (f g : ℕ)
      → f ≡ spine level e + g
      → nodes e ≤ n
      → level ≤ rank e
      → IsFlat e
      → Tight rest
      → level_of f (parser_of (format_expr e rest)) ≡ binary_loop g op_of operand e (parser_of rest)
  unfolding format_expr
  loop-reads (Expr.binary_op l op r) rest f g same le lv h t =
      elim (Bool-cases (op_rank op == level)) [
        | inl e ↦
            let here : op_rank op ≡ level = ground (arith, e) in
            loop-reads l (format_op op (format_expr r rest)) f (suc g) (ground (arith, same, e))
              (omega arith) (omega arith) h.0 (tight op (format_expr r rest) here)
            ∙ joined l op r rest g (omega arith) here h.3 h.1 t
        | inr e ↦
            single (Expr.binary_op l op r) rest f g (ground (arith, same, e)) le (ground (arith, e))
              h t
      ]
  loop-reads e rest f g same le lv h t = single e rest f g (omega arith) le (omega arith) h t

  -- With more rounds than operators in a row, the loop ends where no operator of the level follows.
  pub level-reads :
      (e : Expr) (rest : List ℕ) (f : ℕ)
      → nodes e < f
      → nodes e ≤ n
      → level ≤ rank e
      → IsFlat e
      → Tight rest
      → NoOp op_of rest
      → level_of f (parser_of (format_expr e rest)) ≡ ok (e, parser_of rest)
  unfolding binary_loop
  level-reads e rest f enough le lv h t ends =
      loop-reads e rest f (suc (f - spine level e - 1)) (omega (arith, spine-le-nodes level e)) le
        lv h t
      ∙ rw (ends, binary_loop) refl
