-- ===== src/Basic/Parser/Fuel.antt =====
-- The expressions' fuel.
use Prim.Native.String.{String}
use ralph_os.Base.{
  ℕ, zero, suc, ◌+◌, ◌≤◌, ◌<◌, ◌≡◌, inl, inr, refl, Bool, true, false, Option, none, some, arith,
  if◌then◌else◌, length, Option-cases, if_both,
}
use ralph_os.Basic.Lexer.{Token}
use ralph_os.Basic.Syntax.{Name, BinaryOp, Expr, ParseError}
use ralph_os.Basic.Parser.{
  Parser, Parsed, ok, failed, bind, P, ◌>>=◌, advance, is_lparen, is_minus, expect, take_token,
  comparison_op, additive_op, multiplicative_op, binary_loop, one_argument, two_arguments,
  three_arguments, name_or_element, primary_at, parse_primary, parse_unary, parse_multiplicative,
  parse_additive, parse_comparison, parse_expression,
}
use ralph_os.Basic.Parser.Size.{live, size, size-parser_of}

-- The fuel was enough, and a result leaves no more than `k`.
pub data Bounded {ℓ} {A : Type ℓ} (k : ℕ) : Parsed (A × Parser) → Type ℓ where
  value : {a : A} {p : Parser} → size p ≤ k → Bounded k (ok (a, p))
  error : {e : ParseError} → Bounded k (failed e)

module _ {ℓ} {A : Type ℓ} where
  pub Bounded-mono : {j k : ℕ} {r : Parsed (A × Parser)} → j ≤ k → Bounded j r → Bounded k r
  Bounded-mono le (value h) = value (omega arith)
  Bounded-mono le error = error

pub Bounded-bind {ℓ κ} :
    {A : Type ℓ} {B : Type κ} {k l : ℕ} {r : Parsed (A × Parser)}
    {f : A → Parser → Parsed (B × Parser)}
    → Bounded k r
    → ((a : A) (p : Parser) → size p ≤ k → Bounded l (f a p))
    → Bounded l (bind r f)
Bounded-bind (value {a} {p} h) g = g a p h
Bounded-bind error g = error

pub if_at {ℓ} :
    {A : Type ℓ} {k : ℕ} {p : Parser} (x y : P A) (b : Bool)
    → Bounded k (x p)
    → Bounded k (y p)
    → Bounded k ((if b then x else y) p)
if_at x y true h g = h
if_at x y false h g = g

-- A step that takes no more than is there, and one that begins behind the current token.
abbrev pub Safe {ℓ} : {A : Type ℓ} → ℕ → P A → Type ℓ
Safe k m = (p : Parser) → size p ≤ k → Bounded k (m p)

abbrev pub Begins {ℓ} : {A : Type ℓ} → ℕ → P A → Type ℓ
Begins k m = (p : Parser) → length p.lexer ≤ k → Bounded k (m p)

pub advance-Begins : (k : ℕ) → Begins k advance
unfolding advance
advance-Begins k p h = value (omega (arith, size-parser_of p.lexer))

pub advance-Safe : (k : ℕ) → Safe k advance
unfolding size
advance-Safe k p h = advance-Begins k p (omega arith)

pub expect-Safe : (k : ℕ) (test : Token → Bool) (text : String) → Safe k (expect test text)
unfolding expect
expect-Safe k test text p h = if_both (Bounded k) (test p.current) (advance-Safe k p h) error

pub take_token-Safe :
    {A : Type 0} (k : ℕ) (read : Token → Option A) (text : String) → Safe k (take_token read text)
unfolding take_token
take_token-Safe k read text p h = elim (Option-cases (read p.current)) [
  | inl e ↦ rw (e, take_token) error
  | inr (a, e) ↦ rw (e, take_token) (Bounded-bind (advance-Safe k p h) λ _ p' h'. value h')
]

one_argument-Begins :
    (k : ℕ) (expression : P Expr) (a b : String) (make : Expr → Expr)
    → Safe k expression
    → Begins k (one_argument expression a b make)
unfolding one_argument
one_argument-Begins k expression a b make safe p h = Bounded-bind (advance-Begins k p h) λ _ p h.
    Bounded-bind (expect-Safe k _ _ p h) λ _ p h.
      Bounded-bind (safe p h) λ _ p h. Bounded-bind (expect-Safe k _ _ p h) λ _ p h. value h

two_arguments-Begins :
    (k : ℕ) (expression : P Expr) (a b c : String) (make : Expr → Expr → Expr)
    → Safe k expression
    → Begins k (two_arguments expression a b c make)
unfolding two_arguments
two_arguments-Begins k expression a b c make safe p h = Bounded-bind (advance-Begins k p h) λ _ p h.
    Bounded-bind (expect-Safe k _ _ p h) λ _ p h. Bounded-bind (safe p h) λ _ p h.
      Bounded-bind (expect-Safe k _ _ p h) λ _ p h.
        Bounded-bind (safe p h) λ _ p h. Bounded-bind (expect-Safe k _ _ p h) λ _ p h. value h

three_arguments-Begins :
    (k : ℕ) (expression : P Expr) → Safe k expression → Begins k (three_arguments expression)
unfolding three_arguments
three_arguments-Begins k expression safe p h = Bounded-bind (advance-Begins k p h) λ _ p h.
    Bounded-bind (expect-Safe k _ _ p h) λ _ p h. Bounded-bind (safe p h) λ _ p h.
      Bounded-bind (expect-Safe k _ _ p h) λ _ p h. Bounded-bind (safe p h) λ _ p h.
        Bounded-bind (expect-Safe k _ _ p h) λ _ p h.
          Bounded-bind (safe p h) λ _ p h. Bounded-bind (expect-Safe k _ _ p h) λ _ p h. value h

name_or_element-Begins :
    (k : ℕ) (expression : P Expr) (name : Name)
    → Safe k expression
    → Begins k (name_or_element expression name)
unfolding name_or_element
name_or_element-Begins k expression name safe p h = Bounded-bind (advance-Begins k p h) λ _ p h.
    if_at _ _ (is_lparen p.current)
      (Bounded-bind (advance-Safe k p h) λ _ p h.
        Bounded-bind (safe p h) λ _ p h. Bounded-bind (expect-Safe k _ _ p h) λ _ p h. value h)
      (value h)

primary_at-Bounded :
    (k : ℕ) (expression : P Expr) (t : Token) (p : Parser)
    → Safe k expression
    → length p.lexer + live t ≤ suc k
    → Bounded k (primary_at expression t p)
unfolding primary_at
primary_at-Bounded k expression (Token.integer n) p safe h =
    Bounded-bind (advance-Begins k p (omega arith)) λ _ p h. value h
primary_at-Bounded k expression (Token.string_lit s) p safe h =
    Bounded-bind (advance-Begins k p (omega arith)) λ _ p h. value h
primary_at-Bounded k expression (Token.identifier name) p safe h =
    name_or_element-Begins k expression name safe p (omega arith)
primary_at-Bounded k expression Token.mem p safe h =
    one_argument-Begins k expression _ _ Expr.mem safe p (omega arith)
primary_at-Bounded k expression Token.chr p safe h =
    one_argument-Begins k expression _ _ Expr.chr safe p (omega arith)
primary_at-Bounded k expression Token.asc p safe h =
    one_argument-Begins k expression _ _ Expr.asc safe p (omega arith)
primary_at-Bounded k expression Token.len p safe h =
    one_argument-Begins k expression _ _ Expr.len safe p (omega arith)
primary_at-Bounded k expression Token.mid p safe h =
    three_arguments-Begins k expression safe p (omega arith)
primary_at-Bounded k expression Token.left p safe h =
    two_arguments-Begins k expression _ _ _ Expr.left safe p (omega arith)
primary_at-Bounded k expression Token.instr p safe h =
    two_arguments-Begins k expression _ _ _ Expr.instr safe p (omega arith)
primary_at-Bounded k expression Token.str p safe h =
    one_argument-Begins k expression _ _ Expr.str safe p (omega arith)
primary_at-Bounded k expression Token.val p safe h =
    one_argument-Begins k expression _ _ Expr.val safe p (omega arith)
primary_at-Bounded k expression Token.socket p safe h =
    Bounded-bind (advance-Begins k p (omega arith)) λ _ p h.
      Bounded-bind (expect-Safe k _ _ p h)
        λ _ p h. Bounded-bind (expect-Safe k _ _ p h) λ _ p h. value h
primary_at-Bounded k expression Token.net_listen p safe h =
    two_arguments-Begins k expression _ _ _ Expr.listen safe p (omega arith)
primary_at-Bounded k expression Token.accept p safe h =
    one_argument-Begins k expression _ _ Expr.accept safe p (omega arith)
primary_at-Bounded k expression Token.recv p safe h =
    one_argument-Begins k expression _ _ Expr.recv safe p (omega arith)
primary_at-Bounded k expression Token.sockstate p safe h =
    one_argument-Begins k expression _ _ Expr.sockstate safe p (omega arith)
primary_at-Bounded k expression Token.lparen p safe h =
    Bounded-bind (advance-Begins k p (omega arith)) λ _ p h.
      Bounded-bind (safe p h) λ _ p h. Bounded-bind (expect-Safe k _ _ p h) λ _ p h. value h
primary_at-Bounded k expression _ p safe h = error

-- An expression that nests is safe as far as less is left.
abbrev SafeBelow : ℕ → P Expr → Type 0
SafeBelow k expression = (j : ℕ) → j < k → Safe j expression

primary_at-end :
    (expression : P Expr) (t : Token) (p : Parser)
    → live t ≤ 0
    → Bounded zero (primary_at expression t p)
unfolding primary_at
primary_at-end expression Token.eof p h = error
primary_at-end expression _ p h = absurd (omega arith)

primary-Safe :
    (k : ℕ) (expression : P Expr) → SafeBelow k expression → Safe k (parse_primary expression)
unfolding parse_primary size
primary-Safe zero expression safe p h = primary_at-end expression p.current p (omega arith)
primary-Safe (suc k) expression safe p h =
    Bounded-mono {j = k} (omega arith)
      (primary_at-Bounded k expression p.current p (safe k (omega arith)) (omega arith))

unary-Safe :
    (k : ℕ) (expression : P Expr) → SafeBelow k expression → Safe k (parse_unary expression)
unfolding parse_unary
unary-Safe k expression safe p h =
    if_both (Bounded k) (is_minus p.current)
      (Bounded-bind (advance-Safe k p h)
        λ _ p h. Bounded-bind (primary-Safe k expression safe p h) λ _ p h. value h)
      (primary-Safe k expression safe p h)

-- An operator is a token, so that a round of the loop takes some input.
abbrev IsOperator : (Token → Option BinaryOp) → Type 0
IsOperator op_of = op_of Token.eof ≡ none

operator-live :
    (op_of : Token → Option BinaryOp) (t : Token) (op : BinaryOp)
    → IsOperator op_of
    → op_of t ≡ some op
    → live t ≡ 1
operator-live op_of Token.eof op h e = cc
operator-live op_of _ op h e = refl

loop-Safe :
    (f k : ℕ) (op_of : Token → Option BinaryOp) (operand : P Expr) (l : Expr)
    → k < f
    → IsOperator op_of
    → ((j : ℕ) → j ≤ k → Safe j operand)
    → Safe k (binary_loop f op_of operand l)
unfolding binary_loop
loop-Safe zero k op_of operand l lt h safe p b = absurd (omega arith)
loop-Safe (suc f) zero op_of operand l lt h safe p b = elim (Option-cases (op_of p.current)) [
  | inl e ↦ rw (e, binary_loop) (value b)
  | inr (op, e) ↦ absurd (unfold size in omega (arith, operator-live op_of p.current op h e))
]
loop-Safe (suc f) (suc k) op_of operand l lt h safe p b = elim (Option-cases (op_of p.current)) [
  | inl e ↦ rw (e, binary_loop) (value b)
  | inr (op, e) ↦
      let s : length p.lexer ≤ k =
        unfold size in omega (arith, operator-live op_of p.current op h e) in
      rw (e, binary_loop)
        (Bounded-bind (Bounded-bind (advance-Begins k p s) (λ _ p b. safe k (omega arith) p b))
          (λ r p b. Bounded-mono {j = k} (omega arith) (
            loop-Safe f k op_of operand (Expr.binary_op l op r) (omega arith) h
              (λ j le. safe j (omega arith)) p b)))
]

-- A step is safe for all that is no more than `k`.
abbrev SafeTo : ℕ → P Expr → Type 0
SafeTo k m = (j : ℕ) → j ≤ k → Safe j m

module _ (f k : ℕ) (lt : k < f) where
  level-SafeTo :
      (op_of : Token → Option BinaryOp) (operand : P Expr)
      → IsOperator op_of
      → SafeTo k operand
      → SafeTo k (do l ← operand; binary_loop f op_of operand l)
  level-SafeTo op_of operand h safe j le p b =
      Bounded-bind (safe j le p b)
        λ l p b. loop-Safe f j op_of operand l (omega arith) h (λ i b. safe i (omega arith)) p b

  comparison-Safe :
      (expression : P Expr) → SafeBelow k expression → Safe k (parse_comparison expression f)
  unfolding parse_comparison parse_additive parse_multiplicative
  comparison-Safe expression safe =
      let unary : SafeTo k (parse_unary expression) =
        λ j le. unary-Safe j expression (λ i b. safe i (omega arith)) in
      let multiplicative = level-SafeTo multiplicative_op (parse_unary expression) refl unary in
      let additive =
        level-SafeTo additive_op (parse_multiplicative expression f) refl multiplicative in
      level-SafeTo comparison_op (parse_additive expression f) refl additive k (omega arith)

pub parse_expression-Safe : (f k : ℕ) → k < f → Safe k (parse_expression f)
unfolding parse_expression
parse_expression-Safe zero k lt p h = absurd (omega arith)
parse_expression-Safe (suc f) k lt p h =
    comparison-Safe (suc f) k lt (parse_expression f)
      (λ j b. parse_expression-Safe f j (omega arith)) p h
