-- ===== src/Basic/Format/Expressions.antt =====
-- An expression that needs no parentheses is read back from its listing.
use ralph_os.Base.{ℕ, zero, suc, ◌≤◌, ◌<◌, ◌≡◌, refl, none, some, List, arith}
use ralph_os.Basic.Syntax.{BinaryOp, Expr}
use ralph_os.Basic.Format.Needs.{op_rank, IsFlat, nodes}
use ralph_os.Basic.Format.Tokens.{Follows, NoOp, FollowsAll}
use ralph_os.Basic.Format.Primary.{Reads, ReadsBelow}
use ralph_os.Basic.Format.Unary.{unary-reads}
use ralph_os.Basic.Format.Levels.{op_token, parser_of-format_op, blank_op, IsLevel, level-reads}
use ralph_os.Basic.Parser.{
  P, comparison_op, additive_op, multiplicative_op, parse_unary, parse_multiplicative,
  parse_additive, parse_comparison, parse_expression,
}

-- Which operators a level takes.
multiplicative_reads : (op : BinaryOp) → op_rank op ≡ 2 → multiplicative_op (op_token op) ≡ some op
multiplicative_reads BinaryOp.mul h = refl
multiplicative_reads BinaryOp.div h = refl
multiplicative_reads _ h = absurd (omega arith)

additive_reads : (op : BinaryOp) → op_rank op ≡ 1 → additive_op (op_token op) ≡ some op
additive_reads BinaryOp.add h = refl
additive_reads BinaryOp.sub h = refl
additive_reads _ h = absurd (omega arith)

comparison_reads : (op : BinaryOp) → op_rank op ≡ 0 → comparison_op (op_token op) ≡ some op
comparison_reads BinaryOp.mul h = absurd (omega arith)
comparison_reads BinaryOp.div h = absurd (omega arith)
comparison_reads BinaryOp.add h = absurd (omega arith)
comparison_reads BinaryOp.sub h = absurd (omega arith)
comparison_reads _ h = refl

not_multiplicative : (op : BinaryOp) → op_rank op < 2 → multiplicative_op (op_token op) ≡ none
not_multiplicative BinaryOp.mul h = absurd (omega arith)
not_multiplicative BinaryOp.div h = absurd (omega arith)
not_multiplicative _ h = refl

not_additive : (op : BinaryOp) → op_rank op < 1 → additive_op (op_token op) ≡ none
not_additive BinaryOp.add h = absurd (omega arith)
not_additive BinaryOp.sub h = absurd (omega arith)
not_additive _ h = refl

abbrev AboveAdditive : List ℕ → Type 0
AboveAdditive rest = Follows rest × NoOp multiplicative_op rest

abbrev AboveComparison : List ℕ → Type 0
AboveComparison rest = Follows rest × NoOp multiplicative_op rest × NoOp additive_op rest

module _ (f : ℕ) (expression : P Expr) (ih : ReadsBelow f expression) where
  multiplicative-IsLevel : IsLevel 2 f multiplicative_op (parse_unary expression) Follows
  multiplicative-IsLevel = record {
    low = omega arith;
    reads_op = multiplicative_reads;
    tight = λ op rest _. blank_op op rest;
    reads_operand = unary-reads expression f ih;
  }

  additive-IsLevel : IsLevel 1 f additive_op (parse_multiplicative expression (suc f)) AboveAdditive
  unfolding parse_multiplicative
  additive-IsLevel = record {
    low = omega arith;
    reads_op = additive_reads;
    tight = λ op rest e.
        (blank_op op rest, rw (parser_of-format_op op rest) (not_multiplicative op (omega arith)));
    reads_operand = λ e rest le lv h t.
        level-reads 2 f multiplicative_op (parse_unary expression) Follows multiplicative-IsLevel e
          rest (suc f) (omega arith) le lv h t.0 t.1;
  }

  comparison-IsLevel : IsLevel 0 f comparison_op (parse_additive expression (suc f)) AboveComparison
  unfolding parse_additive
  comparison-IsLevel = record {
    low = omega arith;
    reads_op = comparison_reads;
    tight = λ op rest e. (
      blank_op op rest,
      rw (parser_of-format_op op rest) (not_multiplicative op (omega arith)),
      rw (parser_of-format_op op rest) (not_additive op (omega arith)),
    );
    reads_operand = λ e rest le lv h t.
        level-reads 1 f additive_op (parse_multiplicative expression (suc f)) AboveAdditive
          additive-IsLevel e rest (suc f) (omega arith) le lv h (t.0, t.1) t.2;
  }

  comparison-reads :
      (e : Expr) (rest : List ℕ)
      → nodes e ≤ f
      → IsFlat e
      → FollowsAll rest
      → Reads (parse_comparison expression (suc f)) e rest
  unfolding parse_comparison
  comparison-reads e rest le h t =
      level-reads 0 f comparison_op (parse_additive expression (suc f)) AboveComparison
        comparison-IsLevel e rest (suc f) (omega arith) le (omega arith) h (t.0, t.1, t.2) t.3

pub parse_expression-reads : (f : ℕ) → ReadsBelow f (parse_expression f)
unfolding parse_expression
parse_expression-reads zero e rest lt h t = absurd (omega arith)
parse_expression-reads (suc f) e rest lt h t =
    comparison-reads f (parse_expression f) (parse_expression-reads f) e rest (omega arith) h t
