-- ===== src/Basic/Eval/Numbers.antt =====
-- VAL and STR$.
use ralph_os.Base.{◌≡◌, refl}
use ralph_os.Base.Int.{ℤ, IsI64}
use ralph_os.Net.Tcp.Table.{Tcp}
use ralph_os.Basic.Syntax.{Expr}
use ralph_os.Basic.Value.{integer, as_integer, as_string}
use ralph_os.Basic.Text.Numbers.{parse_int-format_int}
use ralph_os.Basic.Eval.{value, Variables, Host, eval_expr}

-- VAL(STR$(e)), for an expression e whose value is any 64-bit integer, the least one included, has
-- that value; what e did to the connections stays, and nothing else is done to them.
pub eval_expr-val_str :
    (host : Host) (variables : Variables) (e : Expr) (n : ℤ) (t t' : Tcp)
    → eval_expr host variables e t ≡ (value (integer n), t')
    → IsI64 n
    → eval_expr host variables (Expr.val (Expr.str e)) t ≡ (value (integer n), t')
unfolding eval_expr as_integer as_string
eval_expr-val_str host variables e n t t' answer small =
    rw (answer, parse_int-format_int n small) refl
