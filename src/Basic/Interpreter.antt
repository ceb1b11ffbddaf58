-- ===== src/Basic/Interpreter.antt =====
-- The statements of src/basic/interpreter.rs.
pub mod Loops
use Prim.Native.String.{String}
use ralph_os.Base.{
  ℕ, zero, suc, ◌+◌, ◌-◌, ◌*◌, ◌%◌, ◌^◌, Bool, true, false, not, ◌&&◌, ◌||◌, Option, none, some,
  List, [], ◌∷◌, ◌++◌, map, ltb, leb, ◌==◌, if◌then◌else◌, length, get_elem?, set, replicate,
}
use ralph_os.Base.Int.{ℤ, pos, ◌+ℤ◌, ltb_ℤ, leb_ℤ, bits64, wrap64}
use ralph_os.Base.Text.{codes}
use ralph_os.Net.Env.{Env, Sent}
use ralph_os.Net.Tcp.Table
use ralph_os.Net.Tcp.Table.{Tcp}
use ralph_os.Basic.Lexer.{word_eq}
use ralph_os.Basic.Syntax.{Name, Expr, Statement, ParseError}
use ralph_os.Basic.Parser
use ralph_os.Basic.Parser.{Parsed, Parser, parser_of}
use ralph_os.Basic.Parser.Statements.{parse_line}
use ralph_os.Basic.Format.{decimal, format_line}
use ralph_os.Basic.Utf8.{encode}
use ralph_os.Basic.Value.{
  Value, integer, string, int_array, string_array, as_integer, as_string, is_truthy, display,
}
use ralph_os.Basic.Eval.{
  RunError, message, next_without_for, array_not_found, out_of_bounds, line_not_found, spawn_failed,
  Result, value, error, panic, E, ok_or, Variables, get, insert, Host, eval_expr,
}

pub record ForState : Type 0 where
  pub var : Name
  pub end_value : ℤ
  pub step : ℤ
  pub body_line : ℕ

-- What statements work on: the variables, the two stacks with the latest entry first, the text that
-- was written, and the network.
pub record Machine : Type 0 where
  pub variables : Variables
  pub for_stack : List ForState
  pub return_stack : List ℕ
  pub out : List ℕ
  pub tcp : Tcp
  pub sent : Sent

pub data NextAction : Type 0 where
  continue : NextAction
  jump jump_to_index sleep_for : ℕ → NextAction
  stop : NextAction

abbrev pub X {ℓ} : Type ℓ → Type ℓ
X A = Machine → Result A × Machine

abbrev pub pure {ℓ} : {A : Type ℓ} → A → X A
pure a m = (value a, m)

abbrev pub fail {ℓ} : {A : Type ℓ} → RunError → X A
fail e m = (error e, m)

abbrev pub after {ℓ κ} :
    {A : Type ℓ} {B : Type κ} → Result A × Machine → (A → X B) → Result B × Machine
after (value a, m) k = k a m
after (error e, m) k = (error e, m)
after (panic, m) k = (panic, m)

infixl 1 ◌>>=◌ ◌>>◌
abbrev pub ◌>>=◌ {ℓ κ} : {A : Type ℓ} {B : Type κ} → X A → (A → X B) → X B
m >>= k = λ s. after (m s) k

abbrev pub ◌>>◌ {ℓ κ} : {A : Type ℓ} {B : Type κ} → X A → X B → X B
m >> k = m >>= λ _. k

abbrev pub write : List ℕ → X (Unit {0})
write text m = (value tt, record m { out = m.out ++ text })

abbrev pub store : Name → Value → X (Unit {0})
store name v m = (value tt, record m { variables = insert name v m.variables })

abbrev pub some_or : {A : Type 0} → Option A → RunError → X A
some_or (some a) e = pure a
some_or none e = fail e

-- The latest entry for a variable.
unfoldable pub find_loop : Name → List ForState → Option ForState
find_loop var [] = none
find_loop var (f ∷ rest) = if word_eq f.var var then some f else find_loop var rest

unfoldable pub remove_loop : Name → List ForState → List ForState
remove_loop var [] = []
remove_loop var (f ∷ rest) = if word_eq f.var var then rest else f ∷ remove_loop var rest

-- The first line number above the current one, or the current one.
unfoldable pub line_after : ℕ → List ℕ → ℕ
line_after current [] = current
line_after current (n ∷ rest) = if ltb current n then n else line_after current rest

-- `ends_with('$')`
abbrev pub ends_with_dollar : Name → Bool
ends_with_dollar [] = false
ends_with_dollar (c ∷ []) = c == 36
ends_with_dollar (c ∷ d ∷ cs) = ends_with_dollar (d ∷ cs)

-- `vec![…; count]` with entries of `width` bytes: too many of them, or no room in the heap, is a
-- panic.
abbrev pub can_hold : (ℕ → Bool) → ℕ → ℕ → Bool
can_hold can_allocate width count =
    (count == 0) || (ltb (count * width) (2 ^ 63) && can_allocate (count * width))

abbrev pub string_or_empty : Option (List ℕ) → List ℕ
string_or_empty (some s) = s
string_or_empty none = []

abbrev pub int_or_zero : Option ℤ → ℤ
int_or_zero (some n) = n
int_or_zero none = pos 0

-- `val` at the index of an array.
unfoldable pub assign_element : Name → Option Value → ℕ → Value → Result Value
assign_element name (some (string_array arr)) idx val =
    if ltb idx (length arr)
    then value (string_array (set arr idx (string_or_empty (as_string val))))
    else error (out_of_bounds idx)
assign_element name (some (int_array arr)) idx val =
    if ltb idx (length arr)
    then value (int_array (set arr idx (int_or_zero (as_integer val))))
    else error (out_of_bounds idx)
assign_element name _ idx val = error (array_not_found name)

-- NEXT at a loop whose variable has a value.
unfoldable pub next_round : Name → ForState → ℤ → X NextAction
next_round var loop current_val =
    let next_val = wrap64 (current_val +ℤ loop.step) in
    let again =
      if ltb_ℤ (pos 0) loop.step
      then leb_ℤ next_val loop.end_value
      else leb_ℤ loop.end_value next_val in
    let jump_back : X NextAction = (do store var (integer next_val); pure (jump loop.body_line)) in
    let leave : X NextAction =
      λ m. (value continue, record m { for_stack = remove_loop var m.for_stack }) in
    if again then jump_back else leave

abbrev pub integer_of : Option Value → Option ℤ
integer_of none = none
integer_of (some v) = as_integer v

unfoldable pub execute_next : Name → X NextAction
execute_next var m =
    (do
      loop ← some_or (find_loop var m.for_stack) (next_without_for var)
      current_val ← some_or (integer_of (get var m.variables)) (message "Loop variable missing")
      next_round var loop current_val)
      m

unfoldable pub execute_return : List ℕ → X NextAction
execute_return [] m = (error (message "RETURN without GOSUB"), m)
execute_return (idx ∷ rest) m = (value (jump_to_index idx), record m { return_stack = rest })

unfoldable pub execute_spawn : Name → List (List ℕ) → Option ℕ → X NextAction
execute_spawn name args none = fail spawn_failed
execute_spawn name args (some id) = do
  write (codes "Spawned '" ++ (name ++ (codes "' as task " ++ decimal id (10 ∷ []))))
  pure continue

module _ (host : Host) where
  unfoldable pub eval : Expr → X Value
  eval e m = let (r, t) = eval_expr host m.variables e m.tcp in (r, record m { tcp = t })

  unfoldable pub eval_integer : Expr → String → X ℤ
  eval_integer e text = do v ← eval e; some_or (as_integer v) (message text)

  -- The items of PRINT, with a blank in front of each but the first.
  unfoldable pub print_values : Bool → List Expr → X (Unit {0})
  print_values first [] = pure tt
  print_values first (e ∷ es) = do
    v ← eval e
    write (if first then display v else (32 ∷ display v))
    print_values false es

  unfoldable pub execute_for : List ℕ → ℕ → Name → Expr → Expr → Expr → X NextAction
  execute_for line_order current_line var start end step = do
    start_val ← eval_integer start "FOR start must be numeric"
    end_val ← eval_integer end "FOR end must be numeric"
    step_val ← eval_integer step "FOR step must be numeric"
    store var (integer start_val)
    λ m. (
      value continue,
      record m {
        for_stack =
            record {
              var = var;
              end_value = end_val;
              step = step_val;
              body_line = line_after current_line line_order;
            }
            ∷ m.for_stack;
      },
    )

  unfoldable pub execute_dim : Name → ℤ → X NextAction
  execute_dim name size m =
      let count = (bits64 size + 1) % 2 ^ 64 in
      if ends_with_dollar name
      then (if can_hold host.can_allocate 24 count
          then (do store name (string_array (replicate count [])); pure continue) m
          else (panic, m))
      else (if can_hold host.can_allocate 8 count
          then (do store name (int_array (replicate count (pos 0))); pure continue) m
          else (panic, m))

  unfoldable pub execute_statement : List ℕ → ℕ → ℕ → Statement → X NextAction
  execute_statement line_order line idx (Statement.print exprs) = do
    print_values true exprs
    write (10 ∷ [])
    pure continue
  execute_statement line_order line idx (Statement.assign var e) = do
    v ← eval e
    store var v
    pure continue
  execute_statement line_order line idx (Statement.if_then condition then_line) = do
    v ← eval condition
    pure (if is_truthy v then jump then_line else continue)
  execute_statement line_order line idx (Statement.goto target) = pure (jump target)
  execute_statement line_order line idx (Statement.gosub target) =
      λ m. (value (jump target), record m { return_stack = (idx + 1) ∷ m.return_stack })
  execute_statement line_order line idx Statement.return_back = λ m. execute_return m.return_stack m
  execute_statement line_order line idx (Statement.for_to var start end step) =
      execute_for line_order line var start end step
  execute_statement line_order line idx (Statement.next var) = execute_next var
  execute_statement line_order line idx (Statement.sleep e) = do
    ms ← eval_integer e "SLEEP requires numeric value"
    pure (sleep_for (bits64 ms))
  execute_statement line_order line idx Statement.rem = pure continue
  execute_statement line_order line idx Statement.end_program = pure stop
  execute_statement line_order line idx (Statement.spawn name args) =
      execute_spawn name args (host.spawn_program_dynamic name args)
  execute_statement line_order line idx (Statement.dim name e) = do
    size ← eval_integer e "DIM size must be numeric"
    execute_dim name size
  execute_statement line_order line idx (Statement.array_assign name index e) = do
    i ← eval_integer index "Array index must be numeric"
    v ← eval e
    arr ← λ m. (assign_element name (get name m.variables) (bits64 i) v, m)
    store name arr
    pure continue
  execute_statement line_order line idx (Statement.send sock text) = do
    s ← eval_integer sock "SEND socket must be numeric"
    v ← eval text
    chars ← some_or (as_string v) (message "SEND data must be string")
    λ m.
        let (n, t) = Table.send (bits64 s) (encode chars) m.tcp in
        (value continue, record m { tcp = t })
  execute_statement line_order line idx (Statement.net_close sock) = do
    s ← eval_integer sock "CLOSE socket must be numeric"
    λ m.
        let (t, sent) = Table.close host.env (bits64 s) m.tcp m.sent in
        (value continue, record m { tcp = t; sent = sent })
