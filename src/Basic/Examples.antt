-- ===== src/Basic/Examples.antt =====
-- A small program: what it writes, and how it is read, listed and run.
use ralph_os.Base.{
  zero, suc, ℕ, ◌≡◌, refl, ap, true, false, Option, none, some, List, [], ◌∷◌, ◌++◌, All, ◌<◌, ◌≤◌,
  arith, length,
}
use ralph_os.Base.Int.{ℤ, pos, negsuc}
use ralph_os.Base.Text.{codes}
use ralph_os.Net.Bytes.{ip}
use ralph_os.Net.Tcp.Table.Reach.{boot}
use ralph_os.Basic.Lexer.Print.{IsName}
use ralph_os.Basic.Syntax.{BinaryOp, Expr, Statement}
use ralph_os.Basic.Parser.{ok, parser_of}
use ralph_os.Basic.Parser.Statements.{parse_line}
use ralph_os.Basic.Format.{decimal}
use ralph_os.Basic.Format.Remarks.{parse_line-bare_rem}
use ralph_os.Basic.Value.{integer}
use ralph_os.Basic.Eval.{value, Host, eval_expr, Variables, get}
use ralph_os.Basic.Eval.Numbers.{eval_expr-val_str}
use ralph_os.Basic.Interpreter.{ForState, execute_statement, Machine, execute_next}
use ralph_os.Basic.Interpreter.Loops.{
  loop_of, next_machine, Rounds, none_yet, round, for_next-Rounds,
}
use ralph_os.Basic.Program.{
  Lines, Interpreter, new, Loading, load_program, list, set_line, run, step, Status, ready,
  finished,
}
use ralph_os.Basic.Program.Load.{AreListable, load_program_returns, load_program-list}
use ralph_os.Basic.Program.Reach.{Reach, made, line_set, started, Executes, Reach-Executes}

abbrev host : Host
host = record {
  env = record { now = 0; our_ip = ip 10 0 2 15; accepts = λ _. true };
  heap_stats = (1000, 2000);
  can_allocate = λ _. true;
  spawn_program_dynamic = λ _ _. none;
}

abbrev machine : Machine
machine = record {
  variables = [];
  for_stack = [];
  return_stack = [];
  out = [];
  tcp = boot;
  sent = [];
}

abbrev source : List ℕ
source = codes "10 FOR I = 1 TO 3\n20 PRINT I * 2\n30 NEXT I\n"

load_program_returns_example :
    (r : Interpreter × Loading) × (load_program source (new machine) ≡ some r)
load_program_returns_example = load_program_returns source (new machine)

-- `FOR I = 1 TO 3`, `PRINT I * 2` and `NEXT I`, as loaded
abbrev counter : List ℕ
counter = codes "I"

abbrev lines : Lines
lines =
    (10, Statement.for_to counter (Expr.integer 1) (Expr.integer 3) (Expr.integer 1))
    ∷ (
      20,
      Statement.print (Expr.binary_op (Expr.variable counter) BinaryOp.mul (Expr.integer 2) ∷ []),
    )
    ∷ (30, Statement.next counter)
    ∷ []

abbrev counting : Interpreter
counting = record (new machine) { program = lines; line_order = 10 ∷ 20 ∷ 30 ∷ [] }

counter-IsName : IsName counter
unfolding ralph_os.Basic.Lexer.find_word ralph_os.Basic.Lexer.word_eq
counter-IsName = (refl, ((refl, refl), tt), refl)

lines-AreListable : AreListable lines
lines-AreListable = (
  (omega arith, (counter-IsName, omega arith, omega arith, omega arith)),
  (
    (omega arith, ((counter-IsName, omega arith, omega arith, omega arith), tt)),
    ((omega arith, counter-IsName), tt),
  ),
)

load_program-list_example :
    load_program (list counting) (new machine)
    ≡ some (
      record (new machine) { program = lines; line_order = 10 ∷ 20 ∷ 30 ∷ [] },
      record { lines = lines; loaded = 3; failure = none },
    )
unfolding new
load_program-list_example =
    load_program-list counting machine
      ((omega arith, (omega arith, tt)), ((omega arith, tt), (tt, tt))) refl lines-AreListable

history : Reach host (run (set_line 10 (Statement.next counter) (new machine)))
history = started (line_set 10 (Statement.next counter) (made machine))

Reach-Executes_example : Executes host (run (set_line 10 (Statement.next counter) (new machine)))
unfolding run set_line new ralph_os.Basic.Program.insert_line
    ralph_os.Basic.Program.rebuild_line_order
Reach-Executes_example =
    Reach-Executes host (run (set_line 10 (Statement.next counter) (new machine))) history refl

parse_line-bare_rem_example :
    parse_line 5
      (parser_of (decimal 10 (codes " REM" ++ (10 ∷ (codes "20 PRINT" ++ (10 ∷ codes "30 END"))))))
    ≡ ok (some (some 10, Statement.rem), parser_of (codes "30 END"))
parse_line-bare_rem_example =
    parse_line-bare_rem 4 10 (codes "20 PRINT") (codes "30 END") (omega arith)
      (refl, (refl, (refl, (refl, (refl, (refl, (refl, (refl, tt))))))))

eval_expr-val_str_example :
    eval_expr host [] (Expr.val (Expr.str (Expr.negate (Expr.integer 42)))) boot
    ≡ (value (integer (negsuc 41)), boot)
unfolding eval_expr ralph_os.Base.Int.◌-ℤ◌ ralph_os.Base.Int.◌+ℤ◌
eval_expr-val_str_example =
    eval_expr-val_str host [] (Expr.negate (Expr.integer 42)) (negsuc 41) boot boot refl
      (omega arith)

-- The machine behind FOR, and behind one round of the loop, whose body wrote a number.
abbrev loops : List ForState
loops = loop_of counter 3 1 20 ∷ []

abbrev second : Machine
second = record machine {
  variables = (counter, integer (pos 2)) ∷ [];
  for_stack = loops;
  out = codes "4";
}

abbrev for_i : Machine
for_i = record machine { variables = (counter, integer (pos 1)) ∷ []; for_stack = loops }

one_round : Rounds counter 3 1 20 [] 1 for_i second
unfolding execute_next ralph_os.Basic.Interpreter.next_round ralph_os.Basic.Interpreter.find_loop
    ralph_os.Basic.Interpreter.remove_loop get ralph_os.Basic.Eval.insert
    ralph_os.Basic.Lexer.word_eq ralph_os.Basic.Value.as_integer ralph_os.Base.Int.◌+ℤ◌
one_round = round {m1 = record second { out = [] }} refl refl refl none_yet

for_next-Rounds_example :
    (2 ≤ 3)
    × (get counter second.variables ≡ some (integer (pos 2)))
    × (execute_next counter second ≡ next_machine counter 3 1 20 [] 2 second)
unfolding execute_statement ralph_os.Basic.Interpreter.line_after
    ralph_os.Basic.Interpreter.execute_for ralph_os.Basic.Interpreter.eval_integer
    ralph_os.Basic.Interpreter.eval eval_expr ralph_os.Basic.Value.as_integer
    ralph_os.Basic.Eval.insert ralph_os.Basic.Interpreter.remove_loop ralph_os.Basic.Lexer.word_eq
for_next-Rounds_example =
    for_next-Rounds host (10 ∷ 20 ∷ 30 ∷ []) 10 0 counter 1 3 1 1 machine second (omega arith)
      (omega arith) (omega arith) one_round

steps : ℕ → Interpreter → Option Interpreter
unfolding step
steps zero i = some i
steps (suc n) i = elim (step host i) [ none ↦ none | some (j, st) ↦ steps n j ]

abbrev output : Option Interpreter → List ℕ
output none = []
output (some i) = i.machine.out

out_test : output (steps 7 (run counting)) ≡ codes "2\n4\n6\n"
unfolding steps run ralph_os.Basic.Program.line_at ralph_os.Basic.Program.new
    ralph_os.Basic.Interpreter.find_loop ralph_os.Basic.Interpreter.line_after
    ralph_os.Basic.Interpreter.next_round ralph_os.Basic.Interpreter.execute_next
    ralph_os.Basic.Interpreter.eval ralph_os.Basic.Interpreter.eval_integer
    ralph_os.Basic.Interpreter.print_values ralph_os.Basic.Interpreter.execute_for
    ralph_os.Basic.Interpreter.execute_statement ralph_os.Basic.Eval.get ralph_os.Basic.Eval.insert
    ralph_os.Basic.Eval.eval_binary_op ralph_os.Basic.Eval.eval_expr ralph_os.Basic.Value.display
    ralph_os.Basic.Lexer.word_eq ralph_os.Base.Int.◌+ℤ◌ ralph_os.Base.Int.◌*ℤ◌
    ralph_os.Basic.Lexer.Print.digits
out_test = refl
