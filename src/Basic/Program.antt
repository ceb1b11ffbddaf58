-- ===== src/Basic/Program.antt =====
-- Interpreter of src/basic/interpreter.rs: the program and its steps.
pub mod Sorted
pub mod Load
pub mod Sound
pub mod Reach
use Prim.Native.String.{String}
use ralph_os.Base.{
  ℕ, zero, suc, ◌+◌, ◌<◌, ◌≤◌, ◌≡◌, Bool, true, false, not, ◌&&◌, ◌||◌, Option, none, some, List,
  [], ◌∷◌, ◌++◌, map, ltb, leb, ◌==◌, if◌then◌else◌, length, get_elem?,
}
use ralph_os.Basic.Syntax.{Name, Expr, Statement, ParseError}
use ralph_os.Basic.Parser.{Parsed, ok, failed, out_of_fuel, Parser, parser_of}
use ralph_os.Basic.Parser.Statements.{parse_line}
use ralph_os.Basic.Format.{format_line}
use ralph_os.Basic.Eval.{
  RunError, message, line_not_found, Result, value, error, panic, Host, Variables,
}
use ralph_os.Basic.Interpreter.{
  ForState, Machine, NextAction, continue, jump, jump_to_index, sleep_for, stop, execute_statement,
}

pub data Status : Type 0 where
  ready : Status
  sleeping : ℕ → Status
  finished waiting_for_input : Status
  failed_with : RunError → Status

-- A `BTreeMap` by its entries, in the order of the numbers.
abbrev pub Lines : Type 0
Lines = List (ℕ × Statement)

unfoldable pub insert_line : ℕ → Statement → Lines → Lines
insert_line n s [] = (n, s) ∷ []
insert_line n s ((k, r) ∷ lines) =
    if n == k
    then (n, s) ∷ lines
    else if ltb n k
    then (n, s) ∷ (k, r) ∷ lines
    else (k, r) ∷ insert_line n s lines

unfoldable pub remove_line : ℕ → Lines → Lines
remove_line n [] = []
remove_line n ((k, r) ∷ lines) = if n == k then lines else (k, r) ∷ remove_line n lines

unfoldable pub line_at : ℕ → Lines → Option Statement
line_at n [] = none
line_at n ((k, r) ∷ lines) = if n == k then some r else line_at n lines

abbrev pub keys : Lines → List ℕ
keys [] = []
keys ((k, r) ∷ lines) = k ∷ keys lines

-- The state of the interpreter; what its statements work on is `machine`.
pub record Interpreter : Type 0 where
  pub program : Lines
  pub line_order : List ℕ
  pub current_idx : Option ℕ
  pub machine : Machine
  pub status : Status
  pub running : Bool

-- `new`, beside the network and the text of the terminal
unfoldable pub new : Machine → Interpreter
new m = record {
  program = [];
  line_order = [];
  current_idx = none;
  machine = record m { variables = []; for_stack = []; return_stack = [] };
  status = ready;
  running = false;
}

unfoldable pub rebuild_line_order : Interpreter → Interpreter
rebuild_line_order i = record i { line_order = keys i.program }

-- The lines that were read, their number, and an error, if there was one, at which reading stopped.
pub record Loading : Type 0 where
  pub lines : Lines
  pub loaded : ℕ
  pub failure : Option ParseError

-- One round of the loop of `load_program`, and the rest of it.
abbrev pub on_line :
    (Parser → Lines → ℕ → Option Loading)
    → Lines
    → ℕ
    → Parsed (Option (Option ℕ × Statement) × Parser)
    → Option Loading
on_line again lines loaded (ok (none, p)) =
    some (record { lines = lines; loaded = loaded; failure = none })
on_line again lines loaded (ok (some (none, s), p)) = again p lines loaded
on_line again lines loaded (ok (some (some n, s), p)) = again p (insert_line n s lines) (loaded + 1)
on_line again lines loaded (failed e) =
    some (record { lines = lines; loaded = loaded; failure = some e })
on_line again lines loaded out_of_fuel = none

-- `none` means that the fuel ran out.
unfoldable pub load_lines : (rounds fuel : ℕ) → Parser → Lines → ℕ → Option Loading
load_lines zero fuel p lines loaded = none
load_lines (suc rounds) fuel p lines loaded =
    on_line (load_lines rounds fuel) lines loaded (parse_line fuel p)

-- The order of the lines is rebuilt only where no error was met.
abbrev pub ordered : Option ParseError → Interpreter → Interpreter
ordered none i = rebuild_line_order i
ordered (some e) i = i

abbrev pub loaded_into : Interpreter → Loading → Interpreter
loaded_into i l = ordered l.failure (record i { program = l.lines })

abbrev pub with_lines : Interpreter → Option Loading → Option (Interpreter × Loading)
with_lines i none = none
with_lines i (some l) = some (loaded_into i l, l)

-- There is more fuel than there are characters.
unfoldable pub load_program : List ℕ → Interpreter → Option (Interpreter × Loading)
unfolding load_lines rebuild_line_order
load_program source i =
    let fuel = suc (length source) in
    with_lines i (load_lines fuel fuel (parser_of source) i.program 0)

unfoldable pub set_line : ℕ → Statement → Interpreter → Interpreter
unfolding rebuild_line_order
set_line n s i = rebuild_line_order (record i { program = insert_line n s i.program })

unfoldable pub delete_line : ℕ → Interpreter → Interpreter
unfolding rebuild_line_order
delete_line n i = rebuild_line_order (record i { program = remove_line n i.program })

unfoldable pub clear : Interpreter → Interpreter
clear i = record i {
  program = [];
  line_order = [];
  machine = record i.machine { variables = []; for_stack = [] };
  current_idx = none;
  running = false;
}

abbrev pub is_empty : List ℕ → Bool
is_empty [] = true
is_empty (n ∷ ns) = false

unfoldable pub run : Interpreter → Interpreter
run i =
    if is_empty i.line_order
    then record i { status = failed_with (message "No program") }
    else record i {
      current_idx = some 0;
      machine = record i.machine { variables = []; for_stack = []; return_stack = [] };
      running = true;
      status = ready;
    }

-- `iter().position(…)`, counted from `i`
unfoldable pub position : ℕ → ℕ → List ℕ → Option ℕ
position i target [] = none
position i target (n ∷ ns) =
    let later = position (i + 1) target ns in if n == target then some i else later

-- What a step makes of the statement's answer.
unfoldable pub follow : ℕ → NextAction → Interpreter → Interpreter
unfolding position
follow idx continue i =
    if leb (length i.line_order) (idx + 1)
    then record i { current_idx = some (idx + 1); running = false; status = finished }
    else record i { current_idx = some (idx + 1); status = ready }
follow idx (jump target) i = elim (position 0 target i.line_order) [
  | some new_idx ↦ record i { current_idx = some new_idx; status = ready }
  | none ↦ record i { running = false; status = failed_with (line_not_found target) }
]
follow idx (jump_to_index new_idx) i = record i { current_idx = some new_idx; status = ready }
follow idx (sleep_for ms) i = record i { current_idx = some (idx + 1); status = sleeping ms }
follow idx stop i = record i { running = false; status = finished }

-- The statement's answer and the machine behind it; `none` is a panic.
unfoldable pub conclude : ℕ → Interpreter → Result NextAction × Machine → Option Interpreter
unfolding follow
conclude idx i (value action, m) = some (follow idx action (record i { machine = m }))
conclude idx i (error e, m) =
    some (record i { machine = m; running = false; status = failed_with e })
conclude idx i (panic, m) = none

abbrev pub with_status : Option Interpreter → Option (Interpreter × Status)
with_status none = none
with_status (some i) = some (i, i.status)

abbrev pub with_answer : Interpreter → Option Status → Option (Interpreter × Status)
with_answer i none = none
with_answer i (some st) = some (i, st)

module _ (host : Host) where
  -- The line with an index, if there is one.
  unfoldable pub step_line : ℕ → Option ℕ → Interpreter → Option (Interpreter × Status)
  unfolding conclude
  step_line idx none i =
      let done = record i { running = false; status = finished } in some (done, finished)
  step_line idx (some line_num) i = elim (line_at line_num i.program) [
    | none ↦
        with_status
          (some (record i { running = false; status = failed_with (message "Line not found") }))
    | some s ↦
        with_status (conclude idx i (execute_statement host i.line_order line_num idx s i.machine))
  ]

  abbrev pub step_at : Option ℕ → Interpreter → Option (Interpreter × Status)
  step_at none i = some (record i { running = false }, finished)
  step_at (some idx) i = step_line idx (get_elem? i.line_order idx) i

  -- The state behind a step, and the status that it answers.
  unfoldable pub step : Interpreter → Option (Interpreter × Status)
  unfolding step_line
  step i = if i.running then step_at i.current_idx i else some (i, finished)

  -- What an immediate command answers.
  abbrev pub immediate : Result NextAction → Option Status
  immediate (value continue) = some ready
  immediate (value stop) = some ready
  immediate (value (jump target)) =
      some (failed_with (message "Cannot GOTO/GOSUB in immediate mode"))
  immediate (value (jump_to_index idx)) =
      some (failed_with (message "Cannot GOTO/GOSUB in immediate mode"))
  immediate (value (sleep_for ms)) = some (sleeping ms)
  immediate (error e) = some (failed_with e)
  immediate panic = none

  unfoldable pub execute_immediate : Statement → Interpreter → Option (Interpreter × Status)
  execute_immediate s i =
      let (r, m) = execute_statement host i.line_order 0 0 s i.machine in
      with_answer (record i { machine = m }) (immediate r)

-- The text of the program.
unfoldable pub list_lines : List ℕ → Lines → List ℕ
list_lines [] lines = []
list_lines (n ∷ ns) lines = elim (line_at n lines) [
  | some s ↦ format_line n s (list_lines ns lines)
  | none ↦ list_lines ns lines
]

unfoldable pub list : Interpreter → List ℕ
unfolding list_lines
list i = list_lines i.line_order i.program
