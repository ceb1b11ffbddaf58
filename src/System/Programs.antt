-- ===== src/System/Programs.antt =====
-- Starting a program: what is loaded, what the new task gets, and what is lost on the way when
-- there is no room for its stack.
use ralph_os.Base.{ℕ, ◌≡◌, ◌⊎◌, Option, none, some, List, [], ◌∷◌, ◌++◌}
use ralph_os.ProgramAlloc.{allocate}
use ralph_os.Scheduler.{Task, ready}
use ralph_os.Executable.{Block, new, get, stack_size}
use ralph_os.Executable.Loader.{LoadedProgram, Outcome, good, bad, allocation_failed}
use ralph_os.System.{System, memory_of}
use ralph_os.System.Accounts.{IsSystem}

-- There is room for one, and the task has the next id.
abbrev pub next_task : System → Task
next_task s = record { id = s.sched.next_id; state = ready; wake_at = 0 }

pub record NewTask (s s' : System) (id : ℕ) (r : Option ℕ) : Type 0 where
  pub stack : ℕ
  pub room : r ≡ some stack
  pub named : id ≡ s.sched.next_id
  pub tasks : s'.sched.tasks ≡ s.sched.tasks ++ (next_task s ∷ [])
  pub entry : get id (memory_of s').task_allocations ≡ some (new stack stack_size)

-- How a program's start ends, for the system with the loaded program. Either there is no room for a
-- stack, there is no new task, and the memory of the program stays spare.
pub record Failed (spare : List Block) (program : LoadedProgram) (s : System)
    (r : Outcome ℕ × System) : Type 0 where
  pub full : (allocate stack_size (memory_of s).allocator).0 ≡ none
  pub answer : r.0 ≡ bad allocation_failed
  pub tasks : r.1.sched.tasks ≡ s.sched.tasks
  pub lost : IsSystem ((program.base_addr, program.size) ∷ spare) r.1

-- Or there is, the task is there and everything belongs to a task.
pub record Runs (spare : List Block) (s : System) (r : Outcome ℕ × System) : Type 0 where
  pub stack : ℕ
  pub room : (allocate stack_size (memory_of s).allocator).0 ≡ some stack
  pub answer : (r.0 ≡ good s.sched.next_id) ⊎ (r.0 ≡ bad allocation_failed)
  pub tasks : r.1.sched.tasks ≡ s.sched.tasks ++ (next_task s ∷ [])
  pub owned : IsSystem spare r.1

abbrev pub Started : List Block → LoadedProgram → System → Outcome ℕ × System → Type 0
Started spare program s r = Failed spare program s r ⊎ Runs spare s r
