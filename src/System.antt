-- ===== src/System.antt =====
-- Tasks and their memory together: `spawn` of src/scheduler.rs, the programs of src/api.rs, and the
-- removal of finished tasks with the memory that they held.
pub mod Tasks
pub mod Accounts
pub mod Loading
pub mod Programs
mod Examples
use ralph_os.Base.{
  ℕ, zero, suc, ◌+◌, ◌-◌, ◌*◌, ◌/◌, ◌%◌, ◌^◌, Bool, true, false, not, ◌&&◌, ◌||◌, Option, none,
  some, List, [], ◌∷◌, ◌++◌, ltb, leb, ◌==◌, if◌then◌else◌, length,
}
use ralph_os.Elf.{Image, ◌>>=◌, copy_to}
use ralph_os.Scheduler.{Scheduler, Task, ready, reap_finished_tasks, current_task_id}
use ralph_os.Executable.{
  Memory, new_task, register_task_program, task_alloc, task_free, unload_task,
}
use ralph_os.Executable.Loader.{Kernel, LoadedProgram, Outcome, good, bad, allocation_failed, load}

pub record System : Type 0 where
  pub sched : Scheduler
  pub kernel : Kernel
  pub pending_entry : ℕ
  pub pending_argv : ℕ

abbrev pub memory_of : System → Memory
memory_of s = s.kernel.memory

abbrev pub with_memory : Memory → System → System
with_memory m s = record s { kernel = record s.kernel { memory = m } }

-- `Scheduler::spawn` and `spawn_with_arg`. The id is used up whether or not there is a stack.
unfoldable pub add_task : ℕ → Scheduler → Option ℕ × Memory → System → Option ℕ × System
add_task id sched (none, m) s = (none, record (with_memory m s) { sched = sched })
add_task id sched (some stack, m) s = (
  some id,
  record (with_memory m s) {
    sched = record sched {
      tasks = sched.tasks ++ (record { id = id; state = ready; wake_at = 0 } ∷ []);
    };
  },
)

unfoldable pub spawn : System → Option ℕ × System
unfolding add_task
spawn s =
    let id = s.sched.next_id in
    add_task id (record s.sched { next_id = (id + 1) % 2 ^ 32 }) (new_task id (memory_of s)) s

-- The removal of finished tasks, which unloads each of them.
unfoldable pub unload_all : List ℕ → Memory → Memory
unload_all [] m = m
unload_all (id ∷ ids) m = unload_all ids (unload_task id m)

unfoldable pub reap : System → System
unfolding unload_all
reap s =
    let (sched, ids) = reap_finished_tasks s.sched in
    record (with_memory (unload_all ids (memory_of s)) s) { sched = sched }

-- The array of pointers and the strings that `allocate_args_for_task` lays out, for strings from
-- address `at` on.
unfoldable pub put64 : ℕ → List ℕ → List ℕ
put64 x l =
    (x % 256)
    ∷ (x / 2 ^ 8 % 256)
    ∷ (x / 2 ^ 16 % 256)
    ∷ (x / 2 ^ 24 % 256)
    ∷ (x / 2 ^ 32 % 256)
    ∷ (x / 2 ^ 40 % 256)
    ∷ (x / 2 ^ 48 % 256)
    ∷ (x / 2 ^ 56 % 256)
    ∷ l

unfoldable pub argv_bytes : ℕ → List (List ℕ) → List ℕ
unfolding put64
argv_bytes at [] = put64 0 []
argv_bytes at (arg ∷ args) = put64 at (argv_bytes (at + (length arg + 1)) args)

unfoldable pub string_bytes : List (List ℕ) → List ℕ
string_bytes [] = []
string_bytes (arg ∷ args) = arg ++ (0 ∷ string_bytes args)

unfoldable pub args_bytes : ℕ → List (List ℕ) → List ℕ
unfolding argv_bytes string_bytes
args_bytes base args = argv_bytes (base + (length args + 1) * 8) args ++ string_bytes args

unfoldable pub args_size : List (List ℕ) → ℕ
unfolding string_bytes
args_size args = (length args + 1) * 8 + length (string_bytes args)

unfoldable pub write_args : List (List ℕ) → Option ℕ × Memory → Kernel → Option ℕ × Kernel
unfolding args_bytes
write_args args (none, m) k = (none, record k { memory = m })
write_args args (some base, m) k =
    (some base, record k { memory = m; image = copy_to base (args_bytes base args) k.image })

unfoldable pub allocate_args_for_task : ℕ → List (List ℕ) → Kernel → Option ℕ × Kernel
unfolding write_args args_size
allocate_args_for_task id args k = write_args args (task_alloc id (args_size args) k.memory) k

-- The end of `spawn_program`: the arguments, for a task that has its program.
unfoldable pub finish_spawn : ℕ → Option ℕ × Kernel → System → Outcome ℕ × System
finish_spawn id (none, k) s = (bad allocation_failed, record s { kernel = k })
finish_spawn id (some argv, k) s = (good id, record s { kernel = k; pending_argv = argv })

unfoldable pub spawn_loaded : List (List ℕ) → LoadedProgram → Option ℕ × System → Outcome ℕ × System
unfolding finish_spawn allocate_args_for_task
spawn_loaded args program (none, s) = (bad allocation_failed, s)
spawn_loaded args program (some id, s) =
    let m = register_task_program id program.base_addr program.size program.name (memory_of s) in
    finish_spawn id
      (allocate_args_for_task id (program.name ∷ args) (record s.kernel { memory = m }))
      (with_memory m s)

unfoldable pub spawn_found :
    List (List ℕ) → Outcome LoadedProgram × Kernel → System → Outcome ℕ × System
unfolding spawn_loaded
spawn_found args (bad e, k) s = (bad e, record s { kernel = k })
spawn_found args (good program, k) s =
    spawn_loaded args program (spawn (record s { kernel = k; pending_entry = program.entry }))

-- `none` is the panic of `load`.
unfoldable pub spawn_program : List ℕ → List (List ℕ) → System → Option (Outcome ℕ × System)
unfolding spawn_found
spawn_program name args s = do r ← load name s.kernel; some (spawn_found args r s)

-- `api_alloc` and `api_free`: a null pointer is `none`.
unfoldable pub api_alloc : ℕ → System → Option ℕ × System
api_alloc size s = elim (current_task_id s.sched) [
  | none ↦ (none, s)
  | some id ↦
      let (a, m) = task_alloc id size (memory_of s) in
      if size == 0 then (none, s) else (a, with_memory m s)
]

unfoldable pub api_free : ℕ → System → System
api_free ptr s = elim (current_task_id s.sched) [
  | none ↦ s
  | some id ↦ if ptr == 0 then s else with_memory (task_free id ptr (memory_of s)).1 s
]
