-- ===== src/System/Examples.antt =====
-- A table of executables with one program, started.
use ralph_os.Base.{ℕ, zero, suc, ◌-◌, ◌≡◌, refl, true, none, some, List, [], ◌∷◌, arith}
use ralph_os.FreeList.{covers}
use ralph_os.ProgramAlloc.{init, new, allocate, take_first, rounded, align_up}
use ralph_os.ProgramAlloc.Valid.{init-IsValid}
use ralph_os.Elf
use ralph_os.Elf.{Image, lower, segment_end}
use ralph_os.Scheduler.{finished}
use ralph_os.Executable.{Memory, get, insert, new_task, keep_stack, register_task_stack}
use ralph_os.Executable.Owned.{hits, held}
use ralph_os.Executable.Accounts.{IsAccounted, all_blocks}
use ralph_os.Executable.Steps.{new_task-IsAccounted}
use ralph_os.Executable.Ids.{holds}
use ralph_os.Executable.Loader.{Kernel, LoadedProgram, load}
use ralph_os.System.{System, memory_of, reap}
use ralph_os.System.Tasks.{has_task, state_of}
use ralph_os.System.Accounts.{IsSystem, reap-IsSystem}

abbrev table : List ℕ
table =
    82 ∷ 69 ∷ 88 ∷ 69 ∷ 1 ∷ 0 ∷ 0 ∷ 0 ∷ 1 ∷ 0 ∷ 0 ∷ 0 ∷ 0 ∷ 0 ∷ 0 ∷ 0 ∷ 104 ∷ 105 ∷ 0 ∷ 0 ∷ 0 ∷ 0
    ∷ 0 ∷ 0 ∷ 0 ∷ 0 ∷ 0 ∷ 0 ∷ 0 ∷ 0 ∷ 0 ∷ 0 ∷ 48 ∷ 0 ∷ 0 ∷ 0 ∷ 124 ∷ 0 ∷ 0 ∷ 0 ∷ 0 ∷ 0 ∷ 0 ∷ 0 ∷ 0
    ∷ 0 ∷ 0 ∷ 0 ∷ 127 ∷ 69 ∷ 76 ∷ 70 ∷ 2 ∷ 1 ∷ 1 ∷ 0 ∷ 0 ∷ 0 ∷ 0 ∷ 0 ∷ 0 ∷ 0 ∷ 0 ∷ 0 ∷ 3 ∷ 0 ∷ 62
    ∷ 0 ∷ 1 ∷ 0 ∷ 0 ∷ 0 ∷ 2 ∷ 0 ∷ 0 ∷ 0 ∷ 0 ∷ 0 ∷ 0 ∷ 0 ∷ 64 ∷ 0 ∷ 0 ∷ 0 ∷ 0 ∷ 0 ∷ 0 ∷ 0 ∷ 0 ∷ 0 ∷ 0
    ∷ 0 ∷ 0 ∷ 0 ∷ 0 ∷ 0 ∷ 0 ∷ 0 ∷ 0 ∷ 0 ∷ 64 ∷ 0 ∷ 56 ∷ 0 ∷ 1 ∷ 0 ∷ 0 ∷ 0 ∷ 0 ∷ 0 ∷ 0 ∷ 0 ∷ 1 ∷ 0
    ∷ 0 ∷ 0 ∷ 5 ∷ 0 ∷ 0 ∷ 0 ∷ 120 ∷ 0 ∷ 0 ∷ 0 ∷ 0 ∷ 0 ∷ 0 ∷ 0 ∷ 0 ∷ 0 ∷ 0 ∷ 0 ∷ 0 ∷ 0 ∷ 0 ∷ 0 ∷ 0
    ∷ 0 ∷ 0 ∷ 0 ∷ 0 ∷ 0 ∷ 0 ∷ 0 ∷ 4 ∷ 0 ∷ 0 ∷ 0 ∷ 0 ∷ 0 ∷ 0 ∷ 0 ∷ 16 ∷ 0 ∷ 0 ∷ 0 ∷ 0 ∷ 0 ∷ 0 ∷ 0 ∷ 0
    ∷ 16 ∷ 0 ∷ 0 ∷ 0 ∷ 0 ∷ 0 ∷ 0 ∷ 144 ∷ 195 ∷ 1 ∷ 2 ∷ []

abbrev nth : List ℕ → ℕ → ℕ
nth [] i = 0
nth (b ∷ bs) zero = b
nth (b ∷ bs) (suc i) = nth bs i

abbrev at_start : Memory
at_start = record { initialized = true; task_allocations = []; allocator = init new }

at_start-IsAccounted : IsAccounted [] at_start
unfolding hits held all_blocks init new covers
at_start-IsAccounted = record {
  valid = init-IsValid new;
  ranges = tt;
  exact = λ x. ground arith;
  counted = refl;
}

abbrev kernel : Kernel
kernel = record {
  memory = at_start;
  table_addr = 0x100000;
  exec_count = 1;
  image = λ a. nth table (a - 0x100000);
}

abbrev booted : System
booted = record {
  sched = record { tasks = []; current = 0; next_id = 1 };
  kernel = kernel;
  pending_entry = 0;
  pending_argv = 0;
}

abbrev program : LoadedProgram
program = record { name = 104 ∷ 105 ∷ []; base_addr = 0x400000; size = 16; entry = 0x400002 }

abbrev arguments : List (List ℕ)
arguments = (45 ∷ 118 ∷ []) ∷ []

-- The kernel after loading it: its allocator and its bytes are other ones.
abbrev loaded : Kernel
loaded = elim (load program.name kernel) [ some (r, k) ↦ k | none ↦ kernel ]

-- A task that has exited, with its stack.
abbrev exited : System
exited = record booted {
  sched = record {
    tasks = record { id = 1; state = finished; wake_at = 0 } ∷ [];
    current = 0;
    next_id = 2;
  };
  kernel = record kernel { memory = (new_task 1 at_start).1 };
}

exited-IsSystem : IsSystem [] exited
unfolding holds has_task new_task keep_stack register_task_stack insert allocate take_first rounded
    align_up init new
exited-IsSystem = record {
  accounted = new_task-IsAccounted [] 1 at_start (unfold get in refl) at_start-IsAccounted;
  entries = omega arith;
  tasks = omega arith;
  owned = λ id. refl;
  on = refl;
}

reap-IsSystem_example :
    IsSystem [] (reap exited)
    × (state_of 1 (reap exited).sched.tasks ≡ none)
    × (get 1 (memory_of (reap exited)).task_allocations ≡ none)
unfolding state_of
reap-IsSystem_example = reap-IsSystem [] exited 1 exited-IsSystem
