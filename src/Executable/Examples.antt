-- ===== src/Executable/Examples.antt =====
-- The memory at the start, and frees in it.
use ralph_os.Base.{refl, true, [], arith}
use ralph_os.FreeList.{covers}
use ralph_os.ProgramAlloc.{init, new}
use ralph_os.ProgramAlloc.Valid.{init-IsValid}
use ralph_os.Executable.{get, Memory, task_free, new_task}
use ralph_os.Executable.Owned.{hits, held}
use ralph_os.Executable.Accounts.{IsAccounted, all_blocks}
use ralph_os.Executable.Steps.{new_task-IsAccounted, task_free-IsAccounted}

abbrev pub at_start : Memory
at_start = record { initialized = true; task_allocations = []; allocator = init new }

pub at_start-IsAccounted : IsAccounted [] at_start
unfolding hits held all_blocks init new covers
at_start-IsAccounted = record {
  valid = init-IsValid new;
  ranges = tt;
  exact = λ x. ground arith;
  counted = refl;
}

-- A task with its stack.
abbrev with_task : Memory
with_task = (new_task 1 at_start).1

with_task-IsAccounted : IsAccounted [] with_task
with_task-IsAccounted = new_task-IsAccounted [] 1 at_start (unfold get in refl) at_start-IsAccounted

-- A task that is not the owner of the block frees nothing, the owner does.
task_free-IsAccounted_example : IsAccounted [] (task_free 2 0x400000 with_task).1
task_free-IsAccounted_example = task_free-IsAccounted [] 2 0x400000 with_task with_task-IsAccounted
