-- ===== src/Executable.antt =====
-- The registry of src/executable.rs: the program memory that each task holds. The BTreeMap is the
-- list of its entries in the order of the task ids; `Memory` is the registry together with the
-- program allocator that it calls. The assertion of `RegistryCell::with`, that `init` was called, is
-- left out.
pub mod Owned
pub mod Accounts
pub mod Ids
pub mod Steps
pub mod Loader
mod Examples
use ralph_os.Base.{
  ℕ, ◌+◌, ◌-◌, ◌*◌, ◌/◌, ◌%◌, ◌^◌, Bool, true, false, not, ◌&&◌, ◌||◌, Option, none, some, List, [],
  ◌∷◌, ◌++◌, ltb, leb, ◌==◌, if◌then◌else◌,
}
use ralph_os.FreeList.{within}
use ralph_os.ProgramAlloc.{ProgramAllocator, allocate, deallocate}

-- Addresses with sizes, as the source's tuples.
abbrev pub Block : Type 0
Block = ℕ × ℕ

pub record TaskAllocations : Type 0 where
  pub stack : Block
  pub program : Option (ℕ × ℕ × List ℕ)
  pub heap_blocks : List Block

unfoldable pub new : ℕ → ℕ → TaskAllocations
new stack_base stack_size = record {
  stack = (stack_base, stack_size);
  program = none;
  heap_blocks = [];
}

abbrev pub Entries : Type 0
Entries = List (ℕ × TaskAllocations)

pub record Memory : Type 0 where
  pub initialized : Bool
  pub task_allocations : Entries
  pub allocator : ProgramAllocator

-- `BTreeMap::get`, `insert` and `remove`.
unfoldable pub get : ℕ → Entries → Option TaskAllocations
get id [] = none
get id ((k, v) ∷ rest) = if id == k then some v else get id rest

unfoldable pub insert : ℕ → TaskAllocations → Entries → Entries
insert id a [] = (id, a) ∷ []
insert id a ((k, v) ∷ rest) =
    if id == k
    then (id, a) ∷ rest
    else if ltb id k
    then (id, a) ∷ (k, v) ∷ rest
    else (k, v) ∷ insert id a rest

unfoldable pub remove : ℕ → Entries → Entries
remove id [] = []
remove id ((k, v) ∷ rest) = if id == k then rest else (k, v) ∷ remove id rest

-- A change through `get_mut`.
unfoldable pub modify : ℕ → (TaskAllocations → TaskAllocations) → Entries → Entries
modify id f [] = []
modify id f ((k, v) ∷ rest) = if id == k then (k, f v) ∷ rest else (k, v) ∷ modify id f rest

unfoldable pub register_task_stack : (id stack_base stack_size : ℕ) → Memory → Memory
unfolding new
register_task_stack id stack_base stack_size m = record m {
  task_allocations = insert id (new stack_base stack_size) m.task_allocations;
}

unfoldable pub register_task_program : (id base size : ℕ) → List ℕ → Memory → Memory
register_task_program id base size name m = record m {
  task_allocations =
      modify id (λ a. record a { program = some (base, size, name) }) m.task_allocations;
}

abbrev pub stack_size : ℕ
stack_size = 16 * 1024

-- `Task::new_with_arg_raw` of src/task.rs: the stack's base, for a task that is registered.
unfoldable pub keep_stack : (id : ℕ) → Memory → Option ℕ × ProgramAllocator → Option ℕ × Memory
keep_stack id m (none, p) = (none, record m { allocator = p })
keep_stack id m (some a, p) =
    (some a, register_task_stack id a stack_size (record m { allocator = p }))

unfoldable pub new_task : (id : ℕ) → Memory → Option ℕ × Memory
unfolding keep_stack
new_task id m = keep_stack id m (allocate stack_size m.allocator)

-- `(size + 0xFFF) & !0xFFF`, where the sum wraps.
unfoldable pub page_up : ℕ → ℕ
page_up size = (size + 0xFFF) % 2 ^ 64 / 4096 * 4096

unfoldable pub push_block : ℕ → ℕ → TaskAllocations → TaskAllocations
push_block a n t = record t { heap_blocks = t.heap_blocks ++ ((a, n) ∷ []) }

unfoldable pub keep_block : (id n : ℕ) → Memory → Option ℕ × ProgramAllocator → Option ℕ × Memory
keep_block id n m (none, p) = (none, record m { allocator = p })
keep_block id n m (some a, p) = (
  some a,
  record m { task_allocations = modify id (push_block a n) m.task_allocations; allocator = p },
)

unfoldable pub task_alloc : (id size : ℕ) → Memory → Option ℕ × Memory
unfolding keep_block
task_alloc id size m =
    let done = keep_block id (page_up size) m (allocate (page_up size) m.allocator) in
    if size == 0 then (none, m) else done

-- `position` and `remove` on `heap_blocks`: the block at `ptr`, and the others.
unfoldable pub take_block : ℕ → List Block → Option (Block × List Block)
take_block ptr [] = none
take_block ptr ((a, n) ∷ rest) =
    let later = take_block ptr rest in
    if a == ptr
    then some ((a, n), rest)
    else elim later [ none ↦ none | some (b, rest') ↦ some (b, (a, n) ∷ rest') ]

unfoldable pub free_in : (id : ℕ) → Option (Block × List Block) → Memory → Bool × Memory
free_in id none m = (false, m)
free_in id (some ((a, n), rest)) m = (
  true,
  record m {
    task_allocations = modify id (λ t. record t { heap_blocks = rest }) m.task_allocations;
    allocator = deallocate a n m.allocator;
  },
)

unfoldable pub task_free : (id ptr : ℕ) → Memory → Bool × Memory
unfolding free_in take_block
task_free id ptr m = elim (get id m.task_allocations) [
  | none ↦ (false, m)
  | some t ↦ free_in id (take_block ptr t.heap_blocks) m
]

-- The blocks of a task in the order in which `unload_task` frees them.
unfoldable pub program_block : Option (ℕ × ℕ × List ℕ) → List Block
program_block none = []
program_block (some (a, n, name)) = (a, n) ∷ []

unfoldable pub blocks : TaskAllocations → List Block
unfolding program_block
blocks t = t.heap_blocks ++ (program_block t.program ++ (t.stack ∷ []))

unfoldable pub release : List Block → ProgramAllocator → ProgramAllocator
release [] p = p
release ((a, n) ∷ rest) p = release rest (deallocate a n p)

unfoldable pub unload_entry : ℕ → Memory → Option TaskAllocations → Memory
unfolding blocks release
unload_entry id m none = m
unload_entry id m (some t) = record m {
  task_allocations = remove id m.task_allocations;
  allocator = release (blocks t) m.allocator;
}

unfoldable pub unload_task : ℕ → Memory → Memory
unfolding unload_entry
unload_task id m = if m.initialized then unload_entry id m (get id m.task_allocations) else m

unfoldable pub any_block : ℕ → List Block → Bool
any_block addr [] = false
any_block addr ((a, n) ∷ rest) = within a n addr || any_block addr rest

unfoldable pub find_task : ℕ → Entries → Option ℕ
unfolding any_block program_block
find_task addr [] = none
find_task addr ((id, t) ∷ rest) =
    let later = find_task addr rest in
    let (base, size) = t.stack in
    if within base size addr
      || (any_block addr (program_block t.program) || any_block addr t.heap_blocks)
    then some id
    else later

unfoldable pub find_task_by_program_addr : ℕ → Memory → Option ℕ
unfolding find_task
find_task_by_program_addr addr m = if m.initialized then find_task addr m.task_allocations else none

unfoldable pub find_program : ℕ → Entries → Option (ℕ × ℕ × List ℕ)
find_program addr [] = none
find_program addr ((id, t) ∷ rest) =
    let later = find_program addr rest in
    elim t.program [
      | none ↦ later
      | some (base, size, name) ↦
          if within base size addr then some (base, base + size, name) else later
    ]

unfoldable pub find_program_by_addr : ℕ → Memory → Option (ℕ × ℕ × List ℕ)
unfolding find_program
find_program_by_addr addr m = if m.initialized then find_program addr m.task_allocations else none
