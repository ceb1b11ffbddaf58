-- ===== src/Executable/Steps.antt =====
-- Each operation of the registry keeps the program memory accounted for.
use mathlib.Core.List.Permᴰ
use mathlib.Core.List.{Permᴰ, append_assoc}
use mathlib.Core.Path.{subst}
use ralph_os.Base.{
  ℕ, ◌+◌, ◌^◌, ◌≤◌, ◌<◌, ◌≡◌, inl, inr, refl, sym, Option, none, some, List, [], ◌∷◌, ◌++◌, arith,
  ◌==◌, Bool-cases, Option-cases, if_both,
}
use ralph_os.ProgramAlloc.{ProgramAllocator, allocate}
use ralph_os.ProgramAlloc.Valid.{Fits}
use ralph_os.Executable.{
  Block, TaskAllocations, Entries, Memory, new, get, insert, remove, modify, register_task_stack,
  register_task_program, new_task, keep_stack, stack_size, page_up, push_block, keep_block,
  task_alloc, take_block, free_in, task_free, program_block, blocks, unload_entry, unload_task,
}
use ralph_os.Executable.Owned.{
  Divides-deallocate, Divides-release, Divides-allocate, Divides-failed, Divides-Permᴰ,
}
use ralph_os.Executable.Accounts.{
  all_blocks, IsAccounted, swap_front, all_blocks-insert, all_blocks-modify, all_blocks-remove,
}

-- A block that joins the entries instead of standing before the spare ones.
join :
    (b : Block) (spare bs cs : List Block)
    → Permᴰ cs (b ∷ bs)
    → Permᴰ (b ∷ (spare ++ bs)) (spare ++ cs)
join b spare bs cs p =
    Permᴰ.trans (Permᴰ.symm (Permᴰ.middle b spare bs)) (Permᴰ.append_left spare (Permᴰ.symm p))

pub new_task_cases :
    (spare : List Block) (id : ℕ) (m : Memory) (r : Option ℕ × ProgramAllocator)
    → allocate stack_size m.allocator ≡ r
    → get id m.task_allocations ≡ none
    → IsAccounted spare m
    → IsAccounted spare (keep_stack id m r).1
unfolding keep_stack register_task_stack
new_task_cases spare id m (none, p) e absent d =
    rw
      (Divides-failed stack_size (spare ++ all_blocks m.task_allocations) m.allocator p
        (omega arith) (omega arith) e d)
      d
new_task_cases spare id m (some a, p) e absent d =
    let es = m.task_allocations in
    Divides-Permᴰ ((a, stack_size) ∷ (spare ++ all_blocks es))
      (spare ++ all_blocks (insert id (new a stack_size) es)) p
      (join (a, stack_size) spare (all_blocks es) (all_blocks (insert id (new a stack_size) es))
        (unfold blocks program_block new in all_blocks-insert id (new a stack_size) es absent))
      (Divides-allocate stack_size a (spare ++ all_blocks es) m.allocator p (omega arith)
        (omega arith) e d)

-- A new task with an id that is not in use, whether or not there is room for its stack.
pub new_task-IsAccounted :
    (spare : List Block) (id : ℕ) (m : Memory)
    → get id m.task_allocations ≡ none
    → IsAccounted spare m
    → IsAccounted spare (new_task id m).1
unfolding new_task
new_task-IsAccounted spare id m absent d =
    new_task_cases spare id m (allocate stack_size m.allocator) refl absent d

pub page_up_bounds :
    (size : ℕ) → 0 < size → size + 8192 ≤ 2 ^ 64 → (0 < page_up size) × Fits (page_up size)
unfolding page_up
page_up_bounds size pos fits = (omega arith, omega arith)

blocks-push_block :
    (a n : ℕ) (t : TaskAllocations) → Permᴰ (blocks (push_block a n t)) ((a, n) ∷ blocks t)
unfolding blocks push_block
blocks-push_block a n t =
    let rest = program_block t.program ++ (t.stack ∷ []) in
    subst (λ l. Permᴰ l ((a, n) ∷ (t.heap_blocks ++ rest)))
      (sym (append_assoc t.heap_blocks ((a, n) ∷ []) rest)) (Permᴰ.middle (a, n) t.heap_blocks rest)

-- What a change that adds a block does to the blocks of the entries.
added :
    (b : Block) (id : ℕ) (f : TaskAllocations → TaskAllocations) (t : TaskAllocations)
    (es : Entries)
    → get id es ≡ some t
    → Permᴰ (blocks (f t)) (b ∷ blocks t)
    → Permᴰ (all_blocks (modify id f es)) (b ∷ all_blocks es)
added b id f t es e p = Permᴰ.trans (all_blocks-modify id f t es e) (
    Permᴰ.trans (Permᴰ.append_right (all_blocks (remove id es)) p)
      (Permᴰ.cons refl (Permᴰ.symm (all_blocks-remove id t es e))))

-- And one that removes a block.
removed :
    (b : Block) (id : ℕ) (f : TaskAllocations → TaskAllocations) (t : TaskAllocations)
    (es : Entries)
    → get id es ≡ some t
    → Permᴰ (blocks t) (b ∷ blocks (f t))
    → Permᴰ (all_blocks es) (b ∷ all_blocks (modify id f es))
removed b id f t es e p = Permᴰ.trans (all_blocks-remove id t es e) (
    Permᴰ.trans (Permᴰ.append_right (all_blocks (remove id es)) p)
      (Permᴰ.cons refl (Permᴰ.symm (all_blocks-modify id f t es e))))

pub keep_block_cases :
    (spare : List Block) (id n : ℕ) (t : TaskAllocations) (m : Memory)
    (r : Option ℕ × ProgramAllocator)
    → allocate n m.allocator ≡ r
    → 0 < n
    → Fits n
    → get id m.task_allocations ≡ some t
    → IsAccounted spare m
    → IsAccounted spare (keep_block id n m r).1
unfolding keep_block
keep_block_cases spare id n t m (none, p) e pos fits known d =
    rw (Divides-failed n (spare ++ all_blocks m.task_allocations) m.allocator p pos fits e d) d
keep_block_cases spare id n t m (some a, p) e pos fits known d =
    let es = m.task_allocations in
    Divides-Permᴰ ((a, n) ∷ (spare ++ all_blocks es))
      (spare ++ all_blocks (modify id (push_block a n) es)) p
      (join (a, n) spare (all_blocks es) (all_blocks (modify id (push_block a n) es))
        (added (a, n) id (push_block a n) t es known (blocks-push_block a n t)))
      (Divides-allocate n a (spare ++ all_blocks es) m.allocator p pos fits e d)

-- An allocation of a task that is registered, of a size that can be rounded up.
pub task_alloc-IsAccounted :
    (spare : List Block) (id size : ℕ) (t : TaskAllocations) (m : Memory)
    → size + 8192 ≤ 2 ^ 64
    → get id m.task_allocations ≡ some t
    → IsAccounted spare m
    → IsAccounted spare (task_alloc id size m).1
unfolding task_alloc
task_alloc-IsAccounted spare id size t m fits known d = elim (Bool-cases (size == 0)) [
  | inl empty ↦ rw empty d
  | inr some_size ↦
      let b = page_up_bounds size (ground (arith, some_size)) fits in
      rw some_size (
        keep_block_cases spare id (page_up size) t m (allocate (page_up size) m.allocator) refl b.0
          b.1 known d)
]

take_block-Permᴰ :
    (ptr : ℕ) (l : List Block) (b : Block) (rest : List Block)
    → take_block ptr l ≡ some (b, rest)
    → Permᴰ l (b ∷ rest)
unfolding take_block
take_block-Permᴰ ptr [] b rest e = absurd (ground arith)
take_block-Permᴰ ptr ((a, n) ∷ l) b rest e = elim (Bool-cases (a == ptr)) [
  | inl here ↦
      let same : (a, n) ≡ b = ground (arith, here) in
      let left : l ≡ rest = ground (arith, here) in rw (same, left) (Permᴰ.refl _)
  | inr other ↦ elim (Option-cases (take_block ptr l)) [
    | inl stop ↦ absurd (ground arith)
    | inr (r, found) ↦
        let same : r.0 ≡ b = ground (arith, other, found) in
        let left : (a, n) ∷ r.1 ≡ rest = ground (arith, other, found) in
        subst (λ l'. Permᴰ ((a, n) ∷ l) (b ∷ l')) left
          (subst (λ b'. Permᴰ ((a, n) ∷ l) (b' ∷ (a, n) ∷ r.1)) same
            (Permᴰ.trans (Permᴰ.cons refl (take_block-Permᴰ ptr l r.0 r.1 found))
              (Permᴰ.swap refl refl)))
  ]
]

free_cases :
    (spare : List Block) (id ptr : ℕ) (t : TaskAllocations) (m : Memory)
    (r : Option (Block × List Block))
    → get id m.task_allocations ≡ some t
    → take_block ptr t.heap_blocks ≡ r
    → IsAccounted spare m
    → IsAccounted spare (free_in id r m).1
unfolding free_in
free_cases spare id ptr t m none known e d = d
free_cases spare id ptr t m (some ((a, n), rest)) known e d =
    let es = m.task_allocations in
    let f = λ (t : TaskAllocations). record t { heap_blocks = rest } in
    let after = all_blocks (modify id f es) in
    Divides-deallocate a n (spare ++ after) m.allocator (
      Divides-Permᴰ (spare ++ all_blocks es) ((a, n) ∷ (spare ++ after)) m.allocator
        (Permᴰ.symm (
          join (a, n) spare after (all_blocks es)
            (removed (a, n) id f t es known
              (unfold blocks in
                Permᴰ.append_right (program_block t.program ++ (t.stack ∷ []))
                  (take_block-Permᴰ ptr t.heap_blocks (a, n) rest e)))))
        d)

-- task_free, for any task and any pointer, keeps the account of the program region: when before it
-- every page is free, in the memory of exactly one task, or set aside, then so it is afterwards.
pub task_free-IsAccounted :
    (spare : List Block) (id ptr : ℕ) (m : Memory)
    → IsAccounted spare m
    → IsAccounted spare (task_free id ptr m).1
unfolding task_free
task_free-IsAccounted spare id ptr m d = elim (Option-cases (get id m.task_allocations)) [
  | inl unknown ↦ rw (task_free, unknown) d
  | inr (t, known) ↦
      rw (task_free, known)
        (free_cases spare id ptr t m (take_block ptr t.heap_blocks) known refl d)
]

unload_cases :
    (spare : List Block) (id : ℕ) (m : Memory) (r : Option TaskAllocations)
    → get id m.task_allocations ≡ r
    → IsAccounted spare m
    → IsAccounted spare (unload_entry id m r)
unfolding unload_entry
unload_cases spare id m none e d = d
unload_cases spare id m (some t) known d =
    let es = m.task_allocations in
    Divides-release (blocks t) (spare ++ all_blocks (remove id es)) m.allocator (
      Divides-Permᴰ (spare ++ all_blocks es) (blocks t ++ (spare ++ all_blocks (remove id es)))
        m.allocator
        (Permᴰ.trans (Permᴰ.append_left spare (all_blocks-remove id t es known))
          (swap_front spare (blocks t) (all_blocks (remove id es))))
        d)

-- The end of any task.
pub unload_task-IsAccounted :
    (spare : List Block) (id : ℕ) (m : Memory)
    → IsAccounted spare m
    → IsAccounted spare (unload_task id m)
unfolding unload_task
unload_task-IsAccounted spare id m d =
    if_both (IsAccounted spare) m.initialized
      (unload_cases spare id m (get id m.task_allocations) refl d) d

-- A loaded program's memory passes from the spare blocks to a task that has no program.
pub register_task_program-IsAccounted :
    (spare : List Block) (id base size : ℕ) (name : List ℕ) (t : TaskAllocations) (m : Memory)
    → get id m.task_allocations ≡ some t
    → t.program ≡ none
    → IsAccounted ((base, size) ∷ spare) m
    → IsAccounted spare (register_task_program id base size name m)
unfolding register_task_program
register_task_program-IsAccounted spare id base size name t m known empty d =
    let es = m.task_allocations in
    let f = λ (a : TaskAllocations). record a { program = some (base, size, name) } in
    Divides-Permᴰ ((base, size) ∷ (spare ++ all_blocks es)) (spare ++ all_blocks (modify id f es))
      m.allocator
      (join (base, size) spare (all_blocks es) (all_blocks (modify id f es))
        (added (base, size) id f t es known
          (unfold blocks program_block in
            rw empty (Permᴰ.middle (base, size) t.heap_blocks (t.stack ∷ [])))))
      d
