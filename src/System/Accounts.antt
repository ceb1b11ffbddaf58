-- ===== src/System/Accounts.antt =====
-- The tasks of the scheduler and the entries of the registry belong together, and the memory is
-- accounted for.
use ralph_os.Base.{
  ℕ, suc, ◌+◌, ◌%◌, ◌^◌, ◌<◌, ◌≡◌, refl, ap, sym, ◌∙◌, true, not, ◌&&◌, ◌||◌, Option, none, some,
  List, [], ◌∷◌, arith, ◌==◌, if◌then◌else◌,
}
use ralph_os.ProgramAlloc.{ProgramAllocator, allocate}
use ralph_os.Scheduler.{ready, finished_ids, reap_finished_tasks}
use ralph_os.Executable.{
  Block, Memory, new, get, keep_stack, new_task, stack_size, register_task_stack, unload_task,
}
use ralph_os.Executable.Accounts.{IsAccounted}
use ralph_os.Executable.Steps.{new_task_cases, unload_task-IsAccounted}
use ralph_os.Executable.Ids.{
  IsAscending, IsAscending-weaken, holds, holds-insert, get-above, insert-IsAscending,
  unload_task-holds, unload_task-get,
}
use ralph_os.System.Tasks.{
  AreOrdered-weaken, AreOrdered-push, AreOrdered-retain, has_task-push, has_task-retain,
  kept_for-finished_ids, state_of-retain, AreOrdered, has_task, mem, state_of, kept_for,
}
use ralph_os.System.{System, memory_of, add_task, spawn, unload_all, reap}

-- The tasks in the list are the tasks with an entry, ids are in order and below the next one, and
-- every page of the region is free, in the memory of one of the tasks, or spare.
pub record IsSystem (spare : List Block) (s : System) : Type 0 where
  pub accounted : IsAccounted spare (memory_of s)
  pub entries : IsAscending 0 s.sched.next_id (memory_of s).task_allocations
  pub tasks : AreOrdered 0 s.sched.next_id s.sched.tasks
  pub owned : (id : ℕ) → holds id (memory_of s).task_allocations ≡ has_task id s.sched.tasks
  pub on : (memory_of s).initialized ≡ true

spawn_cases :
    (spare : List Block) (s : System) (r : Option ℕ × ProgramAllocator)
    → allocate stack_size (memory_of s).allocator ≡ r
    → s.sched.next_id + 1 < 2 ^ 32
    → IsSystem spare s
    → IsSystem spare
        (add_task s.sched.next_id
          (record s.sched { next_id = (s.sched.next_id + 1) % 2 ^ 32 })
          (keep_stack s.sched.next_id (memory_of s) r)
          s).1
unfolding add_task keep_stack register_task_stack
spawn_cases spare s (none, p) e room v =
    let id = s.sched.next_id in
    let es = (memory_of s).task_allocations in
    let next : (id + 1) % 2 ^ 32 ≡ suc id = omega arith in
    record {
      accounted =
          new_task_cases spare id (memory_of s) (none, p) e
            (get-above 0 id id es (omega arith) v.entries) v.accounted;
      entries =
          rw next (IsAscending-weaken 0 0 id (suc id) es (omega arith) (omega arith) v.entries);
      tasks =
          rw next
            (AreOrdered-weaken 0 0 id (suc id) s.sched.tasks (omega arith) (omega arith) v.tasks);
      owned = v.owned;
      on = v.on;
    }
spawn_cases spare s (some a, p) e room v =
    let id = s.sched.next_id in
    let es = (memory_of s).task_allocations in
    let next : (id + 1) % 2 ^ 32 ≡ suc id = omega arith in
    record {
      accounted =
          new_task_cases spare id (memory_of s) (some a, p) e
            (get-above 0 id id es (omega arith) v.entries) v.accounted;
      entries = rw next (
          insert-IsAscending 0 (suc id) id (new a stack_size) es (omega arith) (omega arith)
            (IsAscending-weaken 0 0 id (suc id) es (omega arith) (omega arith) v.entries));
      tasks = rw next (AreOrdered-push 0 id ready s.sched.tasks v.tasks);
      owned = λ j.
          holds-insert j id (new a stack_size) es
          ∙ (ap (λ b. (j == id) || b) (v.owned j)
              ∙ sym
                  (has_task-push j (record { id = id; state = ready; wake_at = 0 }) s.sched.tasks));
      on = v.on;
    }

-- A task is spawned, or there is no room for its stack.
pub spawn-IsSystem :
    (spare : List Block) (s : System)
    → s.sched.next_id + 1 < 2 ^ 32
    → IsSystem spare s
    → IsSystem spare (spawn s).1
unfolding spawn new_task
spawn-IsSystem spare s room v =
    spawn_cases spare s (allocate stack_size (memory_of s).allocator) refl room v

unload_all-IsAccounted :
    (spare : List Block) (hi : ℕ) (ids : List ℕ) (m : Memory)
    → m.initialized ≡ true
    → IsAscending 0 hi m.task_allocations
    → IsAccounted spare m
    → IsAccounted spare (unload_all ids m)
      × IsAscending 0 hi (unload_all ids m).task_allocations
      × ((unload_all ids m).initialized ≡ true)
unfolding unload_all
unload_all-IsAccounted spare hi [] m on h d = (d, h, on)
unload_all-IsAccounted spare hi (id ∷ ids) m on h d =
    let r = unload_task-holds hi 0 id m on h in
    unload_all-IsAccounted spare hi ids (unload_task id m) r.2 r.1
      (unload_task-IsAccounted spare id m d)

unload_all-holds :
    (hi j : ℕ) (ids : List ℕ) (m : Memory)
    → m.initialized ≡ true
    → IsAscending 0 hi m.task_allocations
    → holds j (unload_all ids m).task_allocations ≡ (not (mem j ids) && holds j m.task_allocations)
unfolding unload_all mem
unload_all-holds hi j [] m on h = refl
unload_all-holds hi j (id ∷ ids) m on h =
    let r = unload_task-holds hi j id m on h in
    ground (arith, r.0, unload_all-holds hi j ids (unload_task id m) r.2 r.1)

unload_all-get :
    (hi j : ℕ) (ids : List ℕ) (m : Memory)
    → m.initialized ≡ true
    → IsAscending 0 hi m.task_allocations
    → get j (unload_all ids m).task_allocations
      ≡ (if mem j ids then none else get j m.task_allocations)
unfolding unload_all mem
unload_all-get hi j [] m on h = refl
unload_all-get hi j (id ∷ ids) m on h =
    let r = unload_task-holds hi j id m on h in
    ground
      (arith, unload_task-get hi j id m on h, unload_all-get hi j ids (unload_task id m) r.2 r.1)

reap_system : (spare : List Block) (s : System) → IsSystem spare s → IsSystem spare (reap s)
unfolding reap reap_finished_tasks
reap_system spare s v =
    let ids = finished_ids s.sched.tasks in
    let done =
      unload_all-IsAccounted spare s.sched.next_id ids (memory_of s) v.on v.entries v.accounted in
    record {
      accounted = done.0;
      entries = done.1;
      tasks = AreOrdered-retain 0 s.sched.next_id s.sched.tasks v.tasks;
      owned = λ j.
          unload_all-holds s.sched.next_id j ids (memory_of s) v.on v.entries
          ∙ (ap (λ b. not (mem j ids) && b) (v.owned j)
              ∙ sym (has_task-retain 0 s.sched.next_id j s.sched.tasks v.tasks));
      on = done.2;
    }

-- Reaping, when the tasks in the list are the ones that hold memory and every page of the program
-- region is free, in the memory of exactly one task, or set aside: this is so again, and, for every
-- id, a task of that id that is finished is gone from the list and from the registry, while any other
-- has the state and the memory that it had.
pub reap-IsSystem :
    (spare : List Block) (s : System) (id : ℕ)
    → IsSystem spare s
    → IsSystem spare (reap s)
      × (state_of id (reap s).sched.tasks
          ≡ kept_for (state_of id s.sched.tasks) (state_of id s.sched.tasks))
      × (get id (memory_of (reap s)).task_allocations
          ≡ kept_for (state_of id s.sched.tasks) (get id (memory_of s).task_allocations))
unfolding reap reap_finished_tasks
reap-IsSystem spare s id v = (
  reap_system spare s v,
  state_of-retain 0 s.sched.next_id id s.sched.tasks v.tasks,
  unload_all-get s.sched.next_id id (finished_ids s.sched.tasks) (memory_of s) v.on v.entries
      ∙ kept_for-finished_ids 0 s.sched.next_id id s.sched.tasks
          (get id (memory_of s).task_allocations) v.tasks,
)
