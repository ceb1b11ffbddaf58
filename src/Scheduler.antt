-- ===== src/Scheduler.antt =====
-- src/scheduler.rs: the list of tasks, round robin, sleep and wake, and the removal of finished
-- tasks. The context switch and the halt are left to the hardware: `schedule` says what it does
-- before them.
pub mod Next
pub mod Reap
pub mod Switch
mod Examples
use ralph_os.Base.{
  ℕ, zero, suc, ◌+◌, ◌-◌, ◌/◌, ◌%◌, ◌^◌, Bool, true, false, not, ◌&&◌, ◌||◌, Option, none, some,
  List, [], ◌∷◌, map, ltb, leb, ◌==◌, if◌then◌else◌, length, get_or, set, take,
}

pub data TaskState : Type 0 where
  ready running sleeping finished : TaskState

-- `Task` of src/task.rs, without its name, context and stack.
pub record Task : Type 0 where
  pub id : ℕ
  pub state : TaskState
  pub wake_at : ℕ

pub record Scheduler : Type 0 where
  pub tasks : List Task
  pub current : ℕ
  pub next_id : ℕ

abbrev pub is_ready : Task → Bool
is_ready t = elim t.state [ ready ↦ true | _ ↦ false ]

abbrev pub is_sleeping : Task → Bool
is_sleeping t = elim t.state [ sleeping ↦ true | _ ↦ false ]

abbrev pub is_finished : Task → Bool
is_finished t = elim t.state [ finished ↦ true | _ ↦ false ]

-- What an index out of range finds; the source's indexing never does.
abbrev pub no_task : Task
no_task = record { id = 0; state = finished; wake_at = 0 }

abbrev pub task_at : Scheduler → ℕ → Task
task_at s i = get_or s.tasks i no_task

unfoldable pub wake : (now : ℕ) → Task → Task
wake now t = if is_sleeping t && leb t.wake_at now then record t { state = ready } else t

unfoldable pub wake_sleeping_tasks : (now : ℕ) → Scheduler → Scheduler
unfolding wake
wake_sleeping_tasks now s = record s { tasks = map (wake now) s.tasks }

-- The loop over `i` of `find_next_ready`, with `n` rounds left.
unfoldable pub search : List Task → (current n i : ℕ) → Option ℕ
search tasks current zero i = none
search tasks current (suc n) i =
    let idx = (current + i) % length tasks in
    let later = search tasks current n (i + 1) in
    if is_ready (get_or tasks idx no_task) then some idx else later

unfoldable pub find_next_ready : Scheduler → Option ℕ
unfolding search
find_next_ready s =
    let found = search s.tasks s.current (length s.tasks) 1 in
    if length s.tasks == 0 then none else found

unfoldable pub any : (Task → Bool) → List Task → Bool
any test [] = false
any test (t ∷ ts) = test t || any test ts

unfoldable pub has_sleeping_tasks : Scheduler → Bool
has_sleeping_tasks s = any is_sleeping s.tasks

unfoldable pub has_living_tasks : Scheduler → Bool
has_living_tasks s = any (λ t. not (is_finished t)) s.tasks

-- The finished tasks' ids, which `executable::unload_task` is called for.
unfoldable pub finished_ids : List Task → List ℕ
finished_ids [] = []
finished_ids (t ∷ ts) = if is_finished t then t.id ∷ finished_ids ts else finished_ids ts

-- `retain(|t| t.state != TaskState::Finished)`
unfoldable pub retain : List Task → List Task
retain [] = []
retain (t ∷ ts) = if is_finished t then retain ts else t ∷ retain ts

-- The number of finished tasks.
unfoldable pub count_finished : List Task → ℕ
count_finished [] = 0
count_finished (t ∷ ts) = if is_finished t then suc (count_finished ts) else count_finished ts

-- The scheduler and the tasks unloaded.
unfoldable pub reap_finished_tasks : Scheduler → Scheduler × List ℕ
unfolding finished_ids retain count_finished
reap_finished_tasks s =
    let before = count_finished (take s.current s.tasks) in
    let kept = retain s.tasks in
    let moved = if leb before s.current then s.current - before else s.current in
    let valid = if leb (length kept) moved && not (length kept == 0) then 0 else moved in
    (record s { tasks = kept; current = valid }, finished_ids s.tasks)

-- What a pass of the loop of `schedule` comes to.
pub data Choice : Type 0 where
  switch : (from to : ℕ) → Choice
  halt give_up spin : Choice

unfoldable pub set_state : TaskState → ℕ → Scheduler → Scheduler
set_state state i s = record s { tasks = set s.tasks i (record (task_at s i) { state = state }) }

-- One pass of the loop.
unfoldable pub choose : Scheduler → Scheduler × Choice
choose s = elim (find_next_ready s) [
  | some next ↦ (set_state running next (record s { current = next }), switch s.current next)
  | none ↦ (s, if has_sleeping_tasks s then halt else if has_living_tasks s then spin else give_up)
]

-- The first part of `schedule`, before the loop.
unfoldable pub prepare : (now : ℕ) → Scheduler → Scheduler × List ℕ
prepare now s =
    let woken = wake_sleeping_tasks now s in
    let exiting =
      ltb woken.current (length woken.tasks) && is_finished (task_at woken woken.current) in
    let reaped = reap_finished_tasks woken in
    if not exiting && any is_finished woken.tasks then reaped else (woken, [])

-- `yield_now`, `sleep_ticks` and `exit_task`, up to the call of `schedule`.
unfoldable pub mark : Task → Scheduler → Scheduler
mark t s =
    if ltb s.current (length s.tasks) then record s { tasks = set s.tasks s.current t } else s

unfoldable pub yield_now : Scheduler → Scheduler
yield_now s = mark (record (task_at s s.current) { state = ready }) s

unfoldable pub sleep_ticks : (now ticks : ℕ) → Scheduler → Scheduler
sleep_ticks now ticks s =
    mark (record (task_at s s.current) { state = sleeping; wake_at = (now + ticks) % 2 ^ 64 }) s

unfoldable pub exit_task : Scheduler → Scheduler
exit_task s = mark (record (task_at s s.current) { state = finished }) s

unfoldable pub current_task_id : Scheduler → Option ℕ
current_task_id s = if ltb s.current (length s.tasks) then some (task_at s s.current).id else none
