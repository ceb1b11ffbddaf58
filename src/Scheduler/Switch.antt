-- ===== src/Scheduler/Switch.antt =====
-- The context of the task that calls `schedule` is saved into that task's slot.
use ralph_os.Base.{
  ℕ, zero, suc, ◌<◌, ◌≡◌, refl, ap, ◌∙◌, List, [], ◌∷◌, map, arith, length, get_or, inl, inr,
  Bool-cases, lt→ltb,
}
use ralph_os.Scheduler.{
  Task, Scheduler, is_finished, no_task, task_at, any, wake, wake_sleeping_tasks, prepare,
}
use ralph_os.Scheduler.Reap.{reap_finished_tasks_lem}

length-wake : (now : ℕ) (ts : List Task) → length (map (wake now) ts) ≡ length ts
length-wake now [] = refl
length-wake now (t ∷ ts) = ap suc (length-wake now ts)

wake-id : (now : ℕ) (t : Task) → (wake now t).id ≡ t.id
unfolding wake
wake-id now t = ground arith

id-wake :
    (now : ℕ) (ts : List Task) (i : ℕ)
    → (get_or (map (wake now) ts) i no_task).id ≡ (get_or ts i no_task).id
id-wake now [] i = refl
id-wake now (t ∷ ts) zero = wake-id now t
id-wake now (t ∷ ts) (suc i) = id-wake now ts i

-- The first part of schedule, which wakes and reaps, leaves the current index, if it is that of a
-- task, at the same task: the one whose context the switch saves.
pub prepare_lem :
    (now : ℕ) (s : Scheduler)
    → s.current < length s.tasks
    → let r = (prepare now s).0 in
      (r.current < length r.tasks) × ((task_at r r.current).id ≡ (task_at s s.current).id)
unfolding prepare wake_sleeping_tasks
prepare_lem now s h =
    let w = wake_sleeping_tasks now s in
    let inside : w.current < length w.tasks = rw length-wake h in
    let same : (task_at w w.current).id ≡ (task_at s s.current).id =
      id-wake now s.tasks s.current in
    let at_task = lt→ltb w.current (length w.tasks) inside in
    elim (Bool-cases (is_finished (task_at w w.current))) [
      | inl exiting ↦ rw (at_task, exiting) (inside, same)
      | inr stays ↦
          let r = reap_finished_tasks_lem w inside stays in
          elim (Bool-cases (any is_finished w.tasks)) [
            | inl some_done ↦ rw (at_task, stays, some_done) (r.0, ap (λ t. t.id) r.1 ∙ same)
            | inr none_done ↦ rw (at_task, stays, none_done) (inside, same)
          ]
    ]
