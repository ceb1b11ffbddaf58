-- ===== src/Scheduler/Reap.antt =====
-- Reaping keeps the current task.
use ralph_os.Base.{
  ℕ, zero, suc, ◌-◌, ◌≤◌, ◌<◌, ◌≡◌, refl, true, false, List, [], ◌∷◌, arith, leb, length, get_or,
  take, inl, inr, Bool-cases, All,
}
use ralph_os.Scheduler.{
  Task, Scheduler, is_finished, no_task, task_at, retain, count_finished, reap_finished_tasks,
}

-- A task that is not finished is found again as many places earlier as finished tasks stood
-- before it.
retain_at :
    (ts : List Task) (i : ℕ)
    → i < length ts
    → is_finished (get_or ts i no_task) ≡ false
    → (count_finished (take i ts) ≤ i)
      × (i - count_finished (take i ts) < length (retain ts))
      × (get_or (retain ts) (i - count_finished (take i ts)) no_task ≡ get_or ts i no_task)
unfolding retain count_finished
retain_at [] i h e = absurd (omega arith)
retain_at (t ∷ ts) zero h e = rw e (omega arith, omega arith, refl)
retain_at (t ∷ ts) (suc i) h e =
    let r = retain_at ts i (omega arith) e in
    let step : suc i - count_finished (take i ts) ≡ suc (i - count_finished (take i ts)) =
      omega (arith, r.0) in
    let less : suc i - suc (count_finished (take i ts)) ≡ i - count_finished (take i ts) =
      omega arith in
    elim (Bool-cases (is_finished t)) [
      | inl gone ↦ rw (gone, less) (omega (arith, r.0), r.1, r.2)
      | inr kept ↦ rw (kept, step) (omega (arith, r.0), omega (arith, r.1), r.2)
    ]

retain-All : (ts : List Task) → All (λ t. is_finished t ≡ false) (retain ts)
unfolding retain
retain-All [] = tt
retain-All (t ∷ ts) = elim (Bool-cases (is_finished t)) [
  | inl gone ↦ rw gone (retain-All ts)
  | inr kept ↦ rw kept (kept, retain-All ts)
]

-- Removing the finished tasks leaves the current index, if it is that of a task that is not
-- finished, at the same task, and no finished task in the list.
pub reap_finished_tasks_lem :
    (s : Scheduler)
    → s.current < length s.tasks
    → is_finished (task_at s s.current) ≡ false
    → let r = (reap_finished_tasks s).0 in
      (r.current < length r.tasks)
      × (task_at r r.current ≡ task_at s s.current)
      × All (λ t. is_finished t ≡ false) r.tasks
unfolding reap_finished_tasks
reap_finished_tasks_lem s h e =
    let r = retain_at s.tasks s.current h e in
    let fits : leb (count_finished (take s.current s.tasks)) s.current ≡ true =
      ground (arith, r.0) in
    let valid : leb (length (retain s.tasks)) (s.current - count_finished (take s.current s.tasks))
        ≡ false =
      ground (arith, r.1) in
    rw (fits, valid) (r.1, r.2, retain-All s.tasks)
