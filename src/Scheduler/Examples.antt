-- ===== src/Scheduler/Examples.antt =====
-- Three tasks: one that has finished, the running one, and one that is ready.
use ralph_os.Base.{◌<◌, ◌≡◌, [], ◌∷◌, length, arith}
use ralph_os.Scheduler.{ready, running, finished, Scheduler, task_at, find_next_ready, prepare}
use ralph_os.Scheduler.Next.{NextReady, find_next_ready_lem}
use ralph_os.Scheduler.Switch.{prepare_lem}

abbrev three_tasks : Scheduler
three_tasks = record {
  tasks =
      record { id = 0; state = finished; wake_at = 0 }
      ∷ record { id = 1; state = running; wake_at = 0 }
      ∷ record { id = 2; state = ready; wake_at = 0 }
      ∷ [];
  current = 1;
  next_id = 3;
}

find_next_ready_lem_example : NextReady three_tasks (find_next_ready three_tasks)
find_next_ready_lem_example = find_next_ready_lem three_tasks (omega arith)

prepare_lem_example :
    ((prepare 7 three_tasks).0.current < length (prepare 7 three_tasks).0.tasks)
    × ((task_at (prepare 7 three_tasks).0 (prepare 7 three_tasks).0.current).id
        ≡ (task_at three_tasks three_tasks.current).id)
prepare_lem_example = prepare_lem 7 three_tasks (omega arith)
