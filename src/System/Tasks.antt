-- ===== src/System/Tasks.antt =====
-- The list of tasks of src/scheduler.rs in the order of their ids, and what reaping does to it.
use ralph_os.Base.{
  ℕ, suc, ◌≤◌, ◌<◌, ◌≡◌, inl, inr, refl, Bool, false, not, ◌&&◌, ◌||◌, Option, none, some, List, [],
  ◌∷◌, ◌++◌, arith, ◌==◌, if◌then◌else◌, Bool-cases,
}
use ralph_os.Scheduler.{
  Task, TaskState, ready, running, sleeping, finished, is_finished, finished_ids, retain,
}

-- Tasks in the order of their ids, from `lo` up to, and without, `hi`.
abbrev pub AreOrdered : ℕ → ℕ → List Task → Type 0
AreOrdered lo hi [] = lo ≤ hi
AreOrdered lo hi (t ∷ rest) = (lo ≤ t.id) × (t.id < hi) × AreOrdered (suc t.id) hi rest

unfoldable pub has_task : ℕ → List Task → Bool
has_task id [] = false
has_task id (t ∷ rest) = (id == t.id) || has_task id rest

unfoldable pub mem : ℕ → List ℕ → Bool
mem id [] = false
mem id (k ∷ rest) = (id == k) || mem id rest

AreOrdered-le : (lo hi : ℕ) (ts : List Task) → AreOrdered lo hi ts → lo ≤ hi
AreOrdered-le lo hi [] h = h
AreOrdered-le lo hi (t ∷ rest) h = omega (arith, h.0, h.1)

pub AreOrdered-weaken :
    (lo lo' hi hi' : ℕ) (ts : List Task)
    → lo' ≤ lo
    → hi ≤ hi'
    → AreOrdered lo hi ts
    → AreOrdered lo' hi' ts
AreOrdered-weaken lo lo' hi hi' [] p q h = omega arith
AreOrdered-weaken lo lo' hi hi' (t ∷ rest) p q h = (
  omega (arith, h.0),
  omega (arith, h.1),
  AreOrdered-weaken (suc t.id) (suc t.id) hi hi' rest (omega arith) q h.2,
)

-- A new task with the next id goes to the end.
pub AreOrdered-push :
    (lo hi : ℕ) (state : TaskState) (ts : List Task)
    → AreOrdered lo hi ts
    → AreOrdered lo (suc hi) (ts ++ (record { id = hi; state = state; wake_at = 0 } ∷ []))
AreOrdered-push lo hi state [] h = (h, omega arith, omega arith)
AreOrdered-push lo hi state (t ∷ rest) h =
    (h.0, omega (arith, h.1), AreOrdered-push (suc t.id) hi state rest h.2)

pub AreOrdered-retain :
    (lo hi : ℕ) (ts : List Task) → AreOrdered lo hi ts → AreOrdered lo hi (retain ts)
unfolding retain
AreOrdered-retain lo hi [] h = h
AreOrdered-retain lo hi (t ∷ rest) h = elim (Bool-cases (is_finished t)) [
  | inl gone ↦ rw gone (
      AreOrdered-weaken (suc t.id) lo hi hi (retain rest) (omega (arith, h.0)) (omega arith)
        (AreOrdered-retain (suc t.id) hi rest h.2))
  | inr kept ↦ rw kept (h.0, h.1, AreOrdered-retain (suc t.id) hi rest h.2)
]

has_task-below :
    (lo hi id : ℕ) (ts : List Task) → id < lo → AreOrdered lo hi ts → has_task id ts ≡ false
unfolding has_task
has_task-below lo hi id [] p h = refl
has_task-below lo hi id (t ∷ rest) p h =
    ground (arith, h.0, has_task-below (suc t.id) hi id rest (omega (arith, h.0)) h.2)

pub has_task-push :
    (id : ℕ) (t : Task) (ts : List Task)
    → has_task id (ts ++ (t ∷ [])) ≡ ((id == t.id) || has_task id ts)
unfolding has_task
has_task-push id t [] = refl
has_task-push id t (u ∷ rest) = ground (arith, has_task-push id t rest)

finished-has_task :
    (id : ℕ) (ts : List Task) → has_task id ts ≡ false → mem id (finished_ids ts) ≡ false
unfolding has_task mem finished_ids
finished-has_task id [] e = refl
finished-has_task id (t ∷ rest) e = ground (arith, finished-has_task id rest)

-- The tasks that stay are those that are not unloaded.
pub has_task-retain :
    (lo hi id : ℕ) (ts : List Task)
    → AreOrdered lo hi ts
    → has_task id (retain ts) ≡ (not (mem id (finished_ids ts)) && has_task id ts)
unfolding has_task mem retain finished_ids
has_task-retain lo hi id [] h = refl
has_task-retain lo hi id (t ∷ rest) h =
    let later = has_task-retain (suc t.id) hi id rest h.2 in
    elim (Bool-cases (id == t.id)) [
      | inl same ↦
          let below = has_task-below (suc t.id) hi id rest (ground (arith, same)) h.2 in
          ground (arith, later, same, below, finished-has_task id rest below)
      | inr other ↦ ground (arith, later, other)
    ]

-- The state of the task with an id, if there is one, and what is kept for a task in that state.
unfoldable pub state_of : ℕ → List Task → Option TaskState
state_of id [] = none
state_of id (t ∷ rest) = if id == t.id then some t.state else state_of id rest

abbrev pub kept_for {ℓ} : {A : Type ℓ} → Option TaskState → Option A → Option A
kept_for (some finished) x = none
kept_for (some ready) x = x
kept_for (some running) x = x
kept_for (some sleeping) x = x
kept_for none x = x

kept_for-state {ℓ} :
    {A : Type ℓ}
    → (t : Task) (x : Option A) → kept_for (some t.state) x ≡ (if is_finished t then none else x)
kept_for-state t x =
    elim t.state
      as (λ u. kept_for (some u) x ≡ (if is_finished (record t { state = u }) then none else x)) [
        | finished ↦ refl
        | ready ↦ refl
        | running ↦ refl
        | sleeping ↦ refl
      ]

state_of-below :
    (lo hi id : ℕ) (ts : List Task) → id < lo → AreOrdered lo hi ts → state_of id ts ≡ none
unfolding state_of
state_of-below lo hi id [] p h = refl
state_of-below lo hi id (t ∷ rest) p h =
    ground (arith, h.0, state_of-below (suc t.id) hi id rest (omega (arith, h.0)) h.2)

pub kept_for-finished_ids {ℓ} :
    {A : Type ℓ}
    → (lo hi id : ℕ) (ts : List Task) (x : Option A) → AreOrdered lo hi ts
    → (if mem id (finished_ids ts) then none else x) ≡ kept_for (state_of id ts) x
unfolding mem finished_ids state_of
kept_for-finished_ids lo hi id [] x h = refl
kept_for-finished_ids lo hi id (t ∷ rest) x h = elim (Bool-cases (id == t.id)) [
  | inl same ↦
      let below = has_task-below (suc t.id) hi id rest (ground (arith, same)) h.2 in
      ground (arith, same, kept_for-state t x, finished-has_task id rest below)
  | inr other ↦ ground (arith, other, kept_for-finished_ids (suc t.id) hi id rest x h.2)
]

pub state_of-retain :
    (lo hi id : ℕ) (ts : List Task)
    → AreOrdered lo hi ts
    → state_of id (retain ts) ≡ kept_for (state_of id ts) (state_of id ts)
unfolding retain state_of
state_of-retain lo hi id [] h = refl
state_of-retain lo hi id (t ∷ rest) h = elim (Bool-cases (id == t.id)) [
  | inl same ↦
      let gone =
        state_of-below (suc t.id) hi id (retain rest) (ground (arith, same))
          (AreOrdered-retain (suc t.id) hi rest h.2) in
      ground (arith, same, gone, kept_for-state t (some t.state))
  | inr other ↦ ground (arith, other, state_of-retain (suc t.id) hi id rest h.2)
]
