-- ===== src/Executable/Ids.antt =====
-- The ids of the registry's entries: ascending, so that each task has one entry.
use ralph_os.Base.{
  ℕ, suc, ◌≤◌, ◌<◌, ◌≡◌, inl, inr, refl, ◌∙◌, Bool, true, false, not, ◌&&◌, ◌||◌, Option, none,
  some, [], ◌∷◌, arith, ltb, ◌==◌, if◌then◌else◌, Bool-cases,
}
use ralph_os.Executable.{
  TaskAllocations, Entries, Memory, get, insert, remove, modify, unload_entry, unload_task,
}

-- Ids from `lo` up to, and without, `hi`.
abbrev pub IsAscending : ℕ → ℕ → Entries → Type 0
IsAscending lo hi [] = Unit {0}
IsAscending lo hi ((k, v) ∷ rest) = (lo ≤ k) × (k < hi) × IsAscending (suc k) hi rest

pub IsAscending-weaken :
    (lo lo' hi hi' : ℕ) (es : Entries)
    → lo' ≤ lo
    → hi ≤ hi'
    → IsAscending lo hi es
    → IsAscending lo' hi' es
IsAscending-weaken lo lo' hi hi' [] p q h = tt
IsAscending-weaken lo lo' hi hi' ((k, v) ∷ rest) p q h = (
  omega (arith, h.0),
  omega (arith, h.1),
  IsAscending-weaken (suc k) (suc k) hi hi' rest (omega arith) q h.2,
)

pub get-above : (lo hi id : ℕ) (es : Entries) → hi ≤ id → IsAscending lo hi es → get id es ≡ none
unfolding get
get-above lo hi id [] p h = refl
get-above lo hi id ((k, v) ∷ rest) p h = ground (arith, h.1, get-above (suc k) hi id rest p h.2)

pub get-below : (lo hi id : ℕ) (es : Entries) → id < lo → IsAscending lo hi es → get id es ≡ none
unfolding get
get-below lo hi id [] p h = refl
get-below lo hi id ((k, v) ∷ rest) p h =
    ground (arith, h.0, get-below (suc k) hi id rest (omega (arith, h.0)) h.2)

pub insert-IsAscending :
    (lo hi id : ℕ) (t : TaskAllocations) (es : Entries)
    → lo ≤ id
    → id < hi
    → IsAscending lo hi es
    → IsAscending lo hi (insert id t es)
unfolding insert
insert-IsAscending lo hi id t [] p q h = (p, q, tt)
insert-IsAscending lo hi id t ((k, v) ∷ rest) p q h = elim (Bool-cases (id == k)) [
  | inl same ↦ rw same (
    p,
    q,
    IsAscending-weaken (suc k) (suc id) hi hi rest (ground (arith, same)) (omega arith) h.2,
  )
  | inr other ↦ elim (Bool-cases (ltb id k)) [
    | inl before ↦ rw (other, before) (p, q, (ground (arith, before), h.1, h.2))
    | inr after ↦
        rw (other, after)
          (h.0, h.1, insert-IsAscending (suc k) hi id t rest (ground (arith, other, after)) q h.2)
  ]
]

pub modify-IsAscending :
    (lo hi id : ℕ) (f : TaskAllocations → TaskAllocations) (es : Entries)
    → IsAscending lo hi es
    → IsAscending lo hi (modify id f es)
unfolding modify
modify-IsAscending lo hi id f [] h = tt
modify-IsAscending lo hi id f ((k, v) ∷ rest) h = elim (Bool-cases (id == k)) [
  | inl same ↦ rw same h
  | inr other ↦ rw other (h.0, h.1, modify-IsAscending (suc k) hi id f rest h.2)
]

pub remove-IsAscending :
    (lo hi id : ℕ) (es : Entries) → IsAscending lo hi es → IsAscending lo hi (remove id es)
unfolding remove
remove-IsAscending lo hi id [] h = tt
remove-IsAscending lo hi id ((k, v) ∷ rest) h = elim (Bool-cases (id == k)) [
  | inl same ↦
      rw same (IsAscending-weaken (suc k) lo hi hi rest (omega (arith, h.0)) (omega arith) h.2)
  | inr other ↦ rw other (h.0, h.1, remove-IsAscending (suc k) hi id rest h.2)
]

-- Whether a task holds memory.
unfoldable pub holds : ℕ → Entries → Bool
holds id [] = false
holds id ((k, v) ∷ rest) = (id == k) || holds id rest

holds-below : (lo hi id : ℕ) (es : Entries) → id < lo → IsAscending lo hi es → holds id es ≡ false
unfolding holds
holds-below lo hi id [] p h = refl
holds-below lo hi id ((k, v) ∷ rest) p h =
    ground (arith, h.0, holds-below (suc k) hi id rest (omega (arith, h.0)) h.2)

pub holds-insert :
    (j id : ℕ) (t : TaskAllocations) (es : Entries)
    → holds j (insert id t es) ≡ ((j == id) || holds j es)
unfolding holds insert
holds-insert j id t [] = refl
holds-insert j id t ((k, v) ∷ rest) = ground (arith, holds-insert j id t rest)

pub holds-modify :
    (j id : ℕ) (f : TaskAllocations → TaskAllocations) (es : Entries)
    → holds j (modify id f es) ≡ holds j es
unfolding holds modify
holds-modify j id f [] = refl
holds-modify j id f ((k, v) ∷ rest) = ground (arith, holds-modify j id f rest)

pub holds-remove :
    (lo hi j id : ℕ) (es : Entries)
    → IsAscending lo hi es
    → holds j (remove id es) ≡ (not (j == id) && holds j es)
unfolding holds remove
holds-remove lo hi j id [] h = ground arith
holds-remove lo hi j id ((k, v) ∷ rest) h =
    ground (
      arith,
      holds-remove (suc k) hi j id rest h.2,
      holds-below (suc k) hi k rest (omega arith) h.2,
    )

pub get-insert : (id : ℕ) (t : TaskAllocations) (es : Entries) → get id (insert id t es) ≡ some t
unfolding get insert
get-insert id t [] = ground arith
get-insert id t ((k, v) ∷ rest) = ground (arith, get-insert id t rest)

pub get-modify :
    (id : ℕ) (f : TaskAllocations → TaskAllocations) (t : TaskAllocations) (es : Entries)
    → get id es ≡ some t
    → get id (modify id f es) ≡ some (f t)
unfolding get modify
get-modify id f t [] e = absurd (ground arith)
get-modify id f t ((k, v) ∷ rest) e = ground (arith, get-modify id f t rest)

get-none-holds : (id : ℕ) (es : Entries) → get id es ≡ none → holds id es ≡ false
unfolding holds get
get-none-holds id [] e = refl
get-none-holds id ((k, v) ∷ rest) e = ground (arith, get-none-holds id rest)

get-remove :
    (lo hi j id : ℕ) (es : Entries)
    → IsAscending lo hi es
    → get j (remove id es) ≡ (if j == id then none else get j es)
unfolding get remove
get-remove lo hi j id [] h = ground arith
get-remove lo hi j id ((k, v) ∷ rest) h = elim (Bool-cases (id == k)) [
  | inl same ↦ elim (Bool-cases (j == id)) [
    | inl this ↦
        let below : j < suc k = ground (arith, same, this) in
        ground (arith, same, this, get-below (suc k) hi j rest below h.2)
    | inr other ↦ ground (arith, same, other)
  ]
  | inr kept ↦ ground (arith, kept, get-remove (suc k) hi j id rest h.2)
]

get_absent :
    (j id : ℕ) (es : Entries) → get id es ≡ none → get j es ≡ (if j == id then none else get j es)
get_absent j id es e = elim (Bool-cases (j == id)) [
  | inl same ↦ let eq : j ≡ id = ground (arith, same) in rw same (rw eq e)
  | inr other ↦ rw other refl
]

unload_entry-get :
    (hi j id : ℕ) (m : Memory) (r : Option TaskAllocations)
    → get id m.task_allocations ≡ r
    → IsAscending 0 hi m.task_allocations
    → get j (unload_entry id m r).task_allocations
      ≡ (if j == id then none else get j m.task_allocations)
unfolding unload_entry
unload_entry-get hi j id m none e h = get_absent j id m.task_allocations e
unload_entry-get hi j id m (some t) e h = get-remove 0 hi j id m.task_allocations h

-- The end of a task removes its entry and keeps what every other task holds.
pub unload_task-get :
    (hi j id : ℕ) (m : Memory)
    → m.initialized ≡ true
    → IsAscending 0 hi m.task_allocations
    → get j (unload_task id m).task_allocations
      ≡ (if j == id then none else get j m.task_allocations)
unfolding unload_task
unload_task-get hi j id m on h =
    let r = unload_entry-get hi j id m (get id m.task_allocations) refl h in simp on r

holds_absent :
    (j id : ℕ) (es : Entries) → holds id es ≡ false → holds j es ≡ (not (j == id) && holds j es)
holds_absent j id es e = elim (Bool-cases (j == id)) [
  | inl same ↦ let eq : j ≡ id = ground (arith, same) in rw same (rw eq e)
  | inr other ↦ rw other refl
]

unload_entry-holds :
    (hi j id : ℕ) (m : Memory) (r : Option TaskAllocations)
    → get id m.task_allocations ≡ r
    → IsAscending 0 hi m.task_allocations
    → (holds j (unload_entry id m r).task_allocations
        ≡ (not (j == id) && holds j m.task_allocations))
      × IsAscending 0 hi (unload_entry id m r).task_allocations
      × ((unload_entry id m r).initialized ≡ m.initialized)
unfolding unload_entry
unload_entry-holds hi j id m none e h =
    (holds_absent j id m.task_allocations (get-none-holds id m.task_allocations e), h, refl)
unload_entry-holds hi j id m (some t) e h = (
  holds-remove 0 hi j id m.task_allocations h,
  remove-IsAscending 0 hi id m.task_allocations h,
  refl,
)

-- The end of a task, once the registry is initialized, leaves every other task's entry and no
-- entry for that one.
pub unload_task-holds :
    (hi j id : ℕ) (m : Memory)
    → m.initialized ≡ true
    → IsAscending 0 hi m.task_allocations
    → (holds j (unload_task id m).task_allocations ≡ (not (j == id) && holds j m.task_allocations))
      × IsAscending 0 hi (unload_task id m).task_allocations
      × ((unload_task id m).initialized ≡ true)
unfolding unload_task
unload_task-holds hi j id m on h =
    let r = unload_entry-holds hi j id m (get id m.task_allocations) refl h in
    simp on (r.0, r.1, r.2 ∙ on)
