-- ===== src/Heap/Majority.antt =====
-- `find_majority_owner` of src/allocator.rs: the task with the most bytes of a range.
use ralph_os.Base.{
  ℕ, zero, suc, ◌+◌, ◌-◌, ◌%◌, ◌^◌, min, max, Bool, true, false, ◌&&◌, ◌||◌, Option, none, some,
  List, [], ◌∷◌, ◌++◌, ltb, leb, ◌==◌, if◌then◌else◌, length,
}
use ralph_os.Heap.{
  AllocationHeader, LinkedListAllocator, free_block, allocated, broken, seen_at, decode_task_id,
}

abbrev pub Counts : Type 0
Counts = List (Option ℕ × ℕ)

abbrev max_tasks : ℕ
max_tasks = 8

unfoldable pub same_owner : Option ℕ → Option ℕ → Bool
same_owner none none = true
same_owner none (some b) = false
same_owner (some a) none = false
same_owner (some a) (some b) = a == b

-- The counts with the bytes of a task that is among them.
unfoldable pub raise : Option ℕ → ℕ → Counts → Option Counts
unfolding same_owner
raise id n [] = none
raise id n ((owner, bytes) ∷ rest) =
    let later = raise id n rest in
    if same_owner owner id
    then some ((owner, (bytes + n) % 2 ^ 64) ∷ rest)
    else elim later [ none ↦ none | some rest' ↦ some ((owner, bytes) ∷ rest') ]

-- A ninth task is not counted.
unfoldable pub add_bytes : Option ℕ → ℕ → Counts → Counts
unfolding raise
add_bytes id n counts = elim (raise id n counts) [
  | some counts' ↦ counts'
  | none ↦ if ltb (length counts) max_tasks then counts ++ ((id, n) ∷ []) else counts
]

-- An allocation at `from`, for the range from `start` to `stop`.
unfoldable pub count : (start stop from : ℕ) → AllocationHeader → Counts → Counts
unfolding add_bytes decode_task_id
count start stop from h counts =
    let to = from + h.block_size in
    let bytes = (min to stop + 2 ^ 64 - max from start) % 2 ^ 64 in
    if ltb start to && (ltb from stop && ltb 0 bytes)
    then add_bytes (decode_task_id h.task_id) bytes counts
    else counts

unfoldable pub count_from : LinkedListAllocator → (start stop fuel cursor : ℕ) → Counts → Counts
unfolding seen_at count
count_from a start stop zero cursor counts = counts
count_from a start stop (suc fuel) cursor counts =
    if ltb cursor a.heap_end
    then elim (seen_at a cursor) [
      | free_block n ↦ count_from a start stop fuel (cursor + n) counts
      | allocated h ↦
          count_from a start stop fuel (cursor + h.block_size) (count start stop cursor h counts)
      | broken ↦ counts
    ]
    else counts

unfoldable pub best_of : Option (Option ℕ × ℕ) → Counts → Option (Option ℕ × ℕ)
best_of best [] = best
best_of none ((owner, bytes) ∷ rest) =
    best_of (if ltb 0 bytes then some (owner, bytes) else none) rest
best_of (some (leader, most)) ((owner, bytes) ∷ rest) =
    best_of (if ltb most bytes then some (owner, bytes) else some (leader, most)) rest

unfoldable pub find_majority_owner : (start stop : ℕ) → LinkedListAllocator → Option (Option ℕ × ℕ)
unfolding count_from best_of
find_majority_owner start stop a =
    if leb a.heap_end start || leb stop a.heap_start
    then none
    else best_of none (count_from a start stop (a.heap_end - a.heap_start) a.heap_start [])
