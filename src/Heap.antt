-- ===== src/Heap.antt =====
-- The kernel heap of src/allocator.rs: a free list as in FreeList, and a header in front of each
-- allocation.
pub mod Tiles
pub mod Refine
pub mod Freeing
pub mod Walk
pub mod Query
pub mod Majority
mod Examples
use ralph_os.Base.{
  ℕ, zero, suc, ◌+◌, ◌-◌, ◌*◌, ◌/◌, ◌%◌, ◌^◌, min, max, Bool, true, false, not, ◌&&◌, ◌||◌, Option,
  none, some, List, [], ◌∷◌, ltb, leb, ◌==◌, if◌then◌else◌, length,
}
use ralph_os.FreeList.{FreeBlock, block, min_block_size, add_free, merge_free, total}
use ralph_os.ProgramAlloc.{Notice, on_alloc, on_dealloc}

abbrev pub alignment : ℕ
alignment = 8

abbrev pub header_size : ℕ
header_size = 16

-- A task's id, or `none` for the kernel, as a `u32`.
unfoldable pub encode_task_id : Option ℕ → ℕ
encode_task_id none = 2 ^ 32 - 1
encode_task_id (some id) = id

unfoldable pub decode_task_id : ℕ → Option ℕ
decode_task_id raw = if raw == 2 ^ 32 - 1 then none else some raw

-- A header whose magic number is right.
pub record AllocationHeader : Type 0 where
  pub task_id : ℕ
  pub block_size : ℕ

-- `headers a` is what is found at the address `a`: `none` where the four bytes there are not the
-- magic number.
abbrev pub Headers : Type 0
Headers = ℕ → Option AllocationHeader

pub record LinkedListAllocator : Type 0 where
  pub head : List FreeBlock
  pub heap_start : ℕ
  pub heap_end : ℕ
  pub headers : Headers
  pub notices : List Notice

abbrev pub put_header : ℕ → Option AllocationHeader → Headers → Headers
put_header a h hs = λ x. if x == a then h else hs x

-- `none` is a failed assertion. `FreeBlock::new` overwrites the place of a header: its size, a
-- multiple of 8, cannot read as the magic number.
unfoldable pub init : (start size : ℕ) → LinkedListAllocator → Option LinkedListAllocator
init start size a =
    if (start % alignment == 0) && (size % alignment == 0)
    then some (record a {
      head = block start size ∷ [];
      heap_start = start;
      heap_end = (start + size) % 2 ^ 64;
      headers = put_header start none a.headers;
    })
    else none

unfoldable pub align_up : ℕ → ℕ
align_up a = (a + alignment - 1) % 2 ^ 64 / alignment * alignment

unfoldable pub total_size : ℕ → ℕ
unfolding align_up
total_size size = max (align_up ((header_size + max size 1) % 2 ^ 64)) min_block_size

-- The first block that is large enough, and the list without it.
unfoldable pub take_fit : ℕ → List FreeBlock → Option (ℕ × ℕ × List FreeBlock)
take_fit need [] = none
take_fit need (block s n ∷ next) =
    let later = take_fit need next in
    if leb need n
    then some (s, n, next)
    else elim later [ none ↦ none | some (a, m, rest) ↦ some (a, m, block s n ∷ rest) ]

-- `allocate` from the found block on. A rest that is too small for a free block stays with the
-- allocation.
unfoldable pub use_block :
    (owner need : ℕ) → ℕ × ℕ × List FreeBlock → LinkedListAllocator → ℕ × LinkedListAllocator
unfolding align_up
use_block owner need (s, n, rest) a =
    let splits = leb min_block_size (n - need) in
    let used = if splits then need else n in
    (
      align_up ((s + header_size) % 2 ^ 64),
      record a {
        head = if splits then add_free (s + need) (n - need) rest else rest;
        headers =
            put_header s (some (record { task_id = owner; block_size = used }))
              (if splits then put_header (s + need) none a.headers else a.headers);
        notices = on_alloc s used ∷ a.notices;
      },
    )

-- For a layout with an alignment of at most 8, which `allocate` asserts; `none` is a null pointer.
-- `owner` is the current task's id, encoded.
unfoldable pub allocate : (owner size : ℕ) → LinkedListAllocator → Option ℕ × LinkedListAllocator
unfolding take_fit use_block total_size
allocate owner size a = elim (take_fit (total_size size) a.head) [
  | none ↦ (none, a)
  | some found ↦ let (user, a') = use_block owner (total_size size) found a in (some user, a')
]

-- `none` is the panic on a wrong magic number.
unfoldable pub deallocate : ℕ → LinkedListAllocator → Option LinkedListAllocator
deallocate ptr a =
    let start = (ptr + 2 ^ 64 - header_size) % 2 ^ 64 in
    elim (a.headers start) [
      | none ↦ none
      | some h ↦ some (record a {
        head = merge_free (add_free start (max h.block_size min_block_size) a.head);
        headers = put_header start none a.headers;
        notices = on_dealloc start h.block_size ∷ a.notices;
      })
    ]

unfoldable pub get_heap_stats : LinkedListAllocator → ℕ × ℕ
unfolding total
get_heap_stats a = (a.heap_end - a.heap_start - total a.head, total a.head)

-- The walk over the heap that the queries share: what stands at the cursor.
pub data Seen : Type 0 where
  free_block : ℕ → Seen
  allocated : AllocationHeader → Seen
  broken : Seen

-- The inner loop: the size of the free block that starts at the cursor.
unfoldable pub free_size : ℕ → List FreeBlock → Option ℕ
free_size cursor [] = none
free_size cursor (block s n ∷ next) = if s == cursor then some n else free_size cursor next

unfoldable pub check_header : (heap_end cursor : ℕ) → Option AllocationHeader → Seen
check_header heap_end cursor none = broken
check_header heap_end cursor (some h) =
    if ltb h.block_size min_block_size || not (h.block_size % alignment == 0)
    then broken
    else if ltb heap_end (min (cursor + h.block_size) (2 ^ 64 - 1))
    then broken
    else allocated h

unfoldable pub seen_used : LinkedListAllocator → ℕ → Option ℕ → Seen
unfolding check_header
seen_used a cursor (some n) = free_block n
seen_used a cursor none = check_header a.heap_end cursor (a.headers cursor)

unfoldable pub seen_at : LinkedListAllocator → ℕ → Seen
unfolding free_size seen_used
seen_at a cursor = seen_used a cursor (free_size cursor a.head)

abbrev pub inside : ℕ → ℕ → ℕ → Bool
inside addr from to = leb from addr && ltb addr to

-- The allocation around an address, with its header.
unfoldable pub find_from :
    LinkedListAllocator → (addr fuel cursor : ℕ) → Option (ℕ × AllocationHeader)
unfolding seen_at
find_from a addr zero cursor = none
find_from a addr (suc fuel) cursor =
    if ltb cursor a.heap_end
    then elim (seen_at a cursor) [
      | free_block n ↦
          if inside addr cursor (cursor + n) then none else find_from a addr fuel (cursor + n)
      | allocated h ↦
          if inside addr cursor (cursor + h.block_size)
          then some (cursor, h)
          else find_from a addr fuel (cursor + h.block_size)
      | broken ↦ none
    ]
    else none

abbrev pub in_heap : LinkedListAllocator → ℕ → Bool
in_heap a addr = leb a.heap_start addr && ltb addr a.heap_end

unfoldable pub find_used : ℕ → LinkedListAllocator → Option (ℕ × AllocationHeader)
unfolding find_from
find_used addr a =
    if in_heap a addr then find_from a addr (a.heap_end - a.heap_start) a.heap_start else none

unfoldable pub find_allocation : ℕ → LinkedListAllocator → Option (ℕ × ℕ)
unfolding find_used
find_allocation addr a = elim (find_used addr a) [
  | none ↦ none
  | some (s, h) ↦ some (s, s + h.block_size)
]

unfoldable pub find_allocation_owner : ℕ → LinkedListAllocator → Option (Option ℕ)
unfolding find_used decode_task_id
find_allocation_owner addr a = elim (find_used addr a) [
  | none ↦ none
  | some (s, h) ↦ some (decode_task_id h.task_id)
]

unfoldable pub free_from : LinkedListAllocator → (addr fuel cursor : ℕ) → Option (ℕ × ℕ)
unfolding seen_at
free_from a addr zero cursor = none
free_from a addr (suc fuel) cursor =
    if ltb cursor a.heap_end
    then elim (seen_at a cursor) [
      | free_block n ↦
          if inside addr cursor (cursor + n)
          then some (cursor, cursor + n)
          else free_from a addr fuel (cursor + n)
      | allocated h ↦ free_from a addr fuel (cursor + h.block_size)
      | broken ↦ none
    ]
    else none

unfoldable pub find_free_region : ℕ → LinkedListAllocator → Option (ℕ × ℕ)
unfolding free_from
find_free_region addr a =
    if in_heap a addr then free_from a addr (a.heap_end - a.heap_start) a.heap_start else none

-- The allocations of a task, at most `room` of them.
unfoldable pub snapshot_from : LinkedListAllocator → (want room fuel cursor : ℕ) → List (ℕ × ℕ)
unfolding seen_at
snapshot_from a want room zero cursor = []
snapshot_from a want room (suc fuel) cursor =
    if ltb cursor a.heap_end
    then elim (seen_at a cursor) [
      | free_block n ↦ snapshot_from a want room fuel (cursor + n)
      | allocated h ↦
          if h.task_id == want
          then (if room == 0
              then []
              else (cursor, h.block_size)
                ∷ snapshot_from a want (room - 1) fuel (cursor + h.block_size))
          else snapshot_from a want room fuel (cursor + h.block_size)
      | broken ↦ []
    ]
    else []

unfoldable pub get_task_heap_allocations : Option ℕ → LinkedListAllocator → List (ℕ × ℕ)
unfolding snapshot_from encode_task_id
get_task_heap_allocations id a =
    snapshot_from a (encode_task_id id) 256 (a.heap_end - a.heap_start) a.heap_start
