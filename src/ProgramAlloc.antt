-- ===== src/ProgramAlloc.antt =====
-- src/program_alloc.rs: the first-fit allocator of the 12 MB program region.
pub mod Take
pub mod Valid
pub mod Find
mod Examples
use ralph_os.Base.{
  ℕ, ◌+◌, ◌-◌, ◌*◌, ◌/◌, ◌%◌, ◌^◌, max, ◌≡◌, Bool, true, false, ◌&&◌, ◌||◌, Option, none, some,
  List, [], ◌∷◌, ltb, leb, if◌then◌else◌,
}
use ralph_os.FreeList.{FreeBlock, block, min_block_size, add_free, merge_free, total, within}

abbrev pub program_region_start : ℕ
program_region_start = 0x400000

abbrev pub program_region_end : ℕ
program_region_end = 0x1000000

abbrev pub program_region_size : ℕ
program_region_size = program_region_end - program_region_start

abbrev pub page_size : ℕ
page_size = 4096

-- What the allocator tells the memory visualizer.
pub data Notice : Type 0 where
  on_alloc on_dealloc : ℕ → ℕ → Notice

-- The struct's two fields, and the visualizer's calls so far, the latest first.
pub record ProgramAllocator : Type 0 where
  pub head : List FreeBlock
  pub allocated : ℕ
  pub notices : List Notice

unfoldable pub new : ProgramAllocator
new = record { head = []; allocated = 0; notices = [] }

unfoldable pub init : ProgramAllocator → ProgramAllocator
init p = record p { head = block program_region_start program_region_size ∷ []; allocated = 0 }

-- `(addr + PAGE_SIZE - 1) & !(PAGE_SIZE - 1)`, where the sum wraps at 64 bits. Clearing the low
-- twelve bits is rounding down to a multiple of 4096.
unfoldable pub align_up : ℕ → ℕ
align_up a = ((a + page_size - 1) % 2 ^ 64) / page_size * page_size

-- `Self::align_up(size).max(MIN_BLOCK_SIZE)`, the first line of both operations.
unfoldable pub rounded : ℕ → ℕ
unfolding align_up
rounded size = max (align_up size) min_block_size

-- The first-fit loop of `allocate`, for a rounded size: the region's start and the list behind it.
-- A region that is split leaves its upper part in its place.
unfoldable pub take_first : ℕ → List FreeBlock → Option (ℕ × List FreeBlock)
take_first size [] = none
take_first size (block s n ∷ next) =
    let later = take_first size next in
    if leb size n
    then some
        (s, if leb min_block_size (n - size) then block (s + size) (n - size) ∷ next else next)
    else elim later [ none ↦ none | some (a, rest) ↦ some (a, block s n ∷ rest) ]

unfoldable pub allocate : ℕ → ProgramAllocator → Option ℕ × ProgramAllocator
allocate size p = elim (take_first (rounded size) p.head) [
  | none ↦ (none, p)
  | some (a, rest) ↦ (
    some a,
    record p {
      head = rest;
      allocated = (p.allocated + rounded size) % 2 ^ 64;
      notices = on_alloc a (rounded size) ∷ p.notices;
    },
  )
]

-- `allocated -= size` wraps at 64 bits; `deallocate-IsValid` shows that it does not have to.
unfoldable pub deallocate : ℕ → ℕ → ProgramAllocator → ProgramAllocator
deallocate addr size p = record p {
  head = merge_free (add_free addr (rounded size) p.head);
  allocated = (p.allocated + 2 ^ 64 - rounded size) % 2 ^ 64;
  notices = on_dealloc addr (rounded size) ∷ p.notices;
}

unfoldable pub stats : ProgramAllocator → ℕ × ℕ
unfolding total
stats p = (p.allocated, total p.head)

-- The walk of `find_allocation`: allocations are the gaps between free regions.
unfoldable pub find_gap : ℕ → ℕ → List FreeBlock → Option (ℕ × ℕ)
find_gap addr prev_end [] =
    if ltb prev_end program_region_end && (leb prev_end addr && ltb addr program_region_end)
    then some (prev_end, program_region_end)
    else none
find_gap addr prev_end (block s n ∷ next) =
    let later = find_gap addr (s + n) next in
    if ltb prev_end s && (leb prev_end addr && ltb addr s)
    then some (prev_end, s)
    else if leb s addr && ltb addr (s + n)
    then none
    else later

unfoldable pub in_region : ℕ → Bool
in_region addr = leb program_region_start addr && ltb addr program_region_end

unfoldable pub find_allocation : ℕ → ProgramAllocator → Option (ℕ × ℕ)
unfolding in_region find_gap
find_allocation addr p = if in_region addr then find_gap addr program_region_start p.head else none

unfoldable pub find_free : ℕ → List FreeBlock → Option (ℕ × ℕ)
find_free addr [] = none
find_free addr (block s n ∷ next) =
    let later = find_free addr next in
    if leb s addr && ltb addr (s + n) then some (s, s + n) else later

unfoldable pub find_free_region : ℕ → ProgramAllocator → Option (ℕ × ℕ)
unfolding in_region find_free
find_free_region addr p = if in_region addr then find_free addr p.head else none
