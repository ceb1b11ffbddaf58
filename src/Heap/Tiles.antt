-- ===== src/Heap/Tiles.antt =====
-- The abstract heap: a sequence of tiles that fill it from its start to its end.
use ralph_os.Base.{
  ℕ, ◌+◌, ◌-◌, ◌%◌, ◌≤◌, ◌≡◌, Option, none, some, List, [], ◌∷◌, leb, ◌==◌, if◌then◌else◌,
}
use ralph_os.FreeList.{FreeBlock, block, min_block_size}
use ralph_os.Heap.{AllocationHeader, Headers, LinkedListAllocator, alignment}

pub data Tile : Type 0 where
  free_tile : ℕ → Tile
  used_tile : AllocationHeader → Tile

abbrev pub size_of : Tile → ℕ
size_of (free_tile n) = n
size_of (used_tile h) = h.block_size

-- The free blocks of tiles that are laid from `c` on, and where the tiles end.
abbrev pub frees : ℕ → List Tile → List FreeBlock
frees c [] = []
frees c (free_tile n ∷ ts) = block c n ∷ frees (c + n) ts
frees c (used_tile h ∷ ts) = frees (c + h.block_size) ts

abbrev pub end_of : ℕ → List Tile → ℕ
end_of c [] = c
end_of c (free_tile n ∷ ts) = end_of (c + n) ts
end_of c (used_tile h ∷ ts) = end_of (c + h.block_size) ts

abbrev pub IsSize : ℕ → Type 0
IsSize n = (min_block_size ≤ n) × (n % alignment ≡ 0)

-- The sizes are multiples of 8 and at least 16, and each used tile's header stands at its start.
abbrev pub AreLaid : Headers → ℕ → List Tile → Type 0
AreLaid hs c [] = Unit {0}
AreLaid hs c (free_tile n ∷ ts) = IsSize n × AreLaid hs (c + n) ts
AreLaid hs c (used_tile h ∷ ts) =
    IsSize h.block_size × (hs c ≡ some h) × AreLaid hs (c + h.block_size) ts

-- The allocator implements the tiles.
pub record Implements (a : LinkedListAllocator) (ts : List Tile) : Type 0 where
  pub head : a.head ≡ frees a.heap_start ts
  pub end : a.heap_end ≡ end_of a.heap_start ts
  pub laid : AreLaid a.headers a.heap_start ts

-- The specification of an allocation of `need` bytes: the first free tile that is large enough
-- becomes a used one, and what is left of it a free one if it can be one.
abbrev pub split : (owner need n : ℕ) → List Tile → List Tile
split owner need n ts =
    if leb min_block_size (n - need)
    then used_tile (record { task_id = owner; block_size = need }) ∷ free_tile (n - need) ∷ ts
    else used_tile (record { task_id = owner; block_size = n }) ∷ ts

abbrev pub place : (owner need c : ℕ) → List Tile → Option (ℕ × List Tile)
place owner need c [] = none
place owner need c (free_tile n ∷ ts) =
    let later = place owner need (c + n) ts in
    if leb need n
    then some (c, split owner need n ts)
    else elim later [ none ↦ none | some (a, ts') ↦ some (a, free_tile n ∷ ts') ]
place owner need c (used_tile h ∷ ts) = elim (place owner need (c + h.block_size) ts) [
  | none ↦ none
  | some (a, ts') ↦ some (a, used_tile h ∷ ts')
]

-- The specification of freeing: the used tile at `at` becomes free, and neighbouring free tiles
-- become one.
abbrev pub vacate : (at c : ℕ) → List Tile → List Tile
vacate at c [] = []
vacate at c (free_tile n ∷ ts) = free_tile n ∷ vacate at (c + n) ts
vacate at c (used_tile h ∷ ts) =
    if c == at then free_tile h.block_size ∷ ts else used_tile h ∷ vacate at (c + h.block_size) ts

abbrev pub join_free : ℕ → List Tile → List Tile
join_free n [] = free_tile n ∷ []
join_free n (free_tile m ∷ ts) = free_tile (n + m) ∷ ts
join_free n (used_tile h ∷ ts) = free_tile n ∷ used_tile h ∷ ts

abbrev pub coalesce : List Tile → List Tile
coalesce [] = []
coalesce (free_tile n ∷ ts) = join_free n (coalesce ts)
coalesce (used_tile h ∷ ts) = used_tile h ∷ coalesce ts

-- The header of the used tile that starts at `at`.
abbrev pub used_at : (at c : ℕ) → List Tile → Option AllocationHeader
used_at at c [] = none
used_at at c (free_tile n ∷ ts) = used_at at (c + n) ts
used_at at c (used_tile h ∷ ts) = if c == at then some h else used_at at (c + h.block_size) ts
