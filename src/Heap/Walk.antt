-- ===== src/Heap/Walk.antt =====
-- The walk over the heap that the queries of src/allocator.rs share, on the tiles.
use ralph_os.Base.{
  ℕ, ◌+◌, ◌-◌, ◌%◌, ◌^◌, ◌≤◌, ◌<◌, ◌≡◌, refl, ◌∙◌, true, false, Option, none, some, List, [], ◌∷◌,
  arith, ltb, ◌==◌, if◌then◌else◌, min,
}
use ralph_os.FreeList.{min_block_size}
use ralph_os.Heap.{
  AllocationHeader, LinkedListAllocator, alignment, free_size, free_block, allocated, check_header,
  seen_used, seen_at, inside,
}
use ralph_os.Heap.Tiles.{Tile, free_tile, used_tile, frees, end_of, IsSize, AreLaid}
use ralph_os.Heap.Refine.{end_of-le}

-- The used tile around an address.
abbrev pub used_around : (addr c : ℕ) → List Tile → Option (ℕ × AllocationHeader)
used_around addr c [] = none
used_around addr c (free_tile n ∷ ts) = used_around addr (c + n) ts
used_around addr c (used_tile h ∷ ts) =
    if inside addr c (c + h.block_size) then some (c, h) else used_around addr (c + h.block_size) ts

-- The free tile around an address.
abbrev pub free_around : (addr c : ℕ) → List Tile → Option (ℕ × ℕ)
free_around addr c [] = none
free_around addr c (free_tile n ∷ ts) =
    if inside addr c (c + n) then some (c, c + n) else free_around addr (c + n) ts
free_around addr c (used_tile h ∷ ts) = free_around addr (c + h.block_size) ts

pub used_around-before : (addr c : ℕ) (ts : List Tile) → addr < c → used_around addr c ts ≡ none
used_around-before addr c [] lt = refl
used_around-before addr c (free_tile n ∷ ts) lt = used_around-before addr (c + n) ts (omega arith)
used_around-before addr c (used_tile h ∷ ts) lt =
    let later = used_around-before addr (c + h.block_size) ts (omega arith) in ground (arith, later)

pub used_around-after :
    (addr c : ℕ) (ts : List Tile) → end_of c ts ≤ addr → used_around addr c ts ≡ none
used_around-after addr c [] le = refl
used_around-after addr c (free_tile n ∷ ts) le = used_around-after addr (c + n) ts le
used_around-after addr c (used_tile h ∷ ts) le =
    let later = used_around-after addr (c + h.block_size) ts le in
    let last = end_of-le (c + h.block_size) ts in ground (arith, later, last)

pub free_around-before : (addr c : ℕ) (ts : List Tile) → addr < c → free_around addr c ts ≡ none
free_around-before addr c [] lt = refl
free_around-before addr c (free_tile n ∷ ts) lt =
    let later = free_around-before addr (c + n) ts (omega arith) in ground (arith, later)
free_around-before addr c (used_tile h ∷ ts) lt =
    free_around-before addr (c + h.block_size) ts (omega arith)

pub free_around-after :
    (addr c : ℕ) (ts : List Tile) → end_of c ts ≤ addr → free_around addr c ts ≡ none
free_around-after addr c [] le = refl
free_around-after addr c (free_tile n ∷ ts) le =
    let later = free_around-after addr (c + n) ts le in
    let last = end_of-le (c + n) ts in ground (arith, later, last)
free_around-after addr c (used_tile h ∷ ts) le = free_around-after addr (c + h.block_size) ts le

pub free_size-none : (x c : ℕ) (ts : List Tile) → x < c → free_size x (frees c ts) ≡ none
unfolding free_size
free_size-none x c [] lt = refl
free_size-none x c (free_tile n ∷ ts) lt =
    let later = free_size-none x (c + n) ts (omega arith) in ground (arith, later)
free_size-none x c (used_tile h ∷ ts) lt = free_size-none x (c + h.block_size) ts (omega arith)

-- What the walk relies on where `ts` are the tiles from the cursor `c` on.
pub record IsWalk (a : LinkedListAllocator) (c : ℕ) (ts : List Tile) : Type 0 where
  pub agrees : (x : ℕ) → c ≤ x → free_size x a.head ≡ free_size x (frees c ts)
  pub end : a.heap_end ≡ end_of c ts
  pub laid : AreLaid a.headers c ts
  pub top : a.heap_end < 2 ^ 63

pub IsWalk-free :
    (a : LinkedListAllocator) (c n : ℕ) (ts : List Tile)
    → IsWalk a c (free_tile n ∷ ts)
    → IsWalk a (c + n) ts
unfolding free_size
IsWalk-free a c n ts w = record {
  agrees = λ x le.
      let big = w.laid.0.0 in
      let other : c == x ≡ false = ground (arith, big, le) in
      w.agrees x (omega arith) ∙ rw other refl;
  end = w.end;
  laid = w.laid.1;
  top = w.top;
}

pub IsWalk-used :
    (a : LinkedListAllocator) (c : ℕ) (h : AllocationHeader) (ts : List Tile)
    → IsWalk a c (used_tile h ∷ ts)
    → IsWalk a (c + h.block_size) ts
IsWalk-used a c h ts w = record {
  agrees = λ x le. w.agrees x (omega arith);
  end = w.end;
  laid = w.laid.2;
  top = w.top;
}

pub seen_at-free :
    (a : LinkedListAllocator) (c n : ℕ) (ts : List Tile)
    → IsWalk a c (free_tile n ∷ ts)
    → seen_at a c ≡ free_block n
unfolding seen_at seen_used free_size
seen_at-free a c n ts w =
    let same : c == c ≡ true = ground arith in rw (w.agrees c (omega arith), same) refl

pub seen_at-used :
    (a : LinkedListAllocator) (c : ℕ) (h : AllocationHeader) (ts : List Tile)
    → IsWalk a c (used_tile h ∷ ts)
    → seen_at a c ≡ allocated h
unfolding seen_at seen_used check_header
seen_at-used a c h ts w =
    let size : IsSize h.block_size = w.laid.0 in
    let last = end_of-le (c + h.block_size) ts in
    let fits : ltb a.heap_end (min (c + h.block_size) (2 ^ 64 - 1)) ≡ false =
      ground (arith, last, w.end) in
    let big : ltb h.block_size min_block_size ≡ false = ground (arith, size) in
    let whole : h.block_size % alignment == 0 ≡ true = ground (arith, size) in
    rw
      (
        w.agrees c (omega arith),
        free_size-none c (c + h.block_size) ts (omega arith),
        w.laid.1,
        big,
        whole,
        fits,
      )
      refl
