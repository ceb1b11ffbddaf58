-- ===== src/Heap/Refine.antt =====
-- `allocate` and `deallocate` implement the placing and the freeing of tiles.
use ralph_os.Base.{
  ℕ, ◌+◌, ◌-◌, ◌%◌, ◌^◌, ◌≤◌, ◌<◌, ◌≡◌, inl, inr, refl, ap, sym, ◌∙◌, Option, none, some, List, [],
  ◌∷◌, arith, leb, Bool-cases, if◌then◌else◌,
}
use ralph_os.FreeList.{FreeBlock, block, min_block_size, add_free}
use ralph_os.Heap.{
  AllocationHeader, Headers, LinkedListAllocator, alignment, header_size, put_header, align_up,
  total_size, take_fit, use_block, allocate,
}
use ralph_os.Heap.Tiles.{
  Tile, free_tile, used_tile, frees, end_of, IsSize, AreLaid, Implements, split, place,
}

-- A header that is written in front of the tiles.
pub AreLaid-put :
    (at : ℕ) (h : Option AllocationHeader) (hs : Headers) (c : ℕ) (ts : List Tile)
    → at < c
    → AreLaid hs c ts
    → AreLaid (put_header at h hs) c ts
AreLaid-put at h hs c [] lt l = tt
AreLaid-put at h hs c (free_tile n ∷ ts) lt (size, l) =
    (size, AreLaid-put at h hs (c + n) ts (omega arith) l)
AreLaid-put at h hs c (used_tile u ∷ ts) lt (size, here, l) =
    (size, ground (arith, here), AreLaid-put at h hs (c + u.block_size) ts (omega arith) l)

-- A block in front of the tiles.
pub add_free-frees :
    (at n : ℕ) (hs : Headers) (c : ℕ) (ts : List Tile)
    → at < c
    → AreLaid hs c ts
    → add_free at n (frees c ts) ≡ block at n ∷ frees c ts
unfolding add_free
add_free-frees at n hs c [] lt l = refl
add_free-frees at n hs c (free_tile m ∷ ts) lt l = ground arith
add_free-frees at n hs c (used_tile u ∷ ts) lt (size, here, l) =
    add_free-frees at n hs (c + u.block_size) ts (omega arith) l

abbrev kept : (need s n : ℕ) → List FreeBlock → List FreeBlock
kept need s n rest =
    if leb min_block_size (n - need) then add_free (s + need) (n - need) rest else rest

abbrev marked : (owner need s n : ℕ) → Headers → Headers
marked owner need s n hs =
    let splits = leb min_block_size (n - need) in
    put_header s (some (record { task_id = owner; block_size = if splits then need else n }))
      (if splits then put_header (s + need) none hs else hs)

pub end_of-le : (c : ℕ) (ts : List Tile) → c ≤ end_of c ts
end_of-le c [] = omega arith
end_of-le c (free_tile n ∷ ts) = let later = end_of-le (c + n) ts in omega arith
end_of-le c (used_tile u ∷ ts) = let later = end_of-le (c + u.block_size) ts in omega arith

-- An aligned place between `c` and the end of the tiles.
abbrev IsPlace : (c s : ℕ) → List Tile → Type 0
IsPlace c s ts = (c ≤ s) × (s ≤ end_of c ts) × ((s - c) % alignment ≡ 0)

-- What the search in the free list and the search in the tiles find.
abbrev Found :
    (owner need : ℕ)
    → Headers
    → (c : ℕ) → List Tile
    → Option (ℕ × ℕ × List FreeBlock)
    → Option (ℕ × List Tile)
    → Type 0
Found owner need hs c ts none none = Unit {0}
Found owner need hs c ts none (some p) = ⊥
Found owner need hs c ts (some f) none = ⊥
Found owner need hs c ts (some (s, n, rest)) (some (at, ts')) =
    (at ≡ s)
    × IsPlace c s ts
    × (frees c ts' ≡ kept need s n rest)
    × (end_of c ts' ≡ end_of c ts)
    × AreLaid (marked owner need s n hs) c ts'

Found-here :
    (owner need n : ℕ) (hs : Headers) (c : ℕ) (ts : List Tile)
    → IsSize need
    → need ≤ n
    → IsSize n
    → AreLaid hs (c + n) ts
    → Found owner need hs c
        (free_tile n ∷ ts)
        (some (c, n, frees (c + n) ts))
        (some (c, split owner need n ts))
Found-here owner need n hs c ts need_size fits size l =
    elim (Bool-cases (leb min_block_size (n - need))) [
      | inl e ↦
          let big : min_block_size ≤ n - need = ground (arith, e) in
          let there : c + need + (n - need) ≡ c + n = omega arith in
          rw (e, there)
            (
              refl,
              (omega arith, omega (arith, end_of-le (c + n) ts), omega arith),
              sym (add_free-frees (c + need) (n - need) hs (c + n) ts (omega arith) l),
              ap (λ x. end_of x ts) there,
              (
                need_size,
                ground arith,
                (
                  (omega arith, omega arith),
                  AreLaid-put c _ (put_header (c + need) none hs) (c + n) ts (omega arith)
                      (AreLaid-put (c + need) none hs (c + n) ts (omega arith) l),
                ),
              ),
            )
      | inr e ↦
          let later = end_of-le (c + n) ts in
          rw e (
            refl,
            (omega arith, omega arith, omega arith),
            refl,
            refl,
            (size, ground arith, AreLaid-put c _ hs (c + n) ts (omega arith) l),
          )
    ]

-- The list of a rest, with a block in front of it.
kept-front :
    (need s n c m : ℕ) (rest : List FreeBlock)
    → c < s
    → kept need s n (block c m ∷ rest) ≡ block c m ∷ kept need s n rest
unfolding add_free
kept-front need s n c m rest lt = ground arith

Found-free :
    (owner need m : ℕ) (hs : Headers) (c : ℕ) (ts : List Tile) (f : Option (ℕ × ℕ × List FreeBlock))
    (p : Option (ℕ × List Tile))
    → IsSize m
    → Found owner need hs (c + m) ts f p
    → Found owner need hs c
        (free_tile m ∷ ts)
        (elim f [ none ↦ none | some (a, n, rest) ↦ some (a, n, block c m ∷ rest) ])
        (elim p [ none ↦ none | some (a, ts') ↦ some (a, free_tile m ∷ ts') ])
Found-free owner need m hs c ts none none size h = tt
Found-free owner need m hs c ts none (some p) size h = absurd h
Found-free owner need m hs c ts (some f) none size h = absurd h
Found-free owner need m hs c ts (some (s, n, rest)) (some (at, ts')) size
      (same, (le, top, al), fs, e, l) =
    (
      same,
      (omega arith, omega arith, omega arith),
      rw (kept-front need s n c m rest (omega arith), fs) refl,
      e,
      (size, l),
    )

Found-used :
    (owner need : ℕ) (u : AllocationHeader) (hs : Headers) (c : ℕ) (ts : List Tile)
    (f : Option (ℕ × ℕ × List FreeBlock)) (p : Option (ℕ × List Tile))
    → IsSize u.block_size
    → hs c ≡ some u
    → Found owner need hs (c + u.block_size) ts f p
    → Found owner need hs c
        (used_tile u ∷ ts)
        f
        (elim p [ none ↦ none | some (a, ts') ↦ some (a, used_tile u ∷ ts') ])
Found-used owner need u hs c ts none none size here h = tt
Found-used owner need u hs c ts none (some p) size here h = absurd h
Found-used owner need u hs c ts (some f) none size here h = absurd h
Found-used owner need u hs c ts (some (s, n, rest)) (some (at, ts')) size here
      (same, (le, top, al), fs, e, l) =
    (same, (omega arith, omega arith, omega arith), fs, e, (size, ground (arith, here), l))

take_fit-place :
    (owner need : ℕ) (hs : Headers) (c : ℕ) (ts : List Tile)
    → IsSize need
    → AreLaid hs c ts
    → Found owner need hs c ts (take_fit need (frees c ts)) (place owner need c ts)
unfolding take_fit
take_fit-place owner need hs c [] need_size l = tt
take_fit-place owner need hs c (free_tile n ∷ ts) need_size (size, l) =
    elim (Bool-cases (leb need n)) [
      | inl e ↦ rw e (Found-here owner need n hs c ts need_size (ground arith) size l)
      | inr e ↦ rw e (
          Found-free owner need n hs c ts (take_fit need (frees (c + n) ts))
            (place owner need (c + n) ts) size
            (take_fit-place owner need hs (c + n) ts need_size l))
    ]
take_fit-place owner need hs c (used_tile u ∷ ts) need_size (size, here, l) =
    Found-used owner need u hs c ts (take_fit need (frees (c + u.block_size) ts))
      (place owner need (c + u.block_size) ts) size here
      (take_fit-place owner need hs (c + u.block_size) ts need_size l)

-- What the specification and the allocator answer.
unfoldable pub Placed :
    LinkedListAllocator → Option (ℕ × List Tile) → Option ℕ × LinkedListAllocator → Type 0
Placed a none (p, a') = (p ≡ none) × (a' ≡ a)
Placed a (some (s, ts)) (p, a') = (p ≡ some (s + header_size)) × Implements a' ts

total_size-IsSize : (size : ℕ) → size < 2 ^ 63 → IsSize (total_size size)
unfolding total_size align_up
total_size-IsSize size lt = (omega arith, omega arith)

allocate_cases :
    (owner size : ℕ) (a : LinkedListAllocator) (ts : List Tile)
    (f : Option (ℕ × ℕ × List FreeBlock)) (p : Option (ℕ × List Tile))
    → take_fit (total_size size) a.head ≡ f
    → Found owner (total_size size) a.headers a.heap_start ts f p
    → Implements a ts
    → a.heap_end < 2 ^ 63
    → a.heap_start % alignment ≡ 0
    → Placed a p (allocate owner size a)
unfolding allocate Placed
allocate_cases owner size a ts none none e h i top al = rw (allocate, e) (refl, refl)
allocate_cases owner size a ts none (some p) e h i top al = absurd h
allocate_cases owner size a ts (some f) none e h i top al = absurd h
allocate_cases owner size a ts (some (s, n, rest)) (some (at, ts')) e
      (same, (le, below, whole), fs, t, l) i top al =
    let bound : s < 2 ^ 63 = omega (arith, i.end) in
    let user : align_up ((s + header_size) % 2 ^ 64) ≡ at + header_size =
      unfold align_up in omega arith in
    rw (allocate, e)
      (unfold use_block in (ap some user, record { head = sym fs; end = i.end ∙ sym t; laid = l }))

-- For a request below 2^63 bytes and a heap that starts at an aligned address, ends below 2^63 and
-- implements a sequence of tiles: allocate answers the address behind the header of the first free
-- tile that is large enough, and then the heap implements the tiles in which it is used and the
-- rest of it, where it can be a block, is free; when no free tile is large enough it answers none
-- and changes nothing.
pub allocate-Placed :
    (owner size : ℕ) (a : LinkedListAllocator) (ts : List Tile)
    → size < 2 ^ 63
    → a.heap_end < 2 ^ 63
    → a.heap_start % alignment ≡ 0
    → Implements a ts
    → Placed a (place owner (total_size size) a.heap_start ts) (allocate owner size a)
allocate-Placed owner size a ts lt top al i =
    allocate_cases owner size a ts (take_fit (total_size size) a.head)
      (place owner (total_size size) a.heap_start ts) refl
      (rw i.head (
        take_fit-place owner (total_size size) a.headers a.heap_start ts (total_size-IsSize size lt)
          i.laid))
      i top al
