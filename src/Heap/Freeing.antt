-- ===== src/Heap/Freeing.antt =====
-- `deallocate` implements the freeing of a tile and the joining of its neighbours.
use mathlib.Core.Path.{subst}
use ralph_os.Base.{
  true, ℕ, ◌+◌, ◌-◌, ◌%◌, ◌^◌, ◌≤◌, ◌<◌, ◌≡◌, inl, inr, refl, ap, sym, ◌∙◌, Option, none, some,
  List, [], ◌∷◌, arith, ◌==◌, Bool-cases, max,
}
use ralph_os.FreeList.{FreeBlock, block, min_block_size, add_free, merge_free, merge_from}
use ralph_os.Heap.{
  AllocationHeader, Headers, LinkedListAllocator, alignment, header_size, put_header, init,
  deallocate,
}
use ralph_os.Heap.Tiles.{
  Tile, free_tile, used_tile, frees, end_of, IsSize, AreLaid, Implements, vacate, join_free,
  coalesce, used_at,
}
use ralph_os.Heap.Refine.{AreLaid-put, add_free-frees, end_of-le}

used_at-bounds :
    (at : ℕ) (h : AllocationHeader) (hs : Headers) (c : ℕ) (ts : List Tile)
    → AreLaid hs c ts
    → used_at at c ts ≡ some h
    → (c ≤ at) × (at + min_block_size ≤ end_of c ts) × (hs at ≡ some h) × IsSize h.block_size
used_at-bounds at h hs c [] l e = absurd (ground arith)
used_at-bounds at h hs c (free_tile n ∷ ts) (size, l) e =
    let later = used_at-bounds at h hs (c + n) ts l e in (omega arith, later.1, later.2, later.3)
used_at-bounds at h hs c (used_tile u ∷ ts) (size, here, l) e = elim (Bool-cases (c == at)) [
  | inl same ↦
      let at_c : c ≡ at = ground arith in
      let this : u ≡ h = ground arith in
      let above = end_of-le (c + u.block_size) ts in
      (omega arith, omega arith, ap hs (sym at_c) ∙ here ∙ ap some this, ground (arith, size))
  | inr other ↦
      let later = used_at-bounds at h hs (c + u.block_size) ts l (ground (arith, e, other)) in
      (omega arith, later.1, later.2, later.3)
]

add_free-vacate :
    (at : ℕ) (h : AllocationHeader) (hs : Headers) (c : ℕ) (ts : List Tile)
    → AreLaid hs c ts
    → used_at at c ts ≡ some h
    → add_free at h.block_size (frees c ts) ≡ frees c (vacate at c ts)
unfolding add_free
add_free-vacate at h hs c [] l e = absurd (ground arith)
add_free-vacate at h hs c (free_tile n ∷ ts) (size, l) e =
    let bounds = used_at-bounds at h hs (c + n) ts l e in
    let later = add_free-vacate at h hs (c + n) ts l e in ground (arith, later)
add_free-vacate at h hs c (used_tile u ∷ ts) (size, here, l) e = elim (Bool-cases (c == at)) [
  | inl same ↦
      let at_c : at ≡ c = ground arith in
      let this : h ≡ u = ground arith in
      rw same
        (rw (at_c, this) (add_free-frees c u.block_size hs (c + u.block_size) ts (omega arith) l))
  | inr other ↦
      rw other (add_free-vacate at h hs (c + u.block_size) ts l (ground (arith, e, other)))
]

AreLaid-vacate :
    (at : ℕ) (h : AllocationHeader) (hs : Headers) (c : ℕ) (ts : List Tile)
    → AreLaid hs c ts
    → used_at at c ts ≡ some h
    → AreLaid (put_header at none hs) c (vacate at c ts)
AreLaid-vacate at h hs c [] l e = tt
AreLaid-vacate at h hs c (free_tile n ∷ ts) (size, l) e =
    (size, AreLaid-vacate at h hs (c + n) ts l e)
AreLaid-vacate at h hs c (used_tile u ∷ ts) (size, here, l) e = elim (Bool-cases (c == at)) [
  | inl same ↦
      rw same (size, AreLaid-put at none hs (c + u.block_size) ts (ground (arith, size, same)) l)
  | inr other ↦ rw other (
    size,
    ground (arith, here, other),
    AreLaid-vacate at h hs (c + u.block_size) ts l (ground (arith, e, other)),
  )
]

end_of-vacate : (at c : ℕ) (ts : List Tile) → end_of c (vacate at c ts) ≡ end_of c ts
end_of-vacate at c [] = refl
end_of-vacate at c (free_tile n ∷ ts) = end_of-vacate at (c + n) ts
end_of-vacate at c (used_tile u ∷ ts) = elim (Bool-cases (c == at)) [
  | inl same ↦ rw same refl
  | inr other ↦ rw other (end_of-vacate at (c + u.block_size) ts)
]

join_free-join_free :
    (n m : ℕ) (ts : List Tile) → join_free n (join_free m ts) ≡ join_free (n + m) ts
join_free-join_free n m [] = refl
join_free-join_free n m (free_tile k ∷ ts) = ground arith
join_free-join_free n m (used_tile u ∷ ts) = refl

merge_from-gap :
    (s n : ℕ) (hs : Headers) (c : ℕ) (ts : List Tile)
    → s + n < c
    → AreLaid hs c ts
    → merge_from s n (frees c ts) ≡ block s n ∷ merge_free (frees c ts)
unfolding merge_from merge_free
merge_from-gap s n hs c [] lt l = refl
merge_from-gap s n hs c (free_tile m ∷ ts) lt l = ground arith
merge_from-gap s n hs c (used_tile u ∷ ts) lt (size, here, l) =
    merge_from-gap s n hs (c + u.block_size) ts (omega arith) l

merge_from-next :
    (s n m : ℕ) (l : List FreeBlock) → merge_from s n (block (s + n) m ∷ l) ≡ merge_from s (n + m) l
unfolding merge_from
merge_from-next s n m l = ground arith

mutual
  unfolding merge_from merge_free

  merge_from-join_free :
      (n : ℕ) (hs : Headers) (c : ℕ) (ts : List Tile)
      → AreLaid hs (c + n) ts
      → merge_from c n (frees (c + n) ts) ≡ frees c (join_free n (coalesce ts))
  merge_from-join_free n hs c [] l = refl
  merge_from-join_free n hs c (free_tile m ∷ ts) (size, l) =
      let assoc : c + n + m ≡ c + (n + m) = omega arith in
      merge_from-next c n m (frees (c + n + m) ts)
      ∙ ap (λ x. merge_from c (n + m) (frees x ts)) assoc
      ∙ merge_from-join_free (n + m) hs c ts (subst (λ x. AreLaid hs x ts) assoc l)
      ∙ ap (frees c) (sym (join_free-join_free n m (coalesce ts)))
  merge_from-join_free n hs c (used_tile u ∷ ts) (size, here, l) =
      merge_from-gap c n hs (c + n + u.block_size) ts (omega arith) l
      ∙ ap (λ l. block c n ∷ l) (merge_free-coalesce hs (c + n + u.block_size) ts l)

  pub merge_free-coalesce :
      (hs : Headers) (c : ℕ) (ts : List Tile)
      → AreLaid hs c ts
      → merge_free (frees c ts) ≡ frees c (coalesce ts)
  merge_free-coalesce hs c [] l = refl
  merge_free-coalesce hs c (free_tile n ∷ ts) (size, l) = merge_from-join_free n hs c ts l
  merge_free-coalesce hs c (used_tile u ∷ ts) (size, here, l) =
      merge_free-coalesce hs (c + u.block_size) ts l

AreLaid-join_free :
    (n : ℕ) (hs : Headers) (c : ℕ) (ts : List Tile)
    → IsSize n
    → AreLaid hs (c + n) ts
    → AreLaid hs c (join_free n ts)
AreLaid-join_free n hs c [] size l = (size, tt)
AreLaid-join_free n hs c (free_tile m ∷ ts) size (more, l) =
    let assoc : c + n + m ≡ c + (n + m) = omega arith in
    ((omega arith, omega arith), subst (λ x. AreLaid hs x ts) assoc l)
AreLaid-join_free n hs c (used_tile u ∷ ts) size l = (size, l)

AreLaid-coalesce :
    (hs : Headers) (c : ℕ) (ts : List Tile) → AreLaid hs c ts → AreLaid hs c (coalesce ts)
AreLaid-coalesce hs c [] l = tt
AreLaid-coalesce hs c (free_tile n ∷ ts) (size, l) =
    AreLaid-join_free n hs c (coalesce ts) size (AreLaid-coalesce hs (c + n) ts l)
AreLaid-coalesce hs c (used_tile u ∷ ts) (size, here, l) =
    (size, here, AreLaid-coalesce hs (c + u.block_size) ts l)

end_of-join_free : (n c : ℕ) (ts : List Tile) → end_of c (join_free n ts) ≡ end_of (c + n) ts
end_of-join_free n c [] = refl
end_of-join_free n c (free_tile m ∷ ts) = ap (λ x. end_of x ts) (omega arith)
end_of-join_free n c (used_tile u ∷ ts) = refl

end_of-coalesce : (c : ℕ) (ts : List Tile) → end_of c (coalesce ts) ≡ end_of c ts
end_of-coalesce c [] = refl
end_of-coalesce c (free_tile n ∷ ts) =
    end_of-join_free n c (coalesce ts) ∙ end_of-coalesce (c + n) ts
end_of-coalesce c (used_tile u ∷ ts) = end_of-coalesce (c + u.block_size) ts

-- The allocator that a deallocation leaves, if it does not panic.
unfoldable pub Freed : Option LinkedListAllocator → List Tile → Type 0
Freed none ts = ⊥
Freed (some a) ts = Implements a ts

-- For a heap below 2^63 that implements a sequence of tiles, and the address that belongs to one
-- of its used tiles: deallocate does not panic, and then the heap implements the tiles in which
-- that tile is free and every run of free tiles is one.
pub deallocate-Freed :
    (at : ℕ) (h : AllocationHeader) (a : LinkedListAllocator) (ts : List Tile)
    → a.heap_end < 2 ^ 63
    → used_at at a.heap_start ts ≡ some h
    → Implements a ts
    → Freed (deallocate (at + header_size) a) (coalesce (vacate at a.heap_start ts))
unfolding deallocate Freed
deallocate-Freed at h a ts top e i =
    let bounds = used_at-bounds at h a.headers a.heap_start ts i.laid e in
    let back : (at + header_size + 2 ^ 64 - header_size) % 2 ^ 64 ≡ at = omega (arith, i.end) in
    let big : max h.block_size min_block_size ≡ h.block_size = omega arith in
    let laid = AreLaid-vacate at h a.headers a.heap_start ts i.laid e in
    rw (deallocate, back, bounds.2, big, back)
      (record {
        head =
            ap merge_free (
              ap (add_free at h.block_size) i.head
              ∙ add_free-vacate at h a.headers a.heap_start ts i.laid e)
            ∙ merge_free-coalesce (put_header at none a.headers) a.heap_start
                (vacate at a.heap_start ts) laid;
        end =
            i.end
            ∙ sym (
                end_of-coalesce a.heap_start (vacate at a.heap_start ts)
                ∙ end_of-vacate at a.heap_start ts);
        laid =
            AreLaid-coalesce (put_header at none a.headers) a.heap_start (vacate at a.heap_start ts)
              laid;
      })

-- A heap of whole blocks is one free tile at first.
pub init-Freed :
    (start size : ℕ) (a : LinkedListAllocator)
    → start % alignment ≡ 0
    → IsSize size
    → start + size < 2 ^ 64
    → Freed (init start size a) (free_tile size ∷ [])
unfolding init Freed
init-Freed start size a al whole fits =
    let e : start % alignment == 0 ≡ true = ground (arith, al) in
    let f : size % alignment == 0 ≡ true = ground (arith, whole) in
    let last : (start + size) % 2 ^ 64 ≡ start + size = omega arith in
    rw (init, e, f) (record { head = refl; end = last; laid = (whole, tt) })
