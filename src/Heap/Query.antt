-- ===== src/Heap/Query.antt =====
-- The queries about an address answer the tile around it.
use ralph_os.Base.{
  ℕ, zero, suc, ◌+◌, ◌-◌, ◌^◌, ◌≤◌, ◌<◌, ◌≡◌, inl, inr, refl, ap, sym, true, false, none, some,
  List, [], ◌∷◌, arith, ltb, leb, Bool-cases,
}
use ralph_os.Heap.{
  LinkedListAllocator, free_size, inside, find_from, find_used, find_allocation,
  find_allocation_owner, free_from, find_free_region, decode_task_id,
}
use ralph_os.Heap.Tiles.{Tile, free_tile, used_tile, end_of, Implements}
use ralph_os.Heap.Refine.{end_of-le}
use ralph_os.Heap.Walk.{
  IsWalk-free, IsWalk-used, used_around-before, used_around-after, free_around-before,
  free_around-after, seen_at-free, seen_at-used, used_around, free_around, IsWalk,
}

find_from-used_around :
    (a : LinkedListAllocator) (addr fuel c : ℕ) (ts : List Tile)
    → end_of c ts ≤ c + fuel
    → IsWalk a c ts
    → find_from a addr fuel c ≡ used_around addr c ts
unfolding find_from
find_from-used_around a addr zero c [] le w = refl
find_from-used_around a addr (suc fuel) c [] le w =
    let done : ltb c a.heap_end ≡ false = ground (arith, w.end) in rw done refl
find_from-used_around a addr zero c (free_tile n ∷ ts) le w =
    absurd (omega (arith, w.laid.0.0, end_of-le (c + n) ts))
find_from-used_around a addr (suc fuel) c (free_tile n ∷ ts) le w =
    let last = end_of-le (c + n) ts in
    let size = w.laid.0.0 in
    let more : ltb c a.heap_end ≡ true = ground (arith, w.end, last, size) in
    let later =
      find_from-used_around a addr fuel (c + n) ts (omega arith) (IsWalk-free a c n ts w) in
    rw (more, seen_at-free a c n ts w)
      (elim (Bool-cases (inside addr c (c + n))) [
        | inl e ↦ rw e (sym (used_around-before addr (c + n) ts (ground (arith, e))))
        | inr e ↦ rw e later
      ])
find_from-used_around a addr zero c (used_tile h ∷ ts) le w =
    absurd (omega (arith, w.laid.0.0, end_of-le (c + h.block_size) ts))
find_from-used_around a addr (suc fuel) c (used_tile h ∷ ts) le w =
    let last = end_of-le (c + h.block_size) ts in
    let size = w.laid.0.0 in
    let more : ltb c a.heap_end ≡ true = ground (arith, w.end, last, size) in
    let later =
      find_from-used_around a addr fuel (c + h.block_size) ts (omega arith)
        (IsWalk-used a c h ts w) in
    rw (more, seen_at-used a c h ts w, later) refl

free_from-free_around :
    (a : LinkedListAllocator) (addr fuel c : ℕ) (ts : List Tile)
    → end_of c ts ≤ c + fuel
    → IsWalk a c ts
    → free_from a addr fuel c ≡ free_around addr c ts
unfolding free_from
free_from-free_around a addr zero c [] le w = refl
free_from-free_around a addr (suc fuel) c [] le w =
    let done : ltb c a.heap_end ≡ false = ground (arith, w.end) in rw done refl
free_from-free_around a addr zero c (free_tile n ∷ ts) le w =
    absurd (omega (arith, w.laid.0.0, end_of-le (c + n) ts))
free_from-free_around a addr (suc fuel) c (free_tile n ∷ ts) le w =
    let last = end_of-le (c + n) ts in
    let size = w.laid.0.0 in
    let more : ltb c a.heap_end ≡ true = ground (arith, w.end, last, size) in
    let later =
      free_from-free_around a addr fuel (c + n) ts (omega arith) (IsWalk-free a c n ts w) in
    rw (more, seen_at-free a c n ts w, later) refl
free_from-free_around a addr zero c (used_tile h ∷ ts) le w =
    absurd (omega (arith, w.laid.0.0, end_of-le (c + h.block_size) ts))
free_from-free_around a addr (suc fuel) c (used_tile h ∷ ts) le w =
    let last = end_of-le (c + h.block_size) ts in
    let size = w.laid.0.0 in
    let more : ltb c a.heap_end ≡ true = ground (arith, w.end, last, size) in
    let later =
      free_from-free_around a addr fuel (c + h.block_size) ts (omega arith)
        (IsWalk-used a c h ts w) in
    rw (more, seen_at-used a c h ts w) later

Implements-IsWalk :
    (a : LinkedListAllocator) (ts : List Tile)
    → a.heap_end < 2 ^ 63
    → Implements a ts
    → IsWalk a a.heap_start ts
Implements-IsWalk a ts top i = record {
  agrees = λ x le. ap (free_size x) i.head;
  end = i.end;
  laid = i.laid;
  top = top;
}

find_used-used_around :
    (addr : ℕ) (a : LinkedListAllocator) (ts : List Tile)
    → a.heap_end < 2 ^ 63
    → Implements a ts
    → find_used addr a ≡ used_around addr a.heap_start ts
unfolding find_used
find_used-used_around addr a ts top i = elim (Bool-cases (leb a.heap_start addr)) [
  | inr e ↦ rw e (sym (used_around-before addr a.heap_start ts (ground (arith, e))))
  | inl e ↦ elim (Bool-cases (ltb addr a.heap_end)) [
    | inr f ↦ rw (e, f) (sym (used_around-after addr a.heap_start ts (ground (arith, f, i.end))))
    | inl f ↦
        rw (e, f)
          (find_from-used_around a addr (a.heap_end - a.heap_start) a.heap_start ts
            (omega (arith, i.end, end_of-le a.heap_start ts)) (Implements-IsWalk a ts top i))
  ]
]

-- What the three queries answer for the tiles.
unfoldable pub Answers : (addr : ℕ) (a : LinkedListAllocator) → List Tile → Type 0
Answers addr a ts =
    (find_allocation addr a ≡ elim (used_around addr a.heap_start ts) [
      | none ↦ none
      | some (s, h) ↦ some (s, s + h.block_size)
    ])
    × (find_allocation_owner addr a ≡ elim (used_around addr a.heap_start ts) [
      | none ↦ none
      | some (s, h) ↦ some (decode_task_id h.task_id)
    ])
    × (find_free_region addr a ≡ free_around addr a.heap_start ts)

-- For a heap that ends below 2^63 and implements a sequence of tiles, and any address:
-- find_allocation answers the range, and find_allocation_owner the task, of the used tile around
-- the address, and find_free_region the range of the free tile around it; each answers none when
-- there is no such tile. The walk over the heap has enough fuel.
pub queries-Answers :
    (addr : ℕ) (a : LinkedListAllocator) (ts : List Tile)
    → a.heap_end < 2 ^ 63
    → Implements a ts
    → Answers addr a ts
unfolding find_allocation find_allocation_owner find_free_region Answers
queries-Answers addr a ts top i =
    let used = find_used-used_around addr a ts top i in
    (
      rw (find_allocation, used) refl,
      rw (find_allocation_owner, used) refl,
      elim (Bool-cases (leb a.heap_start addr)) [
        | inr e ↦ rw e (sym (free_around-before addr a.heap_start ts (ground (arith, e))))
        | inl e ↦ elim (Bool-cases (ltb addr a.heap_end)) [
          | inr f ↦
              rw (e, f) (sym (free_around-after addr a.heap_start ts (ground (arith, f, i.end))))
          | inl f ↦
              rw (e, f)
                (free_from-free_around a addr (a.heap_end - a.heap_start) a.heap_start ts
                  (omega (arith, i.end, end_of-le a.heap_start ts)) (Implements-IsWalk a ts top i))
        ]
      ],
    )
