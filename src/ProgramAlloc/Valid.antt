-- ===== src/ProgramAlloc/Valid.antt =====
-- The invariant of the program allocator, and what each operation does to the set of free
-- addresses.
use ralph_os.Base.{
  ℕ, ◌+◌, ◌-◌, ◌%◌, ◌^◌, ◌≤◌, ◌<◌, ◌≡◌, ap, ◌∙◌, sym, refl, false, not, ◌&&◌, ◌||◌, Option, none,
  some, List, ◌∷◌, inl, inr, arith, Option-cases,
}
use ralph_os.FreeList.{FreeBlock, total, within, covers, add_free, merge_free}
use ralph_os.FreeList.Order.{
  IsSorted, IsGapped, IsAligned, IsClear, add_free-IsSorted, add_free-IsAligned,
  merge_free-IsGapped, merge_free-IsAligned, total-add_free, total-merge_free, total-le,
  IsSorted-suc,
}
use ralph_os.FreeList.Cover.{covers-add_free, covers-merge_free, covers-clear}
use ralph_os.ProgramAlloc.{
  page_size, program_region_start, program_region_end, program_region_size, on_alloc,
  ProgramAllocator, rounded, take_first, init, allocate, deallocate,
}
use ralph_os.ProgramAlloc.Take.{AllSmaller, Taken, take_first-Taken, take_first-none}

-- The free regions lie in address order in the program region with an allocation between any
-- two, all are whole pages, and what is not free is counted as allocated.
pub record IsValid (p : ProgramAllocator) : Type 0 where
  pub gapped : IsGapped (program_region_start - 1) program_region_end p.head
  pub aligned : IsAligned page_size p.head
  pub counted : p.allocated + total p.head ≡ program_region_size

-- A request that can be rounded up without leaving 64 bits.
abbrev pub Fits : ℕ → Type 0
Fits size = size + page_size ≤ 2 ^ 64

-- A positive request that can be rounded up within 64 bits is rounded up to whole pages.
pub rounded_bounds :
    (size : ℕ)
    → 0 < size
    → Fits size
    → (rounded size % page_size ≡ 0) × (size ≤ rounded size) × (rounded size < size + page_size)
unfolding rounded
rounded_bounds size p f = (omega arith, omega arith, omega arith)

pub init-IsValid : (p : ProgramAllocator) → IsValid (init p)
unfolding init total
init-IsValid p = omega arith

-- What a successful allocation of `[a, a + rounded size)` does.
pub record Allocated (size a : ℕ) (p q : ProgramAllocator) : Type 0 where
  pub start : program_region_start ≤ a
  pub end : a + rounded size ≤ program_region_end
  pub page : a % page_size ≡ 0
  pub was_free : (x : ℕ) → (within a (rounded size) x && not (covers p.head x)) ≡ false
  pub change : (x : ℕ) → covers q.head x ≡ (covers p.head x && not (within a (rounded size) x))
  pub counter : q.allocated ≡ p.allocated + rounded size
  pub notice : q.notices ≡ on_alloc a (rounded size) ∷ p.notices

module _ {size a : ℕ} {p : ProgramAllocator} {rest : List FreeBlock} (pos : 0 < size)
    (fits : Fits size) (v : IsValid p)
    (found : take_first (rounded size) p.head ≡ some (a, rest)) where
  taken : Taken (program_region_start - 1) program_region_end (rounded size) a p.head rest
  taken =
      let r = rounded_bounds size pos fits in
      take_first-Taken (program_region_start - 1) program_region_end (rounded size) a p.head rest
        v.gapped v.aligned (omega arith) r.0 found

  taken-covers : (x : ℕ) → covers p.head x ≡ (within a (rounded size) x || covers rest x)
  taken-covers x =
      ap (λ l. covers l x) (sym taken.restored)
      ∙ (covers-merge_free (add_free a (rounded size) rest) x
          ∙ covers-add_free a (rounded size) rest x)

  allocated-bound : p.allocated + rounded size ≤ program_region_size
  allocated-bound = omega (arith, v.counted, taken.sum)

  next-Allocated : Allocated size a p (record p {
    head = rest;
    allocated = (p.allocated + rounded size) % 2 ^ 64;
    notices = on_alloc a (rounded size) ∷ p.notices;
  })
  next-Allocated = record {
    start = omega (arith, taken.low);
    end = taken.high;
    page = taken.aligned;
    was_free = λ x. ground (arith, taken-covers x);
    change = λ x. ground (arith, taken-covers x, covers-clear a (rounded size) rest x taken.clear);
    counter = omega (arith, allocated-bound);
    notice = refl;
  }

  next-IsValid : IsValid (record p {
    head = rest;
    allocated = (p.allocated + rounded size) % 2 ^ 64;
    notices = on_alloc a (rounded size) ∷ p.notices;
  })
  next-IsValid = record {
    gapped = taken.rest_gapped;
    aligned = taken.rest_aligned;
    counted = omega (arith, allocated-bound, taken.sum, v.counted);
  }

-- The two outcomes of a request.
abbrev pub Outcome : ℕ → ProgramAllocator → Option ℕ × ProgramAllocator → Type 0
Outcome size p (none, q) = (q ≡ p) × AllSmaller (rounded size) p.head
Outcome size p (some a, q) = Allocated size a p q × IsValid q

allocate_cases :
    (size : ℕ) (p : ProgramAllocator) (r : Option (ℕ × List FreeBlock))
    → take_first (rounded size) p.head ≡ r
    → 0 < size
    → Fits size
    → IsValid p
    → Outcome size p (allocate size p)
unfolding allocate
allocate_cases size p none e pos fits v =
    rw (e, allocate) (refl, take_first-none (rounded size) p.head e)
allocate_cases size p (some (a, rest)) e pos fits v =
    rw (e, allocate) (next-Allocated pos fits v e, next-IsValid pos fits v e)

-- For a valid allocator and a positive request that can be rounded up within 64 bits, allocate
-- either fails with the allocator unchanged, and then every free region is smaller than the
-- rounded request; or it returns a page-aligned address whose range lies in the program region,
-- was free before and is not free now, with every other address as before, the counter larger by
-- the rounded size, the visualizer told, and the allocator valid.
pub allocate_lem :
    (size : ℕ) (p : ProgramAllocator)
    → 0 < size
    → Fits size
    → IsValid p
    → Outcome size p (allocate size p)
allocate_lem size p = allocate_cases size p (take_first (rounded size) p.head) refl

-- What `deallocate` may be given: whole pages in the region, none of them free.
pub record IsHeld (a size : ℕ) (p : ProgramAllocator) : Type 0 where
  pub start : program_region_start ≤ a
  pub end : a + rounded size ≤ program_region_end
  pub page : a % page_size ≡ 0
  pub clear : IsClear a (rounded size) p.head

-- Freeing a held range of a valid allocator, of positive size that can be rounded up, keeps it
-- valid, and the counter does not pass zero.
pub deallocate-IsValid :
    (a size : ℕ) (p : ProgramAllocator)
    → 0 < size
    → Fits size
    → IsHeld a size p
    → IsValid p
    → IsValid (deallocate a size p) × (rounded size ≤ p.allocated)
unfolding deallocate
deallocate-IsValid a size p pos fits held v = (
  record {
    gapped =
        merge_free-IsGapped (program_region_start - 1) program_region_end
          (add_free a (rounded size) p.head) sorted;
    aligned =
        merge_free-IsAligned page_size (add_free a (rounded size) p.head)
          (add_free-IsAligned a (rounded size) page_size p.head v.aligned held.page r.0);
    counted = omega (arith, sum, room, v.counted);
  },
  omega (arith, room, v.counted),
)
  where
    r : (rounded size % page_size ≡ 0) × (size ≤ rounded size) × (rounded size < size + page_size)
    r = rounded_bounds size pos fits

    sorted : IsSorted program_region_start program_region_end (add_free a (rounded size) p.head)
    sorted =
        add_free-IsSorted a (rounded size) program_region_start program_region_end p.head
          (IsSorted-suc (program_region_start - 1) program_region_end p.head (omega arith) v.gapped)
          held.start (omega (arith, r.1)) held.end held.clear

    sum : total (merge_free (add_free a (rounded size) p.head)) ≡ rounded size + total p.head
    sum =
        total-merge_free (add_free a (rounded size) p.head) ∙ total-add_free a (rounded size) p.head

    room : rounded size + total p.head ≤ program_region_size
    room = omega (
      arith,
      total-add_free a (rounded size) p.head,
      total-le program_region_start program_region_end (add_free a (rounded size) p.head) sorted,
    )

-- Freeing makes exactly the addresses of the range free, and leaves every other as it was.
pub covers-deallocate :
    (a size : ℕ) (p : ProgramAllocator) (x : ℕ)
    → covers (deallocate a size p).head x ≡ (within a (rounded size) x || covers p.head x)
unfolding deallocate
covers-deallocate a size p x =
    covers-merge_free (add_free a (rounded size) p.head) x
    ∙ covers-add_free a (rounded size) p.head x

-- What a successful call of `allocate` found.
allocate-found :
    (size a : ℕ) (p q : ProgramAllocator)
    → allocate size p ≡ (some a, q)
    → (rest : List FreeBlock) × (take_first (rounded size) p.head ≡ some (a, rest))
      × (q.head ≡ rest)
      × (q.allocated ≡ (p.allocated + rounded size) % 2 ^ 64)
unfolding allocate
allocate-found size a p q e = elim (Option-cases (take_first (rounded size) p.head)) [
  | inl failed ↦ absurd (ground arith)
  | inr (b, found) ↦ (b.1, ground arith, ground arith, ground arith)
]

-- Freeing what was just allocated (from a valid allocator, for a positive request that can be
-- rounded up) is allowed, and gives back the free list, node for node, and the counter of before.
pub deallocate-allocate :
    (size a : ℕ) (p q : ProgramAllocator)
    → 0 < size
    → Fits size
    → IsValid p
    → allocate size p ≡ (some a, q)
    → IsHeld a size q
      × ((deallocate a size q).head ≡ p.head)
      × ((deallocate a size q).allocated ≡ p.allocated)
deallocate-allocate size a p q pos fits v e =
    let (rest, found, hd, count) = allocate-found size a p q e in
    let t = taken pos fits v found in
    (
      record {
        start = omega (arith, t.low);
        end = t.high;
        page = t.aligned;
        clear = rw hd t.clear;
      },
      unfold deallocate in rw hd t.restored,
      unfold deallocate in omega (arith, allocated-bound pos fits v found),
    )
