-- ===== src/ProgramAlloc/Find.antt =====
-- The two address queries: they split the program region between them.
use ralph_os.Base.{
  ℕ, ◌+◌, ◌-◌, ◌≤◌, ◌<◌, ◌≡◌, refl, ◌⊎◌, inl, inr, not, Bool-cases, Bool, true, false, ◌&&◌, Option,
  none, some, List, [], ◌∷◌, arith, ltb, leb,
}
use ralph_os.FreeList.{FreeBlock, block, within, covers}
use ralph_os.FreeList.Order.{IsSorted, IsSorted-suc}
use ralph_os.FreeList.Cover.{covers-below}
use ralph_os.ProgramAlloc.{
  program_region_start, program_region_end, ProgramAllocator, in_region, find_gap, find_free,
  find_allocation, find_free_region,
}
use ralph_os.ProgramAlloc.Valid.{IsValid}

abbrev pub differs : Bool → Bool → Bool
differs true c = not c
differs false c = c

-- The answer, if there is one, begins no lower than `b`.
abbrev LowerBound : ℕ → Option (ℕ × ℕ) → Type 0
LowerBound b none = Unit {0}
LowerBound b (some (s, e)) = b ≤ s

LowerBound-le : (b c : ℕ) (r : Option (ℕ × ℕ)) → c ≤ b → LowerBound b r → LowerBound c r
LowerBound-le b c none p h = tt
LowerBound-le b c (some (s, e)) p h = omega arith

-- `none` where `x` is not in the state `b` (free or not), else an interval around `x` whose
-- addresses all are.
abbrev pub Around : Bool → List FreeBlock → ℕ → Option (ℕ × ℕ) → Type 0
Around b l x none = covers l x ≡ not b
Around b l x (some (s, e)) =
    (s ≤ x) × (x < e) × ((y : ℕ) → (within s (e - s) y && differs b (covers l y)) ≡ false)

-- What holds of the rest of a list holds of the list, above its first block.
Around-cons :
    (b : Bool) (s n : ℕ) (l : List FreeBlock) (x : ℕ) (r : Option (ℕ × ℕ))
    → within s n x ≡ false
    → LowerBound (s + n) r
    → Around b l x r
    → Around b (block s n ∷ l) x r
unfolding covers
Around-cons true s n l x none p q h = ground arith
Around-cons false s n l x none p q h = ground arith
Around-cons b s n l x (some (t, e)) p q h = (h.0, h.1, λ y. ground (arith, h.2 y))

find_free-LowerBound :
    (lo hi : ℕ) (l : List FreeBlock) (x : ℕ) → IsSorted lo hi l → LowerBound lo (find_free x l)
unfolding find_free
find_free-LowerBound lo hi [] x h = tt
find_free-LowerBound lo hi (block s n ∷ next) x h =
    ground (
      arith,
      LowerBound-le (s + n) lo (find_free x next),
      find_free-LowerBound (s + n) hi next x h.2,
    )

find_free-Around :
    (lo hi : ℕ) (l : List FreeBlock) (x : ℕ) → IsSorted lo hi l → Around true l x (find_free x l)
unfolding find_free
find_free-Around lo hi [] x h = unfold covers in refl
find_free-Around lo hi (block s n ∷ next) x h = elim (Bool-cases (leb s x && ltb x (s + n))) [
  | inl here ↦ rw here (ground arith, ground arith, λ y. unfold covers in ground arith)
  | inr past ↦ rw past (
      Around-cons true s n next x (find_free x next) past
        (find_free-LowerBound (s + n) hi next x h.2) (find_free-Around (s + n) hi next x h.2))
]

find_gap-LowerBound :
    (prev : ℕ) (l : List FreeBlock) (x : ℕ)
    → IsSorted prev program_region_end l
    → LowerBound prev (find_gap x prev l)
unfolding find_gap
find_gap-LowerBound prev [] x h = ground arith
find_gap-LowerBound prev (block s n ∷ next) x h = ground (
  arith,
  LowerBound-le (s + n) prev (find_gap x (s + n) next),
  find_gap-LowerBound (s + n) next x h.2,
)

-- The cases of the walk at one block.
find_gap_cases :
    (prev s n : ℕ) (next : List FreeBlock) (x : ℕ)
    → prev ≤ x
    → ((x < s) × (find_gap x prev (block s n ∷ next) ≡ some (prev, s)))
      ⊎ (((within s n x ≡ true) × (find_gap x prev (block s n ∷ next) ≡ none))
          ⊎ ((s + n ≤ x) × (find_gap x prev (block s n ∷ next) ≡ find_gap x (s + n) next)))
unfolding find_gap
find_gap_cases prev s n next x p = elim (Bool-cases (ltb x s)) [
  | inl gap ↦ inl (ground arith, ground arith)
  | inr past ↦ elim (Bool-cases (ltb x (s + n))) [
    | inl free ↦ inr (inl (ground arith, ground arith))
    | inr above ↦ inr (inr (ground arith, ground arith))
  ]
]

find_gap-nil :
    (prev x : ℕ)
    → prev ≤ x
    → x < program_region_end
    → find_gap x prev [] ≡ some (prev, program_region_end)
unfolding find_gap
find_gap-nil prev x p q = ground arith

find_gap-Around :
    (prev : ℕ) (l : List FreeBlock) (x : ℕ)
    → IsSorted prev program_region_end l
    → prev ≤ x
    → x < program_region_end
    → Around false l x (find_gap x prev l)
unfolding find_gap
find_gap-Around prev [] x h p q =
    rw (find_gap-nil prev x p q) (p, q, λ y. unfold covers in ground arith)
find_gap-Around prev (block s n ∷ next) x h p q = elim (find_gap_cases prev s n next x p) [
  | inl (lt, e) ↦ rw e (
    p,
    lt,
    λ y. unfold covers in ground (arith, covers-below (s + n) program_region_end next y h.2),
  )
  | inr (inl (free, e)) ↦ rw e (unfold covers in ground arith)
  | inr (inr (above, e)) ↦ rw e (
      Around-cons false s n next x (find_gap x (s + n) next) (ground arith)
        (find_gap-LowerBound (s + n) next x h.2) (find_gap-Around (s + n) next x h.2 above q))
]

-- For every address of the program region, and a valid allocator, find_free_region answers exactly
-- for the free ones and find_allocation exactly for the others; each answer is an interval around
-- the address on which every address is free, or none is.
pub find_split :
    (p : ProgramAllocator) (x : ℕ)
    → IsValid p
    → in_region x ≡ true
    → Around true p.head x (find_free_region x p) × Around false p.head x (find_allocation x p)
unfolding find_free_region find_allocation
find_split p x v inside = (
  rw inside (find_free-Around program_region_start program_region_end p.head x sorted),
  rw inside (find_gap-Around program_region_start p.head x sorted (ground arith) (ground arith)),
)
  where
    sorted : IsSorted program_region_start program_region_end p.head
    sorted =
        IsSorted-suc (program_region_start - 1) program_region_end p.head (omega arith) v.gapped
