-- ===== src/ProgramAlloc/Take.antt =====
-- The first-fit loop: what it takes from the free list.
use mathlib.Core.Path.{subst}
use ralph_os.Base.{
  ℕ, ◌+◌, ◌-◌, ◌%◌, ◌≤◌, ◌<◌, ◌≡◌, ap, ◌∙◌, refl, none, some, List, [], ◌∷◌, inl, inr, arith, leb,
  Bool-cases, Option-cases,
}
use ralph_os.FreeList.{FreeBlock, block, min_block_size, total, add_free, merge_free}
use ralph_os.FreeList.Order.{
  IsSorted, IsGapped, IsAligned, IsClear, IsSorted-le, IsGapped-IsSorted, IsGapped-StartsAfter,
  IsGapped-weaken, add_free-first, merge_free-adjacent, add_free-StartsAfter,
  merge_from-StartsAfter, merge_free-IsGapped_self,
}
use ralph_os.ProgramAlloc.{page_size, take_first}

-- No block is as large as `size`.
abbrev pub AllSmaller : ℕ → List FreeBlock → Type 0
AllSmaller size [] = Unit {0}
AllSmaller size (block s n ∷ rest) = (n < size) × AllSmaller size rest

-- A search that fails has seen that every block is too small.
pub take_first-none : (size : ℕ) (l : List FreeBlock) → take_first size l ≡ none → AllSmaller size l
unfolding take_first
take_first-none size [] e = tt
take_first-none size (block s n ∷ rest) e = ground (arith, take_first-none size rest)

pub take_first-AllSmaller :
    (size : ℕ) (l : List FreeBlock) → AllSmaller size l → take_first size l ≡ none
unfolding take_first
take_first-AllSmaller size [] e = refl
take_first-AllSmaller size (block s n ∷ rest) e =
    ground (arith, take_first-AllSmaller size rest e.1)

-- What a successful search gives, for a list between `lo` and `hi`.
pub record Taken (lo hi size a : ℕ) (l rest : List FreeBlock) : Type 0 where
  pub low : lo < a
  pub high : a + size ≤ hi
  pub aligned : a % page_size ≡ 0
  pub rest_gapped : IsGapped lo hi rest
  pub rest_aligned : IsAligned page_size rest
  pub sum : total l ≡ size + total rest
  pub clear : IsClear a size rest
  pub restored : merge_free (add_free a size rest) ≡ l

-- The search goes past a block.
Taken-cons :
    (lo hi size a s n : ℕ) (l rest : List FreeBlock)
    → lo < s
    → 0 < n
    → s % page_size ≡ 0
    → n % page_size ≡ 0
    → Taken (s + n) hi size a l rest
    → Taken lo hi size a (block s n ∷ l) (block s n ∷ rest)
unfolding total add_free merge_free
Taken-cons lo hi size a s n l rest p q al al' t = record {
  low = omega arith;
  high = t.high;
  aligned = t.aligned;
  rest_gapped = (p, q, t.rest_gapped);
  rest_aligned = (al, al', t.rest_aligned);
  sum = omega arith;
  clear = (inr (omega arith), t.clear);
  restored = ground (
    arith,
    merge_from-StartsAfter s n (add_free a size rest) (
        add_free-StartsAfter a size (s + n) rest t.low
          (IsGapped-StartsAfter (s + n) hi rest t.rest_gapped)),
  );
}

IsClear-below : (a n lo hi : ℕ) (l : List FreeBlock) → a + n ≤ lo → IsSorted lo hi l → IsClear a n l
IsClear-below a n lo hi [] p h = tt
IsClear-below a n lo hi (block s m ∷ rest) p h =
    (inl (omega arith), IsClear-below a n (s + m) hi rest (omega arith) h.2)

-- The search takes a block whole.
Taken-whole :
    (lo hi s n : ℕ) (next : List FreeBlock)
    → IsGapped lo hi (block s n ∷ next)
    → IsAligned page_size (block s n ∷ next)
    → Taken lo hi n s (block s n ∷ next) next
unfolding total
Taken-whole lo hi s n next h al = record {
  low = h.0;
  high = IsSorted-le (s + n) hi next (IsGapped-IsSorted (s + n) hi next h.2);
  aligned = al.0;
  rest_gapped = IsGapped-weaken (s + n) lo hi next (omega arith) h.2;
  rest_aligned = al.2;
  sum = refl;
  clear = IsClear-below s n (s + n) hi next (omega arith) (IsGapped-IsSorted (s + n) hi next h.2);
  restored =
      ap merge_free (
        add_free-first s n next
          (IsGapped-StartsAfter s hi next (IsGapped-weaken (s + n) s hi next (omega arith) h.2)))
      ∙ merge_free-IsGapped_self lo hi (block s n ∷ next) h;
}

-- The search takes the lower part of a block.
Taken-split :
    (lo hi size s n : ℕ) (next : List FreeBlock)
    → IsGapped lo hi (block s n ∷ next)
    → IsAligned page_size (block s n ∷ next)
    → 0 < size
    → size < n
    → size % page_size ≡ 0
    → Taken lo hi size s (block s n ∷ next) (block (s + size) (n - size) ∷ next)
Taken-split lo hi size s n next h al p q sz = record {
  low = h.0;
  high = omega (arith, IsSorted-le (s + n) hi next (IsGapped-IsSorted (s + n) hi next h.2));
  aligned = al.0;
  rest_gapped = (omega arith, omega arith, subst (λ k. IsGapped k hi next) same h.2);
  rest_aligned = (omega arith, omega arith, al.2);
  sum = unfold total in omega arith;
  clear = (
    inl (omega arith),
    IsClear-below s size (s + n) hi next (omega arith) (IsGapped-IsSorted (s + n) hi next h.2),
  );
  restored = restore;
}
  where
    same : s + n ≡ s + size + (n - size)
    same = omega arith

    restore : merge_free (add_free s size (block (s + size) (n - size) ∷ next)) ≡ block s n ∷ next
    restore =
        ap merge_free (add_free-first s size (block (s + size) (n - size) ∷ next) (omega arith))
        ∙ (merge_free-adjacent s size (n - size) next
            ∙ (ap (λ k. merge_free (block s k ∷ next)) (omega arith)
                ∙ merge_free-IsGapped_self lo hi (block s n ∷ next) h))

-- The three ways in which a search succeeds.
data Hit (size a s n : ℕ) (next rest : List FreeBlock) : Type 0 where
  later :
      n < size
      → (r : List FreeBlock) → take_first size next ≡ some (a, r)
      → rest ≡ block s n ∷ r
      → Hit size a s n next rest
  whole : size ≤ n → n < size + min_block_size → s ≡ a → rest ≡ next → Hit size a s n next rest
  split :
      size + min_block_size ≤ n
      → s ≡ a
      → rest ≡ block (s + size) (n - size) ∷ next
      → Hit size a s n next rest

hit :
    (size a s n : ℕ) (next rest : List FreeBlock)
    → take_first size (block s n ∷ next) ≡ some (a, rest)
    → Hit size a s n next rest
unfolding take_first
hit size a s n next rest e = elim (Bool-cases (leb size n)) [
  | inl fits ↦ elim (Bool-cases (leb min_block_size (n - size))) [
    | inl big ↦ split (ground arith) (ground arith) (ground arith)
    | inr small ↦ whole (ground arith) (ground arith) (ground arith) (ground arith)
  ]
  | inr misses ↦ elim (Option-cases (take_first size next)) [
    | inl failed ↦ absurd (ground arith)
    | inr (b, found) ↦ later (ground arith) b.1 (ground arith) (ground arith)
  ]
]

-- The search, in any list whose blocks are whole pages, of which it asks for some.
pub take_first-Taken :
    (lo hi size a : ℕ) (l rest : List FreeBlock)
    → IsGapped lo hi l
    → IsAligned page_size l
    → 0 < size
    → size % page_size ≡ 0
    → take_first size l ≡ some (a, rest)
    → Taken lo hi size a l rest
take_first-Taken lo hi size a [] rest h al p sz e = unfold take_first in cc
take_first-Taken lo hi size a (block s n ∷ next) rest h al p sz e =
    elim (hit size a s n next rest e) [
      | later small r found same ↦ rw same (
          Taken-cons lo hi size a s n next r h.0 h.1 al.0 al.1
            (take_first-Taken (s + n) hi size a next r h.2 al.2 p sz found))
      | whole le lt at same ↦ rw (same, ← at, exact le lt) (Taken-whole lo hi s n next h al)
      | split le at same ↦ rw (same, ← at) (Taken-split lo hi size s n next h al p (omega arith) sz)
    ]
  where
    exact : size ≤ n → n < size + min_block_size → size ≡ n
    exact le lt = omega (arith, al.1, sz)
