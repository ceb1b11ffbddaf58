-- ===== src/FreeList/Order.antt =====
-- What a well-formed free list is: blocks of positive size in address order, inside `[lo, hi)`,
-- aligned to `g`; and, after a merge, with a gap between neighbours.
use native.Mathlib.Nat.{mod-add-mod}
use ralph_os.Base.{ap, sym, ◌∙◌, ℕ, suc, ◌+◌, ◌%◌, ◌≤◌, ◌<◌, ◌≡◌, refl, List, [], ◌∷◌, ◌⊎◌, arith}
use ralph_os.FreeList.{FreeBlock, block, add_free, merge_from, merge_free, total}

abbrev pub IsSorted : ℕ → ℕ → List FreeBlock → Type 0
IsSorted lo hi [] = lo ≤ hi
IsSorted lo hi (block s n ∷ rest) = (lo ≤ s) × (0 < n) × IsSorted (s + n) hi rest

-- As `IsSorted`, and no block begins at `lo` or where its neighbour ends.
abbrev pub IsGapped : ℕ → ℕ → List FreeBlock → Type 0
IsGapped lo hi [] = lo ≤ hi
IsGapped lo hi (block s n ∷ rest) = (lo < s) × (0 < n) × IsGapped (s + n) hi rest

abbrev pub IsAligned : ℕ → List FreeBlock → Type 0
IsAligned g [] = Unit {0}
IsAligned g (block s n ∷ rest) = (s % g ≡ 0) × (n % g ≡ 0) × IsAligned g rest

-- `[a, a + n)` meets no block of the list.
abbrev pub IsClear : ℕ → ℕ → List FreeBlock → Type 0
IsClear a n [] = Unit {0}
IsClear a n (block s m ∷ rest) = ((a + n ≤ s) ⊎ (s + m ≤ a)) × IsClear a n rest

pub IsGapped-IsSorted : (lo hi : ℕ) (l : List FreeBlock) → IsGapped lo hi l → IsSorted lo hi l
IsGapped-IsSorted lo hi [] h = h
IsGapped-IsSorted lo hi (block s n ∷ rest) h =
    (omega arith, h.1, IsGapped-IsSorted (s + n) hi rest h.2)

pub IsSorted-le : (lo hi : ℕ) (l : List FreeBlock) → IsSorted lo hi l → lo ≤ hi
IsSorted-le lo hi [] h = h
IsSorted-le lo hi (block s n ∷ rest) h = omega (arith, IsSorted-le (s + n) hi rest h.2)

pub IsSorted-weaken :
    (lo lo' hi : ℕ) (l : List FreeBlock) → lo' ≤ lo → IsSorted lo hi l → IsSorted lo' hi l
IsSorted-weaken lo lo' hi [] h s = omega arith
IsSorted-weaken lo lo' hi (block t n ∷ rest) h s = (omega arith, s.1, s.2)

pub total-le : (lo hi : ℕ) (l : List FreeBlock) → IsSorted lo hi l → lo + total l ≤ hi
unfolding total
total-le lo hi [] h = omega arith
total-le lo hi (block s n ∷ rest) h = omega (arith, total-le (s + n) hi rest h.2)

module _ (a n : ℕ) where
  pub total-add_free : (l : List FreeBlock) → total (add_free a n l) ≡ n + total l
  unfolding total add_free
  total-add_free [] = refl
  total-add_free (block s m ∷ rest) = ground (arith, total-add_free rest)

  pub add_free-IsSorted :
      (lo hi : ℕ) (l : List FreeBlock)
      → IsSorted lo hi l
      → lo ≤ a
      → 0 < n
      → a + n ≤ hi
      → IsClear a n l
      → IsSorted lo hi (add_free a n l)
  unfolding add_free
  add_free-IsSorted lo hi [] h p q r c = (p, q, r)
  add_free-IsSorted lo hi (block s m ∷ rest) h p q r c =
      ground (arith, add_free-IsSorted (s + m) hi rest h.2)

  pub add_free-IsAligned :
      (g : ℕ) (l : List FreeBlock)
      → IsAligned g l
      → a % g ≡ 0
      → n % g ≡ 0
      → IsAligned g (add_free a n l)
  unfolding add_free
  add_free-IsAligned g [] h p q = (p, q, tt)
  add_free-IsAligned g (block s m ∷ rest) h p q = ground (arith, add_free-IsAligned g rest)

pub mod-add_zero : (n m g : ℕ) → n % g ≡ 0 → m % g ≡ 0 → (n + m) % g ≡ 0
mod-add_zero n m g p q =
    sym (mod-add-mod n g m) ∙ (ap (λ t. (t + m) % g) p ∙ (ap (λ t. t % g) (omega arith) ∙ q))

pub total-merge_from : (s n : ℕ) (l : List FreeBlock) → total (merge_from s n l) ≡ n + total l
unfolding total merge_from
total-merge_from s n [] = refl
total-merge_from s n (block t m ∷ rest) =
    ground (arith, total-merge_from s (n + m) rest, total-merge_from t m rest)

pub total-merge_free : (l : List FreeBlock) → total (merge_free l) ≡ total l
unfolding total merge_free
total-merge_free [] = refl
total-merge_free (block s n ∷ rest) = total-merge_from s n rest

pub merge_from-IsGapped :
    (lo hi s n : ℕ) (l : List FreeBlock)
    → lo < s
    → 0 < n
    → IsSorted (s + n) hi l
    → IsGapped lo hi (merge_from s n l)
unfolding merge_from
merge_from-IsGapped lo hi s n [] p q h = (p, q, h)
merge_from-IsGapped lo hi s n (block t m ∷ rest) p q h = ground (
  arith,
  merge_from-IsGapped lo hi s (n + m) rest p,
  merge_from-IsGapped (s + n) hi t m rest,
  IsSorted-weaken (t + m) (s + (n + m)) hi rest,
)

pub merge_free-IsGapped :
    (lo hi : ℕ) (l : List FreeBlock) → IsSorted (suc lo) hi l → IsGapped lo hi (merge_free l)
unfolding merge_free
merge_free-IsGapped lo hi [] h = omega arith
merge_free-IsGapped lo hi (block s n ∷ rest) h = merge_from-IsGapped lo hi s n rest h.0 h.1 h.2

-- The first block, if there is one, begins behind `b`.
abbrev pub StartsAfter : ℕ → List FreeBlock → Type 0
StartsAfter b [] = Unit {0}
StartsAfter b (block s n ∷ rest) = b < s

pub IsGapped-StartsAfter : (lo hi : ℕ) (l : List FreeBlock) → IsGapped lo hi l → StartsAfter lo l
IsGapped-StartsAfter lo hi [] h = tt
IsGapped-StartsAfter lo hi (block s n ∷ rest) h = h.0

pub add_free-StartsAfter :
    (a n b : ℕ) (l : List FreeBlock) → b < a → StartsAfter b l → StartsAfter b (add_free a n l)
unfolding add_free
add_free-StartsAfter a n b [] p h = p
add_free-StartsAfter a n b (block s m ∷ rest) p h = ground arith

-- Nothing is merged into a block with a gap behind it.
pub merge_from-StartsAfter :
    (s n : ℕ) (l : List FreeBlock)
    → StartsAfter (s + n) l
    → merge_from s n l ≡ block s n ∷ merge_free l
unfolding merge_from merge_free
merge_from-StartsAfter s n [] h = refl
merge_from-StartsAfter s n (block t m ∷ rest) h = ground arith

pub merge_free-IsGapped_self :
    (lo hi : ℕ) (l : List FreeBlock) → IsGapped lo hi l → merge_free l ≡ l
merge_free-IsGapped_self lo hi [] h = unfold merge_free in refl
merge_free-IsGapped_self lo hi (block s n ∷ rest) h =
    unfold_merge s n rest
    ∙ (merge_from-StartsAfter s n rest (IsGapped-StartsAfter (s + n) hi rest h.2)
        ∙ ap (λ r. block s n ∷ r) (merge_free-IsGapped_self (s + n) hi rest h.2))
  where
    unfold_merge : (s n : ℕ) (l : List FreeBlock) → merge_free (block s n ∷ l) ≡ merge_from s n l
    unfold_merge s n l = unfold merge_free in refl

pub IsGapped-weaken :
    (lo lo' hi : ℕ) (l : List FreeBlock) → lo' ≤ lo → IsGapped lo hi l → IsGapped lo' hi l
IsGapped-weaken lo lo' hi [] h s = omega arith
IsGapped-weaken lo lo' hi (block t n ∷ rest) h s = (omega arith, s.1, s.2)

pub add_free-first :
    (a n : ℕ) (l : List FreeBlock) → StartsAfter a l → add_free a n l ≡ block a n ∷ l
unfolding add_free
add_free-first a n [] h = refl
add_free-first a n (block s m ∷ rest) h = ground arith

pub merge_free-adjacent :
    (s k m : ℕ) (next : List FreeBlock)
    → merge_free (block s k ∷ block (s + k) m ∷ next) ≡ merge_free (block s (k + m) ∷ next)
unfolding merge_free merge_from
merge_free-adjacent s k m next = ground arith

pub merge_from-IsAligned :
    (g s n : ℕ) (l : List FreeBlock)
    → s % g ≡ 0
    → n % g ≡ 0
    → IsAligned g l
    → IsAligned g (merge_from s n l)
unfolding merge_from
merge_from-IsAligned g s n [] p q h = (p, q, tt)
merge_from-IsAligned g s n (block t m ∷ rest) p q h = ground (
  arith,
  merge_from-IsAligned g s (n + m) rest p,
  merge_from-IsAligned g t m rest,
  mod-add_zero n m g,
)

pub merge_free-IsAligned : (g : ℕ) (l : List FreeBlock) → IsAligned g l → IsAligned g (merge_free l)
unfolding merge_free
merge_free-IsAligned g [] h = tt
merge_free-IsAligned g (block s n ∷ rest) h = merge_from-IsAligned g s n rest h.0 h.1 h.2

-- A gap before the first block is room for a lower bound one higher.
pub IsSorted-suc :
    (lo hi : ℕ) (l : List FreeBlock) → lo < hi → IsGapped lo hi l → IsSorted (suc lo) hi l
IsSorted-suc lo hi [] p h = p
IsSorted-suc lo hi (block s n ∷ rest) p h = (h.0, h.1, IsGapped-IsSorted (s + n) hi rest h.2)
