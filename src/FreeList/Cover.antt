-- ===== src/FreeList/Cover.antt =====
-- The free addresses before and after the list operations.
use ralph_os.Base.{ℕ, ◌+◌, ◌≤◌, ◌<◌, ◌≡◌, refl, true, false, ◌||◌, List, [], ◌∷◌, arith}
use ralph_os.FreeList.{FreeBlock, block, add_free, merge_from, merge_free, within, covers}
use ralph_os.FreeList.Order.{IsSorted, IsSorted-le, IsClear}

-- Adding a block frees its addresses and no other.
pub covers-add_free :
    (a n : ℕ) (l : List FreeBlock) (x : ℕ)
    → covers (add_free a n l) x ≡ (within a n x || covers l x)
unfolding covers add_free
covers-add_free a n [] x = refl
covers-add_free a n (block s m ∷ rest) x = ground (arith, covers-add_free a n rest x)

pub covers-merge_from :
    (s n : ℕ) (l : List FreeBlock) (x : ℕ)
    → covers (merge_from s n l) x ≡ (within s n x || covers l x)
unfolding covers merge_from
covers-merge_from s n [] x = refl
covers-merge_from s n (block t m ∷ rest) x =
    ground (arith, covers-merge_from s (n + m) rest x, covers-merge_from t m rest x)

-- Merging changes no address.
pub covers-merge_free : (l : List FreeBlock) (x : ℕ) → covers (merge_free l) x ≡ covers l x
unfolding covers merge_free
covers-merge_free [] x = refl
covers-merge_free (block s n ∷ rest) x = covers-merge_from s n rest x

-- Below the first block nothing is free.
pub covers-below :
    (lo hi : ℕ) (l : List FreeBlock) (x : ℕ) → IsSorted lo hi l → x < lo → covers l x ≡ false
unfolding covers
covers-below lo hi [] x h p = refl
covers-below lo hi (block s n ∷ rest) x h p = ground (arith, covers-below (s + n) hi rest x h.2)

pub covers-above :
    (lo hi : ℕ) (l : List FreeBlock) (x : ℕ) → IsSorted lo hi l → hi ≤ x → covers l x ≡ false
unfolding covers
covers-above lo hi [] x h p = refl
covers-above lo hi (block s n ∷ rest) x h p =
    ground (arith, covers-above (s + n) hi rest x h.2, IsSorted-le (s + n) hi rest h.2)

pub covers-clear :
    (a n : ℕ) (l : List FreeBlock) (x : ℕ)
    → IsClear a n l
    → within a n x ≡ true
    → covers l x ≡ false
unfolding covers
covers-clear a n [] x c p = refl
covers-clear a n (block s m ∷ rest) x c p = ground (arith, covers-clear a n rest x c.1)
