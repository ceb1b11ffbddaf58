-- ===== src/FreeList.antt =====
-- The address-ordered free lists of src/program_alloc.rs and src/allocator.rs. Both files chain
-- the free blocks through headers that lie in the blocks themselves; the list here is the
-- sequence of (address, size) pairs that the chain from `head` visits. A node is reached through
-- the chain only, so a write to a node's `size` or `next` is a change at its place in the list.
pub mod Order
pub mod Cover
use ralph_os.Base.{
  ℕ, ◌+◌, ◌-◌, Bool, true, false, ◌&&◌, ◌||◌, Option, none, some, List, [], ◌∷◌, ltb, leb, ◌==◌,
  if◌then◌else◌,
}

-- A header in memory: where it stands and the size that it records.
pub data FreeBlock : Type 0 where
  block : ℕ → ℕ → FreeBlock

-- Both structs are two words.
abbrev pub min_block_size : ℕ
min_block_size = 16

-- The walk stops at the first node whose address is greater.
unfoldable pub add_free : ℕ → ℕ → List FreeBlock → List FreeBlock
add_free a n [] = block a n ∷ []
add_free a n (block s m ∷ rest) =
    if ltb a s then block a n ∷ block s m ∷ rest else block s m ∷ add_free a n rest

-- The loop of the merge, at the node `block s n` with `rest` behind it. After a merge the loop
-- stays at the extended node.
unfoldable pub merge_from : ℕ → ℕ → List FreeBlock → List FreeBlock
merge_from s n [] = block s n ∷ []
merge_from s n (block t m ∷ rest) = elim (s + n == t) [
  | true ↦ merge_from s (n + m) rest
  | false ↦ block s n ∷ merge_from t m rest
]

unfoldable pub merge_free : List FreeBlock → List FreeBlock
unfolding merge_from
merge_free [] = []
merge_free (block s n ∷ rest) = merge_from s n rest

unfoldable pub total : List FreeBlock → ℕ
total [] = 0
total (block s n ∷ rest) = n + total rest

-- Whether the address `x` lies in `[a, a + n)`.
abbrev pub within : ℕ → ℕ → ℕ → Bool
within a n x = leb a x && ltb x (a + n)

-- The set of free addresses that a list stands for.
unfoldable pub covers : List FreeBlock → ℕ → Bool
covers [] x = false
covers (block s n ∷ rest) x = within s n x || covers rest x
