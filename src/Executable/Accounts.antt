-- ===== src/Executable/Accounts.antt =====
-- The program memory is accounted for: every page is free or belongs to exactly one task, through
-- every operation of the registry.
use mathlib.Core.List.Permᴰ
use mathlib.Core.List.{Permᴰ, append_assoc}
use mathlib.Core.Path.{subst}
use ralph_os.Base.{ℕ, ◌≡◌, inl, inr, none, some, List, [], ◌∷◌, ◌++◌, arith, ltb, ◌==◌, Bool-cases}
use ralph_os.Executable.{
  Block, TaskAllocations, Entries, Memory, get, insert, remove, modify, blocks,
}
use ralph_os.Executable.Owned.{Divides}

unfoldable pub all_blocks : Entries → List Block
unfolding blocks
all_blocks [] = []
all_blocks ((id, t) ∷ rest) = blocks t ++ all_blocks rest

-- The blocks of the registry, and some that no task owns yet, share out the region with the free
-- list.
abbrev pub IsAccounted : List Block → Memory → Type 0
IsAccounted spare m = Divides (spare ++ all_blocks m.task_allocations) m.allocator

pub swap_front : (ls bs cs : List Block) → Permᴰ (ls ++ (bs ++ cs)) (bs ++ (ls ++ cs))
swap_front ls bs cs =
    subst (λ l. Permᴰ l (bs ++ (ls ++ cs))) (append_assoc ls bs cs)
      (subst (Permᴰ ((ls ++ bs) ++ cs)) (append_assoc bs ls cs)
        (Permᴰ.append_right cs (Permᴰ.append_comm ls bs)))

pub all_blocks-insert :
    (id : ℕ) (t : TaskAllocations) (es : Entries)
    → get id es ≡ none
    → Permᴰ (all_blocks (insert id t es)) (blocks t ++ all_blocks es)
unfolding all_blocks insert get
all_blocks-insert id t [] e = Permᴰ.refl _
all_blocks-insert id t ((k, v) ∷ rest) e = elim (Bool-cases (id == k)) [
  | inl same ↦ absurd (ground arith)
  | inr other ↦ elim (Bool-cases (ltb id k)) [
    | inl before ↦ rw (other, before) (Permᴰ.refl _)
    | inr after ↦
        rw (other, after)
          (Permᴰ.trans
            (Permᴰ.append_left (blocks v) (all_blocks-insert id t rest (ground (arith, other))))
            (swap_front (blocks v) (blocks t) (all_blocks rest)))
  ]
]

-- A change of an entry, against the entry's removal.
pub all_blocks-modify :
    (id : ℕ) (f : TaskAllocations → TaskAllocations) (t : TaskAllocations) (es : Entries)
    → get id es ≡ some t
    → Permᴰ (all_blocks (modify id f es)) (blocks (f t) ++ all_blocks (remove id es))
unfolding all_blocks modify get remove
all_blocks-modify id f t [] e = absurd (ground arith)
all_blocks-modify id f t ((k, v) ∷ rest) e = elim (Bool-cases (id == k)) [
  | inl same ↦ let here : v ≡ t = ground arith in rw (same, here) (Permᴰ.refl _)
  | inr other ↦ rw other (
      Permᴰ.trans
        (Permᴰ.append_left (blocks v) (all_blocks-modify id f t rest (ground (arith, other))))
        (swap_front (blocks v) (blocks (f t)) (all_blocks (remove id rest))))
]

pub all_blocks-remove :
    (id : ℕ) (t : TaskAllocations) (es : Entries)
    → get id es ≡ some t
    → Permᴰ (all_blocks es) (blocks t ++ all_blocks (remove id es))
unfolding all_blocks get remove
all_blocks-remove id t [] e = absurd (ground arith)
all_blocks-remove id t ((k, v) ∷ rest) e = elim (Bool-cases (id == k)) [
  | inl same ↦ let here : v ≡ t = ground arith in rw (same, here) (Permᴰ.refl _)
  | inr other ↦ rw other (
      Permᴰ.trans
        (Permᴰ.append_left (blocks v) (all_blocks-remove id t rest (ground (arith, other))))
        (swap_front (blocks v) (blocks t) (all_blocks (remove id rest))))
]
