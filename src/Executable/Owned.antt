-- ===== src/Executable/Owned.antt =====
-- The addresses of the program region as they are divided between blocks and the free list, and
-- what the allocator's two operations do to the division.
use mathlib.Core.List.{Permᴰ}
use mathlib.Core.Path.{subst}
use ralph_os.Base.{
  ℕ, ◌+◌, ◌-◌, ◌%◌, ◌≤◌, ◌<◌, ◌≡◌, refl, ap, ◌∙◌, Bool, true, false, ◌&&◌, none, some, List, [],
  ◌∷◌, ◌++◌, arith, All, max,
}
use ralph_os.FreeList.{FreeBlock, block, within, covers}
use ralph_os.FreeList.Order.{IsSorted, IsClear, IsGapped-IsSorted}
use ralph_os.ProgramAlloc.{
  ProgramAllocator, program_region_start, program_region_end, program_region_size, page_size,
  rounded, allocate, deallocate,
}
use ralph_os.ProgramAlloc.Valid.{
  IsValid, Fits, Outcome, IsHeld, allocate_lem, deallocate-IsValid, covers-deallocate,
  rounded_bounds,
}
use ralph_os.Executable.{Block, release}

abbrev pub bit : Bool → ℕ
bit true = 1
bit false = 0

-- How many of the blocks, rounded as the allocator does, contain the address.
unfoldable pub hits : List Block → ℕ → ℕ
hits [] x = 0
hits ((a, n) ∷ rest) x = bit (within a (rounded n) x) + hits rest x

unfoldable pub held : List Block → ℕ
held [] = 0
held ((a, n) ∷ rest) = rounded n + held rest

-- A block of the program region.
pub record IsRange (b : Block) : Type 0 where
  pub positive : 0 < b.1
  pub fits : Fits b.1
  pub start : program_region_start ≤ b.0
  pub end : b.0 + rounded b.1 ≤ program_region_end
  pub page : b.0 % page_size ≡ 0

abbrev pub in_program : ℕ → Bool
in_program x = within program_region_start program_region_size x

-- Every address of the region is either free or in exactly one of the blocks.
pub record Divides (bs : List Block) (p : ProgramAllocator) : Type 0 where
  pub valid : IsValid p
  pub ranges : All IsRange bs
  pub exact : (x : ℕ) → hits bs x + bit (covers p.head x) ≡ bit (in_program x)
  pub counted : held bs ≡ p.allocated

-- Where no address of the range is free, it meets no block of the free list.
IsClear-covers :
    (a n lo hi : ℕ) (l : List FreeBlock)
    → 0 < n
    → IsSorted lo hi l
    → ((x : ℕ) → (within a n x && covers l x) ≡ false)
    → IsClear a n l
unfolding covers
IsClear-covers a n lo hi [] pos s h = tt
IsClear-covers a n lo hi (block t m ∷ rest) pos s h = (
  ground (arith, h (max a t), s.1),
  IsClear-covers a n (t + m) hi rest pos s.2 (λ x. ground (arith, h x)),
)

Divides-IsHeld :
    (a n : ℕ) (bs : List Block) (p : ProgramAllocator) → Divides ((a, n) ∷ bs) p → IsHeld a n p
unfolding hits
Divides-IsHeld a n bs p d =
    let r = d.ranges.0 in
    record {
      start = r.start;
      end = r.end;
      page = r.page;
      clear =
          IsClear-covers a (rounded n) (program_region_start - 1) program_region_end p.head
            (omega (arith, rounded_bounds n r.positive r.fits, r.positive))
            (IsGapped-IsSorted (program_region_start - 1) program_region_end p.head d.valid.gapped)
            (λ x. ground (arith, d.exact x));
    }

-- Freeing the first of the blocks.
pub Divides-deallocate :
    (a n : ℕ) (bs : List Block) (p : ProgramAllocator)
    → Divides ((a, n) ∷ bs) p
    → Divides bs (deallocate a n p)
unfolding hits held deallocate
Divides-deallocate a n bs p d =
    let r = d.ranges.0 in
    let v = deallocate-IsValid a n p r.positive r.fits (Divides-IsHeld a n bs p d) d.valid in
    record {
      valid = v.0;
      ranges = d.ranges.1;
      exact = λ x. ground (arith, d.exact x, covers-deallocate a n p x);
      counted = omega (arith, d.counted, d.valid.counted, v.1);
    }

-- The first `cs` of the blocks freed one by one.
pub Divides-release :
    (cs bs : List Block) (p : ProgramAllocator) → Divides (cs ++ bs) p → Divides bs (release cs p)
unfolding release
Divides-release [] bs p d = d
Divides-release ((a, n) ∷ cs) bs p d =
    Divides-release cs bs (deallocate a n p) (Divides-deallocate a n (cs ++ bs) p d)

-- A block that was just allocated joins the others.
pub Divides-allocate :
    (size a : ℕ) (bs : List Block) (p q : ProgramAllocator)
    → 0 < size
    → Fits size
    → allocate size p ≡ (some a, q)
    → Divides bs p
    → Divides ((a, size) ∷ bs) q
unfolding hits held
Divides-allocate size a bs p q pos fits e d =
    let (done, v) = subst (Outcome size p) e (allocate_lem size p pos fits d.valid) in
    record {
      valid = v;
      ranges = (
        record {
          positive = pos;
          fits = fits;
          start = done.start;
          end = done.end;
          page = done.page;
        },
        d.ranges,
      );
      exact = λ x. ground (arith, d.exact x, done.was_free x, done.change x);
      counted = omega (arith, d.counted, done.counter);
    }

pub Divides-failed :
    (size : ℕ) (bs : List Block) (p q : ProgramAllocator)
    → 0 < size
    → Fits size
    → allocate size p ≡ (none, q)
    → Divides bs p
    → q ≡ p
Divides-failed size bs p q pos fits e d =
    (subst (Outcome size p) e (allocate_lem size p pos fits d.valid)).0

-- The order of the blocks does not matter.
hits-Permᴰ : (bs cs : List Block) (x : ℕ) → Permᴰ bs cs → hits bs x ≡ hits cs x
unfolding hits
hits-Permᴰ _ _ x Permᴰ.nil = refl
hits-Permᴰ _ _ x (Permᴰ.cons {b = b} {l₁ = l} {l₂ = r} e p) =
    rw e (ap (λ k. bit (within b.0 (rounded b.1) x) + k) (hits-Permᴰ l r x p))
hits-Permᴰ _ _ x (Permᴰ.swap e f) = rw (e, f) (omega arith)
hits-Permᴰ bs cs x (Permᴰ.trans {l₂ = ds} p q) = hits-Permᴰ bs ds x p ∙ hits-Permᴰ ds cs x q

held-Permᴰ : (bs cs : List Block) → Permᴰ bs cs → held bs ≡ held cs
unfolding held
held-Permᴰ _ _ Permᴰ.nil = refl
held-Permᴰ _ _ (Permᴰ.cons {b = b} {l₁ = l} {l₂ = r} e p) =
    rw e (ap (λ k. rounded b.1 + k) (held-Permᴰ l r p))
held-Permᴰ _ _ (Permᴰ.swap e f) = rw (e, f) (omega arith)
held-Permᴰ bs cs (Permᴰ.trans {l₂ = ds} p q) = held-Permᴰ bs ds p ∙ held-Permᴰ ds cs q

ranges-Permᴰ : (bs cs : List Block) → Permᴰ bs cs → All IsRange bs → All IsRange cs
ranges-Permᴰ _ _ Permᴰ.nil h = tt
ranges-Permᴰ _ _ (Permᴰ.cons {b = b} {l₁ = l} {l₂ = r} e p) h =
    (subst IsRange e h.0, ranges-Permᴰ l r p h.1)
ranges-Permᴰ _ _ (Permᴰ.swap e f) h = (subst IsRange f h.1.0, (subst IsRange e h.0, h.1.1))
ranges-Permᴰ bs cs (Permᴰ.trans {l₂ = ds} p q) h = ranges-Permᴰ ds cs q (ranges-Permᴰ bs ds p h)

pub Divides-Permᴰ :
    (bs cs : List Block) (p : ProgramAllocator) → Permᴰ bs cs → Divides bs p → Divides cs p
Divides-Permᴰ bs cs p m d = record {
  valid = d.valid;
  ranges = ranges-Permᴰ bs cs m d.ranges;
  exact = λ x. omega (arith, hits-Permᴰ bs cs x m, d.exact x);
  counted = omega (arith, held-Permᴰ bs cs m, d.counted);
}
