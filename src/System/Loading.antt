-- ===== src/System/Loading.antt =====
-- What `load` of src/executable.rs does to the memory of the programs.
use ralph_os.Base.{
  ℕ, ◌≡◌, inl, inr, refl, Option, none, some, List, arith, Bool-cases, Option-cases,
}
use ralph_os.ProgramAlloc.{ProgramAllocator, allocate}
use ralph_os.Elf.{Elf, Result, ok, err, Image, parse, memory_requirements, load_elf}
use ralph_os.Executable.Loader.{
  Kernel, LoadedProgram, Outcome, good, bad, find_executable, load, load_found, load_parsed,
  load_required, load_at, load_copied, slice,
}

-- What a successful load did to the memory.
pub record Loaded (k : Kernel) (program : LoadedProgram) (k' : Kernel) : Type 0 where
  pub memory :
      allocate program.size k.memory.allocator ≡ (some program.base_addr, k'.memory.allocator)
  pub entries : k'.memory.task_allocations ≡ k.memory.task_allocations
  pub on : k'.memory.initialized ≡ k.memory.initialized

load_copied-Loaded :
    (name : List ℕ) (base size : ℕ) (k : Kernel) (p : ProgramAllocator) (r : Result ℕ × Image)
    (program : LoadedProgram) (k' : Kernel)
    → allocate size k.memory.allocator ≡ (some base, p)
    → load_copied name base size k p r ≡ (good program, k')
    → Loaded k program k'
unfolding load_copied
load_copied-Loaded name base size k p (err e, image) program k' a f = absurd (ground arith)
load_copied-Loaded name base size k p (ok entry, image) program k' a f =
    let size_is : size ≡ program.size = ground arith in
    let base_is : base ≡ program.base_addr = ground arith in
    let memory_is : record k.memory { allocator = p } ≡ k'.memory = ground arith in
    record {
      memory = rw (← size_is, a, ← base_is, ← memory_is) refl;
      entries = rw (← memory_is) refl;
      on = rw (← memory_is) refl;
    }

load_at-Loaded :
    (name d : List ℕ) (size : ℕ) (k : Kernel) (r : Option ℕ × ProgramAllocator)
    (program : LoadedProgram) (k' : Kernel)
    → allocate size k.memory.allocator ≡ r
    → load_at name d size k r ≡ some (good program, k')
    → Loaded k program k'
unfolding load_at
load_at-Loaded name d size k (none, p) program k' e f = absurd (ground arith)
load_at-Loaded name d size k (some base, p) program k' e f =
    elim (Option-cases (load_elf d base k.image)) [
      | inl stopped ↦ absurd (ground (arith, stopped))
      | inr (r, copied) ↦
          load_copied-Loaded name base size k p r program k' e (ground (arith, copied))
    ]

load_required-Loaded :
    (name d : List ℕ) (r : Result (ℕ × ℕ)) (k : Kernel) (program : LoadedProgram) (k' : Kernel)
    → load_required name d r k ≡ some (good program, k')
    → Loaded k program k'
unfolding load_required
load_required-Loaded name d (err e) k program k' f = absurd (ground arith)
load_required-Loaded name d (ok (low, size)) k program k' f =
    load_at-Loaded name d size k (allocate size k.memory.allocator) program k' refl f

load_parsed-Loaded :
    (name d : List ℕ) (r : Result Elf) (k : Kernel) (program : LoadedProgram) (k' : Kernel)
    → load_parsed name d r k ≡ some (good program, k')
    → Loaded k program k'
unfolding load_parsed
load_parsed-Loaded name d (err e) k program k' f = absurd (ground arith)
load_parsed-Loaded name d (ok elf) k program k' f =
    load_required-Loaded name d (memory_requirements elf) k program k' f

load_found-Loaded :
    (name : List ℕ) (r : Outcome (ℕ × ℕ)) (k : Kernel) (program : LoadedProgram) (k' : Kernel)
    → load_found name r k ≡ some (good program, k')
    → Loaded k program k'
unfolding load_found
load_found-Loaded name (bad e) k program k' f = absurd (ground arith)
load_found-Loaded name (good (addr, size)) k program k' f =
    load_parsed-Loaded name (slice k.image addr size) (parse (slice k.image addr size)) k program k'
      f

pub load-Loaded :
    (name : List ℕ) (k : Kernel) (program : LoadedProgram) (k' : Kernel)
    → load name k ≡ some (good program, k')
    → Loaded k program k'
unfolding load
load-Loaded name k program k' f = elim (Bool-cases k.memory.initialized) [
  | inl on ↦ load_found-Loaded name (find_executable name k) k program k' (ground (arith, on))
  | inr off ↦ absurd (ground (arith, off))
]
