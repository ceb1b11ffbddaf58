-- ===== src/Executable/Loader.antt =====
-- The table of embedded files in src/executable.rs, and `load`. Names are bytes; the source's
-- strings are the same where the names in the table are UTF-8.
use ralph_os.Base.{
  ℕ, zero, suc, ◌+◌, ◌*◌, ◌^◌, Bool, true, false, not, ◌&&◌, ◌||◌, Option, none, some, List, [],
  ◌∷◌, leb, ◌==◌, if◌then◌else◌,
}
use ralph_os.ProgramAlloc
use ralph_os.ProgramAlloc.{ProgramAllocator, allocate}
use ralph_os.Elf.{
  Elf, ElfError, Result, ok, err, Image, ◌>>=◌, parse, memory_requirements, load_elf,
}
use ralph_os.Executable.{Memory}

pub data ExecError : Type 0 where
  not_initialized no_table_found not_found allocation_failed invalid_table : ExecError
  elf_error : ElfError → ExecError

-- `Result<T, ExecError>`
pub data Outcome (A : Type 0) : Type 0 where
  good : A → Outcome A
  bad : ExecError → Outcome A

-- The registry with the table that it knows, and the memory's bytes.
pub record Kernel : Type 0 where
  pub memory : Memory
  pub table_addr : ℕ
  pub exec_count : ℕ
  pub image : Image

abbrev pub read32 : Image → ℕ → ℕ
read32 image a = image a + image (a + 1) * 2 ^ 8 + image (a + 2) * 2 ^ 16 + image (a + 3) * 2 ^ 24

unfoldable pub slice : Image → (addr size : ℕ) → List ℕ
slice image addr zero = []
slice image addr (suc size) = image addr ∷ slice image (addr + 1) size

unfoldable pub bytes_eq : List ℕ → List ℕ → Bool
bytes_eq [] [] = true
bytes_eq [] (y ∷ ys) = false
bytes_eq (x ∷ xs) [] = false
bytes_eq (x ∷ xs) (y ∷ ys) = (x == y) && bytes_eq xs ys

-- "REXE"
unfoldable pub is_magic : Image → ℕ → Bool
unfolding bytes_eq slice
is_magic image a = bytes_eq (slice image a 4) (0x52 ∷ 0x45 ∷ 0x58 ∷ 0x45 ∷ [])

-- Entries of 32 bytes follow the header of 16.
abbrev pub entry_at : (table_addr i : ℕ) → ℕ
entry_at table_addr i = table_addr + 16 + 32 * i

abbrev pub entry_offset : Image → ℕ → ℕ
entry_offset image entry = read32 image (entry + 16)

abbrev pub entry_size : Image → ℕ → ℕ
entry_size image entry = read32 image (entry + 20)

unfoldable pub valid_entries : Image → (addr i n : ℕ) → Bool
valid_entries image addr i zero = true
valid_entries image addr i (suc n) =
    not ((entry_offset image (entry_at addr i) == 0) || (entry_size image (entry_at addr i) == 0))
    && valid_entries image addr (i + 1) n

unfoldable pub validate_table : Image → ℕ → Bool
unfolding is_magic valid_entries
validate_table image addr =
    let count = read32 image (addr + 8) in
    is_magic image addr
    && ((read32 image (addr + 4) == 1) && (leb count 15 && valid_entries image addr 0 count))

-- The search of `init`, in steps of 4 bytes, `n` of them left.
unfoldable pub search_table : Image → (addr n : ℕ) → Option ℕ
unfolding validate_table is_magic
search_table image addr zero = none
search_table image addr (suc n) =
    let later = search_table image (addr + 4) n in
    if is_magic image addr && validate_table image addr then some addr else later

unfoldable pub init : Kernel → ℕ × Kernel
unfolding search_table
init k = elim (search_table k.image 0x100000 0x3FFFF) [
  | some addr ↦ (
    read32 k.image (addr + 8),
    record k {
      memory = record k.memory {
        initialized = true;
        allocator = ProgramAlloc.init k.memory.allocator;
      };
      table_addr = addr;
      exec_count = read32 k.image (addr + 8);
    },
  )
  | none ↦ (
    0,
    record k {
      memory = record k.memory {
        initialized = true;
        allocator = ProgramAlloc.init k.memory.allocator;
      };
      table_addr = 0;
      exec_count = 0;
    },
  )
]

-- The bytes of a name up to its first zero.
unfoldable pub until_zero : List ℕ → List ℕ
until_zero [] = []
until_zero (b ∷ bs) = if b == 0 then [] else b ∷ until_zero bs

unfoldable pub entry_name : Image → ℕ → List ℕ
unfolding until_zero slice
entry_name image entry = until_zero (slice image entry 16)

unfoldable pub find_entry : List ℕ → Image → (addr i n : ℕ) → Option ℕ
unfolding entry_name bytes_eq
find_entry name image addr i zero = none
find_entry name image addr i (suc n) =
    let later = find_entry name image addr (i + 1) n in
    if bytes_eq (entry_name image (entry_at addr i)) name then some (entry_at addr i) else later

-- The address and size of a file.
unfoldable pub find_executable : List ℕ → Kernel → Outcome (ℕ × ℕ)
unfolding find_entry
find_executable name k =
    let found = find_entry name k.image k.table_addr 0 k.exec_count in
    if k.table_addr == 0 then bad no_table_found else elim found [
      | none ↦ bad not_found
      | some entry ↦ good (k.table_addr + entry_offset k.image entry, entry_size k.image entry)
    ]

unfoldable pub read : List ℕ → Kernel → Outcome (List ℕ)
unfolding find_executable slice
read name k =
    if not k.memory.initialized then bad not_initialized else elim (find_executable name k) [
      | bad e ↦ bad e
      | good (addr, size) ↦ good (slice k.image addr size)
    ]

pub record LoadedProgram : Type 0 where
  pub name : List ℕ
  pub base_addr : ℕ
  pub size : ℕ
  pub entry : ℕ

-- `load` from its allocation on, and from the copy on. `none` is the panic of `load_elf`.
unfoldable pub load_copied :
    List ℕ
    → (base size : ℕ) → Kernel
    → ProgramAllocator
    → Result ℕ × Image
    → Outcome LoadedProgram × Kernel
load_copied name base size k p (err e, image) =
    (bad (elf_error e), record k { memory = record k.memory { allocator = p }; image = image })
load_copied name base size k p (ok entry, image) = (
  good (record { name = name; base_addr = base; size = size; entry = entry }),
  record k { memory = record k.memory { allocator = p }; image = image },
)

unfoldable pub load_at :
    List ℕ
    → List ℕ
    → (size : ℕ) → Kernel
    → Option ℕ × ProgramAllocator
    → Option (Outcome LoadedProgram × Kernel)
unfolding load_copied
load_at name d size k (none, p) =
    some (bad allocation_failed, record k { memory = record k.memory { allocator = p } })
load_at name d size k (some base, p) = do
  r ← load_elf d base k.image
  some (load_copied name base size k p r)

unfoldable pub load_required :
    List ℕ → List ℕ → Result (ℕ × ℕ) → Kernel → Option (Outcome LoadedProgram × Kernel)
unfolding load_at
load_required name d (err e) k = some (bad (elf_error e), k)
load_required name d (ok (low, size)) k = load_at name d size k (allocate size k.memory.allocator)

unfoldable pub load_parsed :
    List ℕ → List ℕ → Result Elf → Kernel → Option (Outcome LoadedProgram × Kernel)
unfolding load_required
load_parsed name d (err e) k = some (bad (elf_error e), k)
load_parsed name d (ok elf) k = load_required name d (memory_requirements elf) k

unfoldable pub load_found :
    List ℕ → Outcome (ℕ × ℕ) → Kernel → Option (Outcome LoadedProgram × Kernel)
unfolding load_parsed slice
load_found name (bad e) k = some (bad e, k)
load_found name (good (addr, size)) k =
    load_parsed name (slice k.image addr size) (parse (slice k.image addr size)) k

unfoldable pub load : List ℕ → Kernel → Option (Outcome LoadedProgram × Kernel)
unfolding load_found find_executable
load name k =
    if k.memory.initialized
    then load_found name (find_executable name k) k
    else some (bad not_initialized, k)

-- The names in the table.
unfoldable pub names_from : Image → (addr i n : ℕ) → List (List ℕ)
unfolding entry_name
names_from image addr i zero = []
names_from image addr i (suc n) =
    entry_name image (entry_at addr i) ∷ names_from image addr (i + 1) n

unfoldable pub list : Kernel → List (List ℕ)
unfolding names_from
list k =
    if not k.memory.initialized || (k.table_addr == 0)
    then []
    else names_from k.image k.table_addr 0 k.exec_count
