-- ===== src/Elf.antt =====
-- src/elf.rs: the checks of the ELF header, the program headers, and loading. A file is the list
-- of its bytes; memory is a function from addresses to bytes.
pub mod Span
pub mod Load
mod Examples
use ralph_os.Base.{
  ℕ, zero, suc, ◌+◌, ◌-◌, ◌*◌, ◌/◌, ◌%◌, ◌^◌, min, max, Bool, true, false, not, ◌&&◌, ◌||◌, Option,
  none, some, List, [], ◌∷◌, ltb, leb, ◌==◌, if◌then◌else◌, length, get_or, take, drop,
}
use ralph_os.FreeList.{within}
use ralph_os.Net.Bytes.{byte_at}

-- `Result<T, ElfError>`
pub data ElfError : Type 0 where
  too_small invalid_magic not_64_bit not_little_endian not_executable not_x86_64
        invalid_program_header no_loadable_segments :
      ElfError

pub data Result (A : Type 0) : Type 0 where
  ok : A → Result A
  err : ElfError → Result A

-- Little-endian fields at an offset.
abbrev pub le16 : List ℕ → ℕ → ℕ
le16 d i = byte_at d i + byte_at d (i + 1) * 2 ^ 8

abbrev pub le32 : List ℕ → ℕ → ℕ
le32 d i = le16 d i + le16 d (i + 2) * 2 ^ 16

abbrev pub le64 : List ℕ → ℕ → ℕ
le64 d i = le32 d i + le32 d (i + 4) * 2 ^ 32

-- The fields of the header that the code reads.
pub record Elf64Header : Type 0 where
  pub e_type : ℕ
  pub e_machine : ℕ
  pub e_entry : ℕ
  pub e_phoff : ℕ
  pub e_phentsize : ℕ
  pub e_phnum : ℕ

pub record Elf64ProgramHeader : Type 0 where
  pub p_type : ℕ
  pub p_offset : ℕ
  pub p_vaddr : ℕ
  pub p_filesz : ℕ
  pub p_memsz : ℕ

pub record Elf : Type 0 where
  pub bytes : List ℕ
  pub header : Elf64Header

unfoldable pub header_at : List ℕ → Elf64Header
header_at d = record {
  e_type = le16 d 16;
  e_machine = le16 d 18;
  e_entry = le64 d 24;
  e_phoff = le64 d 32;
  e_phentsize = le16 d 54;
  e_phnum = le16 d 56;
}

unfoldable pub has_magic : List ℕ → Bool
has_magic d =
    ((byte_at d 0 == 0x7F) && (byte_at d 1 == 0x45))
    && ((byte_at d 2 == 0x4C) && (byte_at d 3 == 0x46))

unfoldable pub parse : List ℕ → Result Elf
unfolding header_at has_magic
parse d =
    if ltb (length d) 64
    then err too_small
    else if not (has_magic d)
    then err invalid_magic
    else if not (byte_at d 4 == 2)
    then err not_64_bit
    else if not (byte_at d 5 == 1)
    then err not_little_endian
    else if not ((header_at d).e_type == 2) && not ((header_at d).e_type == 3)
    then err not_executable
    else if not ((header_at d).e_machine == 62)
    then err not_x86_64
    else ok (record { bytes = d; header = header_at d })

unfoldable pub is_pie : Elf → Bool
is_pie elf = elf.header.e_type == 3

unfoldable pub program_header_at : List ℕ → ℕ → Elf64ProgramHeader
program_header_at d offset = record {
  p_type = le32 d offset;
  p_offset = le64 d (offset + 8);
  p_vaddr = le64 d (offset + 16);
  p_filesz = le64 d (offset + 32);
  p_memsz = le64 d (offset + 40);
}

-- `usize` sums wrap at 64 bits.
unfoldable pub program_header : Elf → ℕ → Result Elf64ProgramHeader
unfolding program_header_at
program_header elf index =
    let offset = (elf.header.e_phoff + index * elf.header.e_phentsize) % 2 ^ 64 in
    if leb elf.header.e_phnum index
    then err invalid_program_header
    else if ltb (length elf.bytes) ((offset + 56) % 2 ^ 64)
    then err invalid_program_header
    else ok (program_header_at elf.bytes offset)

-- The headers from `index` on, `n` of them, that are readable and of type PT_LOAD.
unfoldable pub keep_loadable :
    Result Elf64ProgramHeader → List Elf64ProgramHeader → List Elf64ProgramHeader
keep_loadable (err e) rest = rest
keep_loadable (ok ph) rest = if ph.p_type == 1 then ph ∷ rest else rest

unfoldable pub segments_from : Elf → ℕ → ℕ → List Elf64ProgramHeader
unfolding keep_loadable
segments_from elf index zero = []
segments_from elf index (suc n) =
    keep_loadable (program_header elf index) (segments_from elf (index + 1) n)

unfoldable pub loadable_segments : Elf → List Elf64ProgramHeader
unfolding segments_from
loadable_segments elf = segments_from elf 0 elf.header.e_phnum

-- The end of a segment; the sum is a `u64`.
abbrev pub segment_end : Elf64ProgramHeader → ℕ
segment_end ph = (ph.p_vaddr + ph.p_memsz) % 2 ^ 64

abbrev pub lower : Option ℕ → ℕ → ℕ
lower none start = start
lower (some low) start = if ltb start low then start else low

-- The loop of `memory_requirements`.
unfoldable pub span : Option ℕ → ℕ → List Elf64ProgramHeader → Option (ℕ × ℕ)
span none highest [] = none
span (some low) highest [] = some (low, highest)
span lowest highest (ph ∷ rest) =
    span (some (lower lowest ph.p_vaddr))
      (if ltb highest (segment_end ph) then segment_end ph else highest) rest

unfoldable pub requirements : Option (ℕ × ℕ) → Result (ℕ × ℕ)
requirements none = err no_loadable_segments
requirements (some (low, highest)) = ok (low, (highest + 2 ^ 64 - low) % 2 ^ 64)

unfoldable pub memory_requirements : Elf → Result (ℕ × ℕ)
unfolding span requirements loadable_segments
memory_requirements elf = requirements (span none 0 (loadable_segments elf))

infixl 1 ◌>>=◌
abbrev pub ◌>>=◌ {ℓ κ} : {A : Type ℓ} {B : Type κ} → Option A → (A → Option B) → Option B
none >>= k = none
some a >>= k = k a

-- `none` is the panic of a slice that ends before it starts, where the sum wraps.
unfoldable pub segment_data : Elf → Elf64ProgramHeader → Option (List ℕ)
segment_data elf ph =
    let end = (ph.p_offset + ph.p_filesz) % 2 ^ 64 in
    if leb end (length elf.bytes)
    then (if ltb end ph.p_offset
        then none
        else some (take ph.p_filesz (drop ph.p_offset elf.bytes)))
    else some []

abbrev pub Image : Type 0
Image = ℕ → ℕ

-- `copy_nonoverlapping` and `write_bytes`.
abbrev pub copy_to : ℕ → List ℕ → Image → Image
copy_to dest d image = λ x. if within dest (length d) x then byte_at d (x - dest) else image x

abbrev pub zero_at : ℕ → ℕ → Image → Image
zero_at dest n image = λ x. if within dest n x then 0 else image x

-- The memory after one segment, of which these are the bytes.
unfoldable pub place_segment : (base low : ℕ) → Elf64ProgramHeader → List ℕ → Image → Image
place_segment base low ph d image =
    let dest = (base + (ph.p_vaddr + 2 ^ 64 - low) % 2 ^ 64) % 2 ^ 64 in
    let bss_size = (ph.p_memsz + 2 ^ 64 - ph.p_filesz) % 2 ^ 64 in
    zero_at ((dest + ph.p_filesz) % 2 ^ 64) bss_size (copy_to dest d image)

-- From here on `none` is the panic of `segment_data`.
unfoldable pub load_segment : Elf → (base low : ℕ) → Elf64ProgramHeader → Image → Option Image
unfolding segment_data place_segment
load_segment elf base low ph image = do
  d ← segment_data elf ph
  some (place_segment base low ph d image)

unfoldable pub load_segments : Elf → (base low : ℕ) → List Elf64ProgramHeader → Image → Option Image
unfolding load_segment
load_segments elf base low [] image = some image
load_segments elf base low (ph ∷ rest) image = do
  image' ← load_segment elf base low ph image
  load_segments elf base low rest image'

unfoldable pub entry_point : Elf → (base low : ℕ) → ℕ
entry_point elf base low = (base + (elf.header.e_entry + 2 ^ 64 - low) % 2 ^ 64) % 2 ^ 64

unfoldable pub load_required : Elf → ℕ → Result (ℕ × ℕ) → Image → Option (Result ℕ × Image)
unfolding entry_point load_segments
load_required elf base (err e) image = some (err e, image)
load_required elf base (ok (low, size)) image = do
  image' ← load_segments elf base low (loadable_segments elf) image
  some (ok (entry_point elf base low), image')

unfoldable pub load_parsed : Result Elf → ℕ → Image → Option (Result ℕ × Image)
unfolding load_required memory_requirements
load_parsed (err e) base image = some (err e, image)
load_parsed (ok elf) base image = load_required elf base (memory_requirements elf) image

unfoldable pub load_elf : List ℕ → ℕ → Image → Option (Result ℕ × Image)
unfolding load_parsed parse
load_elf d base image = load_parsed (parse d) base image
