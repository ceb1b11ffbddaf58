-- ===== src/Elf/Examples.antt =====
-- A small position-independent file: one segment of 4 bytes that takes 16 bytes in memory.
use ralph_os.Base.{ℕ, ◌≡◌, refl, List, [], ◌∷◌}
use ralph_os.Elf.{
  Elf, loadable_segments, segments_from, program_header, program_header_at, keep_loadable,
}

abbrev file : List ℕ
file =
    127 ∷ 69 ∷ 76 ∷ 70 ∷ 2 ∷ 1 ∷ 1 ∷ 0 ∷ 0 ∷ 0 ∷ 0 ∷ 0 ∷ 0 ∷ 0 ∷ 0 ∷ 0 ∷ 3 ∷ 0 ∷ 62 ∷ 0 ∷ 1 ∷ 0 ∷ 0
    ∷ 0 ∷ 2 ∷ 0 ∷ 0 ∷ 0 ∷ 0 ∷ 0 ∷ 0 ∷ 0 ∷ 64 ∷ 0 ∷ 0 ∷ 0 ∷ 0 ∷ 0 ∷ 0 ∷ 0 ∷ 0 ∷ 0 ∷ 0 ∷ 0 ∷ 0 ∷ 0 ∷ 0
    ∷ 0 ∷ 0 ∷ 0 ∷ 0 ∷ 0 ∷ 64 ∷ 0 ∷ 56 ∷ 0 ∷ 1 ∷ 0 ∷ 0 ∷ 0 ∷ 0 ∷ 0 ∷ 0 ∷ 0 ∷ 1 ∷ 0 ∷ 0 ∷ 0 ∷ 5 ∷ 0
    ∷ 0 ∷ 0 ∷ 120 ∷ 0 ∷ 0 ∷ 0 ∷ 0 ∷ 0 ∷ 0 ∷ 0 ∷ 0 ∷ 0 ∷ 0 ∷ 0 ∷ 0 ∷ 0 ∷ 0 ∷ 0 ∷ 0 ∷ 0 ∷ 0 ∷ 0 ∷ 0
    ∷ 0 ∷ 0 ∷ 0 ∷ 4 ∷ 0 ∷ 0 ∷ 0 ∷ 0 ∷ 0 ∷ 0 ∷ 0 ∷ 16 ∷ 0 ∷ 0 ∷ 0 ∷ 0 ∷ 0 ∷ 0 ∷ 0 ∷ 0 ∷ 16 ∷ 0 ∷ 0
    ∷ 0 ∷ 0 ∷ 0 ∷ 0 ∷ 144 ∷ 195 ∷ 1 ∷ 2 ∷ []

abbrev parsed : Elf
parsed = record {
  bytes = file;
  header = record {
    e_type = 3;
    e_machine = 62;
    e_entry = 2;
    e_phoff = 64;
    e_phentsize = 56;
    e_phnum = 1;
  };
}

segments_test :
    loadable_segments parsed
    ≡ record { p_type = 1; p_offset = 120; p_vaddr = 0; p_filesz = 4; p_memsz = 16 } ∷ []
unfolding loadable_segments segments_from program_header program_header_at keep_loadable
segments_test = refl
