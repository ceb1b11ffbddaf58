-- ===== src/Elf/Load.antt =====
-- Loading writes nothing outside the memory that was asked for.
use ralph_os.Elf.{Elf}
