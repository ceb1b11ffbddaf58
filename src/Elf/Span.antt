-- ===== src/Elf/Span.antt =====
-- `memory_requirements` spans every loadable segment.
use ralph_os.Base.{
  ℕ, ◌+◌, ◌^◌, ◌≤◌, ◌<◌, ◌≡◌, none, some, List, [], ◌∷◌, arith, ltb, All, if◌then◌else◌,
}
use ralph_os.Elf.{Elf64ProgramHeader, segment_end, lower, span}

-- A segment that lies in memory: it ends below 2 ^ 64, in memory and in the file, and holds its
-- bytes of the file.
pub record IsSound (ph : Elf64ProgramHeader) : Type 0 where
  pub end : ph.p_vaddr + ph.p_memsz < 2 ^ 64
  pub file : ph.p_filesz ≤ ph.p_memsz
  pub offset : ph.p_offset + ph.p_filesz < 2 ^ 64

pub record Spans (low high : ℕ) (ph : Elf64ProgramHeader) : Type 0 where
  pub above : low ≤ ph.p_vaddr
  pub below : ph.p_vaddr + ph.p_memsz ≤ high

Spans-weaken :
    (low high low' high' : ℕ) (l : List Elf64ProgramHeader)
    → low' ≤ low
    → high ≤ high'
    → All (Spans low high) l
    → All (Spans low' high') l
Spans-weaken low high low' high' [] p q h = tt
Spans-weaken low high low' high' (ph ∷ rest) p q h = (
  record { above = omega (arith, h.0.above); below = omega (arith, h.0.below) },
  Spans-weaken low high low' high' rest p q h.1,
)

-- The result bounds the segments seen, and the accumulators.
span-Spans :
    (start highest low high : ℕ) (l : List Elf64ProgramHeader)
    → highest < 2 ^ 64
    → All IsSound l
    → span (some start) highest l ≡ some (low, high)
    → (low ≤ start) × (highest ≤ high) × (high < 2 ^ 64) × All (Spans low high) l
unfolding span
span-Spans start highest low high [] h s e = (ground arith, ground arith, ground arith, tt)
span-Spans start highest low high (ph ∷ rest) h s e =
    let r =
      span-Spans (lower (some start) ph.p_vaddr)
        (if ltb highest (segment_end ph) then segment_end ph else highest) low high rest
        (ground (arith, h)) s.1 e in
    (
      ground (arith, r.0),
      ground (arith, r.1),
      r.2,
      (record { above = ground (arith, r.0); below = ground (arith, r.1, s.0) }, r.3),
    )

-- The two numbers that the loop ends with bound every segment that lies in memory.
pub span_lem :
    (low high : ℕ) (l : List Elf64ProgramHeader)
    → All IsSound l
    → span none 0 l ≡ some (low, high)
    → All (Spans low high) l × (low ≤ high) × (high < 2 ^ 64)
unfolding span
span_lem low high [] s e = absurd (ground arith)
span_lem low high (ph ∷ rest) s e =
    let r =
      span-Spans ph.p_vaddr (if ltb 0 (segment_end ph) then segment_end ph else 0) low high rest
        (ground arith) s.1 e in
    let here : Spans low high ph = record { above = r.0; below = ground (arith, r.1, s.0) } in
    ((here, r.3), omega (arith, here.above, here.below), r.2)
