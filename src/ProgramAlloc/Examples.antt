-- ===== src/ProgramAlloc/Examples.antt =====
-- The allocator of the program region on concrete requests.
use ralph_os.Base.{◌≤◌, ◌≡◌, refl, true, false, some, [], ◌∷◌, arith}
use ralph_os.FreeList.{block, total}
use ralph_os.ProgramAlloc.{
  ProgramAllocator, new, init, align_up, rounded, take_first, allocate, deallocate, in_region,
  find_allocation, find_free_region, on_alloc,
}
use ralph_os.ProgramAlloc.Valid.{
  IsValid, Fits, IsHeld, Outcome, init-IsValid, allocate_lem, deallocate-IsValid,
  deallocate-allocate,
}
use ralph_os.ProgramAlloc.Find.{Around, find_split}

abbrev booted : ProgramAllocator
booted = init new

-- After a request of 5000 bytes, which takes two pages.
abbrev used : ProgramAllocator
used = record {
  head = block 0x402000 0xBFE000 ∷ [];
  allocated = 8192;
  notices = on_alloc 0x400000 8192 ∷ [];
}

fits : Fits 5000
fits = omega arith

allocated : allocate 5000 booted ≡ (some 0x400000, used)
unfolding allocate take_first init new rounded align_up
allocated = refl

allocate_lem_example : Outcome 5000 booted (allocate 5000 booted)
allocate_lem_example = allocate_lem 5000 booted (omega arith) fits (init-IsValid new)

deallocate-allocate_example :
    IsHeld 0x400000 5000 used
    × ((deallocate 0x400000 5000 used).head ≡ booted.head)
    × ((deallocate 0x400000 5000 used).allocated ≡ booted.allocated)
deallocate-allocate_example =
    deallocate-allocate 5000 0x400000 booted used (omega arith) fits (init-IsValid new) allocated

used-IsValid : IsValid used
unfolding total
used-IsValid = omega arith

deallocate-IsValid_example :
    IsValid (deallocate 0x400000 5000 used) × (rounded 5000 ≤ used.allocated)
deallocate-IsValid_example =
    deallocate-IsValid 0x400000 5000 used (omega arith) fits deallocate-allocate_example.0
      used-IsValid

find_split_example :
    Around true used.head 0x400010 (find_free_region 0x400010 used)
    × Around false used.head 0x400010 (find_allocation 0x400010 used)
find_split_example = find_split used 0x400010 used-IsValid (unfold in_region in refl)
