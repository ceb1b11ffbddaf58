-- ===== src/Heap/Examples.antt =====
-- A heap of 1024 bytes, tests and concrete runs.
use ralph_os.Base.{◌≡◌, refl, none, some, List, [], ◌∷◌, ◌==◌, if◌then◌else◌, arith}
use ralph_os.FreeList.{block}
use ralph_os.Heap.{
  AllocationHeader, LinkedListAllocator, total_size, allocate, deallocate, find_allocation,
  find_allocation_owner, get_heap_stats, get_task_heap_allocations,
}
use ralph_os.Heap.Tiles.{Tile, free_tile, used_tile, Implements, place, vacate, coalesce}
use ralph_os.Heap.Refine.{Placed, allocate-Placed}
use ralph_os.Heap.Freeing.{Freed, deallocate-Freed}
use ralph_os.Heap.Majority.{find_majority_owner}
use ralph_os.Heap.Query.{Answers, queries-Answers}

abbrev bare : LinkedListAllocator
bare = record {
  head = block 4096 1024 ∷ [];
  heap_start = 4096;
  heap_end = 5120;
  headers = λ a. none;
  notices = [];
}

abbrev by_seven : AllocationHeader
by_seven = record { task_id = 7; block_size = 40 }

abbrev in_use : LinkedListAllocator
in_use = record {
  head = block 4136 984 ∷ [];
  heap_start = 4096;
  heap_end = 5120;
  headers = λ a. if a == 4096 then some by_seven else none;
  notices = [];
}

abbrev tiles_in_use : List Tile
tiles_in_use = used_tile by_seven ∷ free_tile 984 ∷ []

bare-Implements : Implements bare (free_tile 1024 ∷ [])
bare-Implements = record { head = refl; end = refl; laid = ((omega arith, refl), tt) }

in_use-Implements : Implements in_use tiles_in_use
in_use-Implements = record {
  head = refl;
  end = refl;
  laid = ((omega arith, refl), refl, ((omega arith, refl), tt));
}

allocate-Placed_example :
    Placed bare (place 7 (total_size 24) 4096 (free_tile 1024 ∷ [])) (allocate 7 24 bare)
allocate-Placed_example =
    allocate-Placed 7 24 bare (free_tile 1024 ∷ []) (omega arith) (omega arith) refl bare-Implements

deallocate-Freed_example : Freed (deallocate 4112 in_use) (coalesce (vacate 4096 4096 tiles_in_use))
deallocate-Freed_example =
    deallocate-Freed 4096 by_seven in_use tiles_in_use (omega arith) refl in_use-Implements

queries-Answers_example : Answers 4120 in_use tiles_in_use
queries-Answers_example = queries-Answers 4120 in_use tiles_in_use (omega arith) in_use-Implements

-- The walk finds the allocation that the address 4120 is inside of, and its task.
find_allocation_test :
    (find_allocation 4120 in_use ≡ some (4096, 4136))
    × (find_allocation_owner 4120 in_use ≡ some (some 7))
unfolding find_allocation find_allocation_owner
find_allocation_test = (refl, refl)

get_heap_stats_test : get_heap_stats in_use ≡ (40, 984)
unfolding get_heap_stats
get_heap_stats_test = refl

get_task_heap_allocations_test : get_task_heap_allocations (some 7) in_use ≡ (4096, 40) ∷ []
unfolding get_task_heap_allocations
get_task_heap_allocations_test = refl

find_majority_owner_test : find_majority_owner 4100 4200 in_use ≡ some (some 7, 36)
unfolding find_majority_owner
find_majority_owner_test = refl
