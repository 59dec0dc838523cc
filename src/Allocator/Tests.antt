-- ===== src/Allocator/Tests.antt =====
-- Runs of src/MemoryAllocator.cpp on a heap of 64 blocks at address 64.
use os1_project.Prelude.{
  true, ◌≢◌, false, ◌+◌, ◌≤◌, ◌≡◌, ◌⊎◌, inr, refl, some, [], ◌∷◌, arith, All, ◌*◌, ◌<◌, ◌^◌,
}
use os1_project.Prelude.Int.{pos}
use os1_project.Allocator.{
  Ptr, MemoryAllocator, HeapBounds, Cells, init_free_mem, write, mem_alloc, size_of_mem_elem,
  bytes_in_blocks, mem_block_size,
}
use os1_project.Allocator.Blocks.{Block, block, Apart}
use os1_project.Allocator.Seg.{elem}
use os1_project.Allocator.Spec.{Store, IsValid, Fit, first_fit, allocated, below, from}
use os1_project.Allocator.Represents.{Represents}
use os1_project.Allocator.FirstFit.{store, Allocation, mem_alloc-Allocation}
use os1_project.Allocator.History.{Client, set_live, allocate, Reach, start, later, IsOwned, IsHeap}
use os1_project.Allocator.History.Steps.{Reach-IsOwned, Reach-mem_alloc, Reach-mem_free}
use os1_project.Allocator.Sound.{IsSound, mem_free-IsSound}
use os1_project.Allocator.Promises.{
  mem_free-mem_alloc, mem_alloc_fresh, mem_alloc_bytes, bytes_in_blocks_lem,
}
use os1_project.Allocator.Release.{mem_free}
use os1_project.Allocator.Release.Coalesce.{coalesce, glue, glue_last}
use os1_project.Allocator.Release.Refines.{mem_free-coalesce}
use os1_project.Allocator.Release.Bytes.{total}

abbrev pub heap : HeapBounds
heap = record { heap_start_addr = 64; heap_end_addr = 4160 }

abbrev nothing : Cells
nothing p = elem 0 0 0

-- The initialised heap: one free block.
abbrev pub whole : Block
whole = block 64 4096

abbrev pub whole_heap : Store
whole_heap = store (whole ∷ []) []

abbrev pub fresh : MemoryAllocator
fresh = record { cells = write nothing 64 (elem 0 0 4096); free_head = 64; full_head = 0 }

init_free_mem-fresh :
    init_free_mem heap (record { cells = nothing; free_head = 0; full_head = 0 }) ≡ fresh
unfolding init_free_mem
init_free_mem-fresh = refl

pub fresh-Represents : Represents fresh whole_heap
unfolding write
fresh-Represents = record {
  free_first = refl;
  full_first = refl;
  free_linked = (refl, tt);
  full_linked = tt;
}

pub whole_heap-IsValid : IsValid 64 4160 whole_heap
whole_heap-IsValid = record {
  positive = omega arith;
  free_ordered = (omega arith, omega arith, omega arith);
  full_ordered = omega arith;
  apart = (tt, tt);
}

abbrev pub whole_fit : Fit
whole_fit = record { before = []; found = whole; after = [] }

pub whole_fit_found : first_fit 2 (whole ∷ []) ≡ some whole_fit
unfolding first_fit
whole_fit_found = refl

-- One block behind a header is taken; the rest of the heap is free.
abbrev pub first_taken : MemoryAllocator
first_taken = record {
  cells = write (write nothing 64 (elem 0 0 128)) 192 (elem 0 0 3968);
  free_head = 192;
  full_head = 64;
}

pub first_taken-Represents :
    Represents first_taken (store (block 192 3968 ∷ []) (block 64 128 ∷ []))
unfolding write
first_taken-Represents = record {
  free_first = refl;
  full_first = refl;
  free_linked = (refl, tt);
  full_linked = (refl, tt);
}

pub first_taken-IsValid : IsValid 64 4160 (store (block 192 3968 ∷ []) (block 64 128 ∷ []))
first_taken-IsValid = record {
  positive = omega arith;
  free_ordered = (omega arith, omega arith, omega arith);
  full_ordered = (omega arith, omega arith, omega arith);
  apart = ((inr (omega arith), tt), tt);
}

mem_alloc-Allocation_example :
    Allocation 64 4160 2 whole_heap fresh (mem_alloc heap fresh 1) (first_fit 2 (whole ∷ []))
mem_alloc-Allocation_example =
    mem_alloc-Allocation heap fresh whole_heap 1 whole_heap-IsValid fresh-Represents (omega arith)
      (omega arith) (omega arith)

-- Freeing the block joins it with the rest of the heap.
coalesce_whole : coalesce (block 64 128) (block 192 3968 ∷ []) ≡ whole ∷ []
unfolding glue_last below glue from
coalesce_whole = refl

mem_free-coalesce_example :
    (b : MemoryAllocator) × (mem_free heap first_taken 88 ≡ some (b, pos 0))
    × Represents b (store (coalesce (block 64 128) (block 192 3968 ∷ [])) [])
    × IsValid 64 4160 (store (coalesce (block 64 128) (block 192 3968 ∷ [])) [])
mem_free-coalesce_example =
    mem_free-coalesce heap first_taken [] (block 64 128) [] (block 192 3968 ∷ []) (omega arith)
      first_taken-IsValid first_taken-Represents

mem_free-mem_alloc_example :
    (b d : MemoryAllocator) × (mem_alloc heap fresh 1 ≡ some (b, 88))
    × (mem_free heap b 88 ≡ some (d, pos 0))
    × Represents d whole_heap
mem_free-mem_alloc_example =
    mem_free-mem_alloc heap fresh whole_heap 1 whole_fit (omega arith) whole_heap-IsValid
      fresh-Represents (omega arith) (omega arith) (omega arith) tt whole_fit_found
      (inr (omega arith))

mem_alloc_fresh_example :
    (b : MemoryAllocator) × (mem_alloc heap first_taken 1 ≡ some (b, 216))
    × Represents b (
        allocated 2
          (store (block 192 3968 ∷ []) (block 64 128 ∷ []))
          (record { before = []; found = block 192 3968; after = [] }))
    × (216 + 1 * mem_block_size ≤ 320)
    × (64 ≤ 192)
    × (320 ≤ 4160)
    × All (Apart (block 192 128)) (block 64 128 ∷ [])
mem_alloc_fresh_example =
    mem_alloc_fresh heap first_taken (store (block 192 3968 ∷ []) (block 64 128 ∷ [])) 1
      (record { before = []; found = block 192 3968; after = [] }) first_taken-IsValid
      first_taken-Represents (omega arith) (omega arith) (omega arith) (unfold first_fit in refl)

mem_alloc_bytes_example :
    (b : MemoryAllocator) × (t : Store) × (mem_alloc heap fresh 1 ≡ some (b, 88))
    × Represents b t
    × (total t.free + total t.full ≤ total (whole ∷ []) + total [])
    × (total (whole ∷ []) + total [] < total t.free + total t.full + size_of_mem_elem)
mem_alloc_bytes_example =
    mem_alloc_bytes heap fresh whole_heap 1 whole_fit whole_heap-IsValid fresh-Represents
      (omega arith) (omega arith) (omega arith) whole_fit_found

bytes_in_blocks_lem_example :
    ((65 ≤ bytes_in_blocks 65 * mem_block_size) × (bytes_in_blocks 65 * mem_block_size < 65 + 64))
    ⊎ ((2 ^ 64 < 65 + mem_block_size) × (bytes_in_blocks 65 ≡ 0))
bytes_in_blocks_lem_example = bytes_in_blocks_lem 65 (omega arith)

mem_free-IsSound_example :
    (b : MemoryAllocator) × (mem_free heap first_taken 88 ≡ some (b, pos 0))
    × IsSound heap b (store (coalesce (block 64 128) (block 192 3968 ∷ [])) [])
mem_free-IsSound_example =
    mem_free-IsSound heap first_taken [] (block 64 128) [] (block 192 3968 ∷ []) (omega arith)
      (record { valid = first_taken-IsValid; represents = first_taken-Represents; separated = tt })

abbrev zeroed : MemoryAllocator
zeroed = record { cells = nothing; free_head = 0; full_head = 0 }

pub first_grant :
    (b : MemoryAllocator) × (t : Store) × (mem_alloc heap fresh 1 ≡ some (b, 88))
    × Represents b t
    × (total t.free + total t.full ≤ total (whole ∷ []) + total [])
    × (total (whole ∷ []) + total [] < total t.free + total t.full + size_of_mem_elem)
first_grant =
    mem_alloc_bytes heap fresh whole_heap 1 whole_fit whole_heap-IsValid fresh-Represents
      (omega arith) (omega arith) (omega arith) whole_fit_found

-- The client behind one request.
abbrev pub one_block : Client
one_block = record { allocator = first_grant.0; live = set_live (λ p. false) 88 true }

pub one_block-Reach : Reach heap one_block
unfolding init_free_mem
one_block-Reach = later (start zeroed refl) (allocate 1 88 first_grant.2 (omega arith))

pub heap-IsHeap : IsHeap heap
heap-IsHeap = record { positive = omega arith; roomy = omega arith; wide = omega arith }

Reach-IsOwned_example : IsOwned heap one_block
Reach-IsOwned_example = Reach-IsOwned heap one_block heap-IsHeap one_block-Reach

Reach-mem_alloc_example :
    (mem_alloc heap one_block.allocator 2 ≡ some (one_block.allocator, 0))
    ⊎ ((b : MemoryAllocator) × (p : Ptr) × (mem_alloc heap one_block.allocator 2 ≡ some (b, p))
        × (p ≢ 0)
        × (one_block.live p ≡ false))
Reach-mem_alloc_example = Reach-mem_alloc heap one_block 2 heap-IsHeap one_block-Reach

Reach-mem_free_example :
    (b : MemoryAllocator) × (mem_free heap one_block.allocator 88 ≡ some (b, pos 0))
unfolding set_live
Reach-mem_free_example = Reach-mem_free heap one_block 88 heap-IsHeap one_block-Reach refl
