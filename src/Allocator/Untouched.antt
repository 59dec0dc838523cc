-- ===== src/Allocator/Untouched.antt =====
-- mem_alloc of src/MemoryAllocator.cpp while all free memory is one block at the end of the heap.
use os1_project.Prelude.{
  ℕ, ◌+◌, ◌-◌, ◌*◌, ◌≤◌, ◌<◌, ◌≡◌, refl, subst, some, true, List, [], ◌∷◌, arith, leb, ==_self,
}
use os1_project.Allocator.{
  HeapBounds, MemoryAllocator, Ptr, null, write, init_free_mem, mem_alloc, size_of_mem_elem,
}
use os1_project.Allocator.Blocks.{Block, block}
use os1_project.Allocator.Spec.{Fit, IsValid, first_fit, allocated, used, insert}
use os1_project.Allocator.Represents.{Represents}
use os1_project.Allocator.FirstFit.{store, Allocation, mem_alloc-Allocation}
use os1_project.Allocator.Sound.{IsSound}

-- Everything from `at` to the end of the heap is one free block, and the only one.
pub record IsUncut (heap : HeapBounds) (a : MemoryAllocator) (at : Ptr) : Type 0 where
  pub full : List Block
  pub sound : IsSound heap a (store (block at (heap.heap_end_addr - at) ∷ []) full)

module _ (heap : HeapBounds) (at n : ℕ) (roomy : at + (n + 1) * 64 + 24 ≤ heap.heap_end_addr) where
  abbrev whole : Fit
  whole = record { before = []; found = block at (heap.heap_end_addr - at); after = [] }

  whole_fits : first_fit (n + 1) (whole.found ∷ []) ≡ some whole
  unfolding first_fit
  whole_fits = ground (arith, roomy)

  rest_room : leb size_of_mem_elem (heap.heap_end_addr - at - (n + 1) * 64) ≡ true
  rest_room = ground (arith, roomy)

  rest_size : heap.heap_end_addr - at - (n + 1) * 64 ≡ heap.heap_end_addr - (at + (n + 1) * 64)
  rest_size = omega arith

  whole_cut :
      (full : List Block)
      → allocated (n + 1) (store (whole.found ∷ []) full) whole
        ≡ store
            (block (at + (n + 1) * 64) (heap.heap_end_addr - (at + (n + 1) * 64)) ∷ [])
            (insert (used (n + 1) whole.found) full)
  whole_cut full = rw (rest_room, rest_size) refl

module _ (heap : HeapBounds) (a : MemoryAllocator) (at n next : ℕ) where
  -- As long as it has room behind the request, mem_alloc takes the block's front.
  pub mem_alloc-IsUncut :
      IsUncut heap a at
      → 0 < n
      → at + (n + 1) * 64 ≡ next
      → next + 24 ≤ heap.heap_end_addr
      → (b : MemoryAllocator) × (mem_alloc heap a n ≡ some (b, at + size_of_mem_elem))
        × IsUncut heap b next
  mem_alloc-IsUncut u some_blocks e roomy =
      let lo = heap.heap_start_addr in
      let hi = heap.heap_end_addr in
      let s = store (block at (hi - at) ∷ []) u.full in
      let (b, got, rep, valid) =
        subst (Allocation lo hi (n + 1) s a (mem_alloc heap a n))
          (whole_fits heap at n (omega arith))
          (mem_alloc-Allocation heap a s n u.sound.valid u.sound.represents (omega arith)
            some_blocks (omega (arith, u.sound.valid.free_ordered.0))) in
      let cut =
        subst
          (λ m.
            allocated (n + 1) s (whole heap at n (omega arith))
            ≡ store (block m (hi - m) ∷ []) (insert (used (n + 1) (block at (hi - at))) u.full))
          e (whole_cut heap at n (omega arith) u.full) in
      (
        b,
        got,
        record {
          full = insert (used (n + 1) (block at (hi - at))) u.full;
          sound = record {
            valid = subst (IsValid lo hi) cut valid;
            represents = subst (Represents b) cut rep;
            separated = tt;
          };
        },
      )

-- After initFreeMem the whole heap is one free block.
pub init_free_mem-IsSound :
    (heap : HeapBounds) (a : MemoryAllocator)
    → 0 < heap.heap_start_addr
    → heap.heap_start_addr + size_of_mem_elem ≤ heap.heap_end_addr
    → a.full_head ≡ null
    → IsSound heap
        (init_free_mem heap a)
        (store (block heap.heap_start_addr (heap.heap_end_addr - heap.heap_start_addr) ∷ []) [])
unfolding init_free_mem write
init_free_mem-IsSound heap a positive roomy e = record {
  valid = record {
    positive = positive;
    free_ordered = (omega arith, omega (arith, roomy), omega (arith, roomy));
    full_ordered = omega (arith, roomy);
    apart = (tt, tt);
  };
  represents = record {
    free_first = refl;
    full_first = e;
    free_linked = (rw (==_self heap.heap_start_addr) refl, tt);
    full_linked = tt;
  };
  separated = tt;
}

pub init_free_mem-IsUncut :
    (heap : HeapBounds) (a : MemoryAllocator)
    → 0 < heap.heap_start_addr
    → heap.heap_start_addr + size_of_mem_elem ≤ heap.heap_end_addr
    → a.full_head ≡ null
    → IsUncut heap (init_free_mem heap a) heap.heap_start_addr
init_free_mem-IsUncut heap a positive roomy e = record {
  full = [];
  sound = init_free_mem-IsSound heap a positive roomy e;
}
