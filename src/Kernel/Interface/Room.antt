-- ===== src/Kernel/Interface/Room.antt =====
-- mem_alloc of src/syscall_c.cpp, from the bytes asked for to the pointer in a0.
use os1_project.Prelude.{
  ℕ, ◌+◌, ◌*◌, ◌%◌, ◌^◌, ◌≤◌, ◌<◌, ◌≡◌, refl, ◌∙◌, inl, inr, some, arith, ==_self,
}
use os1_project.Prelude.Int.{pos}
use os1_project.Allocator
use os1_project.Allocator.{
  HeapBounds, Ptr, MemoryAllocator, bytes_in_blocks, size_of_mem_elem, mem_block_size,
}
use os1_project.Allocator.Blocks.{end_of}
use os1_project.Allocator.Spec.{Store, IsValid, Fit, first_fit, allocated, used}
use os1_project.Allocator.Represents.{Represents}
use os1_project.Allocator.FirstFit.{IsStarted, heap_blocks}
use os1_project.Allocator.Promises.{mem_alloc_fresh, bytes_in_blocks_lem}
use os1_project.Kernel.{Kernel, update}
use os1_project.Kernel.Trap.{user, save_a0, leave}
use os1_project.Kernel.Trap.Handler.{mem_alloc_case}
use os1_project.Kernel.Interface.{allocate, ecall}
use os1_project.Kernel.Interface.Encoding.{ecall-perform}

covers :
    (size : ℕ)
    → 0 < size
    → size + mem_block_size ≤ 2 ^ 64
    → (size ≤ bytes_in_blocks size * mem_block_size) × (0 < bytes_in_blocks size)
covers size z h = elim (bytes_in_blocks_lem size (omega arith)) [
  | inl (enough, waste) ↦ (enough, omega arith)
  | inr (late, wraps) ↦ absurd (omega arith)
]

mem_alloc_case-user :
    (heap : HeapBounds) (k : Kernel) (n pc st p : ℕ) (b : MemoryAllocator)
    → Allocator.mem_alloc heap k.allocator n ≡ some (b, p)
    → mem_alloc_case heap k n pc st
      ≡ user (record k {
        allocator = b;
        saved_a0 = update k.saved_a0 k.running (pos p);
        sepc = pc;
        sstatus = st;
      })
unfolding mem_alloc_case leave save_a0
mem_alloc_case-user heap k n pc st p b e = rw (e, mem_alloc_case) refl

-- The system call mem_alloc of a size in bytes that is not 0 and no closer than a block to 2 ^ 64,
-- whose blocks are fewer than the heap's and fit a free block of a valid store: the caller goes on
-- behind its ecall and finds in a0 an address with room for all the bytes inside the block that is
-- now its own.
pub mem_alloc-room :
    (heap : HeapBounds) (fuel : ℕ) (k : Kernel) (s : Store) (size input : ℕ) (f : Fit)
    → IsValid heap.heap_start_addr heap.heap_end_addr s
    → Represents k.allocator s
    → IsStarted s
    → 0 < size
    → size + mem_block_size ≤ 2 ^ 64
    → bytes_in_blocks size < heap_blocks heap
    → first_fit (bytes_in_blocks size + 1) s.free ≡ some f
    → let c = used (bytes_in_blocks size + 1) f.found in
      (k' : Kernel) × (ecall heap fuel k (allocate size) input ≡ user k')
      × (k'.running ≡ k.running)
      × (k'.sepc ≡ (k.sepc + 4) % 2 ^ 64)
      × (k'.saved_a0 k.running ≡ pos (c.addr + size_of_mem_elem))
      × (c.addr + size_of_mem_elem + size ≤ end_of c)
      × Represents k'.allocator (allocated (bytes_in_blocks size + 1) s f)
mem_alloc-room heap fuel k s size input f v rep st z wide small hit =
    let n = bytes_in_blocks size in
    let (enough, some_blocks) = covers size z wide in
    let (b, e, rep', room, _, _, _) =
      mem_alloc_fresh heap k.allocator s n f v rep st some_blocks small hit in
    let pc = (k.sepc + 4) % 2 ^ 64 in
    let p = f.found.addr + size_of_mem_elem in
    (
      record k {
        allocator = b;
        saved_a0 = update k.saved_a0 k.running (pos p);
        sepc = pc;
        sstatus = k.sstatus;
      },
      ecall-perform heap fuel k (allocate size) input
          ∙ mem_alloc_case-user heap k n pc k.sstatus p b e,
      refl,
      refl,
      unfold update in rw (==_self k.running) refl,
      omega arith,
      rep',
    )
