-- ===== src/Kernel/Interface/Tests.antt =====
-- Calls of src/syscall_c.cpp in the kernel of Kernel/Tests.antt.
use os1_project.Prelude.{◌+◌, ◌≤◌, ◌≡◌, refl, arith, ◌∷◌, []}
use os1_project.Prelude.Int.{pos}
use os1_project.Allocator.{HeapBounds, bytes_in_blocks, write}
use os1_project.Allocator.Spec.{Store, IsValid, first_fit, allocated}
use os1_project.Allocator.Blocks.{block}
use os1_project.Allocator.Seg.{elem}
use os1_project.Allocator.FirstFit.{store}
use os1_project.Allocator.Represents.{Represents}
use os1_project.Allocator.Tests.{
  heap, whole_heap, fresh, whole_fit, whole_fit_found, fresh-Represents, whole_heap-IsValid,
}
use os1_project.Kernel.{Kernel}
use os1_project.Kernel.Semaphore.{wait}
use os1_project.Kernel.Tests.{two_threads}
use os1_project.Kernel.Trap.{user, finish_call}
use os1_project.Kernel.Interface.{allocate, sem_wait, ecall, thread_create}
use os1_project.Kernel.Interface.Encoding.{ecall-perform}
use os1_project.Kernel.Interface.Stack.{Created, stack_blocks, thread_create-Created}
use os1_project.Kernel.Interface.Room.{mem_alloc-room}

ecall-perform_example :
    ecall heap 1 two_threads (sem_wait 2000) 0 ≡ finish_call 1 (wait two_threads 2000) 100 32
ecall-perform_example = ecall-perform heap 1 two_threads (sem_wait 2000) 0

-- The kernel with an initialised heap.
abbrev with_heap : Kernel
with_heap = record two_threads { allocator = fresh }

mem_alloc-room_example :
    (k' : Kernel) × (ecall heap 1 with_heap (allocate 40) 0 ≡ user k')
    × (k'.running ≡ 1100)
    × (k'.sepc ≡ 100)
    × (k'.saved_a0 1100 ≡ pos 88)
    × (88 + 40 ≤ 192)
    × Represents k'.allocator (allocated 2 whole_heap whole_fit)
unfolding bytes_in_blocks
mem_alloc-room_example =
    mem_alloc-room heap 1 with_heap whole_heap 40 0 whole_fit whole_heap-IsValid fresh-Represents
      (omega arith) (omega arith) (omega arith) (omega arith) whole_fit_found

-- A heap of 1024 blocks, with room for a stack.
abbrev pub large_heap : HeapBounds
large_heap = record { heap_start_addr = 64; heap_end_addr = 65600 }

abbrev pub large_store : Store
large_store = store (block 64 65536 ∷ []) []

abbrev pub with_large_heap : Kernel
with_large_heap = record two_threads {
  allocator = record {
    cells = write (λ p. elem 0 0 0) 64 (elem 0 0 65536);
    free_head = 64;
    full_head = 0;
  };
}

pub large-Represents : Represents with_large_heap.allocator large_store
unfolding write
large-Represents = record {
  free_first = refl;
  full_first = refl;
  free_linked = (refl, tt);
  full_linked = tt;
}

pub large-IsValid : IsValid 64 65600 large_store
large-IsValid = record {
  positive = omega arith;
  free_ordered = (omega arith, omega arith, omega arith);
  full_ordered = omega arith;
  apart = (tt, tt);
}

thread_create-Created_example :
    Created large_heap 1 with_large_heap large_store 3000 8 0 0
      (thread_create large_heap 1 with_large_heap 3000 8 0 0)
      (first_fit (stack_blocks + 1) large_store.free)
thread_create-Created_example =
    thread_create-Created large_heap 1 with_large_heap large_store 3000 8 0 0 large-IsValid
      large-Represents (omega arith) (omega arith) (omega arith)
