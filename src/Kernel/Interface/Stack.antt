-- ===== src/Kernel/Interface/Stack.antt =====
-- thread_create of src/syscall_c.cpp, which takes the stack before it traps.
use os1_project.Prelude.{ℕ, ◌+◌, ◌<◌, ◌≡◌, ◌≢◌, refl, arith, Option, none, some, ne→==}
use os1_project.Prelude.Int.{negsuc}
use os1_project.Allocator
use os1_project.Allocator.{HeapBounds, MemoryAllocator, bytes_in_blocks, size_of_mem_elem}
use os1_project.Allocator.Spec.{Store, IsValid, Fit, first_fit, allocated}
use os1_project.Allocator.Represents.{Represents}
use os1_project.Allocator.FirstFit.{IsStarted, heap_blocks, Allocation, mem_alloc-Allocation}
use os1_project.Kernel.{Kernel, Ptr, null}
use os1_project.Kernel.Interface.{
  create, ecall, Outcome, trapped, returned, with_stack, thread_create,
}

abbrev pub stack_blocks : ℕ
stack_blocks = 512

-- What thread_create comes to, by the search for a free block for the stack.
abbrev pub Created :
    HeapBounds → ℕ → Kernel → Store → Ptr → Ptr → Ptr → ℕ → Outcome → Option Fit → Type 0
Created heap fuel k s handle body arg input r none = r ≡ returned k (negsuc 2)
Created heap fuel k s handle body arg input r (some f) =
    let stack = f.found.addr + size_of_mem_elem in
    (b : MemoryAllocator) × (r
      ≡ trapped (ecall heap fuel (record k { allocator = b }) (create handle body arg stack) input))
    × Represents b (allocated (stack_blocks + 1) s f)
    × IsValid heap.heap_start_addr heap.heap_end_addr (allocated (stack_blocks + 1) s f)

Created-search :
    (heap : HeapBounds) (fuel : ℕ) (k : Kernel) (s : Store) (handle body arg : Ptr) (input : ℕ)
    (r : Option Fit)
    → body ≢ null
    → Allocation heap.heap_start_addr heap.heap_end_addr
        (stack_blocks + 1)
        s
        k.allocator
        (Allocator.mem_alloc heap k.allocator stack_blocks)
        r
    → Created heap fuel k s handle body arg input
        (thread_create heap fuel k handle body arg input)
        r
unfolding thread_create with_stack bytes_in_blocks
Created-search heap fuel k s handle body arg input none z e = rw (ne→== body null z, e) refl
Created-search heap fuel k s handle body arg input (some f) z (b, e, rep, v) = (
  b,
  rw (ne→== body null z, e, ne→== (f.found.addr + size_of_mem_elem) null (omega arith)) refl,
  rep,
  v,
)

-- thread_create of a function that is not null, in a heap of more blocks than a stack, whose headers
-- stand for a valid store: with no free block for the stack it returns -3 and changes nothing;
-- otherwise it traps with the handle, the function, the argument and the stack, which is first fit's.
pub thread_create-Created :
    (heap : HeapBounds) (fuel : ℕ) (k : Kernel) (s : Store) (handle body arg : Ptr) (input : ℕ)
    → IsValid heap.heap_start_addr heap.heap_end_addr s
    → Represents k.allocator s
    → IsStarted s
    → stack_blocks < heap_blocks heap
    → body ≢ null
    → Created heap fuel k s handle body arg input
        (thread_create heap fuel k handle body arg input)
        (first_fit (stack_blocks + 1) s.free)
thread_create-Created heap fuel k s handle body arg input v rep st small z =
    Created-search heap fuel k s handle body arg input (first_fit (stack_blocks + 1) s.free) z
      (mem_alloc-Allocation heap k.allocator s stack_blocks v rep st (omega arith) small)
