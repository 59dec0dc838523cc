-- ===== src/Kernel/Machine/Separation.antt =====
-- What MEM_ALLOC gives to the code above the kernel.
use os1_project.Prelude.{ℕ, ◌+◌, ◌%◌, ◌^◌, ◌≡◌, ◌≢◌, refl, ◌⊎◌, inl, inr, some}
use os1_project.Prelude.Int.{pos}
use os1_project.Allocator
use os1_project.Allocator.{HeapBounds, MemoryAllocator, bytes_in_blocks}
use os1_project.Allocator.History.{IsHeap}
use os1_project.Allocator.History.Grants.{mem_alloc-Served}
use os1_project.Kernel.{Ptr, null, Kernel, update}
use os1_project.Kernel.Trap.{Run, user, leave, save_a0}
use os1_project.Kernel.Trap.Handler.{mem_alloc_case}
use os1_project.Kernel.Invariant.Blocking.{update_self}
use os1_project.Kernel.Interface.{allocate, ecall}
use os1_project.Kernel.Interface.Encoding.{ecall-perform}
use os1_project.Kernel.Machine.{Machine, nobody, memory, IsMachine, Reach}
use os1_project.Kernel.Machine.Holders.{not_held}
use os1_project.Kernel.Machine.Histories.{Reach-IsMachine}

-- The caller finds null in a0, and no memory was taken; or an address that nobody held.
abbrev pub Separate : Machine → Run → Type 0
Separate m r =
    (k' : Kernel) × (r ≡ user k')
    × (k'.running ≡ m.kernel.running)
    × (((k'.saved_a0 k'.running ≡ pos null) × (k'.allocator ≡ m.kernel.allocator))
        ⊎ ((p : Ptr) × (k'.saved_a0 k'.running ≡ pos p) × (p ≢ null) × (m.holder p ≡ nobody)))

module _ (heap : HeapBounds) (m : Machine) where
  abbrev answered : (a : MemoryAllocator) (p : Ptr) (pc st : ℕ) → Kernel
  answered a p pc st = record m.kernel {
    allocator = a;
    saved_a0 = update m.kernel.saved_a0 m.kernel.running (pos p);
    sepc = pc;
    sstatus = st;
  }

  mem_alloc_case-got :
      (n pc st : ℕ) (a : MemoryAllocator) (p : Ptr)
      → Allocator.mem_alloc heap m.kernel.allocator n ≡ some (a, p)
      → mem_alloc_case heap m.kernel n pc st ≡ user (answered a p pc st)
  unfolding mem_alloc_case leave save_a0
  mem_alloc_case-got n pc st a p e = rw (e, mem_alloc_case) refl

  mem_alloc_case-Separate :
      (n pc st : ℕ) → IsMachine heap m → Separate m (mem_alloc_case heap m.kernel n pc st)
  mem_alloc_case-Separate n pc st v =
      let written = λ (q : Ptr). update_self m.kernel.saved_a0 m.kernel.running (pos q) in
      elim (mem_alloc-Served heap (memory m) n v.owned) [
        | inl e ↦ (_, mem_alloc_case-got n pc st _ null e, refl, inl (written null, refl))
        | inr (a, p, e, z, unheld, o) ↦ (
          _,
          mem_alloc_case-got n pc st a p e,
          refl,
          inr (p, written p, z, not_held (m.holder p) unheld),
        )
      ]

-- On a heap above null and below 2 ^ 64, from a kernel with its memory in the invariant on,
-- after every history, and whatever nodes the kernel's lists take, as long as there is memory
-- for each, and give back between those: a thread's mem_alloc ends and goes back to that thread,
-- with null and the allocator as it was, or with an address that nobody held, neither the code
-- above the kernel nor a thread's object, a semaphore's or a node of the kernel's lists.
pub Reach-Separate :
    (heap : HeapBounds) (m n : Machine) (size fuel input : ℕ)
    → IsHeap heap
    → IsMachine heap m
    → Reach heap m n
    → Separate n (ecall heap fuel n.kernel (allocate size) input)
Reach-Separate heap m n size fuel input good v r =
    rw (ecall-perform heap fuel n.kernel (allocate size) input) (
      mem_alloc_case-Separate heap n (bytes_in_blocks size) ((n.kernel.sepc + 4) % 2 ^ 64)
        n.kernel.sstatus (Reach-IsMachine heap good m n v r))
