-- ===== src/Kernel/Machine/Memory.antt =====
-- MEM_ALLOC, MEM_FREE and the stacks of thread_create, on the kernel with its memory.
use os1_project.Prelude.{ℕ, ◌≡◌, ◌≢◌, refl, sym, ap, ◌∙◌, subst, inl, inr, true, some, ne→==}
use os1_project.Prelude.Int.{pos}
use os1_project.Allocator
use os1_project.Allocator.{HeapBounds, MemoryAllocator, bytes_in_blocks}
use os1_project.Allocator.History.{set_live, IsOwned, IsHeap}
use os1_project.Allocator.History.Steps.{released-IsOwned}
use os1_project.Allocator.History.Grants.{mem_alloc-Served}
use os1_project.Kernel.{Ptr, null, Kernel, update}
use os1_project.Kernel.Trap.{leave, save_a0}
use os1_project.Kernel.Trap.Exit.{SameThreads}
use os1_project.Kernel.Trap.Handler.{mem_alloc_case, mem_free_case}
use os1_project.Kernel.Invariant.Blocking.{update_self, update_ne}
use os1_project.Kernel.Interface.{allocate, free}
use os1_project.Kernel.Machine.{
  nobody, caller, thread, unstarted, is_held, is_semaphore, Machine, grant, address_of, IsMachine,
  memory, Continues,
}
use os1_project.Kernel.Machine.Holders.{
  updated-IsOwned, update_agrees, not_held, update-is, update_back, renewed-IsMachine,
}

module _ (heap : HeapBounds) (m : Machine) (v : IsMachine heap m) where
  -- An address that nobody held goes to the caller.
  granted-IsMachine :
      (k' : Kernel) (p : Ptr)
      → SameThreads m.kernel k'
      → p ≢ null
      → m.holder p ≡ nobody
      → IsOwned heap
          (record { allocator = k'.allocator; live = set_live (λ q. is_held (m.holder q)) p true })
      → IsMachine heap (record { kernel = k'; holder = update m.holder p caller })
  granted-IsMachine k' p same n unheld o =
      renewed-IsMachine heap m v k' (update m.holder p caller) same
        (updated-IsOwned heap k'.allocator m.holder p caller o)
        (λ t e. update-is m.holder p caller thread t e (λ f. cc))
        (λ t e. update_back m.holder p caller unstarted t e (λ f. cc))
        (update_agrees is_semaphore m.holder p caller (ap is_semaphore (sym unheld)))
        (update_ne m.holder p caller null (λ e. n (sym e)) ∙ v.null_free)

  pub kept-IsMachine :
      (k' : Kernel)
      → SameThreads m.kernel k'
      → k'.allocator ≡ m.kernel.allocator
      → IsMachine heap (record { kernel = k'; holder = m.holder })
  kept-IsMachine k' same e =
      renewed-IsMachine heap m v k' m.holder same
        (subst (λ a. IsOwned heap (record { allocator = a; live = λ p. is_held (m.holder p) }))
          (sym e) v.owned)
        (λ t e. e) (λ t e. e) (λ h. refl) v.null_free

  -- Memory that code above the kernel gets, in whatever kernel the trap or the call leaves.
  pub served-IsMachine :
      (n : ℕ) (k' : MemoryAllocator → Ptr → Kernel)
      → ((a : MemoryAllocator) (p : Ptr) → SameThreads m.kernel (k' a p))
      → ((a : MemoryAllocator) (p : Ptr) → (k' a p).allocator ≡ a)
      → (a : MemoryAllocator) × (p : Ptr) × (Allocator.mem_alloc heap m.kernel.allocator n
          ≡ some (a, p))
        × IsMachine heap (record { kernel = k' a p; holder = grant m.holder p caller })
  served-IsMachine n k' same e = elim (mem_alloc-Served heap (memory m) n v.owned) [
    | inl f ↦ (
      m.kernel.allocator,
      null,
      f,
      kept-IsMachine (k' m.kernel.allocator null) (same _ _) (e _ _),
    )
    | inr (b, p, f, z, unheld, o) ↦ (
      b,
      p,
      f,
      rw (ne→== p null z) (
          granted-IsMachine (k' b p) p (same b p) z (not_held (m.holder p) unheld) (
            subst
              (λ a.
                IsOwned heap
                  (record { allocator = a; live = set_live (λ q. is_held (m.holder q)) p true }))
              (sym (e b p)) o)),
    )
  ]

  pub mem_alloc_case-Continues :
      (size pc st : ℕ)
      → Continues heap m (allocate size) (mem_alloc_case heap m.kernel (bytes_in_blocks size) pc st)
  unfolding mem_alloc_case leave save_a0
  mem_alloc_case-Continues size pc st =
      let k = m.kernel in
      let (a, p, e, w) =
        served-IsMachine (bytes_in_blocks size)
          (λ a p. record k {
            allocator = a;
            saved_a0 = update k.saved_a0 k.running (pos p);
            sepc = pc;
            sstatus = st;
          })
          (λ a p. (refl, refl, refl, refl)) (λ a p. refl) in
      rw (e, mem_alloc_case)
        (subst
          (λ q. IsMachine heap (record {
            kernel = record k {
              allocator = a;
              saved_a0 = update k.saved_a0 k.running (pos p);
              sepc = pc;
              sstatus = st;
            };
            holder = grant m.holder q caller;
          }))
          (sym (ap address_of (update_self k.saved_a0 k.running (pos p)))) w)

  pub mem_free_case-Continues :
      (p : Ptr) (pc st : ℕ)
      → IsHeap heap
      → m.holder p ≡ caller
      → Continues heap m (free p) (mem_free_case heap m.kernel p pc st)
  unfolding mem_free_case leave save_a0
  mem_free_case-Continues p pc st h held =
      let (b, e, o) = released-IsOwned heap (memory m) v.owned p (ap is_held held) h in
      let k' = record m.kernel {
        allocator = b;
        saved_a0 = update m.kernel.saved_a0 m.kernel.running (pos 0);
        sepc = pc;
        sstatus = st;
      } in
      rw (e, mem_free_case)
        (renewed-IsMachine heap m v k' (update m.holder p nobody) (refl, refl, refl, refl)
          (updated-IsOwned heap b m.holder p nobody o)
          (λ t e. update-is m.holder p nobody thread t e (λ f. cc))
          (λ t e. update_back m.holder p nobody unstarted t e (λ f. cc))
          (update_agrees is_semaphore m.holder p nobody (ap is_semaphore (sym held)))
          (update_ne m.holder p nobody null (λ e. cc (sym v.null_free ∙ ap m.holder e ∙ held))
            ∙ v.null_free))
