-- ===== src/Kernel/System/Cases.antt =====
-- The system calls that use the allocator or name a thread, when they return to a thread.
use os1_project.Prelude.{
  ℕ, ◌≡◌, refl, ◌⊎◌, inl, inr, true, false, none, some, ◌==◌, Bool-cases, Option-cases, ne→==,
}
use os1_project.Prelude.Int.{ℤ, pos, negsuc, neg_part}
use os1_project.Allocator
use os1_project.Allocator.{HeapBounds, MemoryAllocator, bytes_in_blocks}
use os1_project.Allocator.Release
use os1_project.Kernel.{
  Ptr, null, Kernel, create_thread, create_thread_without_starting, new_tcb, start_thread,
}
use os1_project.Kernel.Semaphore.{returns, to_int, open_sem, close}
use os1_project.Kernel.Trap.{
  Run, user, fault, halted, out_of_fuel, finish_call, leave, save_a0, Regs,
}
use os1_project.Kernel.Trap.Handler.{
  operator_new, operator_delete, mem_alloc_case, mem_free_case, thread_create_case,
  thread_create_without_start_case, thread_start_case, sem_open_case, sem_close_case, size_of_tcb,
  size_of_sem,
}
use os1_project.Kernel.Trap.Exit.{SameThreads}
use os1_project.Kernel.Invariant.{IsKernel, Goes, SameThreads-IsKernel}
use os1_project.Kernel.Invariant.Waking.{close-IsKernel}
use os1_project.Kernel.Invariant.Objects.{IsNew, new_tcb-IsKernel, open_sem-IsKernel}
use os1_project.Kernel.System.{IsHandle, IsFresh}

-- If the trap returns to a thread, it is in the invariant.
abbrev pub Keeps : Run → Type 0
Keeps (user k) = (on : Ptr → Ptr) × IsKernel on k
Keeps fault = Unit
Keeps halted = Unit
Keeps out_of_fuel = Unit

pub Goes-Keeps : (k : Kernel) (r : Run) → Goes k r → Keeps r
Goes-Keeps k (user k') g = g
Goes-Keeps k fault g = tt
Goes-Keeps k halted g = tt
Goes-Keeps k out_of_fuel g = tt

left-Keeps :
    (on : Ptr → Ptr) (k k' : Kernel) (code : ℤ) (pc st : ℕ)
    → SameThreads k k'
    → IsKernel on k
    → Keeps (leave (save_a0 k' code) pc st)
unfolding leave save_a0
left-Keeps on k k' code pc st same v = (
  on,
  SameThreads-IsKernel on k' _ (refl, refl, refl, refl) (SameThreads-IsKernel on k k' same v),
)

module _ (heap : HeapBounds) (on : Ptr → Ptr) (k : Kernel) (v : IsKernel on k) (pc st : ℕ) where
  pub mem_alloc_case-Keeps : (n : ℕ) → Keeps (mem_alloc_case heap k n pc st)
  unfolding mem_alloc_case
  mem_alloc_case-Keeps n = elim (Option-cases (Allocator.mem_alloc heap k.allocator n)) [
    | inl e ↦ rw (e, mem_alloc_case) tt
    | inr ((a, p), e) ↦
        rw (e, mem_alloc_case) (left-Keeps on k _ (pos p) pc st (refl, refl, refl, refl) v)
  ]

  pub mem_free_case-Keeps : (addr : Ptr) → Keeps (mem_free_case heap k addr pc st)
  unfolding mem_free_case
  mem_free_case-Keeps addr = elim (Option-cases (Release.mem_free heap k.allocator addr)) [
    | inl e ↦ rw (e, mem_free_case) tt
    | inr ((a, code), e) ↦
        rw (e, mem_free_case) (left-Keeps on k _ code pc st (refl, refl, refl, refl) v)
  ]

  pub thread_start_case-Keeps :
      (t : Ptr) → IsKernel on (start_thread k t).0 → Keeps (thread_start_case heap k t pc st)
  unfolding thread_start_case
  thread_start_case-Keeps t w =
      left-Keeps on (start_thread k t).0 _ (start_thread k t).1 pc st (refl, refl, refl, refl) w

  -- `operator new` changes the allocator only.
  operator_new-cases :
      (n : ℕ)
      → (operator_new heap k n ≡ none)
        ⊎ ((a : MemoryAllocator) × (p : Ptr) × (Allocator.mem_alloc heap k.allocator
                (bytes_in_blocks n)
              ≡ some (a, p))
            × (operator_new heap k n ≡ some (record k { allocator = a }, p)))
  unfolding operator_new
  operator_new-cases n =
      elim (Option-cases (Allocator.mem_alloc heap k.allocator (bytes_in_blocks n))) [
        | inl e ↦ inl (rw (e, operator_new) refl)
        | inr ((a, p), e) ↦ inr (a, p, e, rw (e, operator_new) refl)
      ]

  with_allocator : (a : MemoryAllocator) → IsKernel on (record k { allocator = a })
  with_allocator a = SameThreads-IsKernel on k _ (refl, refl, refl, refl) v

  moved-IsNew : (a : MemoryAllocator) (p : Ptr) → IsNew k p → IsNew (record k { allocator = a }) p
  moved-IsNew a p n = record {
    present = n.present;
    idle = n.idle;
    unqueued = n.unqueued;
    unblocked = n.unblocked;
  }

  pub thread_create_case-Keeps :
      (r : Regs) → IsFresh heap k → Keeps (thread_create_case heap k r pc st)
  unfolding thread_create_case create_thread
  thread_create_case-Keeps r new = elim (Bool-cases (r.a1 == null)) [
    | inl e ↦ rw e (left-Keeps on k k (negsuc 1) pc st (refl, refl, refl, refl) v)
    | inr e ↦ elim (operator_new-cases size_of_tcb) [
      | inl f ↦ rw (e, f, thread_create_case) tt
      | inr (a, p, got, f) ↦
          rw (e, f, thread_create_case)
            (left-Keeps on (new_tcb (record k { allocator = a }) p r.a2 r.a4 r.a3 false) _ _ pc st
              (refl, refl, refl, refl)
              (new_tcb-IsKernel on (record k { allocator = a }) p r.a2 r.a4 r.a3 false
                (with_allocator a) (moved-IsNew a p (new a p got))))
    ]
  ]

  pub thread_create_without_start_case-Keeps :
      (r : Regs) → IsFresh heap k → Keeps (thread_create_without_start_case heap k r pc st)
  unfolding thread_create_without_start_case create_thread_without_starting
  thread_create_without_start_case-Keeps r new = elim (Bool-cases (r.a1 == null)) [
    | inl e ↦ rw e (left-Keeps on k k (negsuc 1) pc st (refl, refl, refl, refl) v)
    | inr e ↦ elim (operator_new-cases size_of_tcb) [
      | inl f ↦ rw (e, f, thread_create_without_start_case) tt
      | inr (a, p, got, f) ↦
          rw (e, f, thread_create_without_start_case)
            (left-Keeps on (new_tcb (record k { allocator = a }) p r.a2 r.a4 r.a3 true) _ _ pc st
              (refl, refl, refl, refl)
              (new_tcb-IsKernel on (record k { allocator = a }) p r.a2 r.a4 r.a3 true
                (with_allocator a) (moved-IsNew a p (new a p got))))
    ]
  ]

  pub sem_open_case-Keeps :
      (r : Regs) → neg_part (to_int r.a2) ≡ 0 → Keeps (sem_open_case heap k r pc st)
  unfolding sem_open_case
  sem_open_case-Keeps r z = elim (Bool-cases (r.a1 == null)) [
    | inl e ↦ rw e (left-Keeps on k k (negsuc 1) pc st (refl, refl, refl, refl) v)
    | inr e ↦ elim (operator_new-cases size_of_sem) [
      | inl f ↦ rw (e, f, sem_open_case) tt
      | inr (a, p, got, f) ↦
          rw (e, f, sem_open_case)
            (left-Keeps on (open_sem (record k { allocator = a }) p r.a1 (to_int r.a2)).0 _ _ pc st
              (refl, refl, refl, refl)
              (open_sem-IsKernel on (record k { allocator = a }) p r.a1 (to_int r.a2)
                (with_allocator a) z))
    ]
  ]

closed-Keeps :
    (heap : HeapBounds) (on : Ptr → Ptr) (k k' : Kernel) (h : Ptr) (fuel pc st : ℕ)
    → IsKernel on k'
    → (h == null) ≡ false
    → close k h ≡ some (returns k' (pos 0))
    → Keeps (sem_close_case heap k h fuel pc st)
unfolding sem_close_case finish_call operator_delete
closed-Keeps heap on k k' h fuel pc st v n e =
    elim (Option-cases (Release.mem_free heap k'.allocator h)) [
      | inl f ↦ rw (e, sem_close_case, n, f, operator_delete) tt
      | inr ((a, code), f) ↦
          rw (e, sem_close_case, n, f, operator_delete)
            (left-Keeps on k' _ (pos 0) pc st (refl, refl, refl, refl) v)
    ]

pub sem_close_case-Keeps :
    (heap : HeapBounds) (on : Ptr → Ptr) (k : Kernel) (h : Ptr) (fuel pc st : ℕ)
    → IsKernel on k
    → IsHandle k h
    → Keeps (sem_close_case heap k h fuel pc st)
unfolding sem_close_case close finish_call
sem_close_case-Keeps heap on k h fuel pc st v (inl z) =
    rw z (left-Keeps on k k (negsuc 0) pc st (refl, refl, refl, refl) v)
sem_close_case-Keeps heap on k h fuel pc st v (inr (n, s, there)) =
    let (k', e, w) = close-IsKernel on h k s v n there in
    closed-Keeps heap on k k' h fuel pc st w (ne→== h null n) e
