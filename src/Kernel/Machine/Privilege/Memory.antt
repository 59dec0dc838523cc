-- ===== src/Kernel/Machine/Privilege/Memory.antt =====
-- MEM_ALLOC, MEM_FREE and SEM_OPEN, and the mode in which each goes back.
use os1_project.Prelude.{
  ℕ, ◌≡◌, refl, sym, ap, ◌∙◌, subst, inl, inr, some, ◌==◌, ne→==, Bool-cases, Option-cases,
}
use os1_project.Prelude.Int.{pos, negsuc}
use os1_project.Allocator
use os1_project.Allocator.{HeapBounds, MemoryAllocator, bytes_in_blocks}
use os1_project.Allocator.Release
use os1_project.Allocator.History.Grants.{mem_alloc-Served}
use os1_project.Kernel.{Ptr, null, Kernel, update}
use os1_project.Kernel.Semaphore.{to_int}
use os1_project.Kernel.Trap.{Run}
use os1_project.Kernel.Trap.Handler.{mem_alloc_case, mem_free_case, sem_open_case, size_of_sem}
use os1_project.Kernel.Trap.Making.{
  new_sem, open_sem-got, operator_new-got, sem_open_case-made, sem_open_case-refused,
}
use os1_project.Kernel.Interface.{allocate, free, sem_open, regs}
use os1_project.Kernel.Invariant.Blocking.{update_self}
use os1_project.Kernel.Frame.Calls.{differs}
use os1_project.Kernel.Places.{SamePlaces}
use os1_project.Kernel.Places.Modes.{spp}
use os1_project.Kernel.Machine.{
  Holder, nobody, caller, semaphore, Machine, grant, address_of, HasRoom, IsMachine, memory,
}
use os1_project.Kernel.Machine.Holders.{not_held}
use os1_project.Kernel.Machine.Objects.{object_room}
use os1_project.Kernel.Machine.Privilege.{IsPrivileged, PrivilegedRun}
use os1_project.Kernel.Machine.Privilege.Cases.{
  not_main, renewed-Privileged, kept-Privileged, ends-Privileged,
}

module _ (heap : HeapBounds) (main : Ptr) (m : Machine) (v : IsMachine heap m)
    (g : IsPrivileged main m) (pc st : ℕ) (mode : spp st ≡ (m.kernel.running == main)) where
  mem_alloc_got :
      (size : ℕ) (a : MemoryAllocator) (p : Ptr) (holder : Ptr → Holder)
      → Allocator.mem_alloc heap m.kernel.allocator (bytes_in_blocks size) ≡ some (a, p)
      → grant m.holder p caller ≡ holder
      → ((k' : Kernel)
          → SamePlaces m.kernel k'
          → IsPrivileged main (record { kernel = k'; holder = holder }))
      → PrivilegedRun main m
          (allocate size)
          (mem_alloc_case heap m.kernel (bytes_in_blocks size) pc st)
  unfolding mem_alloc_case
  mem_alloc_got size a p holder e held w =
      let k = m.kernel in
      let k' = record k {
        allocator = a;
        saved_a0 = update k.saved_a0 k.running (pos p);
        sepc = pc;
        sstatus = st;
      } in
      rw (e, mem_alloc_case)
        (ends-Privileged heap main m v g pc st mode (allocate size) (record k { allocator = a })
          (pos p)
          (subst (λ f. IsPrivileged main (record { kernel = k'; holder = f }))
            (sym held
              ∙ ap (λ q. grant m.holder q caller)
                  (sym (ap address_of (update_self k.saved_a0 k.running (pos p)))))
            (w k' (record { same_running = refl; same_place = λ t. refl })))
          refl)

  pub mem_alloc_case-Privileged :
      (size : ℕ)
      → PrivilegedRun main m
          (allocate size)
          (mem_alloc_case heap m.kernel (bytes_in_blocks size) pc st)
  mem_alloc_case-Privileged size =
      elim (mem_alloc-Served heap (memory m) (bytes_in_blocks size) v.owned) [
        | inl e ↦ mem_alloc_got size _ null m.holder e refl (kept-Privileged main m g)
        | inr (a, p, e, z, unheld, o) ↦
            let nobodys = not_held (m.holder p) unheld in
            mem_alloc_got size a p (update m.holder p caller) e (rw (ne→== p null z) refl) (λ k' s.
              renewed-Privileged main m g k' p caller s
                (not_main main m g p nobody nobodys (λ f. cc)) (λ f. absurd (cc)))
      ]

  pub mem_free_case-Privileged :
      (p : Ptr)
      → m.holder p ≡ caller
      → PrivilegedRun main m (free p) (mem_free_case heap m.kernel p pc st)
  unfolding mem_free_case
  mem_free_case-Privileged p held =
      elim (Option-cases (Release.mem_free heap m.kernel.allocator p)) [
        | inl e ↦ rw (e, mem_free_case) tt
        | inr ((a, code), e) ↦
            rw (e, mem_free_case)
              (ends-Privileged heap main m v g pc st mode (free p)
                (record m.kernel { allocator = a }) code
                (renewed-Privileged main m g _ p nobody
                  (record { same_running = refl; same_place = λ t. refl })
                  (not_main main m g p caller held (λ f. cc)) (λ f. absurd (cc)))
                refl)
      ]

  pub sem_open_case-Privileged :
      (h init : ℕ)
      → HasRoom heap m.kernel size_of_sem
      → PrivilegedRun main m
          (sem_open h init)
          (sem_open_case heap m.kernel (regs 0x21 h init 0 0) pc st)
  sem_open_case-Privileged h init room =
      let r = regs 0x21 h init 0 0 in
      let Goal : Run → Type 0 = λ x. PrivilegedRun main m (sem_open h init) x in
      elim (Bool-cases (h == null)) [
        | inl e ↦ subst Goal (sym (sem_open_case-refused heap m.kernel r pc st e)) (
            ends-Privileged heap main m v g pc st mode (sem_open h init) m.kernel (negsuc 1)
              (rw e (
                kept-Privileged main m g _
                  (record { same_running = refl; same_place = λ t. refl })))
              refl)
        | inr e ↦
            let (b, p, f, n, unheld, o) = object_room heap m v size_of_sem room in
            let z = differs h null e in
            let k1 = record m.kernel { allocator = b } in
            let at = update_self m.kernel.words h p in
            let k2 = record k1 {
              sems = update k1.sems p (some (new_sem (to_int init)));
              words = update k1.words h p;
            } in
            let k3 = record k2 {
              saved_a0 = update k2.saved_a0 k2.running (pos 0);
              sepc = pc;
              sstatus = st;
            } in
            subst Goal
              (sym (
                sem_open_case-made heap m.kernel r k1 k2 p pc st z
                  (operator_new-got heap m.kernel size_of_sem b p f)
                  (open_sem-got k1 p h (to_int init) n z) (λ y. n (sym at ∙ y))))
              (ends-Privileged heap main m v g pc st mode (sem_open h init) k2 (pos 0)
                (rw e (
                  subst
                    (λ q.
                      IsPrivileged main
                        (record { kernel = k3; holder = update m.holder q semaphore }))
                    (sym at)
                    (renewed-Privileged main m g k3 p semaphore
                      (record { same_running = refl; same_place = λ t. refl })
                      (not_main main m g p nobody unheld (λ y. cc)) (λ y. absurd (cc)))))
                refl)
      ]
