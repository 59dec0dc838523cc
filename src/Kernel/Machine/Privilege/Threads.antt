-- ===== src/Kernel/Machine/Privilege/Threads.antt =====
-- The cases that make and start threads or close a semaphore, and the mode in which each goes back.
use os1_project.Prelude.{
  ℕ, ◌≡◌, ◌≢◌, refl, sym, ap, ◌∙◌, subst, inl, inr, Bool, true, false, none, ◌==◌, ne→==,
  Bool-cases, if◌then◌else◌,
}
use os1_project.Prelude.Int.{pos, negsuc}
use os1_project.Allocator.{HeapBounds, MemoryAllocator}
use os1_project.Allocator.History.{IsHeap}
use os1_project.Kernel.{Ptr, null, Kernel, update, put, new_tcb, start_thread}
use os1_project.Kernel.Trap.{Run, leave, save_a0}
use os1_project.Kernel.Trap.Handler.{
  thread_create_case, thread_create_without_start_case, thread_start_case, sem_close_case,
  size_of_tcb,
}
use os1_project.Kernel.Trap.Making.{
  operator_new-got, thread_create_case-made, thread_create_case-refused,
  thread_create_without_start_case-made, thread_create_without_start_case-refused,
  sem_close_case-closed, sem_close_case-refused,
}
use os1_project.Kernel.Interface.{Request, sem_close, create, create_without_starting, start, regs}
use os1_project.Kernel.Invariant.Blocking.{update_self}
use os1_project.Kernel.Frame.Calls.{differs}
use os1_project.Kernel.Places.Modes.{spp}
use os1_project.Allocator.Release
use os1_project.Allocator.History.Steps.{released-IsOwned}
use os1_project.Kernel.Semaphore.Closing.{close-parts}
use os1_project.Kernel.Places.{SamePlaces, close-SamePlaces}
use os1_project.Kernel.System.Abandoned.{close-memory}
use os1_project.Kernel.Machine.Semaphores.{semaphore-there}
use os1_project.Kernel.Machine
use os1_project.Kernel.Machine.{
  Holder, nobody, semaphore, is_held, IsOpen, thread, held_after, unstarted, Machine, HasRoom,
  IsMachine, after,
}
use os1_project.Kernel.Machine.Objects.{object_room}
use os1_project.Kernel.Machine.Privilege.{is_tcb, IsPrivileged, PrivilegedRun}
use os1_project.Kernel.Machine.Privilege.Cases.{
  kept-Privileged, renewed-Privileged, new-Privileged, fresh_tcb, new_tcb-tcbs, ends-Privileged,
  not_main,
}

module _ (heap : HeapBounds) (main : Ptr) (m : Machine) (v : IsMachine heap m)
    (g : IsPrivileged main m) (pc st : ℕ) (mode : spp st ≡ (m.kernel.running == main)) where
  -- A thread was made at `p`, its address is written to `h`, and the result is 0.
  made-Privileged :
      (c : Request) (b : MemoryAllocator) (h p body stack arg : Ptr) (create_only : Bool)
      (x : Holder)
      → m.holder p ≡ nobody
      → ((k' : Kernel) → held_after m c k' ≡ update m.holder (k'.words h) x)
      → PrivilegedRun main m c (
          leave
            (save_a0
              (record (new_tcb (record m.kernel { allocator = b }) p body stack arg create_only) {
                words =
                    update
                      (new_tcb
                        (record m.kernel { allocator = b })
                        p
                        body
                        stack
                        arg
                        create_only).words
                      h
                      p;
              })
              (pos 0))
            pc
            st)
  made-Privileged c b h p body stack arg create_only x unheld held =
      let k1 = record m.kernel { allocator = b } in
      let made = new_tcb k1 p body stack arg create_only in
      let (tcbs, run) = new_tcb-tcbs k1 p body stack arg create_only in
      let k2 = record made { words = update made.words h p } in
      let k3 = record k2 {
        saved_a0 = update k2.saved_a0 k2.running (pos 0);
        sepc = pc;
        sstatus = st;
      } in
      ends-Privileged heap main m v g pc st mode c k2 (pos 0)
        (subst (λ f. IsPrivileged main (record { kernel = k3; holder = f }))
          (ap (λ q. update m.holder q x) (sym (update_self made.words h p)) ∙ sym (held k3))
          (new-Privileged main m g k3 p (fresh_tcb body stack arg) x unheld tcbs refl))
        run

  pub thread_create_case-Privileged :
      (h body arg stack : ℕ)
      → HasRoom heap m.kernel size_of_tcb
      → PrivilegedRun main m
          (create h body arg stack)
          (thread_create_case heap m.kernel (regs 0x11 h body arg stack) pc st)
  thread_create_case-Privileged h body arg stack room =
      let r = regs 0x11 h body arg stack in
      let c = create h body arg stack in
      let Goal : Run → Type 0 = λ x. PrivilegedRun main m c x in
      elim (Bool-cases (h == null)) [
        | inl e ↦ subst Goal (sym (thread_create_case-refused heap m.kernel r pc st e)) (
            ends-Privileged heap main m v g pc st mode c m.kernel (negsuc 1)
              (rw e (
                kept-Privileged main m g _
                  (record { same_running = refl; same_place = λ t. refl })))
              refl)
        | inr e ↦
            let (b, p, f, n, unheld, o) = object_room heap m v size_of_tcb room in
            subst Goal
              (sym (
                thread_create_case-made heap m.kernel r _ _ p pc st (differs h null e) n
                  (operator_new-got heap m.kernel size_of_tcb b p f) refl))
              (made-Privileged c b h p body stack arg false
                (if body == null then unstarted else thread) unheld (λ k'. rw e refl))
      ]

  pub thread_create_without_start_case-Privileged :
      (h body arg stack : ℕ)
      → HasRoom heap m.kernel size_of_tcb
      → PrivilegedRun main m
          (create_without_starting h body arg stack)
          (thread_create_without_start_case heap m.kernel (regs 0x14 h body arg stack) pc st)
  thread_create_without_start_case-Privileged h body arg stack room =
      let r = regs 0x14 h body arg stack in
      let c = create_without_starting h body arg stack in
      let Goal : Run → Type 0 = λ x. PrivilegedRun main m c x in
      elim (Bool-cases (h == null)) [
        | inl e ↦
            subst Goal (sym (thread_create_without_start_case-refused heap m.kernel r pc st e)) (
              ends-Privileged heap main m v g pc st mode c m.kernel (negsuc 1)
                (rw e (
                  kept-Privileged main m g _
                    (record { same_running = refl; same_place = λ t. refl })))
                refl)
        | inr e ↦
            let (b, p, f, n, unheld, o) = object_room heap m v size_of_tcb room in
            subst Goal
              (sym (
                thread_create_without_start_case-made heap m.kernel r _ _ p pc st (differs h null e)
                  n (operator_new-got heap m.kernel size_of_tcb b p f) refl))
              (made-Privileged c b h p body stack arg true unstarted unheld (λ k'. rw e refl))
      ]

  -- A started thread stays what it was.
  started-Privileged :
      (k' : Kernel) (t : Ptr)
      → SamePlaces m.kernel k'
      → m.holder t ≡ unstarted
      → IsPrivileged main (record { kernel = k'; holder = update m.holder t thread })
  started-Privileged k' t s e =
      renewed-Privileged main m g k' t thread s (not_main main m g t unstarted e (λ f. cc))
        (λ f. ap is_tcb e)

  pub thread_start_case-Privileged :
      (t : Ptr)
      → m.holder t ≡ unstarted
      → PrivilegedRun main m (start t) (thread_start_case heap m.kernel t pc st)
  unfolding thread_start_case start_thread put
  thread_start_case-Privileged t e =
      let n : t ≢ null = λ z. cc (sym v.null_free ∙ ap m.holder (sym z) ∙ e) in
      rw (ne→== t null n, ne→== m.kernel.running null v.kernel.ready.scheduled.present)
        (ends-Privileged heap main m v g pc st mode (start t) (put m.kernel t) (pos 0)
          (started-Privileged _ t (record { same_running = refl; same_place = λ u. refl }) e) refl)

  pub sem_close_case-Privileged :
      (h fuel : ℕ)
      → IsHeap heap
      → IsOpen m h
      → PrivilegedRun main m (sem_close h) (sem_close_case heap m.kernel h fuel pc st)
  sem_close_case-Privileged h fuel good (inl z) =
      let e = ap (λ x. x == null) z in
      subst (λ x. PrivilegedRun main m (sem_close h) x)
        (sym (sem_close_case-refused heap m.kernel h fuel pc st e))
        (ends-Privileged heap main m v g pc st mode (sem_close h) m.kernel (negsuc 0)
          (rw e
            (kept-Privileged main m g _ (record { same_running = refl; same_place = λ t. refl })))
          refl)
  sem_close_case-Privileged h fuel good (inr (n, held)) =
      let e = ne→== h null n in
      let (s, there) = semaphore-there heap m v h held in
      let (k1, left, loop, f) = close-parts m.kernel h s n there in
      let k' = record k1 { sems = update k1.sems h none } in
      let w = close-SamePlaces m.kernel h s k' (pos 0) n there f in
      let memory = close-memory m.kernel h s k' (pos 0) n there f in
      let (b, freed, o) =
        released-IsOwned heap (Machine.memory m) v.owned h (ap is_held held) good in
      let k2 = record k' { allocator = b } in
      subst (λ x. PrivilegedRun main m (sem_close h) x)
        (sym (
          sem_close_case-closed heap m.kernel k' b h (pos 0) fuel pc st e f
            (ap (λ a. Release.mem_free heap a h) memory ∙ freed)))
        (ends-Privileged heap main m v g pc st mode (sem_close h) k2 (pos 0)
          (rw e (
            renewed-Privileged main m g _ h nobody
              (record { same_running = w.same_running; same_place = w.same_place })
              (not_main main m g h semaphore held (λ y. cc)) (λ y. absurd (cc))))
          w.same_running)
