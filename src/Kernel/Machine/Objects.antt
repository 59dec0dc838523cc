-- ===== src/Kernel/Machine/Objects.antt =====
-- Threads that are made and started, on the kernel with its memory.
use os1_project.Prelude.{
  ℕ, ◌≡◌, ◌≢◌, refl, sym, ap, ◌∙◌, inl, inr, true, some, [], ◌∷◌, All-append, ◌==◌, ==_iff,
  Bool-cases,
}
use os1_project.Allocator
use os1_project.Allocator.{HeapBounds, MemoryAllocator, bytes_in_blocks}
use os1_project.Allocator.History.{set_live, IsOwned}
use os1_project.Allocator.History.Grants.{mem_alloc-Served, IsOwned-same}
use os1_project.Kernel.{Ptr, null, Tcb, update, put, is_runnable}
use os1_project.Kernel.Trap.Exit.{IsPlace}
use os1_project.Kernel.Invariant.Blocking.{update_self, update_ne}
use os1_project.Kernel.Invariant.{SameThreads-IsKernel}
use os1_project.Kernel.Frame.Calls.{differs}
use os1_project.Kernel.Invariant.Objects.{made, made-IsKernel, put-IsKernel}
use os1_project.Kernel.Machine.{
  nobody, thread, unstarted, is_held, is_semaphore, Machine, HasRoom, IsMachine, memory,
}
use os1_project.Kernel.Machine.Holders.{
  updated-IsOwned, update_agrees, not_held, update-is, update_back, Threads_map, not_thread-IsNew,
}

module _ (heap : HeapBounds) (m : Machine) (v : IsMachine heap m) where
  -- A thread that can be started enters the queue.
  pub put-IsMachine :
      (t : Ptr)
      → m.holder t ≡ unstarted
      → IsMachine heap (record { kernel = put m.kernel t; holder = update m.holder t thread })
  unfolding put
  put-IsMachine t e =
      let n : t ≢ null = λ z. cc (sym v.null_free ∙ ap m.holder (sym z) ∙ e) in
      let s = v.startable t e in
      let new = not_thread-IsNew heap m v t n (λ f. cc) in
      let threads =
        Threads_map (λ u. m.holder u ≡ thread) (λ u. update m.holder t thread u ≡ thread) m.kernel
          (λ u f. update-is m.holder t thread thread u f (λ g. cc)) v.threads in
      record {
        on = v.on;
        kernel = put-IsKernel v.on m.kernel t v.kernel new s.runnable s.place;
        owned =
            IsOwned-same heap m.kernel.allocator _ _ v.owned
              (update_agrees is_held m.holder t thread (ap is_held (sym e)));
        threads = record {
          running = threads.running;
          ready =
              All-append (λ u. update m.holder t thread u ≡ thread) m.kernel.ready_thread_queue
                (t ∷ []) threads.ready (update_self m.holder t thread, tt);
          blocked = threads.blocked;
        };
        startable = λ u f.
            let r = v.startable u (update_back m.holder t thread unstarted u f (λ g. cc)) in
            record { runnable = r.runnable; place = r.place };
        semaphores = λ h.
            v.semaphores h
            ∙ sym (update_agrees is_semaphore m.holder t thread (ap is_semaphore (sym e)) h);
        null_free = update_ne m.holder t thread null (λ z. n (sym z)) ∙ v.null_free;
      }

  -- operator new for an object of the kernel.
  pub object_room :
      (size : ℕ)
      → HasRoom heap m.kernel size
      → (b : MemoryAllocator) × (p : Ptr) × (Allocator.mem_alloc heap m.kernel.allocator
            (bytes_in_blocks size)
          ≡ some (b, p))
        × (p ≢ null)
        × (m.holder p ≡ nobody)
        × IsOwned heap
            (record { allocator = b; live = set_live (λ q. is_held (m.holder q)) p true })
  object_room size room = elim (mem_alloc-Served heap (memory m) (bytes_in_blocks size) v.owned) [
    | inl e ↦ absurd (room _ _ e refl)
    | inr (b, p, e, n, unheld, o) ↦ (b, p, e, n, not_held (m.holder p) unheld, o)
  ]

  -- The constructor of TCB, at an address that nobody held, for a thread that is not queued.
  pub made-IsMachine :
      (b : MemoryAllocator) (p : Ptr) (new : Tcb)
      → p ≢ null
      → m.holder p ≡ nobody
      → IsOwned heap (record { allocator = b; live = set_live (λ q. is_held (m.holder q)) p true })
      → is_runnable new ≡ true
      → IsPlace new.context
      → IsMachine heap (record {
        kernel = made (record m.kernel { allocator = b }) p new;
        holder = update m.holder p unstarted;
      })
  made-IsMachine b p new n unheld o runs place =
      let k1 =
        made-IsKernel v.on m.kernel p v.kernel (not_thread-IsNew heap m v p n (λ f. cc)) new in
      let threads =
        Threads_map (λ u. m.holder u ≡ thread) (λ u. update m.holder p unstarted u ≡ thread)
          m.kernel (λ u f. update-is m.holder p unstarted thread u f (λ g. cc)) v.threads in
      record {
        on = v.on;
        kernel = SameThreads-IsKernel v.on (made m.kernel p new) _ (refl, refl, refl, refl) k1;
        owned = updated-IsOwned heap b m.holder p unstarted o;
        threads = record {
          running = threads.running;
          ready = threads.ready;
          blocked = threads.blocked;
        };
        startable = λ u f. elim (Bool-cases (u == p)) [
          | inl e ↦
              let same : update m.kernel.tcbs p new u ≡ new =
                ap (update m.kernel.tcbs p new) ((==_iff u p).0 e)
                ∙ update_self m.kernel.tcbs p new in
              record { runnable = rw same runs; place = rw same place }
          | inr e ↦
              let other : u ≢ p = differs u p e in
              let r = v.startable u (sym (update_ne m.holder p unstarted u other) ∙ f) in
              let same = update_ne m.kernel.tcbs p new u other in
              record { runnable = rw same r.runnable; place = rw same r.place }
        ];
        semaphores = λ h.
            v.semaphores h
            ∙ sym
                (update_agrees is_semaphore m.holder p unstarted (ap is_semaphore (sym unheld)) h);
        null_free = update_ne m.holder p unstarted null (λ z. n (sym z)) ∙ v.null_free;
      }
