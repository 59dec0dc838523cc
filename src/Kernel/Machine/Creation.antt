-- ===== src/Kernel/Machine/Creation.antt =====
-- The cases of the handler that make and start threads, on the kernel with its memory.
use os1_project.Prelude.{
  ℕ, ◌≡◌, ◌≢◌, refl, sym, ap, ◌∙◌, subst, inl, inr, Bool, true, false, not, ◌&&◌, ◌==◌, ne→==,
  Bool-cases, if◌then◌else◌,
}
use mathlib.Core.Path.{fun_ext}
use os1_project.Prelude.Int.{ℤ, pos, negsuc}
use os1_project.Allocator.{HeapBounds, MemoryAllocator}
use os1_project.Allocator.History.{set_live, IsOwned}
use os1_project.Kernel.{Ptr, null, Kernel, update, put, new_tcb, start_thread}
use os1_project.Kernel.Frame.Calls.{differs}
use os1_project.Kernel.Trap.Making.{
  operator_new-got, thread_create_case-made, thread_create_case-refused,
  thread_create_without_start_case-made, thread_create_without_start_case-refused,
}
use os1_project.Kernel.Trap.{Run, leave, save_a0}
use os1_project.Kernel.Trap.Handler.{
  thread_create_case, thread_create_without_start_case, thread_start_case, size_of_tcb,
}
use os1_project.Kernel.Interface.{create, create_without_starting, start, regs}
use os1_project.Kernel.Invariant.Blocking.{update_self}
use os1_project.Kernel.Machine.{
  Holder, nobody, thread, unstarted, is_held, Machine, HasRoom, IsMachine, Continues,
}
use os1_project.Kernel.Machine.Memory.{kept-IsMachine}
use os1_project.Kernel.Machine.Objects.{put-IsMachine, object_room, made-IsMachine}

update_twice :
    (f : Ptr → Holder) (p : Ptr) (x y : Holder) → update (update f p x) p y ≡ update f p y
unfolding update
update_twice f p x y =
    fun_ext λ q. elim (Bool-cases (q == p)) [ inl e ↦ rw e refl | inr e ↦ rw e refl ]

-- Whether the constructor of TCB queues the thread.
abbrev queues : Ptr → Bool → Bool
queues body create_only = not (body == null) && not create_only

abbrev made_holder : Ptr → Bool → Holder
made_holder body create_only = if queues body create_only then thread else unstarted

created_holder :
    (body : Ptr) → made_holder body false ≡ (if body == null then unstarted else thread)
created_holder body = elim (Bool-cases (body == null)) [ inl e ↦ rw e refl | inr e ↦ rw e refl ]

left_holder : (body : Ptr) → made_holder body true ≡ unstarted
left_holder body = elim (Bool-cases (body == null)) [ inl e ↦ rw e refl | inr e ↦ rw e refl ]

module _ (heap : HeapBounds) (m : Machine) (v : IsMachine heap m) where
  -- The kernel with a thread made at `p`, which `x` holds.
  abbrev Made : MemoryAllocator → Ptr → Ptr → Ptr → Ptr → Bool → Holder → Type 0
  Made b p body stack arg create_only x = IsMachine heap (record {
    kernel = new_tcb (record m.kernel { allocator = b }) p body stack arg create_only;
    holder = update m.holder p x;
  })

  queued-IsMachine :
      (k' : Kernel) (p : Ptr)
      → IsMachine heap (record { kernel = k'; holder = update m.holder p unstarted })
      → IsMachine heap (record { kernel = put k' p; holder = update m.holder p thread })
  queued-IsMachine k' p w =
      subst (λ f. IsMachine heap (record { kernel = put k' p; holder = f }))
        (update_twice m.holder p unstarted thread)
        (put-IsMachine heap _ w p (update_self m.holder p unstarted))

  new_tcb-IsMachine :
      (b : MemoryAllocator) (p body stack arg : Ptr) (create_only : Bool)
      → p ≢ null
      → m.holder p ≡ nobody
      → IsOwned heap (record { allocator = b; live = set_live (λ q. is_held (m.holder q)) p true })
      → Made b p body stack arg create_only (made_holder body create_only)
  unfolding new_tcb
  new_tcb-IsMachine b p body stack arg create_only n unheld o =
      let w = made-IsMachine heap m v b p _ n unheld o refl tt in
      elim (Bool-cases (queues body create_only)) [
        | inl e ↦ rw e (queued-IsMachine _ p w)
        | inr e ↦ rw e w
      ]

  -- The end of a case that made a thread at `p`: the handle is written, and the result.
  pub answered-IsMachine :
      (k' : Kernel) (h p : Ptr) (x : Holder) (code : ℤ) (pc st : ℕ)
      → IsMachine heap (record { kernel = k'; holder = update m.holder p x })
      → IsMachine heap (record {
        kernel = record k' {
          words = update k'.words h p;
          saved_a0 = update k'.saved_a0 k'.running code;
          sepc = pc;
          sstatus = st;
        };
        holder = update m.holder (update k'.words h p h) x;
      })
  answered-IsMachine k' h p x code pc st w =
      let k'' = record k' {
        words = update k'.words h p;
        saved_a0 = update k'.saved_a0 k'.running code;
        sepc = pc;
        sstatus = st;
      } in
      subst (λ q. IsMachine heap (record { kernel = k''; holder = update m.holder q x }))
        (sym (update_self k'.words h p)) (kept-IsMachine heap _ w k'' (refl, refl, refl, refl) refl)

  pub refused-IsMachine :
      (pc st : ℕ)
      → IsMachine heap (record {
        kernel = record m.kernel {
          saved_a0 = update m.kernel.saved_a0 m.kernel.running (negsuc 1);
          sepc = pc;
          sstatus = st;
        };
        holder = m.holder;
      })
  refused-IsMachine pc st = kept-IsMachine heap m v _ (refl, refl, refl, refl) refl

  pub thread_create_case-Continues :
      (h body arg stack pc st : ℕ)
      → HasRoom heap m.kernel size_of_tcb
      → Continues heap m
          (create h body arg stack)
          (thread_create_case heap m.kernel (regs 0x11 h body arg stack) pc st)
  unfolding leave save_a0
  thread_create_case-Continues h body arg stack pc st room =
      let r = regs 0x11 h body arg stack in
      let Goal : Run → Type 0 = λ x. Continues heap m (create h body arg stack) x in
      elim (Bool-cases (h == null)) [
        | inl e ↦
            subst Goal (sym (thread_create_case-refused heap m.kernel r pc st e))
              (rw e (refused-IsMachine pc st))
        | inr e ↦
            let (b, p, f, n, unheld, o) = object_room heap m v size_of_tcb room in
            let w =
              subst (Made b p body stack arg false) (created_holder body)
                (new_tcb-IsMachine b p body stack arg false n unheld o) in
            subst Goal
              (sym (
                thread_create_case-made heap m.kernel r _ _ p pc st (differs h null e) n
                  (operator_new-got heap m.kernel size_of_tcb b p f) refl))
              (rw e (answered-IsMachine _ h p _ (pos 0) pc st w))
      ]

  pub thread_create_without_start_case-Continues :
      (h body arg stack pc st : ℕ)
      → HasRoom heap m.kernel size_of_tcb
      → Continues heap m
          (create_without_starting h body arg stack)
          (thread_create_without_start_case heap m.kernel (regs 0x14 h body arg stack) pc st)
  unfolding leave save_a0
  thread_create_without_start_case-Continues h body arg stack pc st room =
      let r = regs 0x14 h body arg stack in
      let Goal : Run → Type 0 =
        λ x. Continues heap m (create_without_starting h body arg stack) x in
      elim (Bool-cases (h == null)) [
        | inl e ↦
            subst Goal (sym (thread_create_without_start_case-refused heap m.kernel r pc st e))
              (rw e (refused-IsMachine pc st))
        | inr e ↦
            let (b, p, f, n, unheld, o) = object_room heap m v size_of_tcb room in
            let w =
              subst (Made b p body stack arg true) (left_holder body)
                (new_tcb-IsMachine b p body stack arg true n unheld o) in
            subst Goal
              (sym (
                thread_create_without_start_case-made heap m.kernel r _ _ p pc st (differs h null e)
                  n (operator_new-got heap m.kernel size_of_tcb b p f) refl))
              (rw e (answered-IsMachine _ h p unstarted (pos 0) pc st w))
      ]

  pub thread_start_case-Continues :
      (t pc st : ℕ)
      → m.holder t ≡ unstarted
      → Continues heap m (start t) (thread_start_case heap m.kernel t pc st)
  unfolding thread_start_case start_thread leave save_a0
  thread_start_case-Continues t pc st e =
      let n : t ≢ null = λ z. cc (sym v.null_free ∙ ap m.holder (sym z) ∙ e) in
      rw (ne→== t null n, ne→== m.kernel.running null v.kernel.ready.scheduled.present)
        (kept-IsMachine heap _ (put-IsMachine heap m v t e) _ (refl, refl, refl, refl) refl)
