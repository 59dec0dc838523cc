-- ===== src/Kernel/Machine/Start.antt =====
-- The kernel with its memory from the start of src/main.cpp on.
use os1_project.Prelude.{
  ◌+◌, ◌≤◌, ◌≡◌, ◌≢◌, refl, sym, ap, ◌∙◌, subst, inl, inr, true, false, none, some, [], arith,
}
use os1_project.Prelude.Int.{pos}
use mathlib.Core.Option.{some-injective}
use os1_project.Allocator.{HeapBounds}
use os1_project.Allocator.History.{set_live, initial, IsOwned, IsHeap}
use os1_project.Allocator.History.Steps.{initial-IsOwned}
use os1_project.Allocator.History.Grants.{mem_alloc-Served}
use os1_project.Kernel.{Ptr, null, Kernel, update}
use os1_project.Kernel.Invariant.Blocking.{update_self, update_ne}
use os1_project.Kernel.Boot.{Program, boot}
use os1_project.Kernel.Boot.Start.{Booted, boot-Booted, Booted-IsKernel}
use os1_project.Kernel.Frame.{is_some}
use os1_project.Kernel.Machine.{
  Holder, nobody, thread, unstarted, is_semaphore, Machine, IsMachine, Reach,
}
use os1_project.Kernel.Machine.Holders.{updated-IsOwned, update_agrees, update_back}
use os1_project.Kernel.Machine.Histories.{Reach-IsMachine}

-- Behind the start only the running thread's object is held.
abbrev pub started : Kernel → Machine
started k = record { kernel = k; holder = update (λ p. nobody) k.running thread }

module _ (heap : HeapBounds) (k k' : Kernel) (good : IsHeap heap)
    (e : k.allocator.full_head ≡ null) where
  Booted-IsOwned :
      Booted heap k k'
      → IsOwned heap
          (record { allocator = k'.allocator; live = set_live (λ p. false) k'.running true })
  Booted-IsOwned b =
      elim (mem_alloc-Served heap (initial heap k.allocator) 1
        (initial-IsOwned heap k.allocator good e)) [
          | inl f ↦
              let same = ap (λ x. x.1) (some-injective _ _ (sym f ∙ b.allocated)) in
              absurd (omega (arith, same, b.running))
          | inr (a, p, f, n, unheld, o) ↦
              subst
                (λ x.
                  IsOwned heap (record { allocator = x.0; live = set_live (λ q. false) x.1 true }))
                (some-injective _ _ (sym f ∙ b.allocated)) o
        ]

  pub Booted-IsMachine :
      k.ready_thread_queue ≡ []
      → ((h : Ptr) → k.sems h ≡ none)
      → Booted heap k k'
      → IsMachine heap (started k')
  Booted-IsMachine idle closed b =
      let t = k'.running in
      let none_held : Ptr → Holder = λ p. nobody in
      let gone : (h : Ptr) → k'.sems h ≡ none = λ h. ap (λ f. f h) b.same_sems ∙ closed h in
      record {
        on = λ t. null;
        kernel = Booted-IsKernel heap k k' idle closed b;
        owned = updated-IsOwned heap k'.allocator none_held t thread (Booted-IsOwned b);
        threads = record {
          running = update_self none_held t thread;
          ready = rw (b.queue, idle) tt;
          blocked = λ h s there. absurd (cc (sym (gone h) ∙ there));
        };
        startable = λ u f. absurd (cc (update_back none_held t thread unstarted u f (λ g. cc)));
        semaphores =
            λ h. ap is_some (gone h) ∙ sym (update_agrees is_semaphore none_held t thread refl h);
        null_free = update_ne none_held t thread null (λ z. omega (arith, z, b.running));
      }

  -- After a start that succeeded, on a heap above null and below 2 ^ 64 with room for main's
  -- thread, from an empty full list and in a machine without threads and semaphores: wherever
  -- the allowed actions of the code above the kernel lead, with whatever nodes the kernel's lists
  -- take, as long as there is memory for each, and give back between those, the kernel with its
  -- memory is in its invariant.
  pub boot-IsMachine :
      (prog : Program) (m : Machine)
      → heap.heap_start_addr + 152 ≤ heap.heap_end_addr
      → prog.main_thread_at ≢ null
      → k.ready_thread_queue ≡ []
      → ((h : Ptr) → k.sems h ≡ none)
      → boot heap prog k ≡ some (k', pos 0)
      → Reach heap (started k') m
      → IsMachine heap m
  boot-IsMachine prog m roomy n idle closed e' r =
      let (k1, booted, b) = boot-Booted heap prog k good.positive roomy e n in
      let same : k1 ≡ k' = ap (λ x. x.0) (some-injective _ _ (sym booted ∙ e')) in
      let v = Booted-IsMachine idle closed (subst (Booted heap k) same b) in
      Reach-IsMachine heap good (started k') m v r
