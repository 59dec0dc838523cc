-- ===== src/Kernel/Machine/Privilege/Start.antt =====
-- The mode of the processor from the start of src/main.cpp on.
use os1_project.Prelude.{
  ◌+◌, ◌≤◌, ◌≡◌, ◌≢◌, sym, ap, ◌∙◌, subst, inl, inr, Bool, true, none, some, [], ◌==◌, ==_iff,
  ==_self, Bool-cases,
}
use mathlib.Core.Option.{some-injective}
use os1_project.Prelude.Int.{pos}
use os1_project.Allocator.{HeapBounds}
use os1_project.Allocator.History.{IsHeap}
use os1_project.Kernel.{Ptr, null, Kernel}
use os1_project.Kernel.Invariant.Blocking.{update_self, update_ne}
use os1_project.Kernel.Boot.{Program, boot}
use os1_project.Kernel.Boot.Start.{Booted, boot-Booted}
use os1_project.Kernel.Frame.Calls.{differs}
use os1_project.Kernel.Places.Modes.{HasMode, IsGuardedAt}
use os1_project.Kernel.Places.{place_of}
use os1_project.Kernel.Machine.{nobody, thread, Machine}
use os1_project.Kernel.Machine.Start.{started, Booted-IsMachine}
use os1_project.Kernel.Machine.Privilege.{is_tcb, IsPrivileged, Execution}
use os1_project.Kernel.Machine.Privilege.Histories.{IsConfined, Execution-IsConfined}

module _ (heap : HeapBounds) (k k' : Kernel) where
  Booted-IsPrivileged : Booted heap k k' → IsPrivileged k'.running (started k')
  Booted-IsPrivileged b =
      let t = k'.running in
      record {
        guarded = λ u e. elim (Bool-cases (u == t)) [
          | inl same ↦
              subst (λ x. IsGuardedAt t x (place_of (k'.tcbs x))) (sym ((==_iff u t).0 same))
                (b.system ∙ sym (==_self t), subst (HasMode (t == t)) (sym b.context) tt)
          | inr other ↦
              absurd
                (cc (ap is_tcb (sym (update_ne (λ p. nobody) t thread u (differs u t other))) ∙ e))
        ];
        main_held = update_self (λ p. nobody) t thread;
      }

  -- After a start that succeeded, on a heap above null and below 2 ^ 64 with room for main's
  -- thread, from an empty full list and in a machine without threads and semaphores: whatever
  -- the code above the kernel does within what is allowed, in supervisor mode and in user mode,
  -- with every trap's mode in SPP, and whatever nodes the kernel's lists take, as long as there
  -- is memory for each, and give back between those: the processor is in supervisor mode exactly
  -- while main's thread runs.
  pub boot-Execution :
      (prog : Program) (m : Machine) (mode : Bool)
      → IsHeap heap
      → k.allocator.full_head ≡ null
      → heap.heap_start_addr + 152 ≤ heap.heap_end_addr
      → prog.main_thread_at ≢ null
      → k.ready_thread_queue ≡ []
      → ((h : Ptr) → k.sems h ≡ none)
      → boot heap prog k ≡ some (k', pos 0)
      → Execution heap (started k') m mode
      → mode ≡ (m.kernel.running == k'.running)
  boot-Execution prog m mode good e roomy n idle closed e' x =
      let (k1, booted, b1) = boot-Booted heap prog k good.positive roomy e n in
      let same : k1 ≡ k' = ap (λ x. x.0) (some-injective _ _ (sym booted ∙ e')) in
      let b = subst (Booted heap k) same b1 in
      let first : IsConfined heap k'.running (started k') true = record {
        machine = Booted-IsMachine heap k k' good e idle closed b;
        privileged = Booted-IsPrivileged b;
        same_mode = sym (==_self k'.running);
      } in
      let w = Execution-IsConfined heap good k'.running (started k') m mode first x in w.same_mode
