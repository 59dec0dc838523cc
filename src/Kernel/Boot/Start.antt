-- ===== src/Kernel/Boot/Start.antt =====
-- The start of src/main.cpp on a heap of its own, from initFreeMem to the end of main.
use os1_project.Prelude.{
  ◌+◌, ◌≤◌, ◌<◌, ◌≡◌, ◌≢◌, refl, sym, subst, ap, ◌∙◌, true, none, some, [], ◌∷◌, ◌++◌, ne→==, arith,
}
use os1_project.Prelude.Int.{pos}
use mathlib.Core.Option.{some-injective}
use os1_project.Allocator
use os1_project.Allocator.{HeapBounds, MemoryAllocator, bytes_in_blocks, size_of_mem_elem}
use os1_project.Allocator.Untouched.{IsUncut, mem_alloc-IsUncut, init_free_mem-IsUncut}
use os1_project.Kernel.Invariant.{IsKernel}
use os1_project.Kernel.System.{Reach}
use os1_project.Kernel.System.Histories.{Reach-IsKernel}
use os1_project.Kernel.{Ptr, null, thread_wrapper, is_runnable, Kernel, update}
use os1_project.Kernel.Trap.{user}
use os1_project.Kernel.Invariant.Blocking.{update_self}
use os1_project.Kernel.Interface.{create, with_stack}
use os1_project.Kernel.Wrappers.{handle_of}
use os1_project.Kernel.Boot.{
  Program, ecall_system, set_system_thread, interrupts_on, init_main_thread, boot, shut_down,
  main_program, start_main,
}
use os1_project.Kernel.Boot.Steps.{first_thread, created_main, main_create_steps}
use os1_project.Kernel.Boot.Main.{IsUnrun, main_program-IsUnrun, back_user}

-- Where main is behind its start: in a thread of its own, with all else of the heap free.
pub record Booted (heap : HeapBounds) (k k' : Kernel) : Type 0 where
  pub running : k'.running ≡ heap.heap_start_addr + 24
  pub queue : k'.ready_thread_queue ≡ k.ready_thread_queue
  pub system : (k'.tcbs k'.running).system_thread ≡ true
  pub context : (k'.tcbs k'.running).context ≡ thread_wrapper
  pub runnable : is_runnable (k'.tcbs k'.running) ≡ true
  pub same_sems : k'.sems ≡ k.sems
  pub uncut : IsUncut heap k'.allocator (heap.heap_start_addr + 128)
  pub allocated :
      Allocator.mem_alloc heap (Allocator.init_free_mem heap k.allocator) 1
      ≡ some (k'.allocator, k'.running)

module _ (heap : HeapBounds) (prog : Program) (k : Kernel) where
  init_main_thread-steps :
      (k1 : Kernel) (t : Ptr)
      → ecall_system heap
          (record k { words = update k.words prog.main_thread_at null })
          (create prog.main_thread_at null null null)
        ≡ user k1
      → k1.running ≡ k.running
      → k1.saved_a0 k.running ≡ pos 0
      → k1.words prog.main_thread_at ≡ t
      → t ≢ null
      → init_main_thread heap prog k
        ≡ some (record (set_system_thread k1 t true) { running = t }, pos 0)
  unfolding init_main_thread with_stack
  init_main_thread-steps k1 t e r ok w n =
      rw (e, back_user k.running k1 r, ok, w, ne→== t null n) refl

-- On a heap with room for main's thread, from an empty full list: the start succeeds, main runs in
-- the first block of the heap, in a runnable system thread that is not queued, and all memory behind
-- that block is one free block.
pub boot-Booted :
    (heap : HeapBounds) (prog : Program) (k : Kernel)
    → 0 < heap.heap_start_addr
    → heap.heap_start_addr + 152 ≤ heap.heap_end_addr
    → k.allocator.full_head ≡ null
    → prog.main_thread_at ≢ null
    → (k' : Kernel) × (boot heap prog k ≡ some (k', pos 0)) × Booted heap k k'
unfolding boot bytes_in_blocks
boot-Booted heap prog k positive roomy e n =
    let lo = heap.heap_start_addr in
    let u = init_free_mem-IsUncut heap k.allocator positive (omega (arith, roomy)) e in
    let k0 = record k {
      allocator = Allocator.init_free_mem heap k.allocator;
      words = update k.words prog.main_thread_at null;
    } in
    let (a, got, left) =
      mem_alloc-IsUncut heap k0.allocator lo 1 (lo + 128) u (omega arith) (omega arith)
        (omega (arith, roomy)) in
    let t = lo + 24 in
    let k1 = created_main heap k0 a t prog.main_thread_at in
    let k2 = record (set_system_thread k1 t true) { running = t } in
    let steps =
      init_main_thread-steps heap prog (record k { allocator = k0.allocator }) k1 t
        (main_create_steps heap k0 a t prog.main_thread_at got (omega arith) n) refl
        (update_self k0.saved_a0 k.running (pos 0)) (update_self k0.words prog.main_thread_at t)
        (omega arith) in
    (
      interrupts_on k2,
      rw steps refl,
      record {
        running = refl;
        queue = refl;
        system =
            ap (λ x. x.system_thread)
              (update_self k1.tcbs t (record (k1.tcbs t) { system_thread = true }));
        context =
            ap (λ x. x.context)
              (update_self k1.tcbs t (record (k1.tcbs t) { system_thread = true }))
            ∙ ap (λ x. x.context) (update_self k.tcbs t (first_thread null null null));
        runnable =
            ap is_runnable (update_self k1.tcbs t (record (k1.tcbs t) { system_thread = true }))
            ∙ ap is_runnable (update_self k.tcbs t (first_thread null null null));
        same_sems = refl;
        uncut = left;
        allocated = got;
      },
    )

pub Booted-IsKernel :
    (heap : HeapBounds) (k k' : Kernel)
    → k.ready_thread_queue ≡ []
    → ((h : Ptr) → k.sems h ≡ none)
    → Booted heap k k'
    → IsKernel (λ t. null) k'
Booted-IsKernel heap k k' idle closed b = record {
  ready = record {
    scheduled = record {
      present = rw b.running (omega arith);
      runnable = b.runnable;
      queue = rw (b.queue, idle) (record { waiting = tt; once = tt });
    };
    places = rw (b.queue, idle) tt;
  };
  semaphores = λ h s there.
      let gone : k'.sems h ≡ none = ap (λ f. f h) b.same_sems ∙ closed h in absurd (cc);
}

-- After a start that succeeded, in a machine that had no threads and no semaphores, on a heap with
-- room for main's thread: whatever system calls, ends of threads and interrupts come then, as long as
-- the calls are proper, scheduler and semaphores are in the kernel's invariant.
pub boot-Reach :
    (heap : HeapBounds) (prog : Program) (k k' k'' : Kernel)
    → 0 < heap.heap_start_addr
    → heap.heap_start_addr + 152 ≤ heap.heap_end_addr
    → k.allocator.full_head ≡ null
    → prog.main_thread_at ≢ null
    → k.ready_thread_queue ≡ []
    → ((h : Ptr) → k.sems h ≡ none)
    → boot heap prog k ≡ some (k', pos 0)
    → Reach heap k' k''
    → (on : Ptr → Ptr) × IsKernel on k''
boot-Reach heap prog k k' k'' positive roomy e n idle closed started r =
    let (k1, started1, b) = boot-Booted heap prog k positive roomy e n in
    let same : k1 ≡ k' = ap (λ x. x.0) (some-injective _ _ (sym started1 ∙ started)) in
    let v = Booted-IsKernel heap k k' idle closed (subst (Booted heap k) same b) in
    Reach-IsKernel heap (λ t. null) k' k'' v r

start_main-boot :
    (heap : HeapBounds) (prog : Program) (k k' : Kernel)
    → boot heap prog k ≡ some (k', pos 0)
    → start_main heap prog k ≡ main_program heap prog k'
unfolding start_main main_program
start_main-boot heap prog k k' e = rw e refl

-- On a heap with room for what main allocates, the node that queues the user's thread included: main
-- gets a thread of its own, makes its semaphore and the thread of the user's program, and shuts the machine down while that thread is the last
-- in the queue and was never run.
pub start_main-IsUnrun :
    (heap : HeapBounds) (prog : Program) (k : Kernel)
    → 0 < heap.heap_start_addr
    → heap.heap_start_addr + 33368 ≤ heap.heap_end_addr
    → k.allocator.full_head ≡ null
    → prog.main_thread_at ≢ null
    → prog.user_main_wrapper ≢ null
    → prog.user_thread_at ≢ null
    → handle_of prog.sem_at ≢ prog.user_thread_at
    → (k' : Kernel) × (t : Ptr) × (start_main heap prog k ≡ shut_down k')
      × (k'.running ≡ heap.heap_start_addr + 24)
      × (k'.ready_thread_queue ≡ k.ready_thread_queue ++ t ∷ [])
      × IsUnrun k' t prog.user_main_wrapper prog.sem_at
unfolding bytes_in_blocks
start_main-IsUnrun heap prog k positive roomy e mn bn hn apart =
    let lo = heap.heap_start_addr in
    let (k1, started, b) = boot-Booted heap prog k positive (omega (arith, roomy)) e mn in
    let (a1, e1, u1) =
      mem_alloc-IsUncut heap k1.allocator (lo + 128) 1 (lo + 256) b.uncut (omega arith)
        (omega arith) (omega (arith, roomy)) in
    let (a2, e2, u2) =
      mem_alloc-IsUncut heap a1 (lo + 256) 512 (lo + 33088) u1 (omega arith) (omega arith)
        (omega (arith, roomy)) in
    let (a3, e3, u3) =
      mem_alloc-IsUncut heap a2 (lo + 33088) 1 (lo + 33216) u2 (omega arith) (omega arith)
        (omega (arith, roomy)) in
    let (a4, e4, u4) =
      mem_alloc-IsUncut heap a3 (lo + 33216) 1 (lo + 33344) u3 (omega arith) (omega arith)
        (omega (arith, roomy)) in
    let t = lo + 33088 + 24 in
    let (k', ends, at, queue, unrun) =
      main_program-IsUnrun heap prog k1 a1 a2 a3 a4 (lo + 128 + 24) (lo + 256 + 24) t
        (lo + 33216 + 24) e1 e2 e3 e4 (omega arith) (omega arith) (omega arith) (omega arith) bn hn
        apart in
    (
      k',
      t,
      start_main-boot heap prog k k1 started ∙ ends,
      at ∙ b.running,
      queue ∙ ap (λ q. q ++ t ∷ []) b.queue,
      unrun,
    )
