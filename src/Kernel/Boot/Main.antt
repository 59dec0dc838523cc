-- ===== src/Kernel/Boot/Main.antt =====
-- What main of src/main.cpp comes to.
use os1_project.Prelude.{
  ◌*◌, ◌≡◌, ◌≢◌, refl, ap, ◌∙◌, false, some, [], ◌∷◌, ◌++◌, ne→==, ==_self, arith,
}
use os1_project.Prelude.Int.{pos}
use os1_project.Allocator
use os1_project.Allocator.{HeapBounds, MemoryAllocator, bytes_in_blocks}
use os1_project.Kernel.{Ptr, null, thread_wrapper, Kernel}
use os1_project.Kernel.Semaphore.{set_sem}
use os1_project.Kernel.Trap.{Run, user}
use os1_project.Kernel.Trap.Handler.{size_of_tcb}
use os1_project.Kernel.Invariant.Blocking.{update_self, update_ne}
use os1_project.Kernel.Interface.{
  create, sem_open, sem_wait, trapped, default_stack_size, with_stack,
}
use os1_project.Kernel.Wrappers.{back, new_semaphore, semaphore_wait, handle_of}
use os1_project.Kernel.Boot.{Program, ecall_system, shut_down, take_node, main_program}
use os1_project.Kernel.Machine.{size_of_elem}
use os1_project.Kernel.Boot.Steps.{
  answered, first_sem, first_thread, opened, created, sem_open_steps, thread_create_steps,
  sem_wait_steps,
}

pub back_user :
    (caller : Ptr) (k : Kernel)
    → k.running ≡ caller
    → back caller (user k) ≡ some (k, k.saved_a0 caller)
unfolding back
back_user caller k e = rw (e, ==_self caller) refl

module _ (heap : HeapBounds) (k : Kernel) where
  with_stack-got :
      (trap : Kernel → Ptr → Run) (body : Ptr) (a : MemoryAllocator) (stack : Ptr)
      → body ≢ null
      → Allocator.mem_alloc heap k.allocator (bytes_in_blocks (default_stack_size * 8))
        ≡ some (a, stack)
      → stack ≢ null
      → with_stack heap k body trap ≡ trapped (trap (record k { allocator = a }) stack)
  unfolding with_stack
  with_stack-got trap body a stack n e z =
      rw (ne→== body null n, e, with_stack, ne→== stack null z) refl

module _ (heap : HeapBounds) (prog : Program) (k : Kernel) where
  -- main, from what its three system calls and the node of the user's thread come to.
  main-steps :
      (k1 k2 k3 : Kernel) (a : MemoryAllocator) (elem : Ptr)
      → ecall_system heap k (sem_open (handle_of prog.sem_at) 1) ≡ user k1
      → k1.running ≡ k.running
      → with_stack heap k1 prog.user_main_wrapper (λ k' stack.
        ecall_system heap k' (create prog.user_thread_at prog.user_main_wrapper prog.sem_at stack))
        ≡ trapped (user k2)
      → k2.running ≡ k.running
      → k2.saved_a0 k.running ≡ pos 0
      → Allocator.mem_alloc heap k2.allocator (bytes_in_blocks size_of_elem) ≡ some (a, elem)
      → elem ≢ null
      → ecall_system heap
          (record k2 { allocator = a })
          (sem_wait (k2.words (handle_of prog.sem_at)))
        ≡ user k3
      → k3.running ≡ k.running
      → main_program heap prog k ≡ shut_down k3
  unfolding main_program new_semaphore semaphore_wait take_node
  main-steps k1 k2 k3 a elem e1 r1 e2 r2 ok en zn e3 r3 =
      rw
        (
          e1,
          back_user k.running k1 r1,
          e2,
          back_user k.running k2 r2,
          ok,
          en,
          ne→== elem null zn,
          e3,
          back_user k.running k3 r3,
        )
        refl

-- A thread that was never run.
pub record IsUnrun (k : Kernel) (t body arg : Ptr) : Type 0 where
  pub at_start : (k.tcbs t).context ≡ thread_wrapper
  pub same_body : (k.tcbs t).body ≡ body
  pub same_arg : (k.tcbs t).arg ≡ arg
  pub unfinished : (k.tcbs t).finished ≡ false

-- If there is memory for its semaphore, for the stack and the thread of the user's program and for the
-- node that queues it, main shuts the machine down while that thread is ready and was never run: the
-- wait on the semaphore, whose value starts at 1, passes at once.
pub main_program-IsUnrun :
    (heap : HeapBounds) (prog : Program) (k : Kernel) (a1 a2 a3 a4 : MemoryAllocator)
    (sem stack t elem : Ptr)
    → Allocator.mem_alloc heap k.allocator 1 ≡ some (a1, sem)
    → Allocator.mem_alloc heap a1 (bytes_in_blocks (default_stack_size * 8)) ≡ some (a2, stack)
    → Allocator.mem_alloc heap a2 (bytes_in_blocks size_of_tcb) ≡ some (a3, t)
    → Allocator.mem_alloc heap a3 (bytes_in_blocks size_of_elem) ≡ some (a4, elem)
    → sem ≢ null
    → stack ≢ null
    → t ≢ null
    → elem ≢ null
    → prog.user_main_wrapper ≢ null
    → prog.user_thread_at ≢ null
    → handle_of prog.sem_at ≢ prog.user_thread_at
    → (k' : Kernel) × (main_program heap prog k ≡ shut_down k')
      × (k'.running ≡ k.running)
      × (k'.ready_thread_queue ≡ k.ready_thread_queue ++ t ∷ [])
      × IsUnrun k' t prog.user_main_wrapper prog.sem_at
main_program-IsUnrun heap prog k a1 a2 a3 a4 sem stack t elem e1 e2 e3 e4 sn kn tn en bn hn apart =
    let at = handle_of prog.sem_at in
    let made = update_self k.tcbs t (first_thread prog.user_main_wrapper prog.sem_at stack) in
    let k1 = opened heap k a1 sem at in
    let k1' = record k1 { allocator = a2 } in
    let k2 = created heap k1' a3 t prog.user_thread_at prog.user_main_wrapper prog.sem_at stack in
    let k2' = record k2 { allocator = a4 } in
    let k3 = answered heap k2' (set_sem k2' sem (record first_sem { value = pos 0 })) (pos 0) in
    (
      k3,
      main-steps heap prog k k1 k2 k3 a4 elem (sem_open_steps heap k a1 sem at e1 sn (omega arith))
          refl
          (with_stack-got heap k1
              (λ k' stack.
                ecall_system heap k'
                  (create prog.user_thread_at prog.user_main_wrapper prog.sem_at stack))
              prog.user_main_wrapper a2 stack bn e2 kn
            ∙ ap trapped (
                thread_create_steps heap k1' a3 t prog.user_thread_at prog.user_main_wrapper
                  prog.sem_at stack e3 tn hn bn))
          refl (update_self k1.saved_a0 k.running (pos 0)) e4 en
          (ap (λ h. ecall_system heap k2' (sem_wait h))
              (update_ne k1.words prog.user_thread_at t at apart ∙ update_self k.words at sem)
            ∙ sem_wait_steps heap k2' sem first_sem sn (update_self k.sems sem (some first_sem))
                refl)
          refl,
      refl,
      refl,
      record {
        at_start = ap (λ x. x.context) made;
        same_body = ap (λ x. x.body) made;
        same_arg = ap (λ x. x.arg) made;
        unfinished = ap (λ x. x.finished) made;
      },
    )
