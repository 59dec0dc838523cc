-- ===== src/Kernel/Machine/Histories.antt =====
-- Every history of the kernel with its memory, and every call behind it.
use os1_project.Prelude.{ℕ, suc, ◌+◌, ◌%◌, ◌^◌, ◌≡◌, refl, sym, ◌∙◌, subst, some}
use mathlib.Core.Option.{some-injective}
use os1_project.Allocator
use os1_project.Allocator.{HeapBounds, MemoryAllocator}
use os1_project.Allocator.History.{IsHeap}
use os1_project.Kernel.{Ptr}
use os1_project.Kernel.Trap.Yield.{UserUntouched, handle_supervisor_trap-Untouched}
use os1_project.Kernel.Interface.{
  Request, allocate, free, create, create_without_starting, start, exit, give_up, sem_open,
  sem_close, sem_wait, sem_signal, sem_timedwait, sem_trywait, time_sleep, getc, putc, ecall,
}
use os1_project.Kernel.Interface.Encoding.{perform, ecall-perform}
use os1_project.Kernel.Interface.Stack.{stack_blocks}
use os1_project.Kernel.Machine.{
  Machine, Allowed, IsMachine, Continues, caller, grant, Reach, here, call, runs, stack, list_node,
  body_end, interrupt,
}
use os1_project.Kernel.Machine.Memory.{
  kept-IsMachine, served-IsMachine, mem_alloc_case-Continues, mem_free_case-Continues,
}
use os1_project.Kernel.Machine.Nodes.{NodeStep-IsMachine}
use os1_project.Kernel.Machine.Creation.{
  thread_create_case-Continues, thread_create_without_start_case-Continues,
  thread_start_case-Continues,
}
use os1_project.Kernel.Machine.Semaphores.{sem_open_case-Continues, sem_close_case-Continues}
use os1_project.Kernel.Machine.Scheduling.{scheduling-Continues, wrapper_end-Continues}

module _ (heap : HeapBounds) (good : IsHeap heap) where
  pub perform-Continues :
      (m : Machine) (c : Request) (fuel input pc st : ℕ)
      → IsMachine heap m
      → Allowed heap m c
      → Continues heap m c (perform heap (suc fuel) m.kernel input pc st c)
  perform-Continues m (allocate n) fuel input pc st v a = mem_alloc_case-Continues heap m v n pc st
  perform-Continues m (free p) fuel input pc st v a =
      mem_free_case-Continues heap m v p pc st good a
  perform-Continues m (create h b r s) fuel input pc st v a =
      thread_create_case-Continues heap m v h b r s pc st a
  perform-Continues m (create_without_starting h b r s) fuel input pc st v a =
      thread_create_without_start_case-Continues heap m v h b r s pc st a
  perform-Continues m (start t) fuel input pc st v a =
      thread_start_case-Continues heap m v t pc st a
  perform-Continues m (sem_open h n) fuel input pc st v (down, room) =
      sem_open_case-Continues heap m v h n pc st down room
  perform-Continues m (sem_close h) fuel input pc st v a =
      sem_close_case-Continues heap m v h (suc fuel) pc st good a
  perform-Continues m exit fuel input pc st v a =
      scheduling-Continues heap m v exit fuel input pc st tt a
  perform-Continues m give_up fuel input pc st v a =
      scheduling-Continues heap m v give_up fuel input pc st tt a
  perform-Continues m (sem_wait h) fuel input pc st v a =
      scheduling-Continues heap m v (sem_wait h) fuel input pc st tt a
  perform-Continues m (sem_signal h) fuel input pc st v a =
      scheduling-Continues heap m v (sem_signal h) fuel input pc st tt a
  perform-Continues m (sem_timedwait h t) fuel input pc st v a =
      scheduling-Continues heap m v (sem_timedwait h t) fuel input pc st tt a
  perform-Continues m (sem_trywait h) fuel input pc st v a =
      scheduling-Continues heap m v (sem_trywait h) fuel input pc st tt a
  perform-Continues m (time_sleep t) fuel input pc st v a =
      scheduling-Continues heap m v (time_sleep t) fuel input pc st tt a
  perform-Continues m getc fuel input pc st v a =
      scheduling-Continues heap m v getc fuel input pc st tt a
  perform-Continues m (putc c) fuel input pc st v a =
      scheduling-Continues heap m v (putc c) fuel input pc st tt a

  -- On a heap above null and below 2 ^ 64, in a kernel with its memory that is in the invariant, and
  -- apart from the memory of the lists' nodes, which NodeStep tells: an allowed call of any kind
  -- ends, with one step of fuel for a switch, in some thread and in the invariant again, with the
  -- holders that the call is to leave; or, if no other thread is ready, at the null context.
  pub ecall-Continues :
      (m : Machine) (c : Request) (fuel input : ℕ)
      → IsMachine heap m
      → Allowed heap m c
      → Continues heap m c (ecall heap (suc fuel) m.kernel c input)
  ecall-Continues m c fuel input v a =
      rw (ecall-perform heap (suc fuel) m.kernel c input)
        (perform-Continues m c fuel input ((m.kernel.sepc + 4) % 2 ^ 64) m.kernel.sstatus v a)

  pub stack-IsMachine :
      (m : Machine) (a : MemoryAllocator) (p : Ptr)
      → IsMachine heap m
      → Allocator.mem_alloc heap m.kernel.allocator stack_blocks ≡ some (a, p)
      → IsMachine heap
          (record { kernel = record m.kernel { allocator = a }; holder = grant m.holder p caller })
  stack-IsMachine m a p v e =
      let (b, q, f, w) =
        served-IsMachine heap m v stack_blocks (λ b q. record m.kernel { allocator = b })
          (λ b q. (refl, refl, refl, refl)) (λ b q. refl) in
      subst
        (λ x. IsMachine heap (record {
          kernel = record m.kernel { allocator = x.0 };
          holder = grant m.holder x.1 caller;
        }))
        (some-injective _ _ (sym f ∙ e)) w

  -- On a heap above null and below 2 ^ 64, from a kernel with its memory in the invariant on,
  -- whatever the code above the kernel does within what is allowed, with stacks, ends of threads
  -- and interrupts in between, and whatever nodes the kernel's lists take, as long as there is memory
  -- for each, and give back between those: scheduler and semaphores are in the kernel's invariant, the
  -- allocator is sound, what it has handed out is exactly what callers, threads, semaphores and nodes
  -- hold, all threads that the scheduler or a semaphore knows are held as threads, and the semaphores
  -- that are there are those that are held as such.
  pub Reach-IsMachine : (m n : Machine) → IsMachine heap m → Reach heap m n → IsMachine heap n
  Reach-IsMachine m n v here = v
  Reach-IsMachine m n v (call {n = n'} c fuel input r a e) =
      subst (Continues heap n' c) e (ecall-Continues n' c fuel input (Reach-IsMachine m n' v r) a)
  Reach-IsMachine m n v (runs {n = n'} words pc st r) =
      kept-IsMachine heap n' (Reach-IsMachine m n' v r) _ (refl, refl, refl, refl) refl
  Reach-IsMachine m n v (stack {n = n'} {a = a} p r e) =
      stack-IsMachine n' a p (Reach-IsMachine m n' v r) e
  Reach-IsMachine m n v (list_node {n = n'} r s) =
      NodeStep-IsMachine heap n' n good (Reach-IsMachine m n' v r) s
  Reach-IsMachine m n v (body_end {n = n'} fuel r e) =
      subst (Continues heap n' give_up) e
        (wrapper_end-Continues heap n' (Reach-IsMachine m n' v r) fuel)
  Reach-IsMachine m n v (interrupt {n = n'} scause fuel input r {k' = k'} h x y e) =
      let u =
        subst (UserUntouched n'.kernel) e
          (handle_supervisor_trap-Untouched heap fuel n'.kernel scause r input x y) in
      kept-IsMachine heap n' (Reach-IsMachine m n' v h) k'
        (u.same_running, u.same_tcbs, u.same_queue, u.same_sems) u.same_allocator
