-- ===== src/Kernel/Boot/Steps.antt =====
-- The system calls that main of src/main.cpp makes, one by one, each when it succeeds.
use os1_project.Prelude.{
  subst, ℕ, ◌+◌, ◌%◌, ◌^◌, ◌≡◌, ◌≢◌, refl, sym, ap, ◌∙◌, Bool, true, false, Option, none, some,
  List, [], ◌∷◌, ◌++◌, ◌==◌, ne→==, ==_self, arith, ◌||◌, not, ◌>>=◌,
}
use os1_project.Prelude.Int.{ℤ, pos, negsuc}
use os1_project.Allocator
use os1_project.Allocator.{HeapBounds, MemoryAllocator, bytes_in_blocks}
use os1_project.Kernel.{
  Ptr, null, thread_wrapper, Tcb, Sem, Kernel, update, default_time_slice, new_tcb, put,
}
use os1_project.Kernel.Invariant.Blocking.{update_self}
use os1_project.Kernel.Semaphore.{to_int, open_sem, wait, returns, set_sem}
use os1_project.Kernel.Trap.{user, leave, save_a0, finish_call}
use os1_project.Kernel.Trap.Making.{operator_new-got, sem_open_case-made, thread_create_case-made}
use os1_project.Kernel.Trap.Handler.{size_of_sem, size_of_tcb}
use os1_project.Kernel.Interface.{create, sem_open, sem_wait, regs}
use os1_project.Kernel.Boot.{ecall_system}
use os1_project.Kernel.Boot.Supervisor.{ecall_system-perform}

abbrev pub first_sem : Sem
first_sem = record {
  value = pos 1;
  deleted = false;
  mutex = pos 1;
  blocked_threads = [];
  mutex_blocked_threads = [];
}

abbrev pub first_thread : Ptr → Ptr → Ptr → Tcb
first_thread body arg stack = record {
  body = body;
  arg = arg;
  stack = stack;
  context = thread_wrapper;
  time_slice = default_time_slice;
  sleep_time = 0;
  finished = false;
  blocked = false;
  asleep = false;
  semaphore_deleted = false;
  system_thread = false;
}

module _ (heap : HeapBounds) (k : Kernel) where
  abbrev pub behind : ℕ
  behind = (k.sepc + 4) % 2 ^ 64

  -- The kernel to which a call goes back that its case leaves as `k'`, with a result.
  abbrev pub answered : Kernel → ℤ → Kernel
  answered k' code = record k' {
    saved_a0 = update k'.saved_a0 k'.running code;
    sepc = behind;
    sstatus = k.sstatus;
  }

  abbrev pub opened : MemoryAllocator → Ptr → Ptr → Kernel
  opened a p at =
      answered
        (record k {
          allocator = a;
          sems = update k.sems p (some first_sem);
          words = update k.words at p;
        })
        (pos 0)

  open_sem-made :
      (a : MemoryAllocator) (p at : Ptr)
      → p ≢ null
      → at ≢ null
      → open_sem (record k { allocator = a }) p at (to_int 1) ≡ (
        record k {
          allocator = a;
          sems = update k.sems p (some first_sem);
          words = update k.words at p;
        },
        pos 0,
      )
  unfolding open_sem to_int
  open_sem-made a p at z n = rw (ne→== p null z, ne→== at null n) refl

  pub sem_open_steps :
      (a : MemoryAllocator) (p at : Ptr)
      → Allocator.mem_alloc heap k.allocator 1 ≡ some (a, p)
      → p ≢ null
      → at ≢ null
      → ecall_system heap k (sem_open at 1) ≡ user (opened a p at)
  unfolding update leave save_a0 bytes_in_blocks
  sem_open_steps a p at e z n =
      ecall_system-perform heap k (sem_open at 1)
      ∙ sem_open_case-made heap k (regs 0x21 at 1 0 0) _ _ p behind k.sstatus n
          (operator_new-got heap k size_of_sem a p e) (open_sem-made a p at z n)
          (subst (λ w. w ≢ null) (sym (update_self k.words at p)) z)
      ∙ refl

  -- The kernel behind a call thread_create that gets the object `p` and has the stack `stack`.
  abbrev pub created : MemoryAllocator → Ptr → Ptr → Ptr → Ptr → Ptr → Kernel
  created a p handle body arg stack =
      answered
        (record k {
          allocator = a;
          tcbs = update k.tcbs p (first_thread body arg stack);
          ready_thread_queue = k.ready_thread_queue ++ p ∷ [];
          words = update k.words handle p;
        })
        (pos 0)

  new_tcb-put :
      (a : MemoryAllocator) (p body arg stack : Ptr)
      → body ≢ null
      → new_tcb (record k { allocator = a }) p body stack arg false ≡ record k {
        allocator = a;
        tcbs = update k.tcbs p (first_thread body arg stack);
        ready_thread_queue = k.ready_thread_queue ++ p ∷ [];
      }
  unfolding new_tcb put
  new_tcb-put a p body arg stack n = rw (ne→== body null n) refl

  pub thread_create_steps :
      (a : MemoryAllocator) (p handle body arg stack : Ptr)
      → Allocator.mem_alloc heap k.allocator (bytes_in_blocks size_of_tcb) ≡ some (a, p)
      → p ≢ null
      → handle ≢ null
      → body ≢ null
      → ecall_system heap k (create handle body arg stack)
        ≡ user (created a p handle body arg stack)
  unfolding leave save_a0
  thread_create_steps a p handle body arg stack e z n bn =
      ecall_system-perform heap k (create handle body arg stack)
      ∙ thread_create_case-made heap k (regs 0x11 handle body arg stack) _ _ p behind k.sstatus n z
          (operator_new-got heap k size_of_tcb a p e) (new_tcb-put a p body arg stack bn)
      ∙ refl

  -- The same for the thread of main, which has neither a function nor a stack.
  abbrev pub created_main : MemoryAllocator → Ptr → Ptr → Kernel
  created_main a p handle =
      answered
        (record k {
          allocator = a;
          tcbs = update k.tcbs p (first_thread null null null);
          words = update k.words handle p;
        })
        (pos 0)

  new_tcb-main :
      (a : MemoryAllocator) (p : Ptr)
      → new_tcb (record k { allocator = a }) p null null null false
        ≡ record k { allocator = a; tcbs = update k.tcbs p (first_thread null null null) }
  unfolding new_tcb
  new_tcb-main a p = refl

  pub main_create_steps :
      (a : MemoryAllocator) (p handle : Ptr)
      → Allocator.mem_alloc heap k.allocator (bytes_in_blocks size_of_tcb) ≡ some (a, p)
      → p ≢ null
      → handle ≢ null
      → ecall_system heap k (create handle null null null) ≡ user (created_main a p handle)
  unfolding leave save_a0
  main_create_steps a p handle e z n =
      ecall_system-perform heap k (create handle null null null)
      ∙ thread_create_case-made heap k (regs 0x11 handle null null null) _ _ p behind k.sstatus n z
          (operator_new-got heap k size_of_tcb a p e) (new_tcb-main a p)
      ∙ refl

  wait-passed :
      (h : Ptr) (s : Sem)
      → h ≢ null
      → k.sems h ≡ some s
      → s.value ≡ pos 1
      → wait k h ≡ returns (set_sem k h (record s { value = pos 0 })) (pos 0)
  unfolding wait os1_project.Prelude.Int.◌-ℤ◌
  wait-passed h s n there one = rw (ne→== h null n, there, one) refl

  pub sem_wait_steps :
      (h : Ptr) (s : Sem)
      → h ≢ null
      → k.sems h ≡ some s
      → s.value ≡ pos 1
      → ecall_system heap k (sem_wait h)
        ≡ user (answered (set_sem k h (record s { value = pos 0 })) (pos 0))
  unfolding finish_call leave save_a0
  sem_wait_steps h s n there one =
      ecall_system-perform heap k (sem_wait h)
      ∙ ap (λ c. finish_call 1 c behind k.sstatus) (wait-passed h s n there one)
      ∙ refl
