-- ===== src/Kernel/Machine/Privilege/Calls.antt =====
-- Every call, the end of a thread and the stack of a new one, with the mode behind each.
use os1_project.Prelude.{
  ℕ, ◌+◌, ◌%◌, ◌^◌, ◌≡◌, refl, sym, ap, ◌∙◌, subst, inl, inr, Bool, true, false, some, ◌==◌, ne→==,
}
use mathlib.Core.Option.{some-injective}
use os1_project.Allocator
use os1_project.Allocator.{HeapBounds, MemoryAllocator, bytes_in_blocks}
use os1_project.Allocator.History.{IsHeap}
use os1_project.Allocator.History.Grants.{mem_alloc-Served}
use os1_project.Kernel.{Ptr, null, Kernel}
use os1_project.Kernel.Trap.{Run, user, fault, halted, out_of_fuel, with_finished}
use os1_project.Kernel.Interface.{
  Request, allocate, free, create, create_without_starting, start, exit, give_up, sem_open,
  sem_close, sem_wait, sem_signal, sem_timedwait, sem_trywait, time_sleep, getc, putc, ecall,
  thread_wrapper_end,
}
use os1_project.Kernel.Interface.Encoding.{perform, ecall-perform}
use os1_project.Kernel.Interface.Stack.{stack_blocks}
use os1_project.Kernel.Boot.Supervisor.{supervisor-perform}
use os1_project.Kernel.System.Requests.{IsScheduling}
use os1_project.Kernel.Frame.{Threads}
use os1_project.Kernel.Frame.Switches.{with_finished-Confined}
use os1_project.Kernel.Places.Modes.{spp, GuardedRun, thread_dispatch_case-Guarded}
use os1_project.Kernel.Places.Calls.{with_finished-Guarded, perform-Guarded}
use os1_project.Kernel.Machine.{
  nobody, caller, thread, node, Machine, Allowed, IsMachine, grant, memory, size_of_elem, NodeStep,
  new_elem, delete_elem,
}
use os1_project.Kernel.Machine.Holders.{Threads_map, not_held}
use os1_project.Kernel.Machine.Nodes.{new_elem_fresh}
use os1_project.Kernel.Machine.Scheduling.{held_same}
use os1_project.Kernel.Machine.Privilege.{is_tcb, IsTcb, IsPrivileged, PrivilegedRun, trap_from}
use os1_project.Kernel.Machine.Privilege.Cases.{kept-Privileged, renewed-Privileged, not_main}
use os1_project.Kernel.Machine.Privilege.Memory.{
  mem_alloc_case-Privileged, mem_free_case-Privileged, sem_open_case-Privileged,
}
use os1_project.Kernel.Machine.Privilege.Threads.{
  thread_create_case-Privileged, thread_create_without_start_case-Privileged,
  thread_start_case-Privileged, sem_close_case-Privileged,
}

pub trap_from-perform :
    (mode : Bool) (heap : HeapBounds) (fuel : ℕ) (k : Kernel) (c : Request) (input : ℕ)
    → trap_from mode heap fuel k c input
      ≡ perform heap fuel k input ((k.sepc + 4) % 2 ^ 64) k.sstatus c
unfolding ecall
trap_from-perform true heap fuel k c input = supervisor-perform heap fuel k c input
trap_from-perform false heap fuel k c input = ecall-perform heap fuel k c input

module _ (heap : HeapBounds) (main : Ptr) (m : Machine) (v : IsMachine heap m)
    (g : IsPrivileged main m) where
  IsTcb-Threads : Threads (IsTcb m) m.kernel
  IsTcb-Threads =
      Threads_map (λ t. m.holder t ≡ thread) (IsTcb m) m.kernel (λ t e. ap is_tcb e) v.threads

  guarded-Privileged :
      (c : Request) (r : Run)
      → IsScheduling c
      → GuardedRun main (IsTcb m) r
      → PrivilegedRun main m c r
  guarded-Privileged c (user k') i (w, e) = (
    subst (λ f. IsPrivileged main (record { kernel = k'; holder = f }))
        (sym (held_same heap m v c k' i)) (record { guarded = w; main_held = g.main_held }),
    e,
  )
  guarded-Privileged c fault i w = tt
  guarded-Privileged c halted i w = tt
  guarded-Privileged c out_of_fuel i w = tt

  module _ (pc st : ℕ) (mode : spp st ≡ (m.kernel.running == main)) where
    scheduling-Privileged :
        (c : Request) (fuel input : ℕ)
        → IsScheduling c
        → PrivilegedRun main m c (perform heap fuel m.kernel input pc st c)
    scheduling-Privileged c fuel input i = guarded-Privileged c _ i (
        perform-Guarded main (IsTcb m) heap m.kernel c fuel input pc st IsTcb-Threads g.guarded mode
          i)

    pub perform-Privileged :
        (good : IsHeap heap) (c : Request) (fuel input : ℕ)
        → Allowed heap m c
        → PrivilegedRun main m c (perform heap fuel m.kernel input pc st c)
    perform-Privileged good (allocate n) fuel input a =
        mem_alloc_case-Privileged heap main m v g pc st mode n
    perform-Privileged good (free p) fuel input a =
        mem_free_case-Privileged heap main m v g pc st mode p a
    perform-Privileged good (create h b r s) fuel input a =
        thread_create_case-Privileged heap main m v g pc st mode h b r s a
    perform-Privileged good (create_without_starting h b r s) fuel input a =
        thread_create_without_start_case-Privileged heap main m v g pc st mode h b r s a
    perform-Privileged good (start t) fuel input a =
        thread_start_case-Privileged heap main m v g pc st mode t a
    perform-Privileged good (sem_open h n) fuel input (down, room) =
        sem_open_case-Privileged heap main m v g pc st mode h n room
    perform-Privileged good (sem_close h) fuel input a =
        sem_close_case-Privileged heap main m v g pc st mode h fuel good a
    perform-Privileged good exit fuel input a = scheduling-Privileged exit fuel input tt
    perform-Privileged good give_up fuel input a = scheduling-Privileged give_up fuel input tt
    perform-Privileged good (sem_wait h) fuel input a =
        scheduling-Privileged (sem_wait h) fuel input tt
    perform-Privileged good (sem_signal h) fuel input a =
        scheduling-Privileged (sem_signal h) fuel input tt
    perform-Privileged good (sem_timedwait h t) fuel input a =
        scheduling-Privileged (sem_timedwait h t) fuel input tt
    perform-Privileged good (sem_trywait h) fuel input a =
        scheduling-Privileged (sem_trywait h) fuel input tt
    perform-Privileged good (time_sleep t) fuel input a =
        scheduling-Privileged (time_sleep t) fuel input tt
    perform-Privileged good getc fuel input a = scheduling-Privileged getc fuel input tt
    perform-Privileged good (putc c) fuel input a = scheduling-Privileged (putc c) fuel input tt

  -- The end of a thread's function.
  pub wrapper_end-Guarded :
      (fuel : ℕ)
      → spp m.kernel.sstatus ≡ (m.kernel.running == main)
      → GuardedRun main (IsTcb m) (thread_wrapper_end heap fuel m.kernel)
  unfolding thread_wrapper_end
  wrapper_end-Guarded fuel mode =
      let k = m.kernel in
      let ended = with_finished k in
      rw (ecall-perform heap fuel ended give_up 0) (
        thread_dispatch_case-Guarded main (IsTcb m) fuel ended ((k.sepc + 4) % 2 ^ 64) k.sstatus
          (with_finished-Confined (IsTcb m) k IsTcb-Threads).threads
          (with_finished-Guarded main (IsTcb m) k g.guarded) mode)

  pub stack-Privileged :
      (a : MemoryAllocator) (p : Ptr)
      → Allocator.mem_alloc heap m.kernel.allocator stack_blocks ≡ some (a, p)
      → IsPrivileged main
          (record { kernel = record m.kernel { allocator = a }; holder = grant m.holder p caller })
  stack-Privileged a p e = elim (mem_alloc-Served heap (memory m) stack_blocks v.owned) [
    | inl f ↦
        subst
          (λ q. IsPrivileged main (record {
            kernel = record m.kernel { allocator = a };
            holder = grant m.holder q caller;
          }))
          (ap (λ x. x.1) (some-injective _ _ (sym f ∙ e)))
          (kept-Privileged main m g _ (record { same_running = refl; same_place = λ t. refl }))
    | inr (b, q, f, z, unheld, o) ↦
        subst
          (λ q. IsPrivileged main (record {
            kernel = record m.kernel { allocator = a };
            holder = grant m.holder q caller;
          }))
          (ap (λ x. x.1) (some-injective _ _ (sym f ∙ e)))
          (rw (ne→== q null z) (
            renewed-Privileged main m g _ q caller
              (record { same_running = refl; same_place = λ t. refl })
              (not_main main m g q _ (not_held (m.holder q) unheld) (λ y. cc)) (λ y. absurd (cc))))
  ]

-- A list's node that comes or goes is not main's thread.
pub NodeStep-Privileged :
    (heap : HeapBounds) (main : Ptr) (m m' : Machine)
    → IsMachine heap m
    → IsPrivileged main m
    → NodeStep heap m m'
    → IsPrivileged main m'
NodeStep-Privileged heap main m m' v g (new_elem {a = a} p e z) =
    renewed-Privileged main m g _ p node (record { same_running = refl; same_place = λ t. refl })
      (not_main main m g p nobody (new_elem_fresh heap m (bytes_in_blocks size_of_elem) a p v e z)
        (λ y. cc))
      (λ y. absurd (cc))
NodeStep-Privileged heap main m m' v g (delete_elem p held e) =
    renewed-Privileged main m g _ p nobody (record { same_running = refl; same_place = λ t. refl })
      (not_main main m g p node held (λ y. cc)) (λ y. absurd (cc))
