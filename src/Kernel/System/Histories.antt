-- ===== src/Kernel/System/Histories.antt =====
-- The invariant of the kernel after every history of system calls and interrupts.
use os1_project.Prelude.{ℕ, suc, ◌+◌, ◌%◌, ◌^◌, subst}
use os1_project.Allocator.{HeapBounds, bytes_in_blocks}
use os1_project.Kernel.{Ptr, Kernel}
use os1_project.Kernel.Trap.{with_finished}
use os1_project.Kernel.Trap.Yield.{UserUntouched, handle_supervisor_trap-Untouched}
use os1_project.Kernel.Invariant.{IsKernel, Goes, SameThreads-IsKernel}
use os1_project.Kernel.Invariant.Stopping.{finished-Goes}
use os1_project.Kernel.Invariant.Objects.{start_thread-IsKernel}
use os1_project.Kernel.Interface.{
  Request, allocate, free, create, create_without_starting, start, exit, give_up, sem_open,
  sem_close, sem_wait, sem_signal, sem_timedwait, sem_trywait, time_sleep, getc, putc, regs, ecall,
  thread_wrapper_end,
}
use os1_project.Kernel.Interface.Encoding.{perform, ecall-perform}
use os1_project.Kernel.System.{IsProper, Step, call, body_end, interrupt, Reach, here, later}
use os1_project.Kernel.System.Requests.{perform-Goes}
use os1_project.Kernel.System.Cases.{
  Keeps, Goes-Keeps, mem_alloc_case-Keeps, mem_free_case-Keeps, thread_start_case-Keeps,
  thread_create_case-Keeps, thread_create_without_start_case-Keeps, sem_open_case-Keeps,
  sem_close_case-Keeps,
}

perform-Keeps :
    (heap : HeapBounds) (on : Ptr → Ptr) (k : Kernel) (c : Request) (fuel input pc st : ℕ)
    → IsKernel on k
    → IsProper heap k c
    → Keeps (perform heap (suc fuel) k input pc st c)
perform-Keeps heap on k (allocate n) fuel input pc st v p =
    mem_alloc_case-Keeps heap on k v pc st (bytes_in_blocks n)
perform-Keeps heap on k (free a) fuel input pc st v p = mem_free_case-Keeps heap on k v pc st a
perform-Keeps heap on k (create h b a s) fuel input pc st v p =
    thread_create_case-Keeps heap on k v pc st (regs 0x11 h b a s) p
perform-Keeps heap on k (create_without_starting h b a s) fuel input pc st v p =
    thread_create_without_start_case-Keeps heap on k v pc st (regs 0x14 h b a s) p
perform-Keeps heap on k (start t) fuel input pc st v (n, r, place) =
    thread_start_case-Keeps heap on k v pc st t (start_thread-IsKernel on k t v n r place)
perform-Keeps heap on k (sem_open h n) fuel input pc st v p =
    sem_open_case-Keeps heap on k v pc st (regs 0x21 h n 0 0) p
perform-Keeps heap on k (sem_close h) fuel input pc st v p =
    sem_close_case-Keeps heap on k h (suc fuel) pc st v p
perform-Keeps heap on k exit fuel input pc st v p =
    Goes-Keeps k _ (perform-Goes heap on k exit fuel input pc st v tt p)
perform-Keeps heap on k give_up fuel input pc st v p =
    Goes-Keeps k _ (perform-Goes heap on k give_up fuel input pc st v tt p)
perform-Keeps heap on k (sem_wait h) fuel input pc st v p =
    Goes-Keeps k _ (perform-Goes heap on k (sem_wait h) fuel input pc st v tt p)
perform-Keeps heap on k (sem_signal h) fuel input pc st v p =
    Goes-Keeps k _ (perform-Goes heap on k (sem_signal h) fuel input pc st v tt p)
perform-Keeps heap on k (sem_timedwait h t) fuel input pc st v p =
    Goes-Keeps k _ (perform-Goes heap on k (sem_timedwait h t) fuel input pc st v tt p)
perform-Keeps heap on k (sem_trywait h) fuel input pc st v p =
    Goes-Keeps k _ (perform-Goes heap on k (sem_trywait h) fuel input pc st v tt p)
perform-Keeps heap on k (time_sleep t) fuel input pc st v p =
    Goes-Keeps k _ (perform-Goes heap on k (time_sleep t) fuel input pc st v tt p)
perform-Keeps heap on k getc fuel input pc st v p =
    Goes-Keeps k _ (perform-Goes heap on k getc fuel input pc st v tt p)
perform-Keeps heap on k (putc c) fuel input pc st v p =
    Goes-Keeps k _ (perform-Goes heap on k (putc c) fuel input pc st v tt p)

ecall-Keeps :
    (heap : HeapBounds) (on : Ptr → Ptr) (k : Kernel) (c : Request) (fuel input : ℕ)
    → IsKernel on k
    → IsProper heap k c
    → Keeps (ecall heap (suc fuel) k c input)
ecall-Keeps heap on k c fuel input v p =
    rw (ecall-perform heap (suc fuel) k c input)
      (perform-Keeps heap on k c fuel input ((k.sepc + 4) % 2 ^ 64) k.sstatus v p)

pub wrapper_end-Goes :
    (heap : HeapBounds) (on : Ptr → Ptr) (k : Kernel) (fuel : ℕ)
    → IsKernel on k
    → Goes k (thread_wrapper_end heap (suc fuel) k)
unfolding thread_wrapper_end
wrapper_end-Goes heap on k fuel v =
    rw (ecall-perform heap (suc fuel) (with_finished k) give_up 0)
      (finished-Goes on k v fuel ((k.sepc + 4) % 2 ^ 64) k.sstatus)

-- An interrupt leaves the threads and semaphores alone.
Step-IsKernel :
    (heap : HeapBounds) (on : Ptr → Ptr) (k k' : Kernel)
    → IsKernel on k
    → Step heap k k'
    → (on' : Ptr → Ptr) × IsKernel on' k'
Step-IsKernel heap on k k' v (call c fuel input p e) =
    subst Keeps e (ecall-Keeps heap on k c fuel input v p)
Step-IsKernel heap on k k' v (body_end fuel e) =
    subst (Goes k) e (wrapper_end-Goes heap on k fuel v)
Step-IsKernel heap on k k' v (interrupt scause fuel input r a b e) =
    let u =
      subst (UserUntouched k) e (handle_supervisor_trap-Untouched heap fuel k scause r input a b) in
    (on, SameThreads-IsKernel on k k' (u.same_running, u.same_tcbs, u.same_queue, u.same_sems) v)

-- From a kernel in the invariant on, after every sequence of proper system calls of the running
-- threads, of ends of their functions, and of interrupts: the running thread is runnable, every ready thread is queued once and
-- is another one, every thread that a semaphore holds is blocked on that semaphore alone, not
-- finished, and there once, and the negative part of a semaphore's value is the number it holds.
pub Reach-IsKernel :
    (heap : HeapBounds) (on : Ptr → Ptr) (k k' : Kernel)
    → IsKernel on k
    → Reach heap k k'
    → (on' : Ptr → Ptr) × IsKernel on' k'
Reach-IsKernel heap on k k' v here = (on, v)
Reach-IsKernel heap on k k' v (later r s) =
    let (on1, w) = Reach-IsKernel heap on k _ v r in Step-IsKernel heap on1 _ k' w s
