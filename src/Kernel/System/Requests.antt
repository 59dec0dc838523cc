-- ===== src/Kernel/System/Requests.antt =====
-- The semaphore calls, for handles that are null or present, and the other scheduling calls.
use os1_project.Prelude.{ℕ, suc, ◌+◌, ◌%◌, ◌^◌, refl, inl, inr}
use os1_project.Prelude.Int.{pos, negsuc}
use os1_project.Allocator.{HeapBounds}
use os1_project.Kernel.{Ptr, Kernel}
use os1_project.Kernel.Semaphore.{wait, signal, trywait, timedwait}
use os1_project.Kernel.Trap.{finish_call, leave}
use os1_project.Kernel.Invariant.{IsKernel, Goes, SameThreads-IsKernel}
use os1_project.Kernel.Invariant.Stopping.{thread_dispatch_case-Goes, thread_exit_case-Goes}
use os1_project.Kernel.Invariant.Blocking.{wait-Goes, left-Goes}
use os1_project.Kernel.Invariant.Waking.{signal-Goes}
use os1_project.Kernel.Invariant.Objects.{trywait-Goes}
use os1_project.Kernel.Interface.{
  Request, allocate, free, create, create_without_starting, start, exit, give_up, sem_open,
  sem_close, sem_wait, sem_signal, sem_timedwait, sem_trywait, time_sleep, getc, putc, ecall,
}
use os1_project.Kernel.Interface.Encoding.{perform, ecall-perform}
use os1_project.Kernel.System.{IsHandle, IsProper}

module _ (on : Ptr → Ptr) (k : Kernel) (v : IsKernel on k) (h : Ptr) (fuel pc st : ℕ) where
  wait_handle-Goes : IsHandle k h → Goes k (finish_call (suc fuel) (wait k h) pc st)
  unfolding finish_call wait
  wait_handle-Goes (inl z) = rw z (left-Goes on k k (negsuc 0) pc st v)
  wait_handle-Goes (inr (n, s, there)) = wait-Goes on k v h s n there fuel pc st

  signal_handle-Goes : IsHandle k h → Goes k (finish_call (suc fuel) (signal k h) pc st)
  unfolding finish_call signal
  signal_handle-Goes (inl z) = rw z (left-Goes on k k (negsuc 0) pc st v)
  signal_handle-Goes (inr (n, s, there)) = signal-Goes on k v h s n there (suc fuel) pc st

  trywait_handle-Goes : IsHandle k h → Goes k (finish_call (suc fuel) (trywait k h) pc st)
  unfolding finish_call trywait
  trywait_handle-Goes (inl z) = rw z (left-Goes on k k (negsuc 0) pc st v)
  trywait_handle-Goes (inr (n, s, there)) = trywait-Goes on k h s v n there fuel pc st

-- The calls that use neither the allocator nor a thread that the caller names.
abbrev pub IsScheduling : Request → Type 0
IsScheduling exit = Unit
IsScheduling give_up = Unit
IsScheduling (sem_wait h) = Unit
IsScheduling (sem_signal h) = Unit
IsScheduling (sem_timedwait h timeout) = Unit
IsScheduling (sem_trywait h) = Unit
IsScheduling (time_sleep time) = Unit
IsScheduling getc = Unit
IsScheduling (putc c) = Unit
IsScheduling c = ⊥

kept-Goes : (on : Ptr → Ptr) (k k' : Kernel) (pc st : ℕ) → IsKernel on k' → Goes k (leave k' pc st)
unfolding leave
kept-Goes on k k' pc st v = (on, SameThreads-IsKernel on k' _ (refl, refl, refl, refl) v)

pub perform-Goes :
    (heap : HeapBounds) (on : Ptr → Ptr) (k : Kernel) (c : Request) (fuel input pc st : ℕ)
    → IsKernel on k
    → IsScheduling c
    → IsProper heap k c
    → Goes k (perform heap (suc fuel) k input pc st c)
perform-Goes heap on k exit fuel input pc st v i p = thread_exit_case-Goes on k v fuel pc st
perform-Goes heap on k give_up fuel input pc st v i p = thread_dispatch_case-Goes on k v fuel pc st
perform-Goes heap on k (sem_wait h) fuel input pc st v i p = wait_handle-Goes on k v h fuel pc st p
perform-Goes heap on k (sem_signal h) fuel input pc st v i p =
    signal_handle-Goes on k v h fuel pc st p
perform-Goes heap on k (sem_timedwait h timeout) fuel input pc st v i p =
    unfold finish_call timedwait in left-Goes on k k (negsuc 0) pc st v
perform-Goes heap on k (sem_trywait h) fuel input pc st v i p =
    trywait_handle-Goes on k v h fuel pc st p
perform-Goes heap on k (time_sleep time) fuel input pc st v i p = kept-Goes on k k pc st v
perform-Goes heap on k getc fuel input pc st v i p = left-Goes on k k (pos (input % 256)) pc st v
perform-Goes heap on k (putc c) fuel input pc st v i p =
    kept-Goes on k _ pc st (SameThreads-IsKernel on k _ (refl, refl, refl, refl) v)
perform-Goes heap on k (allocate n) fuel input pc st v i p = absurd i
perform-Goes heap on k (free a) fuel input pc st v i p = absurd i
perform-Goes heap on k (create h b a s) fuel input pc st v i p = absurd i
perform-Goes heap on k (create_without_starting h b a s) fuel input pc st v i p = absurd i
perform-Goes heap on k (start t) fuel input pc st v i p = absurd i
perform-Goes heap on k (sem_open h n) fuel input pc st v i p = absurd i
perform-Goes heap on k (sem_close h) fuel input pc st v i p = absurd i

-- The scheduling calls of a thread, in a kernel whose scheduler is in order and whose semaphores
-- count and hold their blocked threads, with a handle that is null or present: the trap ends, with
-- one step of fuel for the switch, in some thread and in such a kernel again; or, if no other thread
-- is ready, at the null context.
pub ecall-Goes :
    (heap : HeapBounds) (on : Ptr → Ptr) (k : Kernel) (c : Request) (fuel input : ℕ)
    → IsKernel on k
    → IsScheduling c
    → IsProper heap k c
    → Goes k (ecall heap (suc fuel) k c input)
ecall-Goes heap on k c fuel input v i p =
    rw (ecall-perform heap (suc fuel) k c input)
      (perform-Goes heap on k c fuel input ((k.sepc + 4) % 2 ^ 64) k.sstatus v i p)
