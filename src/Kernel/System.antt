-- ===== src/Kernel/System.antt =====
-- The kernel as a machine: system calls, ends of threads and interrupts, in any order, as
-- src/riscv.cpp takes them.
pub mod Requests
pub mod Cases
pub mod Histories
pub mod Handover
pub mod Abandoned
pub mod Tests
use os1_project.Prelude.{ℕ, suc, ◌≡◌, ◌≢◌, ◌⊎◌, true, Option, some, List}
use os1_project.Prelude.Int.{ℤ, neg_part}
use os1_project.Allocator
use os1_project.Allocator.{HeapBounds, MemoryAllocator, bytes_in_blocks}
use os1_project.Kernel.{Ptr, null, Sem, Kernel, is_runnable}
use os1_project.Kernel.Semaphore.{to_int}
use os1_project.Kernel.Trap.{Run, user, fault, halted, out_of_fuel, Regs}
use os1_project.Kernel.Trap.Exit.{IsPlace}
use os1_project.Kernel.Trap.Handler.{handle_supervisor_trap, size_of_tcb}
use os1_project.Kernel.Interface.{
  Request, allocate, free, create, create_without_starting, start, exit, give_up, sem_open,
  sem_close, sem_wait, sem_signal, sem_timedwait, sem_trywait, time_sleep, getc, putc, ecall,
  thread_wrapper_end,
}
use os1_project.Kernel.Invariant.{IsKernel}
use os1_project.Kernel.Invariant.Objects.{IsNew}

-- A handle that a semaphore call may be given.
abbrev pub IsHandle : Kernel → Ptr → Type 0
IsHandle k h = (h ≡ null) ⊎ ((h ≢ null) × (s : Sem) × (k.sems h ≡ some s))

-- The object that `new TCB` gets, if it gets one, is one that the kernel does not use.
abbrev pub IsFresh : HeapBounds → Kernel → Type 0
IsFresh heap k =
    (a : MemoryAllocator) (p : Ptr)
    → Allocator.mem_alloc heap k.allocator (bytes_in_blocks size_of_tcb) ≡ some (a, p)
    → IsNew k p

-- What the kernel relies on and does not test: handles are null or present, threads are started
-- once, no semaphore starts below zero, and there is memory for a thread's object.
abbrev pub IsProper : HeapBounds → Kernel → Request → Type 0
IsProper heap k (create handle body arg stack) = IsFresh heap k
IsProper heap k (create_without_starting handle body arg stack) = IsFresh heap k
IsProper heap k (start t) = IsNew k t × (is_runnable (k.tcbs t) ≡ true) × IsPlace (k.tcbs t).context
IsProper heap k (sem_open handle init) = neg_part (to_int init) ≡ 0
IsProper heap k (sem_close h) = IsHandle k h
IsProper heap k (sem_wait h) = IsHandle k h
IsProper heap k (sem_signal h) = IsHandle k h
IsProper heap k (sem_trywait h) = IsHandle k h
IsProper heap k c = Unit

-- A trap that returns to a thread: from a system call of the running one, from the end of its
-- function, or from an interrupt.
pub data Step (heap : HeapBounds) (k : Kernel) : Kernel → Type 0 where
  call :
      (c : Request) (fuel input : ℕ) {k' : Kernel}
      → IsProper heap k c
      → ecall heap (suc fuel) k c input ≡ user k'
      → Step heap k k'
  body_end :
      (fuel : ℕ) {k' : Kernel} → thread_wrapper_end heap (suc fuel) k ≡ user k' → Step heap k k'
  interrupt :
      (scause fuel input : ℕ) (r : Regs) {k' : Kernel}
      → scause ≢ 8
      → scause ≢ 9
      → handle_supervisor_trap heap fuel k scause r input ≡ user k'
      → Step heap k k'

pub data Reach (heap : HeapBounds) (k : Kernel) : Kernel → Type 0 where
  here : Reach heap k k
  later : {k' k'' : Kernel} → Reach heap k k' → Step heap k' k'' → Reach heap k k''
