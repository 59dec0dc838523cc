-- ===== src/Kernel/Interface.antt =====
-- src/syscall_c.cpp: the C functions that put a call into registers and trap. A function's value is
-- the slot a0 of the calling thread when it goes on.
pub mod Encoding
pub mod Room
pub mod Stack
pub mod Tests
use os1_project.Prelude.{ℕ, ◌+◌, ◌*◌, ◌%◌, ◌^◌, Bool, Option, none, some, ◌==◌, if◌then◌else◌}
use os1_project.Prelude.Int.{ℤ, pos, negsuc}
use os1_project.Allocator
use os1_project.Allocator.{HeapBounds, bytes_in_blocks}
use os1_project.Kernel.{Ptr, null, Kernel}
use os1_project.Kernel.Trap.{Run, Regs, with_finished}
use os1_project.Kernel.Trap.Handler.{handle_supervisor_trap}

-- DEFAULT_STACK_SIZE of lib/hw.h
abbrev pub default_stack_size : ℕ
default_stack_size = 4096

-- The calls, as the functions of the interface have them when they trap.
pub data Request : Type 0 where
  allocate : ℕ → Request
  free : Ptr → Request
  create : Ptr → Ptr → Ptr → Ptr → Request
  create_without_starting : Ptr → Ptr → Ptr → Ptr → Request
  start : Ptr → Request
  exit : Request
  give_up : Request
  sem_open : Ptr → ℕ → Request
  sem_close : Ptr → Request
  sem_wait : Ptr → Request
  sem_signal : Ptr → Request
  sem_timedwait : Ptr → ℕ → Request
  sem_trywait : Ptr → Request
  time_sleep : ℕ → Request
  getc : Request
  putc : ℕ → Request

abbrev pub regs : ℕ → ℕ → ℕ → ℕ → ℕ → Regs
regs code a1 a2 a3 a4 = record { a0 = code; a1 = a1; a2 = a2; a3 = a3; a4 = a4 }

-- A register that a call does not set keeps what it had, here 0.
unfoldable pub encode : Request → Regs
encode (allocate size) = regs 0x01 (bytes_in_blocks size) 0 0 0
encode (free addr) = regs 0x02 addr 0 0 0
encode (create handle start_function arg stack) = regs 0x11 handle start_function arg stack
encode (create_without_starting handle start_function arg stack) =
    regs 0x14 handle start_function arg stack
encode (start handle) = regs 0x15 handle 0 0 0
encode exit = regs 0x12 0 0 0 0
encode give_up = regs 0x13 0 0 0 0
encode (sem_open handle init) = regs 0x21 handle init 0 0
encode (sem_close handle) = regs 0x22 handle 0 0 0
encode (sem_wait handle) = regs 0x23 handle 0 0 0
encode (sem_signal handle) = regs 0x24 handle 0 0 0
encode (sem_timedwait handle timeout) = regs 0x25 handle timeout 0 0
encode (sem_trywait handle) = regs 0x26 handle 0 0 0
encode (time_sleep time) = regs 0x31 time 0 0 0
encode getc = regs 0x41 0 0 0 0
encode (putc c) = regs 0x42 c 0 0 0

-- How a function of the interface ends: in its trap, or before it.
pub data Outcome : Type 0 where
  trapped : Run → Outcome
  returned : Kernel → ℤ → Outcome
  out_of_fuel : Outcome

module _ (heap : HeapBounds) where
  -- ecall, from user mode
  unfoldable pub ecall : ℕ → Kernel → Request → ℕ → Run
  ecall fuel k c input = handle_supervisor_trap heap fuel k 8 (encode c) input

  -- The stack that thread_create takes from MemoryAllocator::mem_alloc itself.
  unfoldable pub with_stack : Kernel → Ptr → (Kernel → Ptr → Run) → Outcome
  with_stack k start_function trap =
      if start_function == null
      then trapped (trap k null)
      else elim (Allocator.mem_alloc heap k.allocator (bytes_in_blocks (default_stack_size * 8))) [
        | none ↦ out_of_fuel
        | some (a, stack) ↦
            let k' = record k { allocator = a } in
            if stack == null then returned k' (negsuc 2) else trapped (trap k' stack)
      ]

  unfoldable pub thread_create : ℕ → Kernel → Ptr → Ptr → Ptr → ℕ → Outcome
  thread_create fuel k handle start_function arg input =
      with_stack k start_function
        λ k' stack. ecall fuel k' (create handle start_function arg stack) input

  unfoldable pub thread_create_without_starting : ℕ → Kernel → Ptr → Ptr → Ptr → ℕ → Outcome
  thread_create_without_starting fuel k handle start_function arg input =
      with_stack k start_function
        λ k' stack. ecall fuel k' (create_without_starting handle start_function arg stack) input

  -- TCB::threadWrapper when the thread's function has returned, in user mode: the thread is finished,
  -- and yields.
  unfoldable pub thread_wrapper_end : ℕ → Kernel → Run
  thread_wrapper_end fuel k = ecall fuel (with_finished k) give_up 0
