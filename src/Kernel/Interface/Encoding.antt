-- ===== src/Kernel/Interface/Encoding.antt =====
-- Each call of src/syscall_c.cpp reaches its case in src/riscv.cpp, with its arguments.
use os1_project.Prelude.{ℕ, ◌+◌, ◌%◌, ◌^◌, ◌≡◌, refl, ◌++◌, [], ◌∷◌}
use os1_project.Prelude.Int.{pos}
use os1_project.Allocator.{HeapBounds, bytes_in_blocks}
use os1_project.Kernel.{Kernel}
use os1_project.Kernel.Semaphore.{wait, signal, timedwait, trywait}
use os1_project.Kernel.Trap.{
  Run, save_a0, leave, finish_call, thread_dispatch_case, thread_exit_case,
}
use os1_project.Kernel.Trap.Handler.{
  system_call, handle_supervisor_trap, mem_alloc_case, mem_free_case, thread_create_case,
  thread_create_without_start_case, thread_start_case, sem_open_case, sem_close_case,
}
use os1_project.Kernel.Interface.{
  Request, allocate, free, create, create_without_starting, start, exit, give_up, sem_open,
  sem_close, sem_wait, sem_signal, sem_timedwait, sem_trywait, time_sleep, getc, putc, regs, encode,
  ecall,
}

-- What a call asks for, by its name.
abbrev pub perform : HeapBounds → ℕ → Kernel → ℕ → ℕ → ℕ → Request → Run
perform heap fuel k input pc st (allocate size) = mem_alloc_case heap k (bytes_in_blocks size) pc st
perform heap fuel k input pc st (free addr) = mem_free_case heap k addr pc st
perform heap fuel k input pc st (create handle body arg stack) =
    thread_create_case heap k (regs 0x11 handle body arg stack) pc st
perform heap fuel k input pc st (create_without_starting handle body arg stack) =
    thread_create_without_start_case heap k (regs 0x14 handle body arg stack) pc st
perform heap fuel k input pc st (start handle) = thread_start_case heap k handle pc st
perform heap fuel k input pc st exit = thread_exit_case fuel k pc st
perform heap fuel k input pc st give_up = thread_dispatch_case fuel k pc st
perform heap fuel k input pc st (sem_open handle init) =
    sem_open_case heap k (regs 0x21 handle init 0 0) pc st
perform heap fuel k input pc st (sem_close handle) = sem_close_case heap k handle fuel pc st
perform heap fuel k input pc st (sem_wait handle) = finish_call fuel (wait k handle) pc st
perform heap fuel k input pc st (sem_signal handle) = finish_call fuel (signal k handle) pc st
perform heap fuel k input pc st (sem_timedwait handle timeout) =
    finish_call fuel (timedwait k handle timeout) pc st
perform heap fuel k input pc st (sem_trywait handle) = finish_call fuel (trywait k handle) pc st
perform heap fuel k input pc st (time_sleep time) = leave k pc st
perform heap fuel k input pc st getc = leave (save_a0 k (pos (input % 256))) pc st
perform heap fuel k input pc st (putc c) =
    leave (record k { put_chars = k.put_chars ++ (c % 256) ∷ [] }) pc st

-- The registers of each call select its own case of the handler, which gets the call's arguments and
-- goes on at the instruction behind the ecall with the caller's sstatus.
pub ecall-perform :
    (heap : HeapBounds) (fuel : ℕ) (k : Kernel) (c : Request) (input : ℕ)
    → ecall heap fuel k c input ≡ perform heap fuel k input ((k.sepc + 4) % 2 ^ 64) k.sstatus c
unfolding ecall encode handle_supervisor_trap system_call
ecall-perform heap fuel k (allocate size) input = refl
ecall-perform heap fuel k (free addr) input = refl
ecall-perform heap fuel k (create handle body arg stack) input = refl
ecall-perform heap fuel k (create_without_starting handle body arg stack) input = refl
ecall-perform heap fuel k (start handle) input = refl
ecall-perform heap fuel k exit input = refl
ecall-perform heap fuel k give_up input = refl
ecall-perform heap fuel k (sem_open handle init) input = refl
ecall-perform heap fuel k (sem_close handle) input = refl
ecall-perform heap fuel k (sem_wait handle) input = refl
ecall-perform heap fuel k (sem_signal handle) input = refl
ecall-perform heap fuel k (sem_timedwait handle timeout) input = refl
ecall-perform heap fuel k (sem_trywait handle) input = refl
ecall-perform heap fuel k (time_sleep time) input = refl
ecall-perform heap fuel k getc input = refl
ecall-perform heap fuel k (putc c) input = refl
