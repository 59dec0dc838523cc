-- ===== src/Kernel/Boot/Supervisor.antt =====
-- ecall from supervisor mode, as main of src/main.cpp makes it: scause 9 is taken as 8 is.
use os1_project.Prelude.{ℕ, ◌+◌, ◌%◌, ◌^◌, ◌≡◌, refl}
use os1_project.Allocator.{HeapBounds}
use os1_project.Kernel.{Kernel}
use os1_project.Kernel.Trap.Handler.{handle_supervisor_trap, system_call}
use os1_project.Kernel.Interface.{
  Request, allocate, free, create, create_without_starting, start, exit, give_up, sem_open,
  sem_close, sem_wait, sem_signal, sem_timedwait, sem_trywait, time_sleep, getc, putc, encode,
}
use os1_project.Kernel.Interface.Encoding.{perform}
use os1_project.Kernel.Boot.{ecall_system}

-- In supervisor mode the calls go to the same cases.
pub supervisor-perform :
    (heap : HeapBounds) (fuel : ℕ) (k : Kernel) (c : Request) (input : ℕ)
    → handle_supervisor_trap heap fuel k 9 (encode c) input
      ≡ perform heap fuel k input ((k.sepc + 4) % 2 ^ 64) k.sstatus c
unfolding encode handle_supervisor_trap system_call
supervisor-perform heap fuel k (allocate size) input = refl
supervisor-perform heap fuel k (free addr) input = refl
supervisor-perform heap fuel k (create handle body arg stack) input = refl
supervisor-perform heap fuel k (create_without_starting handle body arg stack) input = refl
supervisor-perform heap fuel k (start handle) input = refl
supervisor-perform heap fuel k exit input = refl
supervisor-perform heap fuel k give_up input = refl
supervisor-perform heap fuel k (sem_open handle init) input = refl
supervisor-perform heap fuel k (sem_close handle) input = refl
supervisor-perform heap fuel k (sem_wait handle) input = refl
supervisor-perform heap fuel k (sem_signal handle) input = refl
supervisor-perform heap fuel k (sem_timedwait handle timeout) input = refl
supervisor-perform heap fuel k (sem_trywait handle) input = refl
supervisor-perform heap fuel k (time_sleep time) input = refl
supervisor-perform heap fuel k getc input = refl
supervisor-perform heap fuel k (putc c) input = refl

pub ecall_system-perform :
    (heap : HeapBounds) (k : Kernel) (c : Request)
    → ecall_system heap k c ≡ perform heap 1 k 0 ((k.sepc + 4) % 2 ^ 64) k.sstatus c
unfolding ecall_system
ecall_system-perform heap k c = supervisor-perform heap 1 k c 0
