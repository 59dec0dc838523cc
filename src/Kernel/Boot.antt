-- ===== src/Kernel/Boot.antt =====
-- The start of src/main.cpp: initMainThread and main, in supervisor mode throughout. The messages
-- that they print, and stvec, are left out.
pub mod Supervisor
pub mod Steps
pub mod Main
pub mod Start
pub mod Tests
use os1_project.Prelude.{
  ℕ, ◌+◌, ◌/◌, ◌*◌, ◌%◌, ◌^◌, Bool, true, Option, none, some, ◌==◌, ◌||◌, not, if◌then◌else◌, ◌>>=◌,
}
use os1_project.Prelude.Int.{ℤ, pos, negsuc}
use os1_project.Allocator
use os1_project.Allocator.{HeapBounds, bytes_in_blocks}
use os1_project.Kernel.{Ptr, null, Kernel, update}
use os1_project.Kernel.Trap.{Run, user, fault, halted, out_of_fuel}
use os1_project.Kernel.Trap.Handler.{handle_supervisor_trap, is_zero}
use os1_project.Kernel.Interface.{Request, encode}
use os1_project.Kernel.Machine.{size_of_elem}
use os1_project.Kernel.Wrappers.{
  back_from, back, thread_create, new_semaphore, delete_semaphore, semaphore_wait,
}

-- Where the variables of initMainThread and main stand, and the function userMainWrapper.
pub record Program : Type 0 where
  pub main_thread_at : Ptr
  pub user_thread_at : Ptr
  pub sem_at : Ptr
  pub user_main_wrapper : Ptr

-- ecall in supervisor mode
unfoldable pub ecall_system : HeapBounds → Kernel → Request → Run
ecall_system heap k c = handle_supervisor_trap heap 1 k 9 (encode c) 0

abbrev pub set_system_thread : Kernel → Ptr → Bool → Kernel
set_system_thread k t value = record k {
  tcbs = update k.tcbs t (record (k.tcbs t) { system_thread = value });
}

unfoldable pub init_main_thread : HeapBounds → Program → Kernel → Option (Kernel × ℤ)
init_main_thread heap prog k =
    let cleared = record k { words = update k.words prog.main_thread_at null } in
    back_from k.running
      (thread_create heap (ecall_system heap) k.running cleared prog.main_thread_at null null)
    >>= λ (k', code).
        let t = k'.words prog.main_thread_at in
        some (
          if not (is_zero code) || t == null
          then (k', negsuc 0)
          else (record (set_system_thread k' t true) { running = t }, pos 0))

-- ms_sstatus(SSTATUS_SIE), bit 1
abbrev pub interrupts_on : Kernel → Kernel
interrupts_on k = record k { sstatus = k.sstatus / 4 * 4 + 2 + k.sstatus % 2 }

-- main up to its own code, for a machine whose memory is as it may be.
unfoldable pub boot : HeapBounds → Program → Kernel → Option (Kernel × ℤ)
boot heap prog k =
    init_main_thread heap prog (record k { allocator = Allocator.init_free_mem heap k.allocator })
    >>= λ (k', code). some (if is_zero code then (interrupts_on k', code) else (k', code))

-- What main comes to: it returns, it shuts the machine down, or it waits while others run.
pub data Ended : Type 0 where
  gave_up : Kernel → ℤ → Ended
  shut_down : Kernel → Ended
  elsewhere : Ended

abbrev pub or_elsewhere : Option Ended → Ended
or_elsewhere none = elsewhere
or_elsewhere (some e) = e

-- `new Elem` of addLast, which does not look at the pointer: without memory it writes through null,
-- which is none here.
unfoldable pub take_node : HeapBounds → Kernel → Option Kernel
take_node heap k = Allocator.mem_alloc heap k.allocator (bytes_in_blocks size_of_elem) >>= λ (a, p).
    if p == null then none else some (record k { allocator = a })

-- main behind the start: the semaphore, the user's thread with its node in the queue, the wait, and
-- the end. userMainWrapper is a function, so that its thread is queued. A fault is `elsewhere`.
unfoldable pub main_program : HeapBounds → Program → Kernel → Ended
main_program heap prog k = or_elsewhere (
    new_semaphore heap (ecall_system heap) k.running k prog.sem_at 1 >>= λ k1.
    back_from k.running (
      thread_create heap (ecall_system heap) k.running k1 prog.user_thread_at prog.user_main_wrapper
        prog.sem_at)
    >>= λ (k2, code).
        if not (is_zero code)
        then (back k.running (delete_semaphore heap (ecall_system heap) k.running k2 prog.sem_at)
            >>= λ (k3, closed). some (gave_up k3 (pos 0)))
        else take_node heap k2 >>= λ k3.
            back k.running (semaphore_wait heap (ecall_system heap) k.running k3 prog.sem_at)
            >>= λ (k4, passed). some (shut_down k4))

-- main from its first line on; without a thread of its own it returns -1.
unfoldable pub start_main : HeapBounds → Program → Kernel → Ended
start_main heap prog k = or_elsewhere (
    boot heap prog k >>= λ (k', code).
    some (if is_zero code then main_program heap prog k' else gave_up k' (negsuc 0)))
