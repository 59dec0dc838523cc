-- ===== src/Kernel/Tests.antt =====
-- Runs of the kernel with two threads and a semaphore.
use os1_project.Prelude.{
  ◌≡◌, ◌≢◌, ◌⊎◌, refl, true, false, some, none, [], ◌∷◌, arith, All, ◌==◌, if◌then◌else◌,
}
use os1_project.Prelude.Int.{pos, negsuc}
use os1_project.Allocator.{MemoryAllocator, HeapBounds}
use os1_project.Kernel.{Ptr, behind_dispatch, Tcb, Sem, Kernel, default_time_slice}
use os1_project.Kernel.Schedule.{IsScheduled, Switched, dispatch-Switched}
use os1_project.Kernel.Semaphore.{Call, returns, wait, trywait, signal, close}
use os1_project.Kernel.Semaphore.Counting.{IsCounted, Waited, wait-Waited}
use os1_project.Kernel.Semaphore.Waking.{Signalled, signal-Signalled}
use os1_project.Kernel.Semaphore.Closing.{IsLetGo, close_total, close-LetGo}
use os1_project.Kernel.Semaphore.Trying.{trywait-wait}
use os1_project.Kernel.Trap.{user, thread_exit_case}
use os1_project.Kernel.Trap.Handler.{handle_supervisor_trap}
use os1_project.Kernel.Trap.Yield.{UserUntouched, handle_supervisor_trap-Untouched}
use os1_project.Kernel.Trap.Exit.{Exited, thread_exit_case-Exited}

abbrev pub heap : HeapBounds
heap = record { heap_start_addr = 64; heap_end_addr = 4160 }

abbrev empty_allocator : MemoryAllocator
empty_allocator = record {
  cells = λ p. record { next = 0; prev = 0; size = 0 };
  free_head = 0;
  full_head = 0;
}

abbrev yielded_thread : Tcb
yielded_thread = record {
  body = 8;
  arg = 0;
  stack = 16;
  context = behind_dispatch 500 32;
  time_slice = default_time_slice;
  sleep_time = 0;
  finished = false;
  blocked = false;
  asleep = false;
  semaphore_deleted = false;
  system_thread = false;
}

-- The thread 1300 is blocked on the semaphore 2000, and no other thread is.
abbrev pub threads : Ptr → Tcb
threads p = if p == 1300 then record yielded_thread { blocked = true } else yielded_thread

abbrev pub mutex : Sem
mutex = record {
  value = negsuc 0;
  deleted = false;
  mutex = pos 1;
  blocked_threads = 1300 ∷ [];
  mutex_blocked_threads = [];
}

-- The thread 1100 runs, and 1200 is ready.
abbrev pub two_threads : Kernel
two_threads = record {
  tcbs = threads;
  sems = λ p. if p == 2000 then some mutex else none;
  words = λ p. 0;
  saved_a0 = λ p. pos 0;
  ready_thread_queue = 1200 ∷ [];
  running = 1100;
  time_slice_counter = 0;
  sepc = 96;
  sstatus = 32;
  sip = 2;
  wrapper_ra = 700;
  allocator = empty_allocator;
  put_chars = [];
  console_interrupts = 0;
}

two_threads-IsScheduled : IsScheduled two_threads
two_threads-IsScheduled = record {
  present = omega arith;
  runnable = refl;
  queue = record { waiting = ((omega arith, refl, omega arith), tt); once = (tt, tt) };
}

mutex-IsCounted : IsCounted two_threads mutex
mutex-IsCounted = record { count = refl; held = ((omega arith, refl), tt); once = (tt, tt) }

dispatch-Switched_example : Switched two_threads (behind_dispatch 100 32) (1200 ∷ 1100 ∷ [])
dispatch-Switched_example =
    dispatch-Switched two_threads (behind_dispatch 100 32) (omega arith)
      two_threads-IsScheduled.queue

wait-Waited_example : Waited two_threads 2000 mutex (wait two_threads 2000)
wait-Waited_example =
    wait-Waited two_threads 2000 mutex (omega arith) refl mutex-IsCounted (omega arith) refl

signal-Signalled_example : Signalled two_threads 2000 mutex (1300 ∷ []) (signal two_threads 2000)
signal-Signalled_example =
    signal-Signalled two_threads 2000 mutex (omega arith) refl mutex-IsCounted

trywait-wait_example :
    ((mutex.value ≡ pos 1) × (trywait two_threads 2000 ≡ wait two_threads 2000))
    ⊎ ((mutex.value ≢ pos 1) × (trywait two_threads 2000 ≡ returns two_threads (pos 1)))
trywait-wait_example = trywait-wait two_threads 2000 mutex (omega arith) refl

close_total_example : (c : Call) × (close two_threads 2000 ≡ some c)
close_total_example = close_total two_threads 2000

close-LetGo_example :
    (k' : Kernel) × (close two_threads 2000 ≡ some (returns k' (pos 0)))
    × (k'.sems 2000 ≡ none)
    × (k'.ready_thread_queue ≡ 1200 ∷ 1300 ∷ [])
    × All (IsLetGo k') (1300 ∷ [])
    × ((u : Ptr) → All (λ t. u ≢ t) (1300 ∷ []) → k'.tcbs u ≡ two_threads.tcbs u)
close-LetGo_example = close-LetGo two_threads 2000 mutex (omega arith) refl mutex-IsCounted

thread_exit_case-Exited_example :
    (k' : Kernel) × (thread_exit_case 1 two_threads 100 32 ≡ user k')
    × Exited two_threads 1200 [] k'
thread_exit_case-Exited_example =
    thread_exit_case-Exited 0 two_threads 1200 [] 100 32 two_threads-IsScheduled refl tt

handle_supervisor_trap-Untouched_example : UserUntouched two_threads (
    handle_supervisor_trap heap 1 two_threads 0x8000000000000001
      (record { a0 = 1; a1 = 2; a2 = 0; a3 = 0; a4 = 0 })
      0)
handle_supervisor_trap-Untouched_example =
    handle_supervisor_trap-Untouched heap 1 two_threads 0x8000000000000001
      (record { a0 = 1; a1 = 2; a2 = 0; a3 = 0; a4 = 0 }) 0 (omega arith) (omega arith)
