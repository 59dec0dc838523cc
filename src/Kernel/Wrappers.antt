-- ===== src/Kernel/Wrappers.antt =====
-- src/syscall_cpp.cpp: the classes of the C++ interface over the C functions. An object is at its
-- address; its handle is the word behind the pointer to its virtual functions. `trap` is how the
-- caller's ecall is taken, and `caller` the thread that makes the calls.
use os1_project.Prelude.{ℕ, ◌+◌, Option, none, some, ◌==◌, if◌then◌else◌, ◌>>=◌}
use os1_project.Prelude.Int.{ℤ, negsuc}
use os1_project.Allocator.{HeapBounds}
use os1_project.Kernel.{Ptr, null, Kernel, update}
use os1_project.Kernel.Trap.{Run, user, fault, halted, out_of_fuel}
use os1_project.Kernel.Trap.Handler.{is_zero}
use os1_project.Kernel.Interface.{
  Request, create, create_without_starting, start, give_up, sem_open, sem_close, sem_wait,
  sem_signal, sem_trywait, getc, putc, Outcome, trapped, returned, with_stack,
}
use os1_project.Kernel.Interface

-- What a call gives back to the thread that made it. `none`: another thread goes on instead, or none
-- does, and what the caller does later is not followed.
unfoldable pub back : Ptr → Run → Option (Kernel × ℤ)
back caller (user k) = if k.running == caller then some (k, k.saved_a0 caller) else none
back caller fault = none
back caller halted = none
back caller out_of_fuel = none

abbrev pub back_from : Ptr → Outcome → Option (Kernel × ℤ)
back_from caller (trapped r) = back caller r
back_from caller (returned k code) = some (k, code)
back_from caller Interface.out_of_fuel = none

-- &(this->myHandle), &(this->body), &(this->arg)
abbrev pub handle_of : Ptr → Ptr
handle_of object = object + 8

abbrev pub body_of : Ptr → Ptr
body_of object = object + 16

abbrev pub arg_of : Ptr → Ptr
arg_of object = object + 24

abbrev pub store_word : Kernel → Ptr → ℕ → Kernel
store_word k p w = record k { words = update k.words p w }

module _ (heap : HeapBounds) (trap : Kernel → Request → Run) (caller : Ptr) where
  -- The C functions, for this way to trap.
  abbrev pub thread_create : Kernel → Ptr → Ptr → Ptr → Outcome
  thread_create k handle body arg =
      with_stack heap k body λ k' stack. trap k' (create handle body arg stack)

  abbrev pub thread_create_without_starting : Kernel → Ptr → Ptr → Ptr → Outcome
  thread_create_without_starting k handle body arg =
      with_stack heap k body λ k' stack. trap k' (create_without_starting handle body arg stack)

  -- Thread::Thread (body, arg)
  unfoldable pub new_thread : Kernel → Ptr → Ptr → Ptr → Option Kernel
  new_thread k this body arg =
      back_from caller (thread_create k (handle_of this) body arg) >>= λ (k', code). some (
        if is_zero code
        then store_word (store_word k' (body_of this) body) (arg_of this) arg
        else store_word k' (handle_of this) null)

  -- Thread::Thread (), whose thread runs Thread::runWrapper on the object
  unfoldable pub new_run_thread : Kernel → Ptr → Ptr → Option Kernel
  new_run_thread k this run_wrapper =
      back_from caller (thread_create_without_starting k (handle_of this) run_wrapper this)
      >>= λ (k', code).
          some (store_word (store_word k' (body_of this) run_wrapper) (arg_of this) this)

  -- PeriodicThread::PeriodicThread, which keeps nothing of the period
  unfoldable pub new_periodic_thread : Kernel → Ptr → Ptr → ℕ → Option Kernel
  new_periodic_thread k this run_wrapper period = new_run_thread k this run_wrapper

  -- Thread::start, dispatch and sleep
  unfoldable pub thread_start : Kernel → Ptr → Run
  thread_start k this = trap k (start (k.words (handle_of this)))

  unfoldable pub thread_dispatch : Kernel → Run
  thread_dispatch k = trap k give_up

  abbrev pub thread_sleep : ℕ → ℤ
  thread_sleep time = negsuc 0

  -- Semaphore::Semaphore and ~Semaphore
  unfoldable pub new_semaphore : Kernel → Ptr → ℕ → Option Kernel
  new_semaphore k this init =
      back caller (trap k (sem_open (handle_of this) init)) >>= λ (k', code). some k'

  unfoldable pub delete_semaphore : Kernel → Ptr → Run
  delete_semaphore k this = trap k (sem_close (k.words (handle_of this)))

  -- Semaphore::wait, signal, timedWait and tryWait
  unfoldable pub semaphore_wait : Kernel → Ptr → Run
  semaphore_wait k this = trap k (sem_wait (k.words (handle_of this)))

  unfoldable pub semaphore_signal : Kernel → Ptr → Run
  semaphore_signal k this = trap k (sem_signal (k.words (handle_of this)))

  abbrev pub semaphore_timed_wait : ℕ → ℤ
  semaphore_timed_wait time = negsuc 0

  unfoldable pub semaphore_try_wait : Kernel → Ptr → Run
  semaphore_try_wait k this = trap k (sem_trywait (k.words (handle_of this)))

  -- Console
  unfoldable pub console_putc : Kernel → ℕ → Run
  console_putc k c = trap k (putc c)

  unfoldable pub console_getc : Kernel → Run
  console_getc k = trap k getc
