-- ===== src/Kernel.antt =====
-- The kernel's objects: h/tcb.hpp, src/tcb.cpp, h/scheduler.hpp, src/scheduler.cpp and the part of
-- h/Sem.h that is data. A list of list.hpp stands as the list of its data pointers, in which addLast
-- and removeFirst are the operations; the memory of the nodes, `new Elem` and `delete elem`, comes and
-- goes in the steps of Kernel/Machine.antt (NodeStep) and stays out of the operations here. The object that `new TCB` or `new Sem` makes is at `fresh`.
pub mod Semaphore
pub mod Schedule
pub mod Trap
pub mod Interface
pub mod Invariant
pub mod Frame
pub mod Places
pub mod System
pub mod Machine
pub mod Wrappers
pub mod Boot
pub mod Tests
use os1_project.Prelude.{
  ℕ, ◌+◌, ◌*◌, Bool, true, false, ◌&&◌, not, Option, none, some, List, [], ◌∷◌, ◌++◌, ◌==◌,
  if◌then◌else◌,
}
use os1_project.Prelude.Int.{ℤ, pos, negsuc}
use os1_project.Allocator.{MemoryAllocator}

abbrev pub Ptr : Type 0
Ptr = ℕ

abbrev pub null : Ptr
null = 0

-- Where a thread goes on when contextSwitch loads its context: the `ra` of a Context, with what
-- the interrupted handler keeps in its frame, the locals sepc and sstatus.
pub data Resume : Type 0 where
  thread_wrapper : Resume
  behind_dispatch : ℕ → ℕ → Resume
  behind_exit : ℕ → ℕ → Resume
  behind_block : ℕ → ℕ → Resume

pub record Tcb : Type 0 where
  pub body : Ptr
  pub arg : Ptr
  pub stack : Ptr
  pub context : Resume
  pub time_slice : ℕ
  pub sleep_time : ℕ
  pub finished : Bool
  pub blocked : Bool
  pub asleep : Bool
  pub semaphore_deleted : Bool
  pub system_thread : Bool

pub record Sem : Type 0 where
  pub value : ℤ
  pub deleted : Bool
  pub mutex : ℤ
  pub blocked_threads : List Ptr
  pub mutex_blocked_threads : List Ptr

-- `saved_a0 p` is slot 10 of the register frame of thread `p`; `words` is the memory that handles
-- are written to; `sems` has no object where none was made or it was deleted; `wrapper_ra` is the
-- address in threadWrapper behind its call of popSppSpie; `put_chars` are the calls of __putc,
-- and `console_interrupts` counts those of console_handler, whose own data is the linked library's.
pub record Kernel : Type 0 where
  pub tcbs : Ptr → Tcb
  pub sems : Ptr → Option Sem
  pub words : Ptr → ℕ
  pub saved_a0 : Ptr → ℤ
  pub ready_thread_queue : List Ptr
  pub running : Ptr
  pub time_slice_counter : ℕ
  pub sepc : ℕ
  pub sstatus : ℕ
  pub sip : ℕ
  pub wrapper_ra : ℕ
  pub allocator : MemoryAllocator
  pub put_chars : List ℕ
  pub console_interrupts : ℕ

abbrev pub default_time_slice : ℕ
default_time_slice = 2

unfoldable pub update {ℓ} : {A : Type ℓ} → (Ptr → A) → Ptr → A → Ptr → A
update f p v q = if q == p then v else f q

-- Scheduler::put and Scheduler::get on the list of threads, without the memory of its nodes; `get`
-- answers null on an empty queue.
unfoldable pub put : Kernel → Ptr → Kernel
put k ccb = record k { ready_thread_queue = k.ready_thread_queue ++ ccb ∷ [] }

abbrev pub head_or_null : List Ptr → Ptr
head_or_null [] = null
head_or_null (t ∷ ts) = t

abbrev pub rest : List Ptr → List Ptr
rest [] = []
rest (t ∷ ts) = ts

unfoldable pub get : Kernel → Kernel × Ptr
get k =
    (record k { ready_thread_queue = rest k.ready_thread_queue }, head_or_null k.ready_thread_queue)

-- The constructor, for an object at `fresh`, without the node of its place in the queue.
unfoldable pub new_tcb : Kernel → Ptr → Ptr → Ptr → Ptr → Bool → Kernel
new_tcb k fresh body stack_space arg create_only =
    let t : Tcb = record {
      body = body;
      arg = arg;
      stack = if body == null then null else stack_space;
      context = thread_wrapper;
      time_slice = default_time_slice;
      sleep_time = 0;
      finished = false;
      blocked = false;
      asleep = false;
      semaphore_deleted = false;
      system_thread = false;
    } in
    let made = record k { tcbs = update k.tcbs fresh t } in
    if not (body == null) && not create_only then put made fresh else made

unfoldable pub create_thread : Kernel → Ptr → Ptr → Ptr → Ptr → Kernel × Ptr
create_thread k fresh body stack_space arg = (new_tcb k fresh body stack_space arg false, fresh)

unfoldable pub create_thread_without_starting : Kernel → Ptr → Ptr → Ptr → Ptr → Kernel × Ptr
create_thread_without_starting k fresh body stack_space arg =
    (new_tcb k fresh body stack_space arg true, fresh)

unfoldable pub start_thread : Kernel → Ptr → Kernel × ℤ
start_thread k handle =
    if handle == null
    then (k, negsuc 0)
    else if k.running == null
    then (record k { running = handle }, pos 0)
    else (put k handle, pos 0)

-- What TCB::dispatch comes to: it returns at once, it loads the context of another thread, or it
-- loads a context through a null pointer.
pub data Dispatch : Type 0 where
  returned : Kernel → Dispatch
  switched : Kernel → Resume → Dispatch
  null_context : Dispatch

-- `!old->isFinished() && !old->isBlocked()`
abbrev pub is_runnable : Tcb → Bool
is_runnable t = not t.finished && not t.blocked

-- `here` is where the calling thread is to go on. The node that put takes and that which get gives
-- back are left to NodeStep.
unfoldable pub dispatch : Kernel → Resume → Dispatch
dispatch k here =
    if k.running == null
    then returned k
    else let old = k.running in
      let queued = if is_runnable (k.tcbs old) then put k old else k in
      let (taken, next) = get queued in
      let saved = record taken {
        running = next;
        tcbs = update taken.tcbs old (record (taken.tcbs old) { context = here });
      } in
      if next == null then null_context else switched saved (saved.tcbs next).context
