-- ===== src/Kernel/Machine.antt =====
-- The kernel with its memory: who holds each address that MemoryAllocator has handed out, the code
-- above the kernel (its own), or the kernel for a TCB, a Sem or a node of one of its lists that
-- operator new has made. The nodes come and go in steps of their own, in any number and order: put,
-- get, block and unblock keep their lists of threads and leave the nodes' memory to these steps.
pub mod Holders
pub mod Memory
pub mod Objects
pub mod Creation
pub mod Semaphores
pub mod Scheduling
pub mod Nodes
pub mod Queue
pub mod Histories
pub mod Separation
pub mod Start
pub mod Privilege
mod Tests
use os1_project.Prelude.{
  List, [], ℕ, suc, ◌≡◌, ◌≢◌, ◌⊎◌, Bool, true, false, Option, some, ◌==◌, if◌then◌else◌,
}
use os1_project.Prelude.Int.{ℤ, pos, negsuc, neg_part}
use os1_project.Allocator
use os1_project.Allocator.{HeapBounds, MemoryAllocator, bytes_in_blocks}
use os1_project.Allocator.Release
use os1_project.Allocator.History.{Client, IsOwned}
use os1_project.Kernel.{Ptr, null, Sem, Kernel, update, is_runnable}
use os1_project.Kernel.Semaphore.{to_int}
use os1_project.Kernel.Trap.{Run, user, fault, halted, out_of_fuel, Regs}
use os1_project.Kernel.Trap.Exit.{IsPlace}
use os1_project.Kernel.Trap.Handler.{handle_supervisor_trap, size_of_tcb, size_of_sem}
use os1_project.Kernel.Interface.{
  Request, allocate, free, create, create_without_starting, start, exit, give_up, sem_open,
  sem_close, sem_wait, sem_signal, sem_timedwait, sem_trywait, time_sleep, getc, putc, ecall,
  thread_wrapper_end,
}
use os1_project.Kernel.Interface.Stack.{stack_blocks}
use os1_project.Kernel.Invariant.{IsKernel}
use os1_project.Kernel.Frame.{Threads, is_some}

pub data Holder : Type 0 where
  nobody : Holder
  caller : Holder
  thread : Holder
  unstarted : Holder
  semaphore : Holder
  node : Holder

abbrev pub is_held : Holder → Bool
is_held nobody = false
is_held caller = true
is_held thread = true
is_held unstarted = true
is_held semaphore = true
is_held node = true

abbrev pub is_semaphore : Holder → Bool
is_semaphore nobody = false
is_semaphore caller = false
is_semaphore thread = false
is_semaphore unstarted = false
is_semaphore semaphore = true
is_semaphore node = false

pub record Machine : Type 0 where
  pub kernel : Kernel
  pub holder : Ptr → Holder

-- The address that an allocation gave, if it gave one.
abbrev pub grant : (Ptr → Holder) → Ptr → Holder → Ptr → Holder
grant holder p h = if p == null then holder else update holder p h

abbrev pub address_of : ℤ → Ptr
address_of (pos p) = p
address_of (negsuc n) = null

-- Who holds what behind a call that leaves the kernel `k'`.
abbrev pub held_after : Machine → Request → Kernel → Ptr → Holder
held_after m (allocate n) k' = grant m.holder (address_of (k'.saved_a0 m.kernel.running)) caller
held_after m (free p) k' = update m.holder p nobody
held_after m (create h body arg stack) k' =
    if h == null
    then m.holder
    else update m.holder (k'.words h) (if body == null then unstarted else thread)
held_after m (create_without_starting h body arg stack) k' =
    if h == null then m.holder else update m.holder (k'.words h) unstarted
held_after m (start t) k' = update m.holder t thread
held_after m (sem_open h init) k' =
    if h == null then m.holder else update m.holder (k'.words h) semaphore
held_after m (sem_close h) k' = if h == null then m.holder else update m.holder h nobody
held_after m exit k' = m.holder
held_after m give_up k' = m.holder
held_after m (sem_wait h) k' = m.holder
held_after m (sem_signal h) k' = m.holder
held_after m (sem_timedwait h timeout) k' = m.holder
held_after m (sem_trywait h) k' = m.holder
held_after m (time_sleep time) k' = m.holder
held_after m getc k' = m.holder
held_after m (putc c) k' = m.holder

abbrev pub after : Machine → Request → Kernel → Machine
after m c k' = record { kernel = k'; holder = held_after m c k' }

-- operator new has memory for an object.
abbrev pub HasRoom : HeapBounds → Kernel → ℕ → Type 0
HasRoom heap k size =
    (a : MemoryAllocator) (p : Ptr)
    → Allocator.mem_alloc heap k.allocator (bytes_in_blocks size) ≡ some (a, p)
    → p ≢ null

abbrev pub IsOpen : Machine → Ptr → Type 0
IsOpen m h = (h ≡ null) ⊎ ((h ≢ null) × (m.holder h ≡ semaphore))

-- What the code above the kernel must keep to: it frees what it was given, uses semaphores that are
-- open, starts a thread once, opens none below zero, and asks for objects while there is memory.
abbrev pub Allowed : HeapBounds → Machine → Request → Type 0
Allowed heap m (free p) = m.holder p ≡ caller
Allowed heap m (create h body arg stack) = HasRoom heap m.kernel size_of_tcb
Allowed heap m (create_without_starting h body arg stack) = HasRoom heap m.kernel size_of_tcb
Allowed heap m (start t) = m.holder t ≡ unstarted
Allowed heap m (sem_open h init) = (neg_part (to_int init) ≡ 0) × HasRoom heap m.kernel size_of_sem
Allowed heap m (sem_close h) = IsOpen m h
Allowed heap m (sem_wait h) = IsOpen m h
Allowed heap m (sem_signal h) = IsOpen m h
Allowed heap m (sem_trywait h) = IsOpen m h
Allowed heap m c = Unit

-- A thread that was created without being started can be started.
pub record IsStartable (k : Kernel) (t : Ptr) : Type 0 where
  pub runnable : is_runnable (k.tcbs t) ≡ true
  pub place : IsPlace (k.tcbs t).context

abbrev pub memory : Machine → Client
memory m = record { allocator = m.kernel.allocator; live = λ p. is_held (m.holder p) }

-- The kernel is in order, its memory is, and both agree on what is where.
pub record IsMachine (heap : HeapBounds) (m : Machine) : Type 0 where
  pub on : Ptr → Ptr
  pub kernel : IsKernel on m.kernel
  pub owned : IsOwned heap (memory m)
  pub threads : Threads (λ t. m.holder t ≡ thread) m.kernel
  pub startable : (t : Ptr) → m.holder t ≡ unstarted → IsStartable m.kernel t
  pub semaphores : (h : Ptr) → is_some (m.kernel.sems h) ≡ is_semaphore (m.holder h)
  pub null_free : m.holder null ≡ nobody

-- How a trap may end that an allowed call makes: in the invariant; or, with no other thread to run,
-- at the null context.
abbrev pub Continues : HeapBounds → Machine → Request → Run → Type 0
Continues heap m c (user k') = IsMachine heap (after m c k')
Continues heap m c fault = m.kernel.ready_thread_queue ≡ []
Continues heap m c halted = ⊥
Continues heap m c out_of_fuel = ⊥

-- The thread's own code has run, written to memory of its own, and traps from `pc` with sstatus `st`.
abbrev pub moved : Machine → (Ptr → ℕ) → ℕ → ℕ → Machine
moved m words pc st = record m {
  kernel = record m.kernel { words = words; sepc = pc; sstatus = st };
}

-- A List::Elem is two pointers.
abbrev pub size_of_elem : ℕ
size_of_elem = 16

-- `new Elem` of addLast, where there is memory for it, and `delete elem` of removeFirst.
pub data NodeStep (heap : HeapBounds) (m : Machine) : Machine → Type 0 where
  new_elem :
      {a : MemoryAllocator} (p : Ptr)
      → Allocator.mem_alloc heap m.kernel.allocator (bytes_in_blocks size_of_elem) ≡ some (a, p)
      → p ≢ null
      → NodeStep heap m
          (record { kernel = record m.kernel { allocator = a }; holder = update m.holder p node })
  delete_elem :
      {a : MemoryAllocator} {code : ℤ} (p : Ptr)
      → m.holder p ≡ node
      → Release.mem_free heap m.kernel.allocator p ≡ some (a, code)
      → NodeStep heap m
          (record { kernel = record m.kernel { allocator = a }; holder = update m.holder p nobody })

-- Whatever the code above the kernel does, one trap or one stack after the other, and whatever nodes
-- the kernel's lists take and give back.
pub data Reach (heap : HeapBounds) (m : Machine) : Machine → Type 0 where
  here : Reach heap m m
  call :
      {n : Machine} (c : Request) (fuel input : ℕ) {k' : Kernel}
      → Reach heap m n
      → Allowed heap n c
      → ecall heap (suc fuel) n.kernel c input ≡ user k'
      → Reach heap m (after n c k')
  runs :
      {n : Machine} (words : Ptr → ℕ) (pc st : ℕ)
      → Reach heap m n
      → Reach heap m (moved n words pc st)
  stack :
      {n : Machine} {a : MemoryAllocator} (p : Ptr)
      → Reach heap m n
      → Allocator.mem_alloc heap n.kernel.allocator stack_blocks ≡ some (a, p)
      → Reach heap m
          (record { kernel = record n.kernel { allocator = a }; holder = grant n.holder p caller })
  list_node : {n n' : Machine} → Reach heap m n → NodeStep heap n n' → Reach heap m n'
  body_end :
      {n : Machine} (fuel : ℕ) {k' : Kernel}
      → Reach heap m n
      → thread_wrapper_end heap (suc fuel) n.kernel ≡ user k'
      → Reach heap m (record n { kernel = k' })
  interrupt :
      {n : Machine} (scause fuel input : ℕ) (r : Regs) {k' : Kernel}
      → Reach heap m n
      → scause ≢ 8
      → scause ≢ 9
      → handle_supervisor_trap heap fuel n.kernel scause r input ≡ user k'
      → Reach heap m (record n { kernel = k' })
