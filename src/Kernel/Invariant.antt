-- ===== src/Kernel/Invariant.antt =====
-- What holds of the whole kernel between two system calls: scheduler and semaphores together.
pub mod Switch
pub mod Stopping
pub mod Blocking
pub mod Waking
pub mod Objects
pub mod Rotation
use os1_project.Prelude.{
  ℕ, ◌≡◌, ◌≢◌, refl, Bool, true, false, Option, some, List, [], All, length, sym,
}
use os1_project.Prelude.Int.{neg_part}
use os1_project.Kernel.{Ptr, null, Tcb, Sem, Kernel}
use os1_project.Kernel.Schedule.{Distinct, IsScheduled, All-map_with}
use os1_project.Kernel.Semaphore.Counting.{IsHeld, IsCounted}
use os1_project.Kernel.Trap.{Run, user, fault, halted, out_of_fuel}
use os1_project.Kernel.Trap.Exit.{IsPlace, SameThreads, SameThreads-IsScheduled}

-- A thread that is blocked on the semaphore `h`; `on` names the semaphore of each blocked thread.
abbrev pub IsBlockedOn : (Ptr → Ptr) → (Ptr → Tcb) → Ptr → Ptr → Type 0
IsBlockedOn on tcbs h t =
    (t ≢ null)
    × ((tcbs t).blocked ≡ true)
    × ((tcbs t).finished ≡ false)
    × IsPlace (tcbs t).context
    × (on t ≡ h)

pub record IsSemaphore (on : Ptr → Ptr) (tcbs : Ptr → Tcb) (h : Ptr) (s : Sem) : Type 0 where
  pub count : neg_part s.value ≡ length s.blocked_threads
  pub held : All (IsBlockedOn on tcbs h) s.blocked_threads
  pub once : Distinct s.blocked_threads

-- Every semaphore but the one at `h`.
abbrev pub OthersValid : (Ptr → Ptr) → Kernel → Ptr → Type 0
OthersValid on k h = (h' : Ptr) (s : Sem) → h' ≢ h → k.sems h' ≡ some s → IsSemaphore on k.tcbs h' s

abbrev pub AllValid : (Ptr → Ptr) → Kernel → Type 0
AllValid on k = (h : Ptr) (s : Sem) → k.sems h ≡ some s → IsSemaphore on k.tcbs h s

pub record IsReady (k : Kernel) : Type 0 where
  pub scheduled : IsScheduled k
  pub places : All (λ t. IsPlace (k.tcbs t).context) k.ready_thread_queue

pub record IsKernel (on : Ptr → Ptr) (k : Kernel) : Type 0 where
  pub ready : IsReady k
  pub semaphores : AllValid on k

-- How a trap may end that a thread's system call makes: in the invariant, or, with no other thread
-- to run, at the null context.
abbrev pub Goes : Kernel → Run → Type 0
Goes k (user k') = (on : Ptr → Ptr) × IsKernel on k'
Goes k fault = k.ready_thread_queue ≡ []
Goes k halted = ⊥
Goes k out_of_fuel = ⊥

pub SameThreads-IsReady : (k k' : Kernel) → SameThreads k k' → IsReady k → IsReady k'
SameThreads-IsReady k k' e v = record {
  scheduled = SameThreads-IsScheduled k k' e v.scheduled;
  places = rw (e.1, e.2) v.places;
}

pub SameThreads-IsKernel :
    (on : Ptr → Ptr) (k k' : Kernel) → SameThreads k k' → IsKernel on k → IsKernel on k'
SameThreads-IsKernel on k k' e v = record {
  ready = SameThreads-IsReady k k' e v.ready;
  semaphores = λ h s there. rw e.1 (v.semaphores h s (rw (sym e.3) there));
}

pub IsSemaphore-IsCounted :
    (on : Ptr → Ptr) (k : Kernel) (h : Ptr) (s : Sem) → IsSemaphore on k.tcbs h s → IsCounted k s
IsSemaphore-IsCounted on k h s v = record {
  count = v.count;
  held = All-map_with {P = IsBlockedOn on k.tcbs h} s.blocked_threads (λ t b. (b.0, b.1)) v.held;
  once = v.once;
}
