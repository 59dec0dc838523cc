-- ===== src/Kernel/Machine/Privilege.antt =====
-- The mode of the processor, on the kernel with its memory. At a trap the hardware puts the mode into
-- SPP of sstatus, and sret goes on in the mode that SPP tells; all else of sstatus is as it may be.
pub mod Cases
pub mod Memory
pub mod Threads
pub mod Calls
pub mod Histories
pub mod Start
use os1_project.Prelude.{ℕ, suc, ◌≡◌, ◌≢◌, Bool, true, false, some, ◌==◌, if◌then◌else◌}
use os1_project.Allocator
use os1_project.Allocator.{HeapBounds, MemoryAllocator}
use os1_project.Kernel.{Ptr, Kernel}
use os1_project.Kernel.Trap.{Run, user, fault, halted, out_of_fuel, Regs}
use os1_project.Kernel.Trap.Handler.{handle_supervisor_trap}
use os1_project.Kernel.Interface.{Request, encode, thread_wrapper_end}
use os1_project.Kernel.Interface.Stack.{stack_blocks}
use os1_project.Kernel.Places.Modes.{spp, IsGuarded}
use os1_project.Kernel.Machine.{
  Holder, nobody, caller, thread, unstarted, semaphore, node, Machine, NodeStep, Allowed, grant,
  after, moved,
}

abbrev pub is_tcb : Holder → Bool
is_tcb nobody = false
is_tcb caller = false
is_tcb thread = true
is_tcb unstarted = true
is_tcb semaphore = false
is_tcb node = false

abbrev pub IsTcb : Machine → Ptr → Type 0
IsTcb m t = is_tcb (m.holder t) ≡ true

-- The thread of main is one, and the only one that is to run in supervisor mode.
pub record IsPrivileged (main : Ptr) (m : Machine) : Type 0 where
  pub guarded : IsGuarded main (IsTcb m) m.kernel
  pub main_held : m.holder main ≡ thread

-- ecall, from either mode
abbrev pub trap_from : Bool → HeapBounds → ℕ → Kernel → Request → ℕ → Run
trap_from supervisor heap fuel k c input =
    handle_supervisor_trap heap fuel k (if supervisor then 9 else 8) (encode c) input

-- A machine and its mode, after whatever the code above the kernel does: before each trap a thread
-- runs, from its own memory, and the trap comes with the mode of that thread in SPP.
pub data Execution (heap : HeapBounds) (m : Machine) : Machine → Bool → Type 0 where
  begun : Execution heap m m true
  call :
      {n : Machine} {mode : Bool} (words : Ptr → ℕ) (pc st : ℕ) (c : Request) (fuel input : ℕ)
      {k' : Kernel}
      → Execution heap m n mode
      → spp st ≡ mode
      → Allowed heap (moved n words pc st) c
      → trap_from mode heap (suc fuel) (moved n words pc st).kernel c input ≡ user k'
      → Execution heap m (after (moved n words pc st) c k') (spp k'.sstatus)
  stack :
      {n : Machine} {mode : Bool} {a : MemoryAllocator} (p : Ptr)
      → Execution heap m n mode
      → Allocator.mem_alloc heap n.kernel.allocator stack_blocks ≡ some (a, p)
      → Execution heap m
          (record { kernel = record n.kernel { allocator = a }; holder = grant n.holder p caller })
          mode
  list_node :
      {n n' : Machine} {mode : Bool}
      → Execution heap m n mode
      → NodeStep heap n n'
      → Execution heap m n' mode
  body_end :
      {n : Machine} {mode : Bool} (words : Ptr → ℕ) (pc st fuel : ℕ) {k' : Kernel}
      → Execution heap m n mode
      → spp st ≡ mode
      → thread_wrapper_end heap (suc fuel) (moved n words pc st).kernel ≡ user k'
      → Execution heap m (record n { kernel = k' }) (spp k'.sstatus)
  interrupt :
      {n : Machine} {mode : Bool} (words : Ptr → ℕ) (pc st scause fuel input : ℕ) (r : Regs)
      {k' : Kernel}
      → Execution heap m n mode
      → spp st ≡ mode
      → scause ≢ 8
      → scause ≢ 9
      → handle_supervisor_trap heap fuel (moved n words pc st).kernel scause r input ≡ user k'
      → Execution heap m (record n { kernel = k' }) (spp k'.sstatus)

-- How a call may end: in the mode of the thread that goes on.
abbrev pub PrivilegedRun : Ptr → Machine → Request → Run → Type 0
PrivilegedRun main m c (user k') =
    IsPrivileged main (after m c k') × (spp k'.sstatus ≡ (k'.running == main))
PrivilegedRun main m c fault = Unit
PrivilegedRun main m c halted = Unit
PrivilegedRun main m c out_of_fuel = Unit
