-- ===== src/Lib.antt =====
-- The kernel of a small RISC-V operating system: a heap allocator, threads with cooperative
-- dispatch, counting semaphores, and the trap handler through which user code calls them.
--
-- A system call is an ecall with its code in a0. Riscv::handleSupervisorTrap (src/riscv.cpp) saves
-- sepc + 4 and sstatus in its frame, runs the case of the code, writes the result to slot 10 of the
-- register frame and restores both registers. A case may call TCB::dispatch (src/tcb.cpp), which
-- queues the running thread in the Scheduler (src/scheduler.cpp), loads the context of the next one
-- and so goes on in the frame of that thread's handler. Sem::wait (src/Sem.cpp) dispatches when it
-- blocks; Sem::signal and Sem::close let threads go through the Scheduler. The handler makes and
-- deletes its objects with operator new and operator delete (src/syscall_cpp.cpp), which end in
-- MemoryAllocator (src/MemoryAllocator.cpp).
--
-- Prelude: Boolean tests, integers and list lemmas over the native numbers.
--
-- Allocator.antt: MemoryAllocator::initFreeMem and mem_alloc (h/MemoryAllocator.hpp,
-- src/MemoryAllocator.cpp). Memory is a function from addresses to headers, and each assignment
-- through a pointer is one write. Allocator/Release.antt: mem_free and joinBlocks. Allocator/Spec.antt:
-- what they promise, on lists of blocks: first fit, and a store whose blocks lie in order in the
-- heap without overlap. Allocator/Represents.antt ties the two: the headers are linked in both
-- directions along the two lists. Allocator/Seg.antt to Allocator/Relink.antt have the lemmas on linked
-- segments, blocks and the splices; Allocator/FirstFit.antt, Allocator/Release/Refines.antt,
-- Allocator/Sound.antt and Allocator/Promises.antt the theorems. Allocator/History.antt has every history
-- of calls by callers that free only what they hold, as a step relation on the allocator and the held
-- addresses (Allocator/Live.antt), and Allocator/History/Grants.antt what one request gives; Allocator/Untouched.antt is about a heap that is still in one piece.
--
-- Kernel.antt: TCB and Scheduler. A list of h/list.hpp is the list of its data pointers, a thread is
-- an entry of `tcbs`, and `Resume` is the place that a context stands for: a new thread's wrapper, or
-- the call of dispatch, exit or block in its handler, with the saved sepc and sstatus.
-- Kernel/Semaphore.antt: Sem. Kernel/Trap.antt: the ends of a trap, and where a resumed thread goes on;
-- Kernel/Trap/Handler.antt: the cases of the handler. Kernel/Schedule.antt has the invariant of the
-- scheduler; Kernel/Semaphore/ and Kernel/Trap/ have the theorems by what they are about.
--
-- Kernel/Interface.antt: src/syscall_c.cpp, whose functions put a call into registers and trap; a call
-- is a `Request`, and `encode` gives its registers. Its children relate calls and cases, and follow
-- mem_alloc and thread_create from the C function to the allocator.
--
-- Kernel/Invariant.antt: what holds of scheduler and semaphores together between two traps; its children
-- take each call, and Kernel/Invariant/Rotation.antt takes a round of dispatches. Kernel/System.antt: the
-- kernel as a step relation of system calls, ends of threads and interrupts, with what the calls must
-- not be given; Kernel/System/Handover.antt follows a wait through another thread's signal,
-- and Kernel/System/Abandoned.antt through its close.
-- Kernel/Frame.antt has what such steps leave alone: threads that neither scheduler nor semaphores know.
--
-- Kernel/Machine.antt: the kernel together with its memory. A `Machine` also says who holds each
-- address that the allocator has handed out: the code above the kernel, a thread's object, started or
-- not, a semaphore's, or a node of one of the kernel's lists. The operations of the kernel work on
-- lists of threads and leave the nodes' memory out; a `NodeStep` is the `new Elem` or the `delete
-- elem` of a list, and a history has such steps between the others, in any number and order, so those
-- of the program among them. A `new Elem` that gets null, a fault in the program, is no step.
-- Kernel/Machine/Queue.antt has TCB::dispatch with put's and get's node and that fault. `Allowed` is
-- what the code above the kernel must keep to, `Continues` how a call may end. Its children take the
-- calls by what they use: Memory, Creation, Semaphores and Scheduling, with Holders and Objects for
-- what they share, Histories for every sequence of them, Separation for what mem_alloc gives, and
-- Start for the machine that main sets up. A call that makes an object is allowed while the allocator
-- has room for it, since operator new does not test for null. Kernel/Machine/Privilege.antt adds the
-- mode of the processor: at a trap the hardware writes it to SPP of sstatus, and sret takes it from
-- there; Kernel/Places.antt has what each call leaves of the places and modes of threads.
--
-- Kernel/Wrappers.antt: the classes of src/syscall_cpp.cpp over the C functions, for the caller to whom
-- each call comes back. Kernel/Boot.antt: initMainThread and main of src/main.cpp on top of them;
-- Kernel/Boot/Supervisor.antt and Kernel/Boot/Steps.antt take main's system calls one by one,
-- Kernel/Boot/Main.antt and Kernel/Boot/Start.antt put them together.
--
-- LinkedList.antt: h/list.hpp on elements in memory; LinkedList/Chain.antt has the list that they stand
-- for, LinkedList/Ends.antt and LinkedList/RemoveLast.antt the theorems. Print.antt: src/print.cpp, as the
-- characters printed; Print/Digits.antt reads them back. Registers.antt: the accessors of
-- h/riscv.hpp and the interrupt mask of src/print.cpp; Registers/Masks.antt and
-- Kernel/Trap/Masks.antt relate the masks to arithmetic on single bits.
--
-- User.antt: userMain of src/userMain.cpp and userMainWrapper of src/main.cpp, and the threads of
-- src/workers.cpp as the calls that they make; User/Menu.antt, User/Wrapper.antt and User/Workers.antt have
-- the theorems.
--
-- Fuel: the loops of the allocator run on the heap's end address, which is more than the blocks that
-- lie below it; the loop of Sem::close on one more than the blocked threads; a switch of threads on
-- steps of fuel that only the resumption of a finished thread would take up; the loop of removeLast on
-- a fuel argument above the length of the list; the digits of a number on the ten or sixteen
-- that its width allows.
--
-- Parameters: the bounds of the heap (lib/hw.h) and what __getc returns. The calls of __putc are
-- logged and those of console_handler counted. Not modelled: the assembly of the register frame and
-- of contextSwitch, the messages that are printed, which call of the kernel takes or gives back
-- which node of a list, but for TCB::dispatch and the thread_create of main (`take_node`), what a
-- thread's own code does between two system calls, and what the tests do that userMain runs, which
-- are examples.
pub mod Prelude
pub mod Allocator
pub mod LinkedList
pub mod Print
pub mod Registers
pub mod Kernel
pub mod User
