-- ===== src/Kernel/Machine/Tests.antt =====
-- The kernel with its memory behind a start on a heap of 1024 blocks.
use os1_project.Prelude.{◌+◌, ◌≡◌, refl, some, arith, ◌%◌, ◌^◌, true, ◌==◌}
use os1_project.Prelude.Int.{pos}
use os1_project.Allocator
use os1_project.Allocator.{HeapBounds, MemoryAllocator}
use os1_project.Allocator.Untouched.{IsUncut, mem_alloc-IsUncut}
use os1_project.Allocator.History.{IsHeap}
use os1_project.Kernel.{Kernel, update}
use os1_project.Kernel.Trap.{leave, save_a0}
use os1_project.Kernel.Interface.{allocate, getc, ecall}
use os1_project.Kernel.Interface.Encoding.{ecall-perform}
use os1_project.Kernel.Interface.Tests.{large_heap}
use os1_project.Kernel.Boot.{boot}
use os1_project.Kernel.Boot.Start.{Booted, boot-Booted}
use os1_project.Kernel.Boot.Tests.{program, switched_on}
use os1_project.Kernel.Machine.{
  Machine, node, IsMachine, Reach, here, call, list_node, new_elem, moved,
}
use os1_project.Kernel.Machine.Start.{started, Booted-IsMachine, boot-IsMachine}
use os1_project.Kernel.Machine.Histories.{Reach-IsMachine}
use os1_project.Kernel.{behind_dispatch}
use os1_project.Prelude.{length, [], sym, ap}
use os1_project.Kernel.Machine.Queue.{HasNodes, Yields, dispatch_with_nodes-dispatch}
use os1_project.Kernel.Boot.Supervisor.{supervisor-perform}
use os1_project.Kernel.Machine.Privilege.{Execution, begun}
use os1_project.Kernel.Machine.Privilege
use os1_project.Kernel.Machine.Privilege.Start.{boot-Execution}
use os1_project.Kernel.Machine.Separation.{Separate, Reach-Separate}

large_heap-IsHeap : IsHeap large_heap
large_heap-IsHeap = record { positive = omega arith; roomy = omega arith; wide = omega arith }

booted :
    (k' : Kernel) × (boot large_heap program switched_on ≡ some (k', pos 0))
    × Booted large_heap switched_on k'
booted = boot-Booted large_heap program switched_on (omega arith) (omega arith) refl (omega arith)

abbrev machine : Machine
machine = started booted.0

machine-IsMachine : IsMachine large_heap machine
machine-IsMachine =
    Booted-IsMachine large_heap switched_on booted.0 large_heap-IsHeap refl refl (λ h. refl)
      booted.2

-- The machine behind a getc that got 65.
abbrev typed : Machine
typed =
    let k = booted.0 in
    record {
      kernel = record k {
        saved_a0 = update k.saved_a0 k.running (pos 65);
        sepc = (k.sepc + 4) % 2 ^ 64;
        sstatus = k.sstatus;
      };
      holder = machine.holder;
    }

typed-Reach : Reach large_heap machine typed
unfolding leave save_a0
typed-Reach = call getc 0 65 here tt (ecall-perform large_heap 1 booted.0 getc 65)

node_got :
    (a : MemoryAllocator) × (Allocator.mem_alloc large_heap booted.0.allocator 1 ≡ some (a, 216))
    × IsUncut large_heap a 320
node_got =
    mem_alloc-IsUncut large_heap booted.0.allocator 192 1 320 booted.2.uncut (omega arith)
      (omega arith) (omega arith)

-- A list of the kernel has taken a node behind it.
abbrev queued : Machine
queued = record {
  kernel = record typed.kernel { allocator = node_got.0 };
  holder = update typed.holder 216 node;
}

queued-Reach : Reach large_heap machine queued
unfolding Allocator.bytes_in_blocks
queued-Reach = list_node typed-Reach (new_elem 216 node_got.1 (omega arith))

Reach-IsMachine_example : IsMachine large_heap queued
Reach-IsMachine_example =
    Reach-IsMachine large_heap large_heap-IsHeap machine queued machine-IsMachine queued-Reach

boot-IsMachine_example : IsMachine large_heap queued
boot-IsMachine_example =
    boot-IsMachine large_heap switched_on booted.0 large_heap-IsHeap refl program queued
      (omega arith) (omega arith) refl (λ h. refl) booted.1 queued-Reach

Reach-Separate_example : Separate queued (ecall large_heap 1 queued.kernel (allocate 100) 0)
Reach-Separate_example =
    Reach-Separate large_heap machine queued 100 1 0 large_heap-IsHeap machine-IsMachine
      queued-Reach

-- main alone: the queue is empty, and so is its list of nodes.
idle-HasNodes : HasNodes queued []
idle-HasNodes = record { many = sym (ap (λ q. length q) booted.2.queue); held = tt; once = tt }

dispatch_with_nodes-dispatch_example : Yields large_heap queued [] (behind_dispatch 400 256)
dispatch_with_nodes-dispatch_example =
    dispatch_with_nodes-dispatch large_heap queued [] (behind_dispatch 400 256) large_heap-IsHeap
      (Reach-IsMachine large_heap large_heap-IsHeap machine queued machine-IsMachine queued-Reach)
      idle-HasNodes

-- The same getc as main's own call, from supervisor mode, at another place of its code.
abbrev typed_later : Machine
typed_later =
    let k = booted.0 in
    record {
      kernel = record k {
        words = λ p. 7;
        saved_a0 = update k.saved_a0 k.running (pos 65);
        sepc = 404;
        sstatus = 256;
      };
      holder = machine.holder;
    }

typed_later-Execution : Execution large_heap machine typed_later true
unfolding leave save_a0
typed_later-Execution =
    Privilege.call (λ p. 7) 400 256 getc 0 65 begun refl tt
      (supervisor-perform large_heap 1 (moved machine (λ p. 7) 400 256).kernel getc 65)

boot-Execution_example : true ≡ (typed_later.kernel.running == booted.0.running)
boot-Execution_example =
    boot-Execution large_heap switched_on booted.0 program typed_later true large_heap-IsHeap refl
      (omega arith) (omega arith) refl (λ h. refl) booted.1 typed_later-Execution
