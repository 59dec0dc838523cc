-- ===== src/Kernel/System/Tests.antt =====
-- The whole kernel with two threads: system calls one after another.
use os1_project.Prelude.{
  ◌≡◌, refl, sym, ◌∙◌, inl, inr, none, some, [], ◌∷◌, arith, Bool-cases, ==_iff, ◌==◌, subst,
}
use mathlib.Core.Option.{some-injective}
use os1_project.Prelude.Int.{pos}
use os1_project.Kernel.{Ptr, behind_dispatch, dispatch, put, get, update, Sem, Kernel}
use os1_project.Kernel.Trap.{user, thread_dispatch_case, after_dispatch, resume, leave}
use os1_project.Kernel.Tests.{two_threads, heap, mutex, threads}
use os1_project.Kernel.Interface.{give_up, sem_wait, sem_signal, ecall}
use os1_project.Allocator.{MemoryAllocator}
use os1_project.Allocator.Tests.{first_taken}
use os1_project.Kernel.System.Handover.{IsBack, wait-signal}
use os1_project.Prelude.{if◌then◌else◌}
use os1_project.Kernel.Interface.Encoding.{ecall-perform}
use os1_project.Kernel.Semaphore.{returns, close}
use os1_project.Kernel.Invariant.{IsKernel, IsSemaphore}
use os1_project.Kernel.Invariant.Waking.{close-IsKernel}
use os1_project.Kernel.Invariant.Rotation.{yields, yields-turn}
use os1_project.Kernel.System.{here, later, call}
use os1_project.Kernel.System.Histories.{Reach-IsKernel}

abbrev pub on_2000 : Ptr → Ptr
on_2000 t = 2000

mutex-IsSemaphore : IsSemaphore on_2000 threads 2000 mutex
mutex-IsSemaphore = record {
  count = refl;
  held = ((omega arith, refl, refl, tt, refl), tt);
  once = (tt, tt);
}

the_only-IsSemaphore :
    (h : Ptr) (s : Sem) → two_threads.sems h ≡ some s → IsSemaphore on_2000 threads h s
the_only-IsSemaphore h s e = elim (Bool-cases (h == 2000)) [
  | inl at ↦
      let same : mutex ≡ s = some-injective mutex s (sym (rw at refl) ∙ e) in
      subst (λ p. IsSemaphore on_2000 threads p s) (sym ((==_iff h 2000).0 at))
        (subst (IsSemaphore on_2000 threads 2000) same mutex-IsSemaphore)
  | inr off ↦ let gone : two_threads.sems h ≡ none = rw off refl in absurd (cc)
]

two_threads-IsKernel : IsKernel on_2000 two_threads
two_threads-IsKernel = record {
  ready = record {
    scheduled = record {
      present = omega arith;
      runnable = refl;
      queue = record { waiting = ((omega arith, refl, omega arith), tt); once = (tt, tt) };
    };
    places = (tt, tt);
  };
  semaphores = the_only-IsSemaphore;
}

yields-turn_example :
    (k' : Kernel) × (yields heap 1 two_threads ≡ some k')
    × (k'.running ≡ 1200)
    × (k'.ready_thread_queue ≡ 1100 ∷ [])
    × IsKernel on_2000 k'
yields-turn_example = yields-turn heap on_2000 [] 1200 [] two_threads two_threads-IsKernel refl

close-IsKernel_example :
    (k' : Kernel) × (close two_threads 2000 ≡ some (returns k' (pos 0))) × IsKernel on_2000 k'
close-IsKernel_example =
    close-IsKernel on_2000 2000 two_threads mutex two_threads-IsKernel (omega arith) refl

-- The thread 1200 runs, which gave up the processor at 496, and 1100 waits behind its ecall.
abbrev after_yield : Kernel
after_yield = record two_threads {
  tcbs = update threads 1100 (record (threads 1100) { context = behind_dispatch 100 32 });
  ready_thread_queue = 1100 ∷ [];
  running = 1200;
  sepc = 500;
}

after_yield-ecall : ecall heap 1 two_threads give_up 0 ≡ user after_yield
unfolding thread_dispatch_case after_dispatch resume dispatch put get leave update
after_yield-ecall = ecall-perform heap 1 two_threads give_up 0 ∙ refl

Reach-IsKernel_example : (on : Ptr → Ptr) × IsKernel on after_yield
Reach-IsKernel_example =
    Reach-IsKernel heap on_2000 two_threads after_yield two_threads-IsKernel
      (later here (call give_up 0 0 tt after_yield-ecall))

-- A semaphore without blocked threads, with the value 0, in the first block of the heap.
abbrev pub taken : Sem
taken = record mutex { value = pos 0; blocked_threads = [] }

abbrev pub unblocked : Kernel
unblocked = record two_threads {
  sems = λ p. if p == 88 then some taken else none;
  allocator = first_taken;
}

pub unblocked-IsKernel : IsKernel on_2000 unblocked
unblocked-IsKernel = record {
  ready = record {
    scheduled = record {
      present = omega arith;
      runnable = refl;
      queue = record { waiting = ((omega arith, refl, omega arith), tt); once = (tt, tt) };
    };
    places = (tt, tt);
  };
  semaphores = λ h s e. elim (Bool-cases (h == 88)) [
    | inl at ↦
        subst (IsSemaphore on_2000 threads h) (some-injective taken s (sym (rw at refl) ∙ e))
          (record { count = refl; held = tt; once = tt })
    | inr off ↦ let gone : unblocked.sems h ≡ none = rw off refl in absurd (cc)
  ];
}

wait-signal_example :
    (k1 : Kernel) × (k2 : Kernel) × (k3 : Kernel) × (ecall heap 1 unblocked (sem_wait 88) 0
      ≡ user k1)
    × (k1.running ≡ 1200)
    × (ecall heap 1 k1 (sem_signal 88) 0 ≡ user k2)
    × (ecall heap 1 k2 give_up 0 ≡ user k3)
    × IsBack k3 1100 (pos 0) 100 32
wait-signal_example =
    wait-signal heap on_2000 unblocked 88 taken 1200 500 32 unblocked-IsKernel (omega arith) refl
      refl refl refl refl
