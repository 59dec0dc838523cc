-- ===== src/Kernel/Machine/Scheduling.antt =====
-- The calls that only switch threads, on the kernel with its memory.
use os1_project.Prelude.{ℕ, suc, ◌+◌, ◌%◌, ◌^◌, ◌≡◌, refl, sym, subst, inl, inr, [], ◌∷◌, ◌++◌}
use os1_project.Prelude.Int.{pos}
use os1_project.Allocator.{HeapBounds}
use os1_project.Kernel.{Ptr, Kernel}
use os1_project.Kernel.Semaphore.{wait, signal, trywait, timedwait}
use os1_project.Kernel.Trap.{Run, user, fault, halted, out_of_fuel, with_finished}
use os1_project.Kernel.Interface.{
  Request, allocate, free, create, create_without_starting, start, exit, give_up, sem_open,
  sem_close, sem_wait, sem_signal, sem_timedwait, sem_trywait, time_sleep, getc, putc,
  thread_wrapper_end,
}
use os1_project.Kernel.Interface.Encoding.{perform, ecall-perform}
use os1_project.Kernel.Invariant.{Goes}
use os1_project.Kernel.Frame.{
  Threads, Confined-refl, ConfinedRun, ConfinedRun-after, same-Confined, leave-Confined,
  result-Confined,
}
use os1_project.Kernel.Frame.Calls.{wait-Confined, signal-Confined, trywait-Confined}
use os1_project.Kernel.Frame.Switches.{
  finish_call-Confined, thread_dispatch_case-Confined, thread_exit_case-Confined,
  with_finished-Confined,
}
use os1_project.Kernel.System.{IsHandle, IsProper}
use os1_project.Kernel.System.Requests.{IsScheduling, perform-Goes}
use os1_project.Kernel.System.Histories.{wrapper_end-Goes}
use os1_project.Kernel.Machine.{thread, Machine, IsOpen, Allowed, IsMachine, Continues, held_after}
use os1_project.Kernel.Machine.Holders.{Confined-IsMachine}
use os1_project.Kernel.Machine.Semaphores.{semaphore-there}

-- The calls that neither make nor delete an object touch only the threads that the kernel knows.
perform-Confined :
    (P : Ptr → Type 0) (heap : HeapBounds) (k : Kernel) (c : Request) (fuel input pc st : ℕ)
    → Threads P k
    → IsScheduling c
    → ConfinedRun P k (perform heap fuel k input pc st c)
perform-Confined P heap k exit fuel input pc st w i = thread_exit_case-Confined P fuel k pc st w
perform-Confined P heap k give_up fuel input pc st w i =
    thread_dispatch_case-Confined P fuel k pc st w
perform-Confined P heap k (sem_wait h) fuel input pc st w i =
    finish_call-Confined P fuel k (wait k h) pc st (wait-Confined P k h w)
perform-Confined P heap k (sem_signal h) fuel input pc st w i =
    finish_call-Confined P fuel k (signal k h) pc st (signal-Confined P k h w)
perform-Confined P heap k (sem_timedwait h t) fuel input pc st w i =
    finish_call-Confined P fuel k (timedwait k h t) pc st (unfold timedwait in Confined-refl P k w)
perform-Confined P heap k (sem_trywait h) fuel input pc st w i =
    finish_call-Confined P fuel k (trywait k h) pc st (trywait-Confined P k h w)
perform-Confined P heap k (time_sleep t) fuel input pc st w i = leave-Confined P k pc st w
perform-Confined P heap k getc fuel input pc st w i =
    result-Confined P k (pos (input % 256)) pc st w
perform-Confined P heap k (putc c) fuel input pc st w i =
    let k' = record k { put_chars = k.put_chars ++ (c % 256) ∷ [] } in
    let s = same-Confined P k k' w refl refl refl refl refl in
    ConfinedRun-after P k k' _ s (leave-Confined P k' pc st s.threads)
perform-Confined P heap k (allocate n) fuel input pc st w i = absurd i
perform-Confined P heap k (free a) fuel input pc st w i = absurd i
perform-Confined P heap k (create h b a s) fuel input pc st w i = absurd i
perform-Confined P heap k (create_without_starting h b a s) fuel input pc st w i = absurd i
perform-Confined P heap k (start t) fuel input pc st w i = absurd i
perform-Confined P heap k (sem_open h n) fuel input pc st w i = absurd i
perform-Confined P heap k (sem_close h) fuel input pc st w i = absurd i

module _ (heap : HeapBounds) (m : Machine) (v : IsMachine heap m) where
  abbrev IsThread : Ptr → Type 0
  IsThread t = m.holder t ≡ thread

  open-IsHandle : (h : Ptr) → IsOpen m h → IsHandle m.kernel h
  open-IsHandle h (inl z) = inl z
  open-IsHandle h (inr (n, held)) =
      let (s, there) = semaphore-there heap m v h held in inr (n, s, there)

  Allowed-IsProper : (c : Request) → IsScheduling c → Allowed heap m c → IsProper heap m.kernel c
  Allowed-IsProper exit i a = tt
  Allowed-IsProper give_up i a = tt
  Allowed-IsProper (sem_wait h) i a = open-IsHandle h a
  Allowed-IsProper (sem_signal h) i a = open-IsHandle h a
  Allowed-IsProper (sem_timedwait h t) i a = tt
  Allowed-IsProper (sem_trywait h) i a = open-IsHandle h a
  Allowed-IsProper (time_sleep t) i a = tt
  Allowed-IsProper getc i a = tt
  Allowed-IsProper (putc c) i a = tt
  Allowed-IsProper (allocate n) i a = absurd i
  Allowed-IsProper (free p) i a = absurd i
  Allowed-IsProper (create h b r s) i a = absurd i
  Allowed-IsProper (create_without_starting h b r s) i a = absurd i
  Allowed-IsProper (start t) i a = absurd i
  Allowed-IsProper (sem_open h n) i a = absurd i
  Allowed-IsProper (sem_close h) i a = absurd i

  pub held_same : (c : Request) (k' : Kernel) → IsScheduling c → held_after m c k' ≡ m.holder
  held_same exit k' i = refl
  held_same give_up k' i = refl
  held_same (sem_wait h) k' i = refl
  held_same (sem_signal h) k' i = refl
  held_same (sem_timedwait h t) k' i = refl
  held_same (sem_trywait h) k' i = refl
  held_same (time_sleep t) k' i = refl
  held_same getc k' i = refl
  held_same (putc c) k' i = refl
  held_same (allocate n) k' i = absurd i
  held_same (free p) k' i = absurd i
  held_same (create h b r s) k' i = absurd i
  held_same (create_without_starting h b r s) k' i = absurd i
  held_same (start t) k' i = absurd i
  held_same (sem_open h n) k' i = absurd i
  held_same (sem_close h) k' i = absurd i

  both-Continues :
      (c : Request) (r : Run)
      → IsScheduling c
      → Goes m.kernel r
      → ConfinedRun IsThread m.kernel r
      → Continues heap m c r
  both-Continues c (user k') i (on, w) s =
      subst (λ f. IsMachine heap (record { kernel = k'; holder = f })) (sym (held_same c k' i))
        (Confined-IsMachine heap m v on k' w s)
  both-Continues c fault i g s = g
  both-Continues c halted i g s = g
  both-Continues c out_of_fuel i g s = g

  pub scheduling-Continues :
      (c : Request) (fuel input pc st : ℕ)
      → IsScheduling c
      → Allowed heap m c
      → Continues heap m c (perform heap (suc fuel) m.kernel input pc st c)
  scheduling-Continues c fuel input pc st i a =
      both-Continues c _ i
        (perform-Goes heap v.on m.kernel c fuel input pc st v.kernel i (Allowed-IsProper c i a))
        (perform-Confined IsThread heap m.kernel c (suc fuel) input pc st v.threads i)

  -- The end of a thread's function is a yield of a thread that is finished.
  pub wrapper_end-Continues :
      (fuel : ℕ) → Continues heap m give_up (thread_wrapper_end heap (suc fuel) m.kernel)
  unfolding thread_wrapper_end
  wrapper_end-Continues fuel =
      let k = m.kernel in
      let ended = with_finished-Confined IsThread k v.threads in
      both-Continues give_up _ tt (wrapper_end-Goes heap v.on k fuel v.kernel) (
        rw (ecall-perform heap (suc fuel) (with_finished k) give_up 0) (
          ConfinedRun-after IsThread k (with_finished k) _ ended (
            thread_dispatch_case-Confined IsThread (suc fuel) (with_finished k)
              ((k.sepc + 4) % 2 ^ 64) k.sstatus ended.threads)))
