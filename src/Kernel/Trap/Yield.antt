-- ===== src/Kernel/Trap/Yield.antt =====
-- A thread that gives up the processor in src/riscv.cpp, and what an interrupt leaves alone.
use os1_project.Prelude.{
  ℕ, suc, ◌≡◌, ◌≢◌, refl, ap, ◌∙◌, inl, inr, List, [], ◌∷◌, ◌++◌, All, ◌==◌, ne→==, ==_self,
  Bool-cases,
}
use mathlib.Core.Path.{subst}
use os1_project.Allocator.{HeapBounds}
use os1_project.Kernel.{Ptr, Resume, behind_dispatch, Kernel, update, dispatch, switched}
use os1_project.Kernel.Schedule.{IsWaiting, IsScheduled, queued, Switched, dispatch-Switched}
use os1_project.Kernel.Trap.{
  Run, user, fault, halted, out_of_fuel, Regs, leave, resume, after_dispatch, thread_dispatch_case,
}
use os1_project.Kernel.Trap.Handler.{handle_supervisor_trap}

-- Where the processor is behind a yield: in the thread `next`, at its place, with the thread that
-- yielded last in the queue and its own place kept.
pub record Yielded (k : Kernel) (next : Ptr) (ts : List Ptr) (kept place : Resume) (k' : Kernel)
    : Type 0 where
  pub running : k'.running ≡ next
  pub queue : k'.ready_thread_queue ≡ ts ++ k.running ∷ []
  pub place_kept : (k'.tcbs k.running).context ≡ kept
  pub place_reached : behind_dispatch k'.sepc k'.sstatus ≡ place
  pub unchanged : k'.saved_a0 ≡ k.saved_a0
  pub scheduled : IsScheduled k'

abbrev pub no_slice : Kernel → Kernel
no_slice k = record k { time_slice_counter = 0 }

module _ (k : Kernel) (v : IsScheduled k) (t : Ptr) (ts : List Ptr) where
  queued_last : k.ready_thread_queue ≡ t ∷ ts → queued k ≡ t ∷ (ts ++ k.running ∷ [])
  queued_last e = rw (v.runnable, e)

  pub switch :
      (here : Resume) → k.ready_thread_queue ≡ t ∷ ts → Switched k here (t ∷ (ts ++ k.running ∷ []))
  switch here e =
      subst (λ l. Switched k here l) (queued_last e) (dispatch-Switched k here v.present v.queue)

  pub waits : k.ready_thread_queue ≡ t ∷ ts → t ≢ k.running
  waits e = (subst (All (IsWaiting k.tcbs k.running)) e v.queue.waiting).0.2

after_switch :
    (fuel : ℕ) (k k' : Kernel) (r : Resume) (sepc sstatus place_sepc place_sstatus : ℕ)
    → dispatch (no_slice k) (behind_dispatch sepc sstatus) ≡ switched k' r
    → r ≡ behind_dispatch place_sepc place_sstatus
    → thread_dispatch_case (suc fuel) k sepc sstatus ≡ leave k' place_sepc place_sstatus
unfolding thread_dispatch_case after_dispatch resume
after_switch fuel k k' r sepc sstatus place_sepc place_sstatus d c = rw (d, c)

-- A thread that calls dispatch, with another first in the queue that itself gave up the processor
-- by dispatch: the trap returns into that one, at its sepc and sstatus, the caller is queued last
-- and keeps its own sepc and sstatus, no result register is written, and the scheduler stays in
-- order.
pub thread_dispatch_case-Yielded :
    (fuel : ℕ) (k : Kernel) (t : Ptr) (ts : List Ptr) (sepc sstatus place_sepc place_sstatus : ℕ)
    → IsScheduled k
    → k.ready_thread_queue ≡ t ∷ ts
    → (k.tcbs t).context ≡ behind_dispatch place_sepc place_sstatus
    → (k' : Kernel) × (thread_dispatch_case (suc fuel) k sepc sstatus ≡ user k')
      × Yielded k t ts (behind_dispatch sepc sstatus) (behind_dispatch place_sepc place_sstatus) k'
unfolding leave
thread_dispatch_case-Yielded fuel k t ts sepc sstatus place_sepc place_sstatus v e c =
    let here = behind_dispatch sepc sstatus in
    let (k', d, at, queue, tcbs, results, _, sched) =
      switch (no_slice k) (record { present = v.present; runnable = v.runnable; queue = v.queue }) t
        ts here e in
    let there : (k'.tcbs t).context ≡ behind_dispatch place_sepc place_sstatus =
      ap (λ f. (f t).context) tcbs ∙ unfold update in rw (ne→== t k.running (waits k v t ts e)) c in
    (
      record k' { sepc = place_sepc; sstatus = place_sstatus },
      after_switch fuel k k' (k'.tcbs t).context sepc sstatus place_sepc place_sstatus d there,
      record {
        running = at;
        queue = queue;
        place_kept = ap (λ f. (f k.running).context) tcbs ∙ unfold update in rw (==_self k.running);
        place_reached = refl;
        unchanged = results;
        scheduled = record {
          present = sched.present;
          runnable = sched.runnable;
          queue = sched.queue;
        };
      },
    )

-- Two threads that alternate: when both the caller and the only other ready thread give up the
-- processor by dispatch in turn, the second trap returns to the caller, with the sepc and sstatus
-- of its own call, whatever the other thread's call had, and with no result register written.
pub dispatch_returns :
    (fuel : ℕ) (k : Kernel) (t : Ptr) (sepc sstatus place_sepc place_sstatus sepc' sstatus' : ℕ)
    → IsScheduled k
    → k.ready_thread_queue ≡ t ∷ []
    → (k.tcbs t).context ≡ behind_dispatch place_sepc place_sstatus
    → (k1 : Kernel) × (k2 : Kernel) × (thread_dispatch_case (suc fuel) k sepc sstatus ≡ user k1)
      × (k1.running ≡ t)
      × (thread_dispatch_case (suc fuel) k1 sepc' sstatus' ≡ user k2)
      × (k2.running ≡ k.running)
      × (behind_dispatch k2.sepc k2.sstatus ≡ behind_dispatch sepc sstatus)
      × (k2.ready_thread_queue ≡ t ∷ [])
      × (k2.saved_a0 ≡ k.saved_a0)
dispatch_returns fuel k t sepc sstatus place_sepc place_sstatus sepc' sstatus' v e c =
    let (k1, d1, y1) =
      thread_dispatch_case-Yielded fuel k t [] sepc sstatus place_sepc place_sstatus v e c in
    let (k2, d2, y2) =
      thread_dispatch_case-Yielded fuel k1 k.running [] sepc' sstatus' sepc sstatus y1.scheduled
        y1.queue y1.place_kept in
    (
      k1,
      k2,
      d1,
      y1.running,
      d2,
      y2.running,
      y2.place_reached,
      y2.queue ∙ ap (λ u. u ∷ []) y1.running,
      y2.unchanged ∙ y1.unchanged,
    )

-- What only a system call changes: the threads, the queue, the semaphores and the allocator.
pub record Untouched (k k' : Kernel) : Type 0 where
  pub same_running : k'.running ≡ k.running
  pub same_queue : k'.ready_thread_queue ≡ k.ready_thread_queue
  pub same_tcbs : k'.tcbs ≡ k.tcbs
  pub same_sems : k'.sems ≡ k.sems
  pub same_allocator : k'.allocator ≡ k.allocator
  pub same_results : k'.saved_a0 ≡ k.saved_a0

abbrev pub UserUntouched : Kernel → Run → Type 0
UserUntouched k (user k') = Untouched k k'
UserUntouched k fault = ⊥
UserUntouched k halted = Unit
UserUntouched k out_of_fuel = ⊥

-- The trap handler does not preempt: a trap that is no environment call, the timer's and the
-- keyboard's included, goes back to the running thread with every thread, queue, semaphore and the
-- allocator as they were, or shuts the machine down. Of console_handler of the linked library, which
-- an external interrupt calls, only the calls are counted: it is taken to leave the kernel's data
-- alone.
pub handle_supervisor_trap-Untouched :
    (heap : HeapBounds) (fuel : ℕ) (k : Kernel) (scause : ℕ) (r : Regs) (input : ℕ)
    → scause ≢ 8
    → scause ≢ 9
    → UserUntouched k (handle_supervisor_trap heap fuel k scause r input)
unfolding handle_supervisor_trap leave
handle_supervisor_trap-Untouched heap fuel k scause r input u s =
    rw (ne→== scause 8 u, ne→== scause 9 s)
      (elim (Bool-cases (scause == 0x8000000000000001)) [
        | inl timer ↦ rw timer same
        | inr other ↦ elim (Bool-cases (scause == 0x8000000000000009)) [
          | inl external ↦ rw (other, external) same
          | inr unknown ↦ rw (other, unknown) tt
        ]
      ])
  where
    same :
        {pc st ip ci : ℕ}
        → Untouched k (record k { sepc = pc; sstatus = st; sip = ip; console_interrupts = ci })
    same = record {
      same_running = refl;
      same_queue = refl;
      same_tcbs = refl;
      same_sems = refl;
      same_allocator = refl;
      same_results = refl;
    }
