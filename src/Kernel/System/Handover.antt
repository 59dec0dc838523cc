-- ===== src/Kernel/System/Handover.antt =====
-- A thread that waits on a semaphore in src/Sem.cpp, and the one that signals it.
use os1_project.Prelude.{
  ℕ, suc, ◌+◌, ◌%◌, ◌^◌, ◌≡◌, ◌≢◌, refl, sym, ap, ◌∙◌, subst, some, List, [], ◌∷◌, ◌++◌, Bool,
  false,
}
use os1_project.Prelude.Int.{ℤ, pos, pos_part, ◌-ℤ◌}
use os1_project.Allocator.{HeapBounds}
use os1_project.Kernel.{Ptr, null, Resume, behind_dispatch, behind_block, Sem, Kernel, update, put}
use os1_project.Kernel.Schedule.{queued, Switched, dispatch-Switched}
use os1_project.Kernel.Semaphore.{wait, signal, wake}
use os1_project.Kernel.Semaphore.Waking.{signal_wakes}
use os1_project.Kernel.Trap.{
  user, resume, leave, save_a0, finish_call, after_dispatch, thread_dispatch_case, code_of,
}
use os1_project.Kernel.Trap.Yield.{no_slice, switch, waits}
use os1_project.Kernel.Interface.{sem_wait, sem_signal, give_up, ecall}
use os1_project.Kernel.Interface.Encoding.{ecall-perform}
use os1_project.Kernel.Invariant.Waking.{signal-Goes}
use os1_project.Kernel.Invariant.{IsKernel, Goes, IsSemaphore-IsCounted}
use os1_project.Kernel.Invariant.Stopping.{sched, stopped-queued, stopped-IsQueue, twice-ne}
use os1_project.Kernel.Invariant.Blocking.{
  wait-Goes, blocking, update_self, update_ne, blocked_kernel, wait_block_eq, finish_switch,
  blocking_stops,
}

-- Where a thread is that goes on behind its call sem_wait.
pub record IsBack (k : Kernel) (t : Ptr) (code : ℤ) (pc st : ℕ) : Type 0 where
  pub running : k.running ≡ t
  pub result : k.saved_a0 t ≡ code
  pub place : k.sepc ≡ pc
  pub mode : k.sstatus ≡ st

resume-IsBack :
    (fuel : ℕ) (k : Kernel) (t : Ptr) (r : Resume) (pc st : ℕ)
    → k.running ≡ t
    → r ≡ behind_block pc st
    → (k' : Kernel) × (resume (suc fuel) k r ≡ user k')
      × IsBack k' t (code_of (k.tcbs t).semaphore_deleted) pc st
unfolding resume leave save_a0
resume-IsBack fuel k t r pc st at e =
    let code = code_of (k.tcbs k.running).semaphore_deleted in
    (
      record k { saved_a0 = update k.saved_a0 k.running code; sepc = pc; sstatus = st },
      rw e refl,
      record {
        running = at;
        result =
            ap (update k.saved_a0 k.running code) (sym at)
            ∙ update_self k.saved_a0 k.running code
            ∙ ap (λ x. code_of (k.tcbs x).semaphore_deleted) at;
        place = refl;
        mode = refl;
      },
    )

-- The running thread gives up the processor to one that has been let go in a semaphore.
module _ (on : Ptr → Ptr) (k : Kernel) (v : IsKernel on k) (t : Ptr) (ts : List Ptr)
    (e : k.ready_thread_queue ≡ t ∷ ts) where
  pub dispatch-IsBack :
      (fuel pc st pc' st' : ℕ)
      → (k.tcbs t).context ≡ behind_block pc' st'
      → (k' : Kernel) × (thread_dispatch_case (suc fuel) k pc st ≡ user k')
        × IsBack k' t (code_of (k.tcbs t).semaphore_deleted) pc' st'
  unfolding thread_dispatch_case after_dispatch
  dispatch-IsBack fuel pc st pc' st' c =
      let s = v.ready.scheduled in
      let here = behind_dispatch pc st in
      let (k2, d, at, _, tcbs, _, _, _) =
        switch (no_slice k) (record { present = s.present; runnable = s.runnable; queue = s.queue })
          t ts here e in
      let same : k2.tcbs t ≡ k.tcbs t =
        ap (λ f. f t) tcbs ∙ update_ne k.tcbs k.running _ t (waits k s t ts e) in
      let (k3, u, b) =
        resume-IsBack fuel k2 t (k2.tcbs t).context pc' st' at (ap (λ x. x.context) same ∙ c) in
      (k3, rw d u, subst (λ x. IsBack k3 t (code_of x.semaphore_deleted) pc' st') same b)

-- Where the processor is when the running thread of `k` is blocked on `h` and `u` goes on.
pub record IsParked (k : Kernel) (h : Ptr) (s : Sem) (u : Ptr) (us : List Ptr) (pc st : ℕ)
    (k' : Kernel) : Type 0 where
  pub running : k'.running ≡ u
  pub queue : k'.ready_thread_queue ≡ us
  pub place : (k'.tcbs k.running).context ≡ behind_block pc st
  pub there :
      k'.sems h
      ≡ some (record s {
        value = s.value -ℤ pos 1;
        blocked_threads = s.blocked_threads ++ k.running ∷ [];
      })

resume-dispatched :
    (fuel : ℕ) (k : Kernel) (r : Resume) (pc st : ℕ)
    → r ≡ behind_dispatch pc st
    → resume (suc fuel) k r ≡ user (record k { sepc = pc; sstatus = st })
unfolding resume leave
resume-dispatched fuel k r pc st e = rw e refl

module _ (on : Ptr → Ptr) (k : Kernel) (v : IsKernel on k) (h : Ptr) (s : Sem) (hn : h ≢ null)
    (there : k.sems h ≡ some s) (u : Ptr) (us : List Ptr) (e : k.ready_thread_queue ≡ u ∷ us) where
  pub wait-IsParked :
      (fuel pc st pcu stu : ℕ)
      → pos_part s.value ≡ 0
      → (k.tcbs u).context ≡ behind_dispatch pcu stu
      → (k' : Kernel) × (finish_call (suc fuel) (wait k h) pc st ≡ user k')
        × IsParked k h s u us pc st k'
  wait-IsParked fuel pc st pcu stu z c =
      let here = behind_block pc st in
      let b = blocked_kernel on k v h s hn there in
      let q : queued b ≡ u ∷ us =
        stopped-queued on k v (blocking on k v h s hn there) (blocking_stops on k v h s hn there)
        ∙ e in
      let (k2, d, at, queue, tcbs, _, sems, _) = subst (Switched b here) q (
        dispatch-Switched b here (sched on k v).present (
          stopped-IsQueue on k v (blocking on k v h s hn there)
            (blocking_stops on k v h s hn there))) in
      let other : (k2.tcbs u).context ≡ behind_dispatch pcu stu =
        ap (λ f. (f u).context) tcbs
        ∙ ap (λ x. x.context)
            (twice-ne on k v (blocking on k v h s hn there) (blocking_stops on k v h s hn there)
              here u (waits k v.ready.scheduled u us e))
        ∙ c in
      (
        record k2 { sepc = pcu; sstatus = stu },
        ap (λ x. finish_call (suc fuel) x pc st) (wait_block_eq on k v h s hn there z)
            ∙ finish_switch (suc fuel) b k2 (k2.tcbs u).context pc st d
            ∙ resume-dispatched fuel k2 (k2.tcbs u).context pcu stu other,
        record {
          running = at;
          queue = queue;
          place =
              ap (λ f. (f k.running).context) tcbs
              ∙ ap (λ x. x.context) (update_self b.tcbs k.running _);
          there = ap (λ f. f h) sems ∙ update_self _ h _;
        },
      )

-- Where the thread `t` is ready that a call has let go, the only one so, and what it is told.
pub record IsLetGoBy (k : Kernel) (t : Ptr) (flag : Bool) (k' : Kernel) : Type 0 where
  pub queue : k'.ready_thread_queue ≡ k.ready_thread_queue ++ t ∷ []
  pub place : (k'.tcbs t).context ≡ (k.tcbs t).context
  pub told : (k'.tcbs t).semaphore_deleted ≡ flag

signal-IsLetGoBy :
    (on : Ptr → Ptr) (k : Kernel) (v : IsKernel on k) (h : Ptr) (s : Sem) (t : Ptr) (ts : List Ptr)
    (fuel pc st : ℕ)
    → h ≢ null
    → k.sems h ≡ some s
    → s.blocked_threads ≡ t ∷ ts
    → (k' : Kernel) × (finish_call fuel (signal k h) pc st ≡ user k') × IsLetGoBy k t false k'
unfolding finish_call leave save_a0 wake put
signal-IsLetGoBy on k v h s t ts fuel pc st hn there b =
    let w = IsSemaphore-IsCounted on k h s (v.semaphores h s there) in
    let (e, _) = signal_wakes k h s hn there w t ts b in
    let woken =
      update_self k.tcbs t (record (k.tcbs t) { blocked = false; semaphore_deleted = false }) in
    (
      _,
      ap (λ x. finish_call fuel x pc st) e ∙ refl,
      record {
        queue = refl;
        place = ap (λ x. x.context) woken;
        told = ap (λ x. x.semaphore_deleted) woken;
      },
    )

-- A thread that must wait on a semaphore without blocked threads, with one other thread ready, which
-- gave up the processor by dispatch: its sem_wait leads to the other thread; when that one calls
-- sem_signal and then thread_dispatch, the first is back behind its sem_wait, with its own sstatus
-- and the result 0.
pub wait-signal :
    (heap : HeapBounds) (on : Ptr → Ptr) (k : Kernel) (h : Ptr) (s : Sem) (u : Ptr) (pc st : ℕ)
    → IsKernel on k
    → h ≢ null
    → k.sems h ≡ some s
    → pos_part s.value ≡ 0
    → s.blocked_threads ≡ []
    → k.ready_thread_queue ≡ u ∷ []
    → (k.tcbs u).context ≡ behind_dispatch pc st
    → (k1 : Kernel) × (k2 : Kernel) × (k3 : Kernel) × (ecall heap 1 k (sem_wait h) 0 ≡ user k1)
      × (k1.running ≡ u)
      × (ecall heap 1 k1 (sem_signal h) 0 ≡ user k2)
      × (ecall heap 1 k2 give_up 0 ≡ user k3)
      × IsBack k3 k.running (pos 0) ((k.sepc + 4) % 2 ^ 64) k.sstatus
wait-signal heap on k h s u pc st v hn there z empty e c =
    let a = k.running in
    let pc' = (k.sepc + 4) % 2 ^ 64 in
    let (k1, d1, p) = wait-IsParked on k v h s hn there u [] e 0 pc' k.sstatus pc st z c in
    let (on1, v1) = subst (Goes k) d1 (wait-Goes on k v h s hn there 0 pc' k.sstatus) in
    let (k2, d2, g) =
      signal-IsLetGoBy on1 k1 v1 h _ a [] 1 ((k1.sepc + 4) % 2 ^ 64) k1.sstatus hn p.there
        (ap (λ l. l ++ a ∷ []) empty) in
    let (on2, v2) =
      subst (Goes k1) d2
        (signal-Goes on1 k1 v1 h _ hn p.there 1 ((k1.sepc + 4) % 2 ^ 64) k1.sstatus) in
    let (k3, d3, b) =
      dispatch-IsBack on2 k2 v2 a [] (g.queue ∙ ap (λ l. l ++ a ∷ []) p.queue) 0
        ((k2.sepc + 4) % 2 ^ 64) k2.sstatus pc' k.sstatus (g.place ∙ p.place) in
    (
      k1,
      k2,
      k3,
      ecall-perform heap 1 k (sem_wait h) 0 ∙ d1,
      p.running,
      ecall-perform heap 1 k1 (sem_signal h) 0 ∙ d2,
      ecall-perform heap 1 k2 give_up 0 ∙ d3,
      subst (λ d. IsBack k3 a (code_of d) pc' k.sstatus) g.told b,
    )
