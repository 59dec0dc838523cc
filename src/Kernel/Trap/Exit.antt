-- ===== src/Kernel/Trap/Exit.antt =====
-- THREAD_EXIT of src/riscv.cpp: a finished thread is never run again.
use mathlib.Core.Path.{subst}
use os1_project.Prelude.{ℕ, suc, ◌≡◌, ◌≢◌, refl, ap, sym, ◌∙◌, true, List, ◌∷◌, All, ne→==, ==_self}
use os1_project.Kernel.{
  Ptr, null, Resume, thread_wrapper, behind_dispatch, behind_exit, behind_block, Kernel, update,
}
use os1_project.Kernel.Schedule.{
  IsWaiting, IsScheduled, ReadyQueue, queued, Switched, dispatch-Switched, All-map_with,
}
use os1_project.Kernel.Trap.{user, leave, save_a0, pop_spp_spie, resume, thread_exit_case}

-- A place where a thread of the queue can go on; only a finished thread has the other.
abbrev pub IsPlace : Resume → Type 0
IsPlace thread_wrapper = Unit
IsPlace (behind_dispatch sepc sstatus) = Unit
IsPlace (behind_exit sepc sstatus) = ⊥
IsPlace (behind_block sepc sstatus) = Unit

-- The kernel is left with the same threads, in the same order, and the same semaphores.
abbrev pub SameThreads : Kernel → Kernel → Type 0
SameThreads k k' =
    (k'.running ≡ k.running)
    × (k'.tcbs ≡ k.tcbs)
    × (k'.ready_thread_queue ≡ k.ready_thread_queue)
    × (k'.sems ≡ k.sems)

pub resume-user :
    (fuel : ℕ) (k : Kernel) (r : Resume)
    → IsPlace r
    → (k' : Kernel) × (resume (suc fuel) k r ≡ user k') × SameThreads k k'
unfolding resume leave save_a0 pop_spp_spie
resume-user fuel k thread_wrapper p = (pop_spp_spie k, refl, (refl, refl, refl, refl))
resume-user fuel k (behind_dispatch sepc sstatus) p =
    (record k { sepc = sepc; sstatus = sstatus }, refl, (refl, refl, refl, refl))
resume-user fuel k (behind_exit sepc sstatus) p = absurd p
resume-user fuel k (behind_block sepc sstatus) p = (_, refl, (refl, refl, refl, refl))

pub SameThreads-IsScheduled : (k k' : Kernel) → SameThreads k k' → IsScheduled k → IsScheduled k'
SameThreads-IsScheduled k k' (at, tcbs, queue, _) v = record {
  present = rw at v.present;
  runnable = rw (at, tcbs) v.runnable;
  queue = rw (at, tcbs, queue) v.queue;
}

-- Where the processor is behind an exit.
pub record Exited (k : Kernel) (next : Ptr) (ts : List Ptr) (k' : Kernel) : Type 0 where
  pub running : k'.running ≡ next
  pub queue : k'.ready_thread_queue ≡ ts
  pub finished : (k'.tcbs k.running).finished ≡ true
  pub gone : All (λ u. u ≢ k.running) (k'.running ∷ k'.ready_thread_queue)
  pub scheduled : IsScheduled k'

abbrev pub ended : Kernel → Kernel
ended k = record k {
  tcbs = update k.tcbs k.running (record (k.tcbs k.running) { finished = true });
  time_slice_counter = 0;
}

module _ (k : Kernel) (v : IsScheduled k) where
  pub ended-ReadyQueue : ReadyQueue (ended k)
  ended-ReadyQueue = record {
    waiting =
        All-map_with {P = IsWaiting k.tcbs k.running} k.ready_thread_queue
          (λ u w. (w.0, unfold update in rw (ne→== u k.running w.2) w.1, w.2)) v.queue.waiting;
    once = v.queue.once;
  }

  ended-queued : queued (ended k) ≡ k.ready_thread_queue
  unfolding update
  ended-queued = rw (==_self k.running)

  pub exit_switch :
      (here : Resume) (l : List Ptr) → k.ready_thread_queue ≡ l → Switched (ended k) here l
  exit_switch here l e =
      subst (λ l. Switched (ended k) here l) (ended-queued ∙ e)
        (dispatch-Switched (ended k) here v.present ended-ReadyQueue)

-- A thread that calls exit, with another first in the queue: the trap ends in that one, the caller
-- is finished and stands neither in the queue nor at the processor, and the scheduler stays in
-- order. One step of fuel is enough.
pub thread_exit_case-Exited :
    (fuel : ℕ) (k : Kernel) (t : Ptr) (ts : List Ptr) (sepc sstatus : ℕ)
    → IsScheduled k
    → k.ready_thread_queue ≡ t ∷ ts
    → IsPlace (k.tcbs t).context
    → (k' : Kernel) × (thread_exit_case (suc fuel) k sepc sstatus ≡ user k') × Exited k t ts k'
unfolding thread_exit_case
thread_exit_case-Exited fuel k t ts sepc sstatus v e place =
    let (k1, d, at, queue, tcbs, _, _, sched) =
      exit_switch k v (behind_exit sepc sstatus) (t ∷ ts) e in
    let waits = subst (All (IsWaiting k.tcbs k.running)) e v.queue.waiting in
    let there : (k1.tcbs t).context ≡ (k.tcbs t).context =
      ap (λ f. (f t).context) tcbs ∙ unfold update in rw (ne→== t k.running waits.0.2) in
    let (k2, u, (at', tcbs', queue', sems')) =
      resume-user fuel k1 (k1.tcbs t).context (subst IsPlace (sym there) place) in
    (
      k2,
      rw (ne→== k.running null v.present, d) u,
      record {
        running = at' ∙ at;
        queue = queue' ∙ queue;
        finished =
            ap (λ f. (f k.running).finished) (tcbs' ∙ tcbs)
            ∙ unfold update in rw (==_self k.running);
        gone =
            rw (at' ∙ at, queue' ∙ queue)
              (waits.0.2, All-map_with {P = IsWaiting k.tcbs k.running} ts (λ u w. w.2) waits.1);
        scheduled = SameThreads-IsScheduled k1 k2 (at', tcbs', queue', sems') sched;
      },
    )
