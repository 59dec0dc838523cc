-- ===== src/Kernel/Invariant/Objects.antt =====
-- New threads and semaphores, and the calls that change one semaphore's value, keep the invariant.
use os1_project.Prelude.{
  suc, ℕ, ◌≡◌, ◌≢◌, refl, sym, inl, inr, Bool, true, some, [], ◌∷◌, All, All-append, ◌==◌, ne→==,
  ==_self, Bool-cases, not, ◌&&◌,
}
use os1_project.Prelude.Int.{ℤ, pos, neg_part}
use os1_project.Kernel.{
  Ptr, null, Tcb, Sem, Kernel, update, put, is_runnable, new_tcb, start_thread,
}
use os1_project.Kernel.Schedule.{Distinct-snoc, IsWaiting, All-and}
use os1_project.Kernel.Semaphore.{set_sem, trywait, open_sem}
use os1_project.Kernel.Semaphore.Trying.{trywait-wait}
use os1_project.Kernel.Trap.{finish_call}
use os1_project.Kernel.Trap.Exit.{IsPlace}
use os1_project.Kernel.Invariant.{IsBlockedOn, IsKernel, Goes, SameThreads-IsKernel}
use os1_project.Kernel.Invariant.Switch.{update-IsBlockedOn}
use os1_project.Kernel.Invariant.Blocking.{update_ne, set_sem-IsKernel, left-Goes, wait-Goes}

-- An object that no part of the kernel names yet.
pub record IsNew (k : Kernel) (t : Ptr) : Type 0 where
  pub present : t ≢ null
  pub idle : t ≢ k.running
  pub unqueued : All (λ u. u ≢ t) k.ready_thread_queue
  pub unblocked : (h : Ptr) (s : Sem) → k.sems h ≡ some s → All (λ u. u ≢ t) s.blocked_threads

abbrev pub made : Kernel → Ptr → Tcb → Kernel
made k t new = record k { tcbs = update k.tcbs t new }

module _ (on : Ptr → Ptr) (k : Kernel) (t : Ptr) (v : IsKernel on k) (n : IsNew k t) where
  pub made-IsKernel : (new : Tcb) → IsKernel on (made k t new)
  made-IsKernel new = record {
    ready = record {
      scheduled = record {
        present = v.ready.scheduled.present;
        runnable =
            rw (update_ne k.tcbs t new k.running (λ e. n.idle (sym e))) v.ready.scheduled.runnable;
        queue = record {
          waiting =
              All-and {P = IsWaiting k.tcbs k.running} {Q = λ u. u ≢ t} k.ready_thread_queue
                (λ u w d. rw (update_ne k.tcbs t new u d) w) v.ready.scheduled.queue.waiting
                n.unqueued;
          once = v.ready.scheduled.queue.once;
        };
      };
      places =
          All-and {P = λ u. IsPlace (k.tcbs u).context} {Q = λ u. u ≢ t} k.ready_thread_queue
            (λ u w d. rw (update_ne k.tcbs t new u d) w) v.ready.places n.unqueued;
    };
    semaphores = λ h s there.
        let w = v.semaphores h s there in
        record {
          count = w.count;
          held =
              All-and {P = IsBlockedOn on k.tcbs h} {Q = λ u. u ≢ t} s.blocked_threads
                (λ u b d. update-IsBlockedOn on k.tcbs h u t new b d) w.held
                (n.unblocked h s there);
          once = w.once;
        };
  }

  pub made-IsNew : (new : Tcb) → IsNew (made k t new) t
  made-IsNew new = record {
    present = n.present;
    idle = n.idle;
    unqueued = n.unqueued;
    unblocked = n.unblocked;
  }

-- A runnable thread that nothing names yet enters the ready queue.
pub put-IsKernel :
    (on : Ptr → Ptr) (k : Kernel) (t : Ptr)
    → IsKernel on k
    → IsNew k t
    → is_runnable (k.tcbs t) ≡ true
    → IsPlace (k.tcbs t).context
    → IsKernel on (put k t)
unfolding put
put-IsKernel on k t v n r p = record {
  ready = record {
    scheduled = record {
      present = v.ready.scheduled.present;
      runnable = v.ready.scheduled.runnable;
      queue = record {
        waiting =
            All-append (IsWaiting k.tcbs k.running) k.ready_thread_queue (t ∷ [])
              v.ready.scheduled.queue.waiting ((n.present, r, n.idle), tt);
        once = Distinct-snoc k.ready_thread_queue t v.ready.scheduled.queue.once n.unqueued;
      };
    };
    places =
        All-append (λ u. IsPlace (k.tcbs u).context) k.ready_thread_queue (t ∷ []) v.ready.places
          (p, tt);
  };
  semaphores = v.semaphores;
}

-- The constructor of TCB, for an object that nothing names yet.
pub new_tcb-IsKernel :
    (on : Ptr → Ptr) (k : Kernel) (t body stack arg : Ptr) (create_only : Bool)
    → IsKernel on k
    → IsNew k t
    → IsKernel on (new_tcb k t body stack arg create_only)
unfolding new_tcb
new_tcb-IsKernel on k t body stack arg create_only v n =
    elim (Bool-cases (not (body == null) && not create_only)) [
      | inl e ↦ rw e (
          put-IsKernel on _ t (made-IsKernel on k t v n _) (made-IsNew on k t v n _)
            (unfold update in rw (==_self t) refl) (unfold update in rw (==_self t) tt))
      | inr e ↦ rw e (made-IsKernel on k t v n _)
    ]

pub start_thread-IsKernel :
    (on : Ptr → Ptr) (k : Kernel) (t : Ptr)
    → IsKernel on k
    → IsNew k t
    → is_runnable (k.tcbs t) ≡ true
    → IsPlace (k.tcbs t).context
    → IsKernel on (start_thread k t).0
unfolding start_thread
start_thread-IsKernel on k t v n r p =
    rw (ne→== t null n.present, ne→== k.running null v.ready.scheduled.present)
      (put-IsKernel on k t v n r p)

-- Sem::open whose first value is not negative.
pub open_sem-IsKernel :
    (on : Ptr → Ptr) (k : Kernel) (fresh handle : Ptr) (init : ℤ)
    → IsKernel on k
    → neg_part init ≡ 0
    → IsKernel on (open_sem k fresh handle init).0
unfolding open_sem
open_sem-IsKernel on k fresh handle init v z = elim (Bool-cases (handle == null)) [
  | inl e ↦ rw e v
  | inr e ↦ rw e (
      SameThreads-IsKernel on (set_sem k fresh _) _ (refl, refl, refl, refl)
        (set_sem-IsKernel on k fresh _ v (record { count = z; held = tt; once = tt })))
]

-- Sem::trywait of a present semaphore.
pub trywait-Goes :
    (on : Ptr → Ptr) (k : Kernel) (h : Ptr) (s : Sem)
    → IsKernel on k
    → h ≢ null
    → k.sems h ≡ some s
    → (fuel pc st : ℕ) → Goes k (finish_call (suc fuel) (trywait k h) pc st)
unfolding finish_call
trywait-Goes on k h s v hn there fuel pc st = elim (trywait-wait k h s hn there) [
  | inl (one, e) ↦ rw e (wait-Goes on k v h s hn there fuel pc st)
  | inr (other, e) ↦ rw e (left-Goes on k k (pos 1) pc st v)
]
