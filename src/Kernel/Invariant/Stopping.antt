-- ===== src/Kernel/Invariant/Stopping.antt =====
-- Yield, exit and a wait that blocks: the running thread stops, in the invariant of the kernel.
use os1_project.Prelude.{
  ℕ, suc, ◌≡◌, ◌≢◌, refl, sym, ap, ◌∙◌, inl, inr, true, false, List, [], ◌∷◌, ◌++◌, All, All-append,
  arith, ◌==◌, ne→==, ==_self, Bool-cases, if◌then◌else◌, length, length-append,
}
use os1_project.Kernel.{
  Ptr, null, Resume, behind_dispatch, behind_exit, Tcb, Sem, Kernel, update, is_runnable,
}
use os1_project.Kernel.Schedule.{IsWaiting, IsScheduled, IsQueue, saved, All-map_with, All-and}
use os1_project.Kernel.Trap.{with_finished, after_dispatch, thread_dispatch_case, thread_exit_case}
use os1_project.Kernel.Trap.Exit.{IsPlace, ended}
use os1_project.Kernel.Invariant.{IsBlockedOn, IsSemaphore, IsKernel, Goes}
use os1_project.Kernel.Invariant.Switch.{
  IsSwitchable, switch-Resumed, blocked-ne, update-IsSemaphore,
}

saved-IsPlace :
    (tcbs : Ptr → Tcb) (p : Ptr) (here : Resume) (t : Ptr)
    → IsPlace here
    → IsPlace (tcbs t).context
    → IsPlace (saved tcbs p here t).context
unfolding update
saved-IsPlace tcbs p here t h c = elim (Bool-cases (t == p)) [ inl e ↦ rw e h | inr e ↦ rw e c ]

saved_self : (tcbs : Ptr → Tcb) (p : Ptr) (here : Resume) → (saved tcbs p here p).context ≡ here
unfolding update
saved_self tcbs p here = rw (==_self p) refl

module _ (on : Ptr → Ptr) (k : Kernel) (v : IsKernel on k) where
  abbrev pub run : Ptr
  run = k.running

  pub sched : IsScheduled k
  sched = v.ready.scheduled

  pub yield-IsSwitchable :
      (pc st : ℕ) → IsSwitchable on (record k { time_slice_counter = 0 }) (behind_dispatch pc st)
  yield-IsSwitchable pc st = record {
    present = sched.present;
    queue = sched.queue;
    places = rw sched.runnable (
        All-append (λ t. IsPlace (saved k.tcbs run (behind_dispatch pc st) t).context)
          k.ready_thread_queue (run ∷ [])
          (All-map_with {P = λ t. IsPlace (k.tcbs t).context} k.ready_thread_queue
            (λ t p. saved-IsPlace k.tcbs run (behind_dispatch pc st) t tt p) v.ready.places)
          (rw (saved_self k.tcbs run (behind_dispatch pc st)) tt, tt));
    semaphores =
        λ h s there. update-IsSemaphore on k.tcbs h run s _ sched.runnable (v.semaphores h s there);
  }

  -- The running thread with other flags, by which it is no more runnable.
  module _ (new : Tcb) (stops : is_runnable new ≡ false) where
    abbrev pub stopped : Ptr → Tcb
    stopped = update k.tcbs run new

    pub stopped-queued :
        (if is_runnable (stopped run)
          then k.ready_thread_queue ++ run ∷ []
          else k.ready_thread_queue)
        ≡ k.ready_thread_queue
    unfolding update
    stopped-queued = rw (==_self run, stops) refl

    pub stopped-IsQueue : IsQueue stopped run k.ready_thread_queue
    stopped-IsQueue = record {
      waiting =
          All-map_with {P = IsWaiting k.tcbs run} k.ready_thread_queue
            (λ u w. (w.0, unfold update in rw (ne→== u run w.2) w.1, w.2)) sched.queue.waiting;
      once = sched.queue.once;
    }

    pub twice-ne : (here : Resume) (t : Ptr) → t ≢ run → saved stopped run here t ≡ k.tcbs t
    unfolding update
    twice-ne here t n = rw (ne→== t run n) refl

    pub stopped-places :
        (here : Resume) → All (λ t. IsPlace (saved stopped run here t).context) k.ready_thread_queue
    stopped-places here =
        All-and {P = IsWaiting k.tcbs run} {Q = λ t. IsPlace (k.tcbs t).context}
          k.ready_thread_queue (λ t w p. rw (twice-ne here t w.2) p) sched.queue.waiting
          v.ready.places

    pub stopped-IsBlockedOn :
        (here : Resume) (h t : Ptr)
        → IsBlockedOn on k.tcbs h t
        → IsBlockedOn on (saved stopped run here) h t
    stopped-IsBlockedOn here h t b =
        rw (twice-ne here t (blocked-ne on k.tcbs h t run b sched.runnable)) b

    pub stopped-IsSemaphore :
        (here : Resume) (h : Ptr) (s : Sem)
        → IsSemaphore on k.tcbs h s
        → IsSemaphore on (saved stopped run here) h s
    stopped-IsSemaphore here h s w = record {
      count = w.count;
      held =
          All-map_with {P = IsBlockedOn on k.tcbs h} s.blocked_threads (stopped-IsBlockedOn here h)
            w.held;
      once = w.once;
    }

  ended-IsSwitchable : (here : Resume) → IsSwitchable on (ended k) here
  ended-IsSwitchable here =
      let new = record (k.tcbs run) { finished = true } in
      record {
        present = sched.present;
        queue = stopped-IsQueue new refl;
        places = rw (stopped-queued new refl) (stopped-places new refl here);
        semaphores = λ h s there. stopped-IsSemaphore new refl here h s (v.semaphores h s there);
      }

  nonempty : (ts : List Ptr) → ts ++ run ∷ [] ≢ []
  nonempty ts e = absurd (omega (arith, ap length e, length-append ts (run ∷ [])))

  pub thread_dispatch_case-Goes :
      (fuel pc st : ℕ) → Goes k (thread_dispatch_case (suc fuel) k pc st)
  unfolding thread_dispatch_case after_dispatch
  thread_dispatch_case-Goes fuel pc st =
      elim (switch-Resumed on fuel _ (behind_dispatch pc st) (yield-IsSwitchable pc st)) [
        | inl (d, e) ↦ absurd (nonempty k.ready_thread_queue (sym (rw sched.runnable refl) ∙ e))
        | inr (k2, r, k3, d, u, ok) ↦ rw (d, u) (on, ok)
      ]

  pub thread_exit_case-Goes : (fuel pc st : ℕ) → Goes k (thread_exit_case (suc fuel) k pc st)
  unfolding thread_exit_case
  thread_exit_case-Goes fuel pc st =
      let new = record (k.tcbs run) { finished = true } in
      elim (switch-Resumed on fuel (ended k) (behind_exit pc st)
        (ended-IsSwitchable (behind_exit pc st))) [
          | inl (d, e) ↦ rw (ne→== run null sched.present, d) (sym (stopped-queued new refl) ∙ e)
          | inr (k2, r, k3, d, u, ok) ↦ rw (ne→== run null sched.present, d, u) (on, ok)
        ]

  -- The dispatch of a thread that has just been marked as finished.
  pub finished-Goes :
      (fuel pc st : ℕ) → Goes k (thread_dispatch_case (suc fuel) (with_finished k) pc st)
  unfolding thread_dispatch_case after_dispatch
  finished-Goes fuel pc st =
      let new = record (k.tcbs run) { finished = true } in
      elim (switch-Resumed on fuel (ended k) (behind_dispatch pc st)
        (ended-IsSwitchable (behind_dispatch pc st))) [
          | inl (d, e) ↦ rw d (sym (stopped-queued new refl) ∙ e)
          | inr (k2, r, k3, d, u, ok) ↦ rw (d, u) (on, ok)
        ]
