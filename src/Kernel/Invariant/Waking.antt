-- ===== src/Kernel/Invariant/Waking.antt =====
-- Sem::signal and Sem::close keep the invariant of the kernel.
use os1_project.Prelude.{
  ℕ, zero, suc, ◌<◌, ◌≡◌, ◌≢◌, refl, sym, ap, ◌∙◌, subst, inl, inr, Bool, true, false, Option, none,
  some, List, [], ◌∷◌, All, All-append, arith, ◌==◌, ne→==, ==_iff, Bool-cases, length,
}
use os1_project.Prelude.Int.{pos, ◌+ℤ◌, neg_part}
use mathlib.Core.Option.{some-injective}
use os1_project.Kernel.{Ptr, null, Tcb, Sem, Kernel, update, put}
use os1_project.Kernel.Semaphore.Counting.{IsCounted}
use os1_project.Kernel.Schedule.{Distinct, All-map_with, All-and}
use os1_project.Kernel.Semaphore.{returns, wake, signal, close_loop, close_present, close}
use os1_project.Kernel.Semaphore.Waking.{
  wake-IsScheduled, unblock_first, signalled, signal_wakes, signal_counts,
}
use os1_project.Kernel.Trap.{finish_call}
use os1_project.Kernel.Trap.Exit.{IsPlace}
use os1_project.Kernel.Invariant.{
  IsBlockedOn, IsSemaphore, OthersValid, IsReady, IsKernel, Goes, IsSemaphore-IsCounted,
}
use os1_project.Kernel.Invariant.Switch.{update-IsBlockedOn}
use os1_project.Kernel.Invariant.Blocking.{updated_sem, set_sem-IsKernel, left-Goes}

woken_context :
    (tcbs : Ptr → Tcb) (t : Ptr) (flag : Bool) (u : Ptr)
    → (update tcbs t (record (tcbs t) { blocked = false; semaphore_deleted = flag }) u).context
      ≡ (tcbs u).context
unfolding update
woken_context tcbs t flag u = elim (Bool-cases (u == t)) [
  | inl e ↦ rw e (ap (λ x. (tcbs x).context) (sym ((==_iff u t).0 e)))
  | inr e ↦ rw e refl
]

-- Letting a thread go that is blocked on `h` keeps the ready queue and the other semaphores valid.
module _ (on : Ptr → Ptr) (k : Kernel) (h t : Ptr) (flag : Bool)
    (b : IsBlockedOn on k.tcbs h t) where
  wake-IsReady : IsReady k → IsReady (wake k t flag)
  wake-IsReady v = record {
    scheduled = wake-IsScheduled k t flag v.scheduled b.0 b.1 b.2;
    places =
        unfold wake put in
        All-append _ k.ready_thread_queue (t ∷ [])
          (All-map_with {P = λ u. IsPlace (k.tcbs u).context} k.ready_thread_queue
            (λ u p. rw (woken_context k.tcbs t flag u) p) v.places)
          (rw (woken_context k.tcbs t flag t) b.3, tt);
  }

  wake-rest :
      (h' : Ptr) (us : List Ptr)
      → All (IsBlockedOn on k.tcbs h') us
      → All (λ u. u ≢ t) us
      → All (IsBlockedOn on (wake k t flag).tcbs h') us
  unfolding wake put
  wake-rest h' us v n =
      All-and {P = IsBlockedOn on k.tcbs h'} {Q = λ u. u ≢ t} us
        (λ u w d. update-IsBlockedOn on k.tcbs h' u t _ w d) v n

  wake-OthersValid : OthersValid on k h → OthersValid on (wake k t flag) h
  wake-OthersValid v h' s n there =
      let w = v h' s n (unfold wake put in there) in
      record {
        count = w.count;
        held = wake-rest h' s.blocked_threads w.held (
            All-map_with {P = IsBlockedOn on k.tcbs h'} s.blocked_threads
              (λ u c e. n (sym c.4 ∙ ap on e ∙ b.4)) w.held);
        once = w.once;
      }

-- The semaphores, once that at `h` is replaced.
replaced-IsKernel :
    (on : Ptr → Ptr) (k : Kernel) (h : Ptr) (new : Option Sem)
    → IsReady k
    → OthersValid on k h
    → ((s : Sem) → new ≡ some s → IsSemaphore on k.tcbs h s)
    → IsKernel on (record k { sems = update k.sems h new })
replaced-IsKernel on k h new v others w = record {
  ready = record {
    scheduled = record {
      present = v.scheduled.present;
      runnable = v.scheduled.runnable;
      queue = v.scheduled.queue;
    };
    places = v.places;
  };
  semaphores = λ h' s' e.
      updated_sem (IsSemaphore on k.tcbs) k.sems h h' new s' (w s') (λ n f. others h' s' n f) e;
}

module _ (on : Ptr → Ptr) (k : Kernel) (v : IsKernel on k) (h : Ptr) (s : Sem) (hn : h ≢ null)
    (there : k.sems h ≡ some s) where
  valid : IsSemaphore on k.tcbs h s
  valid = v.semaphores h s there

  signalled-IsKernel :
      (t : Ptr) (ts : List Ptr)
      → s.blocked_threads ≡ t ∷ ts
      → neg_part (s.value +ℤ pos 1) ≡ length ts
      → IsKernel on (signalled k h s hn there (IsSemaphore-IsCounted on k h s valid) t ts)
  signalled-IsKernel t ts e count =
      let held = subst (All (IsBlockedOn on k.tcbs h)) e valid.held in
      let once = subst Distinct e valid.once in
      replaced-IsKernel on (wake k t false) h
        (some (record s { value = s.value +ℤ pos 1; blocked_threads = ts }))
        (wake-IsReady on k h t false held.0 v.ready)
        (wake-OthersValid on k h t false held.0 (λ h' s' n f. v.semaphores h' s' f))
        (λ s' f. subst (IsSemaphore on (wake k t false).tcbs h) (some-injective _ _ f) (record {
          count = count;
          held = wake-rest on k h t false held.0 h ts held.1 once.0;
          once = once.1;
        }))

  counted : IsCounted k s
  counted = IsSemaphore-IsCounted on k h s valid

  signal-Goes_by :
      (l : List Ptr)
      → s.blocked_threads ≡ l
      → (fuel pc st : ℕ) → Goes k (finish_call fuel (signal k h) pc st)
  unfolding finish_call
  signal-Goes_by [] e fuel pc st =
      let (r, count) = signal_counts k h s hn there counted e in
      rw r (
        left-Goes on k _ (pos 0) pc st (
          set_sem-IsKernel on k h _ v
            (record { count = count ∙ ap length (sym e); held = valid.held; once = valid.once })))
  signal-Goes_by (t ∷ ts) e fuel pc st =
      let (r, count) = signal_wakes k h s hn there counted t ts e in
      rw r (left-Goes on k _ (pos 0) pc st (signalled-IsKernel t ts e count))

  -- Sem::signal of a present semaphore returns to its caller.
  pub signal-Goes : (fuel pc st : ℕ) → Goes k (finish_call fuel (signal k h) pc st)
  signal-Goes = signal-Goes_by s.blocked_threads refl

module _ (on : Ptr → Ptr) (h : Ptr) where
  close_loop-IsReady :
      (ts : List Ptr) (fuel : ℕ) (k : Kernel)
      → length ts < fuel
      → IsReady k
      → OthersValid on k h
      → All (IsBlockedOn on k.tcbs h) ts
      → Distinct ts
      → (k' : Kernel) × (close_loop fuel k ts ≡ some (k', [])) × IsReady k' × OthersValid on k' h
  unfolding close_loop
  close_loop-IsReady ts zero k short v others held once = absurd (omega arith)
  close_loop-IsReady [] (suc fuel) k short v others held once = (k, refl, v, others)
  close_loop-IsReady (t ∷ ts) (suc fuel) k short v others held once =
      let (k', e, v', others') =
        close_loop-IsReady ts fuel (wake k t true) (omega arith)
          (wake-IsReady on k h t true held.0 v) (wake-OthersValid on k h t true held.0 others)
          (wake-rest on k h t true held.0 h ts held.1 once.0) once.1 in
      (
        k',
        rw (ne→== t null held.0.0, unblock_first k t ts true (held.0.0, held.0.1)) e,
        v',
        others',
      )

  -- Sem::close of a present semaphore ends, and keeps the invariant.
  pub close-IsKernel :
      (k : Kernel) (s : Sem)
      → IsKernel on k
      → h ≢ null
      → k.sems h ≡ some s
      → (k' : Kernel) × (close k h ≡ some (returns k' (pos 0))) × IsKernel on k'
  unfolding close close_present
  close-IsKernel k s v hn there =
      let w = v.semaphores h s there in
      let (k1, e, ready, others) =
        close_loop-IsReady s.blocked_threads (suc (length s.blocked_threads)) k (omega arith)
          v.ready (λ h' s' n f. v.semaphores h' s' f) w.held w.once in
      (
        record k1 { sems = update k1.sems h none },
        rw (ne→== h null hn, there, e) refl,
        replaced-IsKernel on k1 h none ready others (λ s' f. cc),
      )
