-- ===== src/Kernel/Invariant/Rotation.antt =====
-- Round robin: with threads that give up the processor, every ready thread gets its turn.
use os1_project.Prelude.{
  ℕ, zero, suc, ◌+◌, ◌%◌, ◌^◌, ◌≡◌, refl, sym, ap, ◌∙◌, subst, Option, none, some, List, [], ◌∷◌,
  ◌++◌, All, length, append_assoc, ◌>>=◌,
}
use os1_project.Allocator.{HeapBounds}
use os1_project.Kernel.{Ptr, Resume, behind_dispatch, Kernel}
use os1_project.Kernel.Schedule.{saved, queued, Switched, dispatch-Switched}
use os1_project.Kernel.Trap.{
  Run, user, fault, halted, out_of_fuel, after_dispatch, thread_dispatch_case,
}
use os1_project.Kernel.Trap.Exit.{IsPlace, resume-user}
use os1_project.Kernel.Invariant.{IsKernel, SameThreads-IsKernel}
use os1_project.Kernel.Invariant.Switch.{IsSwitchable}
use os1_project.Kernel.Invariant.Stopping.{yield-IsSwitchable}
use os1_project.Kernel.Interface.{give_up, ecall}
use os1_project.Kernel.Interface.Encoding.{ecall-perform}

-- Where a yield leads: to the first of the queue, with the caller last.
pub record Rotated (on : Ptr → Ptr) (k : Kernel) (t : Ptr) (ts : List Ptr) (k' : Kernel)
    : Type 0 where
  pub running : k'.running ≡ t
  pub queue : k'.ready_thread_queue ≡ ts ++ k.running ∷ []
  pub valid : IsKernel on k'

module _ (on : Ptr → Ptr) (k : Kernel) (t : Ptr) (ts : List Ptr) (pc st : ℕ) where
  abbrev here : Resume
  here = behind_dispatch pc st

  abbrev no_slice : Kernel
  no_slice = record k { time_slice_counter = 0 }

  rotate_by :
      (fuel : ℕ)
      → IsKernel on k
      → k.ready_thread_queue ≡ t ∷ ts
      → Switched no_slice here (t ∷ (ts ++ k.running ∷ []))
      → IsSwitchable on no_slice here
      → queued no_slice ≡ t ∷ (ts ++ k.running ∷ [])
      → (k' : Kernel) × (thread_dispatch_case (suc fuel) k pc st ≡ user k') × Rotated on k t ts k'
  unfolding thread_dispatch_case after_dispatch
  rotate_by fuel v e (k2, d, at, queue, tcbs, results, sems, sched) w q =
      let places = subst (All (λ u. IsPlace (saved k.tcbs k.running here u).context)) q w.places in
      let ok : IsKernel on k2 = record {
        ready = record { scheduled = sched; places = rw (queue, tcbs) places.1 };
        semaphores = λ h s there. rw tcbs (w.semaphores h s (rw (sym sems) there));
      } in
      let (k3, u, same) = resume-user fuel k2 (k2.tcbs t).context (rw tcbs places.0) in
      (
        k3,
        rw d u,
        record {
          running = same.0 ∙ at;
          queue = same.2 ∙ queue;
          valid = SameThreads-IsKernel on k2 k3 same ok;
        },
      )

  pub thread_dispatch_case-Rotated :
      (fuel : ℕ)
      → IsKernel on k
      → k.ready_thread_queue ≡ t ∷ ts
      → (k' : Kernel) × (thread_dispatch_case (suc fuel) k pc st ≡ user k') × Rotated on k t ts k'
  thread_dispatch_case-Rotated fuel v e =
      let q : queued no_slice ≡ t ∷ (ts ++ k.running ∷ []) =
        rw (v.ready.scheduled.runnable, e) refl in
      rotate_by fuel v e
        (subst (Switched no_slice here) q
          (dispatch-Switched no_slice here v.ready.scheduled.present v.ready.scheduled.queue))
        (yield-IsSwitchable on k v pc st) q

abbrev of_user : Run → Option Kernel
of_user (user k) = some k
of_user fault = none
of_user halted = none
of_user out_of_fuel = none

-- So many system calls thread_dispatch, each by the thread that runs then.
unfoldable pub yields : HeapBounds → ℕ → Kernel → Option Kernel
yields heap zero k = some k
yields heap (suc n) k = of_user (ecall heap 1 k give_up 0) >>= yields heap n

yields-first :
    (heap : HeapBounds) (n : ℕ) (k k' : Kernel)
    → thread_dispatch_case 1 k ((k.sepc + 4) % 2 ^ 64) k.sstatus ≡ user k'
    → yields heap (suc n) k ≡ yields heap n k'
unfolding yields
yields-first heap n k k' e = rw (ecall-perform heap 1 k give_up 0, e) refl

-- A ready thread runs after as many yields as threads stand before it in the queue, and one more,
-- by whichever threads run in between, which are then all queued behind it, in their order.
pub yields-turn :
    (heap : HeapBounds) (on : Ptr → Ptr) (us : List Ptr) (t : Ptr) (vs : List Ptr) (k : Kernel)
    → IsKernel on k
    → k.ready_thread_queue ≡ us ++ t ∷ vs
    → (k' : Kernel) × (yields heap (suc (length us)) k ≡ some k')
      × (k'.running ≡ t)
      × (k'.ready_thread_queue ≡ vs ++ k.running ∷ us)
      × IsKernel on k'
yields-turn heap on [] t vs k v e =
    let (k', d, r) =
      thread_dispatch_case-Rotated on k t vs ((k.sepc + 4) % 2 ^ 64) k.sstatus 0 v e in
    (k', yields-first heap 0 k k' d ∙ unfold yields in refl, r.running, r.queue, r.valid)
yields-turn heap on (u ∷ us) t vs k v e =
    let (k1, d, r) =
      thread_dispatch_case-Rotated on k u (us ++ t ∷ vs) ((k.sepc + 4) % 2 ^ 64) k.sstatus 0 v e in
    let (k', y, at, queue, w) =
      yields-turn heap on us t (vs ++ k.running ∷ []) k1 r.valid
        (r.queue ∙ append_assoc us (t ∷ vs) (k.running ∷ [])) in
    (
      k',
      yields-first heap (suc (length us)) k k1 d ∙ y,
      at,
      queue
          ∙ append_assoc vs (k.running ∷ []) (k1.running ∷ us)
          ∙ ap (λ x. vs ++ k.running ∷ x ∷ us) r.running,
      w,
    )
