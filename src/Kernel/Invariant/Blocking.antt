-- ===== src/Kernel/Invariant/Blocking.antt =====
-- Sem::wait keeps the invariant of the kernel, whether it passes or blocks.
use os1_project.Prelude.{
  ℕ, suc, ◌<◌, ◌≡◌, ◌≢◌, refl, sym, ap, ◌∙◌, subst, ◌⊎◌, inl, inr, true, false, Option, some, [],
  ◌∷◌, ◌++◌, All-append, arith, ◌==◌, ne→==, ==_self, ==_iff, Bool-cases, length-append, zero,
}
use os1_project.Prelude.Int.{ℤ, pos, negsuc, ◌-ℤ◌, pos_part, neg_part}
use mathlib.Core.Option.{some-injective}
use os1_project.Kernel.{
  Ptr, null, Resume, behind_block, Tcb, Sem, Kernel, update, is_runnable, dispatch, null_context,
  switched,
}
use os1_project.Kernel.Schedule.{saved, All-map_with, Distinct-snoc}
use os1_project.Kernel.Semaphore.{returns, dispatches, block, set_sem, with_sem, wait}
use os1_project.Kernel.Semaphore.Counting.{down_negative, down_positive}
use os1_project.Kernel.Trap.{fault, leave, save_a0, resume, finish_call}
use os1_project.Kernel.Trap.Exit.{IsPlace}
use os1_project.Kernel.Invariant.{IsBlockedOn, IsSemaphore, IsKernel, Goes, SameThreads-IsKernel}
use os1_project.Kernel.Invariant.Switch.{IsSwitchable, switch-Resumed, blocked-ne}
use os1_project.Kernel.Invariant.Stopping.{
  sched, stopped, stopped-queued, stopped-IsQueue, stopped-places, stopped-IsBlockedOn,
}

-- A semaphore of a kernel whose semaphores are as before but for `h`.
pub updated_sem :
    (P : Ptr → Sem → Type 0) (sems : Ptr → Option Sem) (h h' : Ptr) (new : Option Sem) (s : Sem)
    → (new ≡ some s → P h s)
    → (h' ≢ h → sems h' ≡ some s → P h' s)
    → update sems h new h' ≡ some s
    → P h' s
unfolding update
updated_sem P sems h h' new s f g e = elim (Bool-cases (h' == h)) [
  | inl t ↦ let same = (==_iff h' h).0 t in subst (λ x. P x s) (sym same) (f (sym (rw t refl) ∙ e))
  | inr t ↦ g (λ same. cc (sym t ∙ ap (λ x. x == h) same ∙ ==_self h)) (sym (rw t refl) ∙ e)
]

pub update_ne {ℓ} :
    {A : Type ℓ} (f : Ptr → A) (p : Ptr) (v : A) (q : Ptr) → q ≢ p → update f p v q ≡ f q
unfolding update
update_ne f p v q n = rw (ne→== q p n) refl

pub update_self {ℓ} : {A : Type ℓ} (f : Ptr → A) (p : Ptr) (v : A) → update f p v p ≡ v
unfolding update
update_self f p v = rw (==_self p) refl

sign : (v : ℤ) → (pos_part v ≡ 0) ⊎ (0 < pos_part v)
sign (pos zero) = inl refl
sign (pos (suc n)) = inr (omega arith)
sign (negsuc n) = inl refl

down_counts : (v : ℤ) → 0 < pos_part v → neg_part (v -ℤ pos 1) ≡ neg_part v
unfolding ◌-ℤ◌
down_counts v z = ground arith

-- A semaphore is put in place.
pub set_sem-IsKernel :
    (on : Ptr → Ptr) (k : Kernel) (h : Ptr) (s : Sem)
    → IsKernel on k
    → IsSemaphore on k.tcbs h s
    → IsKernel on (set_sem k h s)
set_sem-IsKernel on k h s v w = record {
  ready = record {
    scheduled = record {
      present = v.ready.scheduled.present;
      runnable = v.ready.scheduled.runnable;
      queue = v.ready.scheduled.queue;
    };
    places = v.ready.places;
  };
  semaphores = λ h' s' e.
      updated_sem (IsSemaphore on k.tcbs) k.sems h h' (some s) s'
        (λ f. subst (IsSemaphore on k.tcbs h) (some-injective _ _ f) w)
        (λ n f. v.semaphores h' s' f) e;
}

finish_null :
    (fuel : ℕ) (k : Kernel) (pc st : ℕ)
    → dispatch k (behind_block pc st) ≡ null_context
    → finish_call fuel (dispatches k) pc st ≡ fault
unfolding finish_call
finish_null fuel k pc st d = rw (d, finish_call) refl

pub finish_switch :
    (fuel : ℕ) (k k' : Kernel) (r : Resume) (pc st : ℕ)
    → dispatch k (behind_block pc st) ≡ switched k' r
    → finish_call fuel (dispatches k) pc st ≡ resume fuel k' r
unfolding finish_call
finish_switch fuel k k' r pc st d = rw (d, finish_call) refl

-- A trap that returns to its thread with a result.
pub left-Goes :
    (on : Ptr → Ptr) (k k' : Kernel) (code : ℤ) (pc st : ℕ)
    → IsKernel on k'
    → Goes k (leave (save_a0 k' code) pc st)
unfolding leave save_a0
left-Goes on k k' code pc st v = (on, SameThreads-IsKernel on k' _ (refl, refl, refl, refl) v)

module _ (on : Ptr → Ptr) (k : Kernel) (v : IsKernel on k) (h : Ptr) (s : Sem) (hn : h ≢ null)
    (there : k.sems h ≡ some s) where
  abbrev pub down : Sem
  down = record s { value = s.value -ℤ pos 1 }

  abbrev pub blocking : Tcb
  blocking = record (k.tcbs k.running) { blocked = true }

  pub blocking_stops : is_runnable blocking ≡ false
  blocking_stops = ground arith

  abbrev pub joined : Sem
  joined = record down { blocked_threads = s.blocked_threads ++ k.running ∷ [] }

  abbrev pub blocked_kernel : Kernel
  blocked_kernel = record k {
    tcbs = stopped on k v blocking blocking_stops;
    sems = update (update k.sems h (some down)) h (some joined);
  }

  pub wait_block_eq : pos_part s.value ≡ 0 → wait k h ≡ dispatches blocked_kernel
  unfolding wait block
  wait_block_eq z =
      rw
        (
          ne→== h null hn,
          there,
          with_sem,
          (down_negative s.value z).0,
          ne→== k.running null (sched on k v).present,
        )
        refl

  wait_pass_eq : 0 < pos_part s.value → wait k h ≡ returns (set_sem k h down) (pos 0)
  unfolding wait
  wait_pass_eq z = rw (ne→== h null hn, there, with_sem, down_positive s.value z) refl

  abbrev on_too : Ptr → Ptr
  on_too = update on k.running h

  module _ (here : Resume) where
    abbrev after : Ptr → Tcb
    after = saved (stopped on k v blocking blocking_stops) k.running here

    kept-IsBlockedOn : (h' t : Ptr) → IsBlockedOn on k.tcbs h' t → IsBlockedOn on_too after h' t
    kept-IsBlockedOn h' t b =
        let c = stopped-IsBlockedOn on k v blocking blocking_stops here h' t b in
        let n = blocked-ne on k.tcbs h' t k.running b (sched on k v).runnable in
        (c.0, c.1, c.2, c.3, update_ne on k.running h t n ∙ c.4)

    joined-IsBlockedOn : IsPlace here → IsBlockedOn on_too after h k.running
    unfolding update
    joined-IsBlockedOn place =
        rw (==_self k.running)
          ((sched on k v).present, refl, ground (arith, (sched on k v).runnable), place, refl)

    kept-IsSemaphore :
        (h' : Ptr) (s' : Sem) → IsSemaphore on k.tcbs h' s' → IsSemaphore on_too after h' s'
    kept-IsSemaphore h' s' w = record {
      count = w.count;
      held =
          All-map_with {P = IsBlockedOn on k.tcbs h'} s'.blocked_threads (kept-IsBlockedOn h')
            w.held;
      once = w.once;
    }

    joined-IsSemaphore : pos_part s.value ≡ 0 → IsPlace here → IsSemaphore on_too after h joined
    joined-IsSemaphore z place =
        let w = v.semaphores h s there in
        record {
          count = omega (
            arith,
            (down_negative s.value z).1,
            w.count,
            length-append s.blocked_threads (k.running ∷ []),
          );
          held =
              All-append (IsBlockedOn on_too after h) s.blocked_threads (k.running ∷ [])
                (kept-IsSemaphore h s w).held (joined-IsBlockedOn place, tt);
          once = Distinct-snoc s.blocked_threads k.running w.once (
              All-map_with {P = IsBlockedOn on k.tcbs h} s.blocked_threads
                (λ t b. blocked-ne on k.tcbs h t k.running b (sched on k v).runnable) w.held);
        }

    blocked-IsSwitchable :
        pos_part s.value ≡ 0 → IsPlace here → IsSwitchable on_too blocked_kernel here
    blocked-IsSwitchable z place = record {
      present = (sched on k v).present;
      queue = stopped-IsQueue on k v blocking blocking_stops;
      places =
          rw (stopped-queued on k v blocking blocking_stops)
            (stopped-places on k v blocking blocking_stops here);
      semaphores = λ h' s' e.
          updated_sem (IsSemaphore on_too after) (update k.sems h (some down)) h h' (some joined) s'
            (λ f.
              subst (IsSemaphore on_too after h) (some-injective _ _ f)
                (joined-IsSemaphore z place))
            (λ n f.
              kept-IsSemaphore h' s'
                (v.semaphores h' s' (sym (update_ne k.sems h (some down) h' n) ∙ f)))
            e;
    }

  down-IsSemaphore : 0 < pos_part s.value → IsSemaphore on k.tcbs h down
  down-IsSemaphore z =
      let w = v.semaphores h s there in
      record { count = down_counts s.value z ∙ w.count; held = w.held; once = w.once }

  -- Sem::wait of a present semaphore: the caller passes, or blocks and another thread goes on.
  pub wait-Goes : (fuel pc st : ℕ) → Goes k (finish_call (suc fuel) (wait k h) pc st)
  unfolding finish_call
  wait-Goes fuel pc st = elim (sign s.value) [
    | inr z ↦ rw (wait_pass_eq z) (
        left-Goes on k (set_sem k h down) (pos 0) pc st
          (set_sem-IsKernel on k h down v (down-IsSemaphore z)))
    | inl z ↦
        elim (switch-Resumed on_too fuel blocked_kernel (behind_block pc st)
          (blocked-IsSwitchable (behind_block pc st) z tt)) [
            | inl (d, e) ↦
                rw (wait_block_eq z, finish_null (suc fuel) blocked_kernel pc st d)
                  (sym (stopped-queued on k v blocking blocking_stops) ∙ e)
            | inr (k2, r, k3, d, u, ok) ↦
                rw (wait_block_eq z, finish_switch (suc fuel) blocked_kernel k2 r pc st d, u)
                  (on_too, ok)
          ]
  ]
