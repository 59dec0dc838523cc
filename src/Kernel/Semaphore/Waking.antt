-- ===== src/Kernel/Semaphore/Waking.antt =====
-- Waking a blocked thread keeps the scheduler in order; signal wakes the one that waits longest.
use mathlib.Core.Path.{subst}
use os1_project.Prelude.{
  ℕ, suc, ◌≡◌, ◌≢◌, refl, ap, sym, ◌∙◌, Bool, true, false, some, List, [], ◌∷◌, ◌++◌, arith, All,
  All-append, length, ne→==, ==_self,
}
use os1_project.Prelude.Int.{ℤ, pos, neg_part, ◌+ℤ◌, ltb_ℤ}
use os1_project.Kernel.{Ptr, null, Tcb, Sem, Kernel, update, put, is_runnable}
use os1_project.Kernel.Schedule.{Distinct, Distinct-snoc, IsScheduled, IsWaiting, All-map_with}
use os1_project.Kernel.Semaphore.{
  Call, returns, set_sem, with_sem, next_blocked, wake, unblock, signal,
}
use os1_project.Kernel.Semaphore.Counting.{IsHeld, IsCounted}

-- A thread that waits for the processor is another than a blocked one.
waiting_ne :
    (k : Kernel) (t : Ptr)
    → (k.tcbs t).blocked ≡ true
    → (u : Ptr) → is_runnable (k.tcbs u) ≡ true
    → u ≢ t
waiting_ne k t b u r e =
    let same : (k.tcbs u).blocked ≡ true = ap (λ p. (k.tcbs p).blocked) e ∙ b in ground arith

abbrev awake : (Ptr → Tcb) → Ptr → Bool → Ptr → Tcb
awake tcbs t flag = update tcbs t (record (tcbs t) { blocked = false; semaphore_deleted = flag })

awake_runnable :
    (tcbs : Ptr → Tcb) (t : Ptr) (flag : Bool) (u : Ptr)
    → is_runnable (tcbs u) ≡ true
    → is_runnable (awake tcbs t flag u) ≡ true
unfolding update
awake_runnable tcbs t flag u h = ground arith

awake_woken :
    (tcbs : Ptr → Tcb) (t : Ptr) (flag : Bool)
    → (tcbs t).finished ≡ false
    → is_runnable (awake tcbs t flag t) ≡ true
unfolding update
awake_woken tcbs t flag h = ground arith

-- Letting a thread go that is blocked and not finished keeps the scheduler in order: every thread of
-- the ready queue is there once, is runnable and is not the running one.
pub wake-IsScheduled :
    (k : Kernel) (t : Ptr) (flag : Bool)
    → IsScheduled k
    → t ≢ null
    → (k.tcbs t).blocked ≡ true
    → (k.tcbs t).finished ≡ false
    → IsScheduled (wake k t flag)
unfolding wake put
wake-IsScheduled k t flag v z b f = record {
  present = v.present;
  runnable = awake_runnable k.tcbs t flag k.running v.runnable;
  queue = record {
    waiting =
        All-append (IsWaiting (awake k.tcbs t flag) k.running) k.ready_thread_queue (t ∷ [])
          (All-map_with k.ready_thread_queue (λ u w. (w.0, awake_runnable k.tcbs t flag u w.1, w.2))
            v.queue.waiting)
          (
            (z, awake_woken k.tcbs t flag f, λ e. waiting_ne k t b k.running v.runnable (sym e)),
            tt,
          );
    once =
        Distinct-snoc k.ready_thread_queue t v.queue.once
          (All-map_with k.ready_thread_queue (λ u w. waiting_ne k t b u w.1) v.queue.waiting);
  };
}

pub awake-IsHeld :
    (tcbs : Ptr → Tcb) (t : Ptr) (flag : Bool) (us : List Ptr)
    → All (IsHeld tcbs) us
    → All (λ u. u ≢ t) us
    → All (IsHeld (awake tcbs t flag)) us
unfolding update
awake-IsHeld tcbs t flag [] h d = tt
awake-IsHeld tcbs t flag (u ∷ us) h d =
    ((h.0.0, rw (ne→== u t d.0) h.0.1), awake-IsHeld tcbs t flag us h.1 d.1)

-- The first of the blocked threads is the one that Sem::unblock finds.
pub unblock_first :
    (k : Kernel) (t : Ptr) (ts : List Ptr) (flag : Bool)
    → IsHeld k.tcbs t
    → unblock k (t ∷ ts) flag ≡ (wake k t flag, ts, pos 0)
unfolding unblock next_blocked
unblock_first k t ts flag h = rw (ne→== t null h.0, h.1, ne→== t null h.0)

up_waiting :
    (v : ℤ) (n : ℕ)
    → neg_part v ≡ suc n
    → (ltb_ℤ (pos 0) (v +ℤ pos 1) ≡ false) × (neg_part (v +ℤ pos 1) ≡ n)
unfolding ◌+ℤ◌
up_waiting v n h = ground arith

up_free :
    (v : ℤ) → neg_part v ≡ 0 → (ltb_ℤ (pos 0) (v +ℤ pos 1) ≡ true) × (neg_part (v +ℤ pos 1) ≡ 0)
unfolding ◌+ℤ◌
up_free v h = ground arith

-- What a signal comes to, by the threads that the semaphore blocks.
abbrev pub Signalled : Kernel → Ptr → Sem → List Ptr → Call → Type 0
Signalled k handle s [] r =
    r ≡ returns (set_sem k handle (record s { value = s.value +ℤ pos 1 })) (pos 0)
Signalled k handle s (t ∷ ts) r =
    (k' : Kernel) × (s' : Sem) × (r ≡ returns k' (pos 0))
    × (k'.sems handle ≡ some s')
    × (s'.value ≡ s.value +ℤ pos 1)
    × (s'.blocked_threads ≡ ts)
    × (k'.ready_thread_queue ≡ k.ready_thread_queue ++ t ∷ [])
    × ((k'.tcbs t).blocked ≡ false)
    × ((k'.tcbs t).semaphore_deleted ≡ false)
    × IsCounted k' s'

module _ (k : Kernel) (handle : Ptr) (s : Sem) (hn : handle ≢ null) (e : k.sems handle ≡ some s)
    (c : IsCounted k s) where
  -- The kernel behind a signal that lets the first blocked thread go.
  abbrev pub signalled : Ptr → List Ptr → Kernel
  signalled t ts =
      set_sem (wake k t false) handle (record s { value = s.value +ℤ pos 1; blocked_threads = ts })

  pub signal_wakes :
      (t : Ptr) (ts : List Ptr)
      → s.blocked_threads ≡ t ∷ ts
      → (signal k handle ≡ returns (signalled t ts) (pos 0))
        × (neg_part (s.value +ℤ pos 1) ≡ length ts)
  unfolding signal
  signal_wakes t ts el =
      let up = up_waiting s.value (length ts) (c.count ∙ ap length el) in
      let held = subst (All (IsHeld k.tcbs)) el c.held in
      (
        rw (ne→== handle null hn, e, with_sem, up.0, el, unblock_first k t ts false held.0) refl,
        up.1,
      )

  pub signal_counts :
      s.blocked_threads ≡ []
      → (signal k handle
          ≡ returns (set_sem k handle (record s { value = s.value +ℤ pos 1 })) (pos 0))
        × (neg_part (s.value +ℤ pos 1) ≡ 0)
  unfolding signal
  signal_counts el =
      let up = up_free s.value (c.count ∙ ap length el) in
      (rw (ne→== handle null hn, e, with_sem, up.0) refl, up.1)

  signal_by :
      (l : List Ptr)
      → s.blocked_threads ≡ l
      → All (IsHeld k.tcbs) l
      → Distinct l
      → Signalled k handle s l (signal k handle)
  signal_by [] el held once = (signal_counts el).0
  signal_by (t ∷ ts) el held once =
      let (woken, counted) = signal_wakes t ts el in
      (
        signalled t ts,
        record s { value = s.value +ℤ pos 1; blocked_threads = ts },
        woken,
        unfold update in rw (==_self handle),
        refl,
        refl,
        unfold wake put in refl,
        unfold wake put update in rw (==_self t),
        unfold wake put update in rw (==_self t),
        record {
          count = counted;
          held = unfold wake put in awake-IsHeld k.tcbs t false ts held.1 once.0;
          once = once.1;
        },
      )

  -- Sem::signal of a present semaphore whose negative value counts its blocked threads, all blocked
  -- and each there once: it returns 0 and the value goes up by one. If no thread is blocked nothing
  -- else changes; otherwise the first of them, which came first, is let go and queued last, is not
  -- told that the semaphore was deleted, and the value still counts the others.
  pub signal-Signalled : Signalled k handle s s.blocked_threads (signal k handle)
  signal-Signalled = signal_by s.blocked_threads refl c.held c.once
