-- ===== src/Kernel/Schedule.antt =====
-- What holds of the scheduler between two steps of the kernel.
use os1_project.Prelude.{
  ◌≡◌, ◌≢◌, refl, sym, ◌∙◌, inl, inr, true, List, [], ◌∷◌, ◌++◌, arith, All, All-append,
  if◌then◌else◌, Bool-cases, ne→==,
}
use os1_project.Kernel.{
  Ptr, null, Resume, Tcb, Kernel, update, put, get, is_runnable, dispatch, switched, null_context,
}

abbrev pub Distinct : List Ptr → Type 0
Distinct [] = Unit
Distinct (t ∷ ts) = All (λ u. u ≢ t) ts × Distinct ts

-- A thread that waits for the processor: an object, runnable, and not the running one.
abbrev pub IsWaiting : (Ptr → Tcb) → Ptr → Ptr → Type 0
IsWaiting tcbs running t = (t ≢ null) × (is_runnable (tcbs t) ≡ true) × (t ≢ running)

-- Every thread of the queue is there once and waits for the processor.
pub record IsQueue (tcbs : Ptr → Tcb) (running : Ptr) (ready : List Ptr) : Type 0 where
  pub waiting : All (IsWaiting tcbs running) ready
  pub once : Distinct ready

pub record IsScheduled (k : Kernel) : Type 0 where
  pub present : k.running ≢ null
  pub runnable : is_runnable (k.tcbs k.running) ≡ true
  pub queue : IsQueue k.tcbs k.running k.ready_thread_queue

pub All-map_with {ℓ κ} :
    {P : Ptr → Type ℓ} {Q : Ptr → Type κ} (ts : List Ptr)
    → ((t : Ptr) → P t → Q t)
    → All P ts
    → All Q ts
All-map_with [] f h = tt
All-map_with (t ∷ ts) f h = (f t h.0, All-map_with ts f h.1)

pub All-and {ℓ κ μ} :
    {P : Ptr → Type ℓ} {Q : Ptr → Type κ} {R : Ptr → Type μ} (ts : List Ptr)
    → ((t : Ptr) → P t → Q t → R t)
    → All P ts
    → All Q ts
    → All R ts
All-and [] f h k = tt
All-and (t ∷ ts) f h k = (f t h.0 k.0, All-and ts f h.1 k.1)

pub Distinct-snoc :
    (ts : List Ptr) (u : Ptr) → Distinct ts → All (λ t. t ≢ u) ts → Distinct (ts ++ u ∷ [])
Distinct-snoc [] u d h = (tt, tt)
Distinct-snoc (t ∷ ts) u d h =
    (All-append (λ w. w ≢ t) ts (u ∷ []) d.0 ((λ e. h.0 (sym e)), tt), Distinct-snoc ts u d.1 h.1)

-- The thread at the head of the queue becomes the running one; the saved context changes no flag.
module _ (tcbs : Ptr → Tcb) (old : Ptr) (here : Resume) where
  abbrev pub saved : Ptr → Tcb
  saved = update tcbs old (record (tcbs old) { context = here })

  saved_runnable : (t : Ptr) → is_runnable (saved t) ≡ is_runnable (tcbs t)
  unfolding update
  saved_runnable t = ground arith

  pub take_head :
      (t : Ptr) (ts : List Ptr) (p : Ptr)
      → IsQueue tcbs p (t ∷ ts)
      → (t ≢ null) × (is_runnable (saved t) ≡ true) × IsQueue saved t ts
  take_head t ts p q = (
    q.waiting.0.0,
    saved_runnable t ∙ q.waiting.0.1,
    record {
      waiting = All-and ts (λ u w d. (w.0, saved_runnable u ∙ w.1, d)) q.waiting.1 q.once.0;
      once = q.once.1;
    },
  )

-- Every thread of the queue is some other than the one that gives up the processor, which goes to
-- the end if it is runnable.
abbrev pub queued : Kernel → List Ptr
queued k =
    if is_runnable (k.tcbs k.running)
    then k.ready_thread_queue ++ k.running ∷ []
    else k.ready_thread_queue

-- The outcome of TCB::dispatch by the queue behind the running thread's `put`.
abbrev pub Switched : Kernel → Resume → List Ptr → Type 0
Switched k here [] = dispatch k here ≡ null_context
Switched k here (t ∷ ts) =
    (k' : Kernel) × (dispatch k here ≡ switched k' (k'.tcbs t).context)
    × (k'.running ≡ t)
    × (k'.ready_thread_queue ≡ ts)
    × (k'.tcbs ≡ saved k.tcbs k.running here)
    × (k'.saved_a0 ≡ k.saved_a0)
    × (k'.sems ≡ k.sems)
    × IsScheduled k'

abbrev pub ReadyQueue : Kernel → Type 0
ReadyQueue k = IsQueue k.tcbs k.running k.ready_thread_queue

queued-IsQueue : (k : Kernel) → k.running ≢ null → ReadyQueue k → IsQueue k.tcbs null (queued k)
queued-IsQueue k z q = elim (Bool-cases (is_runnable (k.tcbs k.running))) [
  | inl e ↦ rw e (record {
    waiting =
        All-append (IsWaiting k.tcbs null) k.ready_thread_queue (k.running ∷ [])
          (All-map_with k.ready_thread_queue (λ t w. (w.0, w.1, w.0)) q.waiting) ((z, e, z), tt);
    once =
        Distinct-snoc k.ready_thread_queue k.running q.once
          (All-map_with k.ready_thread_queue (λ t w. w.2) q.waiting);
  })
  | inr e ↦ rw e (record {
    waiting = All-map_with k.ready_thread_queue (λ t w. (w.0, w.1, w.0)) q.waiting;
    once = q.once;
  })
]

pub queued_state :
    (k : Kernel)
    → (if is_runnable (k.tcbs k.running) then put k k.running else k)
      ≡ record k { ready_thread_queue = queued k }
unfolding put
queued_state k = elim (Bool-cases (is_runnable (k.tcbs k.running))) [ inl e ↦ rw e | inr e ↦ rw e ]

dispatch_by :
    (k : Kernel) (here : Resume) (l : List Ptr)
    → queued k ≡ l
    → k.running ≢ null
    → IsQueue k.tcbs null l
    → Switched k here l
unfolding dispatch get
dispatch_by k here [] e z q = rw (ne→== k.running null z, queued_state k, e)
dispatch_by k here (t ∷ ts) e z q =
    let (nonnull, ok, left) = take_head k.tcbs k.running here t ts null q in
    (
      record k { ready_thread_queue = ts; running = t; tcbs = saved k.tcbs k.running here },
      rw (ne→== k.running null z, queued_state k, e, ne→== t null nonnull),
      refl,
      refl,
      refl,
      refl,
      refl,
      record { present = nonnull; runnable = ok; queue = left },
    )

-- TCB::dispatch with a running thread, and a ready queue whose threads are there once, runnable and
-- not the running one: the running thread is queued last if it is runnable, its place is kept, and
-- the first of that queue becomes the running one and goes on at its own place, with the scheduler
-- in order and results and semaphores as they were. With no thread to run it goes on through a null
-- context.
pub dispatch-Switched :
    (k : Kernel) (here : Resume) → k.running ≢ null → ReadyQueue k → Switched k here (queued k)
dispatch-Switched k here z q = dispatch_by k here (queued k) refl z (queued-IsQueue k z q)
