-- ===== src/Kernel/Invariant/Switch.antt =====
-- TCB::dispatch and the resumption behind it keep the invariant of the kernel.
use os1_project.Prelude.{
  ℕ, suc, ◌≡◌, ◌≢◌, refl, sym, ap, ◌∙◌, subst, ◌⊎◌, inl, inr, true, some, List, [], ◌∷◌, All, arith,
  ne→==,
}
use os1_project.Kernel.{
  Ptr, null, Resume, Tcb, Sem, Kernel, update, is_runnable, dispatch, switched, null_context,
}
use os1_project.Kernel.Schedule.{
  ReadyQueue, saved, queued, Switched, dispatch-Switched, All-map_with,
}
use os1_project.Kernel.Trap.{user, resume}
use os1_project.Kernel.Trap.Exit.{IsPlace, resume-user}
use os1_project.Kernel.Invariant.{IsBlockedOn, IsSemaphore, IsKernel, SameThreads-IsKernel}

-- Behind a dispatch: there is no thread to run, or the next one goes on in the invariant.
abbrev pub Resumed : (Ptr → Ptr) → ℕ → Kernel → Resume → Type 0
Resumed on fuel k here =
    ((dispatch k here ≡ null_context) × (queued k ≡ []))
    ⊎ ((k2 : Kernel) × (r : Resume) × (k3 : Kernel) × (dispatch k here ≡ switched k2 r)
        × (resume (suc fuel) k2 r ≡ user k3)
        × IsKernel on k3)

-- What the switch needs of the kernel in which it happens, with the place already saved.
pub record IsSwitchable (on : Ptr → Ptr) (k : Kernel) (here : Resume) : Type 0 where
  pub present : k.running ≢ null
  pub queue : ReadyQueue k
  pub places : All (λ t. IsPlace (saved k.tcbs k.running here t).context) (queued k)
  pub semaphores :
      (h : Ptr) (s : Sem) → k.sems h ≡ some s → IsSemaphore on (saved k.tcbs k.running here) h s

switch_by :
    (on : Ptr → Ptr) (fuel : ℕ) (k : Kernel) (here : Resume) (l : List Ptr)
    → queued k ≡ l
    → Switched k here l
    → IsSwitchable on k here
    → Resumed on fuel k here
switch_by on fuel k here [] e d v = inl (d, e)
switch_by on fuel k here (t ∷ ts) e (k2, d, at, queue, tcbs, results, sems, sched) v =
    let places = subst (All (λ u. IsPlace (saved k.tcbs k.running here u).context)) e v.places in
    let ok : IsKernel on k2 = record {
      ready = record { scheduled = sched; places = rw (queue, tcbs) places.1 };
      semaphores = λ h s there. rw tcbs (v.semaphores h s (rw (sym sems) there));
    } in
    let (k3, u, same) = resume-user fuel k2 (k2.tcbs t).context (rw tcbs places.0) in
    inr (k2, (k2.tcbs t).context, k3, d, u, SameThreads-IsKernel on k2 k3 same ok)

pub switch-Resumed :
    (on : Ptr → Ptr) (fuel : ℕ) (k : Kernel) (here : Resume)
    → IsSwitchable on k here
    → Resumed on fuel k here
switch-Resumed on fuel k here v =
    switch_by on fuel k here (queued k) refl (dispatch-Switched k here v.present v.queue) v

-- The running thread is on no semaphore's list.
pub blocked-ne :
    (on : Ptr → Ptr) (tcbs : Ptr → Tcb) (h t p : Ptr)
    → IsBlockedOn on tcbs h t
    → is_runnable (tcbs p) ≡ true
    → t ≢ p
blocked-ne on tcbs h t p b r e =
    let same : (tcbs p).blocked ≡ true = ap (λ q. (tcbs q).blocked) (sym e) ∙ b.1 in ground arith

-- Changes of one thread leave the semaphores alone whose lists do not name it.
pub update-IsBlockedOn :
    (on : Ptr → Ptr) (tcbs : Ptr → Tcb) (h t p : Ptr) (new : Tcb)
    → IsBlockedOn on tcbs h t
    → t ≢ p
    → IsBlockedOn on (update tcbs p new) h t
unfolding update
update-IsBlockedOn on tcbs h t p new b n = rw (ne→== t p n) b

pub update-IsSemaphore :
    (on : Ptr → Ptr) (tcbs : Ptr → Tcb) (h p : Ptr) (s : Sem) (new : Tcb)
    → is_runnable (tcbs p) ≡ true
    → IsSemaphore on tcbs h s
    → IsSemaphore on (update tcbs p new) h s
update-IsSemaphore on tcbs h p s new r v = record {
  count = v.count;
  held =
      All-map_with {P = IsBlockedOn on tcbs h} s.blocked_threads
        (λ t b. update-IsBlockedOn on tcbs h t p new b (blocked-ne on tcbs h t p b r)) v.held;
  once = v.once;
}
