-- ===== src/Kernel/Frame.antt =====
-- What the scheduler and the semaphores leave alone: which threads a step of the kernel may touch.
pub mod Calls
pub mod Switches
use os1_project.Prelude.{
  ℕ, zero, suc, ◌≡◌, ◌≢◌, ◌⊎◌, refl, sym, ap, ◌∙◌, subst, inl, inr, Bool, true, false, Option, none,
  some, List, [], ◌∷◌, ◌++◌, All, All-append, Bool-cases, if◌then◌else◌, ◌==◌, not, ◌&&◌,
}
use os1_project.Prelude.Int.{ℤ}
use os1_project.Kernel.{
  Ptr, null, Resume, thread_wrapper, behind_dispatch, behind_exit, behind_block, Sem, Kernel,
  update, put, get, is_runnable, dispatch, Dispatch, returned, switched, null_context,
}
use os1_project.Kernel.Schedule.{queued, queued_state}
use os1_project.Kernel.Trap.{
  Run, user, fault, halted, out_of_fuel, resume, leave, save_a0, pop_spp_spie,
}
use os1_project.Kernel.Invariant.Blocking.{update_ne}

-- Every thread that the scheduler or a semaphore knows is one of `P`.
pub record Threads (P : Ptr → Type 0) (k : Kernel) : Type 0 where
  pub running : P k.running
  pub ready : All P k.ready_thread_queue
  pub blocked : (h : Ptr) (s : Sem) → k.sems h ≡ some s → All P s.blocked_threads

abbrev pub is_some : Option Sem → Bool
is_some none = false
is_some (some s) = true

-- From one kernel to another only threads of `P` are touched; no memory is taken or given back, and
-- no semaphore comes or goes.
pub record Confined (P : Ptr → Type 0) (k k' : Kernel) : Type 0 where
  pub threads : Threads P k'
  pub others : (d : Ptr) → ((t : Ptr) → P t → t ≢ d) → k'.tcbs d ≡ k.tcbs d
  pub allocator : k'.allocator ≡ k.allocator
  pub same_sems : (h : Ptr) → is_some (k'.sems h) ≡ is_some (k.sems h)

abbrev pub ConfinedRun : (Ptr → Type 0) → Kernel → Run → Type 0
ConfinedRun P k (user k') = Confined P k k'
ConfinedRun P k fault = Unit
ConfinedRun P k halted = Unit
ConfinedRun P k out_of_fuel = Unit

abbrev pub ConfinedDispatch : (Ptr → Type 0) → Kernel → Dispatch → Type 0
ConfinedDispatch P k (returned k') = Confined P k k'
ConfinedDispatch P k (switched k' r) = Confined P k k'
ConfinedDispatch P k null_context = Unit

pub Dispatch-cases :
    (d : Dispatch)
    → ((k : Kernel) × (d ≡ returned k))
      ⊎ (((k : Kernel) × (r : Resume) × (d ≡ switched k r)) ⊎ (d ≡ null_context))
Dispatch-cases (returned k) = inl (k, refl)
Dispatch-cases (switched k r) = inr (inl (k, r, refl))
Dispatch-cases null_context = inr (inr refl)

module _ (P : Ptr → Type 0) where
  pub Confined-refl : (k : Kernel) → Threads P k → Confined P k k
  Confined-refl k w = record {
    threads = w;
    others = λ d n. refl;
    allocator = refl;
    same_sems = λ h. refl;
  }

  pub Confined-trans : (k k' k'' : Kernel) → Confined P k k' → Confined P k' k'' → Confined P k k''
  Confined-trans k k' k'' a b = record {
    threads = b.threads;
    others = λ d n. b.others d n ∙ a.others d n;
    allocator = b.allocator ∙ a.allocator;
    same_sems = λ h. b.same_sems h ∙ a.same_sems h;
  }

  pub ConfinedRun-after :
      (k k' : Kernel) (r : Run) → Confined P k k' → ConfinedRun P k' r → ConfinedRun P k r
  ConfinedRun-after k k' (user k'') a b = Confined-trans k k' k'' a b
  ConfinedRun-after k k' fault a b = tt
  ConfinedRun-after k k' halted a b = tt
  ConfinedRun-after k k' out_of_fuel a b = tt

  pub put-Confined : (k : Kernel) (t : Ptr) → Threads P k → P t → Confined P k (put k t)
  unfolding put
  put-Confined k t w p = record {
    threads = record {
      running = w.running;
      ready = All-append P k.ready_thread_queue (t ∷ []) w.ready (p, tt);
      blocked = w.blocked;
    };
    others = λ d n. refl;
    allocator = refl;
    same_sems = λ h. refl;
  }

  pub queued-All : (k : Kernel) → Threads P k → All P (queued k)
  queued-All k w = elim (Bool-cases (is_runnable (k.tcbs k.running))) [
    | inl e ↦ rw e (All-append P k.ready_thread_queue (k.running ∷ []) w.ready (w.running, tt))
    | inr e ↦ rw e w.ready
  ]

  dispatch_by-Confined :
      (k : Kernel) (here : Resume) (l : List Ptr)
      → Threads P k
      → queued k ≡ l
      → All P l
      → ConfinedDispatch P k (dispatch k here)
  unfolding dispatch get
  dispatch_by-Confined k here [] w e a = elim (Bool-cases (k.running == null)) [
    | inl z ↦ rw z (Confined-refl k w)
    | inr z ↦ rw (z, queued_state k, e) tt
  ]
  dispatch_by-Confined k here (t ∷ ts) w e a = elim (Bool-cases (k.running == null)) [
    | inl z ↦ rw z (Confined-refl k w)
    | inr z ↦ elim (Bool-cases (t == null)) [
      | inl n ↦ rw (z, queued_state k, e, n) tt
      | inr n ↦
          rw (z, queued_state k, e, n)
            (record {
              threads = record { running = a.0; ready = a.1; blocked = w.blocked };
              others = λ d other.
                  update_ne k.tcbs k.running _ d (λ same. other k.running w.running (sym same));
              allocator = refl;
              same_sems = λ h. refl;
            })
    ]
  ]

  -- TCB::dispatch touches the running thread only, and takes the next one from the queue.
  pub dispatch-Confined :
      (k : Kernel) (here : Resume) → Threads P k → ConfinedDispatch P k (dispatch k here)
  dispatch-Confined k here w = dispatch_by-Confined k here (queued k) w refl (queued-All k w)

  -- A kernel with the same threads, semaphores and memory.
  pub same-Confined :
      (k k' : Kernel)
      → Threads P k
      → k'.running ≡ k.running
      → k'.tcbs ≡ k.tcbs
      → k'.ready_thread_queue ≡ k.ready_thread_queue
      → k'.sems ≡ k.sems
      → k'.allocator ≡ k.allocator
      → Confined P k k'
  same-Confined k k' w run tcbs queue sems memory = record {
    threads = record {
      running = rw run w.running;
      ready = rw queue w.ready;
      blocked = λ h s there. w.blocked h s (ap (λ f. f h) (sym sems) ∙ there);
    };
    others = λ d n. ap (λ f. f d) tcbs;
    allocator = memory;
    same_sems = λ h. ap (λ f. is_some (f h)) sems;
  }

  pub leave-Confined : (k : Kernel) (pc st : ℕ) → Threads P k → ConfinedRun P k (leave k pc st)
  unfolding leave
  leave-Confined k pc st w = same-Confined k _ w refl refl refl refl refl

  pub result-Confined :
      (k : Kernel) (code : ℤ) (pc st : ℕ)
      → Threads P k
      → ConfinedRun P k (leave (save_a0 k code) pc st)
  unfolding leave save_a0
  result-Confined k code pc st w = same-Confined k _ w refl refl refl refl refl

  -- Wherever a thread goes on.
  pub resume-Confined :
      (fuel : ℕ) (k : Kernel) (r : Resume) → Threads P k → ConfinedRun P k (resume fuel k r)
  unfolding resume pop_spp_spie
  resume-Confined zero k r w = tt
  resume-Confined (suc fuel) k thread_wrapper w = same-Confined k _ w refl refl refl refl refl
  resume-Confined (suc fuel) k (behind_dispatch pc st) w = leave-Confined k pc st w
  resume-Confined (suc fuel) k (behind_block pc st) w = result-Confined k _ pc st w
  resume-Confined (suc fuel) k (behind_exit pc st) w =
      let k1 = record k { time_slice_counter = 0 } in
      let c = same-Confined k k1 w refl refl refl refl refl in
      let d = dispatch-Confined k1 (behind_dispatch pc st) c.threads in
      elim (Dispatch-cases (dispatch k1 (behind_dispatch pc st))) [
        | inl (k2, e) ↦
            let c2 : Confined P k1 k2 = subst (ConfinedDispatch P k1) e d in
            rw (e, resume)
              (ConfinedRun-after k k2 (leave k2 pc st) (Confined-trans k k1 k2 c c2)
                (leave-Confined k2 pc st c2.threads))
        | inr (inl (k2, r, e)) ↦
            let c2 : Confined P k1 k2 = subst (ConfinedDispatch P k1) e d in
            rw (e, resume)
              (ConfinedRun-after k k2 (resume fuel k2 r) (Confined-trans k k1 k2 c c2)
                (resume-Confined fuel k2 r c2.threads))
        | inr (inr e) ↦ rw (e, resume) tt
      ]
