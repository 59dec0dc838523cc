-- ===== src/Kernel/Places/Modes.antt =====
-- The bit SPP of sstatus: in which mode sret goes on, for src/riscv.cpp and the thread `main`.
use os1_project.Prelude.{
  ℕ, zero, suc, ◌/◌, ◌%◌, ◌^◌, ◌≡◌, refl, sym, ◌∙◌, subst, inl, inr, Bool, true, false, List, [],
  ◌∷◌, All, Bool-cases, ◌==◌, ==_iff, arith,
}
use os1_project.Prelude.Int.{ℤ}
use os1_project.Kernel.{
  Ptr, null, Resume, thread_wrapper, behind_dispatch, behind_exit, behind_block, Kernel, update,
  get, dispatch, Dispatch, returned, switched, null_context,
}
use os1_project.Kernel.Schedule.{queued, queued_state}
use os1_project.Kernel.Trap.{
  Run, user, fault, halted, out_of_fuel, resume, leave, save_a0, pop_spp_spie, set_spp,
  thread_dispatch_case, after_dispatch,
}
use os1_project.Kernel.Frame.{
  Threads, Confined, ConfinedDispatch, Dispatch-cases, dispatch-Confined, queued-All,
}
use os1_project.Kernel.Places.{SamePlaces, place_of}

-- SPP of an sstatus: whether sret goes on in supervisor mode.
abbrev pub spp : ℕ → Bool
spp sstatus = sstatus / 2 ^ 8 % 2 == 1

pub spp-set_spp : (st : ℕ) (b : Bool) → spp (set_spp st b) ≡ b
unfolding set_spp
spp-set_spp st true = ground arith
spp-set_spp st false = ground arith

-- What a place must have of sstatus for a thread that runs in supervisor mode or not.
abbrev pub HasMode : Bool → Resume → Type 0
HasMode b thread_wrapper = Unit
HasMode b (behind_dispatch pc st) = spp st ≡ b
HasMode b (behind_exit pc st) = spp st ≡ b
HasMode b (behind_block pc st) = spp st ≡ b

abbrev pub IsGuardedAt : Ptr → Ptr → Resume × Bool → Type 0
IsGuardedAt main t (r, system) = (system ≡ (t == main)) × HasMode (t == main) r

-- Of the threads in `P` only `main` is a system thread, and each is to go on in its own mode.
abbrev pub IsGuarded : Ptr → (Ptr → Type 0) → Kernel → Type 0
IsGuarded main P k = (t : Ptr) → P t → IsGuardedAt main t (place_of (k.tcbs t))

abbrev pub GuardedRun : Ptr → (Ptr → Type 0) → Run → Type 0
GuardedRun main P (user k) = IsGuarded main P k × (spp k.sstatus ≡ (k.running == main))
GuardedRun main P fault = Unit
GuardedRun main P halted = Unit
GuardedRun main P out_of_fuel = Unit

abbrev GuardedDispatch : Ptr → (Ptr → Type 0) → Kernel → Dispatch → Type 0
GuardedDispatch main P k (returned k') = k' ≡ k
GuardedDispatch main P k (switched k' r) = IsGuarded main P k' × HasMode (k'.running == main) r
GuardedDispatch main P k null_context = Unit

module _ (main : Ptr) (P : Ptr → Type 0) where
  pub same-Guarded : (k k' : Kernel) → SamePlaces k k' → IsGuarded main P k → IsGuarded main P k'
  same-Guarded k k' s g t p = subst (IsGuardedAt main t) (sym (s.same_place t)) (g t p)

  pub leave-Guarded :
      (k : Kernel) (pc st : ℕ)
      → IsGuarded main P k
      → spp st ≡ (k.running == main)
      → GuardedRun main P (leave k pc st)
  unfolding leave
  leave-Guarded k pc st g e = (g, e)

  pub result-Guarded :
      (k : Kernel) (code : ℤ) (pc st : ℕ)
      → IsGuarded main P k
      → spp st ≡ (k.running == main)
      → GuardedRun main P (leave (save_a0 k code) pc st)
  unfolding leave save_a0
  result-Guarded k code pc st g e = (g, e)

  -- The running thread is left at `here`.
  left-Guarded :
      (k : Kernel) (here : Resume)
      → IsGuarded main P k
      → P k.running
      → HasMode (k.running == main) here
      → (t : Ptr) → P t
      → IsGuardedAt main t
          (place_of (update k.tcbs k.running (record (k.tcbs k.running) { context = here }) t))
  unfolding update
  left-Guarded k here g run mode t p = elim (Bool-cases (t == k.running)) [
    | inl e ↦
        let same = (==_iff t k.running).0 e in
        rw e (
          subst (λ u. IsGuardedAt main u (here, (k.tcbs k.running).system_thread)) (sym same)
            ((g k.running run).0, mode))
    | inr e ↦ rw e (g t p)
  ]

  dispatch_by-Guarded :
      (k : Kernel) (here : Resume) (l : List Ptr)
      → Threads P k
      → IsGuarded main P k
      → HasMode (k.running == main) here
      → queued k ≡ l
      → All P l
      → GuardedDispatch main P k (dispatch k here)
  unfolding dispatch get
  dispatch_by-Guarded k here [] w g mode e a = elim (Bool-cases (k.running == null)) [
    | inl z ↦ rw z refl
    | inr z ↦ rw (z, queued_state k, e) tt
  ]
  dispatch_by-Guarded k here (t ∷ ts) w g mode e a = elim (Bool-cases (k.running == null)) [
    | inl z ↦ rw z refl
    | inr z ↦ elim (Bool-cases (t == null)) [
      | inl n ↦ rw (z, queued_state k, e, n) tt
      | inr n ↦
          let left = left-Guarded k here g w.running mode in
          rw (z, queued_state k, e, n) (left, (left t a.0).1)
    ]
  ]

  dispatch-Guarded :
      (k : Kernel) (here : Resume)
      → Threads P k
      → IsGuarded main P k
      → HasMode (k.running == main) here
      → GuardedDispatch main P k (dispatch k here)
  dispatch-Guarded k here w g mode =
      dispatch_by-Guarded k here (queued k) w g mode refl (queued-All P k w)

  -- A dispatch that does not come back to its caller at once goes on as `go` says.
  pub after-Guarded :
      (k : Kernel) (here : Resume) (r : Run)
      → Threads P k
      → IsGuarded main P k
      → HasMode (k.running == main) here
      → ((k' : Kernel) → dispatch k here ≡ returned k' → k' ≡ k → GuardedRun main P r)
      → ((k' : Kernel) (t : Resume)
          → dispatch k here ≡ switched k' t
          → Threads P k'
          → IsGuarded main P k'
          → HasMode (k'.running == main) t
          → GuardedRun main P r)
      → (dispatch k here ≡ null_context → GuardedRun main P r)
      → GuardedRun main P r
  after-Guarded k here r w g mode f1 f2 f3 =
      let c = dispatch-Confined P k here w in
      let d = dispatch-Guarded k here w g mode in
      elim (Dispatch-cases (dispatch k here)) [
        | inl (k', e) ↦ f1 k' e (subst (GuardedDispatch main P k) e d)
        | inr (inl (k', t, e)) ↦
            let c' : Confined P k k' = subst (ConfinedDispatch P k) e c in
            let d' : IsGuarded main P k' × HasMode (k'.running == main) t =
              subst (GuardedDispatch main P k) e d in
            f2 k' t e c'.threads d'.0 d'.1
        | inr (inr e) ↦ f3 e
      ]

  pub same-Threads : (k : Kernel) → Threads P k → Threads P (record k { time_slice_counter = 0 })
  same-Threads k w = record { running = w.running; ready = w.ready; blocked = w.blocked }

  pub resume-Guarded :
      (fuel : ℕ) (k : Kernel) (r : Resume)
      → Threads P k
      → IsGuarded main P k
      → HasMode (k.running == main) r
      → GuardedRun main P (resume fuel k r)
  unfolding resume pop_spp_spie
  resume-Guarded zero k r w g mode = tt
  resume-Guarded (suc fuel) k thread_wrapper w g mode =
      (g, spp-set_spp k.sstatus (k.tcbs k.running).system_thread ∙ (g k.running w.running).0)
  resume-Guarded (suc fuel) k (behind_dispatch pc st) w g mode = leave-Guarded k pc st g mode
  resume-Guarded (suc fuel) k (behind_block pc st) w g mode = result-Guarded k _ pc st g mode
  resume-Guarded (suc fuel) k (behind_exit pc st) w g mode =
      let k1 = record k { time_slice_counter = 0 } in
      after-Guarded k1 (behind_dispatch pc st) (resume (suc fuel) k (behind_exit pc st))
        (same-Threads k w) g mode
        (λ k2 e same. rw (e, resume) (rw same (leave-Guarded k1 pc st g mode)))
        (λ k2 t e w2 g2 m2. rw (e, resume) (resume-Guarded fuel k2 t w2 g2 m2))
        (λ e. rw (e, resume) tt)

  pub thread_dispatch_case-Guarded :
      (fuel : ℕ) (k : Kernel) (pc st : ℕ)
      → Threads P k
      → IsGuarded main P k
      → spp st ≡ (k.running == main)
      → GuardedRun main P (thread_dispatch_case fuel k pc st)
  unfolding thread_dispatch_case after_dispatch
  thread_dispatch_case-Guarded fuel k pc st w g mode =
      let k1 = record k { time_slice_counter = 0 } in
      after-Guarded k1 (behind_dispatch pc st) (thread_dispatch_case fuel k pc st)
        (same-Threads k w) g mode (λ k2 e same. rw e (rw same (leave-Guarded k1 pc st g mode)))
        (λ k2 t e w2 g2 m2. rw e (resume-Guarded fuel k2 t w2 g2 m2)) (λ e. rw e tt)
