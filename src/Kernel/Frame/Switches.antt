-- ===== src/Kernel/Frame/Switches.antt =====
-- The switches of src/riscv.cpp touch only the threads they know.
use os1_project.Prelude.{ℕ, refl, subst, inl, inr, Bool-cases, ◌==◌}
use os1_project.Kernel.{
  Ptr, null, behind_dispatch, behind_exit, behind_block, Kernel, dispatch, Dispatch, returned,
  switched, null_context,
}
use os1_project.Kernel.Semaphore.{Call, returns, dispatches, dangling}
use os1_project.Kernel.Trap.{
  resume, leave, save_a0, finish_call, after_dispatch, thread_dispatch_case, thread_exit_case,
  with_finished, code_of,
}
use os1_project.Kernel.Frame.{
  Threads, Confined, ConfinedRun, ConfinedDispatch, Confined-trans, ConfinedRun-after,
  Dispatch-cases, dispatch-Confined, same-Confined, leave-Confined, result-Confined,
  resume-Confined,
}
use os1_project.Kernel.Frame.Calls.{ConfinedCall, write-Confined}

module _ (P : Ptr → Type 0) where
  after_dispatch-Confined :
      (fuel : ℕ) (k : Kernel) (d : Dispatch) (pc st : ℕ)
      → ConfinedDispatch P k d
      → ConfinedRun P k (after_dispatch fuel d pc st)
  unfolding after_dispatch
  after_dispatch-Confined fuel k (returned k') pc st c =
      ConfinedRun-after P k k' (leave k' pc st) c (leave-Confined P k' pc st c.threads)
  after_dispatch-Confined fuel k (switched k' r) pc st c =
      ConfinedRun-after P k k' (resume fuel k' r) c (resume-Confined P fuel k' r c.threads)
  after_dispatch-Confined fuel k null_context pc st c = tt

  pub thread_dispatch_case-Confined :
      (fuel : ℕ) (k : Kernel) (pc st : ℕ)
      → Threads P k
      → ConfinedRun P k (thread_dispatch_case fuel k pc st)
  unfolding thread_dispatch_case
  thread_dispatch_case-Confined fuel k pc st w =
      let k1 = record k { time_slice_counter = 0 } in
      let c = same-Confined P k k1 w refl refl refl refl refl in
      let here = behind_dispatch pc st in
      ConfinedRun-after P k k1 (after_dispatch fuel (dispatch k1 here) pc st) c (
        after_dispatch-Confined fuel k1 (dispatch k1 here) pc st
          (dispatch-Confined P k1 here c.threads))

  pub with_finished-Confined : (k : Kernel) → Threads P k → Confined P k (with_finished k)
  with_finished-Confined k w = write-Confined P k k.running _ w w.running

  pub thread_exit_case-Confined :
      (fuel : ℕ) (k : Kernel) (pc st : ℕ)
      → Threads P k
      → ConfinedRun P k (thread_exit_case fuel k pc st)
  unfolding thread_exit_case
  thread_exit_case-Confined fuel k pc st w = elim (Bool-cases (k.running == null)) [
    | inl z ↦ rw z (thread_dispatch_case-Confined fuel k pc st w)
    | inr z ↦
        let k0 = with_finished k in
        let k1 = record k0 { time_slice_counter = 0 } in
        let c0 = with_finished-Confined k w in
        let c =
          Confined-trans P k k0 k1 c0 (same-Confined P k0 k1 c0.threads refl refl refl refl refl) in
        let d = dispatch-Confined P k1 (behind_exit pc st) c.threads in
        elim (Dispatch-cases (dispatch k1 (behind_exit pc st))) [
          | inl (k2, e) ↦
              let c2 : Confined P k1 k2 = subst (ConfinedDispatch P k1) e d in
              rw (z, e, thread_exit_case)
                (ConfinedRun-after P k k2 (thread_dispatch_case fuel k2 pc st)
                  (Confined-trans P k k1 k2 c c2)
                  (thread_dispatch_case-Confined fuel k2 pc st c2.threads))
          | inr (inl (k2, r, e)) ↦
              let c2 : Confined P k1 k2 = subst (ConfinedDispatch P k1) e d in
              rw (z, e, thread_exit_case)
                (ConfinedRun-after P k k2 (resume fuel k2 r) (Confined-trans P k k1 k2 c c2)
                  (resume-Confined P fuel k2 r c2.threads))
          | inr (inr e) ↦ rw (z, e, thread_exit_case) tt
        ]
  ]

  pub finish_call-Confined :
      (fuel : ℕ) (k : Kernel) (c : Call) (pc st : ℕ)
      → ConfinedCall P k c
      → ConfinedRun P k (finish_call fuel c pc st)
  unfolding finish_call
  finish_call-Confined fuel k (returns k' code) pc st c =
      ConfinedRun-after P k k' (leave (save_a0 k' code) pc st) c
        (result-Confined P k' code pc st c.threads)
  finish_call-Confined fuel k (dispatches k') pc st c =
      let d = dispatch-Confined P k' (behind_block pc st) c.threads in
      elim (Dispatch-cases (dispatch k' (behind_block pc st))) [
        | inl (k2, e) ↦
            let c2 : Confined P k' k2 = subst (ConfinedDispatch P k') e d in
            let code = code_of (k2.tcbs k2.running).semaphore_deleted in
            rw (e, finish_call)
              (ConfinedRun-after P k k2 (leave (save_a0 k2 code) pc st)
                (Confined-trans P k k' k2 c c2) (result-Confined P k2 code pc st c2.threads))
        | inr (inl (k2, r, e)) ↦
            let c2 : Confined P k' k2 = subst (ConfinedDispatch P k') e d in
            rw (e, finish_call)
              (ConfinedRun-after P k k2 (resume fuel k2 r) (Confined-trans P k k' k2 c c2)
                (resume-Confined P fuel k2 r c2.threads))
        | inr (inr e) ↦ rw (e, finish_call) tt
      ]
  finish_call-Confined fuel k dangling pc st c = tt
