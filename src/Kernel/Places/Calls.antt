-- ===== src/Kernel/Places/Calls.antt =====
-- The calls that switch threads, and the mode in which each thread goes on.
use os1_project.Prelude.{
  ℕ, ◌%◌, ◌≡◌, refl, sym, ap, ◌∙◌, inl, inr, true, Bool-cases, ◌==◌, [], ◌∷◌, ◌++◌,
}
use os1_project.Allocator.{HeapBounds}
use os1_project.Kernel.{Ptr, null, behind_exit, behind_block, Kernel}
use os1_project.Kernel.Semaphore.{
  Call, returns, dispatches, dangling, wait, signal, trywait, timedwait,
}
use os1_project.Kernel.Trap.{finish_call, thread_exit_case, with_finished}
use os1_project.Kernel.Interface.{
  Request, allocate, free, create, create_without_starting, start, exit, give_up, sem_open,
  sem_close, sem_wait, sem_signal, sem_timedwait, sem_trywait, time_sleep, getc, putc,
}
use os1_project.Kernel.Interface.Encoding.{perform}
use os1_project.Kernel.System.Requests.{IsScheduling}
use os1_project.Kernel.Frame.{Threads, Confined-refl}
use os1_project.Kernel.Frame.Calls.{ConfinedCall, wait-Confined, signal-Confined, trywait-Confined}
use os1_project.Kernel.Frame.Switches.{with_finished-Confined}
use os1_project.Kernel.Places.{
  SameCall, flagged-place, wait-SamePlaces, signal-SamePlaces, trywait-SamePlaces,
}
use os1_project.Kernel.Places.Modes.{
  spp, IsGuarded, GuardedRun, same-Guarded, leave-Guarded, result-Guarded, after-Guarded,
  resume-Guarded, thread_dispatch_case-Guarded, same-Threads,
}

module _ (main : Ptr) (P : Ptr → Type 0) where
  pub with_finished-Guarded : (k : Kernel) → IsGuarded main P k → IsGuarded main P (with_finished k)
  with_finished-Guarded k g =
      same-Guarded main P k (with_finished k)
        (record {
          same_running = refl;
          same_place =
              flagged-place k.tcbs k.running (record (k.tcbs k.running) { finished = true }) refl;
        })
        g

  thread_exit_case-Guarded :
      (fuel : ℕ) (k : Kernel) (pc st : ℕ)
      → Threads P k
      → IsGuarded main P k
      → spp st ≡ (k.running == main)
      → GuardedRun main P (thread_exit_case fuel k pc st)
  unfolding thread_exit_case
  thread_exit_case-Guarded fuel k pc st w g mode = elim (Bool-cases (k.running == null)) [
    | inl z ↦ rw z (thread_dispatch_case-Guarded main P fuel k pc st w g mode)
    | inr z ↦
        let k1 = record (with_finished k) { time_slice_counter = 0 } in
        let w1 = same-Threads main P (with_finished k) (with_finished-Confined P k w).threads in
        let g1 = with_finished-Guarded k g in
        after-Guarded main P k1 (behind_exit pc st) (thread_exit_case fuel k pc st) w1 g1 mode
          (λ k2 e same.
            rw (z, e, thread_exit_case)
              (rw same (thread_dispatch_case-Guarded main P fuel k1 pc st w1 g1 mode)))
          (λ k2 t e w2 g2 m2.
            rw (z, e, thread_exit_case) (resume-Guarded main P fuel k2 t w2 g2 m2))
          (λ e. rw (z, e, thread_exit_case) tt)
  ]

  pub finish_call-Guarded :
      (fuel : ℕ) (k : Kernel) (c : Call) (pc st : ℕ)
      → ConfinedCall P k c
      → SameCall k c
      → IsGuarded main P k
      → spp st ≡ (k.running == main)
      → GuardedRun main P (finish_call fuel c pc st)
  unfolding finish_call
  finish_call-Guarded fuel k (returns k' code) pc st w s g mode =
      result-Guarded main P k' code pc st (same-Guarded main P k k' s g)
        (mode ∙ ap (λ t. t == main) (sym s.same_running))
  finish_call-Guarded fuel k (dispatches k') pc st w s g mode =
      let g' = same-Guarded main P k k' s g in
      let mode' = mode ∙ ap (λ t. t == main) (sym s.same_running) in
      after-Guarded main P k' (behind_block pc st) (finish_call fuel (dispatches k') pc st)
        w.threads g' mode'
        (λ k2 e same. rw (e, finish_call) (rw same (result-Guarded main P k' _ pc st g' mode')))
        (λ k2 t e w2 g2 m2. rw (e, finish_call) (resume-Guarded main P fuel k2 t w2 g2 m2))
        (λ e. rw (e, finish_call) tt)
  finish_call-Guarded fuel k dangling pc st w s g mode = tt

  -- A scheduling call goes back to some thread, in that thread's mode.
  pub perform-Guarded :
      (heap : HeapBounds) (k : Kernel) (c : Request) (fuel input pc st : ℕ)
      → Threads P k
      → IsGuarded main P k
      → spp st ≡ (k.running == main)
      → IsScheduling c
      → GuardedRun main P (perform heap fuel k input pc st c)
  perform-Guarded heap k exit fuel input pc st w g m i = thread_exit_case-Guarded fuel k pc st w g m
  perform-Guarded heap k give_up fuel input pc st w g m i =
      thread_dispatch_case-Guarded main P fuel k pc st w g m
  perform-Guarded heap k (sem_wait h) fuel input pc st w g m i =
      finish_call-Guarded fuel k (wait k h) pc st (wait-Confined P k h w) (wait-SamePlaces k h) g m
  perform-Guarded heap k (sem_signal h) fuel input pc st w g m i =
      finish_call-Guarded fuel k (signal k h) pc st (signal-Confined P k h w)
        (signal-SamePlaces k h) g m
  perform-Guarded heap k (sem_timedwait h t) fuel input pc st w g m i =
      finish_call-Guarded fuel k (timedwait k h t) pc st (unfold timedwait in Confined-refl P k w)
        (unfold timedwait in record { same_running = refl; same_place = λ t. refl }) g m
  perform-Guarded heap k (sem_trywait h) fuel input pc st w g m i =
      finish_call-Guarded fuel k (trywait k h) pc st (trywait-Confined P k h w)
        (trywait-SamePlaces k h) g m
  perform-Guarded heap k (time_sleep t) fuel input pc st w g m i = leave-Guarded main P k pc st g m
  perform-Guarded heap k getc fuel input pc st w g m i = result-Guarded main P k _ pc st g m
  perform-Guarded heap k (putc c) fuel input pc st w g m i =
      leave-Guarded main P (record k { put_chars = k.put_chars ++ (c % 256) ∷ [] }) pc st g m
  perform-Guarded heap k (allocate n) fuel input pc st w g m i = absurd i
  perform-Guarded heap k (free a) fuel input pc st w g m i = absurd i
  perform-Guarded heap k (create h b a s) fuel input pc st w g m i = absurd i
  perform-Guarded heap k (create_without_starting h b a s) fuel input pc st w g m i = absurd i
  perform-Guarded heap k (start t) fuel input pc st w g m i = absurd i
  perform-Guarded heap k (sem_open h n) fuel input pc st w g m i = absurd i
  perform-Guarded heap k (sem_close h) fuel input pc st w g m i = absurd i
