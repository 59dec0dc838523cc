-- ===== src/Kernel/Machine/Privilege/Cases.antt =====
-- What a change of one holder, or of no thread, keeps of the modes.
use os1_project.Prelude.{
  ℕ, ◌≡◌, ◌≢◌, refl, sym, ap, ◌∙◌, subst, inl, inr, Bool, true, false, not, ◌&&◌, ◌==◌, ==_iff,
  ne→==, Bool-cases, if◌then◌else◌,
}
use os1_project.Prelude.Int.{ℤ}
use os1_project.Allocator.{HeapBounds}
use os1_project.Kernel.{
  Ptr, null, thread_wrapper, default_time_slice, Tcb, Kernel, update, put, new_tcb,
}
use os1_project.Kernel.Trap.{leave, save_a0}
use os1_project.Kernel.Interface.{Request}
use os1_project.Kernel.Invariant.Blocking.{update_self, update_ne}
use os1_project.Kernel.Frame.Calls.{differs}
use os1_project.Kernel.Places.{SamePlaces, place_of}
use os1_project.Kernel.Places.Modes.{spp, IsGuardedAt, same-Guarded}
use os1_project.Kernel.Machine.{Holder, nobody, thread, Machine, IsMachine, after}
use os1_project.Kernel.Machine.Privilege.{is_tcb, IsTcb, IsPrivileged, PrivilegedRun}

module _ (main : Ptr) (m : Machine) (g : IsPrivileged main m) where
  pub not_main : (p : Ptr) (x : Holder) → m.holder p ≡ x → x ≢ thread → p ≢ main
  not_main p x e n s = n (sym e ∙ ap m.holder s ∙ g.main_held)

  -- Another holder of `p`, who is no thread, in a kernel with the same places.
  pub renewed-Privileged :
      (k' : Kernel) (p : Ptr) (x : Holder)
      → SamePlaces m.kernel k'
      → p ≢ main
      → (is_tcb x ≡ true → is_tcb (m.holder p) ≡ true)
      → IsPrivileged main (record { kernel = k'; holder = update m.holder p x })
  unfolding update
  renewed-Privileged k' p x s n back = record {
    guarded = λ t e.
        same-Guarded main (IsTcb m) m.kernel k' s g.guarded t (elim (Bool-cases (t == p)) [
          | inl same ↦
              ap (λ q. is_tcb (m.holder q)) ((==_iff t p).0 same) ∙ back (sym (rw same refl) ∙ e)
          | inr other ↦ sym (rw other refl) ∙ e
        ]);
    main_held = update_ne m.holder p x main (λ e. n (sym e)) ∙ g.main_held;
  }

  pub kept-Privileged :
      (k' : Kernel)
      → SamePlaces m.kernel k'
      → IsPrivileged main (record { kernel = k'; holder = m.holder })
  kept-Privileged k' s = record {
    guarded = same-Guarded main (IsTcb m) m.kernel k' s g.guarded;
    main_held = g.main_held;
  }

  -- A thread that is made at `p`, where nobody was.
  pub new-Privileged :
      (k' : Kernel) (p : Ptr) (new : Tcb) (x : Holder)
      → m.holder p ≡ nobody
      → k'.tcbs ≡ update m.kernel.tcbs p new
      → place_of new ≡ (thread_wrapper, false)
      → IsPrivileged main (record { kernel = k'; holder = update m.holder p x })
  new-Privileged k' p new x unheld tcbs wrapped =
      let n = not_main p nobody unheld (λ f. cc) in
      record {
        guarded = λ t e. elim (Bool-cases (t == p)) [
          | inl same ↦
              let at = (==_iff t p).0 same in
              let here : place_of (k'.tcbs p) ≡ (thread_wrapper, false) =
                ap place_of (ap (λ f. f p) tcbs ∙ update_self m.kernel.tcbs p new) ∙ wrapped in
              subst (λ u. IsGuardedAt main u (place_of (k'.tcbs u))) (sym at)
                (subst (IsGuardedAt main p) (sym here) (sym (ne→== p main n), tt))
          | inr other ↦
              let d = differs t p other in
              let there = ap (λ f. f t) tcbs ∙ update_ne m.kernel.tcbs p new t d in
              subst (λ y. IsGuardedAt main t (place_of y)) (sym there)
                (g.guarded t (ap is_tcb (sym (update_ne m.holder p x t d)) ∙ e))
        ];
        main_held = update_ne m.holder p x main (λ e. n (sym e)) ∙ g.main_held;
      }

-- What the constructor of TCB writes.
abbrev pub fresh_tcb : Ptr → Ptr → Ptr → Tcb
fresh_tcb body stack arg = record {
  body = body;
  arg = arg;
  stack = if body == null then null else stack;
  context = thread_wrapper;
  time_slice = default_time_slice;
  sleep_time = 0;
  finished = false;
  blocked = false;
  asleep = false;
  semaphore_deleted = false;
  system_thread = false;
}

pub new_tcb-tcbs :
    (k : Kernel) (p body stack arg : Ptr) (create_only : Bool)
    → ((new_tcb k p body stack arg create_only).tcbs ≡ update k.tcbs p (fresh_tcb body stack arg))
      × ((new_tcb k p body stack arg create_only).running ≡ k.running)
unfolding new_tcb put
new_tcb-tcbs k p body stack arg create_only =
    elim (Bool-cases (not (body == null) && not create_only)) [
      | inl e ↦ rw e (refl, refl)
      | inr e ↦ rw e (refl, refl)
    ]

module _ (heap : HeapBounds) (main : Ptr) (m : Machine) (v : IsMachine heap m)
    (g : IsPrivileged main m) (pc st : ℕ) (mode : spp st ≡ (m.kernel.running == main)) where
  -- The end of a case, with a result.
  pub ends-Privileged :
      (c : Request) (k' : Kernel) (code : ℤ)
      → IsPrivileged main (
          after m c
            (record k' { saved_a0 = update k'.saved_a0 k'.running code; sepc = pc; sstatus = st }))
      → k'.running ≡ m.kernel.running
      → PrivilegedRun main m c (leave (save_a0 k' code) pc st)
  unfolding leave save_a0
  ends-Privileged c k' code w same = (w, mode ∙ ap (λ t. t == main) (sym same))
