-- ===== src/Kernel/Machine/Privilege/Histories.antt =====
-- The mode of the processor after every execution.
use os1_project.Prelude.{
  ℕ, suc, ◌+◌, ◌%◌, ◌^◌, ◌≡◌, ◌≢◌, refl, sym, ap, ◌∙◌, subst, inl, inr, Bool, true, ◌==◌, ne→==,
  Bool-cases,
}
use os1_project.Allocator.{HeapBounds}
use os1_project.Allocator.History.{IsHeap}
use os1_project.Kernel.{Ptr, Kernel}
use os1_project.Kernel.Trap.{Run, user, fault, halted, out_of_fuel, Regs, leave}
use os1_project.Kernel.Trap.Handler.{handle_supervisor_trap}
use os1_project.Kernel.Trap.Yield.{UserUntouched, handle_supervisor_trap-Untouched}
use os1_project.Kernel.Interface.{Request, give_up, thread_wrapper_end}
use os1_project.Kernel.Places.Modes.{spp, GuardedRun}
use os1_project.Kernel.Places.{place_of}
use os1_project.Kernel.Machine.{Machine, Allowed, IsMachine, Continues, after, moved}
use os1_project.Kernel.Machine.Memory.{kept-IsMachine}
use os1_project.Kernel.Machine.Nodes.{NodeStep-IsMachine, NodeStep-running}
use os1_project.Kernel.Machine.Scheduling.{wrapper_end-Continues}
use os1_project.Kernel.Machine.Histories.{perform-Continues, stack-IsMachine}
use os1_project.Kernel.Machine.Privilege.{
  IsTcb, IsPrivileged, PrivilegedRun, trap_from, Execution, begun, call, stack, list_node, body_end,
  interrupt,
}
use os1_project.Kernel.Machine.Privilege.Cases.{kept-Privileged}
use os1_project.Kernel.Machine.Privilege.Calls.{
  trap_from-perform, perform-Privileged, wrapper_end-Guarded, stack-Privileged, NodeStep-Privileged,
}

abbrev SameStatus : Kernel → Run → Type 0
SameStatus k (user k') = k'.sstatus ≡ k.sstatus
SameStatus k fault = Unit
SameStatus k halted = Unit
SameStatus k out_of_fuel = Unit

-- An interrupt goes back with the sstatus that it came with.
interrupt-SameStatus :
    (heap : HeapBounds) (fuel : ℕ) (k : Kernel) (scause : ℕ) (r : Regs) (input : ℕ)
    → scause ≢ 8
    → scause ≢ 9
    → SameStatus k (handle_supervisor_trap heap fuel k scause r input)
unfolding handle_supervisor_trap leave
interrupt-SameStatus heap fuel k scause r input u s =
    rw (ne→== scause 8 u, ne→== scause 9 s)
      (elim (Bool-cases (scause == 0x8000000000000001)) [
        | inl timer ↦ rw timer refl
        | inr other ↦ elim (Bool-cases (scause == 0x8000000000000009)) [
          | inl external ↦ rw (other, external) refl
          | inr unknown ↦ rw (other, unknown) tt
        ]
      ])

-- The machine is in order, and in supervisor mode exactly while main's thread runs.
pub record IsConfined (heap : HeapBounds) (main : Ptr) (m : Machine) (mode : Bool) : Type 0 where
  pub machine : IsMachine heap m
  pub privileged : IsPrivileged main m
  pub same_mode : mode ≡ (m.kernel.running == main)

module _ (heap : HeapBounds) (good : IsHeap heap) (main : Ptr) where
  moved-IsConfined :
      (m : Machine) (mode : Bool) (words : Ptr → ℕ) (pc st : ℕ)
      → IsConfined heap main m mode
      → IsConfined heap main (moved m words pc st) mode
  moved-IsConfined m mode words pc st w = record {
    machine = kept-IsMachine heap m w.machine _ (refl, refl, refl, refl) refl;
    privileged =
        kept-Privileged main m w.privileged _
          (record { same_running = refl; same_place = λ t. refl });
    same_mode = w.same_mode;
  }

  call-IsConfined :
      (m : Machine) (mode : Bool) (c : Request) (fuel input : ℕ) (k' : Kernel)
      → IsConfined heap main m mode
      → spp m.kernel.sstatus ≡ mode
      → Allowed heap m c
      → trap_from mode heap (suc fuel) m.kernel c input ≡ user k'
      → IsConfined heap main (after m c k') (spp k'.sstatus)
  call-IsConfined m mode c fuel input k' w st a e =
      let pc = (m.kernel.sepc + 4) % 2 ^ 64 in
      let done = sym (trap_from-perform mode heap (suc fuel) m.kernel c input) ∙ e in
      let p = subst (PrivilegedRun main m c) done (
        perform-Privileged heap main m w.machine w.privileged pc m.kernel.sstatus (st ∙ w.same_mode)
          good c (suc fuel) input a) in
      record {
        machine =
            subst (Continues heap m c) done
              (perform-Continues heap good m c fuel input pc m.kernel.sstatus w.machine a);
        privileged = p.0;
        same_mode = p.1;
      }

  body_end-IsConfined :
      (m : Machine) (mode : Bool) (fuel : ℕ) (k' : Kernel)
      → IsConfined heap main m mode
      → spp m.kernel.sstatus ≡ mode
      → thread_wrapper_end heap (suc fuel) m.kernel ≡ user k'
      → IsConfined heap main (record m { kernel = k' }) (spp k'.sstatus)
  body_end-IsConfined m mode fuel k' w st e =
      let p =
        subst (GuardedRun main (IsTcb m)) e
          (wrapper_end-Guarded heap main m w.machine w.privileged (suc fuel) (st ∙ w.same_mode)) in
      record {
        machine = subst (Continues heap m give_up) e (wrapper_end-Continues heap m w.machine fuel);
        privileged = record { guarded = p.0; main_held = w.privileged.main_held };
        same_mode = p.1;
      }

  interrupt-IsConfined :
      (m : Machine) (mode : Bool) (scause fuel input : ℕ) (r : Regs) (k' : Kernel)
      → IsConfined heap main m mode
      → spp m.kernel.sstatus ≡ mode
      → scause ≢ 8
      → scause ≢ 9
      → handle_supervisor_trap heap fuel m.kernel scause r input ≡ user k'
      → IsConfined heap main (record m { kernel = k' }) (spp k'.sstatus)
  interrupt-IsConfined m mode scause fuel input r k' w st x y e =
      let u =
        subst (UserUntouched m.kernel) e
          (handle_supervisor_trap-Untouched heap fuel m.kernel scause r input x y) in
      let same =
        subst (SameStatus m.kernel) e
          (interrupt-SameStatus heap fuel m.kernel scause r input x y) in
      record {
        machine =
            kept-IsMachine heap m w.machine k'
              (u.same_running, u.same_tcbs, u.same_queue, u.same_sems) u.same_allocator;
        privileged = kept-Privileged main m w.privileged k' (record {
          same_running = u.same_running;
          same_place = λ t. ap (λ f. place_of (f t)) u.same_tcbs;
        });
        same_mode = ap spp same ∙ st ∙ w.same_mode ∙ ap (λ t. t == main) (sym u.same_running);
      }

  -- From a machine in supervisor mode on that is in order and in which main's thread runs, the only
  -- system thread, whatever the code above the kernel does within what is allowed: the machine stays
  -- in order, and the processor is in supervisor mode exactly while main's thread runs.
  pub Execution-IsConfined :
      (m n : Machine) (mode : Bool)
      → IsConfined heap main m true
      → Execution heap m n mode
      → IsConfined heap main n mode
  Execution-IsConfined m n mode w begun = w
  Execution-IsConfined m n mode w
        (call {n = n'} {mode = b} words pc st c fuel input {k' = k'} r s a e) =
      let before = moved-IsConfined n' b words pc st (Execution-IsConfined m n' b w r) in
      call-IsConfined (moved n' words pc st) b c fuel input k' before s a e
  Execution-IsConfined m n mode w (stack {n = n'} {a = a} p r e) =
      let before = Execution-IsConfined m n' mode w r in
      record {
        machine = stack-IsMachine heap good n' a p before.machine e;
        privileged = stack-Privileged heap main n' before.machine before.privileged a p e;
        same_mode = before.same_mode;
      }
  Execution-IsConfined m n mode w (list_node {n = n'} r s) =
      let before = Execution-IsConfined m n' mode w r in
      record {
        machine = NodeStep-IsMachine heap n' n good before.machine s;
        privileged = NodeStep-Privileged heap main n' n before.machine before.privileged s;
        same_mode = before.same_mode ∙ ap (λ t. t == main) (sym (NodeStep-running heap n' n s));
      }
  Execution-IsConfined m n mode w (body_end {n = n'} {mode = b} words pc st fuel {k' = k'} r s e) =
      let before = moved-IsConfined n' b words pc st (Execution-IsConfined m n' b w r) in
      body_end-IsConfined (moved n' words pc st) b fuel k' before s e
  Execution-IsConfined m n mode w
        (interrupt {n = n'} {mode = b} words pc st scause fuel input h {k' = k'} r s x y e) =
      let before = moved-IsConfined n' b words pc st (Execution-IsConfined m n' b w r) in
      interrupt-IsConfined (moved n' words pc st) b scause fuel input h k' before s x y e
