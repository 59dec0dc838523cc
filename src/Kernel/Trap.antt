-- ===== src/Kernel/Trap.antt =====
-- The part of src/riscv.cpp that ends a trap or switches threads; contextSwitch is the choice of
-- where the handler goes on. The value that `sw t0, 80(x8)` stores in THREAD_EXIT is left out.
pub mod Handler
pub mod Yield
pub mod Masks
pub mod Exit
pub mod Making
use os1_project.Prelude.{
  ℕ, zero, suc, ◌+◌, ◌*◌, ◌/◌, ◌%◌, ◌^◌, Bool, true, false, ◌||◌, Option, none, some, List, [], ◌∷◌,
  ◌==◌, if◌then◌else◌,
}
use os1_project.Prelude.Int.{ℤ, pos, negsuc}
use os1_project.Kernel.{
  Ptr, null, Resume, thread_wrapper, behind_dispatch, behind_exit, behind_block, Tcb, Kernel,
  update, dispatch, Dispatch, returned, switched, null_context, create_thread,
  create_thread_without_starting, start_thread,
}
use os1_project.Kernel.Semaphore.{
  Call, returns, dispatches, dangling, to_int, open_sem, close, wait, signal, timedwait, trywait,
}

-- How a trap ends: by sret into the running thread, by an access through a null or dangling
-- pointer, by shutting the emulator down, or (in the model alone) out of fuel.
pub data Run : Type 0 where
  user : Kernel → Run
  fault : Run
  halted : Run
  out_of_fuel : Run

-- The registers a0 to a4 at the trap.
pub record Regs : Type 0 where
  pub a0 : ℕ
  pub a1 : ℕ
  pub a2 : ℕ
  pub a3 : ℕ
  pub a4 : ℕ

-- `sd a0, 10*8(fp)`: the value that the running thread finds in a0 after the trap
unfoldable pub save_a0 : Kernel → ℤ → Kernel
save_a0 k v = record k { saved_a0 = update k.saved_a0 k.running v }

-- The end of the first branch: w_sstatus(sstatus); w_sepc(sepc);
unfoldable pub leave : Kernel → ℕ → ℕ → Run
leave k sepc sstatus = user (record k { sepc = sepc; sstatus = sstatus })

abbrev pub code_of : Bool → ℤ
code_of deleted = if deleted then negsuc 0 else pos 0

-- popSppSpie: `csrw sepc, ra`, and SPP is bit 8 of sstatus, set for a system thread and cleared for any other.
abbrev pub sstatus_spp : ℕ
sstatus_spp = 2 ^ 8

unfoldable pub set_spp : ℕ → Bool → ℕ
set_spp sstatus system =
    let without = sstatus / (2 * sstatus_spp) * (2 * sstatus_spp) + sstatus % sstatus_spp in
    if system then without + sstatus_spp else without

unfoldable pub pop_spp_spie : Kernel → Kernel
pop_spp_spie k = record k {
  sepc = k.wrapper_ra;
  sstatus = set_spp k.sstatus (k.tcbs k.running).system_thread;
}

-- The code behind contextSwitch, in the thread whose context was loaded.
unfoldable pub resume : ℕ → Kernel → Resume → Run
resume zero k r = out_of_fuel
resume (suc fuel) k thread_wrapper = user (pop_spp_spie k)
resume (suc fuel) k (behind_dispatch sepc sstatus) = leave k sepc sstatus
resume (suc fuel) k (behind_block sepc sstatus) =
    leave (save_a0 k (code_of (k.tcbs k.running).semaphore_deleted)) sepc sstatus
resume (suc fuel) k (behind_exit sepc sstatus) =
    elim (dispatch (record k { time_slice_counter = 0 }) (behind_dispatch sepc sstatus)) [
      | returned k' ↦ leave k' sepc sstatus
      | switched k' r ↦ resume fuel k' r
      | null_context ↦ fault
    ]

unfoldable pub after_dispatch : ℕ → Dispatch → ℕ → ℕ → Run
after_dispatch fuel (returned k) sepc sstatus = leave k sepc sstatus
after_dispatch fuel (switched k r) sepc sstatus = resume fuel k r
after_dispatch fuel null_context sepc sstatus = fault

-- The end of each semaphore call of the handler.
unfoldable pub finish_call : ℕ → Call → ℕ → ℕ → Run
finish_call fuel (returns k code) sepc sstatus = leave (save_a0 k code) sepc sstatus
finish_call fuel (dispatches k) sepc sstatus = elim (dispatch k (behind_block sepc sstatus)) [
  | returned k' ↦ leave (save_a0 k' (code_of (k'.tcbs k'.running).semaphore_deleted)) sepc sstatus
  | switched k' r ↦ resume fuel k' r
  | null_context ↦ fault
]
finish_call fuel dangling sepc sstatus = fault

-- case THREAD_DISPATCH
unfoldable pub thread_dispatch_case : ℕ → Kernel → ℕ → ℕ → Run
thread_dispatch_case fuel k sepc sstatus =
    after_dispatch fuel
      (dispatch (record k { time_slice_counter = 0 }) (behind_dispatch sepc sstatus)) sepc sstatus

-- setFinished(true) on the running thread
abbrev pub with_finished : Kernel → Kernel
with_finished k = record k {
  tcbs = update k.tcbs k.running (record (k.tcbs k.running) { finished = true });
}

-- case THREAD_EXIT, which has no `break`: what returns from it falls through to THREAD_DISPATCH.
unfoldable pub thread_exit_case : ℕ → Kernel → ℕ → ℕ → Run
thread_exit_case fuel k sepc sstatus =
    if k.running == null
    then thread_dispatch_case fuel k sepc sstatus
    else let ended = record k {
      tcbs = update k.tcbs k.running (record (k.tcbs k.running) { finished = true });
      time_slice_counter = 0;
    } in
      elim (dispatch ended (behind_exit sepc sstatus)) [
        | returned k' ↦ thread_dispatch_case fuel k' sepc sstatus
        | switched k' t ↦ resume fuel k' t
        | null_context ↦ fault
      ]
