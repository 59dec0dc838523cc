-- ===== src/Kernel/Trap/Handler.antt =====
-- Riscv::handleSupervisorTrap of src/riscv.cpp: the system calls and the other causes of a trap.
-- `input` is what __getc returns. The messages that the handler prints are left out.
use os1_project.Prelude.{
  ℕ, ◌+◌, ◌*◌, ◌/◌, ◌%◌, ◌^◌, Bool, false, ◌||◌, not, Option, none, some, [], ◌∷◌, ◌++◌, ◌==◌,
  if◌then◌else◌,
}
use os1_project.Prelude.Int.{ℤ, pos, negsuc}
use os1_project.Allocator
use os1_project.Allocator.{HeapBounds, bytes_in_blocks}
use os1_project.Allocator.Release
use os1_project.Kernel.{
  Ptr, null, Kernel, update, create_thread, create_thread_without_starting, start_thread,
}
use os1_project.Kernel.Semaphore.{
  returns, to_int, open_sem, close, wait, signal, timedwait, trywait,
}
use os1_project.Kernel.Trap.{
  Run, user, halted, out_of_fuel, Regs, save_a0, leave, finish_call, thread_dispatch_case,
  thread_exit_case,
}

-- sizeof(TCB) and sizeof(Sem) on the 64-bit target
abbrev pub size_of_tcb : ℕ
size_of_tcb = 64

abbrev pub size_of_sem : ℕ
size_of_sem = 48

abbrev pub is_zero : ℤ → Bool
is_zero (pos n) = n == 0
is_zero (negsuc n) = false

-- SSIP is bit 1 of sip.
unfoldable pub mc_sip_ssip : ℕ → ℕ
mc_sip_ssip sip = sip / 4 * 4 + sip % 2

module _ (heap : HeapBounds) where
  -- `operator new`, which is mem_alloc of the C interface, and so one more trap to MEM_ALLOC
  unfoldable pub operator_new : Kernel → ℕ → Option (Kernel × Ptr)
  operator_new k n = elim (Allocator.mem_alloc heap k.allocator (bytes_in_blocks n)) [
    | none ↦ none
    | some (a, p) ↦ some (record k { allocator = a }, p)
  ]

  unfoldable pub operator_delete : Kernel → Ptr → Option Kernel
  operator_delete k p = elim (Release.mem_free heap k.allocator p) [
    | none ↦ none
    | some (a, code) ↦ some (record k { allocator = a })
  ]

  unfoldable pub mem_alloc_case : Kernel → ℕ → ℕ → ℕ → Run
  mem_alloc_case k size sepc sstatus = elim (Allocator.mem_alloc heap k.allocator size) [
    | none ↦ out_of_fuel
    | some (a, p) ↦ leave (save_a0 (record k { allocator = a }) (pos p)) sepc sstatus
  ]

  unfoldable pub mem_free_case : Kernel → Ptr → ℕ → ℕ → Run
  mem_free_case k addr sepc sstatus = elim (Release.mem_free heap k.allocator addr) [
    | none ↦ out_of_fuel
    | some (a, code) ↦ leave (save_a0 (record k { allocator = a }) code) sepc sstatus
  ]

  -- a1: handle, a2: startFunction, a3: arg, a4: stack
  unfoldable pub thread_create_case : Kernel → Regs → ℕ → ℕ → Run
  thread_create_case k r sepc sstatus =
      if r.a1 == null
      then leave (save_a0 k (negsuc 1)) sepc sstatus
      else elim (operator_new k size_of_tcb) [
        | none ↦ out_of_fuel
        | some (k', fresh) ↦
            let (made, t) = create_thread k' fresh r.a2 r.a4 r.a3 in
            leave
              (save_a0 (record made { words = update made.words r.a1 t })
                (if t == null then negsuc 0 else pos 0))
              sepc sstatus
      ]

  unfoldable pub thread_create_without_start_case : Kernel → Regs → ℕ → ℕ → Run
  thread_create_without_start_case k r sepc sstatus =
      if r.a1 == null
      then leave (save_a0 k (negsuc 1)) sepc sstatus
      else elim (operator_new k size_of_tcb) [
        | none ↦ out_of_fuel
        | some (k', fresh) ↦
            let (made, t) = create_thread_without_starting k' fresh r.a2 r.a4 r.a3 in
            leave
              (save_a0 (record made { words = update made.words r.a1 t })
                (if t == null then negsuc 0 else pos 0))
              sepc sstatus
      ]

  unfoldable pub thread_start_case : Kernel → Ptr → ℕ → ℕ → Run
  thread_start_case k thread sepc sstatus =
      let (k', code) = start_thread k thread in leave (save_a0 k' code) sepc sstatus

  unfoldable pub sem_open_case : Kernel → Regs → ℕ → ℕ → Run
  sem_open_case k r sepc sstatus =
      if r.a1 == null
      then leave (save_a0 k (negsuc 1)) sepc sstatus
      else elim (operator_new k size_of_sem) [
        | none ↦ out_of_fuel
        | some (k', fresh) ↦
            let (made, ret) = open_sem k' fresh r.a1 (to_int r.a2) in
            leave
              (save_a0 made
                (if made.words r.a1 == null || not (is_zero ret) then negsuc 0 else pos 0))
              sepc sstatus
      ]

  -- `delete handle` stands at the end of Sem::close.
  unfoldable pub sem_close_case : Kernel → Ptr → ℕ → ℕ → ℕ → Run
  sem_close_case k handle fuel sepc sstatus = elim (close k handle) [
    | none ↦ out_of_fuel
    | some (returns k' code) ↦
        elim (if handle == null then some k' else operator_delete k' handle) [
          | none ↦ out_of_fuel
          | some k'' ↦ finish_call fuel (returns k'' code) sepc sstatus
        ]
    | some c ↦ finish_call fuel c sepc sstatus
  ]

  -- The `switch` on codeOperation, which is a0.
  unfoldable pub system_call : ℕ → Kernel → Regs → ℕ → ℕ → ℕ → Run
  system_call fuel k r input sepc sstatus =
      if r.a0 == 0x01
      then mem_alloc_case k r.a1 sepc sstatus
      else if r.a0 == 0x02
      then mem_free_case k r.a1 sepc sstatus
      else if r.a0 == 0x11
      then thread_create_case k r sepc sstatus
      else if r.a0 == 0x14
      then thread_create_without_start_case k r sepc sstatus
      else if r.a0 == 0x15
      then thread_start_case k r.a1 sepc sstatus
      else if r.a0 == 0x12
      then thread_exit_case fuel k sepc sstatus
      else if r.a0 == 0x13
      then thread_dispatch_case fuel k sepc sstatus
      else if r.a0 == 0x21
      then sem_open_case k r sepc sstatus
      else if r.a0 == 0x22
      then sem_close_case k r.a1 fuel sepc sstatus
      else if r.a0 == 0x23
      then finish_call fuel (wait k r.a1) sepc sstatus
      else if r.a0 == 0x24
      then finish_call fuel (signal k r.a1) sepc sstatus
      else if r.a0 == 0x25
      then finish_call fuel (timedwait k r.a1 r.a2) sepc sstatus
      else if r.a0 == 0x26
      then finish_call fuel (trywait k r.a1) sepc sstatus
      else if r.a0 == 0x31
      then leave k sepc sstatus
      else if r.a0 == 0x41
      then leave (save_a0 k (pos (input % 256))) sepc sstatus
      else if r.a0 == 0x42
      then leave (record k { put_chars = k.put_chars ++ (r.a1 % 256) ∷ [] }) sepc sstatus
      else leave k sepc sstatus

  -- scause 8 and 9: ecall from U-mode and S-mode; the two others have the interrupt bit 63.
  unfoldable pub handle_supervisor_trap : ℕ → Kernel → ℕ → Regs → ℕ → Run
  handle_supervisor_trap fuel k scause r input =
      let sepc = (k.sepc + 4) % 2 ^ 64 in
      let sstatus = k.sstatus in
      if scause == 8 || scause == 9
      then system_call fuel k r input sepc sstatus
      else if scause == 0x8000000000000001
      then leave (record k { sip = mc_sip_ssip k.sip }) sepc sstatus
      else if scause == 0x8000000000000009
      then user (record k { console_interrupts = k.console_interrupts + 1 })
      else halted
