-- ===== src/Registers/Tests.antt =====
-- The mask of src/print.cpp with interrupts on.
use os1_project.Prelude.{◌≡◌, ◌/◌, ◌%◌, ◌*◌, ◌+◌, arith}
use os1_project.Registers.{Registers, mc_sstatus, sstatus_sie, without_interrupts}
use os1_project.Registers.Masks.{without_interrupts-restores}

abbrev registers : Registers
registers = record {
  a0 = 0;
  a1 = 0;
  a2 = 0;
  a3 = 0;
  a4 = 0;
  scause = 8;
  sepc = 96;
  stvec = 4;
  stval = 0;
  sip = 0;
  sstatus = 258;
}

-- What one ecall of putc leaves of sstatus when sret has come back: by the privileged architecture the
-- trap moves SIE to SPIE and sret moves it back, SPIE (bit 5) is then set and SPP (bit 8) cleared.
abbrev after_ecall : Registers → Registers
after_ecall d = record d {
  sstatus = d.sstatus / 512 * 512 + d.sstatus % 256 / 64 * 64 + 32 + d.sstatus % 32;
}

-- Three characters, with interrupts on before
without_interrupts-restores_example :
    ((mc_sstatus registers sstatus_sie).sstatus / 2 % 2 ≡ 0)
    × ((after_ecall (after_ecall (after_ecall (mc_sstatus registers sstatus_sie)))).sstatus / 2 % 2
        ≡ 0)
    × ((without_interrupts (λ d. after_ecall (after_ecall (after_ecall d))) registers).sstatus
        ≡ (after_ecall (after_ecall (after_ecall (mc_sstatus registers sstatus_sie)))).sstatus
            / 4
            * 4
          + 1 * 2
          + (after_ecall (after_ecall (after_ecall (mc_sstatus registers sstatus_sie)))).sstatus
            % 2)
without_interrupts-restores_example =
    without_interrupts-restores (λ d. after_ecall (after_ecall (after_ecall d))) registers
      (omega arith) (λ d h. (omega arith, omega arith))
