-- ===== src/Registers.antt =====
-- h/riscv.hpp: the registers that the kernel reads and writes, each 64 bits wide, with the masks that
-- set and clear bits of sip and sstatus; and the mask that src/print.cpp puts around its work.
pub mod Masks
mod Tests
use os1_project.Prelude.{ℕ, zero, suc, ◌+◌, ◌-◌, ◌*◌, ◌/◌, ◌%◌, ◌==◌, if◌then◌else◌}
use Prim.Native.Nat.{min, max}

pub record Registers : Type 0 where
  pub a0 : ℕ
  pub a1 : ℕ
  pub a2 : ℕ
  pub a3 : ℕ
  pub a4 : ℕ
  pub scause : ℕ
  pub sepc : ℕ
  pub stvec : ℕ
  pub stval : ℕ
  pub sip : ℕ
  pub sstatus : ℕ

-- The lowest digits of two numbers, put together digit by digit.
unfoldable pub zip_bits : (ℕ → ℕ → ℕ) → ℕ → ℕ → ℕ → ℕ
zip_bits f zero a b = 0
zip_bits f (suc n) a b = let rest = zip_bits f n (a / 2) (b / 2) in rest * 2 + f (a % 2) (b % 2)

-- csrs, csrc and `&`, on 64 bits
abbrev pub set_bits : ℕ → ℕ → ℕ
set_bits = zip_bits max 64

abbrev pub clear_bits : ℕ → ℕ → ℕ
clear_bits = zip_bits (λ x y. x - y) 64

abbrev pub bit_and : ℕ → ℕ → ℕ
bit_and = zip_bits min 64

abbrev pub sip_ssip : ℕ
sip_ssip = 2

abbrev pub sip_stip : ℕ
sip_stip = 32

abbrev pub sip_seip : ℕ
sip_seip = 512

abbrev pub sstatus_sie : ℕ
sstatus_sie = 2

abbrev pub sstatus_spie : ℕ
sstatus_spie = 32

abbrev pub sstatus_spp : ℕ
sstatus_spp = 256

abbrev pub r_a0 : Registers → ℕ
r_a0 c = c.a0

abbrev pub w_a0 : Registers → ℕ → Registers
w_a0 c value = record c { a0 = value }

abbrev pub r_a1 : Registers → ℕ
r_a1 c = c.a1

abbrev pub w_a1 : Registers → ℕ → Registers
w_a1 c value = record c { a1 = value }

abbrev pub r_a2 : Registers → ℕ
r_a2 c = c.a2

abbrev pub r_a3 : Registers → ℕ
r_a3 c = c.a3

abbrev pub r_a4 : Registers → ℕ
r_a4 c = c.a4

abbrev pub r_scause : Registers → ℕ
r_scause c = c.scause

abbrev pub w_scause : Registers → ℕ → Registers
w_scause c value = record c { scause = value }

abbrev pub r_sepc : Registers → ℕ
r_sepc c = c.sepc

abbrev pub w_sepc : Registers → ℕ → Registers
w_sepc c value = record c { sepc = value }

abbrev pub r_stvec : Registers → ℕ
r_stvec c = c.stvec

abbrev pub w_stvec : Registers → ℕ → Registers
w_stvec c value = record c { stvec = value }

abbrev pub r_stval : Registers → ℕ
r_stval c = c.stval

abbrev pub w_stval : Registers → ℕ → Registers
w_stval c value = record c { stval = value }

abbrev pub r_sip : Registers → ℕ
r_sip c = c.sip

abbrev pub w_sip : Registers → ℕ → Registers
w_sip c value = record c { sip = value }

abbrev pub r_sstatus : Registers → ℕ
r_sstatus c = c.sstatus

abbrev pub w_sstatus : Registers → ℕ → Registers
w_sstatus c value = record c { sstatus = value }

unfoldable pub ms_sip : Registers → ℕ → Registers
ms_sip c mask = record c { sip = set_bits c.sip mask }

unfoldable pub mc_sip : Registers → ℕ → Registers
mc_sip c mask = record c { sip = clear_bits c.sip mask }

unfoldable pub ms_sstatus : Registers → ℕ → Registers
ms_sstatus c mask = record c { sstatus = set_bits c.sstatus mask }

unfoldable pub mc_sstatus : Registers → ℕ → Registers
mc_sstatus c mask = record c { sstatus = clear_bits c.sstatus mask }

-- What printInteger and printAddress do around their work: interrupts are off, and on again behind it
-- if they were on.
unfoldable pub without_interrupts : (Registers → Registers) → Registers → Registers
without_interrupts work c =
    let sstatus = r_sstatus c in
    ms_sstatus (work (mc_sstatus c sstatus_sie))
      (if bit_and sstatus sstatus_sie == 0 then 0 else sstatus_sie)
